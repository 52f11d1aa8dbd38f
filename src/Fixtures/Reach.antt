-- ===== src/Fixtures/Reach.antt =====
-- The loop of `sensor_available_at`. Times are in nanoseconds: `clock i` is what `time.time()` gives
-- at the i-th test of the `while`, and `result i` what `connect_ex` returns behind it.
use schunk_fts_ros.Base.{
  ℕ, zero, suc, ◌+◌, ◌*◌, ◌/◌, ◌≤◌, ◌<◌, ◌≡◌, Bool, true, false, ◌||◌, Option, none, some, ltb,
  ◌==◌, if◌then◌else◌, Bool-cases, inl, inr, arith,
}

abbrev pub pause : ℕ
pause = 100000000

-- `result == 0 or result in (98, 106)`
unfoldable pub is_reachable : ℕ → Bool
is_reachable result = result == 0 || (result == 98 || result == 106)

-- The `while`, from the i-th test on, with `deadline` for `start + timeout_sec`; `none` means that
-- the fuel ran out.
unfoldable pub sensor_available_at : ℕ → (ℕ → ℕ) → (ℕ → ℕ) → ℕ → ℕ → Option Bool
sensor_available_at zero result clock deadline i = none
sensor_available_at (suc fuel) result clock deadline i =
    let rest = sensor_available_at fuel result clock deadline (i + 1) in
    if ltb (clock i) deadline
    then if is_reachable (result i) then some true else rest
    else some false

-- A round lasts a pause at least.
abbrev pub Pauses : (ℕ → ℕ) → Type 0
Pauses clock = (i : ℕ) → clock i + pause ≤ clock (i + 1)

-- What the answer says of the tries from the i-th on: true, that one in time was accepted; false,
-- that all tries were refused until the time was up.
abbrev pub Says : (ℕ → ℕ) → (ℕ → ℕ) → ℕ → ℕ → Bool → Type 0
Says result clock deadline i true =
    (k : ℕ) × (i ≤ k) × (clock k < deadline) × (is_reachable (result k) ≡ true)
Says result clock deadline i false =
    (k : ℕ) × (i ≤ k)
    × (deadline ≤ clock k)
    × ((j : ℕ) → i ≤ j → j < k → is_reachable (result j) ≡ false)

abbrev Ends : (ℕ → ℕ) → (ℕ → ℕ) → ℕ → ℕ → Option Bool → Type 0
Ends result clock deadline i r = (b : Bool) × (r ≡ some b) × Says result clock deadline i b

Says-next :
    (result clock : ℕ → ℕ) (deadline i : ℕ) (b : Bool)
    → is_reachable (result i) ≡ false
    → Says result clock deadline (i + 1) b
    → Says result clock deadline i b
Says-next result clock deadline i true refused (k, le, early, reached) =
    (k, omega arith, early, reached)
Says-next result clock deadline i false refused (k, le, late, before) = (
  k,
  omega arith,
  late,
  λ j p q. elim (Bool-cases (j == i)) [
    | inl e ↦ (let same : j ≡ i = ground arith in rw same refused)
    | inr e ↦ before j (ground arith) q
  ],
)

sensor_available_at_step :
    (result clock : ℕ → ℕ) (deadline fuel i : ℕ)
    → (clock i < deadline
        → Ends result clock deadline
            (i + 1)
            (sensor_available_at fuel result clock deadline (i + 1)))
    → Ends result clock deadline i (sensor_available_at (suc fuel) result clock deadline i)
unfolding sensor_available_at
sensor_available_at_step result clock deadline fuel i again =
    elim (Bool-cases (ltb (clock i) deadline)) [
      | inr late ↦ (false, rw late, (i, omega arith, ground arith, λ j p q. absurd (omega arith)))
      | inl early ↦ elim (Bool-cases (is_reachable (result i))) [
        | inl reached ↦ (true, rw (early, reached), (i, omega arith, ground arith, reached))
        | inr refused ↦
            (let (b, e, says) = again (ground arith) in
              (b, rw (early, refused) e, Says-next result clock deadline i b refused says))
      ]
    ]

sensor_available_at-Ends :
    (result clock : ℕ → ℕ) (deadline fuel i : ℕ)
    → Pauses clock
    → deadline ≤ clock i + fuel * pause
    → Ends result clock deadline i (sensor_available_at (suc fuel) result clock deadline i)
sensor_available_at-Ends result clock deadline zero i h m =
    sensor_available_at_step result clock deadline zero i (λ early. absurd (omega arith))
sensor_available_at-Ends result clock deadline (suc fuel) i h m =
    sensor_available_at_step result clock deadline (suc fuel) i
      (λ early. sensor_available_at-Ends result clock deadline fuel (i + 1) h (omega (arith, h i)))

-- If each pause lasts a tenth of a second or more, `sensor_available_at` returns after a test of
-- the time for each tenth of a second of its timeout and two more; it returns true if a try in
-- time was accepted, and false if all tries until the time was up were refused.
pub sensor_available_at_ends :
    (result clock : ℕ → ℕ) (start timeout : ℕ)
    → Pauses clock
    → start ≤ clock 0
    → (b : Bool) × (sensor_available_at
          (suc (suc (timeout / pause)))
          result
          clock
          (start + timeout)
          0
        ≡ some b)
      × Says result clock (start + timeout) 0 b
sensor_available_at_ends result clock start timeout h first =
    sensor_available_at-Ends result clock (start + timeout) (suc (timeout / pause)) 0 h
      (omega arith)
