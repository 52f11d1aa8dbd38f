-- ===== src/Sensor/Wait.antt =====
-- The wait of `streaming_on` in schunk_fts_library/schunk_fts_library/driver.py for the update
-- thread to open the stream. Times are in nanoseconds. `is_open i` is what the stream says at the
-- i-th test, and `clock i` what `time.time()` gives behind the i-th `time.sleep(0.01)`.
use schunk_fts_ros.Base.{
  ℕ, zero, suc, ◌+◌, ◌*◌, ◌/◌, ◌≤◌, ◌<◌, ◌≡◌, ap, Bool, true, false, Option, none, some, Result,
  arith, ltb, ◌==◌, if◌then◌else◌, Bool-cases, inl, inr,
}
use schunk_fts_ros.Sensor.{Sensor, streaming_on}
use schunk_fts_ros.Sensor.Streaming.{Tells, streaming_on-Tells}

abbrev pub sleep : ℕ
sleep = 10000000

-- The `while`, from the i-th test on; `none` means that the fuel ran out.
unfoldable pub wait_open : ℕ → (ℕ → Bool) → (ℕ → ℕ) → ℕ → ℕ → Option Bool
wait_open zero is_open clock max_duration i = none
wait_open (suc fuel) is_open clock max_duration i =
    let rest = wait_open fuel is_open clock max_duration (i + 1) in
    if is_open i then some true else if ltb max_duration (clock i) then some false else rest

-- What follows the wait.
unfoldable pub after_wait : Bool → Sensor → Option Bool → Option (Sensor × Result Bool)
after_wait auto_reconnect s none = none
after_wait auto_reconnect s (some stream_opens) = some (streaming_on stream_opens auto_reconnect s)

-- `streaming_on` with its wait; a driver that streams already, or cannot connect, does not look at
-- what the wait says.
unfoldable pub start : ℕ → (ℕ → Bool) → (ℕ → ℕ) → ℕ → Bool → Sensor → Option (Sensor × Result Bool)
unfolding after_wait
start fuel is_open clock max_duration auto_reconnect s =
    after_wait auto_reconnect s (wait_open fuel is_open clock max_duration 0)

-- The clock goes on by a sleep at least from one reading to the next.
abbrev pub Sleeps : (ℕ → ℕ) → Type 0
Sleeps clock = (i : ℕ) → clock i + sleep ≤ clock (i + 1)

-- What the answer of the wait says of the tests from the i-th on: true, that the stream was open
-- at one of them and shut, with time left, at those before; false, that it was shut at all of them
-- up to one behind which the time was up.
abbrev pub Says : (ℕ → Bool) → (ℕ → ℕ) → ℕ → ℕ → Bool → Type 0
Says is_open clock max_duration i true =
    (k : ℕ) × (i ≤ k)
    × (is_open k ≡ true)
    × ((j : ℕ) → i ≤ j → j < k → (is_open j ≡ false) × (clock j ≤ max_duration))
Says is_open clock max_duration i false =
    (k : ℕ) × (i ≤ k) × (max_duration < clock k) × ((j : ℕ) → i ≤ j → j ≤ k → is_open j ≡ false)

Says-next :
    (is_open : ℕ → Bool) (clock : ℕ → ℕ) (max_duration i : ℕ) (b : Bool)
    → is_open i ≡ false
    → clock i ≤ max_duration
    → Says is_open clock max_duration (i + 1) b
    → Says is_open clock max_duration i b
Says-next is_open clock max_duration i true shut early (k, le, o, before) = (
  k,
  omega arith,
  o,
  λ j p q. elim (Bool-cases (j == i)) [
    | inl e ↦ (let same : j ≡ i = ground arith in rw same (shut, early))
    | inr e ↦ before j (ground arith) q
  ],
)
Says-next is_open clock max_duration i false shut early (k, le, up, before) = (
  k,
  omega arith,
  up,
  λ j p q. elim (Bool-cases (j == i)) [
    | inl e ↦ (let same : j ≡ i = ground arith in rw same shut)
    | inr e ↦ before j (ground arith) q
  ],
)

abbrev Ends : (ℕ → Bool) → (ℕ → ℕ) → ℕ → ℕ → Option Bool → Type 0
Ends is_open clock max_duration i r =
    (b : Bool) × (r ≡ some b) × Says is_open clock max_duration i b

wait_open_step :
    (is_open : ℕ → Bool) (clock : ℕ → ℕ) (max_duration fuel i : ℕ)
    → (is_open i ≡ false
        → clock i ≤ max_duration
        → Ends is_open clock max_duration
            (i + 1)
            (wait_open fuel is_open clock max_duration (i + 1)))
    → Ends is_open clock max_duration i (wait_open (suc fuel) is_open clock max_duration i)
unfolding wait_open
wait_open_step is_open clock max_duration fuel i again = elim (Bool-cases (is_open i)) [
  | inl o ↦ (true, rw o, (i, omega arith, o, λ j p q. absurd (omega arith)))
  | inr shut ↦ elim (Bool-cases (ltb max_duration (clock i))) [
    | inl late ↦ (
      false,
      rw (shut, late),
      (i, omega arith, ground arith, λ j p q. (let same : j ≡ i = omega arith in rw same shut)),
    )
    | inr early ↦
        (let (b, e, says) = again shut (ground arith) in
          (
            b,
            rw (shut, early) e,
            Says-next is_open clock max_duration i b shut (ground arith) says,
          ))
  ]
]

-- With enough fuel for the time that is left, the wait ends.
wait_open-Ends :
    (is_open : ℕ → Bool) (clock : ℕ → ℕ) (max_duration fuel i : ℕ)
    → Sleeps clock
    → max_duration < clock i + fuel * sleep
    → Ends is_open clock max_duration i (wait_open (suc fuel) is_open clock max_duration i)
wait_open-Ends is_open clock max_duration zero i h m =
    wait_open_step is_open clock max_duration zero i (λ shut early. absurd (omega arith))
wait_open-Ends is_open clock max_duration (suc fuel) i h m =
    wait_open_step is_open clock max_duration (suc fuel) i
      (λ shut early. wait_open-Ends is_open clock max_duration fuel (i + 1) h (omega (arith, h i)))

-- If each sleep lasts ten milliseconds or more, `streaming_on` returns or raises after a test of
-- the stream for each ten milliseconds of its timeout and one more, and what the wait told it is
-- true of these tests; then the driver is streaming exactly if it returned true, or raised.
pub start_ends :
    (is_open : ℕ → Bool) (clock : ℕ → ℕ) (now timeout : ℕ) (auto_reconnect : Bool) (s : Sensor)
    → Sleeps clock
    → now + sleep ≤ clock 0
    → (b : Bool) × Says is_open clock (now + timeout) 0 b
      × (start (suc (timeout / sleep)) is_open clock (now + timeout) auto_reconnect s
          ≡ some (streaming_on b auto_reconnect s))
      × Tells (streaming_on b auto_reconnect s)
unfolding start
start_ends is_open clock now timeout auto_reconnect s h first =
    let (b, e, says) =
      wait_open-Ends is_open clock (now + timeout) (timeout / sleep) 0 h (omega arith) in
    (b, says, ap (after_wait auto_reconnect s) e, streaming_on-Tells b auto_reconnect s)
