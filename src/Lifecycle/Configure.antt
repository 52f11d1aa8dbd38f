-- ===== src/Lifecycle/Configure.antt =====
-- When `on_configure` succeeds.
use schunk_fts_ros.Base.{
  ℕ, ◌%◌, ◌==◌, ◌≡◌, refl, ◌∙◌, Bool, Bool-cases, inl, inr, true, false, none, some, Option,
  if◌then◌else◌, Result, ok, err, is_ok, arith,
}
use schunk_fts_ros.Base.Act.{Act, continue, pure}
use schunk_fts_ros.Packet.{FtData}
use schunk_fts_ros.Status.{SensorStatus, from_bits}
use schunk_fts_ros.Sensor.{Sensor, streaming_on, get_status, sample, status_of}
use schunk_fts_ros.Node.{get_status_level, status_level_from_bits}
use schunk_fts_ros.Node.Levels.{levels_agree}
use schunk_fts_ros.Node.Publish.{is_ok_level}
use schunk_fts_ros.Lifecycle
use schunk_fts_ros.Lifecycle.{Lifecycle, Transition, success, failure, judge_status, on_sensor}

-- Of the six status flags, `ready` alone is set.
abbrev pub is_ready : Result (Option FtData) → Bool
is_ready (ok (some d)) = d.status_bits % 64 == 1
is_ready (ok none) = false
is_ready (err e) = false

-- The driver is streaming, and the sample that is there tells that the sensor is ready.
abbrev pub is_usable : ℕ → Sensor → Bool
is_usable now s = if s.is_streaming then is_ready (sample now s).1 else false

-- The result of a transition, and the flag that the publishing thread reads.
abbrev pub Judged : Bool → Lifecycle × Result Transition → Type 0
Judged b (l, r) = (r ≡ ok (if b then success else failure)) × (l.node.is_sensor_ok ≡ b)

level-ready :
    (bits : ℕ) → is_ok_level (get_status_level (some (from_bits bits))).0 ≡ (bits % 64 == 1)
level-ready bits = rw (levels_agree bits) (unfold status_level_from_bits in ground arith)

continue_lem :
    {A B : Type 0}
    → (P : Lifecycle × Result B → Type 0) (r : Result A) (f : A → Act Lifecycle B) (l : Lifecycle)
    → ((a : A) → is_ok (f a l).1 ≡ true → P (f a l))
    → is_ok (continue r f l).1 ≡ true
    → P (continue r f l)
continue_lem P (ok a) f l step h = step a h
continue_lem P (err e) f l step h = ground arith

judge_sample-Judged :
    (r : Result (Option FtData)) (l : Lifecycle) (s : Sensor)
    → l.sensor.is_streaming ≡ true
    → let t = continue r (λ d. pure (status_of d)) s in
      is_ok (continue t.1 judge_status l).1 ≡ true
      → Judged (is_ready r) (continue t.1 judge_status l)
unfolding judge_status get_status_level
judge_sample-Judged (err e) l s on h = ground arith
judge_sample-Judged (ok none) l s on h = ground arith
judge_sample-Judged (ok (some d)) l s on h = ground (arith, level-ready d.status_bits)

get_status_on :
    (now : ℕ) (s : Sensor)
    → s.is_streaming ≡ true
    → get_status none now s ≡ continue (sample now s).1 (λ d. pure (status_of d)) (sample now s).0
unfolding get_status
get_status_on now s on = rw on refl

get_status_off :
    (now : ℕ) (s : Sensor) → s.is_streaming ≡ false → get_status none now s ≡ (s, ok none)
unfolding get_status
get_status_off now s off = rw off refl

continue_streaming :
    (r : Result (Option FtData)) (s : Sensor)
    → (continue r (λ d. pure (status_of d)) s).0.is_streaming ≡ s.is_streaming
continue_streaming (err e) s = refl
continue_streaming (ok d) s = refl

sample_streaming : (now : ℕ) (s : Sensor) → (sample now s).0.is_streaming ≡ s.is_streaming
unfolding sample
sample_streaming now s = ground arith

usable_on :
    (now : ℕ) (s : Sensor) → s.is_streaming ≡ true → is_usable now s ≡ is_ready (sample now s).1
usable_on now s on = rw on refl

usable_off : (now : ℕ) (s : Sensor) → s.is_streaming ≡ false → is_usable now s ≡ false
usable_off now s off = rw off refl

judge_none-Judged :
    (l : Lifecycle) → l.sensor.is_streaming ≡ false → Judged false (judge_status none l)
unfolding judge_status get_status_level
judge_none-Judged l off = ground arith

-- What follows `streaming_on`, from what `get_status` leaves and answers.
abbrev Finishes : ℕ → Sensor → Lifecycle → Sensor × Result (Option SensorStatus) → Type 0
Finishes now s l (s', r) =
    is_ok (continue r judge_status (record l { sensor = s' })).1 ≡ true
    → Judged (is_usable now s) (continue r judge_status (record l { sensor = s' }))

get_status-Finishes :
    (now : ℕ) (s : Sensor) (l : Lifecycle) → Finishes now s l (get_status none now s)
get_status-Finishes now s l = elim (Bool-cases s.is_streaming) [
  | inr off ↦
      rw (get_status_off now s off, usable_off now s off)
        (λ h. judge_none-Judged (record l { sensor = s }) off)
  | inl on ↦
      let (s', r) = sample now s in
      let kept = continue_streaming r s' ∙ sample_streaming now s ∙ on in
      let l' : Lifecycle = record l { sensor = (continue r (λ d. pure (status_of d)) s').0 } in
      rw (get_status_on now s on, usable_on now s on) (judge_sample-Judged r l' s' kept)
]

-- Unless it raises, `on_configure` succeeds exactly if the driver has been left streaming, and
-- the sample that is there then has `ready` alone set of its six status flags; and the node notes
-- just then that the sensor is OK.
pub on_configure_lem :
    (stream_opens : Bool) (now : ℕ) (l : Lifecycle)
    → is_ok (Lifecycle.on_configure stream_opens now l).1 ≡ true
    → Judged
        (is_usable now (streaming_on stream_opens true l.sensor).0)
        (Lifecycle.on_configure stream_opens now l)
unfolding Lifecycle.on_configure on_sensor
on_configure_lem stream_opens now l h =
    let (s, r) = streaming_on stream_opens true l.sensor in
    continue_lem (Judged (is_usable now s)) r _ (record l { sensor = s })
      (λ _. get_status-Finishes now s l) h
