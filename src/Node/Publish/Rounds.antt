-- ===== src/Node/Publish/Rounds.antt =====
-- What one round of the publishing thread publishes.
use schunk_fts_ros.Base.{
  ℕ, ◌+◌, ◌-◌, ◌*◌, ◌/◌, ◌%◌, ◌≡◌, refl, ◌∙◌, Bool, true, false, some, List, [], ◌∷◌, ◌++◌, map,
  Text, if◌then◌else◌, ok, arith,
}
use mathlib.Core.List.{append-nil, append_assoc}
use native.Mathlib.Nat.{zero-mul}
use schunk_fts_ros.Packet.{FtSample}
use schunk_fts_ros.Node.{
  Event, state, wrench, batch, WrenchStamped, Stamp, fill_wrench_stamped, status_level_from_bits,
  get_status_level, publish_samples, counter_delta, set_stamp_from_ns,
}
use schunk_fts_ros.Node.Publish.Quiet.{track_counter-IsQuiet, set_base-IsQuiet}
use schunk_fts_ros.Node.Publish.{
  Node, Moment, emit, on_restored, track_counter, is_ok_level, set_base, packet_stamp_ns,
  publish_data, same_level, status_for, publish_state, handle_samples, publish_round,
}

-- The state message of a round, if the level has changed.
abbrev pub state_events : FtSample → Moment → Node → List Event
state_events first t n =
    let level = status_level_from_bits first.status_bits in
    if n.state_publisher
    then (if same_level level n.last_state_level
        then []
        else state level (get_status_level (status_for t.is_streaming first.status_bits)).1 ∷ [])
    else []

counter_delta_self : (c : ℕ) → counter_delta (some c) c ≡ 0
unfolding counter_delta
counter_delta_self c = omega arith

handle_not_ok :
    (first : FtSample) (samples : List FtSample) (t : Moment) (n : Node)
    → is_ok_level (status_level_from_bits first.status_bits) ≡ false
    → ((handle_samples first samples t n).0.events ≡ n.events ++ state_events first t n)
      × ((handle_samples first samples t n).0.is_sensor_ok ≡ false)
      × ((handle_samples first samples t n).1 ≡ true)
unfolding handle_samples publish_data publish_state
handle_not_ok first samples t n l =
    let judged : Node = record n { is_sensor_ok = false } in
    rw l (ground (arith, set_base-IsQuiet first t judged, append-nil n.events))

-- With the connection not lost and the sensor not OK, a round publishes no data, but its state
-- if that is new; it notes that the sensor is not OK, and the thread goes on.
pub round_not_ok :
    (first : FtSample) (rest : List FtSample) (t : Moment) (n : Node)
    → n.connection_lost ≡ false
    → is_ok_level (status_level_from_bits first.status_bits) ≡ false
    → ((publish_round (ok (some (first ∷ rest))) t n).0.events ≡ n.events ++ state_events first t n)
      × ((publish_round (ok (some (first ∷ rest))) t n).0.is_sensor_ok ≡ false)
      × ((publish_round (ok (some (first ∷ rest))) t n).1 ≡ true)
unfolding publish_round on_restored
round_not_ok first rest t n c l =
    let n' = track_counter first.counter t n in
    rw c (
      ground
        (arith, handle_not_ok first (first ∷ rest) t n' l, track_counter-IsQuiet first.counter t n))

-- The stamp of a packet: counted from the base, or, where there is none, the present.
abbrev pub stamp_for : FtSample → Moment → Node → ℕ
stamp_for first t n =
    if n.base_stamp_set
    then n.base_stamp_ns
      + counter_delta n.base_counter first.counter * (n.sample_period_ns * first.samples_per_packet)
    else t.ros_now - first.sample_index * n.sample_period_ns

packet_stamp_ns-set_base :
    (first : FtSample) (t : Moment) (n : Node)
    → n.is_sensor_ok ≡ true
    → packet_stamp_ns first (set_base first t n) ≡ stamp_for first t n
unfolding packet_stamp_ns set_base
packet_stamp_ns-set_base first t n h = ground (
  arith,
  counter_delta_self first.counter,
  zero-mul (n.sample_period_ns * first.samples_per_packet),
)

-- A time in nanoseconds, as a message has it.
abbrev pub stamp_of : ℕ → Stamp
stamp_of ns = record { sec = ns / 1000000000; nanosec = ns % 1000000000 }

-- The message of a sample: the node's name, the packet's stamp and the sample's place times the
-- period, and the forces and torques each at its own axis.
abbrev pub message_of : Text → ℕ → ℕ → FtSample → WrenchStamped
message_of name stamp period s = record {
  frame_id = name;
  stamp = stamp_of (stamp + s.sample_index * period);
  force_x = s.fx;
  force_y = s.fy;
  force_z = s.fz;
  torque_x = s.tx;
  torque_y = s.ty;
  torque_z = s.tz;
}

-- The messages for the samples of one packet: one batch with all, or one message for each.
abbrev pub messages : Bool → Text → FtSample → List FtSample → ℕ → ℕ → List Event
messages batches name first rest stamp period =
    if batches
    then batch (record {
      frame_id = name;
      stamp = stamp_of stamp;
      packet_counter = first.counter;
      packet_id = first.packet_id;
      samples_per_packet = first.samples_per_packet;
      samples = map (message_of name stamp period) (first ∷ rest);
    })
      ∷ []
    else map (λ s. wrench (message_of name stamp period s)) (first ∷ rest)

abbrev pub data_events : FtSample → List FtSample → ℕ → Node → List Event
data_events first rest stamp n =
    messages n.publish_sample_batches n.name first rest stamp n.sample_period_ns

pub publish_samples-messages :
    (batches : Bool) (name : Text) (first : FtSample) (rest : List FtSample) (stamp period : ℕ)
    → publish_samples batches name (first ∷ rest) stamp period
      ≡ ok (messages batches name first rest stamp period)
unfolding publish_samples set_stamp_from_ns fill_wrench_stamped
publish_samples-messages true name first rest stamp period = refl
publish_samples-messages false name first rest stamp period = refl

publish_data_ok :
    (first : FtSample) (rest : List FtSample) (n : Node)
    → n.is_sensor_ok ≡ true
    → n.data_publisher ≡ true
    → publish_data first (first ∷ rest) n
      ≡ (emit (data_events first rest (packet_stamp_ns first n) n) n, true)
unfolding publish_data
publish_data_ok first rest n h d = simp (
  h,
  d,
  publish_samples-messages n.publish_sample_batches n.name first rest (packet_stamp_ns first n)
      n.sample_period_ns,
)

publish_state-events :
    (first : FtSample) (t : Moment) (n : Node)
    → ((publish_state (status_level_from_bits first.status_bits) first.status_bits t n).events
        ≡ n.events ++ state_events first t n)
      × ((publish_state
            (status_level_from_bits first.status_bits)
            first.status_bits
            t
            n).is_sensor_ok
          ≡ n.is_sensor_ok)
unfolding publish_state
publish_state-events first t n = ground (arith, append-nil n.events)

-- The same messages, before and after the base was set.
data_events-set_base :
    (first : FtSample) (rest : List FtSample) (t : Moment) (n : Node)
    → n.is_sensor_ok ≡ true
    → data_events first rest (packet_stamp_ns first (set_base first t n)) (set_base first t n)
      ≡ data_events first rest (stamp_for first t n) n
data_events-set_base first rest t n h =
    let q = set_base-IsQuiet first t n in
    let stamp = packet_stamp_ns-set_base first t n h in
    λ i. messages (q.batches i) (q.name i) first rest (stamp i) (q.period i)

handle_ok :
    (first : FtSample) (rest : List FtSample) (t : Moment) (n : Node)
    → is_ok_level (status_level_from_bits first.status_bits) ≡ true
    → n.data_publisher ≡ true
    → ((handle_samples first (first ∷ rest) t n).0.events
        ≡ n.events ++ (data_events first rest (stamp_for first t n) n ++ state_events first t n))
      × ((handle_samples first (first ∷ rest) t n).0.is_sensor_ok ≡ true)
      × ((handle_samples first (first ∷ rest) t n).1 ≡ true)
unfolding handle_samples
handle_ok first rest t n l d =
    let judged : Node = record n { is_sensor_ok = true } in
    let based = set_base first t judged in
    let q = set_base-IsQuiet first t judged in
    let es = data_events first rest (packet_stamp_ns first based) based in
    let sent = emit es based in
    rw (l, publish_data_ok first rest based q.ok_flag (q.data_publisher ∙ d))
      (ground (
        arith,
        publish_state-events first t sent,
        data_events-set_base first rest t judged refl,
        append_assoc n.events es (state_events first t n),
      ))

stamp_for-track_counter :
    (first : FtSample) (t : Moment) (n : Node)
    → stamp_for first t (track_counter first.counter t n) ≡ stamp_for first t n
unfolding track_counter
stamp_for-track_counter first t n = ground arith

data_events-track_counter :
    (first : FtSample) (rest : List FtSample) (t : Moment) (n : Node)
    → data_events first rest
        (stamp_for first t (track_counter first.counter t n))
        (track_counter first.counter t n)
      ≡ data_events first rest (stamp_for first t n) n
data_events-track_counter first rest t n =
    let q = track_counter-IsQuiet first.counter t n in
    let stamp = stamp_for-track_counter first t n in
    λ i. messages (q.batches i) (q.name i) first rest (stamp i) (q.period i)

-- With the connection not lost, the sensor OK and the data publisher there, a round publishes
-- every sample of the packet, in order, each stamped by its place in the packet from the packet's
-- stamp on; then its state if that is new. The thread goes on.
pub round_ok :
    (first : FtSample) (rest : List FtSample) (t : Moment) (n : Node)
    → n.connection_lost ≡ false
    → is_ok_level (status_level_from_bits first.status_bits) ≡ true
    → n.data_publisher ≡ true
    → ((publish_round (ok (some (first ∷ rest))) t n).0.events
        ≡ n.events ++ (data_events first rest (stamp_for first t n) n ++ state_events first t n))
      × ((publish_round (ok (some (first ∷ rest))) t n).0.is_sensor_ok ≡ true)
      × ((publish_round (ok (some (first ∷ rest))) t n).1 ≡ true)
unfolding publish_round on_restored
round_ok first rest t n c l d =
    let n' = track_counter first.counter t n in
    let q = track_counter-IsQuiet first.counter t n in
    rw c (
      ground (
        arith,
        handle_ok first rest t n' l (q.data_publisher ∙ d),
        data_events-track_counter first rest t n,
        q,
      ))
