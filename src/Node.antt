-- ===== src/Node.antt =====
-- The pure parts of the lifecycle node in schunk_fts_driver/schunk_fts_driver/driver.py: levels,
-- counters, time stamps and the messages of a packet. Stamps are nanoseconds since the epoch.
pub mod Levels
pub mod Stamps
pub mod Publish
use schunk_fts_ros.Base.{
  ℕ, ◌+◌, ◌-◌, ◌*◌, ◌/◌, ◌%◌, Bool, true, false, not, ◌&&◌, ◌||◌, Option, none, some, List, [], ◌∷◌,
  ◌++◌, map, Text, codes, test_bit, if◌then◌else◌, Result, err, ok, index_error,
}
use schunk_fts_ros.Packet.{Reading, FtData, FtSample}
use schunk_fts_ros.Packet.Agree.{value_or}
use schunk_fts_ros.Status.{SensorStatus, summary}

-- The levels of `DiagnosticStatus` that the node uses.
pub data Level : Type 0 where
  ok_level warn_level error_level : Level

-- `_packet_gap`; `none` is the counter -1. Counters are below 65536, so the difference that is
-- taken first is exact.
unfoldable pub packet_gap : Option ℕ → ℕ → ℕ
packet_gap none counter = 0
packet_gap (some previous) counter = (counter + 65536 - (previous + 1)) % 65536

-- `_status_level_from_bits`
unfoldable pub status_level_from_bits : ℕ → Level
status_level_from_bits bits =
    if test_bit bits 3
    then error_level
    else if test_bit bits 1
        || test_bit bits 2
        || test_bit bits 4
        || test_bit bits 5
        || not (test_bit bits 0)
    then warn_level
    else ok_level

-- `"; ".join(messages)`
unfoldable pub join : List Text → Text
join [] = []
join (t ∷ []) = t
join (t ∷ u ∷ ts) = t ++ codes "; " ++ join (u ∷ ts)

abbrev pub is_empty {ℓ} : {A : Type ℓ} → List A → Bool
is_empty [] = true
is_empty (x ∷ xs) = false

-- `_get_status_level`, on what `sensor.get_status` returned.
unfoldable pub get_status_level : Option SensorStatus → Level × Text
get_status_level none = (error_level, codes "No signal")
get_status_level (some s) =
    let messages = summary s in
    if s.hardware_error
    then (error_level, join messages)
    else if s.temperature_out_of_range || s.process_data_invalid
    then (warn_level, join messages)
    else if not s.ready
    then (warn_level, codes "Not ready for operation")
    else if not (is_empty messages)
    then (warn_level, join messages)
    else (ok_level, codes "OK")

-- `(counter - base_counter + 65536) % 65536`; `none` is the base counter -1.
unfoldable pub counter_delta : Option ℕ → ℕ → ℕ
counter_delta none counter = (counter + 1 + 65536) % 65536
counter_delta (some base) counter = (counter + 65536 - base) % 65536

-- `_calculate_sample_timestamp_ns`
unfoldable pub calculate_sample_timestamp_ns : FtData → Option ℕ → ℕ → ℕ → ℕ
unfolding counter_delta
calculate_sample_timestamp_ns d base_counter base_stamp_ns sample_period_ns =
    let sample_index = value_or d.sample_index 0 in
    let packet_period_ns = sample_period_ns * value_or d.samples_per_packet 1 in
    base_stamp_ns
    + counter_delta base_counter d.counter * packet_period_ns
    + sample_index * sample_period_ns

pub record Stamp : Type 0 where
  pub sec : ℕ
  pub nanosec : ℕ

-- `_set_stamp_from_ns`
unfoldable pub set_stamp_from_ns : ℕ → Stamp
set_stamp_from_ns stamp_ns = record { sec = stamp_ns / 1000000000; nanosec = stamp_ns % 1000000000 }

pub record WrenchStamped : Type 0 where
  pub frame_id : Text
  pub stamp : Stamp
  pub force_x : ℕ
  pub force_y : ℕ
  pub force_z : ℕ
  pub torque_x : ℕ
  pub torque_y : ℕ
  pub torque_z : ℕ

-- `_fill_wrench_stamped`
unfoldable pub fill_wrench_stamped : FtSample → ℕ → Text → WrenchStamped
unfolding set_stamp_from_ns
fill_wrench_stamped s stamp_ns frame_id = record {
  frame_id = frame_id;
  stamp = set_stamp_from_ns stamp_ns;
  force_x = s.fx;
  force_y = s.fy;
  force_z = s.fz;
  torque_x = s.tx;
  torque_y = s.ty;
  torque_z = s.tz;
}

pub record WrenchStampedBatch : Type 0 where
  pub frame_id : Text
  pub stamp : Stamp
  pub packet_counter : ℕ
  pub packet_id : ℕ
  pub samples_per_packet : ℕ
  pub samples : List WrenchStamped

-- What a publisher publishes.
pub data Event : Type 0 where
  state : Level → Text → Event
  wrench : WrenchStamped → Event
  batch : WrenchStampedBatch → Event

abbrev pub fill_at : Text → ℕ → ℕ → FtSample → WrenchStamped
fill_at frame_id packet_stamp_ns sample_period_ns s =
    fill_wrench_stamped s (packet_stamp_ns + s.sample_index * sample_period_ns) frame_id

-- `_publish_samples`: what it publishes; `samples[0]` raises on an empty list.
unfoldable pub publish_samples : Bool → Text → List FtSample → ℕ → ℕ → Result (List Event)
unfolding fill_wrench_stamped
publish_samples true frame_id [] packet_stamp_ns sample_period_ns = err index_error
publish_samples true frame_id (s ∷ rest) packet_stamp_ns sample_period_ns = ok (
    batch (record {
      frame_id = frame_id;
      stamp = set_stamp_from_ns packet_stamp_ns;
      packet_counter = s.counter;
      packet_id = s.packet_id;
      samples_per_packet = s.samples_per_packet;
      samples = map (fill_at frame_id packet_stamp_ns sample_period_ns) (s ∷ rest);
    })
    ∷ [])
publish_samples false frame_id samples packet_stamp_ns sample_period_ns =
    ok (map (λ s. wrench (fill_at frame_id packet_stamp_ns sample_period_ns s)) samples)
