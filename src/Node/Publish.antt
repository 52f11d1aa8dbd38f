-- ===== src/Node/Publish.antt =====
-- The publishing thread: `_publish_data` of schunk_fts_driver/schunk_fts_driver/driver.py. One
-- round takes what `sensor.sample_batch` returned or raised, and the two clocks. A publisher's
-- `publish` is taken not to raise; log lines are left out, but for the time of the last warning.
pub mod Quiet
pub mod Rounds
pub mod Outage
pub mod Malformed
pub mod Runs
use schunk_fts_ros.Base.{
  ℕ, ◌+◌, ◌-◌, ◌*◌, Bool, true, false, not, ◌&&◌, ◌||◌, Option, none, some, List, [], ◌∷◌, ◌++◌,
  Text, codes, ltb, leb, ◌==◌, if◌then◌else◌, Result, ok, err,
}
use schunk_fts_ros.Packet.{FtSample}
use schunk_fts_ros.Status.{SensorStatus, from_bits}
use schunk_fts_ros.Node.{
  Level, ok_level, warn_level, error_level, Event, state, packet_gap, status_level_from_bits,
  get_status_level, counter_delta, publish_samples,
}

-- `last_counter` and `base_counter` are `none` for -1; `base_stamp_set` is
-- `_base_stamp_ros is not None`; `events` is what was published so far, by either publisher.
pub record Node : Type 0 where
  pub name : Text
  pub sample_period_ns : ℕ
  pub publish_sample_batches : Bool
  pub data_publisher : Bool
  pub state_publisher : Bool
  pub last_state_level : Option Level
  pub base_stamp_set : Bool
  pub base_stamp_ns : ℕ
  pub last_counter : Option ℕ
  pub base_counter : Option ℕ
  pub is_sensor_ok : Bool
  pub connection_lost : Bool
  pub last_skip_warning_time : ℕ
  pub events : List Event

-- `time.monotonic()`, the ROS clock, and whether the sensor is streaming, in a round.
pub record Moment : Type 0 where
  pub monotonic : ℕ
  pub ros_now : ℕ
  pub is_streaming : Bool

abbrev pub emit : List Event → Node → Node
emit es n = record n { events = n.events ++ es }

-- `if samples is None: …`
unfoldable pub on_no_samples : Node → Node
on_no_samples n =
    if not n.connection_lost && n.is_sensor_ok
    then (let n' : Node = record n { connection_lost = true } in
        if n.state_publisher
        then emit (state warn_level (codes "Connection lost - attempting reconnection") ∷ []) n'
        else n')
    else n

-- `if self._connection_lost: …`
unfoldable pub on_restored : Node → Node
on_restored n =
    if n.connection_lost
    then (let n' : Node = record n {
      connection_lost = false;
      base_stamp_set = false;
      last_counter = none;
      base_counter = none;
    } in
        if n.state_publisher
        then emit (state ok_level (codes "Connection restored") ∷ [])
            (record n' { last_state_level = some ok_level })
        else n')
    else n

abbrev pub is_new_packet : Option ℕ → ℕ → Bool
is_new_packet none counter = true
is_new_packet (some last) counter = not (counter == last)

-- `if is_new_udp_packet: …`
unfoldable pub track_counter : ℕ → Moment → Node → Node
track_counter counter t n =
    if is_new_packet n.last_counter counter
    then (let warn =
          ltb 0 (packet_gap n.last_counter counter)
          && leb (n.last_skip_warning_time + 1000000000) t.monotonic in
        record n {
          last_skip_warning_time = if warn then t.monotonic else n.last_skip_warning_time;
          last_counter = some counter;
        })
    else n

abbrev pub is_ok_level : Level → Bool
is_ok_level ok_level = true
is_ok_level _ = false

-- `if self._is_sensor_ok and self._base_stamp_ros is None: …`. The decoders number the first
-- sample 0, so that nothing is subtracted from the clock.
unfoldable pub set_base : FtSample → Moment → Node → Node
set_base first t n =
    if n.is_sensor_ok && not n.base_stamp_set
    then record n {
      base_stamp_set = true;
      base_stamp_ns = t.ros_now - first.sample_index * n.sample_period_ns;
      base_counter = some first.counter;
    }
    else n

unfoldable pub packet_stamp_ns : FtSample → Node → ℕ
packet_stamp_ns first n =
    let packet_period_ns = n.sample_period_ns * first.samples_per_packet in
    n.base_stamp_ns + counter_delta n.base_counter first.counter * packet_period_ns

-- `if self._is_sensor_ok and data_publisher: …`; on an exception the thread returns.
unfoldable pub publish_data : FtSample → List FtSample → Node → Node × Bool
unfolding packet_stamp_ns
publish_data first samples n =
    if n.is_sensor_ok && n.data_publisher
    then elim (publish_samples n.publish_sample_batches n.name samples (packet_stamp_ns first n)
        n.sample_period_ns) [ ok es ↦ (emit es n, true) | err e ↦ (n, false) ]
    else (n, true)

abbrev pub same_level : Level → Option Level → Bool
same_level ok_level (some ok_level) = true
same_level warn_level (some warn_level) = true
same_level error_level (some error_level) = true
same_level _ _ = false

-- What `sensor.get_status` returns for given bits.
abbrev pub status_for : Bool → ℕ → Option SensorStatus
status_for is_streaming bits = if is_streaming then some (from_bits bits) else none

-- `if state_publisher and level != self._last_state_level: …`
unfoldable pub publish_state : Level → ℕ → Moment → Node → Node
publish_state level bits t n =
    if n.state_publisher && not (same_level level n.last_state_level)
    then emit (state level (get_status_level (status_for t.is_streaming bits)).1 ∷ [])
        (record n { last_state_level = some level })
    else n

-- The rest of a round, from `level = …` on.
unfoldable pub handle_samples : FtSample → List FtSample → Moment → Node → Node × Bool
handle_samples first samples t n =
    let level = status_level_from_bits first.status_bits in
    let judged : Node = record n { is_sensor_ok = is_ok_level level } in
    let (n', going) = publish_data first samples (set_base first t judged) in
    if going then (publish_state level first.status_bits t n', true) else (n', false)

-- One round of the `while`. The flag says whether the thread goes on: it ends where the round
-- returns or raises.
unfoldable pub publish_round : Result (Option (List FtSample)) → Moment → Node → Node × Bool
publish_round (err e) t n = (n, false)
publish_round (ok none) t n = (on_no_samples n, true)
publish_round (ok (some [])) t n = (on_restored n, false)
publish_round (ok (some (first ∷ rest))) t n =
    handle_samples first (first ∷ rest) t (track_counter first.counter t (on_restored n))
