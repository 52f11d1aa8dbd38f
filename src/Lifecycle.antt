-- ===== src/Lifecycle.antt =====
-- `__init__`, the lifecycle callbacks and the rounds of the publishing thread of the node in
-- schunk_fts_driver/schunk_fts_driver/driver.py, on the driver and the node's own state. The base
-- class's `on_activate` and `on_deactivate` succeed; the garbage collector, the pause and the log
-- lines are left out. A publisher or a service is its presence.
pub mod Runs
pub mod Configure
pub mod Publishers
use schunk_fts_ros.Base.{
  ℕ, ◌+◌, Bool, true, false, not, ◌&&◌, ◌||◌, Option, none, some, [], Text, codes, same,
  if◌then◌else◌, Result, Error, ok, err,
}
use schunk_fts_ros.Base.Act.{Act, ◌>>=◌}
use schunk_fts_ros.Sensor
use schunk_fts_ros.Sensor.{
  Sensor, sample_batch, streaming_on, streaming_off, clear_samples, get_status,
}
use schunk_fts_ros.Status.{SensorStatus}
use schunk_fts_ros.Node.{Level, get_status_level}
use schunk_fts_ros.Node.Publish.{Node, Moment, is_ok_level, publish_round}
use schunk_fts_ros.Rates.{sample_period_ns}
use schunk_fts_ros.Connection.{Network}

pub record Services : Type 0 where
  pub send_command : Bool
  pub set_parameter : Bool
  pub tare : Bool
  pub reset_tare : Bool
  pub select_tool_setting : Bool
  pub select_noise_filter : Bool

abbrev pub all_services : Bool → Services
all_services b = record {
  send_command = b;
  set_parameter = b;
  tare = b;
  reset_tare = b;
  select_tool_setting = b;
  select_noise_filter = b;
}

-- `publishers_created` counts the calls of `create_publisher`.
pub record Lifecycle : Type 0 where
  pub sensor : Sensor
  pub node : Node
  pub services : Services
  pub data_handle : Bool
  pub state_handle : Bool
  pub publishers_created : ℕ
  pub stop_event : Bool
  pub thread_alive : Bool

-- `__init__`, which raises where the driver does. The period is read when the thread starts; 0 until
-- then.
unfoldable pub new : Text → Text → ℕ → Text → ℕ → Network → Result Lifecycle
unfolding Sensor.new
new node_name host port output_rate now net = elim (Sensor.new host port output_rate now net) [
  | err e ↦ err e
  | ok sensor ↦ ok (record {
    sensor = sensor;
    node = record {
      name = node_name;
      sample_period_ns = 0;
      publish_sample_batches = same output_rate (codes "500_16");
      data_publisher = false;
      state_publisher = false;
      last_state_level = none;
      base_stamp_set = false;
      base_stamp_ns = 0;
      last_counter = none;
      base_counter = none;
      is_sensor_ok = false;
      connection_lost = false;
      last_skip_warning_time = 0;
      events = [];
    };
    services = all_services false;
    data_handle = false;
    state_handle = false;
    publishers_created = 0;
    stop_event = false;
    thread_alive = false;
  })
]

-- `TransitionCallbackReturn`
pub data Transition : Type 0 where
  success failure : Transition

-- What `on_configure` does with the status after `streaming_on`.
unfoldable pub judge_status : Option SensorStatus → Act Lifecycle Transition
judge_status status l =
    let sensor_ok = is_ok_level (get_status_level status).0 in
    (
      record l { node = record l.node { is_sensor_ok = sensor_ok } },
      ok (if not l.sensor.is_streaming || not sensor_ok then failure else success),
    )

unfoldable pub on_sensor : {A : Type 0} → Act Sensor A → Act Lifecycle A
on_sensor m l = let (s, r) = m l.sensor in (record l { sensor = s }, r)

-- `stream_opens` and `now` are those of `streaming_on` and of the buffer.
unfoldable pub on_configure : Bool → ℕ → Act Lifecycle Transition
unfolding on_sensor judge_status
on_configure stream_opens now = do
  _ ← on_sensor (streaming_on stream_opens true)
  status ← on_sensor (get_status none now)
  judge_status status

-- `if handle is None: handle = self.create_publisher(…)`, for both.
unfoldable pub create_publishers : Lifecycle → Lifecycle
create_publishers l = record l {
  data_handle = true;
  state_handle = true;
  publishers_created =
      l.publishers_created + (if l.data_handle then 0 else 1) + (if l.state_handle then 0 else 1);
}

-- The thread that it starts reads the period of the samples first.
unfoldable pub on_activate : ℕ → Act Lifecycle Transition
unfolding create_publishers
on_activate now l = (
  record (create_publishers l) {
    node = record l.node {
      sample_period_ns = sample_period_ns l.sensor.output_rate_mode;
      data_publisher = true;
      state_publisher = true;
      base_stamp_set = false;
      last_counter = none;
      base_counter = none;
    };
    services = all_services true;
    stop_event = false;
    sensor = clear_samples now l.sensor;
    thread_alive = true;
  },
  ok success,
)

-- `join` waits for the thread, which sees the stop event.
unfoldable pub on_deactivate : Act Lifecycle Transition
on_deactivate l = (
  record l {
    stop_event = true;
    thread_alive = false;
    node = record l.node { data_publisher = false; state_publisher = false };
    services = all_services false;
  },
  ok success,
)

unfoldable pub on_cleanup : Act Lifecycle Transition
unfolding on_sensor
on_cleanup = do _ ← on_sensor streaming_off; λ l. (l, ok success)

unfoldable pub on_shutdown : Act Lifecycle Transition
on_shutdown l = (l, ok success)

-- One round of `_publish_data`, which the thread runs while the stop event is clear. The thread
-- ends by itself where the round returns or raises.
unfoldable pub thread_round : ℕ → Moment → Lifecycle → Lifecycle
unfolding sample_batch publish_round
thread_round now t l =
    let (s, r) = sample_batch now l.sensor in
    let (n, going) = publish_round r (record t { is_streaming = s.is_streaming }) l.node in
    record l { sensor = s; node = n; thread_alive = going }
