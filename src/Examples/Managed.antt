-- ===== src/Examples/Managed.antt =====
-- The theorems on the callbacks of the node, each on an example.
use schunk_fts_ros.Base.{◌≡◌, refl, true, false, none, [], ◌∷◌, codes}
use schunk_fts_ros.Packet.{
  decode_packet, unpack_header, packet_body, unpack_single, reading_at, word_at,
}
use schunk_fts_ros.Rates.{normalize_output_rate}
use schunk_fts_ros.Buffer
use schunk_fts_ros.Connection
use schunk_fts_ros.Sensor
use schunk_fts_ros.Sensor.{Sensor, streaming_on, get_status, sample}
use schunk_fts_ros.Lifecycle
use schunk_fts_ros.Lifecycle.{Lifecycle, all_services, thread_round}
use schunk_fts_ros.Lifecycle.Runs.{
  Primary, inactive, unconfigured, Steps, here, next, configure, activate, thread, deactivate,
  IsConsistent, Steps-IsConsistent,
}
use schunk_fts_ros.Lifecycle.Configure.{Judged, is_usable, on_configure_lem}
use schunk_fts_ros.Examples.{network, sensor, node, moment, single}

-- The driver and the node as `__init__` makes them.
abbrev driver : Sensor
unfolding Buffer.new Connection.new
driver = record (sensor (network [] [] []) []) {
  connection = Connection.new (codes "192.168.0.100") 82 (network [] [] []);
  ft_data = Buffer.new 1000 0;
  is_streaming = false;
  auto_reconnect = false;
  received_data = false;
  hardware_id = codes "unknown";
}

abbrev created : Lifecycle
created = record {
  sensor = driver;
  node = record (node false) {
    sample_period_ns = 0;
    data_publisher = false;
    state_publisher = false;
    base_stamp_set = false;
    base_stamp_ns = 0;
    last_counter = none;
    base_counter = none;
    is_sensor_ok = false;
  };
  services = all_services false;
  data_handle = false;
  state_handle = false;
  publishers_created = 0;
  stop_event = false;
  thread_alive = false;
}

abbrev configured : Lifecycle
configured = (Lifecycle.on_configure true 5 created).0

abbrev activated : Lifecycle
activated = (Lifecycle.on_activate 6 configured).0

abbrev published : Lifecycle
published = thread_round 7 moment activated

abbrev deactivated : Lifecycle
deactivated = (Lifecycle.on_deactivate published).0

abbrev steps : Steps unconfigured created inactive deactivated
unfolding Lifecycle.on_activate
steps =
    next
      (next (next (next here (configure inactive true 5 created refl)) (activate 6 configured))
        (thread Primary.active 7 moment activated refl refl))
      (deactivate published)

Steps-IsConsistent_example : IsConsistent inactive deactivated
unfolding Lifecycle.new Sensor.new normalize_output_rate driver
Steps-IsConsistent_example =
    Steps-IsConsistent (codes "fts") (codes "192.168.0.100") 82 (codes "1000") 0 (network [] [] [])
      created inactive deactivated refl steps

-- A node whose driver is streaming, with a packet of a ready sensor in its buffer.
abbrev ready : Lifecycle
ready = record created { sensor = sensor (network [] [] []) (single ∷ []) }

on_configure_lem_example :
    Judged
      (is_usable 5 (streaming_on true true ready.sensor).0)
      (Lifecycle.on_configure true 5 ready)
unfolding Lifecycle.on_configure streaming_on get_status sample Buffer.get decode_packet
    unpack_header packet_body unpack_single
on_configure_lem_example = on_configure_lem true 5 ready refl

ready_is_usable : is_usable 5 (streaming_on true true ready.sensor).0 ≡ true
unfolding streaming_on sample Buffer.get decode_packet unpack_header packet_body unpack_single
    reading_at word_at
ready_is_usable = refl
