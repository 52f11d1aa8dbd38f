-- ===== src/Examples.antt =====
-- Concrete messages, packets and objects, on which the theorems are tried.
mod Codec
mod Client
mod Simulated
mod Threads
mod Packages
mod Session
mod Publisher
mod Managed
mod Collect
mod Scan
use schunk_fts_ros.Base.{ℕ, Bool, true, false, Option, none, some, List, [], ◌∷◌, Bytes, codes}
use schunk_fts_ros.Message.{Kind, command_response}
use schunk_fts_ros.Message.Layout.{Body, layout}
use schunk_fts_ros.Packet.{Reading, FtSample}
use schunk_fts_ros.Packet.Encode.{single_packet, packed_packet}
use schunk_fts_ros.Buffer
use schunk_fts_ros.Buffer.{Buffer}
use schunk_fts_ros.Connection.{Network, Connection}
use schunk_fts_ros.Rates.{OutputRateMode}
use schunk_fts_ros.Sensor.{Sensor}
use schunk_fts_ros.Node.Publish.{Node, Moment}

-- The setting of the output rate, which the driver sends with the value 0a.
abbrev pub set_rate : Body
set_rate = record {
  sync0 = 255;
  sync1 = 255;
  counter = 258;
  command = 0xf1;
  status = 0;
  index_high = 0x10;
  index_low = 0x20;
  subindex = 0;
  value = 10 ∷ [];
  argument = 0;
}

-- The reply to a start of the stream.
abbrev pub started : Body
started = record set_rate { counter = 0; command = 0x40; value = [] }

abbrev pub reading : Reading
reading = record { status_bits = 1; fx = 10; fy = 20; fz = 30; tx = 40; ty = 50; tz = 4000000000 }

abbrev pub single : Bytes
single = single_packet 255 255 7 1 reading

abbrev pub four_readings : List Reading → List Reading
four_readings rs = reading ∷ reading ∷ reading ∷ reading ∷ rs

abbrev pub readings : List Reading
readings = four_readings (four_readings (four_readings (four_readings [])))

abbrev pub packed : Bytes
packed = packed_packet 255 255 8 1 readings

abbrev pub network : List Bool → List Bool → List (Option Bytes) → Network
network connects sends replies = record {
  connects = connects;
  sends = sends;
  replies = replies;
  sent = [];
}

-- An open connection that the driver keeps.
abbrev pub opened : Network → Connection
opened net = record {
  host = codes "192.168.0.100";
  port = 82;
  is_open = true;
  persistent = true;
  socket_closed = false;
  net = net;
}

abbrev pub rate_1000 : OutputRateMode
rate_1000 = record {
  output_rate = codes "1000";
  parameter_value = codes "00";
  packet_rate_hz = 1000;
  sample_rate_hz = 1000;
  samples_per_packet = 1;
}

-- A streaming sensor.
abbrev pub sensor : Network → List Bytes → Sensor
sensor net queue = record {
  connection = opened net;
  output_rate_mode = rate_1000;
  ft_data = record {
    maxsize = 1000;
    queue = queue;
    pending_samples = [];
    last_packet_time = 0;
    no_data_warning_printed = false;
    dropped_packet_count = 0;
  };
  is_streaming = true;
  auto_reconnect = true;
  received_data = true;
  name = codes "SCHUNK FTS";
  hardware_id = codes "unknown";
  producer_packet_count = 0;
  last_producer_counter = none;
}

abbrev pub first_sample : ℕ → FtSample
first_sample status_bits = record {
  counter = 7;
  packet_id = 1;
  sample_index = 0;
  samples_per_packet = 1;
  reading = record reading { status_bits = status_bits };
}

-- A node with both publishers, whose connection is lost or not.
abbrev pub node : Bool → Node
node connection_lost = record {
  name = codes "fts";
  sample_period_ns = 1000000;
  publish_sample_batches = false;
  data_publisher = true;
  state_publisher = true;
  last_state_level = none;
  base_stamp_set = true;
  base_stamp_ns = 5000000000;
  last_counter = some 5;
  base_counter = some 5;
  is_sensor_ok = true;
  connection_lost = connection_lost;
  last_skip_warning_time = 0;
  events = [];
}

abbrev pub moment : Moment
moment = record { monotonic = 3000000000; ros_now = 6000000000; is_streaming = true }
