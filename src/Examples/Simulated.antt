-- ===== src/Examples/Simulated.antt =====
-- The theorems on the simulator of the sensor, each on an example.
use schunk_fts_ros.Base.{
  ℕ, ◌++◌, some, none, ok, List, map, ◌≡◌, refl, true, false, [], ◌∷◌, Bytes, codes, arith,
}
use schunk_fts_ros.Rates
use schunk_fts_ros.Rates.{normalize_output_rate}
use schunk_fts_ros.Buffer
use schunk_fts_ros.Connection
use schunk_fts_ros.Sensor.{Sensor, new, streaming_on}
use schunk_fts_ros.Dummy.{
  OutputRateMode, Session, accept, from_enum, mode, handle_request, handle_requests,
}
use schunk_fts_ros.Dummy.Udp
use schunk_fts_ros.Dummy.Udp.{Wave}
use schunk_fts_ros.Dummy.Agree.{Agrees, rates-Agrees}
use schunk_fts_ros.Dummy.Requests.{outcome, expected, counter_after, handle_request_lem}
use schunk_fts_ros.Dummy.Dialogue.{Sets, set_request, get_request, set_then_get}
use schunk_fts_ros.Dummy.Start.{network, simulated, Started, streaming_on-simulated}
use schunk_fts_ros.Node.{ok_level}
use schunk_fts_ros.Node.Publish.{Node, Moment}
use schunk_fts_ros.Node.Publish.Runs.{publish_rounds, IsSettled}
use schunk_fts_ros.Dummy.Published.{arrivals, timed, samples_in, measured, simulator_published}
use schunk_fts_ros.Examples.{sensor, node, moment}
use schunk_fts_ros.Stream
use schunk_fts_ros.Packet.{FtSample}
use schunk_fts_ros.Buffer.Batches.{drain_batches}
use schunk_fts_ros.Sensor.Loop.{Loop, iterate}
use schunk_fts_ros.Dummy.Arrive.{from_simulator, sent, batches, samples_arrive}

-- The mode of the packed packets, for the driver and for the simulator.
abbrev packed_rate : Rates.OutputRateMode
packed_rate = Rates.mode (codes "500_16") (codes "0a") 500 8000 16

abbrev slow : OutputRateMode
unfolding mode
slow = mode 3 100 100 1

abbrev fast : OutputRateMode
unfolding mode
fast = mode 10 8000 500 16

rates-Agrees_example : Agrees packed_rate
unfolding normalize_output_rate
rates-Agrees_example = rates-Agrees (codes "500_16") packed_rate refl

-- Six bytes, and no command.
abbrev header_only : Bytes
header_only = 255 ∷ 255 ∷ 0 ∷ 0 ∷ 0 ∷ 0 ∷ []

abbrev session : Session
session = accept slow

handle_request_lem_example :
    (outcome (handle_request header_only session).1 ≡ expected header_only)
    × ((handle_request header_only session).0.counter
        ≡ counter_after (expected header_only) session.counter)
handle_request_lem_example = handle_request_lem header_only session

set_then_get_example :
    Sets 10 session (from_enum 10) (handle_requests (set_request 10 ∷ get_request ∷ []) session)
set_then_get_example = set_then_get 10 session

-- A driver made with that rate, before the simulator with another.
abbrev driver : Sensor
unfolding Buffer.new Connection.new
driver = record (sensor (network slow packed_rate) []) {
  connection = Connection.new (codes "127.0.0.1") 8082 (network slow packed_rate);
  output_rate_mode = packed_rate;
  ft_data = Buffer.new 1000 0;
  is_streaming = false;
  auto_reconnect = false;
  received_data = false;
}

streaming_on-simulated_example :
    Started packed_rate (simulated slow packed_rate).0 (streaming_on true true driver)
unfolding new normalize_output_rate driver
streaming_on-simulated_example =
    streaming_on-simulated (codes "127.0.0.1") 8082 0 slow true (codes "500_16") packed_rate driver
      refl refl

abbrev flat : Wave
flat elapsed sample_index axis = 1065353216

abbrev stream : Udp.Stream
stream = record { counter = 65535; packet_id = 255 }

abbrev source : Stream.Stream
source = record {
  port = 54843;
  source_host = none;
  source_ip = some (codes "127.0.0.1");
  accepted_packet_count = 0;
  ignored_packet_count = 0;
  source_addresses = [];
  is_open = true;
  open_count = 1;
  socket_closed = false;
}

abbrev loop : Loop
loop = record { sensor = driver; last_packet_time = 0; connection_lost = false }

samples_arrive_example :
    drain_batches
      (1 ∷ 2 ∷ [])
      (iterate
        (Stream.read (from_simulator (sent flat fast (0 ∷ 2000000 ∷ []) stream)) source).1
        0
        0
        loop).sensor.ft_data
    ≡ map (λ (b : List FtSample). ok (some b)) (batches flat fast (0 ∷ 2000000 ∷ []) stream)
unfolding from_enum mode driver Stream.accepts_source
samples_arrive_example =
    samples_arrive flat fast (λ elapsed sample_index axis. omega arith) 10 refl 0 (2000000 ∷ [])
      (1 ∷ 2 ∷ []) stream source loop 1000 0 0 0 refl refl refl (omega arith) (omega arith)

-- A node that has published the state OK, and whose base packet is the first of the stream.
abbrev settled : Node
settled = record (node false) { last_state_level = some ok_level; base_counter = some 65535 }

settled-IsSettled : IsSettled settled
settled-IsSettled = ground arith

abbrev times : List (ℕ × Moment)
times = (0, moment) ∷ (2000000, moment) ∷ []

simulator_published_example :
    (map samples_in (arrivals flat fast times stream)
      ≡ batches flat fast (map measured times) stream)
    × ((publish_rounds (arrivals flat fast times stream) settled).0.events
        ≡ [] ++ timed flat fast settled 0 times stream)
    × ((publish_rounds (arrivals flat fast times stream) settled).1 ≡ true)
unfolding fast
simulator_published_example =
    simulator_published flat fast settled 65535 0 times stream (omega arith) settled-IsSettled refl
      (omega arith) refl (omega arith)
