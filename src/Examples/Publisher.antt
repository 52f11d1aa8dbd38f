-- ===== src/Examples/Publisher.antt =====
-- The theorems on the node, its services and its callbacks, each on an example.
use schunk_fts_ros.Base.{
  ◌≡◌, refl, true, false, none, some, List, [], ◌∷◌, ◌++◌, Text, Bytes, codes, Error, ok, arith,
}
use schunk_fts_ros.Packet.{FtData, single_data}
use schunk_fts_ros.Buffer.{Buffer, get_sample_batch}
use schunk_fts_ros.Sensor.{Sensor}
use schunk_fts_ros.Node.{ok_level, status_level_from_bits}
use schunk_fts_ros.Node.Publish.{Node, publish_round}
use schunk_fts_ros.Node.Publish.Rounds.{data_events, state_events, stamp_for, round_ok}
use schunk_fts_ros.Node.Publish.Runs.{
  Arrival, IsSettled, publish_rounds, published_by, rounds_publish,
}
use schunk_fts_ros.Node.Publish.Outage.{restored, not_ready, silence_is_restored}
use schunk_fts_ros.Node.Publish.Malformed.{
  Tick, take_rounds, behind, all_packets, queue_ends_thread,
}
use schunk_fts_ros.Services.Replies.{Request, asked, Answers, handle, handle-Answers}
use schunk_fts_ros.Examples.{reading, first_sample, network, sensor, node, moment, single}

-- The second packet after the base, whose counter has wrapped.
abbrev wrapped : FtData
wrapped = single_data (255 ∷ 255 ∷ []) 1 29 1 reading

-- The eighth sample of the third packet after the base.
abbrev eighth : FtData
eighth = record wrapped { counter = 2; sample_index = some 7; samples_per_packet = some 16 }

round_ok_example :
    ((publish_round (ok (some (first_sample 1 ∷ []))) moment (node false)).0.events
      ≡ []
        ++ (data_events
              (first_sample 1)
              []
              (stamp_for (first_sample 1) moment (node false))
              (node false)
            ++ state_events (first_sample 1) moment (node false)))
    × ((publish_round (ok (some (first_sample 1 ∷ []))) moment (node false)).0.is_sensor_ok ≡ true)
    × ((publish_round (ok (some (first_sample 1 ∷ []))) moment (node false)).1 ≡ true)
unfolding status_level_from_bits
round_ok_example = round_ok (first_sample 1) [] moment (node false) refl refl refl

-- A node that has published the state OK, and two packets for it.
abbrev settled : Node
settled = record (node false) { last_state_level = some ok_level }

settled-IsSettled : IsSettled settled
settled-IsSettled = ground arith

abbrev arrivals : List Arrival
arrivals =
    record { first = first_sample 1; rest = []; moment = moment }
    ∷ record { first = record (first_sample 1) { counter = 8 }; rest = []; moment = moment }
    ∷ []

rounds_publish_example :
    ((publish_rounds arrivals settled).0.events ≡ [] ++ published_by settled arrivals)
    × ((publish_rounds arrivals settled).1 ≡ true)
unfolding status_level_from_bits
rounds_publish_example = rounds_publish arrivals settled settled-IsSettled refl

-- The buffer of the example sensor.
abbrev buffer : List Bytes → Buffer
buffer queue = (sensor (network [] [] []) queue).ft_data

-- Four bytes, which the update loop passes on.
abbrev short_packet : Bytes
short_packet = 255 ∷ 255 ∷ 7 ∷ 0 ∷ []

abbrev tick : Tick
tick = record { now = 5; moment = moment }

abbrev mixed : List Bytes
mixed = single ∷ short_packet ∷ single ∷ []

queue_ends_thread_example :
    ((take_rounds (tick ∷ tick ∷ tick ∷ []) (buffer mixed) (node false)).0.queue ≡ behind mixed)
    × ((take_rounds (tick ∷ tick ∷ tick ∷ []) (buffer mixed) (node false)).2 ≡ all_packets mixed)
queue_ends_thread_example =
    queue_ends_thread (tick ∷ tick ∷ tick ∷ []) (buffer mixed) (node false) refl

-- The thread ends, and the last packet stays.
mixed_ends : (behind mixed ≡ single ∷ []) × (all_packets mixed ≡ false)
mixed_ends = (refl, refl)

silence_is_restored_example :
    ((publish_round (get_sample_batch 1500000000 (buffer [])).1 moment (node true)).0.events
      ≡ [] ++ (restored ∷ not_ready moment ∷ []))
    × ((publish_round
          (get_sample_batch 1500000000 (buffer [])).1
          moment
          (node true)).0.connection_lost
        ≡ false)
silence_is_restored_example =
    silence_is_restored (buffer []) 1500000000 moment (node true) refl (omega arith) refl refl

abbrev describe : Error → Text
describe e = codes "error"

abbrev silent : Sensor
silent = sensor (network [] (true ∷ []) (none ∷ [])) []

handle-Answers_example :
    Answers (asked Request.tare silent.connection).1 (handle describe Request.tare silent).1
    × ((handle describe Request.tare silent).0
        ≡ record silent { connection = (asked Request.tare silent.connection).0 })
handle-Answers_example = handle-Answers describe Request.tare silent
