-- ===== src/Examples/Client.antt =====
-- The theorems on the connection, the requests, the driver and the stream, each on an example.
use schunk_fts_ros.Base.{
  ◌≡◌, refl, true, false, not, ◌||◌, none, some, List, [], ◌∷◌, Bytes, codes, err, struct_error,
  ◌⊎◌,
}
use schunk_fts_ros.Message.{command_response}
use schunk_fts_ros.Message.Layout.{layout}
use schunk_fts_ros.Connection
use schunk_fts_ros.Connection.{Connection}
use schunk_fts_ros.Connection.Sessions
use schunk_fts_ros.Connection.Sessions.{open_is_live}
use schunk_fts_ros.Commands.{run_command}
use schunk_fts_ros.Sensor.{Sensor, on_connection, streaming_off, attempt_reconnect}
use schunk_fts_ros.Sensor.Loop.{Loop, goes_on, iterate, no_packets, note_loss, try_again}
use schunk_fts_ros.Sensor.Streaming.{streaming_off-no_reply}
use schunk_fts_ros.Sensor.Reconnect.{IsUp, attempt_reconnect-IsUp}
use schunk_fts_ros.Sensor.Update.{timed_out, goes_on-iterate}
use schunk_fts_ros.Sensor.Lost.{Step, here, next, lost_is_shut}
use schunk_fts_ros.Stream.Users
use schunk_fts_ros.Stream.Users.{IsCounted, uses, exits, accepted, stream-IsCounted}
use schunk_fts_ros.Examples.{started, network, opened, sensor}

-- The network lets one connection through.
abbrev fresh : Connection
fresh = Connection.new (codes "fts") 82 (network (true ∷ []) [] [])

abbrev session : List Sessions.Call
session = Sessions.Call.open_connection ∷ Sessions.Call.close ∷ Sessions.Call.enter ∷ []

open_is_live_example :
    (Sessions.calls session
      (Connection.new (codes "fts") 82 (network (true ∷ true ∷ []) [] []))).socket_closed
    ≡ false
unfolding Sessions.calls Sessions.call Connection.new Connection.open_connection Connection.close
    Connection.enter
open_is_live_example = open_is_live (codes "fts") 82 (network (true ∷ true ∷ []) [] []) session refl

abbrev reply : Bytes
reply = layout command_response started

-- A connection on which one request is answered.
abbrev answering : Connection
answering = opened (network [] (true ∷ []) (some reply ∷ []))

-- A connection on which no reply comes.
abbrev silent : Connection
silent = opened (network [] (true ∷ []) (none ∷ []))

-- A driver that is not streaming yet.
abbrev idle : Sensor
idle = record (sensor (network (true ∷ []) (true ∷ []) (none ∷ [])) []) {
  connection = fresh;
  is_streaming = false;
}

abbrev streaming : Sensor
streaming = sensor (network (true ∷ []) (true ∷ []) (none ∷ [])) []

streaming_off-no_reply_example :
    ((streaming_off streaming).1 ≡ err struct_error)
    × ((streaming_off streaming).0.is_streaming ≡ true)
    × ((streaming_off streaming).0.auto_reconnect ≡ true)
streaming_off-no_reply_example = streaming_off-no_reply streaming [] refl refl

attempt_reconnect-IsUp_example :
    IsUp (attempt_reconnect streaming).1 (attempt_reconnect streaming).0.connection
attempt_reconnect-IsUp_example = attempt_reconnect-IsUp streaming

abbrev loop : Loop
loop = record { sensor = streaming; last_packet_time = 0; connection_lost = false }

goes_on-iterate_example :
    goes_on (iterate [] 200000000 300000000 loop) ≡ (true || not (timed_out [] 200000000 loop))
goes_on-iterate_example = goes_on-iterate [] 200000000 300000000 loop refl

-- The connection is lost and cannot be had again, and then another thread sends a command.
abbrev cut_off : Loop
cut_off = record loop { sensor = sensor (network [] [] []) [] }

abbrev lost : Loop
lost = iterate [] 200000000 300000000 cut_off

abbrev asked : Loop
asked = record lost { sensor = (on_connection (run_command (codes "12")) lost.sensor).0 }

lost_is_shut_example : false ≡ true ⊎ IsUp false asked.sensor.connection
unfolding goes_on iterate no_packets note_loss try_again attempt_reconnect run_command
    Connection.close Connection.open_connection Connection.enter
lost_is_shut_example =
    lost_is_shut {l = cut_off} {m = asked} refl
      (next (next here (Step.round [] 200000000 300000000 cut_off refl))
        (Step.command (codes "12") lost))
      refl

abbrev users : List Users.Use
users = Users.Use.enter true ∷ Users.Use.enter true ∷ Users.Use.exit ∷ []
