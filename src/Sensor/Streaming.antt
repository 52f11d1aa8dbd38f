-- ===== src/Sensor/Streaming.antt =====
-- What `streaming_on` and `streaming_off` leave behind, on every branch.
use schunk_fts_ros.Base.{
  ◌≡◌, Bool, true, false, Option, none, List, ◌∷◌, Result, ok, err, struct_error, Bytes, arith,
}
use schunk_fts_ros.Wire.{hex, hex_digit}
use schunk_fts_ros.Connection
use schunk_fts_ros.Connection.{Connection}
use schunk_fts_ros.Commands.{stop_udp_stream}
use schunk_fts_ros.Commands.Branches.{run_command-no_reply}
use schunk_fts_ros.Sensor.{
  Sensor, identify, finish_streaming_on, configure_output_rate, streaming_on, streaming_off, close,
}

-- A result tells whether the sensor is streaming; an exception leaves it streaming.
abbrev pub Tells : Sensor × Result Bool → Type 0
Tells (s, ok b) = s.is_streaming ≡ b
Tells (s, err e) = s.is_streaming ≡ true

identify-Tells : (s : Sensor) → s.is_streaming ≡ true → Tells (identify s)
unfolding identify configure_output_rate finish_streaming_on
identify-Tells s h = ground arith

-- After `streaming_on` the driver is streaming exactly if it returned true, or raised: an
-- exception on the way, such as a short reply, leaves `is_streaming` set.
pub streaming_on-Tells :
    (stream_opens auto_reconnect : Bool) (s : Sensor)
    → Tells (streaming_on stream_opens auto_reconnect s)
unfolding streaming_on
streaming_on-Tells stream_opens auto_reconnect s = ground (
  arith,
  identify-Tells (record s {
    connection = (Connection.open_connection s.connection).0;
    is_streaming = true;
    auto_reconnect = auto_reconnect;
  }),
)

-- What `streaming_off` leaves: on success nothing streams, no reconnection is wanted and the
-- connection is shut; an exception of the stop command leaves both flags as they were.
abbrev pub StopsOrKeeps : Sensor → Sensor × Result (Unit {0}) → Type 0
StopsOrKeeps s (s', ok _) =
    (s'.is_streaming ≡ false)
    × (s'.auto_reconnect ≡ false)
    × (s'.connection.is_open ≡ false)
    × (s'.connection.persistent ≡ false)
StopsOrKeeps s (s', err e) =
    (s'.is_streaming ≡ s.is_streaming) × (s'.auto_reconnect ≡ s.auto_reconnect)

close_shuts :
    (c : Connection)
    → ((Connection.close c).is_open ≡ false) × ((Connection.close c).persistent ≡ false)
unfolding Connection.close
close_shuts c = ground arith

stop_no_reply :
    (c : Connection) (rest : List (Option Bytes))
    → c.is_open ≡ true
    → c.net.replies ≡ none ∷ rest
    → (stop_udp_stream c).1 ≡ err struct_error
unfolding stop_udp_stream hex hex_digit
stop_no_reply c rest o r = (run_command-no_reply 0x41 c rest (omega arith) o r).0

-- `streaming_off` stops the driver, or raises and changes neither flag.
pub streaming_off-StopsOrKeeps : (s : Sensor) → StopsOrKeeps s (streaming_off s)
unfolding streaming_off close
streaming_off-StopsOrKeeps s = ground (arith, close_shuts (stop_udp_stream s.connection).0)

-- On an open connection whose reply to the stop command does not come, `streaming_off` raises
-- `struct.error` and the driver goes on streaming and reconnecting as before.
pub streaming_off-no_reply :
    (s : Sensor) (rest : List (Option Bytes))
    → s.connection.is_open ≡ true
    → s.connection.net.replies ≡ none ∷ rest
    → ((streaming_off s).1 ≡ err struct_error)
      × ((streaming_off s).0.is_streaming ≡ s.is_streaming)
      × ((streaming_off s).0.auto_reconnect ≡ s.auto_reconnect)
unfolding streaming_off
streaming_off-no_reply s rest o r = ground (arith, stop_no_reply s.connection rest o r)
