-- ===== src/Sensor/Loop.antt =====
-- The update loop of class `Driver`: `_update` of
-- schunk_fts_library/schunk_fts_library/driver.py, round by round.
use schunk_fts_ros.Base.{
  ℕ, ◌+◌, Bool, true, false, ◌&&◌, ◌||◌, some, List, [], ◌∷◌, Bytes, ltb, leb, if◌then◌else◌,
  length,
}
use schunk_fts_ros.Wire.{u16}
use schunk_fts_ros.Packet.{byte_at}
use schunk_fts_ros.Buffer
use schunk_fts_ros.Sensor.{Sensor, close, attempt_reconnect}

-- The variables of `_update`: clock values are in nanoseconds.
pub record Loop : Type 0 where
  pub sensor : Sensor
  pub last_packet_time : ℕ
  pub connection_lost : Bool

abbrev pub timeout : ℕ
timeout = 100000000

-- The test of its `while`.
unfoldable pub goes_on : Loop → Bool
goes_on l = l.sensor.is_streaming || l.connection_lost && l.sensor.auto_reconnect

-- One round of `for packet in packets`.
unfoldable pub process_packet : Bytes → Sensor → Sensor
process_packet packet s =
    let counted : Sensor = record s { producer_packet_count = s.producer_packet_count + 1 } in
    if leb 4 (length packet)
    then record counted {
      last_producer_counter = some (u16 (byte_at packet 2) (byte_at packet 3));
      ft_data = Buffer.put packet s.ft_data;
    }
    else counted

unfoldable pub process_packets : List Bytes → Sensor → Sensor
process_packets [] s = s
process_packets (p ∷ ps) s = process_packets ps (process_packet p s)

-- `if not connection_lost: …`
unfoldable pub note_loss : Loop → Loop
unfolding close
note_loss l = if l.connection_lost then l else record l {
  sensor = close (record l.sensor { received_data = false });
  connection_lost = true;
}

-- `if self.auto_reconnect: … else: …`; `after` is the clock after the attempt.
unfoldable pub try_again : ℕ → Loop → Loop
try_again after l =
    if l.sensor.auto_reconnect
    then (let (s, done) = attempt_reconnect l.sensor in
        if done
        then record l {
          sensor = record s { received_data = true };
          last_packet_time = after;
          connection_lost = false;
        }
        else record l { sensor = s })
    else record l { sensor = record l.sensor { is_streaming = false } }

unfoldable pub no_packets : ℕ → ℕ → Loop → Loop
no_packets now after l =
    if ltb (l.last_packet_time + timeout) now then try_again after (note_loss l) else l

-- One round of the `while`, on the packets that `stream.read` returned.
unfoldable pub iterate : List Bytes → ℕ → ℕ → Loop → Loop
iterate [] now after l = no_packets now after l
iterate (p ∷ ps) now after l = record {
  sensor = process_packets (p ∷ ps) (record l.sensor { received_data = true });
  last_packet_time = now;
  connection_lost = false;
}
