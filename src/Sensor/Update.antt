-- ===== src/Sensor/Update.antt =====
-- The update loop: the connection while it is lost, the end of the loop, and the packets.
use schunk_fts_ros.Base.{
  ℕ, ◌+◌, ◌≡◌, refl, Bool, true, false, not, ◌&&◌, ◌||◌, List, [], ◌∷◌, Bytes, ltb, leb,
  if◌then◌else◌, length, arith,
}
use schunk_fts_ros.Buffer.Samples.{puts}
use schunk_fts_ros.Sensor.{Sensor, attempt_reconnect, configure_output_rate}
use schunk_fts_ros.Sensor.Loop.{
  Loop, timeout, goes_on, process_packet, process_packets, note_loss, try_again, no_packets,
  iterate,
}

record Keeps (s t : Sensor) : Type 0 where
  streaming : t.is_streaming ≡ s.is_streaming
  auto : t.auto_reconnect ≡ s.auto_reconnect

attempt_reconnect-Keeps : (s : Sensor) → Keeps s (attempt_reconnect s).0
unfolding attempt_reconnect configure_output_rate
attempt_reconnect-Keeps s = ground arith

abbrev is_nil : List Bytes → Bool
is_nil [] = true
is_nil (p ∷ ps) = false

abbrev pub timed_out : List Bytes → ℕ → Loop → Bool
timed_out ps now l = is_nil ps && ltb (l.last_packet_time + timeout) now

process_packets-Keeps : (ps : List Bytes) (s : Sensor) → Keeps s (process_packets ps s)
unfolding process_packets process_packet
process_packets-Keeps [] s = ground arith
process_packets-Keeps (p ∷ ps) s = ground (arith, process_packets-Keeps ps (process_packet p s))

note_loss-Keeps : (l : Loop) → Keeps l.sensor (note_loss l).sensor
unfolding note_loss
note_loss-Keeps l = ground arith

goes_on-try_again :
    (after : ℕ) (l : Loop)
    → l.sensor.is_streaming ≡ true
    → goes_on (try_again after l) ≡ l.sensor.auto_reconnect
unfolding goes_on try_again
goes_on-try_again after l h = ground (arith, attempt_reconnect-Keeps l.sensor)

-- While the driver streams, a round of the loop is followed by another, but for one case: no
-- packet came within the timeout and no reconnection is wanted. Then the loop ends.
pub goes_on-iterate :
    (ps : List Bytes) (now after : ℕ) (l : Loop)
    → l.sensor.is_streaming ≡ true
    → goes_on (iterate ps now after l) ≡ (l.sensor.auto_reconnect || not (timed_out ps now l))
unfolding goes_on iterate no_packets
goes_on-iterate [] now after l h =
    ground (arith, note_loss-Keeps l, goes_on-try_again after (note_loss l))
goes_on-iterate (p ∷ ps) now after l h =
    ground (arith, process_packets-Keeps (p ∷ ps) (record l.sensor { received_data = true }))

-- The packets that have room for a counter.
abbrev pub with_counter : List Bytes → List Bytes
with_counter [] = []
with_counter (p ∷ ps) = if leb 4 (length p) then p ∷ with_counter ps else with_counter ps

process_packets_lem :
    (ps : List Bytes) (s : Sensor)
    → ((process_packets ps s).producer_packet_count ≡ s.producer_packet_count + length ps)
      × ((process_packets ps s).ft_data ≡ puts (with_counter ps) s.ft_data)
unfolding process_packets process_packet puts
process_packets_lem [] s = (omega arith, refl)
process_packets_lem (p ∷ ps) s = ground (arith, process_packets_lem ps (process_packet p s))

-- A round with packets counts all of them, and hands those that have room for a counter to the
-- buffer, in order; the connection is then not lost.
pub iterate_packets :
    (p : Bytes) (ps : List Bytes) (now after : ℕ) (l : Loop)
    → ((iterate (p ∷ ps) now after l).sensor.producer_packet_count
        ≡ l.sensor.producer_packet_count + length (p ∷ ps))
      × ((iterate (p ∷ ps) now after l).sensor.ft_data
          ≡ puts (with_counter (p ∷ ps)) l.sensor.ft_data)
      × ((iterate (p ∷ ps) now after l).connection_lost ≡ false)
unfolding iterate
iterate_packets p ps now after l =
    let (n, b) = process_packets_lem (p ∷ ps) (record l.sensor { received_data = true }) in
    (n, b, refl)
