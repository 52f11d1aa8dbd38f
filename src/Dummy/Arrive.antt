-- ===== src/Dummy/Arrive.antt =====
-- From the simulator's stream to the samples that the node takes: the packets over the driver's
-- stream and its update loop into the buffer, and out of it.
use schunk_fts_ros.Base.{
  ℕ, zero, suc, ◌+◌, ◌≤◌, ◌≡◌, refl, sym, ap, ap₂, ◌∙◌, true, Option, some, List, [], ◌∷◌, Bytes,
  Text, codes, length, map, ok, arith, inl, inr,
}
use schunk_fts_ros.Packet.{FtSample, decode_packet, decode_sample_batch, single_data}
use schunk_fts_ros.Packet.Encode.{
  numbered, decode_packet-single_packet, decode_packet-packed_packet,
}
use schunk_fts_ros.Packet.Agree.{sample_of, samples_of, decoders_agree}
use schunk_fts_ros.Buffer.{new, some_batch}
use schunk_fts_ros.Buffer.Samples.{puts}
use schunk_fts_ros.Buffer.Batches.{drain_batches, batch_of, drain_batches-puts}
use schunk_fts_ros.Stream
use schunk_fts_ros.Stream.{accepts_source}
use schunk_fts_ros.Stream.Users.{accepted, read_all_lem}
use schunk_fts_ros.Sensor.Loop.{Loop, iterate}
use schunk_fts_ros.Sensor.Update.{with_counter, iterate_packets}
use schunk_fts_ros.Dummy.{OutputRateMode, from_enum}
use schunk_fts_ros.Dummy.Udp
use schunk_fts_ros.Dummy.Udp.{Wave, sample, packet, round}
use schunk_fts_ros.Dummy.Decoded.{
  AreWords, samples, sample-IsReading, samples-IsReading, length-samples, per_packet, packet-single,
  packet-packed,
}

abbrev pub sample_at : Wave → ℕ → Udp.Stream → ℕ → ℕ → FtSample
sample_at wave elapsed s per_packet i = record {
  counter = s.counter;
  packet_id = s.packet_id;
  sample_index = i;
  samples_per_packet = per_packet;
  reading = sample wave elapsed i;
}

-- The samples of one packet, as the node gets them.
abbrev pub batch_from : Wave → ℕ → Udp.Stream → ℕ → ℕ → ℕ → List FtSample
batch_from wave elapsed s per_packet zero i = []
batch_from wave elapsed s per_packet (suc left) i =
    sample_at wave elapsed s per_packet i ∷ batch_from wave elapsed s per_packet left (i + 1)

abbrev pub batch : Wave → OutputRateMode → ℕ → Udp.Stream → List FtSample
batch wave m elapsed s = batch_from wave elapsed s m.samples_per_packet m.samples_per_packet 0

numbered-batch :
    (wave : Wave) (elapsed : ℕ) (s : Udp.Stream) (sync : Bytes) (left i : ℕ)
    → map sample_of (numbered sync s.counter s.packet_id i (samples wave elapsed left i))
      ≡ batch_from wave elapsed s 16 left i
numbered-batch wave elapsed s sync zero i = refl
numbered-batch wave elapsed s sync (suc left) i =
    ap (λ (l : List FtSample). sample_at wave elapsed s 16 i ∷ l)
      (numbered-batch wave elapsed s sync left (i + 1))

module _ (wave : Wave) (m : OutputRateMode) (w : AreWords wave) (value : ℕ)
    (h : from_enum value ≡ some m) where
  decode_sample_batch-packet :
      (elapsed : ℕ) (s : Udp.Stream)
      → decode_sample_batch (packet wave m elapsed s) ≡ ok (batch wave m elapsed s)
  unfolding single_data
  decode_sample_batch-packet elapsed s =
      decoders_agree (packet wave m elapsed s) ∙ elim (per_packet value m h) [
        | inl e ↦
            ap samples_of (
              ap decode_packet (packet-single wave m elapsed s e)
              ∙ decode_packet-single_packet 255 255 s.counter s.packet_id (sample wave elapsed 0)
                  (sample-IsReading wave elapsed 0 w))
            ∙ ap (λ (n : ℕ). ok (batch_from wave elapsed s n n 0)) (sym e)
        | inr e ↦
            ap samples_of (
              ap decode_packet (packet-packed wave m elapsed s e)
              ∙ decode_packet-packed_packet 255 255 s.counter s.packet_id
                  (samples wave elapsed 16 0) (length-samples wave elapsed 16 0)
                  (samples-IsReading wave elapsed 16 0 w))
            ∙ ap ok (numbered-batch wave elapsed s (255 ∷ 255 ∷ []) 16 0)
            ∙ ap (λ (n : ℕ). ok (batch_from wave elapsed s n n 0)) (sym e)
      ]

-- The datagrams of one round after another, at the given times.
abbrev pub sent : Wave → OutputRateMode → List ℕ → Udp.Stream → List Bytes
sent wave m [] s = []
sent wave m (elapsed ∷ times) s =
    packet wave m elapsed s ∷ sent wave m times (round wave m elapsed s).0

-- The batches of the same rounds.
abbrev pub batches : Wave → OutputRateMode → List ℕ → Udp.Stream → List (List FtSample)
batches wave m [] s = []
batches wave m (elapsed ∷ times) s =
    batch wave m elapsed s ∷ batches wave m times (round wave m elapsed s).0

length-sent :
    (wave : Wave) (m : OutputRateMode) (times : List ℕ) (s : Udp.Stream)
    → length (sent wave m times s) ≡ length times
length-sent wave m [] s = refl
length-sent wave m (e ∷ times) s = ap suc (length-sent wave m times (round wave m e s).0)

with_counter-sent :
    (wave : Wave) (m : OutputRateMode) (times : List ℕ) (s : Udp.Stream)
    → with_counter (sent wave m times s) ≡ sent wave m times s
unfolding packet
with_counter-sent wave m [] s = refl
with_counter-sent wave m (e ∷ times) s =
    rw (with_counter-sent wave m times (round wave m e s).0) (ground arith)

abbrev pub from_simulator : List Bytes → List (Bytes × Text)
from_simulator ps = map (λ (p : Bytes). (p, codes "127.0.0.1")) ps

accepted-all :
    (ip : Option Text) (ps : List Bytes)
    → accepts_source ip (codes "127.0.0.1") ≡ true
    → accepted ip (from_simulator ps) ≡ ps
accepted-all ip [] h = refl
accepted-all ip (p ∷ ps) h = rw h (ap (λ (l : List Bytes). p ∷ l) (accepted-all ip ps h))

read_lem :
    (ds : List (Bytes × Text)) (t : Stream.Stream)
    → t.is_open ≡ true
    → (Stream.read ds t).1 ≡ accepted t.source_ip ds
unfolding Stream.read
read_lem ds t o = ground (arith, read_all_lem ds t)

module _ (wave : Wave) (m : OutputRateMode) (w : AreWords wave) (value : ℕ)
    (h : from_enum value ≡ some m) where
  map-batches :
      (times : List ℕ) (s : Udp.Stream)
      → map batch_of (sent wave m times s)
        ≡ map (λ (l : List FtSample). ok (some l)) (batches wave m times s)
  unfolding some_batch
  map-batches [] s = refl
  map-batches (e ∷ times) s =
      ap₂ ◌∷◌ (ap some_batch (decode_sample_batch-packet wave m w value h e s))
        (map-batches times (round wave m e s).0)

  -- Let the simulator stream at a rate that it has, with forces that are words of 32 bits, and let
  -- the driver's open stream accept its address. What one round of the update loop reads of it, and
  -- puts into an empty buffer with room for it, comes out of `get_sample_batch` packet by packet
  -- in the order of sending: the samples that the simulator measured, under its counter and its id.
  pub samples_arrive :
      (elapsed : ℕ) (times nows : List ℕ) (s : Udp.Stream) (t : Stream.Stream) (l : Loop)
      (maxsize created now after : ℕ)
      → t.is_open ≡ true
      → accepts_source t.source_ip (codes "127.0.0.1") ≡ true
      → l.sensor.ft_data ≡ new maxsize created
      → length (elapsed ∷ times) ≤ maxsize
      → length nows ≡ length (elapsed ∷ times)
      → drain_batches nows
          (iterate
            (Stream.read (from_simulator (sent wave m (elapsed ∷ times) s)) t).1
            now
            after
            l).sensor.ft_data
        ≡ map (λ (b : List FtSample). ok (some b)) (batches wave m (elapsed ∷ times) s)
  samples_arrive elapsed times nows s t l maxsize created now after o a f room n =
      let ps = sent wave m (elapsed ∷ times) s in
      ap (λ (r : List Bytes). drain_batches nows (iterate r now after l).sensor.ft_data)
        (read_lem (from_simulator ps) t o ∙ accepted-all t.source_ip ps a)
      ∙ ap (drain_batches nows) (
          (iterate_packets (packet wave m elapsed s) (sent wave m times (round wave m elapsed s).0)
            now after l).1
          ∙ ap₂ puts (with_counter-sent wave m (elapsed ∷ times) s) f)
      ∙ drain_batches-puts maxsize created ps nows
          (omega (arith, length-sent wave m (elapsed ∷ times) s))
          (omega (arith, length-sent wave m (elapsed ∷ times) s))
      ∙ map-batches (elapsed ∷ times) s
