-- ===== src/Dummy/Decoded.antt =====
-- What the driver's decoders make of the simulator's packets.
use schunk_fts_ros.Base.{
  ℕ, zero, suc, ◌+◌, ◌<◌, ◌≡◌, refl, ap, ◌∙◌, some, List, [], ◌∷◌, Bytes, All, length, map, ok,
  arith, ◌⊎◌, inl, inr, ◌==◌, Bool-cases, Result,
}
use schunk_fts_ros.Packet.{Reading, FtData, decode_packet, single_data}
use schunk_fts_ros.Packet.Encode.{
  IsWord, IsReading, with_readings, numbered, single_packet, packed_packet,
  decode_packet-single_packet, decode_packet-packed_packet,
}
use schunk_fts_ros.Node.{packet_gap}
use schunk_fts_ros.Dummy.{OutputRateMode, from_enum}
use schunk_fts_ros.Dummy.Udp.{Wave, Stream, sample, put_samples, packet, round}

abbrev pub samples : Wave → ℕ → ℕ → ℕ → List Reading
samples wave elapsed zero sample_index = []
samples wave elapsed (suc left) sample_index =
    sample wave elapsed sample_index ∷ samples wave elapsed left (sample_index + 1)

put_samples-with_readings :
    (wave : Wave) (elapsed left sample_index : ℕ)
    → put_samples wave elapsed left sample_index
      ≡ with_readings (samples wave elapsed left sample_index) []
unfolding put_samples
put_samples-with_readings wave elapsed zero sample_index = refl
put_samples-with_readings wave elapsed (suc left) sample_index =
    rw (put_samples-with_readings wave elapsed left (sample_index + 1))

-- Each value of the wave is the pattern of an `f32`.
abbrev pub AreWords : Wave → Type 0
AreWords wave = (elapsed sample_index axis : ℕ) → IsWord (wave elapsed sample_index axis)

pub sample-IsReading :
    (wave : Wave) (elapsed sample_index : ℕ)
    → AreWords wave
    → IsReading (sample wave elapsed sample_index)
unfolding sample
sample-IsReading wave elapsed i h = record {
  status_bits = omega arith;
  fx = h elapsed i 0;
  fy = h elapsed i 1;
  fz = h elapsed i 2;
  tx = h elapsed i 3;
  ty = h elapsed i 4;
  tz = h elapsed i 5;
}

pub samples-IsReading :
    (wave : Wave) (elapsed left sample_index : ℕ)
    → AreWords wave
    → All IsReading (samples wave elapsed left sample_index)
samples-IsReading wave elapsed zero i h = tt
samples-IsReading wave elapsed (suc left) i h =
    (sample-IsReading wave elapsed i h, samples-IsReading wave elapsed left (i + 1) h)

pub length-samples :
    (wave : Wave) (elapsed left sample_index : ℕ)
    → length (samples wave elapsed left sample_index) ≡ left
length-samples wave elapsed zero i = refl
length-samples wave elapsed (suc left) i = ap suc (length-samples wave elapsed left (i + 1))

-- The dictionaries bear the counter and the id of the packet.
abbrev pub Bears : ℕ → ℕ → FtData → Type 0
Bears counter packet_id d = (d.counter ≡ counter) × (d.id ≡ packet_id)

numbered_lem :
    (sync : Bytes) (counter packet_id i : ℕ) (rs : List Reading)
    → (map (λ (d : FtData). d.reading) (numbered sync counter packet_id i rs) ≡ rs)
      × All (Bears counter packet_id) (numbered sync counter packet_id i rs)
numbered_lem sync counter packet_id i [] = (refl, tt)
numbered_lem sync counter packet_id i (r ∷ rs) =
    let (e, b) = numbered_lem sync counter packet_id (i + 1) rs in
    (ap (λ (l : List Reading). r ∷ l) e, ((refl, refl), b))

pub per_packet :
    (value : ℕ) (m : OutputRateMode)
    → from_enum value ≡ some m
    → (m.samples_per_packet ≡ 1) ⊎ (m.samples_per_packet ≡ 16)
unfolding from_enum
per_packet value m h = elim (Bool-cases (m.samples_per_packet == 1)) [
  | inl e ↦ inl (ground arith)
  | inr e ↦ inr (ground arith)
]

pub packet-single :
    (wave : Wave) (m : OutputRateMode) (elapsed : ℕ) (s : Stream)
    → m.samples_per_packet ≡ 1
    → packet wave m elapsed s ≡ single_packet 255 255 s.counter s.packet_id (sample wave elapsed 0)
unfolding packet
packet-single wave m elapsed s e = rw (e, put_samples-with_readings wave elapsed 1 0)

pub packet-packed :
    (wave : Wave) (m : OutputRateMode) (elapsed : ℕ) (s : Stream)
    → m.samples_per_packet ≡ 16
    → packet wave m elapsed s
      ≡ packed_packet 255 255 s.counter s.packet_id (samples wave elapsed 16 0)
unfolding packet
packet-packed wave m elapsed s e = rw (e, put_samples-with_readings wave elapsed 16 0)

-- What the decoder makes of a packet: its samples, in their order, under its counter and its id.
abbrev pub Decodes : Wave → OutputRateMode → ℕ → Stream → Result (List FtData) → Type 0
Decodes wave m elapsed s r =
    (l : List FtData) × (r ≡ ok l)
    × (map (λ (d : FtData). d.reading) l ≡ samples wave elapsed m.samples_per_packet 0)
    × All (Bears s.counter s.packet_id) l

-- At every output rate that the simulator has, and with forces that are words of 32 bits, the
-- driver's decoder makes of a packet the samples that the simulator put in, in their order, each
-- with the counter and the id of the packet.
pub packet-Decodes :
    (value : ℕ) (wave : Wave) (m : OutputRateMode) (elapsed : ℕ) (s : Stream)
    → from_enum value ≡ some m
    → AreWords wave
    → Decodes wave m elapsed s (decode_packet (packet wave m elapsed s))
unfolding single_data
packet-Decodes value wave m elapsed s h w = elim (per_packet value m h) [
  | inl e ↦ (
    single_data (255 ∷ 255 ∷ []) s.counter 29 s.packet_id (sample wave elapsed 0) ∷ [],
    ap decode_packet (packet-single wave m elapsed s e)
        ∙ decode_packet-single_packet 255 255 s.counter s.packet_id (sample wave elapsed 0)
            (sample-IsReading wave elapsed 0 w),
    rw e,
    ((refl, refl), tt),
  )
  | inr e ↦ (
    numbered (255 ∷ 255 ∷ []) s.counter s.packet_id 0 (samples wave elapsed 16 0),
    ap decode_packet (packet-packed wave m elapsed s e)
        ∙ decode_packet-packed_packet 255 255 s.counter s.packet_id (samples wave elapsed 16 0)
            (length-samples wave elapsed 16 0) (samples-IsReading wave elapsed 16 0 w),
    rw e (numbered_lem (255 ∷ 255 ∷ []) s.counter s.packet_id 0 (samples wave elapsed 16 0)).0,
    (numbered_lem (255 ∷ 255 ∷ []) s.counter s.packet_id 0 (samples wave elapsed 16 0)).1,
  )
]

-- From one packet to the next there is no gap in the counter, where it starts again from 0 either.
pub round-packet_gap :
    (wave : Wave) (m : OutputRateMode) (elapsed : ℕ) (s : Stream)
    → s.counter < 65536
    → packet_gap (some s.counter) (round wave m elapsed s).0.counter ≡ 0
unfolding round packet_gap
round-packet_gap wave m elapsed s h = omega arith
