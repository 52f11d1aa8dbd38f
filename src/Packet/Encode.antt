-- ===== src/Packet/Encode.antt =====
-- The packets that the sensor sends, written byte by byte, and what the decoders make of them.
use native.Mathlib.Nat.{add_assoc}
use schunk_fts_ros.Base.{
  ℕ, ◌+◌, ◌/◌, ◌%◌, ◌<◌, ◌≡◌, refl, ap, ◌∙◌, some, List, [], ◌∷◌, Bytes, All, length, length-drop,
  drop, drop-drop, get_or-drop, slice, ok, arith,
}
use schunk_fts_ros.Wire.{u16, u32}
use schunk_fts_ros.Packet.{
  Reading, FtData, word_at, reading_at, unpack_from, item, packed_data, single_data, unpack_header,
  unpack_single, packet_body, decode_packet,
}
use schunk_fts_ros.Packet.Total.{unpack_header-slice}

abbrev pub IsWord : ℕ → Type 0
IsWord n = n < 4294967296

pub record IsReading (r : Reading) : Type 0 where
  pub status_bits : IsWord r.status_bits
  pub fx : IsWord r.fx
  pub fy : IsWord r.fy
  pub fz : IsWord r.fz
  pub tx : IsWord r.tx
  pub ty : IsWord r.ty
  pub tz : IsWord r.tz

abbrev pub with_word : ℕ → Bytes → Bytes
with_word n bs = n % 256 ∷ n / 256 % 256 ∷ n / 65536 % 256 ∷ n / 16777216 ∷ bs

-- 28 bytes, and what follows them.
abbrev pub with_reading : Reading → Bytes → Bytes
with_reading r bs = with_word r.status_bits (
    with_word r.fx
      (with_word r.fy (with_word r.fz (with_word r.tx (with_word r.ty (with_word r.tz bs))))))

abbrev pub with_readings : List Reading → Bytes → Bytes
with_readings [] bs = bs
with_readings (r ∷ rs) bs = with_reading r (with_readings rs bs)

-- A packet with one reading: the payload length is 29.
abbrev pub single_packet : ℕ → ℕ → ℕ → ℕ → Reading → Bytes
single_packet sync0 sync1 counter packet_id r =
    sync0 ∷ sync1 ∷ counter % 256 ∷ counter / 256 ∷ 29 ∷ 0 ∷ packet_id ∷ with_reading r []

-- A packet with 16 readings: the payload length is 449.
abbrev pub packed_packet : ℕ → ℕ → ℕ → ℕ → List Reading → Bytes
packed_packet sync0 sync1 counter packet_id rs =
    sync0 ∷ sync1 ∷ counter % 256 ∷ counter / 256 ∷ 193 ∷ 1 ∷ packet_id ∷ with_readings rs []

word_at-drop : (bs : Bytes) (i k : ℕ) → word_at bs (i + k) ≡ word_at (drop i bs) k
unfolding word_at
word_at-drop bs i k = cc (
  get_or-drop bs i k 0,
  get_or-drop bs i (k + 1) 0,
  get_or-drop bs i (k + 2) 0,
  get_or-drop bs i (k + 3) 0,
  add_assoc i k 1,
  add_assoc i k 2,
  add_assoc i k 3,
)

word_at-drop_zero : (bs : Bytes) (i : ℕ) → word_at bs i ≡ word_at (drop i bs) 0
word_at-drop_zero bs i = ap (word_at bs) (omega arith) ∙ word_at-drop bs i 0

reading_at-drop : (bs : Bytes) (i : ℕ) → reading_at bs i ≡ reading_at (drop i bs) 0
unfolding reading_at
reading_at-drop bs i = cc (
  word_at-drop_zero bs i,
  word_at-drop bs i 4,
  word_at-drop bs i 8,
  word_at-drop bs i 12,
  word_at-drop bs i 16,
  word_at-drop bs i 20,
  word_at-drop bs i 24,
)

word_split : (n : ℕ) → IsWord n → u32 (n % 256) (n / 256 % 256) (n / 65536 % 256) (n / 16777216) ≡ n
word_split n h = omega arith

reading_at-with_reading :
    (r : Reading) (bs : Bytes) → IsReading r → reading_at (with_reading r bs) 0 ≡ r
unfolding reading_at word_at
reading_at-with_reading r bs h = cc (
  word_split r.status_bits h.status_bits,
  word_split r.fx h.fx,
  word_split r.fy h.fy,
  word_split r.fz h.fz,
  word_split r.tx h.tx,
  word_split r.ty h.ty,
  word_split r.tz h.tz,
)

-- The dictionaries of the readings of one packed packet, numbered from `sample_index` on.
abbrev pub numbered : Bytes → ℕ → ℕ → ℕ → List Reading → List FtData
numbered sync counter packet_id sample_index [] = []
numbered sync counter packet_id sample_index (r ∷ rs) =
    record {
      sync = sync;
      counter = counter;
      payload = 449;
      id = packet_id;
      reading = r;
      sample_index = some sample_index;
      samples_per_packet = some 16;
    }
    ∷ numbered sync counter packet_id (sample_index + 1) rs

module _ (bs : Bytes) (counter packet_id : ℕ) where
  unpack_from-with_reading :
      (offset : ℕ) (r : Reading) (rest : Bytes)
      → drop offset bs ≡ with_reading r rest
      → IsReading r
      → unpack_from bs offset ≡ ok r
  unfolding unpack_from
  unpack_from-with_reading offset r rest e h = ground (
    arith,
    length-drop offset bs,
    ap (λ (xs : Bytes). length xs) e,
    reading_at-drop bs offset,
    ap (λ (xs : Bytes). reading_at xs 0) e,
    reading_at-with_reading r rest h,
  )

  packed_data-with_readings :
      (rs : List Reading) (sample_index offset : ℕ) (rest : Bytes)
      → drop offset bs ≡ with_readings rs rest
      → All IsReading rs
      → packed_data bs counter 449 packet_id (length rs) sample_index offset
        ≡ ok (numbered (slice 0 2 bs) counter packet_id sample_index rs)
  unfolding packed_data
  packed_data-with_readings [] sample_index offset rest e h = refl
  packed_data-with_readings (r ∷ rs) sample_index offset rest e (hr, hrs) = rw (
    unpack_from-with_reading offset r (with_readings rs rest) e hr,
    packed_data-with_readings rs (sample_index + 1) (offset + 28) rest
        (drop-drop bs offset 28 ∙ ap (drop 28) e) hrs,
  )

header-payload :
    (sync0 sync1 counter low high : ℕ) (rest : Bytes)
    → unpack_header (slice 2 6 (sync0 ∷ sync1 ∷ counter % 256 ∷ counter / 256 ∷ low ∷ high ∷ rest))
      ≡ ok (counter, u16 low high)
header-payload sync0 sync1 counter low high rest =
    unpack_header-slice (sync0 ∷ sync1 ∷ counter % 256 ∷ counter / 256 ∷ low ∷ high ∷ rest)
      (omega arith)
    ∙ ap (λ (c : ℕ). ok (c, u16 low high)) (omega arith)

-- A packed packet with 16 readings of 32-bit words decodes to those readings, in their order, each
-- under its index and with the counter and the id of the packet.
pub decode_packet-packed_packet :
    (sync0 sync1 counter packet_id : ℕ) (rs : List Reading)
    → length rs ≡ 16
    → All IsReading rs
    → decode_packet (packed_packet sync0 sync1 counter packet_id rs)
      ≡ ok (numbered (sync0 ∷ sync1 ∷ []) counter packet_id 0 rs)
unfolding decode_packet packet_body item
decode_packet-packed_packet sync0 sync1 counter packet_id rs n h =
    let bs = packed_packet sync0 sync1 counter packet_id rs in
    rw (header-payload sync0 sync1 counter 193 1 (packet_id ∷ with_readings rs []))
      (rw n at (packed_data-with_readings bs counter packet_id rs 0 7 [] refl h))

-- A packet with one reading of 32-bit words decodes to that reading, with the counter and the id of the packet.
pub decode_packet-single_packet :
    (sync0 sync1 counter packet_id : ℕ) (r : Reading)
    → IsReading r
    → decode_packet (single_packet sync0 sync1 counter packet_id r)
      ≡ ok (single_data (sync0 ∷ sync1 ∷ []) counter 29 packet_id r ∷ [])
unfolding decode_packet packet_body unpack_single single_data
decode_packet-single_packet sync0 sync1 counter packet_id r h =
    rw (header-payload sync0 sync1 counter 29 0 (packet_id ∷ with_reading r []))
      (rw (reading_at-drop (packet_id ∷ with_reading r []) 1) (rw (reading_at-with_reading r [] h)))
