-- ===== src/Packet.antt =====
-- The UDP packets of schunk_fts_library/schunk_fts_library/utility.py: `FTData`, `FTSample` and
-- the static `decode` methods of `FTDataBuffer`. A Python float that `struct` unpacked is kept as
-- its 32-bit pattern, since the code never computes with it; the float 0.0 is the pattern 0.
pub mod Agree
pub mod Total
pub mod Encode
use schunk_fts_ros.Base.{
  ℕ, zero, suc, ◌+◌, Option, none, some, List, [], ◌∷◌, Bytes, ◌==◌, leb, if◌then◌else◌, length,
  get_or, get_elem?, slice, drop, Result, ok, err, struct_error, index_error, ◌>>=◌,
}
use schunk_fts_ros.Wire.{u16, u32}

-- The seven values of the format "<I ffffff".
pub record Reading : Type 0 where
  pub status_bits : ℕ
  pub fx : ℕ
  pub fy : ℕ
  pub fz : ℕ
  pub tx : ℕ
  pub ty : ℕ
  pub tz : ℕ

-- `none` is a key that the dictionary lacks.
pub record FtData : Type 0 where
  pub sync : Bytes
  pub counter : ℕ
  pub payload : ℕ
  pub id : ℕ
  pub reading : Reading
  pub open reading use *
  pub sample_index : Option ℕ
  pub samples_per_packet : Option ℕ

-- The tuple `FTSample`: its items 0 to 3, and then the reading.
pub record FtSample : Type 0 where
  pub counter : ℕ
  pub packet_id : ℕ
  pub sample_index : ℕ
  pub samples_per_packet : ℕ
  pub reading : Reading
  pub open reading use *

-- `struct` reads within the buffer only after a test of its length, so the default is not met.
abbrev pub byte_at : Bytes → ℕ → ℕ
byte_at bs i = get_or bs i 0

unfoldable pub word_at : Bytes → ℕ → ℕ
word_at bs i = u32 (byte_at bs i) (byte_at bs (i + 1)) (byte_at bs (i + 2)) (byte_at bs (i + 3))

unfoldable pub reading_at : Bytes → ℕ → Reading
reading_at bs i = record {
  status_bits = word_at bs i;
  fx = word_at bs (i + 4);
  fy = word_at bs (i + 8);
  fz = word_at bs (i + 12);
  tx = word_at bs (i + 16);
  ty = word_at bs (i + 20);
  tz = word_at bs (i + 24);
}

-- `struct.unpack("<HH", bs)`
unfoldable pub unpack_header : Bytes → Result (ℕ × ℕ)
unpack_header bs =
    if length bs == 4
    then ok (u16 (byte_at bs 0) (byte_at bs 1), u16 (byte_at bs 2) (byte_at bs 3))
    else err struct_error

-- `struct.unpack("<B I ffffff", bs)`
unfoldable pub unpack_single : Bytes → Result (ℕ × Reading)
unpack_single bs = if length bs == 29 then ok (byte_at bs 0, reading_at bs 1) else err struct_error

-- `struct.unpack("<HHB I ffffff", bs)`
unfoldable pub unpack_whole : Bytes → Result (ℕ × ℕ × ℕ × Reading)
unpack_whole bs =
    if length bs == 33
    then ok (
      u16 (byte_at bs 0) (byte_at bs 1),
      u16 (byte_at bs 2) (byte_at bs 3),
      byte_at bs 4,
      reading_at bs 5,
    )
    else err struct_error

-- `struct.unpack_from("<I ffffff", bs, offset)`
unfoldable pub unpack_from : Bytes → ℕ → Result Reading
unpack_from bs offset =
    if leb (offset + 28) (length bs) then ok (reading_at bs offset) else err struct_error

-- `bs[i]`
unfoldable pub item : Bytes → ℕ → Result ℕ
item bs i = elim (get_elem? bs i) [ none ↦ err index_error | some b ↦ ok b ]

abbrev pub sample_size : ℕ
sample_size = 28

-- The loop over `range(16)` of `decode_packet`, with `left` rounds to go.
unfoldable pub packed_data : Bytes → ℕ → ℕ → ℕ → ℕ → ℕ → ℕ → Result (List FtData)
packed_data bs counter payload_len packet_id zero sample_index offset = ok []
packed_data bs counter payload_len packet_id (suc left) sample_index offset = do
  values ← unpack_from bs offset
  samples ←
      packed_data bs counter payload_len packet_id left (sample_index + 1) (offset + sample_size)
  let d : FtData = record {
    sync = slice 0 2 bs;
    counter = counter;
    payload = payload_len;
    id = packet_id;
    reading = values;
    sample_index = some sample_index;
    samples_per_packet = some 16;
  }
  ok (d ∷ samples)

unfoldable pub single_data : Bytes → ℕ → ℕ → ℕ → Reading → FtData
single_data bs counter payload_len packet_id values = record {
  sync = slice 0 2 bs;
  counter = counter;
  payload = payload_len;
  id = packet_id;
  reading = values;
  sample_index = none;
  samples_per_packet = none;
}

-- What `decode_packet` does after its first line.
unfoldable pub packet_body : Bytes → ℕ → ℕ → Result (List FtData)
unfolding single_data
packet_body bs counter payload_len =
    if payload_len == 29
    then (do
      (packet_id, values) ← unpack_single (drop 6 bs)
      ok (single_data bs counter payload_len packet_id values ∷ []))
    else if payload_len == 449
    then (do packet_id ← item bs 6; packed_data bs counter payload_len packet_id 16 0 7)
    else do
      (whole_counter, whole_len, packet_id, values) ← unpack_whole (drop 2 bs)
      ok (single_data bs whole_counter whole_len packet_id values ∷ [])

unfoldable pub decode_packet : Bytes → Result (List FtData)
decode_packet bs = do
  (counter, payload_len) ← unpack_header (slice 2 6 bs)
  packet_body bs counter payload_len

-- `decode_packet(data)[0]`
unfoldable pub decode : Bytes → Result FtData
decode bs = do samples ← decode_packet bs; elim samples [ [] ↦ err index_error | d ∷ _ ↦ ok d ]

-- The loop over `range(16)` of `decode_sample_batch`.
unfoldable pub packed_samples : Bytes → ℕ → ℕ → ℕ → ℕ → ℕ → Result (List FtSample)
packed_samples bs counter packet_id zero sample_index offset = ok []
packed_samples bs counter packet_id (suc left) sample_index offset = do
  values ← unpack_from bs offset
  samples ← packed_samples bs counter packet_id left (sample_index + 1) (offset + sample_size)
  let s : FtSample = record {
    counter = counter;
    packet_id = packet_id;
    sample_index = sample_index;
    samples_per_packet = 16;
    reading = values;
  }
  ok (s ∷ samples)

unfoldable pub single_sample : ℕ → ℕ → Reading → FtSample
single_sample counter packet_id values = record {
  counter = counter;
  packet_id = packet_id;
  sample_index = 0;
  samples_per_packet = 1;
  reading = values;
}

-- What `decode_sample_batch` does after its first line.
unfoldable pub batch_body : Bytes → ℕ → ℕ → Result (List FtSample)
unfolding single_sample
batch_body bs counter payload_len =
    if payload_len == 449
    then (do packet_id ← item bs 6; packed_samples bs counter packet_id 16 0 7)
    else if payload_len == 29
    then (do
      (packet_id, values) ← unpack_single (drop 6 bs)
      ok (single_sample counter packet_id values ∷ []))
    else do
      (whole_counter, _, packet_id, values) ← unpack_whole (drop 2 bs)
      ok (single_sample whole_counter packet_id values ∷ [])

unfoldable pub decode_sample_batch : Bytes → Result (List FtSample)
decode_sample_batch bs = do
  (counter, payload_len) ← unpack_header (slice 2 6 bs)
  batch_body bs counter payload_len
