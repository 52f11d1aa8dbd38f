-- ===== src/Packet/Total.antt =====
-- Which byte strings the decoders take, and how many samples they return.
use schunk_fts_ros.Base.{
  ℕ, zero, suc, ◌+◌, ◌*◌, ◌≤◌, ◌<◌, ◌≡◌, refl, ◌∙◌, Bool, ◌&&◌, Option, none, some, List, [], ◌∷◌,
  Bytes, ◌==◌, leb, if◌then◌else◌, Bool-cases, inl, inr, length, length-drop, get_elem?-lt,
  get_elem?-ge, slice, drop, Result, ok, err, struct_error, ◌>>=◌, arith,
}
use schunk_fts_ros.Wire.{u16}
use schunk_fts_ros.Packet.Agree.{not_both}
use schunk_fts_ros.Packet.{
  byte_at, unpack_header, unpack_single, unpack_whole, unpack_from, item, packed_data, packet_body,
  single_data, decode_packet,
}

-- The payload length that a packet states.
abbrev pub stated_length : Bytes → ℕ
stated_length bs = u16 (byte_at bs 4) (byte_at bs 5)

-- A packed packet has 455 bytes at least, any other has 35 exactly.
abbrev pub is_packet : Bytes → Bool
is_packet bs =
    leb 6 (length bs) && (if stated_length bs == 449 then leb 455 (length bs) else length bs == 35)

pub unpack_header-slice :
    (bs : Bytes)
    → 6 ≤ length bs
    → unpack_header (slice 2 6 bs) ≡ ok (u16 (byte_at bs 2) (byte_at bs 3), stated_length bs)
unfolding unpack_header
unpack_header-slice [] h = absurd (omega arith)
unpack_header-slice (b0 ∷ []) h = absurd (omega arith)
unpack_header-slice (b0 ∷ b1 ∷ []) h = absurd (omega arith)
unpack_header-slice (b0 ∷ b1 ∷ b2 ∷ []) h = absurd (omega arith)
unpack_header-slice (b0 ∷ b1 ∷ b2 ∷ b3 ∷ []) h = absurd (omega arith)
unpack_header-slice (b0 ∷ b1 ∷ b2 ∷ b3 ∷ b4 ∷ []) h = absurd (omega arith)
unpack_header-slice (b0 ∷ b1 ∷ b2 ∷ b3 ∷ b4 ∷ b5 ∷ bs) h = refl

unpack_header_short : (bs : Bytes) → length bs < 6 → unpack_header (slice 2 6 bs) ≡ err struct_error
unfolding unpack_header
unpack_header_short [] h = refl
unpack_header_short (b0 ∷ []) h = refl
unpack_header_short (b0 ∷ b1 ∷ []) h = refl
unpack_header_short (b0 ∷ b1 ∷ b2 ∷ []) h = refl
unpack_header_short (b0 ∷ b1 ∷ b2 ∷ b3 ∷ []) h = refl
unpack_header_short (b0 ∷ b1 ∷ b2 ∷ b3 ∷ b4 ∷ []) h = refl
unpack_header_short (b0 ∷ b1 ∷ b2 ∷ b3 ∷ b4 ∷ b5 ∷ bs) h = absurd (omega arith)

-- How many entries a result has, if there is a result.
abbrev pub ok_length {ℓ} : {A : Type ℓ} → Result (List A) → Option ℕ
ok_length (ok xs) = some (length xs)
ok_length (err e) = none

module _ (bs : Bytes) (counter payload_len : ℕ) where
  length-packed_data :
      (packet_id left sample_index offset : ℕ)
      → offset ≤ length bs
      → ok_length (packed_data bs counter payload_len packet_id left sample_index offset)
        ≡ (if leb (offset + 28 * left) (length bs) then some left else none)
  unfolding packed_data unpack_from
  length-packed_data packet_id zero sample_index offset h = ground arith
  length-packed_data packet_id (suc left) sample_index offset h =
      ground (arith, length-packed_data packet_id left (sample_index + 1) (offset + 28))

  packed_branch :
      6 ≤ length bs
      → ok_length (item bs 6 >>= λ packet_id. packed_data bs counter payload_len packet_id 16 0 7)
        ≡ (if leb 455 (length bs) then some 16 else none)
  unfolding item
  packed_branch h = elim (Bool-cases (leb 7 (length bs))) [
    | inl long ↦
        let (b, e) = get_elem?-lt bs 6 (ground arith) in
        rw (e, item) (length-packed_data b 16 0 7 (ground arith))
    | inr short ↦ ground (arith, get_elem?-ge bs 6)
  ]

  single_branch :
      ok_length
        (unpack_single (drop 6 bs) >>= λ p. ok (single_data bs counter payload_len p.0 p.1 ∷ []))
      ≡ (if length bs == 35 then some 1 else none)
  unfolding unpack_single
  single_branch = ground (arith, length-drop 6 bs)

  whole_branch :
      ok_length (unpack_whole (drop 2 bs) >>= λ p. ok (single_data bs p.0 p.1 p.2 p.3 ∷ []))
      ≡ (if length bs == 35 then some 1 else none)
  unfolding unpack_whole
  whole_branch = ground (arith, length-drop 2 bs)

  length-packet_body :
      6 ≤ length bs
      → ok_length (packet_body bs counter payload_len) ≡ (
          if payload_len == 449
          then (if leb 455 (length bs) then some 16 else none)
          else (if length bs == 35 then some 1 else none))
  unfolding packet_body
  length-packet_body h = elim (Bool-cases (payload_len == 449)) [
    | inl packed ↦ rw (packed, not_both payload_len packed) (packed_branch h)
    | inr other ↦ elim (Bool-cases (payload_len == 29)) [
      | inl single ↦ rw (other, single) single_branch
      | inr whole ↦ rw (other, whole) whole_branch
    ]
  ]

-- `decode_packet` succeeds exactly on the byte strings that `is_packet` describes; it then
-- returns 16 samples if the stated payload length is 449, and 1 sample otherwise.
pub length-decode_packet :
    (bs : Bytes)
    → ok_length (decode_packet bs)
      ≡ (if is_packet bs then some (if stated_length bs == 449 then 16 else 1) else none)
unfolding decode_packet
length-decode_packet bs = elim (Bool-cases (leb 6 (length bs))) [
  | inl long ↦
      rw (unpack_header-slice bs (ground arith))
        (length-packet_body bs _ (stated_length bs) (ground arith) ∙ ground arith)
  | inr short ↦ rw (unpack_header_short bs (ground arith)) (ground arith)
]
