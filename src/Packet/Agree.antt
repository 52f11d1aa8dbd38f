-- ===== src/Packet/Agree.antt =====
-- The two decoders agree: a batch sample is the dictionary without its header.
use schunk_fts_ros.Base.{
  ℕ, zero, suc, ◌+◌, ◌≡◌, refl, Option, none, some, List, [], ◌∷◌, map, Bytes, slice, drop,
  Bool-cases, inl, inr, true, false, ◌==◌, Result, ok, err, ◌>>=◌, arith,
}
use schunk_fts_ros.Packet.{
  FtData, FtSample, packed_data, packed_samples, packet_body, batch_body, Reading, item,
  unpack_single, unpack_whole, single_sample, single_data, decode_packet, decode_sample_batch,
  unpack_header,
}

abbrev pub value_or : Option ℕ → ℕ → ℕ
value_or none d = d
value_or (some n) d = n

-- `data.get("sample_index", 0)` and `data.get("samples_per_packet", 1)`, as the node reads them.
abbrev pub sample_of : FtData → FtSample
sample_of d = record {
  counter = d.counter;
  packet_id = d.id;
  sample_index = value_or d.sample_index 0;
  samples_per_packet = value_or d.samples_per_packet 1;
  reading = d.reading;
}

abbrev pub samples_of : Result (List FtData) → Result (List FtSample)
samples_of r = r >>= λ ds. ok (map sample_of ds)

packed_agree :
    (bs : Bytes) (counter payload_len packet_id left sample_index offset : ℕ)
    → packed_samples bs counter packet_id left sample_index offset
      ≡ samples_of (packed_data bs counter payload_len packet_id left sample_index offset)
unfolding packed_samples packed_data
packed_agree bs counter payload_len packet_id zero sample_index offset = refl
packed_agree bs counter payload_len packet_id (suc left) sample_index offset =
    ground
      (arith, packed_agree bs counter payload_len packet_id left (sample_index + 1) (offset + 28))

single_agree :
    (bs : Bytes) (counter payload_len : ℕ) (r : Result (ℕ × Reading))
    → (r >>= λ p. ok (single_sample counter p.0 p.1 ∷ []))
      ≡ samples_of (r >>= λ p. ok (single_data bs counter payload_len p.0 p.1 ∷ []))
unfolding single_sample single_data
single_agree bs counter payload_len (ok p) = refl
single_agree bs counter payload_len (err e) = refl

whole_agree :
    (bs : Bytes) (r : Result (ℕ × ℕ × ℕ × Reading))
    → (r >>= λ p. ok (single_sample p.0 p.2 p.3 ∷ []))
      ≡ samples_of (r >>= λ p. ok (single_data bs p.0 p.1 p.2 p.3 ∷ []))
unfolding single_sample single_data
whole_agree bs (ok p) = refl
whole_agree bs (err e) = refl

packed_branch :
    (bs : Bytes) (counter payload_len : ℕ) (r : Result ℕ)
    → (r >>= λ packet_id. packed_samples bs counter packet_id 16 0 7)
      ≡ samples_of (r >>= λ packet_id. packed_data bs counter payload_len packet_id 16 0 7)
packed_branch bs counter payload_len (ok packet_id) =
    packed_agree bs counter payload_len packet_id 16 0 7
packed_branch bs counter payload_len (err e) = refl

pub not_both : (n : ℕ) → (n == 449) ≡ true → (n == 29) ≡ false
not_both n h = ground arith

body_agree :
    (bs : Bytes) (counter payload_len : ℕ)
    → batch_body bs counter payload_len ≡ samples_of (packet_body bs counter payload_len)
unfolding batch_body packet_body
body_agree bs counter payload_len = elim (Bool-cases (payload_len == 449)) [
  | inl packed ↦
      rw (packed, not_both payload_len packed) (packed_branch bs counter payload_len (item bs 6))
  | inr other ↦ elim (Bool-cases (payload_len == 29)) [
    | inl single ↦
        rw (other, single) (single_agree bs counter payload_len (unpack_single (drop 6 bs)))
    | inr whole ↦ rw (other, whole) (whole_agree bs (unpack_whole (drop 2 bs)))
  ]
]

-- On every byte string, `decode_sample_batch` returns the samples of `decode_packet`, and it
-- raises where that raises, the same exception.
pub decoders_agree : (bs : Bytes) → decode_sample_batch bs ≡ samples_of (decode_packet bs)
unfolding decode_sample_batch decode_packet
decoders_agree bs =
    elim (unpack_header (slice 2 6 bs))
      as (λ r.
        (r >>= λ p. batch_body bs p.0 p.1) ≡ samples_of (r >>= λ p. packet_body bs p.0 p.1)) [
          | ok (counter, payload_len) ↦ body_agree bs counter payload_len
          | err e ↦ refl
        ]
