-- ===== src/Message/RoundTrip.antt =====
-- What `to_bytes` writes and what `from_bytes` reads, for every kind of message.
use mathlib.Core.List.{append-nil}
use schunk_fts_ros.Base.{
  ℕ, ◌/◌, ◌%◌, ◌<◌, ◌≡◌, refl, ap, ◌∙◌, true, Option, some, [], ◌∷◌, reverse, Bytes, All, length,
  slice, length-reverse, Result, ok, arith,
}
use schunk_fts_ros.Wire.{IsByte, hex, from_hex_or_raise, pack_u16, unpack_u16}
use schunk_fts_ros.Wire.Hex.{from_hex-hex}
use schunk_fts_ros.Message.{
  Kind, get_parameter_request, get_parameter_response, set_parameter_request,
  set_parameter_response, command_request, command_response, command_with_parameter_request,
  Message, init, get_attr, field_bytes, read_counter, read_length, payload_bytes, fields, frame,
  to_bytes, from_bytes, read_fields,
}
use schunk_fts_ros.Message.Layout.{Body, IsValid, payload, layout, message}

field_bytes-hex : (bs : Bytes) → All IsByte bs → field_bytes (some (hex bs)) ≡ reverse bs
unfolding field_bytes
field_bytes-hex bs h = rw (from_hex-hex bs h, field_bytes)

field_bytes_one : (x : ℕ) → IsByte x → field_bytes (some (hex (x ∷ []))) ≡ x ∷ []
field_bytes_one x h = field_bytes-hex (x ∷ []) (h, tt)

field_bytes_two :
    (x y : ℕ) → IsByte x → IsByte y → field_bytes (some (hex (x ∷ y ∷ []))) ≡ y ∷ x ∷ []
field_bytes_two x y hx hy = field_bytes-hex (x ∷ y ∷ []) (hx, (hy, tt))

module _ (b : Body) (n : Option ℕ) (v : IsValid b) where
  command_field : field_bytes (some (hex (b.command ∷ []))) ≡ b.command ∷ []
  command_field = field_bytes_one b.command v.command_byte

  status_field : field_bytes (some (hex (b.status ∷ []))) ≡ b.status ∷ []
  status_field = field_bytes_one b.status v.status_byte

  index_field :
      field_bytes (some (hex (b.index_high ∷ b.index_low ∷ []))) ≡ b.index_low ∷ b.index_high ∷ []
  index_field = field_bytes_two b.index_high b.index_low v.index_high_byte v.index_low_byte

  subindex_field : field_bytes (some (hex (b.subindex ∷ []))) ≡ b.subindex ∷ []
  subindex_field = field_bytes_one b.subindex v.subindex_byte

  value_field : field_bytes (some (hex b.value)) ≡ reverse b.value
  value_field = field_bytes-hex b.value v.value_bytes

  argument_field : field_bytes (some (hex (b.argument ∷ []))) ≡ b.argument ∷ []
  argument_field = field_bytes_one b.argument v.argument_byte

  payload_bytes-message : (k : Kind) → payload_bytes (message k b n) (fields k) ≡ payload k b
  unfolding payload_bytes get_attr message fields payload
  payload_bytes-message get_parameter_request = simp (command_field, index_field, subindex_field)
  payload_bytes-message get_parameter_response =
      simp (command_field, status_field, index_field, subindex_field, value_field, append-nil)
  payload_bytes-message set_parameter_request =
      simp (command_field, index_field, subindex_field, value_field, append-nil)
  payload_bytes-message set_parameter_response =
      simp (command_field, status_field, index_field, subindex_field)
  payload_bytes-message command_request = simp command_field
  payload_bytes-message command_response = simp (command_field, status_field)
  payload_bytes-message command_with_parameter_request = simp (command_field, argument_field)

  length-payload : (k : Kind) → length (payload k b) < 65536
  unfolding payload
  length-payload get_parameter_request = omega arith
  length-payload get_parameter_response = omega (arith, v.value_short, length-reverse b.value)
  length-payload set_parameter_request = omega (arith, v.value_short, length-reverse b.value)
  length-payload set_parameter_response = omega arith
  length-payload command_request = omega arith
  length-payload command_response = omega arith
  length-payload command_with_parameter_request = omega arith

frame_lem :
    (s0 s1 counter : ℕ) (body : Bytes)
    → IsByte s0
    → IsByte s1
    → counter < 65536
    → length body < 65536
    → frame (hex (s0 ∷ s1 ∷ [])) counter body
      ≡ ok (s0 ∷ s1 ∷ counter % 256 ∷ counter / 256 ∷ length body % 256 ∷ length body / 256 ∷ body)
unfolding frame from_hex_or_raise pack_u16
frame_lem s0 s1 counter body h0 h1 hc hn =
    ground (arith, from_hex-hex (s0 ∷ s1 ∷ []) (h0, (h1, tt)))

-- `to_bytes` writes the layout of every message whose fields are hexadecimal texts of the
-- right width, whose counter is below 65536 and whose value is shorter than 65531 bytes, and notes
-- the payload's length in the message.
pub to_bytes-layout :
    (k : Kind) (b : Body) (n : Option ℕ)
    → IsValid b
    → to_bytes (message k b n) ≡ (message k b (some (length (payload k b))), ok (layout k b))
unfolding to_bytes message layout
to_bytes-layout k b n v = rw (
  payload_bytes-message b n v k,
  frame_lem b.sync0 b.sync1 b.counter (payload k b) v.sync0_byte v.sync1_byte v.counter_fits
      (length-payload b n v k),
)

unpack_u16-split : (n : ℕ) → unpack_u16 (n % 256 ∷ n / 256 ∷ []) ≡ ok n
unfolding unpack_u16
unpack_u16-split n = ap ok (omega arith)

from_bytes_header :
    (m : Message) (bs : Bytes) (c n : ℕ)
    → unpack_u16 (slice 2 4 bs) ≡ ok c
    → unpack_u16 (slice 4 6 bs) ≡ ok n
    → from_bytes m bs ≡ (
      read_fields m.kind
          (record m { sync = hex (slice 0 2 bs); counter = c; payload_len = some n })
          bs,
      ok true,
    )
unfolding from_bytes read_counter read_length
from_bytes_header m bs c n p q = rw (p, from_bytes, read_counter) (rw (q, read_length))

-- `from_bytes` reads the layout back, but for the value: that comes out with its bytes in
-- reverse order.
pub from_bytes-layout :
    (k : Kind) (b : Body)
    → from_bytes (init k) (layout k b)
      ≡ (message k (record b { value = reverse b.value }) (some (length (payload k b))), ok true)
unfolding init message layout read_fields
from_bytes-layout get_parameter_request b =
    from_bytes_header _ _ _ _ (unpack_u16-split b.counter) (unpack_u16-split _)
from_bytes-layout get_parameter_response b =
    from_bytes_header _ _ _ _ (unpack_u16-split b.counter) (unpack_u16-split _)
from_bytes-layout set_parameter_request b =
    from_bytes_header _ _ _ _ (unpack_u16-split b.counter) (unpack_u16-split _)
from_bytes-layout set_parameter_response b =
    from_bytes_header _ _ _ _ (unpack_u16-split b.counter) (unpack_u16-split _)
from_bytes-layout command_request b =
    from_bytes_header _ _ _ _ (unpack_u16-split b.counter) (unpack_u16-split _)
from_bytes-layout command_response b =
    from_bytes_header _ _ _ _ (unpack_u16-split b.counter) (unpack_u16-split _)
from_bytes-layout command_with_parameter_request b =
    from_bytes_header _ _ _ _ (unpack_u16-split b.counter) (unpack_u16-split _)

-- A message of valid parts that `to_bytes` wrote is equal (`__eq__`) to what `from_bytes` makes of
-- it in a new object of its class, if its value reads the same from both ends (one byte, or none,
-- does).
pub round_trip :
    (k : Kind) (b : Body) (n : Option ℕ)
    → IsValid b
    → reverse b.value ≡ b.value
    → (bs : Bytes) × ((to_bytes (message k b n)).1 ≡ ok bs)
      × (from_bytes (init k) bs ≡ ((to_bytes (message k b n)).0, ok true))
round_trip k b n v e = (
  layout k b,
  ap (λ (r : Message × Result Bytes). r.1) (to_bytes-layout k b n v),
  rw (to_bytes-layout k b n v) (from_bytes-layout k b ∙ rw e refl),
)
