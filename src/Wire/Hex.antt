-- ===== src/Wire/Hex.antt =====
-- `bytes.fromhex` undoes `bytes.hex`.
use schunk_fts_ros.Base.{ℕ, ◌/◌, ◌%◌, ◌<◌, ◌≡◌, refl, ap, some, false, [], ◌∷◌, Bytes, All, arith}
use schunk_fts_ros.Wire.{IsByte, hex_digit, hex, digit_value, is_space, cons_byte, from_hex}

digit_value-hex_digit : (n : ℕ) → n < 16 → digit_value (hex_digit n) ≡ some n
unfolding digit_value hex_digit
digit_value-hex_digit n h = ground arith

is_space-hex_digit : (n : ℕ) → n < 16 → is_space (hex_digit n) ≡ false
unfolding is_space hex_digit
is_space-hex_digit n h = ground arith

pub from_hex-hex : (bs : Bytes) → All IsByte bs → from_hex (hex bs) ≡ some bs
unfolding from_hex hex cons_byte
from_hex-hex [] h = refl
from_hex-hex (b ∷ bs) (hb, hbs) =
    rw
      (
        is_space-hex_digit (b / 16) (omega arith),
        digit_value-hex_digit (b / 16) (omega arith),
        digit_value-hex_digit (b % 16) (omega arith),
        from_hex-hex bs hbs,
        from_hex,
        cons_byte,
      )
      (ap (λ (k : ℕ). some (k ∷ bs)) (omega arith))
