-- ===== src/Wire.antt =====
-- Python's `bytes.hex`, `bytes.fromhex` and the integer formats of `struct`, as
-- schunk_fts_library/schunk_fts_library/utility.py uses them.
pub mod Hex
use schunk_fts_ros.Base.{
  ℕ, ◌+◌, ◌-◌, ◌*◌, ◌/◌, ◌%◌, ◌<◌, Bool, true, false, ◌&&◌, ◌||◌, Option, none, some, List, [], ◌∷◌,
  Bytes, Text, ltb, leb, ◌==◌, if◌then◌else◌, Result, ok, err, struct_error, value_error,
}

abbrev pub IsByte : ℕ → Type 0
IsByte b = b < 256

-- The code point of a lower-case hexadecimal digit.
unfoldable pub hex_digit : ℕ → ℕ
hex_digit n = if ltb n 10 then n + 48 else n + 87

-- `bytes.hex()`
unfoldable pub hex : Bytes → Text
hex [] = []
hex (b ∷ bs) = hex_digit (b / 16) ∷ hex_digit (b % 16) ∷ hex bs

unfoldable pub digit_value : ℕ → Option ℕ
digit_value c =
    if leb 48 c && leb c 57
    then some (c - 48)
    else if leb 97 c && leb c 102
    then some (c - 87)
    else if leb 65 c && leb c 70
    then some (c - 55)
    else none

unfoldable pub is_space : ℕ → Bool
is_space c = leb 9 c && leb c 13 || c == 32

unfoldable pub cons_byte : Option ℕ → Option ℕ → Option Bytes → Option Bytes
cons_byte (some hi) (some lo) (some bs) = some ((hi * 16 + lo) ∷ bs)
cons_byte _ _ _ = none

-- `bytes.fromhex`: blanks between the bytes are skipped, anything else raises ValueError.
unfoldable pub from_hex : Text → Option Bytes
from_hex [] = some []
from_hex (c ∷ []) = if is_space c then some [] else none
from_hex (c ∷ d ∷ rest) = elim (is_space c) [
  | true ↦ from_hex (d ∷ rest)
  | false ↦ cons_byte (digit_value c) (digit_value d) (from_hex rest)
]

unfoldable pub from_hex_or_raise : Text → Result Bytes
from_hex_or_raise t = elim (from_hex t) [ none ↦ err value_error | some bs ↦ ok bs ]

-- `struct.pack("<H", n)`
unfoldable pub pack_u16 : ℕ → Result Bytes
pack_u16 n = if ltb n 65536 then ok (n % 256 ∷ n / 256 ∷ []) else err struct_error

abbrev pub u16 : ℕ → ℕ → ℕ
u16 b0 b1 = b0 + 256 * b1

abbrev pub u32 : ℕ → ℕ → ℕ → ℕ → ℕ
u32 b0 b1 b2 b3 = b0 + 256 * b1 + 65536 * b2 + 16777216 * b3

-- `struct.unpack("H", bs)[0]`, on a little-endian machine, and `struct.unpack("<H", bs)[0]`
unfoldable pub unpack_u16 : Bytes → Result ℕ
unpack_u16 (b0 ∷ b1 ∷ []) = ok (u16 b0 b1)
unpack_u16 _ = err struct_error
