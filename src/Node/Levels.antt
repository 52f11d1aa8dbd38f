-- ===== src/Node/Levels.antt =====
-- The two ways in which the node grades the status bits.
use schunk_fts_ros.Base.{ℕ, ◌%◌, ◌≡◌, ◌↔◌, some, true, arith, test_bit}
use schunk_fts_ros.Status.{from_bits, summary}
use schunk_fts_ros.Node.{ok_level, error_level, status_level_from_bits, get_status_level}

-- The level that the publishing loop takes from the bits is the level that comes with the
-- message for the same bits.
pub levels_agree :
    (bits : ℕ) → (get_status_level (some (from_bits bits))).0 ≡ status_level_from_bits bits
unfolding get_status_level status_level_from_bits from_bits summary
levels_agree bits = ground arith

-- The level is OK exactly if, of the six status flags, `ready` alone is set.
pub ok_level_iff : (bits : ℕ) → (status_level_from_bits bits ≡ ok_level) ↔ (bits % 64 ≡ 1)
unfolding status_level_from_bits
ok_level_iff bits = ((λ h. ground arith), (λ h. ground arith))

-- The level is ERROR exactly if the hardware error flag, of value 8, is set.
pub error_level_iff :
    (bits : ℕ) → (status_level_from_bits bits ≡ error_level) ↔ (test_bit bits 3 ≡ true)
unfolding status_level_from_bits
error_level_iff bits = ((λ h. ground arith), (λ h. ground arith))
