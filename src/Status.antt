-- ===== src/Status.antt =====
-- `SensorStatus` of schunk_fts_library/schunk_fts_library/driver.py.
use schunk_fts_ros.Base.{ℕ, Bool, not, List, [], ◌∷◌, ◌++◌, Text, codes, test_bit, if◌then◌else◌}

pub record SensorStatus : Type 0 where
  pub ready : Bool
  pub process_data_invalid : Bool
  pub temperature_out_of_range : Bool
  pub hardware_error : Bool
  pub mech_overrange : Bool
  pub user_overrange : Bool

unfoldable pub from_bits : ℕ → SensorStatus
from_bits bits = record {
  ready = test_bit bits 0;
  process_data_invalid = test_bit bits 1;
  temperature_out_of_range = test_bit bits 2;
  hardware_error = test_bit bits 3;
  mech_overrange = test_bit bits 4;
  user_overrange = test_bit bits 5;
}

-- `if flag: msgs.append(text)`
abbrev pub message_if : Bool → Text → List Text
message_if flag text = if flag then text ∷ [] else []

unfoldable pub summary : SensorStatus → List Text
summary s =
    message_if (not s.ready) (codes "Not ready for operation")
    ++ message_if s.process_data_invalid (codes "Process data invalid")
    ++ message_if s.temperature_out_of_range (codes "Temperature out of range")
    ++ message_if s.hardware_error (codes "Hardware error")
    ++ message_if s.mech_overrange (codes "Mechanical overrange")
    ++ message_if s.user_overrange (codes "User-defined overrange")
