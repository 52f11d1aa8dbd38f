-- ===== src/Message.antt =====
-- The TCP messages of schunk_fts_library/schunk_fts_library/utility.py: class `Message` and its
-- seven subclasses. A subclass is a `Kind`; an attribute that the class lacks is `none`.
-- `__str__` is left out: it only prints.
pub mod Layout
pub mod RoundTrip
use schunk_fts_ros.Base.{
  ℕ, ◌++◌, Bool, true, Option, none, some, List, [], ◌∷◌, reverse, Bytes, Text, codes, length,
  slice, drop, Result, ok, err, ◌>>=◌,
}
use schunk_fts_ros.Wire.{hex, from_hex, from_hex_or_raise, pack_u16, unpack_u16}

pub data Kind : Type 0 where
  get_parameter_request get_parameter_response : Kind
  set_parameter_request set_parameter_response : Kind
  command_request command_response command_with_parameter_request : Kind

pub data Field : Type 0 where
  command_id error_code param_index param_subindex param_value parameter : Field

-- `__fields__`
unfoldable pub fields : Kind → List Field
fields get_parameter_request = command_id ∷ param_index ∷ param_subindex ∷ []
fields get_parameter_response =
    command_id ∷ error_code ∷ param_index ∷ param_subindex ∷ param_value ∷ []
fields set_parameter_request = command_id ∷ param_index ∷ param_subindex ∷ param_value ∷ []
fields set_parameter_response = command_id ∷ error_code ∷ param_index ∷ param_subindex ∷ []
fields command_request = command_id ∷ []
fields command_response = command_id ∷ error_code ∷ []
fields command_with_parameter_request = command_id ∷ parameter ∷ []

-- `payload_len` exists only after `to_bytes` or `from_bytes` has run.
pub record Message : Type 0 where
  pub kind : Kind
  pub sync : Text
  pub counter : ℕ
  pub payload_len : Option ℕ
  pub command_id : Option Text
  pub error_code : Option Text
  pub param_index : Option Text
  pub param_subindex : Option Text
  pub param_value : Option Text
  pub parameter : Option Text

-- `getattr(self, field)`; `none` is the AttributeError
unfoldable pub get_attr : Message → Field → Option Text
get_attr m command_id = m.command_id
get_attr m error_code = m.error_code
get_attr m param_index = m.param_index
get_attr m param_subindex = m.param_subindex
get_attr m param_value = m.param_value
get_attr m parameter = m.parameter

-- `setattr(self, field, value)`
unfoldable pub set_attr : Message → Field → Text → Message
set_attr m command_id v = record m { command_id = some v }
set_attr m error_code v = record m { error_code = some v }
set_attr m param_index v = record m { param_index = some v }
set_attr m param_subindex v = record m { param_subindex = some v }
set_attr m param_value v = record m { param_value = some v }
set_attr m parameter v = record m { parameter = some v }

-- `Message.__init__`
unfoldable pub base_init : Kind → Message
base_init k = record {
  kind = k;
  sync = codes "ffff";
  counter = 0;
  payload_len = none;
  command_id = none;
  error_code = none;
  param_index = none;
  param_subindex = none;
  param_value = none;
  parameter = none;
}

unfoldable pub clear_fields : List Field → Message → Message
unfolding set_attr
clear_fields [] m = m
clear_fields (f ∷ fs) m = clear_fields fs (set_attr m f [])

-- The `__init__` of the subclasses.
unfoldable pub init : Kind → Message
unfolding base_init clear_fields fields
init k = clear_fields (fields k) (base_init k)

-- One round of the loop of `to_bytes`: an exception leaves the payload as it is.
unfoldable pub field_bytes : Option Text → Bytes
field_bytes none = []
field_bytes (some v) = elim (from_hex v) [ none ↦ [] | some bs ↦ reverse bs ]

unfoldable pub payload_bytes : Message → List Field → Bytes
payload_bytes m [] = []
payload_bytes m (f ∷ fs) = field_bytes (get_attr m f) ++ payload_bytes m fs

-- What stands in `bytearray(…)` at the end of `to_bytes`.
unfoldable pub frame : Text → ℕ → Bytes → Result Bytes
frame sync counter payload = do
  s ← from_hex_or_raise sync
  c ← pack_u16 counter
  n ← pack_u16 (length payload)
  ok (s ++ c ++ n ++ payload)

unfoldable pub to_bytes : Message → Message × Result Bytes
to_bytes m =
    let payload = payload_bytes m (fields m.kind) in
    (record m { payload_len = some (length payload) }, frame m.sync m.counter payload)

-- The last lines of `from_bytes`, class by class.
unfoldable pub read_get_parameter_request : Message → Bytes → Message
read_get_parameter_request m bs = record m {
  command_id = some (hex (slice 6 7 bs));
  param_index = some (hex (reverse (slice 7 9 bs)));
  param_subindex = some (hex (slice 9 10 bs));
}

unfoldable pub read_get_parameter_response : Message → Bytes → Message
read_get_parameter_response m bs = record m {
  command_id = some (hex (slice 6 7 bs));
  error_code = some (hex (slice 7 8 bs));
  param_index = some (hex (reverse (slice 8 10 bs)));
  param_subindex = some (hex (slice 10 11 bs));
  param_value = some (hex (drop 11 bs));
}

unfoldable pub read_set_parameter_request : Message → Bytes → Message
read_set_parameter_request m bs = record m {
  command_id = some (hex (slice 6 7 bs));
  param_index = some (hex (reverse (slice 7 9 bs)));
  param_subindex = some (hex (slice 9 10 bs));
  param_value = some (hex (drop 10 bs));
}

unfoldable pub read_set_parameter_response : Message → Bytes → Message
read_set_parameter_response m bs = record m {
  command_id = some (hex (slice 6 7 bs));
  error_code = some (hex (slice 7 8 bs));
  param_index = some (hex (reverse (slice 8 10 bs)));
  param_subindex = some (hex (slice 10 11 bs));
}

unfoldable pub read_command_request : Message → Bytes → Message
read_command_request m bs = record m { command_id = some (hex (slice 6 7 bs)) }

unfoldable pub read_command_response : Message → Bytes → Message
read_command_response m bs = record m {
  command_id = some (hex (slice 6 7 bs));
  error_code = some (hex (slice 7 8 bs));
}

unfoldable pub read_command_with_parameter_request : Message → Bytes → Message
read_command_with_parameter_request m bs = record m {
  command_id = some (hex (slice 6 7 bs));
  parameter = some (hex (slice 7 8 bs));
}

unfoldable pub read_fields : Kind → Message → Bytes → Message
unfolding read_get_parameter_request read_get_parameter_response read_set_parameter_request
    read_set_parameter_response read_command_request read_command_response
    read_command_with_parameter_request
read_fields get_parameter_request = read_get_parameter_request
read_fields get_parameter_response = read_get_parameter_response
read_fields set_parameter_request = read_set_parameter_request
read_fields set_parameter_response = read_set_parameter_response
read_fields command_request = read_command_request
read_fields command_response = read_command_response
read_fields command_with_parameter_request = read_command_with_parameter_request

-- `from_bytes`: the attributes that were assigned before an exception keep their new values.
unfoldable pub read_length : Message → Bytes → Message × Result Bool
read_length m bs = elim (unpack_u16 (slice 4 6 bs)) [
  | err e ↦ (m, err e)
  | ok n ↦ (read_fields m.kind (record m { payload_len = some n }) bs, ok true)
]

unfoldable pub read_counter : Message → Bytes → Message × Result Bool
read_counter m bs = elim (unpack_u16 (slice 2 4 bs)) [
  | err e ↦ (m, err e)
  | ok n ↦ read_length (record m { counter = n }) bs
]

unfoldable pub from_bytes : Message → Bytes → Message × Result Bool
from_bytes m bs = read_counter (record m { sync = hex (slice 0 2 bs) }) bs
