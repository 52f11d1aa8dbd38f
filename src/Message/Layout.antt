-- ===== src/Message/Layout.antt =====
-- The byte layout of the messages, stated with no reference to how the code writes or reads them.
use schunk_fts_ros.Base.{
  ℕ, ◌/◌, ◌%◌, ◌<◌, Option, none, some, [], ◌∷◌, reverse, Bytes, Text, All, length,
}
use schunk_fts_ros.Wire.{IsByte, hex}
use schunk_fts_ros.Message.{
  Kind, get_parameter_request, get_parameter_response, set_parameter_request,
  set_parameter_response, command_request, command_response, command_with_parameter_request,
  Message,
}

-- What a message says. A kind uses the parts that it has fields for.
pub record Body : Type 0 where
  pub sync0 : ℕ
  pub sync1 : ℕ
  pub counter : ℕ
  pub command : ℕ
  pub status : ℕ
  pub index_high : ℕ
  pub index_low : ℕ
  pub subindex : ℕ
  pub value : Bytes
  pub argument : ℕ

pub record IsValid (b : Body) : Type 0 where
  pub sync0_byte : IsByte b.sync0
  pub sync1_byte : IsByte b.sync1
  pub counter_fits : b.counter < 65536
  pub command_byte : IsByte b.command
  pub status_byte : IsByte b.status
  pub index_high_byte : IsByte b.index_high
  pub index_low_byte : IsByte b.index_low
  pub subindex_byte : IsByte b.subindex
  pub value_bytes : All IsByte b.value
  pub value_short : length b.value < 65531
  pub argument_byte : IsByte b.argument

-- The bytes behind the header: the index has its low byte first, and so has the value.
unfoldable pub payload : Kind → Body → Bytes
payload get_parameter_request b = b.command ∷ b.index_low ∷ b.index_high ∷ b.subindex ∷ []
payload get_parameter_response b =
    b.command ∷ b.status ∷ b.index_low ∷ b.index_high ∷ b.subindex ∷ reverse b.value
payload set_parameter_request b =
    b.command ∷ b.index_low ∷ b.index_high ∷ b.subindex ∷ reverse b.value
payload set_parameter_response b =
    b.command ∷ b.status ∷ b.index_low ∷ b.index_high ∷ b.subindex ∷ []
payload command_request b = b.command ∷ []
payload command_response b = b.command ∷ b.status ∷ []
payload command_with_parameter_request b = b.command ∷ b.argument ∷ []

unfoldable pub layout : Kind → Body → Bytes
unfolding payload
layout k b =
    b.sync0
    ∷ b.sync1
    ∷ b.counter % 256
    ∷ b.counter / 256
    ∷ length (payload k b) % 256
    ∷ length (payload k b) / 256
    ∷ payload k b

abbrev has_status : Text → Kind → Option Text
has_status t get_parameter_response = some t
has_status t set_parameter_response = some t
has_status t command_response = some t
has_status t _ = none

abbrev has_index : Text → Kind → Option Text
has_index t get_parameter_request = some t
has_index t get_parameter_response = some t
has_index t set_parameter_request = some t
has_index t set_parameter_response = some t
has_index t _ = none

abbrev has_value : Text → Kind → Option Text
has_value t get_parameter_response = some t
has_value t set_parameter_request = some t
has_value t _ = none

abbrev has_argument : Text → Kind → Option Text
has_argument t command_with_parameter_request = some t
has_argument t _ = none

-- The message object of a kind: its fields are the hexadecimal texts of the parts.
unfoldable pub message : Kind → Body → Option ℕ → Message
message k b n = record {
  kind = k;
  sync = hex (b.sync0 ∷ b.sync1 ∷ []);
  counter = b.counter;
  payload_len = n;
  command_id = some (hex (b.command ∷ []));
  error_code = has_status (hex (b.status ∷ [])) k;
  param_index = has_index (hex (b.index_high ∷ b.index_low ∷ [])) k;
  param_subindex = has_index (hex (b.subindex ∷ [])) k;
  param_value = has_value (hex b.value) k;
  parameter = has_argument (hex (b.argument ∷ [])) k;
}
