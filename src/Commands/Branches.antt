-- ===== src/Commands/Branches.antt =====
-- What the requests put on the wire, and what they return or raise.
use schunk_fts_ros.Base.{
  ℕ, ◌≤◌, ◌<◌, ◌≡◌, refl, ap, Bool, true, false, Option, none, some, List, [], ◌∷◌, ◌++◌, Text,
  Bytes, codes, Result, ok, err, struct_error, arith, leb, Bool-cases, ◌⊎◌, inl, inr,
}
use schunk_fts_ros.Wire.{IsByte, unpack_u16, hex, hex_digit}
use schunk_fts_ros.Message.{
  Message, command_request, command_response, command_with_parameter_request, init, to_bytes,
  from_bytes, read_counter,
}
use schunk_fts_ros.Message.Layout.{Body, layout, message}
use schunk_fts_ros.Message.RoundTrip.{to_bytes-layout, from_bytes-layout}
use schunk_fts_ros.Connection.{Connection, send, receive}
use schunk_fts_ros.Commands.{
  read_into, exchange, run_command, select_tool_setting, select_noise_filter, invalid_value,
}

-- The parts of a request that the driver fills in; the rest are defaults.
abbrev pub request : ℕ → ℕ → Body
request command argument = record {
  sync0 = 255;
  sync1 = 255;
  counter = 0;
  command = command;
  status = 0;
  index_high = 0;
  index_low = 0;
  subindex = 0;
  value = [];
  argument = argument;
}

-- `ff ff`, the counter 0, the payload's length 1, the command.
abbrev pub command_bytes : ℕ → Bytes
command_bytes command = 255 ∷ 255 ∷ 0 ∷ 0 ∷ 1 ∷ 0 ∷ command ∷ []

abbrev pub selection_bytes : ℕ → ℕ → Bytes
selection_bytes command argument = 255 ∷ 255 ∷ 0 ∷ 0 ∷ 2 ∷ 0 ∷ command ∷ argument ∷ []

to_bytes-command :
    (command : ℕ)
    → IsByte command
    → (to_bytes (record (init command_request) { command_id = some (hex (command ∷ [])) })).1
      ≡ ok (command_bytes command)
unfolding message init hex layout hex_digit
to_bytes-command command h =
    ap (λ (r : Message × Result Bytes). r.1)
      (to_bytes-layout command_request (request command 0) none (omega arith))

-- The request of a selection, as the driver builds it.
abbrev selection : Text → ℕ → Message
selection command argument = record (init command_with_parameter_request) {
  command_id = some command;
  parameter = some (hex (argument ∷ []));
}

to_bytes-tool :
    (argument : ℕ)
    → IsByte argument
    → (to_bytes (selection (codes "30") argument)).1 ≡ ok (selection_bytes 0x30 argument)
unfolding message init hex layout hex_digit
to_bytes-tool argument h =
    ap (λ (r : Message × Result Bytes). r.1)
      (to_bytes-layout command_with_parameter_request (request 0x30 argument) none (omega arith))

to_bytes-filter :
    (argument : ℕ)
    → IsByte argument
    → (to_bytes (selection (codes "31") argument)).1 ≡ ok (selection_bytes 0x31 argument)
unfolding message init hex layout hex_digit
to_bytes-filter argument h =
    ap (λ (r : Message × Result Bytes). r.1)
      (to_bytes-layout command_with_parameter_request (request 0x31 argument) none (omega arith))

pub from_bytes-nil : (m : Message) → from_bytes m [] ≡ (record m { sync = [] }, err struct_error)
unfolding from_bytes read_counter unpack_u16 hex
from_bytes-nil m = refl

exchange_reply :
    (msg bs : Bytes) (response response' : Message) (c : Connection) (more : List Bool)
    (rest : List (Option Bytes))
    → c.is_open ≡ true
    → c.net.sends ≡ true ∷ more
    → c.net.replies ≡ some bs ∷ rest
    → from_bytes response bs ≡ (response', ok true)
    → ((exchange msg response c).1 ≡ ok response')
      × ((exchange msg response c).0.net.sent ≡ c.net.sent ++ msg ∷ [])
      × ((exchange msg response c).0.is_open ≡ true)
unfolding exchange read_into send receive
exchange_reply msg bs response response' c more rest o s r e = ground arith

exchange_no_reply :
    (msg : Bytes) (response : Message) (c : Connection) (rest : List (Option Bytes))
    → c.is_open ≡ true
    → c.net.replies ≡ none ∷ rest
    → ((exchange msg response c).1 ≡ err struct_error)
      × ((exchange msg response c).0.is_open ≡ false)
unfolding exchange read_into send receive
exchange_no_reply msg response c rest o r = ground (arith, from_bytes-nil response)

command_reply :
    (b : Body)
    → from_bytes (init command_response) (layout command_response b)
      ≡ (message command_response b (some 2), ok true)
unfolding message layout
command_reply b = from_bytes-layout command_response b

-- With the connection open and the network in order, a command of one byte goes out as its frame
-- and the reply's message is returned, whatever error code it bears; the connection stays open.
pub run_command-reply :
    (command : ℕ) (b : Body) (c : Connection) (more : List Bool) (rest : List (Option Bytes))
    → IsByte command
    → c.is_open ≡ true
    → c.net.sends ≡ true ∷ more
    → c.net.replies ≡ some (layout command_response b) ∷ rest
    → ((run_command (hex (command ∷ [])) c).1 ≡ ok (message command_response b (some 2)))
      × ((run_command (hex (command ∷ [])) c).0.net.sent ≡ c.net.sent ++ command_bytes command ∷ [])
      × ((run_command (hex (command ∷ [])) c).0.is_open ≡ true)
unfolding run_command
run_command-reply command b c more rest h o s r = rw (to_bytes-command command h) (
    exchange_reply (command_bytes command) (layout command_response b) (init command_response)
      (message command_response b (some 2)) c more rest o s r (command_reply b))

-- On an open connection a command whose reply does not come raises `struct.error`, since the
-- empty reply is parsed too; the connection is then taken for shut.
pub run_command-no_reply :
    (command : ℕ) (c : Connection) (rest : List (Option Bytes))
    → IsByte command
    → c.is_open ≡ true
    → c.net.replies ≡ none ∷ rest
    → ((run_command (hex (command ∷ [])) c).1 ≡ err struct_error)
      × ((run_command (hex (command ∷ [])) c).0.is_open ≡ false)
unfolding run_command
run_command-no_reply command c rest h o r =
    rw (to_bytes-command command h)
      (exchange_no_reply (command_bytes command) (init command_response) c rest o r)

-- Refused with the code 03, and nothing sent.
abbrev pub Refused : Connection → Connection × Result Message → Type 0
Refused c r = r ≡ (c, ok invalid_value)

-- The frame was sent, and the reply's message is returned.
abbrev pub Answered : Bytes → Message → Connection → Connection × Result Message → Type 0
Answered msg response c r =
    (r.1 ≡ ok response) × (r.0.net.sent ≡ c.net.sent ++ msg ∷ []) × (r.0.is_open ≡ true)

module _ (c : Connection) (more : List Bool) (reply : Bytes) (response : Message)
    (rest : List (Option Bytes)) (o : c.is_open ≡ true) (s : c.net.sends ≡ true ∷ more)
    (r : c.net.replies ≡ some reply ∷ rest)
    (e : from_bytes (init command_response) reply ≡ (response, ok true)) where
  -- On an open connection with the network in order, a tool setting above 3 is refused with the
  -- code 03 and nothing is sent; one up to 3 goes out in a frame with the command 30, and the
  -- reply's message is returned.
  pub select_tool_setting_lem :
      (tool_index : ℕ)
      → ((3 < tool_index) × Refused c (select_tool_setting tool_index c))
        ⊎ ((tool_index ≤ 3)
            × Answered
                (selection_bytes 0x30 tool_index)
                response
                c
                (select_tool_setting tool_index c))
  unfolding select_tool_setting
  select_tool_setting_lem tool_index = elim (Bool-cases (leb tool_index 3)) [
    | inr above ↦ inl (ground arith, rw above)
    | inl within ↦ inr (
      ground arith,
      rw (within, to_bytes-tool tool_index (ground arith))
          (exchange_reply (selection_bytes 0x30 tool_index) reply (init command_response) response c
            more rest o s r e),
    )
  ]

  -- So for the noise filter, with 4 as the bound and 31 as the command.
  pub select_noise_filter_lem :
      (filter_number : ℕ)
      → ((4 < filter_number) × Refused c (select_noise_filter filter_number c))
        ⊎ ((filter_number ≤ 4)
            × Answered
                (selection_bytes 0x31 filter_number)
                response
                c
                (select_noise_filter filter_number c))
  unfolding select_noise_filter
  select_noise_filter_lem filter_number = elim (Bool-cases (leb filter_number 4)) [
    | inr above ↦ inl (ground arith, rw above)
    | inl within ↦ inr (
      ground arith,
      rw (within, to_bytes-filter filter_number (ground arith))
          (exchange_reply (selection_bytes 0x31 filter_number) reply (init command_response)
            response c more rest o s r e),
    )
  ]
