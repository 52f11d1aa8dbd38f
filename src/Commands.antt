-- ===== src/Commands.antt =====
-- The TCP requests of class `Driver` in schunk_fts_library/schunk_fts_library/driver.py, as methods
-- of its connection. `send` of the connection raises nothing, so the handlers round it are left
-- out.
pub mod Branches
use schunk_fts_ros.Base.{
  ℕ, Bool, true, false, Option, none, some, [], ◌∷◌, Text, Bytes, codes, same, leb, if◌then◌else◌,
  Result, ok, err,
}
use schunk_fts_ros.Base.Act.{Act, lift, ◌>>=◌}
use schunk_fts_ros.Wire.{hex}
use schunk_fts_ros.Message.{
  Message, get_parameter_request, get_parameter_response, set_parameter_request,
  set_parameter_response, command_request, command_response, command_with_parameter_request, init,
  to_bytes, from_bytes,
}
use schunk_fts_ros.Connection.{Connection, send, receive, transact}

-- `response.error_code == code`
abbrev pub has_code : Text → Option Text → Bool
has_code code none = false
has_code code (some t) = same code t

unfoldable pub read_into : Message → Bytes → Result Message
read_into response bs =
    let (response', r) = from_bytes response bs in elim r [ ok _ ↦ ok response' | err e ↦ err e ]

-- `if data: response.from_bytes(data)`
unfoldable pub read_if_any : Message → Bytes → Result Message
unfolding read_into
read_if_any response [] = ok response
read_if_any response (b ∷ bs) = read_into response (b ∷ bs)

-- `with self.connection as sensor: …`, and the reading of the response.
unfoldable pub transaction : Bytes → Message → Act Connection Message
unfolding read_if_any
transaction msg response c = let (c', bs) = transact msg c in (c', read_if_any response bs)

unfoldable pub get_parameter : Text → Text → Act Connection Message
unfolding transaction
get_parameter index subindex = do
  msg ←
      lift
        (to_bytes (record (init get_parameter_request) {
          command_id = some (codes "f0");
          param_index = some index;
          param_subindex = some subindex;
        })).1
  transaction msg (init get_parameter_response)

unfoldable pub set_parameter : Text → Text → Text → Act Connection Message
unfolding transaction
set_parameter value index subindex = do
  msg ←
      lift
        (to_bytes (record (init set_parameter_request) {
          command_id = some (codes "f1");
          param_index = some index;
          param_subindex = some subindex;
          param_value = some value;
        })).1
  transaction msg (init set_parameter_response)

-- The second half of `run_command` and of the two selections: an empty reply is read too.
unfoldable pub exchange : Bytes → Message → Act Connection Message
unfolding read_into
exchange msg response c =
    if c.is_open
    then (let (c', bs) = receive (send msg c).0 in (c', read_into response bs))
    else (c, ok response)

unfoldable pub run_command : Text → Act Connection Message
unfolding exchange
run_command command = do
  msg ← lift (to_bytes (record (init command_request) { command_id = some command })).1
  exchange msg (init command_response)

unfoldable pub start_udp_stream : Act Connection Message
start_udp_stream = run_command (codes "40")

unfoldable pub stop_udp_stream : Act Connection Message
stop_udp_stream = run_command (codes "41")

unfoldable pub tare : Act Connection Message
tare = run_command (codes "12")

unfoldable pub tare_reset : Act Connection Message
tare_reset = run_command (codes "13")

abbrev pub invalid_value : Message
invalid_value = record (init command_response) { error_code = some (codes "03") }

-- The index is not negative, as in the service's `uint8`.
unfoldable pub select_tool_setting : ℕ → Act Connection Message
unfolding exchange
select_tool_setting tool_index c =
    if leb tool_index 3
    then (do
      msg ←
          lift
            (to_bytes (record (init command_with_parameter_request) {
              command_id = some (codes "30");
              parameter = some (hex (tool_index ∷ []));
            })).1
      exchange msg (init command_response))
        c
    else (c, ok invalid_value)

unfoldable pub select_noise_filter : ℕ → Act Connection Message
unfolding exchange
select_noise_filter filter_number c =
    if leb filter_number 4
    then (do
      msg ←
          lift
            (to_bytes (record (init command_with_parameter_request) {
              command_id = some (codes "31");
              parameter = some (hex (filter_number ∷ []));
            })).1
      exchange msg (init command_response))
        c
    else (c, ok invalid_value)
