-- ===== src/Services/Replies.antt =====
-- What a service answers.
use schunk_fts_ros.Base.{
  ℕ, ◌≡◌, refl, Bool, true, false, ◌&&◌, not, List, [], ◌∷◌, Text, codes, same, Result, Error, ok,
  err, arith,
}
use schunk_fts_ros.Base.Act.{Act}
use schunk_fts_ros.Message.{Message}
use schunk_fts_ros.Connection.{Connection}
use schunk_fts_ros.Commands
use schunk_fts_ros.Commands.{has_code}
use schunk_fts_ros.Sensor.{Sensor, on_connection, text_or}
use schunk_fts_ros.Services.{
  error_code_map, get_text, error_message, Response, judge_code, strip_prefix, judge, serve,
  send_command_callback, tare_callback, reset_tare_callback, set_parameter_callback,
  select_tool_setting_callback, select_noise_filter_callback,
}

-- The requests of the six services.
pub data Request : Type 0 where
  send_command : Text → Request
  tare reset_tare : Request
  set_parameter : Text → Text → Text → Request
  select_tool_setting select_noise_filter : ℕ → Request

-- What the driver is asked for.
unfoldable pub asked : Request → Act Connection Message
asked (send_command command_id) = Commands.run_command (strip_prefix command_id)
asked tare = Commands.tare
asked reset_tare = Commands.tare_reset
asked (set_parameter index subindex value) = Commands.set_parameter value index subindex
asked (select_tool_setting tool_index) = Commands.select_tool_setting tool_index
asked (select_noise_filter filter_number) = Commands.select_noise_filter filter_number

abbrev is_nil : Text → Bool
is_nil [] = true
is_nil (c ∷ t) = false

abbrev all_filled : List (Text × Text) → Bool
all_filled [] = true
all_filled ((k, v) ∷ rest) = not (is_nil v) && all_filled rest

get_text_filled :
    (key : Text) (m : List (Text × Text)) (default : Text)
    → all_filled m ≡ true
    → is_nil default ≡ false
    → is_nil (get_text key m default) ≡ false
unfolding get_text
get_text_filled key [] default h d = d
get_text_filled key ((k, v) ∷ rest) default h d = ground (arith, get_text_filled key rest default)

error_message_filled : (code : Text) → is_nil (error_message code) ≡ false
unfolding error_message
error_message_filled code = get_text_filled code error_code_map _ refl refl

-- A reply with the code 00.
abbrev pub has_succeeded : Result Message → Bool
has_succeeded (ok m) = same (text_or m.error_code) (codes "00")
has_succeeded (err e) = false

abbrev pub Answers : Result Message → Response → Type 0
Answers r response =
    (response.success ≡ has_succeeded r) × (is_nil response.message ≡ has_succeeded r)

module _ (describe : Error → Text) where
  unfoldable pub handle : Request → Sensor → Sensor × Response
  handle (send_command command_id) = send_command_callback describe command_id
  handle tare = tare_callback describe
  handle reset_tare = reset_tare_callback describe
  handle (set_parameter index subindex value) = set_parameter_callback describe index subindex value
  handle (select_tool_setting tool_index) = select_tool_setting_callback describe tool_index
  handle (select_noise_filter filter_number) = select_noise_filter_callback describe filter_number

  judge-Answers :
      (prefix : Text) (r : Result Message)
      → is_nil prefix ≡ false
      → Answers r (judge describe prefix r)
  unfolding judge judge_code
  judge-Answers [] r h = cc
  judge-Answers (c ∷ prefix) (ok m) h = ground (arith, error_message_filled (text_or m.error_code))
  judge-Answers (c ∷ prefix) (err e) h = (refl, refl)

  -- Every service answers, whatever the driver returns or raises: with success and an empty
  -- message if the driver returned the code 00, and otherwise without success and with a text. It
  -- changes nothing of the driver but its connection, as the request does.
  pub handle-Answers :
      (q : Request) (s : Sensor)
      → Answers (asked q s.connection).1 (handle q s).1
        × ((handle q s).0 ≡ record s { connection = (asked q s.connection).0 })
  unfolding handle asked serve send_command_callback tare_callback reset_tare_callback
      set_parameter_callback select_tool_setting_callback select_noise_filter_callback on_connection
  handle-Answers (send_command command_id) s = (
    judge-Answers (codes "An exception occurred during command execution: ")
        (asked (send_command command_id) s.connection).1 refl,
    refl,
  )
  handle-Answers tare s = (
    judge-Answers (codes "An exception occurred during tare: ") (asked tare s.connection).1 refl,
    refl,
  )
  handle-Answers reset_tare s = (
    judge-Answers (codes "An exception occurred during command execution: ")
        (asked reset_tare s.connection).1 refl,
    refl,
  )
  handle-Answers (set_parameter index subindex value) s = (
    judge-Answers (codes "An exception occurred during parameter setting: ")
        (asked (set_parameter index subindex value) s.connection).1 refl,
    refl,
  )
  handle-Answers (select_tool_setting tool_index) s = (
    judge-Answers (codes "An exception occurred during tool setting selection: ")
        (asked (select_tool_setting tool_index) s.connection).1 refl,
    refl,
  )
  handle-Answers (select_noise_filter filter_number) s = (
    judge-Answers (codes "An exception occurred during noise filter selection: ")
        (asked (select_noise_filter filter_number) s.connection).1 refl,
    refl,
  )
