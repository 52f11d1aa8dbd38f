-- ===== src/Services.antt =====
-- The services of the node in schunk_fts_driver/schunk_fts_driver/driver.py. A response's fields
-- are returned; the text of an exception is the parameter `describe`. Log lines are left out.
pub mod Replies
use schunk_fts_ros.Base.{
  ℕ, Bool, true, false, ◌&&◌, ◌||◌, Option, none, some, List, [], ◌∷◌, ◌++◌, Text, codes, same,
  ◌==◌, if◌then◌else◌, Result, Error, ok, err,
}
use schunk_fts_ros.Base.Act.{Act}
use schunk_fts_ros.Message.{Message}
use schunk_fts_ros.Connection.{Connection}
use schunk_fts_ros.Commands.{
  run_command, tare, tare_reset, set_parameter, select_tool_setting, select_noise_filter,
}
use schunk_fts_ros.Sensor.{Sensor, on_connection, text_or}

-- `ERROR_CODE_MAP`
abbrev pub error_code_map : List (Text × Text)
error_code_map =
    (codes "00", codes "Success (No Error)")
    ∷ (codes "01", codes "Unknown Command")
    ∷ (codes "02", codes "Invalid Command Length")
    ∷ (codes "03", codes "Invalid Command Value")
    ∷ (codes "04", codes "Busy")
    ∷ (codes "05", codes "Streaming Active")
    ∷ (codes "06", codes "Storage Error")
    ∷ (codes "07", codes "Internal Bus Error")
    ∷ (codes "08", codes "Timeout")
    ∷ (codes "10", codes "User Level not Sufficient")
    ∷ (codes "11", codes "Is Read Only")
    ∷ (codes "12", codes "Is Write Only")
    ∷ (codes "13", codes "Index Does not Exist")
    ∷ (codes "14", codes "Subindex Does not Exist")
    ∷ (codes "15", codes "Invalid Parameter Value Length")
    ∷ (codes "16", codes "Invalid Parameter Value")
    ∷ (codes "17", codes "Login Failed")
    ∷ (codes "18", codes "Login Blocked, Try Again Later")
    ∷ (codes "19", codes "Parameters are locked")
    ∷ (codes "30", codes "Update Verification Failed")
    ∷ (codes "31", codes "Update State Error")
    ∷ []

-- `d.get(key, default)`
unfoldable pub get_text : Text → List (Text × Text) → Text → Text
get_text key [] default = default
get_text key ((k, v) ∷ rest) default = if same k key then v else get_text key rest default

unfoldable pub error_message : Text → Text
error_message code = get_text code error_code_map (codes "Unknown Error Code: " ++ code)

pub record Response : Type 0 where
  pub success : Bool
  pub message : Text

-- `if error_code == "00": … else: …`
unfoldable pub judge_code : Text → Response
judge_code code =
    if same code (codes "00")
    then record { success = true; message = [] }
    else record { success = false; message = error_message code }

unfoldable pub strip_prefix : Text → Text
strip_prefix [] = []
strip_prefix (c ∷ []) = c ∷ []
strip_prefix (c ∷ d ∷ rest) =
    if (c == b'0') && ((d == b'x') || (d == b'X')) then rest else c ∷ d ∷ rest

module _ (describe : Error → Text) where
  -- The body of the `try`, after the request, and its handler.
  unfoldable pub judge : Text → Result Message → Response
  unfolding judge_code
  judge prefix (ok m) = judge_code (text_or m.error_code)
  judge prefix (err e) = record { success = false; message = prefix ++ describe e }

  unfoldable pub serve : Text → Act Connection Message → Sensor → Sensor × Response
  unfolding judge
  serve prefix request s = let (s', r) = on_connection request s in (s', judge prefix r)

  unfoldable pub send_command_callback : Text → Sensor → Sensor × Response
  unfolding serve
  send_command_callback command_id =
      serve (codes "An exception occurred during command execution: ")
        (run_command (strip_prefix command_id))

  unfoldable pub tare_callback : Sensor → Sensor × Response
  unfolding serve
  tare_callback = serve (codes "An exception occurred during tare: ") tare

  unfoldable pub reset_tare_callback : Sensor → Sensor × Response
  unfolding serve
  reset_tare_callback = serve (codes "An exception occurred during command execution: ") tare_reset

  unfoldable pub set_parameter_callback : Text → Text → Text → Sensor → Sensor × Response
  unfolding serve
  set_parameter_callback index subindex value =
      serve (codes "An exception occurred during parameter setting: ")
        (set_parameter value index subindex)

  unfoldable pub select_tool_setting_callback : ℕ → Sensor → Sensor × Response
  unfolding serve
  select_tool_setting_callback tool_index =
      serve (codes "An exception occurred during tool setting selection: ")
        (select_tool_setting tool_index)

  unfoldable pub select_noise_filter_callback : ℕ → Sensor → Sensor × Response
  unfolding serve
  select_noise_filter_callback filter_number =
      serve (codes "An exception occurred during noise filter selection: ")
        (select_noise_filter filter_number)
