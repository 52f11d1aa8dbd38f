-- ===== src/Dummy/Dialogue.antt =====
-- The driver against the simulator.
use schunk_fts_ros.Base.{
  ℕ, ◌+◌, ◌%◌, ◌≡◌, ◌≢◌, ◌∙◌, Bool, true, Option, none, some, List, [], ◌∷◌, ◌++◌, Bytes, ok, arith,
}
use schunk_fts_ros.Packet.{item}
use schunk_fts_ros.Message.{
  set_parameter_request, set_parameter_response, get_parameter_request, get_parameter_response,
  command_response,
}
use schunk_fts_ros.Message.Layout.{Body, layout, message}
use schunk_fts_ros.Wire.{IsByte, hex}
use schunk_fts_ros.Connection.{Connection}
use schunk_fts_ros.Commands.{run_command}
use schunk_fts_ros.Commands.Branches.{command_bytes, run_command-reply}
use schunk_fts_ros.Dummy.{
  OutputRateMode, Session, from_enum, process, dispatch, get_parameter, set_parameter, set_rate,
  handle_request, handle_requests, param_index_of, command_code,
}

-- A message about the output rate, under the index 1020.
abbrev pub rate_body : ℕ → ℕ → ℕ → Bytes → Body
rate_body command counter status value = record {
  sync0 = 255;
  sync1 = 255;
  counter = counter;
  command = command;
  status = status;
  index_high = 0x10;
  index_low = 0x20;
  subindex = 0;
  value = value;
  argument = 0;
}

abbrev pub set_request : ℕ → Bytes
set_request value = layout set_parameter_request (rate_body 0xf1 0 0 (value ∷ []))

abbrev pub get_request : Bytes
get_request = layout get_parameter_request (rate_body 0xf0 0 0 [])

-- The answers to both, the first under the counter, the second under the next.
abbrev pub answers : ℕ → ℕ → ℕ → List (Option Bytes)
answers counter status value =
    some (layout set_parameter_response (rate_body 0xf1 counter status []))
    ∷ some (layout get_parameter_response (rate_body 0xf0 ((counter + 1) % 65536) 0 (value ∷ [])))
    ∷ []

-- What the simulator does with a rate that it knows, and with another.
abbrev pub Sets : ℕ → Session → Option OutputRateMode → Session × List (Option Bytes) → Type 0
Sets value s (some d) (s', replies) =
    (s'.output_rate ≡ d) × (replies ≡ answers s.counter 0x00 value)
Sets value s none (s', replies) =
    (s'.output_rate ≡ s.output_rate) × (replies ≡ answers s.counter 0x16 s.output_rate.enum_value)

-- The simulator takes the output rate that a request sets if it knows it, and else answers with
-- the code 16 and keeps the old one; the request that follows gets the rate which then holds.
pub set_then_get :
    (value : ℕ) (s : Session)
    → Sets value s (from_enum value) (handle_requests (set_request value ∷ get_request ∷ []) s)
unfolding handle_requests handle_request process item dispatch get_parameter set_parameter set_rate
    param_index_of layout
set_then_get value s = ground arith

abbrev pub command_answer : ℕ → ℕ → Body
command_answer counter command = rate_body command counter (command_code command) []

handle_requests-command :
    (command : ℕ) (s : Session)
    → command ≢ 0xf0
    → command ≢ 0xf1
    → (handle_requests (command_bytes command ∷ []) s).1
      ≡ some (layout command_response (command_answer s.counter command)) ∷ []
unfolding handle_requests handle_request process item dispatch layout
handle_requests-command command s p q = ground arith

-- A command of the driver's reaches the simulator, and the message that comes back has the code 00
-- if the command is one of the sensor's nine, and 01 otherwise.
pub run_command-simulated :
    (command : ℕ) (c : Connection) (more : List Bool) (s : Session)
    → IsByte command
    → command ≢ 0xf0
    → command ≢ 0xf1
    → c.is_open ≡ true
    → c.net.sends ≡ true ∷ more
    → c.net.replies ≡ (handle_requests (command_bytes command ∷ []) s).1
    → ((run_command (hex (command ∷ [])) c).1
        ≡ ok (message command_response (command_answer s.counter command) (some 2)))
      × ((run_command (hex (command ∷ [])) c).0.net.sent ≡ c.net.sent ++ command_bytes command ∷ [])
run_command-simulated command c more s b p q o se r =
    let (reply, sent, _) =
      run_command-reply command (command_answer s.counter command) c more [] b o se
        (r ∙ handle_requests-command command s p q) in
    (reply, sent)
