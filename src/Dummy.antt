-- ===== src/Dummy.antt =====
-- The simulator of the sensor, schunk_fts_dummy/src: `OutputRateMode` and `OutputRateState` of
-- output_rate.rs, `Sensor::process` of sensor.rs and the loop over one connection of tcp.rs. An
-- index past the end of a slice panics in Rust, which ends the connection's task: it is the error
-- `index_error` here. One read returns one message; what is printed is left out.
pub mod Udp
pub mod Agree
pub mod Requests
pub mod Dialogue
pub mod Start
pub mod Decoded
pub mod Arrive
pub mod Published
use schunk_fts_ros.Base.{
  ℕ, ◌+◌, ◌/◌, ◌%◌, Bool, true, false, ◌&&◌, ◌||◌, Option, none, some, List, [], ◌∷◌, ◌++◌, Bytes,
  ltb, leb, ◌==◌, if◌then◌else◌, length, Result, ok, err,
}
use schunk_fts_ros.Base.Act.{Act, pure, lift, ◌>>=◌}
use schunk_fts_ros.Wire.{u16}
use schunk_fts_ros.Packet.{item}

-- The duration is in nanoseconds.
pub record OutputRateMode : Type 0 where
  pub enum_value : ℕ
  pub requested_hz : ℕ
  pub udp_packet_rate_hz : ℕ
  pub samples_per_packet : ℕ
  pub sample_period : ℕ

-- `Duration::from_secs_f64(1.0 / hz)`, at the rates of the table, which divide a second.
unfoldable pub period : ℕ → ℕ
period hz = 1000000000 / hz

-- `OutputRateMode::new`
unfoldable pub mode : ℕ → ℕ → ℕ → ℕ → OutputRateMode
unfolding period
mode enum_value requested_hz udp_packet_rate_hz samples_per_packet = record {
  enum_value = enum_value;
  requested_hz = requested_hz;
  udp_packet_rate_hz = udp_packet_rate_hz;
  samples_per_packet = samples_per_packet;
  sample_period = period requested_hz;
}

unfoldable pub from_enum : ℕ → Option OutputRateMode
unfolding mode
from_enum value =
    if value == 0
    then some (mode 0 1000 1000 1)
    else if value == 1
    then some (mode 1 500 500 1)
    else if value == 2
    then some (mode 2 250 250 1)
    else if value == 3
    then some (mode 3 100 100 1)
    else if value == 10
    then some (mode 10 8000 500 16)
    else none

unfoldable pub packet_interval : OutputRateMode → ℕ
unfolding period
packet_interval m = period m.udp_packet_rate_hz

-- `OutputRateMode::default`
unfoldable pub default_mode : OutputRateMode
unfolding mode
default_mode = mode 0 1000 1000 1

-- `OutputRateState::set_enum`
unfoldable pub set_enum : ℕ → OutputRateMode → OutputRateMode × Bool
unfolding from_enum
set_enum value m = elim (from_enum value) [ none ↦ (m, false) | some m' ↦ (m', true) ]

abbrev pub valid_commands : List ℕ
valid_commands = 0x10 ∷ 0x11 ∷ 0x12 ∷ 0x13 ∷ 0x20 ∷ 0x30 ∷ 0x31 ∷ 0x40 ∷ 0x41 ∷ []

unfoldable pub contains : List ℕ → ℕ → Bool
contains [] command_id = false
contains (c ∷ cs) command_id = c == command_id || contains cs command_id

-- `u16::from_le_bytes([msg[7], msg[8]])`
unfoldable pub param_index_of : Bytes → Result ℕ
param_index_of msg = elim (item msg 7) [
  | err e ↦ err e
  | ok low ↦ elim (item msg 8) [ err e ↦ err e | ok high ↦ ok (u16 low high) ]
]

unfoldable pub get_value : ℕ → ℕ → OutputRateMode → Bytes
get_value param_index param_subindex m =
    if param_index == 0x1020 && param_subindex == 0
    then m.enum_value ∷ []
    else b'K' ∷ b'M' ∷ b'S' ∷ []

-- The first branch of `process`.
unfoldable pub get_parameter : Bytes → Act OutputRateMode Bytes
unfolding get_value param_index_of
get_parameter msg m =
    (do
      param_index ← lift (param_index_of msg)
      param_subindex ← lift (item msg 9)
      pure (
          0xf0
          ∷ 0x00
          ∷ param_index % 256
          ∷ param_index / 256
          ∷ param_subindex
          ∷ get_value param_index param_subindex m))
      m

-- `self.output_rate.set_enum(msg[10])`
unfoldable pub set_rate : Bytes → Act OutputRateMode ℕ
unfolding set_enum
set_rate msg = if leb (length msg) 10 then pure 0x15 else do
  value ← lift (item msg 10)
  done ← λ m. let (m', d) = set_enum value m in (m', ok d)
  pure (if done then 0x00 else 0x16)

-- The second branch.
unfoldable pub set_parameter : Bytes → Act OutputRateMode Bytes
unfolding set_rate param_index_of
set_parameter msg = do
  param_index ← lift (param_index_of msg)
  param_subindex ← lift (item msg 9)
  error_code ← (if param_index == 0x1020 && param_subindex == 0 then set_rate msg else pure 0x00)
  pure (0xf1 ∷ error_code ∷ param_index % 256 ∷ param_index / 256 ∷ param_subindex ∷ [])

unfoldable pub command_code : ℕ → ℕ
unfolding contains
command_code command_id = if contains valid_commands command_id then 0x00 else 0x01

-- `process` behind its first line.
unfoldable pub dispatch : Bytes → ℕ → Act OutputRateMode Bytes
unfolding command_code
dispatch msg command_id =
    if command_id == 0xf0
    then get_parameter msg
    else if command_id == 0xf1
    then set_parameter msg
    else pure (command_id ∷ command_code command_id ∷ [])

unfoldable pub process : Bytes → Act OutputRateMode Bytes
unfolding dispatch
process msg = do command_id ← lift (item msg 6); dispatch msg command_id

-- The task of one connection: the output rate is shared with the others.
pub record Session : Type 0 where
  pub output_rate : OutputRateMode
  pub counter : ℕ

unfoldable pub accept : OutputRateMode → Session
accept m = record { output_rate = m; counter = 1 }

unfoldable pub response : ℕ → Bytes → Bytes
response counter payload =
    0xff
    ∷ 0xff
    ∷ counter % 256
    ∷ counter / 256
    ∷ length payload % 256
    ∷ length payload / 256 % 256
    ∷ payload

unfoldable pub answer : Session → OutputRateMode × Result Bytes → Session × Result (Option Bytes)
unfolding response
answer s (m, err e) = (record s { output_rate = m }, err e)
answer s (m, ok payload) = (
  record { output_rate = m; counter = (s.counter + 1) % 65536 },
  ok (some (response s.counter payload)),
)

-- One message of `handle_requests`: the answer, or `none` where the connection is closed.
unfoldable pub handle_request : Bytes → Act Session (Option Bytes)
unfolding answer
handle_request msg s =
    if ltb (length msg) 6 then (s, ok none) else answer s (process msg s.output_rate)

-- What the client reads after each of its messages: nothing once the task has ended.
unfoldable pub after_answer :
    (Session → Session × List (Option Bytes))
    → Session × Result (Option Bytes)
    → Session × List (Option Bytes)
after_answer rest (s, ok (some bs)) = let (s', replies) = rest s in (s', some bs ∷ replies)
after_answer rest (s, ok none) = (s, some [] ∷ [])
after_answer rest (s, err e) = (s, some [] ∷ [])

unfoldable pub handle_requests : List Bytes → Session → Session × List (Option Bytes)
unfolding after_answer
handle_requests [] s = (s, [])
handle_requests (msg ∷ msgs) s = after_answer (handle_requests msgs) (handle_request msg s)
