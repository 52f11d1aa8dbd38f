-- ===== src/Sensor/Lost.antt =====
-- The connection while the update loop counts it as lost, with the requests of other threads.
use schunk_fts_ros.Base.{
  ℕ, ◌≡◌, refl, Bool, Bool-cases, inl, inr, true, false, not, ◌&&◌, ◌||◌, ◌⊎◌, List, [], ◌∷◌, Bytes,
  Text, codes, Result, ok, err, arith,
}
use schunk_fts_ros.Base.Act.{Act, continue}
use schunk_fts_ros.Message.{
  Message, init, get_parameter_response, set_parameter_response, command_response,
}
use schunk_fts_ros.Connection.{Connection, open_connection}
use schunk_fts_ros.Connection.Sessions.{transact_closes}
use schunk_fts_ros.Commands.{
  get_parameter, set_parameter, run_command, stop_udp_stream, transaction, exchange,
}
use schunk_fts_ros.Sensor.{
  Sensor, on_connection, close, sample, sample_batch, streaming_on, streaming_off,
}
use schunk_fts_ros.Sensor.Loop.{Loop, goes_on, note_loss, try_again, no_packets, iterate}
use schunk_fts_ros.Sensor.Reconnect.{IsUp, close-IsUp, attempt_reconnect-IsUp}

-- A round of the update loop, or a call that another thread makes between two rounds.
pub data Step : Loop → Loop → Type 0 where
  round :
      (ps : List Bytes) (now after : ℕ) (l : Loop)
      → goes_on l ≡ true
      → Step l (iterate ps now after l)
  get :
      (index subindex : Text) (l : Loop)
      → Step l (record l { sensor = (on_connection (get_parameter index subindex) l.sensor).0 })
  set :
      (value index subindex : Text) (l : Loop)
      → Step l
          (record l { sensor = (on_connection (set_parameter value index subindex) l.sensor).0 })
  command :
      (text : Text) (l : Loop)
      → Step l (record l { sensor = (on_connection (run_command text) l.sensor).0 })
  take : (now : ℕ) (l : Loop) → Step l (record l { sensor = (sample now l.sensor).0 })
  take_batch : (now : ℕ) (l : Loop) → Step l (record l { sensor = (sample_batch now l.sensor).0 })
  start :
      (stream_opens auto_reconnect : Bool) (l : Loop)
      → Step l (record l { sensor = (streaming_on stream_opens auto_reconnect l.sensor).0 })
  stop : (l : Loop) → Step l (record l { sensor = (streaming_off l.sensor).0 })

-- A `streaming_on` that finds the driver not streaming, and so starts it anew.
abbrev pub is_restart : {l m : Loop} → Step l m → Bool
is_restart (round ps now after l g) = false
is_restart (get index subindex l) = false
is_restart (set value index subindex l) = false
is_restart (command text l) = false
is_restart (take now l) = false
is_restart (take_batch now l) = false
is_restart (start stream_opens auto_reconnect l) = not l.sensor.is_streaming
is_restart (stop l) = false

-- Any number of steps; the flag says whether there was a restart among them since the connection
-- counts as lost.
pub data Steps (l : Loop) : Bool → Loop → Type 0 where
  here : Steps l false l
  next :
      {restarted : Bool} {m n : Loop}
      → Steps l restarted m
      → (step : Step m n) → Steps l (n.connection_lost && (restarted || is_restart step)) n

-- While the connection is lost, it is shut and not persistent.
abbrev pub IsShutIfLost : Loop → Type 0
IsShutIfLost l = l.connection_lost ≡ true → IsUp false l.sensor.connection

note_loss-IsShut : (l : Loop) → IsShutIfLost l → IsUp false (note_loss l).sensor.connection
unfolding note_loss
note_loss-IsShut l h = ground (arith, close-IsUp l.sensor.connection)

try_again-IsShutIfLost :
    (after : ℕ) (l : Loop) → IsUp false l.sensor.connection → IsShutIfLost (try_again after l)
unfolding try_again
try_again-IsShutIfLost after l h = ground (arith, attempt_reconnect-IsUp l.sensor)

iterate-IsShutIfLost :
    (ps : List Bytes) (now after : ℕ) (l : Loop)
    → IsShutIfLost l
    → IsShutIfLost (iterate ps now after l)
unfolding iterate no_packets
iterate-IsShutIfLost [] now after l h =
    ground (arith, note_loss-IsShut l h, try_again-IsShutIfLost after (note_loss l))
iterate-IsShutIfLost (p ∷ ps) now after l h = λ e. ground arith

transaction-IsShut :
    (msg : Bytes) (response : Message) (c : Connection)
    → IsUp false c
    → IsUp false (transaction msg response c).0
unfolding transaction
transaction-IsShut msg response c h = transact_closes msg c h.1

exchange-IsShut :
    (msg : Bytes) (response : Message) (c : Connection)
    → IsUp false c
    → IsUp false (exchange msg response c).0
unfolding exchange
exchange-IsShut msg response c h = ground arith

continue-IsShut :
    (r : Result Bytes) (f : Bytes → Act Connection Message) (c : Connection)
    → IsUp false c
    → ((msg : Bytes) → IsUp false (f msg c).0)
    → IsUp false (continue r f c).0
continue-IsShut (ok msg) f c h k = k msg
continue-IsShut (err e) f c h k = h

get_parameter-IsShut :
    (index subindex : Text) (c : Connection)
    → IsUp false c
    → IsUp false (get_parameter index subindex c).0
unfolding get_parameter
get_parameter-IsShut index subindex c h =
    continue-IsShut _ (λ msg. transaction msg (init get_parameter_response)) c h
      (λ msg. transaction-IsShut msg (init get_parameter_response) c h)

set_parameter-IsShut :
    (value index subindex : Text) (c : Connection)
    → IsUp false c
    → IsUp false (set_parameter value index subindex c).0
unfolding set_parameter
set_parameter-IsShut value index subindex c h =
    continue-IsShut _ (λ msg. transaction msg (init set_parameter_response)) c h
      (λ msg. transaction-IsShut msg (init set_parameter_response) c h)

run_command-IsShut :
    (text : Text) (c : Connection) → IsUp false c → IsUp false (run_command text c).0
unfolding run_command
run_command-IsShut text c h =
    continue-IsShut _ (λ msg. exchange msg (init command_response)) c h
      (λ msg. exchange-IsShut msg (init command_response) c h)

streaming_off-IsShut :
    (s : Sensor) → IsUp false s.connection → IsUp false (streaming_off s).0.connection
unfolding streaming_off close stop_udp_stream
streaming_off-IsShut s h = ground (
  arith,
  run_command-IsShut (codes "41") s.connection h,
  close-IsUp (run_command (codes "41") s.connection).0,
)

start-IsShut :
    (stream_opens auto_reconnect : Bool) (s : Sensor)
    → s.is_streaming ≡ true
    → (streaming_on stream_opens auto_reconnect s).0 ≡ s
unfolding streaming_on
start-IsShut stream_opens auto_reconnect s on = rw on refl

Step-IsShutIfLost :
    {l m : Loop} (step : Step l m) → is_restart step ≡ false → IsShutIfLost l → IsShutIfLost m
unfolding sample sample_batch on_connection
Step-IsShutIfLost (round ps now after l g) _ h = iterate-IsShutIfLost ps now after l h
Step-IsShutIfLost (get index subindex l) _ h =
    λ e. get_parameter-IsShut index subindex l.sensor.connection (h e)
Step-IsShutIfLost (set value index subindex l) _ h =
    λ e. set_parameter-IsShut value index subindex l.sensor.connection (h e)
Step-IsShutIfLost (command text l) _ h = λ e. run_command-IsShut text l.sensor.connection (h e)
Step-IsShutIfLost (take now l) _ h = ground arith
Step-IsShutIfLost (take_batch now l) _ h = ground arith
Step-IsShutIfLost (start stream_opens auto_reconnect l) kept h =
    λ e. rw (start-IsShut stream_opens auto_reconnect l.sensor (ground (arith, kept))) (h e)
Step-IsShutIfLost (stop l) _ h = λ e. streaming_off-IsShut l.sensor (h e)

-- From a loop whose connection is not lost, however its rounds and the calls of other threads
-- interleave: while the connection counts as lost, it is shut and not persistent, unless since the
-- loss some `streaming_on` has found the driver not streaming.
pub lost_is_shut :
    {l m : Loop} {restarted : Bool}
    → l.connection_lost ≡ false
    → Steps l restarted m
    → m.connection_lost ≡ true
    → restarted ≡ true ⊎ IsUp false m.sensor.connection
lost_is_shut begin here lost = cc
lost_is_shut begin (next {restarted = before} {m = m} {n = n} steps step) lost =
    elim (Bool-cases (before || is_restart step)) [
      | inl some_restart ↦ inl (ground (arith, lost, some_restart))
      | inr no_restart ↦
          let kept : IsShutIfLost m = λ e. elim (lost_is_shut begin steps e) [
            | inl was ↦ absurd (ground (arith, was, no_restart))
            | inr shut ↦ shut
          ] in
          inr (Step-IsShutIfLost step (ground (arith, no_restart)) kept lost)
    ]

-- A `streaming_on` that finds the driver not streaming, and the network there, leaves the
-- connection open and persistent even where the wait for the stream fails.
pub restart-IsUp :
    (auto_reconnect : Bool) (s : Sensor)
    → s.is_streaming ≡ false
    → (open_connection s.connection).1 ≡ true
    → IsUp true (streaming_on false auto_reconnect s).0.connection
unfolding streaming_on open_connection
restart-IsUp auto_reconnect s off opens = ground arith
