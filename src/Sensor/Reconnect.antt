-- ===== src/Sensor/Reconnect.antt =====
-- A reconnection attempt.
use schunk_fts_ros.Base.{
  ◌≡◌, refl, Bool, true, false, some, [], Bytes, Text, codes, Result, ok, err, arith, ◌⊎◌,
  Bool-cases, inl, inr,
}
use schunk_fts_ros.Connection
use schunk_fts_ros.Connection.{Connection}
use schunk_fts_ros.Base.Act.{continue}
use schunk_fts_ros.Message.{
  Message, init, to_bytes, command_request, command_response, set_parameter_request,
  set_parameter_response,
}
use schunk_fts_ros.Commands.{
  set_parameter, start_udp_stream, transaction, exchange, run_command, read_into, has_code,
}
use schunk_fts_ros.Commands.Branches.{from_bytes-nil}
use schunk_fts_ros.Sensor.{
  Sensor, on_connection, configure_output_rate, attempt_reconnect, judge_start, judge_configured,
}

-- The connection is open and persistent, or neither, as `b` says.
abbrev pub IsUp : Bool → Connection → Type 0
IsUp b c = (c.is_open ≡ b) × (c.persistent ≡ b)

pub close-IsUp : (c : Connection) → IsUp false (Connection.close c)
unfolding Connection.close
close-IsUp c = ground arith

open-IsUp :
    (c : Connection)
    → c.is_open ≡ false
    → c.persistent ≡ false
    → IsUp (Connection.open_connection c).1 (Connection.open_connection c).0
unfolding Connection.open_connection
open-IsUp c o p = ground arith

send-IsUp : (msg : Bytes) (c : Connection) → IsUp true c → IsUp true (Connection.send msg c).0
unfolding Connection.send
send-IsUp msg c h = ground arith

-- `receive` returns nothing, or leaves the connection up.
receive-IsUp :
    (c : Connection)
    → IsUp true c
    → ((Connection.receive c).1 ≡ []) ⊎ IsUp true (Connection.receive c).0
unfolding Connection.receive
receive-IsUp c h = ground arith

enter-IsUp : (c : Connection) → c.is_open ≡ true → Connection.enter c ≡ c
unfolding Connection.enter
enter-IsUp c h = rw h

exit-persistent : (c : Connection) → c.persistent ≡ true → Connection.exit c ≡ c
unfolding Connection.exit
exit-persistent c h = rw h

transact-IsUp :
    (msg : Bytes) (c : Connection)
    → IsUp true c
    → ((Connection.transact msg c).1 ≡ []) ⊎ IsUp true (Connection.transact msg c).0
unfolding Connection.transact
transact-IsUp msg c h =
    let sent = (Connection.send msg c).0 in
    rw (enter-IsUp c h.0) (
      ground
        (arith, receive-IsUp sent (send-IsUp msg c h), exit-persistent (Connection.receive sent).0))

-- A persistent connection stays up through a command, unless the command raises.
exchange-IsUp :
    (msg : Bytes) (response : Message) (c : Connection) (m : Message)
    → IsUp true c
    → (exchange msg response c).1 ≡ ok m
    → IsUp true (exchange msg response c).0
unfolding exchange read_into
exchange-IsUp msg response c m h e =
    ground
      (arith, receive-IsUp (Connection.send msg c).0 (send-IsUp msg c h), from_bytes-nil response)

lift_exchange-IsUp :
    (r : Result Bytes) (response : Message) (c : Connection) (m : Message)
    → IsUp true c
    → (continue r (λ msg. exchange msg response) c).1 ≡ ok m
    → IsUp true (continue r (λ msg. exchange msg response) c).0
lift_exchange-IsUp (ok msg) response c m h e = exchange-IsUp msg response c m h e
lift_exchange-IsUp (err x) response c m h e = ground arith

start-IsUp :
    (c : Connection) (m : Message)
    → IsUp true c
    → (start_udp_stream c).1 ≡ ok m
    → IsUp true (start_udp_stream c).0
unfolding start_udp_stream run_command
start-IsUp c m h e =
    lift_exchange-IsUp
      (to_bytes (record (init command_request) { command_id = some (codes "40") })).1
      (init command_response) c m h e

abbrev accepted : Result Message → Bool
accepted (ok m) = has_code (codes "00") m.error_code
accepted (err e) = false

transaction-IsUp :
    (msg : Bytes) (c : Connection)
    → IsUp true c
    → accepted (transaction msg (init set_parameter_response) c).1 ≡ true
    → IsUp true (transaction msg (init set_parameter_response) c).0
unfolding transaction init
transaction-IsUp msg c h e = ground (arith, transact-IsUp msg c h)

lift_transaction-IsUp :
    (r : Result Bytes) (c : Connection)
    → IsUp true c
    → accepted (continue r (λ msg. transaction msg (init set_parameter_response)) c).1 ≡ true
    → IsUp true (continue r (λ msg. transaction msg (init set_parameter_response)) c).0
lift_transaction-IsUp (ok msg) c h e = transaction-IsUp msg c h e
lift_transaction-IsUp (err x) c h e = ground arith

set_parameter-IsUp :
    (value index subindex : Text) (c : Connection)
    → IsUp true c
    → accepted (set_parameter value index subindex c).1 ≡ true
    → IsUp true (set_parameter value index subindex c).0
unfolding set_parameter
set_parameter-IsUp value index subindex c h e =
    lift_transaction-IsUp
      (to_bytes (record (init set_parameter_request) {
        command_id = some (codes "f1");
        param_index = some index;
        param_subindex = some subindex;
        param_value = some value;
      })).1
      c h e

-- It stays up through the setting of the output rate, if that is answered with the code 00.
configure-IsUp :
    (s : Sensor)
    → IsUp true s.connection
    → (configure_output_rate s).1 ≡ ok true
    → IsUp true (configure_output_rate s).0.connection
unfolding configure_output_rate
configure-IsUp s h e = ground (
  arith,
  set_parameter-IsUp s.output_rate_mode.parameter_value (codes "1020") (codes "00") s.connection h,
)

judge_start-IsUp :
    (r : Sensor × Result Message)
    → ((m : Message) → r.1 ≡ ok m → IsUp true r.0.connection)
    → IsUp (judge_start r).1 (judge_start r).0.connection
unfolding judge_start
judge_start-IsUp (s, err e) h = close-IsUp s.connection
judge_start-IsUp (s, ok m) h = ground (arith, h m refl, close-IsUp s.connection)

judge_configured-IsUp :
    (r : Sensor × Result Bool)
    → (r.1 ≡ ok true → IsUp true r.0.connection)
    → IsUp (judge_configured r).1 (judge_configured r).0.connection
unfolding judge_configured
judge_configured-IsUp (s, err e) h = close-IsUp s.connection
judge_configured-IsUp (s, ok false) h = close-IsUp s.connection
judge_configured-IsUp (s, ok true) h =
    judge_start-IsUp (on_connection start_udp_stream s)
      (λ m e. start-IsUp s.connection m (h refl) e)

-- A reconnection attempt returns true exactly if it leaves the connection open and persistent;
-- otherwise it leaves it shut.
pub attempt_reconnect-IsUp :
    (s : Sensor) → IsUp (attempt_reconnect s).1 (attempt_reconnect s).0.connection
unfolding attempt_reconnect
attempt_reconnect-IsUp s =
    let c = Connection.close s.connection in
    let opened = Connection.open_connection c in
    let s' : Sensor = record s { connection = opened.0 } in
    let up = open-IsUp c (close-IsUp s.connection).0 (close-IsUp s.connection).1 in
    elim (Bool-cases opened.1) [
      | inl e ↦
          rw e (judge_configured-IsUp (configure_output_rate s') (configure-IsUp s' (rw e at up)))
      | inr e ↦ rw e (rw e at up)
    ]
