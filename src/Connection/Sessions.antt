-- ===== src/Connection/Sessions.antt =====
-- What holds of a connection over any run of its methods, and what a transaction leaves behind.
use schunk_fts_ros.Base.{◌≡◌, refl, Bool, true, false, List, [], ◌∷◌, Text, Bytes, arith, ℕ}
use schunk_fts_ros.Connection
use schunk_fts_ros.Connection.{Network, Connection, new}

pub data Call : Type 0 where
  open_connection close enter exit receive : Call
  send transact : Bytes → Call

unfoldable pub call : Call → Connection → Connection
call open_connection c = (Connection.open_connection c).0
call close c = Connection.close c
call enter c = Connection.enter c
call exit c = Connection.exit c
call receive c = (Connection.receive c).0
call (send msg) c = (Connection.send msg c).0
call (transact msg) c = (Connection.transact msg c).0

unfoldable pub calls : List Call → Connection → Connection
calls [] c = c
calls (x ∷ xs) c = calls xs (call x c)

-- An open connection has a live socket.
abbrev IsLive : Connection → Type 0
IsLive c = c.is_open ≡ true → c.socket_closed ≡ false

enter-IsLive : (c : Connection) → IsLive c → IsLive (Connection.enter c)
unfolding Connection.enter
enter-IsLive c h = ground arith

exit-IsLive : (c : Connection) → IsLive c → IsLive (Connection.exit c)
unfolding Connection.exit
exit-IsLive c h = ground arith

send-IsLive : (msg : Bytes) (c : Connection) → IsLive c → IsLive (Connection.send msg c).0
unfolding Connection.send
send-IsLive msg c h = ground arith

receive-IsLive : (c : Connection) → IsLive c → IsLive (Connection.receive c).0
unfolding Connection.receive
receive-IsLive c h = ground arith

transact-IsLive : (msg : Bytes) (c : Connection) → IsLive c → IsLive (Connection.transact msg c).0
unfolding Connection.transact
transact-IsLive msg c h = ground (
  arith,
  enter-IsLive c h,
  send-IsLive msg (Connection.enter c),
  receive-IsLive (Connection.send msg (Connection.enter c)).0,
  exit-IsLive (Connection.receive (Connection.send msg (Connection.enter c)).0).0,
  exit-IsLive (Connection.enter c),
)

call-IsLive : (x : Call) (c : Connection) → IsLive c → IsLive (call x c)
unfolding call
call-IsLive open_connection c h = unfold Connection.open_connection in ground arith
call-IsLive close c h = unfold Connection.close in ground arith
call-IsLive enter c h = enter-IsLive c h
call-IsLive exit c h = exit-IsLive c h
call-IsLive receive c h = receive-IsLive c h
call-IsLive (send msg) c h = send-IsLive msg c h
call-IsLive (transact msg) c h = transact-IsLive msg c h

calls-IsLive : (xs : List Call) (c : Connection) → IsLive c → IsLive (calls xs c)
unfolding calls
calls-IsLive [] c h = h
calls-IsLive (x ∷ xs) c h = calls-IsLive xs (call x c) (call-IsLive x c h)

-- Whatever methods are called on a new connection, and whatever the network does, a connection
-- that says it is open has a socket that was not closed.
pub open_is_live :
    (host : Text) (port : ℕ) (net : Network) (xs : List Call)
    → (calls xs (new host port net)).is_open ≡ true
    → (calls xs (new host port net)).socket_closed ≡ false
unfolding new
open_is_live host port net xs h = calls-IsLive xs (new host port net) (λ e. refl) h

-- After `close`, a connection is shut and not persistent, and has a fresh socket, so that the
-- next `open` tries to connect: it succeeds exactly if the network lets it.
pub open-close :
    (c : Connection) (done : Bool) (rest : List Bool)
    → c.net.connects ≡ done ∷ rest
    → ((Connection.close c).is_open ≡ false)
      × ((Connection.close c).persistent ≡ false)
      × ((Connection.open_connection (Connection.close c)).1 ≡ done)
      × ((Connection.open_connection (Connection.close c)).0.is_open ≡ done)
      × ((Connection.open_connection (Connection.close c)).0.persistent ≡ done)
unfolding Connection.close Connection.open_connection
open-close c done rest e = ground arith

enter-persistent : (c : Connection) → (Connection.enter c).persistent ≡ c.persistent
unfolding Connection.enter
enter-persistent c = ground arith

send-persistent :
    (msg : Bytes) (c : Connection) → (Connection.send msg c).0.persistent ≡ c.persistent
unfolding Connection.send
send-persistent msg c = ground arith

receive-persistent : (c : Connection) → (Connection.receive c).0.persistent ≡ c.persistent
unfolding Connection.receive
receive-persistent c = ground arith

exit_closes :
    (c : Connection)
    → c.persistent ≡ false
    → ((Connection.exit c).is_open ≡ false) × ((Connection.exit c).persistent ≡ false)
unfolding Connection.exit
exit_closes c h = ground arith

-- A transaction on a connection that is not persistent leaves it shut, and not persistent.
pub transact_closes :
    (msg : Bytes) (c : Connection)
    → c.persistent ≡ false
    → ((Connection.transact msg c).0.is_open ≡ false)
      × ((Connection.transact msg c).0.persistent ≡ false)
unfolding Connection.transact
transact_closes msg c h = ground (
  arith,
  enter-persistent c,
  send-persistent msg (Connection.enter c),
  receive-persistent (Connection.send msg (Connection.enter c)).0,
  exit_closes (Connection.receive (Connection.send msg (Connection.enter c)).0).0,
  exit_closes (Connection.enter c),
)
