-- ===== src/Connection.antt =====
-- Class `Connection` of schunk_fts_library/schunk_fts_library/utility.py. What the network
-- answers is a script: the outcome of each `connect` and `sendall`, and what each `recv` returns
-- (`none` is an OSError). An outcome that the script lacks is a failure. The locks are not
-- modelled: a method is one step. The `except` branches of `connect` and `sendall` differ in the
-- text that they print, and are one failure here.
pub mod Sessions
use schunk_fts_ros.Base.{
  ℕ, Bool, true, false, Option, none, some, List, [], ◌∷◌, ◌++◌, Text, Bytes, if◌then◌else◌,
}

pub record Network : Type 0 where
  pub connects : List Bool
  pub sends : List Bool
  pub replies : List (Option Bytes)
  -- What `sendall` has sent so far.
  pub sent : List Bytes

-- `socket_closed` is `self.socket.fileno() == -1`.
pub record Connection : Type 0 where
  pub host : Text
  pub port : ℕ
  pub is_open : Bool
  pub persistent : Bool
  pub socket_closed : Bool
  pub net : Network

-- `_reset_socket`
unfoldable pub reset_socket : Connection → Connection
reset_socket c = record c { socket_closed = false }

-- `__init__`
unfoldable pub new : Text → ℕ → Network → Connection
unfolding reset_socket
new host port net = reset_socket (record {
  host = host;
  port = port;
  is_open = false;
  persistent = false;
  socket_closed = false;
  net = net;
})

-- `_close_socket`
unfoldable pub close_socket : Connection → Connection
close_socket c =
    if c.is_open then record c { is_open = false; persistent = false; socket_closed = true } else c

unfoldable pub close : Connection → Connection
unfolding close_socket reset_socket
close c = reset_socket (close_socket (record c { persistent = false }))

-- `self.socket.connect(…)`, with the assignment behind it.
unfoldable pub connect : List Bool → Connection → Connection
connect [] c = c
connect (done ∷ rest) c =
    let net' : Network = record c.net { connects = rest } in
    if done then record c { is_open = true; net = net' } else record c { net = net' }

-- `__enter__`
unfoldable pub enter : Connection → Connection
unfolding connect reset_socket
enter c =
    if c.is_open then c else connect c.net.connects (if c.socket_closed then reset_socket c else c)

-- `__exit__`
unfoldable pub exit : Connection → Connection
unfolding close_socket
exit c = if c.persistent then c else close_socket c

unfoldable pub open_connection : Connection → Connection × Bool
unfolding enter
open_connection c =
    let c' = enter c in if c'.is_open then (record c' { persistent = true }, true) else (c', false)

-- `self.socket.sendall(data)`
unfoldable pub send_all : List Bool → Bytes → Connection → Connection × Bool
send_all [] bs c = (c, false)
send_all (done ∷ rest) bs c =
    if done
    then (record c { net = record c.net { sends = rest; sent = c.net.sent ++ bs ∷ [] } }, true)
    else (record c { net = record c.net { sends = rest } }, false)

unfoldable pub send : Bytes → Connection → Connection × Bool
unfolding send_all
send bs c = if c.is_open then send_all c.net.sends bs c else (c, false)

-- `self.socket.recv(1024)`, with the handler of OSError.
unfoldable pub recv : List (Option Bytes) → Connection → Connection × Bytes
recv [] c = (record c { is_open = false }, [])
recv (none ∷ rest) c = (record c { is_open = false; net = record c.net { replies = rest } }, [])
recv (some bs ∷ rest) c = (record c { net = record c.net { replies = rest } }, bs)

unfoldable pub receive : Connection → Connection × Bytes
unfolding recv
receive c = if c.is_open then recv c.net.replies c else (c, [])

-- `with self.connection as sensor: if sensor: sensor.send(msg); data = sensor.receive()`, as
-- `get_parameter` and `set_parameter` of the driver have it.
unfoldable pub transact : Bytes → Connection → Connection × Bytes
transact msg c =
    let entered = enter c in
    if entered.is_open
    then (let (c', bs) = receive (send msg entered).0 in (exit c', bs))
    else (exit entered, [])
