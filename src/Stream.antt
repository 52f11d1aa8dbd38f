-- ===== src/Stream.antt =====
-- Class `Stream` of schunk_fts_library/schunk_fts_library/utility.py: the UDP socket with its
-- count of users. Whether `bind` succeeds is an argument, and so is the name service `lookup`, which
-- is `none` where `socket.gethostbyname` raises OSError. The datagrams that `recvfrom` gives until it would block, or fails, are
-- the argument of `read`. The lock is not modelled: a method is one step.
pub mod Users
use schunk_fts_ros.Base.{
  ℕ, ◌+◌, ◌-◌, Bool, true, false, ◌||◌, Option, none, some, List, [], ◌∷◌, Text, Bytes, same, ltb,
  if◌then◌else◌,
}
use schunk_fts_ros.Strings.{or_else}

-- `socket_closed` is `self.socket.fileno() == -1`.
pub record Stream : Type 0 where
  pub port : ℕ
  pub source_host : Option Text
  pub source_ip : Option Text
  pub accepted_packet_count : ℕ
  pub ignored_packet_count : ℕ
  pub source_addresses : List Text
  pub is_open : Bool
  pub open_count : ℕ
  pub socket_closed : Bool

-- `_reset_socket`
unfoldable pub reset_socket : Stream → Stream
reset_socket s = record s { socket_closed = false }

-- `_resolve_source_ip`: a name that cannot be resolved stands for itself.
unfoldable pub resolve_source_ip : (Text → Option Text) → Option Text → Option Text
resolve_source_ip lookup none = none
resolve_source_ip lookup (some source_host) = some (or_else (lookup source_host) source_host)

-- `__init__`
unfoldable pub new : (Text → Option Text) → ℕ → Option Text → Stream
unfolding reset_socket resolve_source_ip
new lookup port source_host = reset_socket (record {
  port = port;
  source_host = source_host;
  source_ip = resolve_source_ip lookup source_host;
  accepted_packet_count = 0;
  ignored_packet_count = 0;
  source_addresses = [];
  is_open = false;
  open_count = 0;
  socket_closed = false;
})

-- `_accepts_source`, on the address of the sender.
unfoldable pub accepts_source : Option Text → Text → Bool
accepts_source none address = true
accepts_source (some ip) address = same address ip

-- `self.source_addresses.add(address)`
unfoldable pub add_address : Text → List Text → List Text
add_address a [] = a ∷ []
add_address a (b ∷ bs) = if same a b then b ∷ bs else b ∷ add_address a bs

-- One round of the loop of `read`, and the loop.
unfoldable pub note_datagram : Bool → Text → Stream → Stream
unfolding add_address
note_datagram accepted address s =
    let seen : Stream = record s { source_addresses = add_address address s.source_addresses } in
    if accepted
    then record seen { accepted_packet_count = s.accepted_packet_count + 1 }
    else record seen { ignored_packet_count = s.ignored_packet_count + 1 }

unfoldable pub read_all : List (Bytes × Text) → Stream → Stream × List Bytes
unfolding note_datagram
read_all [] s = (s, [])
read_all ((datagram, address) ∷ rest) s =
    let accepted = accepts_source s.source_ip address in
    let (s', packets) = read_all rest (note_datagram accepted address s) in
    (s', if accepted then datagram ∷ packets else packets)

unfoldable pub read : List (Bytes × Text) → Stream → Stream × List Bytes
unfolding read_all
read datagrams s = if s.is_open then read_all datagrams s else (s, [])

-- `self.socket.bind(…)`, with the assignments behind it.
unfoldable pub bind : Bool → Stream → Stream
bind bound s = if bound then record s { is_open = true; open_count = 1 } else s

-- `__enter__`
unfoldable pub enter : Bool → Stream → Stream
unfolding bind reset_socket
enter bound s =
    if ltb s.port 1024 || ltb 65535 s.port
    then s
    else if s.is_open
    then record s { open_count = s.open_count + 1 }
    else bind bound (if s.socket_closed then reset_socket s else s)

-- `__exit__`
unfoldable pub exit : Stream → Stream
exit s =
    if ltb 1 s.open_count
    then record s { open_count = s.open_count - 1 }
    else record s { open_count = 0; is_open = false; socket_closed = true }
