-- ===== src/Stream/Users.antt =====
-- The count of users, and what `read` lets through.
use schunk_fts_ros.Base.{
  ℕ, zero, suc, ◌+◌, ◌<◌, ◌≡◌, refl, Bool, true, false, Option, List, [], ◌∷◌, Text, Bytes, length,
  if◌then◌else◌, arith,
}
use schunk_fts_ros.Stream
use schunk_fts_ros.Stream.{Stream, accepts_source, read_all, note_datagram}

-- A user comes, with the outcome of `bind` if it is tried, or goes.
pub data Use : Type 0 where
  enter : Bool → Use
  exit : Use

unfoldable pub use_stream : Use → Stream → Stream
use_stream (enter bound) s = Stream.enter bound s
use_stream exit s = Stream.exit s

unfoldable pub uses : List Use → Stream → Stream
uses [] s = s
uses (u ∷ us) s = uses us (use_stream u s)

-- An open stream has a user and a live socket, a shut one has no user.
pub record IsCounted (s : Stream) : Type 0 where
  pub used : s.is_open ≡ true → 0 < s.open_count
  pub live : s.is_open ≡ true → s.socket_closed ≡ false
  pub unused : s.is_open ≡ false → s.open_count ≡ 0

pub use_stream-IsCounted : (u : Use) (s : Stream) → IsCounted s → IsCounted (use_stream u s)
unfolding use_stream Stream.enter Stream.exit
use_stream-IsCounted (enter bound) s h = ground arith
use_stream-IsCounted exit s h = ground arith

uses-IsCounted : (us : List Use) (s : Stream) → IsCounted s → IsCounted (uses us s)
unfolding uses
uses-IsCounted [] s h = h
uses-IsCounted (u ∷ us) s h = uses-IsCounted us (use_stream u s) (use_stream-IsCounted u s h)

-- Over any run of `__enter__` and `__exit__` on a new stream, it is open exactly while it counts
-- users, and an open stream has a socket that was not closed.
pub stream-IsCounted :
    (lookup : Text → Option Text) (port : ℕ) (source_host : Option Text) (us : List Use)
    → IsCounted (uses us (Stream.new lookup port source_host))
unfolding Stream.new
stream-IsCounted lookup port source_host us =
    uses-IsCounted us (Stream.new lookup port source_host) (ground arith)

abbrev pub exits : ℕ → List Use
exits zero = []
exits (suc n) = exit ∷ exits n

exit_one :
    (n : ℕ) (s : Stream)
    → s.is_open ≡ true
    → s.open_count ≡ suc n + 1
    → ((Stream.exit s).is_open ≡ true) × ((Stream.exit s).open_count ≡ n + 1)
unfolding Stream.exit
exit_one n s o c = ground arith

-- An open stream with `n + 1` users stays open until the last of them leaves, and is then shut.
pub last_exit_closes :
    (n : ℕ) (s : Stream)
    → s.is_open ≡ true
    → s.open_count ≡ n + 1
    → ((uses (exits n) s).is_open ≡ true) × ((uses (exits (suc n)) s).is_open ≡ false)
unfolding uses use_stream Stream.exit
last_exit_closes zero s o c = ground arith
last_exit_closes (suc n) s o c =
    let (still, fewer) = exit_one n s o c in last_exit_closes n (Stream.exit s) still fewer

-- The payloads of the datagrams that the stream accepts.
abbrev pub accepted : Option Text → List (Bytes × Text) → List Bytes
accepted ip [] = []
accepted ip ((bs, address) ∷ rest) =
    if accepts_source ip address then bs ∷ accepted ip rest else accepted ip rest

-- `read` returns the accepted payloads in order, and counts every datagram, as accepted or as
-- ignored.
pub read_all_lem :
    (ds : List (Bytes × Text)) (s : Stream)
    → ((read_all ds s).1 ≡ accepted s.source_ip ds)
      × ((read_all ds s).0.accepted_packet_count
          ≡ s.accepted_packet_count + length (accepted s.source_ip ds))
      × ((read_all ds s).0.accepted_packet_count + (read_all ds s).0.ignored_packet_count
          ≡ s.accepted_packet_count + s.ignored_packet_count + length ds)
unfolding read_all note_datagram
read_all_lem [] s = (refl, omega arith, omega arith)
read_all_lem ((bs, address) ∷ rest) s =
    ground (arith, read_all_lem rest (note_datagram (accepts_source s.source_ip address) address s))
