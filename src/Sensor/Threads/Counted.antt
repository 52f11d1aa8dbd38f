-- ===== src/Sensor/Threads/Counted.antt =====
-- The stream's count of users beside the update threads that are within its `with`.
use schunk_fts_ros.Base.{
  ℕ, suc, ◌+◌, ◌-◌, ◌≤◌, ◌<◌, ◌≡◌, refl, ap, Bool, true, false, List, [], ◌∷◌, ◌++◌, Text, Bytes,
  Option, arith,
}
use schunk_fts_ros.Stream
use schunk_fts_ros.Stream.{Stream, read_all, note_datagram, accepts_source}
use schunk_fts_ros.Stream.Users
use schunk_fts_ros.Stream.Users.{IsCounted, use_stream-IsCounted}
use schunk_fts_ros.Sensor.{Sensor}
use schunk_fts_ros.Sensor.Threads.{
  Position, starting, inside, ended, System, Step, Steps, start, not_started, opened, timed_out,
  enter, go_round, leave, request, take, take_batch, clear, stop, stop_failed, joined, here, next,
  initial, round, Lock,
}

-- The threads within their `with self.stream`.
abbrev pub count_inside : List Position → ℕ
count_inside [] = 0
count_inside (starting ∷ ps) = count_inside ps
count_inside (inside last_packet_time connection_lost ∷ ps) = suc (count_inside ps)
count_inside (ended ∷ ps) = count_inside ps

count_inside-append :
    (ps qs : List Position) → count_inside (ps ++ qs) ≡ count_inside ps + count_inside qs
count_inside-append [] qs = omega arith
count_inside-append (starting ∷ ps) qs = count_inside-append ps qs
count_inside-append (inside last lost ∷ ps) qs = omega (arith, count_inside-append ps qs)
count_inside-append (ended ∷ ps) qs = count_inside-append ps qs

-- Reading leaves the count of users and the socket as they are.
record Same (s u : Stream) : Type 0 where
  port : u.port ≡ s.port
  is_open : u.is_open ≡ s.is_open
  open_count : u.open_count ≡ s.open_count
  socket_closed : u.socket_closed ≡ s.socket_closed

read_all-Same : (ds : List (Bytes × Text)) (s : Stream) → Same s (read_all ds s).0
unfolding read_all note_datagram
read_all-Same [] s = ground arith
read_all-Same ((bs, address) ∷ rest) s =
    ground
      (arith, read_all-Same rest (note_datagram (accepts_source s.source_ip address) address s))

read-Same : (ds : List (Bytes × Text)) (s : Stream) → Same s (Stream.read ds s).0
unfolding Stream.read
read-Same ds s = ground (arith, read_all-Same ds s)

-- `bind` always succeeds, and the port is one that the stream takes.
record Opens (Bound : Bool → Type 0) (port : ℕ) : Type 0 where
  bound : (b : Bool) → Bound b → b ≡ true
  low : 1024 ≤ port
  high : port ≤ 65535

-- The stream counts no more users than there are threads within it, and just these if it opens
-- whenever it is asked to.
record IsHeld (Bound : Bool → Type 0) (n : ℕ) (t : System) : Type 0 where
  port : t.stream.port ≡ n
  counted : IsCounted t.stream
  most : t.stream.open_count ≤ count_inside t.threads
  exact : Opens Bound n → t.stream.open_count ≡ count_inside t.threads

enter_more :
    (bound : Bool) (s : Stream)
    → IsCounted s
    → ((Stream.enter bound s).port ≡ s.port)
      × ((Stream.enter bound s).open_count ≤ s.open_count + 1)
unfolding Stream.enter
enter_more bound s h = ground arith

enter_exact :
    (bound : Bool) (s : Stream)
    → IsCounted s
    → bound ≡ true
    → 1024 ≤ s.port
    → s.port ≤ 65535
    → (Stream.enter bound s).open_count ≡ s.open_count + 1
unfolding Stream.enter
enter_exact bound s h b low high = ground arith

exit_less :
    (s : Stream) → ((Stream.exit s).port ≡ s.port) × ((Stream.exit s).open_count ≡ s.open_count - 1)
unfolding Stream.exit
exit_less s = ground arith

IsCounted-Same : (s u : Stream) → IsCounted s → Same s u → IsCounted u
IsCounted-Same s u h e = record { used = ground arith; live = ground arith; unused = ground arith }

shut_or_open : (s : Stream) → IsCounted s → 0 < s.open_count → s.is_open ≡ true
shut_or_open s h used = ground arith

-- A thread goes from `p` to `q`.
count_moved :
    (ps before behind : List Position) (p q : Position)
    → ps ≡ before ++ (p ∷ behind)
    → count_inside (before ++ (q ∷ behind)) + count_inside (p ∷ [])
      ≡ count_inside ps + count_inside (q ∷ [])
count_moved ps before behind p q e = omega (
  arith,
  ap count_inside e,
  count_inside-append before (p ∷ behind),
  count_inside-append before (q ∷ behind),
  count_inside-append (p ∷ []) behind,
  count_inside-append (q ∷ []) behind,
)

module _ (Bound : Bool → Type 0) (n : ℕ) (t : System) (h : IsHeld Bound n t) where
  entered :
      (bound : Bool) (now : ℕ) (before behind : List Position)
      → Bound bound
      → t.threads ≡ before ++ (starting ∷ behind)
      → IsHeld Bound n (record t {
        stream = Stream.enter bound t.stream;
        threads = before ++ (inside now false ∷ behind);
      })
  unfolding Users.use_stream
  entered bound now before behind b e =
      let (same_port, more) = enter_more bound t.stream h.counted in
      let moved = count_moved t.threads before behind starting (inside now false) e in
      record {
        counted = use_stream-IsCounted (Users.enter bound) t.stream h.counted;
        port = omega (arith, same_port, h.port);
        most = omega (arith, h.most);
        exact = λ o. omega (
          arith,
          h.exact o,
          enter_exact bound t.stream h.counted (o.bound bound b) (omega (arith, o.low, h.port))
              (omega (arith, o.high, h.port)),
        );
      }

  left :
      (last : ℕ) (lost : Bool) (before behind : List Position)
      → t.threads ≡ before ++ (inside last lost ∷ behind)
      → IsHeld Bound n
          (record t { stream = Stream.exit t.stream; threads = before ++ (ended ∷ behind) })
  unfolding Users.use_stream
  left last lost before behind e =
      let (same_port, less) = exit_less t.stream in
      let moved = count_moved t.threads before behind (inside last lost) ended e in
      record {
        counted = use_stream-IsCounted Users.exit t.stream h.counted;
        port = omega (arith, same_port, h.port);
        most = omega (arith, h.most);
        exact = λ o. omega (arith, h.exact o);
      }

  gone_round :
      (datagrams : List (Bytes × Text)) (s : Sensor) (last last' : ℕ) (lost lost' : Bool)
      (before behind : List Position)
      → t.threads ≡ before ++ (inside last lost ∷ behind)
      → IsHeld Bound n (record t {
        sensor = s;
        stream = (Stream.read datagrams t.stream).0;
        threads = before ++ (inside last' lost' ∷ behind);
      })
  gone_round datagrams s last last' lost lost' before behind e =
      let same = read-Same datagrams t.stream in
      let moved = count_moved t.threads before behind (inside last lost) (inside last' lost') e in
      record {
        counted = IsCounted-Same t.stream _ h.counted same;
        port = omega (arith, same.port, h.port);
        most = omega (arith, h.most, same.open_count);
        exact = λ o. omega (arith, same.open_count, h.exact o);
      }

  on_sensor : (s : Sensor) (lock : Lock) → IsHeld Bound n (record t { sensor = s; lock = lock })
  on_sensor s lock = record { port = h.port; counted = h.counted; most = h.most; exact = h.exact }

  started :
      (s : Sensor) (lock : Lock)
      → IsHeld Bound n (record t { sensor = s; threads = t.threads ++ starting ∷ []; lock = lock })
  started s lock = record {
    port = h.port;
    counted = h.counted;
    most = omega (arith, h.most, count_inside-append t.threads (starting ∷ []));
    exact = λ o. omega (arith, h.exact o, count_inside-append t.threads (starting ∷ []));
  }

Step-IsHeld :
    {Bound : Bool → Type 0} {n : ℕ} {t u : System}
    → Step Bound t u
    → IsHeld Bound n t
    → IsHeld Bound n u
unfolding round
Step-IsHeld (start auto_reconnect t f s b) h = started _ _ t h _ _
Step-IsHeld (not_started auto_reconnect t f s b) h = on_sensor _ _ t h _ _
Step-IsHeld (opened t f o) h = on_sensor _ _ t h _ _
Step-IsHeld (timed_out t f) h = on_sensor _ _ t h _ _
Step-IsHeld (enter bound now before behind t b e) h = entered _ _ t h bound now before behind b e
Step-IsHeld (go_round datagrams now after last lost before behind t e g) h =
    gone_round _ _ t h datagrams _ last _ lost _ before behind e
Step-IsHeld (leave last lost before behind t e g) h = left _ _ t h last lost before behind e
Step-IsHeld (request m t) h = on_sensor _ _ t h _ _
Step-IsHeld (take now t) h = on_sensor _ _ t h _ _
Step-IsHeld (take_batch now t) h = on_sensor _ _ t h _ _
Step-IsHeld (clear now t) h = on_sensor _ _ t h _ _
Step-IsHeld (stop t f e) h = on_sensor _ _ t h _ _
Step-IsHeld (stop_failed x t f e) h = on_sensor _ _ t h _ _
Step-IsHeld (joined t f e) h = on_sensor _ _ t h _ _

Steps-IsHeld :
    {Bound : Bool → Type 0} {n : ℕ} {t u : System}
    → IsHeld Bound n t
    → Steps Bound t u
    → IsHeld Bound n u
Steps-IsHeld h here = h
Steps-IsHeld h (next steps step) = Step-IsHeld step (Steps-IsHeld h steps)

module _ (lookup : Text → Option Text) (port : ℕ) (source_host : Option Text) (s : Sensor) where
  initial-IsHeld :
      (Bound : Bool → Type 0) → IsHeld Bound port (initial s (Stream.new lookup port source_host))
  unfolding Stream.new
  initial-IsHeld Bound = record {
    port = refl;
    counted = ground arith;
    most = omega arith;
    exact = λ o. refl;
  }

  -- From a new driver, however its threads, its callers and the outcomes of `bind` interleave: an
  -- open stream has an update thread within its `with`, and a socket that was not closed.
  pub open_is_used :
      (t : System)
      → Steps (λ b. Unit {0}) (initial s (Stream.new lookup port source_host)) t
      → t.stream.is_open ≡ true
      → (0 < count_inside t.threads) × (t.stream.socket_closed ≡ false)
  open_is_used t steps o =
      let h = Steps-IsHeld (initial-IsHeld (λ b. Unit {0})) steps in
      (omega (arith, h.most, h.counted.used o), h.counted.live o)

  -- From a new driver whose port the stream takes and whose `bind` always succeeds, however its
  -- threads and its callers interleave: as long as an update thread is within its `with`, the
  -- stream is open, whichever threads have left it, and it counts just the threads within.
  pub used_is_open :
      (t : System)
      → 1024 ≤ port
      → port ≤ 65535
      → Steps (λ b. b ≡ true) (initial s (Stream.new lookup port source_host)) t
      → 0 < count_inside t.threads
      → (t.stream.is_open ≡ true) × (t.stream.open_count ≡ count_inside t.threads)
  used_is_open t low high steps used =
      let h = Steps-IsHeld (initial-IsHeld (λ b. b ≡ true)) steps in
      let count = h.exact (record { bound = λ b e. e; low = low; high = high }) in
      (shut_or_open t.stream h.counted (omega arith), count)
