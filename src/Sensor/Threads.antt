-- ===== src/Sensor/Threads.antt =====
-- Class `Driver` of schunk_fts_library/schunk_fts_library/driver.py with its stream and its update
-- threads: `streaming_on` as it starts a thread and as it goes on behind its wait, `_update` from
-- the `with` to its end, and the requests of other threads between the rounds.
pub mod Counted
use schunk_fts_ros.Base.{
  ℕ, Bool, true, false, ◌≡◌, refl, List, [], ◌∷◌, ◌++◌, Text, Bytes, Result, Error, ok, err,
  if◌then◌else◌, arith,
}
use schunk_fts_ros.Base.Act.{Act, modify, ◌>>=◌}
use schunk_fts_ros.Message.{Message}
use schunk_fts_ros.Commands.{stop_udp_stream}
use schunk_fts_ros.Connection
use schunk_fts_ros.Connection.{Connection}
use schunk_fts_ros.Stream
use schunk_fts_ros.Stream.{Stream}
use schunk_fts_ros.Sensor.{
  Sensor, on_connection, identify, streaming_on, streaming_off, close, sample, sample_batch,
  clear_samples,
}
use schunk_fts_ros.Sensor.Loop.{Loop, goes_on, iterate}

-- Where an update thread stands: before its `with self.stream`, inside with its two variables, or
-- at its end.
pub data Position : Type 0 where
  starting : Position
  inside : ℕ → Bool → Position
  ended : Position

-- Who holds `_streaming_lock` across a wait: nobody, `streaming_on` as it waits for the stream, or
-- `streaming_off` as it waits for the thread.
pub data Lock : Type 0 where
  free opening stopping : Lock

pub record System : Type 0 where
  pub sensor : Sensor
  pub stream : Stream
  pub threads : List Position
  pub lock : Lock

-- `streaming_on` up to its wait, and whether it started a thread.
unfoldable pub begin : Bool → Sensor → Sensor × Bool
begin auto_reconnect s =
    let (c, opened) = Connection.open_connection s.connection in
    if opened
    then (record s { connection = c; is_streaming = true; auto_reconnect = auto_reconnect }, true)
    else (record s { connection = c; is_streaming = false }, false)

-- `streaming_on` behind its wait.
unfoldable pub finish : Bool → Act Sensor Bool
finish stream_opens s =
    if stream_opens then identify s else (record s { is_streaming = false }, ok false)

-- The two are the whole.
pub streaming_on_lem :
    (stream_opens auto_reconnect : Bool) (s : Sensor)
    → s.is_streaming ≡ false
    → streaming_on stream_opens auto_reconnect s ≡ (
        let (s', started) = begin auto_reconnect s in
        if started then finish stream_opens s' else (s', ok false))
unfolding streaming_on begin finish
streaming_on_lem stream_opens auto_reconnect s h = ground arith

-- `streaming_off` up to its wait.
unfoldable pub halt : Act Sensor Unit
unfolding on_connection
halt = do
  _ ← on_connection stop_udp_stream
  modify (λ s. record s { auto_reconnect = false; is_streaming = false })

pub streaming_off_lem : (s : Sensor) → streaming_off s ≡ (do _ ← halt; modify close) s
unfolding streaming_off halt
streaming_off_lem s = ground arith

-- `self.stream_update_thread` is the last thread that was started.
unfoldable pub last_ended : List Position → Bool
last_ended [] = true
last_ended (starting ∷ []) = false
last_ended (inside last_packet_time connection_lost ∷ []) = false
last_ended (ended ∷ []) = true
last_ended (p ∷ q ∷ ps) = last_ended (q ∷ ps)

abbrev pub loop : ℕ → Bool → Sensor → Loop
loop last_packet_time connection_lost s = record {
  sensor = s;
  last_packet_time = last_packet_time;
  connection_lost = connection_lost;
}

-- A round of the `while`, with the datagrams that have come.
unfoldable pub round : List (Bytes × Text) → ℕ → ℕ → Loop → Stream → Loop × Stream
round datagrams now after l stream =
    let (stream', packets) = Stream.read datagrams stream in (iterate packets now after l, stream')

-- A step of the system: of the thread between `before` and `behind`, or of a caller. `Bound` says
-- which outcomes of `bind` are met.
pub data Step (Bound : Bool → Type 0) : System → System → Type 0 where
  start :
      (auto_reconnect : Bool) (t : System)
      → t.lock ≡ free
      → t.sensor.is_streaming ≡ false
      → (begin auto_reconnect t.sensor).1 ≡ true
      → Step Bound t (record t {
        sensor = (begin auto_reconnect t.sensor).0;
        threads = t.threads ++ starting ∷ [];
        lock = opening;
      })
  not_started :
      (auto_reconnect : Bool) (t : System)
      → t.lock ≡ free
      → t.sensor.is_streaming ≡ false
      → (begin auto_reconnect t.sensor).1 ≡ false
      → Step Bound t (record t { sensor = (begin auto_reconnect t.sensor).0 })
  opened :
      (t : System)
      → t.lock ≡ opening
      → t.stream.is_open ≡ true
      → Step Bound t (record t { sensor = (finish true t.sensor).0; lock = free })
  timed_out :
      (t : System)
      → t.lock ≡ opening
      → Step Bound t (record t { sensor = (finish false t.sensor).0; lock = free })
  enter :
      (bound : Bool) (now : ℕ) (before behind : List Position) (t : System)
      → Bound bound
      → t.threads ≡ before ++ (starting ∷ behind)
      → Step Bound t (record t {
        stream = Stream.enter bound t.stream;
        threads = before ++ (inside now false ∷ behind);
      })
  go_round :
      (datagrams : List (Bytes × Text)) (now after last_packet_time : ℕ) (connection_lost : Bool)
      (before behind : List Position) (t : System)
      → t.threads ≡ before ++ (inside last_packet_time connection_lost ∷ behind)
      → goes_on (loop last_packet_time connection_lost t.sensor) ≡ true
      → Step Bound t (
          let (l, stream') =
            round datagrams now after (loop last_packet_time connection_lost t.sensor) t.stream in
          record t {
            sensor = l.sensor;
            stream = stream';
            threads = before ++ (inside l.last_packet_time l.connection_lost ∷ behind);
          })
  leave :
      (last_packet_time : ℕ) (connection_lost : Bool) (before behind : List Position) (t : System)
      → t.threads ≡ before ++ (inside last_packet_time connection_lost ∷ behind)
      → goes_on (loop last_packet_time connection_lost t.sensor) ≡ false
      → Step Bound t
          (record t { stream = Stream.exit t.stream; threads = before ++ (ended ∷ behind) })
  request :
      (m : Act Connection Message) (t : System)
      → Step Bound t (record t { sensor = (on_connection m t.sensor).0 })
  take : (now : ℕ) (t : System) → Step Bound t (record t { sensor = (sample now t.sensor).0 })
  take_batch :
      (now : ℕ) (t : System) → Step Bound t (record t { sensor = (sample_batch now t.sensor).0 })
  clear : (now : ℕ) (t : System) → Step Bound t (record t { sensor = clear_samples now t.sensor })
  stop :
      (t : System)
      → t.lock ≡ free
      → (halt t.sensor).1 ≡ ok tt
      → Step Bound t (record t { sensor = (halt t.sensor).0; lock = stopping })
  stop_failed :
      (e : Error) (t : System)
      → t.lock ≡ free
      → (halt t.sensor).1 ≡ err e
      → Step Bound t (record t { sensor = (halt t.sensor).0 })
  joined :
      (t : System)
      → t.lock ≡ stopping
      → last_ended t.threads ≡ true
      → Step Bound t (record t { sensor = close t.sensor; lock = free })

pub data Steps (Bound : Bool → Type 0) (t : System) : System → Type 0 where
  here : Steps Bound t t
  next : {u v : System} → Steps Bound t u → Step Bound u v → Steps Bound t v

-- A new driver has a new stream and no thread.
abbrev pub initial : Sensor → Stream → System
initial s stream = record { sensor = s; stream = stream; threads = []; lock = free }
