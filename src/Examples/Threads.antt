-- ===== src/Examples/Threads.antt =====
-- The theorems on the update threads and on the wait for the stream, each on an example.
use schunk_fts_ros.Base.{
  ℕ, ◌+◌, ◌*◌, ◌<◌, ◌≡◌, refl, Bool, true, false, none, some, [], ◌∷◌, codes, arith,
}
use schunk_fts_ros.Connection
use schunk_fts_ros.Sensor.{Sensor, streaming_on}
use schunk_fts_ros.Sensor.Streaming.{Tells}
use schunk_fts_ros.Sensor.Wait.{sleep, start, Says, start_ends}
use schunk_fts_ros.Sensor.Threads
use schunk_fts_ros.Sensor.Threads.{System, Steps, Position, begin, initial}
use schunk_fts_ros.Sensor.Threads.Counted.{count_inside, open_is_used, used_is_open}
use schunk_fts_ros.Stream
use schunk_fts_ros.Examples.{network, sensor}

-- A driver that is not streaming, before a network that lets one connection through.
abbrev idle : Sensor
unfolding Connection.new
idle = record (sensor (network [] [] []) []) {
  connection = Connection.new (codes "fts") 82 (network (true ∷ []) [] []);
  is_streaming = false;
}

-- A stream that is never open, and a clock by which a sleep takes ten milliseconds.
abbrev never : ℕ → Bool
never i = false

abbrev clock : ℕ → ℕ
clock i = (i + 1) * sleep

start_ends_example :
    (b : Bool) × Says never clock (0 + 100000000) 0 b
    × (start 11 never clock (0 + 100000000) true idle ≡ some (streaming_on b true idle))
    × Tells (streaming_on b true idle)
start_ends_example = start_ends never clock 0 100000000 true idle (λ i. omega arith) (omega arith)

abbrev first : System
unfolding Stream.new
first = initial idle (Stream.new (λ host. none) 54843 none)

-- The first thread was started, and has entered the stream.
abbrev started : System
unfolding begin
started = record first {
  sensor = (begin true idle).0;
  threads = Position.starting ∷ [];
  lock = Threads.Lock.opening;
}

abbrev entered : System
unfolding Stream.enter
entered = record started {
  stream = Stream.enter true first.stream;
  threads = Position.inside 0 false ∷ [];
}

abbrev run : (Bound : Bool → Type 0) → Bound true → Steps Bound first entered
unfolding begin Connection.open_connection first idle entered
run Bound b =
    Threads.Steps.next
      (Threads.Steps.next Threads.Steps.here (Threads.Step.start true first refl refl refl))
      (Threads.Step.enter true 0 [] [] started b refl)

open_is_used_example : (0 < count_inside entered.threads) × (entered.stream.socket_closed ≡ false)
unfolding run first entered
open_is_used_example =
    open_is_used (λ host. none) 54843 none idle entered (run (λ b. Unit {0}) tt) refl

used_is_open_example :
    (entered.stream.is_open ≡ true) × (entered.stream.open_count ≡ count_inside entered.threads)
unfolding run first entered
used_is_open_example =
    used_is_open (λ host. none) 54843 none idle entered (omega arith) (omega arith)
      (run (λ b. b ≡ true) refl) (omega arith)
