-- ===== src/Node/Publish/Runs.antt =====
-- A run of the publishing thread while the sensor is OK.
use schunk_fts_ros.Base.{
  ℕ, ◌+◌, ◌*◌, ◌≡◌, ◌∙◌, Bool, true, false, Option, some, List, [], ◌∷◌, ◌++◌, Text, if◌then◌else◌,
  ok, arith,
}
use mathlib.Core.List.{append-nil, append_assoc}
use schunk_fts_ros.Packet.{FtSample}
use schunk_fts_ros.Node.{Event, ok_level, status_level_from_bits, counter_delta}
use schunk_fts_ros.Node.Publish.{
  Node, Moment, on_restored, track_counter, is_ok_level, set_base, publish_data, publish_state,
  handle_samples, publish_round,
}
use schunk_fts_ros.Node.Publish.Rounds.{messages, data_events, stamp_for, state_events, round_ok}

-- A packet, as its first sample and the others, with the clocks at its round.
pub record Arrival : Type 0 where
  pub first : FtSample
  pub rest : List FtSample
  pub moment : Moment

-- The rounds of the thread, up to its end.
unfoldable pub publish_rounds : List Arrival → Node → Node × Bool
publish_rounds [] n = (n, true)
publish_rounds (a ∷ arrivals) n =
    let (m, going) = publish_round (ok (some (a.first ∷ a.rest))) a.moment n in
    let rest = publish_rounds arrivals m in if going then rest else (m, false)

-- The connection is not lost, the base is set, the data publisher is there, and the state OK has
-- been published.
pub record IsSettled (n : Node) : Type 0 where
  pub not_lost : n.connection_lost ≡ false
  pub based : n.base_stamp_set ≡ true
  pub publisher : n.data_publisher ≡ true
  pub level : n.last_state_level ≡ some ok_level

abbrev pub are_ok : List Arrival → Bool
are_ok [] = true
are_ok (a ∷ arrivals) =
    if is_ok_level (status_level_from_bits a.first.status_bits) then are_ok arrivals else false

-- The messages for one packet after another, each stamped from the same base.
abbrev pub published : Bool → Text → ℕ → ℕ → Option ℕ → List Arrival → List Event
published batches name period base_stamp_ns base_counter [] = []
published batches name period base_stamp_ns base_counter (a ∷ arrivals) =
    messages batches name a.first a.rest
      (base_stamp_ns
        + counter_delta base_counter a.first.counter * (period * a.first.samples_per_packet))
      period
    ++ published batches name period base_stamp_ns base_counter arrivals

abbrev pub published_by : Node → List Arrival → List Event
published_by n =
    published n.publish_sample_batches n.name n.sample_period_ns n.base_stamp_ns n.base_counter

record HasBase (n m : Node) : Type 0 where
  name : m.name ≡ n.name
  period : m.sample_period_ns ≡ n.sample_period_ns
  batches : m.publish_sample_batches ≡ n.publish_sample_batches
  stamp : m.base_stamp_ns ≡ n.base_stamp_ns
  counter : m.base_counter ≡ n.base_counter

track_counter_keeps :
    (c : ℕ) (t : Moment) (n : Node)
    → IsSettled n
    → IsSettled (track_counter c t n) × HasBase n (track_counter c t n)
unfolding track_counter
track_counter_keeps c t n s = ground arith

-- Once the base is set it stays.
handle_keeps :
    (first : FtSample) (samples : List FtSample) (t : Moment) (n : Node)
    → IsSettled n
    → is_ok_level (status_level_from_bits first.status_bits) ≡ true
    → IsSettled (handle_samples first samples t n).0
      × HasBase n (handle_samples first samples t n).0
unfolding handle_samples set_base publish_data publish_state
handle_keeps first samples t n s h = ground arith

round_keeps :
    (first : FtSample) (rest : List FtSample) (t : Moment) (n : Node)
    → IsSettled n
    → is_ok_level (status_level_from_bits first.status_bits) ≡ true
    → IsSettled (publish_round (ok (some (first ∷ rest))) t n).0
      × HasBase n (publish_round (ok (some (first ∷ rest))) t n).0
unfolding publish_round on_restored
round_keeps first rest t n s h = ground (
  arith,
  track_counter_keeps first.counter t n s,
  handle_keeps first (first ∷ rest) t (track_counter first.counter t n),
)

no_state :
    (first : FtSample) (t : Moment) (n : Node)
    → IsSettled n
    → is_ok_level (status_level_from_bits first.status_bits) ≡ true
    → state_events first t n ≡ []
no_state first t n s h = ground arith

round_settled :
    (first : FtSample) (rest : List FtSample) (t : Moment) (n : Node)
    → IsSettled n
    → is_ok_level (status_level_from_bits first.status_bits) ≡ true
    → ((publish_round (ok (some (first ∷ rest))) t n).0.events
        ≡ n.events
          ++ messages n.publish_sample_batches n.name first rest
              (n.base_stamp_ns
                + counter_delta n.base_counter first.counter
                  * (n.sample_period_ns * first.samples_per_packet))
              n.sample_period_ns)
      × ((publish_round (ok (some (first ∷ rest))) t n).1 ≡ true)
round_settled first rest t n s h = ground (
  arith,
  round_ok first rest t n s.not_lost h s.publisher,
  no_state first t n s h,
  append-nil (data_events first rest (stamp_for first t n) n),
)

published_by-HasBase :
    (n m : Node) (arrivals : List Arrival)
    → HasBase n m
    → published_by m arrivals ≡ published_by n arrivals
published_by-HasBase n m arrivals b =
    λ i. published (b.batches i) (b.name i) (b.period i) (b.stamp i) (b.counter i) arrivals

-- While every packet has an OK status, and with a connection that is not lost, a base that is set,
-- a data publisher, and OK as the state that was published last: the thread publishes every packet
-- once, in the order of arrival, with all stamps counted from that base; nothing else is
-- published, and the thread goes on.
pub rounds_publish :
    (arrivals : List Arrival) (n : Node)
    → IsSettled n
    → are_ok arrivals ≡ true
    → ((publish_rounds arrivals n).0.events ≡ n.events ++ published_by n arrivals)
      × ((publish_rounds arrivals n).1 ≡ true)
unfolding publish_rounds
rounds_publish [] n s h = ground (arith, append-nil n.events)
rounds_publish (a ∷ arrivals) n s h =
    let first_ok : is_ok_level (status_level_from_bits a.first.status_bits) ≡ true = ground arith in
    let rest_ok : are_ok arrivals ≡ true = ground arith in
    let m = (publish_round (ok (some (a.first ∷ a.rest))) a.moment n).0 in
    let (steady, base) = round_keeps a.first a.rest a.moment n s first_ok in
    let (sent, going) = round_settled a.first a.rest a.moment n s first_ok in
    let (later, on) = rounds_publish arrivals m steady rest_ok in
    rw going
      (later ∙ rw (sent, published_by-HasBase n m arrivals base) (append_assoc n.events _ _), on)
