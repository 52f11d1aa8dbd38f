-- ===== src/Node/Publish/Malformed.antt =====
-- Packets that the decoder refuses, as the publishing thread meets them.
use schunk_fts_ros.Base.{
  ℕ, ◌≡◌, refl, ◌∙◌, ap, suc, map, Bool, Bool-cases, inl, inr, true, false, none, some, List, [],
  ◌∷◌, Bytes, length, if◌then◌else◌, ◌==◌, ◌&&◌, Result, ok, err, arith,
}
use schunk_fts_ros.Packet.{FtSample, FtData, decode_packet, decode_sample_batch}
use schunk_fts_ros.Packet.Agree.{sample_of, samples_of, decoders_agree}
use schunk_fts_ros.Packet.Total.{is_packet, stated_length, ok_length, length-decode_packet}
use schunk_fts_ros.Buffer.{Buffer, some_batch, get_sample_batch}
use schunk_fts_ros.Node.{status_level_from_bits}
use schunk_fts_ros.Node.Publish.{
  Node, Moment, publish_data, handle_samples, is_ok_level, set_base, track_counter, on_restored,
  packet_stamp_ns, publish_round,
}
use schunk_fts_ros.Node.Publish.Rounds.{publish_samples-messages}

length-map : {A B : Type 0} (f : A → B) (xs : List A) → length (map f xs) ≡ length xs
length-map f [] = refl
length-map f (x ∷ xs) = ap suc (length-map f xs)

length-samples_of : (r : Result (List FtData)) → ok_length (samples_of r) ≡ ok_length r
length-samples_of (ok ds) = ap some (length-map sample_of ds)
length-samples_of (err e) = refl

publish_data_goes_on :
    (first : FtSample) (rest : List FtSample) (n : Node)
    → (publish_data first (first ∷ rest) n).1 ≡ true
unfolding publish_data
publish_data_goes_on first rest n =
    rw
      (publish_samples-messages n.publish_sample_batches n.name first rest (packet_stamp_ns first n)
        n.sample_period_ns)
      (ground arith)

handle_samples_goes_on :
    (first : FtSample) (rest : List FtSample) (t : Moment) (n : Node)
    → (handle_samples first (first ∷ rest) t n).1 ≡ true
unfolding handle_samples
handle_samples_goes_on first rest t n =
    let judged : Node = record n {
      is_sensor_ok = is_ok_level (status_level_from_bits first.status_bits);
    } in
    rw (publish_data_goes_on first rest (set_base first t judged)) refl

round_of :
    (r : Result (List FtSample)) (p packed : Bool) (t : Moment) (n : Node)
    → ok_length r ≡ (if p then some (if packed then 16 else 1) else none)
    → ((publish_round (some_batch r) t n).1 ≡ p)
      × (p ≡ false → (publish_round (some_batch r) t n).0 ≡ n)
unfolding publish_round some_batch
round_of (err e) p packed t n h = ground arith
round_of (ok []) p packed t n h = ground arith
round_of (ok (s ∷ rest)) p packed t n h =
    ground (arith, handle_samples_goes_on s rest t (track_counter s.counter t (on_restored n)))

length-decode_sample_batch :
    (bs : Bytes)
    → ok_length (decode_sample_batch bs)
      ≡ (if is_packet bs then some (if stated_length bs == 449 then 16 else 1) else none)
length-decode_sample_batch bs =
    ap ok_length (decoders_agree bs)
    ∙ length-samples_of (decode_packet bs)
    ∙ length-decode_packet bs

-- One round on a queue with a packet at its head.
round_on_packet :
    (packet : Bytes) (rest : List Bytes) (now : ℕ) (t : Moment) (b : Buffer) (n : Node)
    → b.queue ≡ packet ∷ rest
    → let (b', r) = get_sample_batch now b in
      (b'.queue ≡ rest)
      × ((publish_round r t n).1 ≡ is_packet packet)
      × (is_packet packet ≡ false → (publish_round r t n).0 ≡ n)
unfolding get_sample_batch
round_on_packet packet rest now t b n q =
    let (goes, same) =
      round_of (decode_sample_batch packet) (is_packet packet) (stated_length packet == 449) t n
        (length-decode_sample_batch packet) in
    rw q (refl, goes, same)

-- The clock values of one round.
pub record Tick : Type 0 where
  pub now : ℕ
  pub moment : Moment

-- The rounds of the thread on the buffer of a streaming driver, each if the one before it goes on.
abbrev pub take_rounds : List Tick → Buffer → Node → Buffer × Node × Bool
take_rounds [] b n = (b, n, true)
take_rounds (tick ∷ ticks) b n =
    let (b', r) = get_sample_batch tick.now b in
    let (n', going) = publish_round r tick.moment n in
    elim going [ true ↦ take_rounds ticks b' n' | false ↦ (b', n', false) ]

abbrev pub all_packets : List Bytes → Bool
all_packets [] = true
all_packets (p ∷ ps) = is_packet p && all_packets ps

-- What stands behind the first byte string that is no packet.
abbrev pub behind : List Bytes → List Bytes
behind [] = []
behind (p ∷ ps) = if is_packet p then behind ps else ps

rounds_on :
    (queue : List Bytes) (ticks : List Tick) (b : Buffer) (n : Node)
    → b.queue ≡ queue
    → length ticks ≡ length queue
    → ((take_rounds ticks b n).0.queue ≡ behind queue)
      × ((take_rounds ticks b n).2 ≡ all_packets queue)
rounds_on [] [] b n q h = (q, refl)
rounds_on [] (tick ∷ ticks) b n q h = absurd (omega arith)
rounds_on (p ∷ ps) [] b n q h = absurd (omega arith)
rounds_on (p ∷ ps) (tick ∷ ticks) b n q h =
    let (b', r) = get_sample_batch tick.now b in
    let n' = (publish_round r tick.moment n).0 in
    let (left, goes, _) = round_on_packet p ps tick.now tick.moment b n q in
    let rest = rounds_on ps ticks b' n' left (ground (arith, h)) in
    rw (take_rounds, goes)
      (elim (Bool-cases (is_packet p)) [
        | inl packet ↦ rw packet rest
        | inr other ↦ rw other (left, refl)
      ])

-- On the buffer of a streaming driver, with a round for every byte string in its queue, and none
-- that comes in meanwhile, the thread goes on exactly if every one is a packet by its length and
-- the payload length that it states; else it ends with the first that is not, and everything behind
-- that one is left in the queue.
pub queue_ends_thread :
    (ticks : List Tick) (b : Buffer) (n : Node)
    → length ticks ≡ length b.queue
    → ((take_rounds ticks b n).0.queue ≡ behind b.queue)
      × ((take_rounds ticks b n).2 ≡ all_packets b.queue)
queue_ends_thread ticks b n h = rounds_on b.queue ticks b n refl h
