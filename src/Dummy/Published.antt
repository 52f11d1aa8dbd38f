-- ===== src/Dummy/Published.antt =====
-- From the simulator's stream to the messages of the node.
use schunk_fts_ros.Base.{
  ℕ, suc, ◌+◌, ◌-◌, ◌*◌, ◌%◌, ◌≤◌, ◌<◌, ◌≡◌, refl, ap, ap₂, ◌∙◌, true, Option, some, List, [], ◌∷◌,
  ◌++◌, length, map, arith,
}
use schunk_fts_ros.Packet.{FtSample}
use schunk_fts_ros.Node.{Event, counter_delta, status_level_from_bits}
use schunk_fts_ros.Node.Publish.{Node, Moment}
use schunk_fts_ros.Node.Publish.Rounds.{messages}
use schunk_fts_ros.Node.Publish.Runs.{
  Arrival, publish_rounds, IsSettled, are_ok, published_by, rounds_publish,
}
use schunk_fts_ros.Dummy.{OutputRateMode}
use schunk_fts_ros.Dummy.Udp
use schunk_fts_ros.Dummy.Udp.{Wave, sample, round}
use schunk_fts_ros.Dummy.Arrive.{sample_at, batch_from, batches}

-- One packet of the simulator with the clocks of the node at its round.
abbrev pub arrival : Wave → OutputRateMode → ℕ → Moment → Udp.Stream → Arrival
arrival wave m elapsed t s = record {
  first = sample_at wave elapsed s m.samples_per_packet 0;
  rest = batch_from wave elapsed s m.samples_per_packet (m.samples_per_packet - 1) 1;
  moment = t;
}

delta_of :
    (o : Option ℕ) (base k c : ℕ)
    → o ≡ some base
    → base < 65536
    → c ≡ (base + k) % 65536
    → k < 65536
    → counter_delta o c ≡ k
unfolding counter_delta
delta_of o base k c b low e few = ap (λ (q : Option ℕ). counter_delta q c) b ∙ omega arith

module _ (wave : Wave) (m : OutputRateMode) where
  -- The packets of one round of the simulator after another.
  abbrev pub arrivals : List (ℕ × Moment) → Udp.Stream → List Arrival
  arrivals [] s = []
  arrivals ((elapsed, t) ∷ times) s =
      arrival wave m elapsed t s ∷ arrivals times (round wave m elapsed s).0

  -- Their messages, the k-th one stamped `k` packet periods behind the base.
  abbrev pub timed : Node → ℕ → List (ℕ × Moment) → Udp.Stream → List Event
  timed n k [] s = []
  timed n k ((elapsed, t) ∷ times) s =
      messages n.publish_sample_batches n.name (sample_at wave elapsed s m.samples_per_packet 0)
        (batch_from wave elapsed s m.samples_per_packet (m.samples_per_packet - 1) 1)
        (n.base_stamp_ns + k * (n.sample_period_ns * m.samples_per_packet)) n.sample_period_ns
      ++ timed n (k + 1) times (round wave m elapsed s).0

  arrivals-ok : (times : List (ℕ × Moment)) (s : Udp.Stream) → are_ok (arrivals times s) ≡ true
  unfolding sample status_level_from_bits
  arrivals-ok [] s = refl
  arrivals-ok ((elapsed, t) ∷ times) s = arrivals-ok times (round wave m elapsed s).0

  published-timed :
      (n : Node) (base k : ℕ) (times : List (ℕ × Moment)) (s : Udp.Stream)
      → n.base_counter ≡ some base
      → base < 65536
      → s.counter ≡ (base + k) % 65536
      → k + length times ≤ 65536
      → published_by n (arrivals times s) ≡ timed n k times s
  unfolding round
  published-timed n base k [] s b low c few = refl
  published-timed n base k ((elapsed, t) ∷ times) s b low c few =
      ap₂
        (λ (d : ℕ) (later : List Event).
          messages n.publish_sample_batches n.name (sample_at wave elapsed s m.samples_per_packet 0)
            (batch_from wave elapsed s m.samples_per_packet (m.samples_per_packet - 1) 1)
            (n.base_stamp_ns + d * (n.sample_period_ns * m.samples_per_packet)) n.sample_period_ns
          ++ later)
        (delta_of n.base_counter base k s.counter b low c (omega arith))
        (published-timed n base (k + 1) times (round wave m elapsed s).0 b low (omega arith)
          (omega arith))

-- The samples of an arrival, and when the simulator measured them.
abbrev pub samples_in : Arrival → List FtSample
samples_in a = a.first ∷ a.rest

abbrev pub measured : ℕ × Moment → ℕ
measured (elapsed, t) = elapsed

arrivals-batches :
    (wave : Wave) (m : OutputRateMode) (times : List (ℕ × Moment)) (s : Udp.Stream)
    → 0 < m.samples_per_packet
    → map samples_in (arrivals wave m times s) ≡ batches wave m (map measured times) s
arrivals-batches wave m [] s h = refl
arrivals-batches wave m ((elapsed, t) ∷ times) s h =
    let left : suc (m.samples_per_packet - 1) ≡ m.samples_per_packet = omega arith in
    ap₂ ◌∷◌ (ap (λ (n : ℕ). batch_from wave elapsed s m.samples_per_packet n 0) left)
      (arrivals-batches wave m times (round wave m elapsed s).0 h)

-- Let the node be settled, with `base` as the counter of its base packet, and let the batches of the
-- simulator, of one sample or more, come to it from the k-th packet behind the base on, and end
-- within 65536 packets of it. It publishes each of them once and in order, the samples as they were
-- measured, and stamps the j-th packet behind the base `j` packet periods later than the base;
-- nothing else is published, and the thread goes on.
pub simulator_published :
    (wave : Wave) (m : OutputRateMode) (n : Node) (base k : ℕ) (times : List (ℕ × Moment))
    (s : Udp.Stream)
    → 0 < m.samples_per_packet
    → IsSettled n
    → n.base_counter ≡ some base
    → base < 65536
    → s.counter ≡ (base + k) % 65536
    → k + length times ≤ 65536
    → (map samples_in (arrivals wave m times s) ≡ batches wave m (map measured times) s)
      × ((publish_rounds (arrivals wave m times s) n).0.events
          ≡ n.events ++ timed wave m n k times s)
      × ((publish_rounds (arrivals wave m times s) n).1 ≡ true)
simulator_published wave m n base k times s some_sample h b low c few =
    let (events, going) =
      rounds_publish (arrivals wave m times s) n h (arrivals-ok wave m times s) in
    (
      arrivals-batches wave m times s some_sample,
      events
          ∙ ap (λ (l : List Event). n.events ++ l)
              (published-timed wave m n base k times s b low c few),
      going,
    )
