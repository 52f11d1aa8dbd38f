-- ===== src/Buffer/Batches.antt =====
-- The buffer as a queue of packets: the way by which the node takes its samples.
use schunk_fts_ros.Base.{
  ℕ, ◌≤◌, ◌≡◌, refl, ap₂, Option, List, [], ◌∷◌, map, Bytes, length, Result, arith,
}
use schunk_fts_ros.Packet.{FtSample, decode_sample_batch}
use schunk_fts_ros.Buffer.{Buffer, new, some_batch, get_sample_batch}
use schunk_fts_ros.Buffer.Samples.{puts, queue-puts}

-- The results of `get_sample_batch` at successive clock values.
unfoldable pub drain_batches : List ℕ → Buffer → List (Result (Option (List FtSample)))
drain_batches [] b = []
drain_batches (now ∷ nows) b =
    (get_sample_batch now b).1 ∷ drain_batches nows (get_sample_batch now b).0

-- What a packet's batch is, or the exception in its place.
abbrev pub batch_of : Bytes → Result (Option (List FtSample))
batch_of p = some_batch (decode_sample_batch p)

batch_next :
    (now : ℕ) (p : Bytes) (ps : List Bytes) (b : Buffer)
    → b.queue ≡ p ∷ ps
    → ((get_sample_batch now b).1 ≡ batch_of p) × ((get_sample_batch now b).0.queue ≡ ps)
unfolding get_sample_batch
batch_next now p ps b e = ground arith

drain_queue :
    (nows : List ℕ) (ps : List Bytes) (b : Buffer)
    → b.queue ≡ ps
    → length nows ≡ length ps
    → drain_batches nows b ≡ map batch_of ps
unfolding drain_batches
drain_queue [] [] b e n = refl
drain_queue [] (p ∷ ps) b e n = absurd (omega arith)
drain_queue (now ∷ nows) [] b e n = absurd (omega arith)
drain_queue (now ∷ nows) (p ∷ ps) b e n =
    let (given, left) = batch_next now p ps b e in
    ap₂ ◌∷◌ given (drain_queue nows ps (get_sample_batch now b).0 left (omega arith))

-- If the queue has room for them, a producer's packets come out of `get_sample_batch` one by one,
-- in their order: each call returns the batch of its packet, or raises what its packet makes the
-- decoder raise, and a packet that raises does not hold up the next.
pub drain_batches-puts :
    (maxsize now : ℕ) (ps : List Bytes) (nows : List ℕ)
    → length ps ≤ maxsize
    → length nows ≡ length ps
    → drain_batches nows (puts ps (new maxsize now)) ≡ map batch_of ps
unfolding new
drain_batches-puts maxsize now ps nows room n =
    let (q, _) = queue-puts ps (new maxsize now) (omega arith) in
    drain_queue nows ps (puts ps (new maxsize now)) q n
