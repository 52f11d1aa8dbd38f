-- ===== src/Buffer.antt =====
-- Class `FTDataBuffer` of schunk_fts_library/schunk_fts_library/utility.py. A method takes the
-- clock value that `time.monotonic()` returns in it, in nanoseconds. A blocking
-- `queue.get(timeout=0.1)` is the look at the queue at the end of the wait: packets that the
-- producer puts meanwhile are puts before the call. The printed warning is its flag.
pub mod Bounds
pub mod Samples
pub mod Batches
use schunk_fts_ros.Base.{
  ℕ, ◌+◌, Bool, true, false, ◌&&◌, Option, none, some, List, [], ◌∷◌, ◌++◌, Bytes, ltb, leb,
  if◌then◌else◌, length, Result, ok, err, index_error,
}
use schunk_fts_ros.Packet.{Reading, FtData, FtSample, decode_packet, decode_sample_batch}

abbrev pub second : ℕ
second = 1000000000

pub record Buffer : Type 0 where
  pub maxsize : ℕ
  pub queue : List Bytes
  pub pending_samples : List FtData
  pub last_packet_time : ℕ
  pub no_data_warning_printed : Bool
  pub dropped_packet_count : ℕ

-- `__init__`
unfoldable pub new : ℕ → ℕ → Buffer
new maxsize now = record {
  maxsize = maxsize;
  queue = [];
  pending_samples = [];
  last_packet_time = now;
  no_data_warning_printed = false;
  dropped_packet_count = 0;
}

-- `__len__`
unfoldable pub len : Buffer → ℕ
len b = length b.queue + length b.pending_samples

unfoldable pub clear : ℕ → Buffer → Buffer
clear now b = record b { queue = []; pending_samples = []; last_packet_time = now }

-- `Queue.full()`: a `Queue` of `maxsize` 0 has no bound.
abbrev pub is_full : Buffer → Bool
is_full b = ltb 0 b.maxsize && leb b.maxsize (length b.queue)

unfoldable pub put : Bytes → Buffer → Buffer
put packet b =
    if is_full b
    then record b { dropped_packet_count = b.dropped_packet_count + 1 }
    else record b { queue = b.queue ++ packet ∷ []; no_data_warning_printed = false }

abbrev pub zero_reading : Reading
zero_reading = record { status_bits = 0; fx = 0; fy = 0; fz = 0; tx = 0; ty = 0; tz = 0 }

-- What `get` returns after a second with no packet.
abbrev pub no_signal : FtData
no_signal = record {
  sync = [];
  counter = 0;
  payload = 0;
  id = 0;
  reading = zero_reading;
  sample_index = none;
  samples_per_packet = none;
}

-- What `get_sample_batch` returns then.
abbrev pub no_signal_sample : FtSample
no_signal_sample = record {
  counter = 0;
  packet_id = 0;
  sample_index = 0;
  samples_per_packet = 1;
  reading = zero_reading;
}

-- The handler of `Empty`, in both methods.
unfoldable pub on_empty {ℓ} : {A : Type ℓ} → A → ℕ → Buffer → Buffer × Result (Option A)
on_empty sentinel now b =
    if ltb (b.last_packet_time + second) now
    then (record b { no_data_warning_printed = true }, ok (some sentinel))
    else (b, ok none)

-- The lines of `get` after `decode_packet`.
unfoldable pub take_samples : Result (List FtData) → Buffer → Buffer × Result (Option FtData)
take_samples (err e) b = (b, err e)
take_samples (ok []) b = (b, err index_error)
take_samples (ok (s ∷ rest)) b =
    (record b { pending_samples = b.pending_samples ++ rest }, ok (some s))

unfoldable pub get_packet : List Bytes → ℕ → Buffer → Buffer × Result (Option FtData)
unfolding on_empty take_samples
get_packet [] now b = on_empty no_signal now b
get_packet (packet ∷ queue) now b =
    take_samples (decode_packet packet) (record b { queue = queue; last_packet_time = now })

unfoldable pub get_pending : List FtData → ℕ → Buffer → Buffer × Result (Option FtData)
unfolding get_packet
get_pending [] now b = get_packet b.queue now b
get_pending (s ∷ rest) now b =
    (record b { pending_samples = rest; last_packet_time = now }, ok (some s))

unfoldable pub get : ℕ → Buffer → Buffer × Result (Option FtData)
unfolding get_pending
get now b = get_pending b.pending_samples now b

unfoldable pub some_batch : Result (List FtSample) → Result (Option (List FtSample))
some_batch (err e) = err e
some_batch (ok samples) = ok (some samples)

unfoldable pub batch_packet : List Bytes → ℕ → Buffer → Buffer × Result (Option (List FtSample))
unfolding on_empty some_batch
batch_packet [] now b = on_empty (no_signal_sample ∷ []) now b
batch_packet (packet ∷ queue) now b =
    (record b { queue = queue; last_packet_time = now }, some_batch (decode_sample_batch packet))

unfoldable pub get_sample_batch : ℕ → Buffer → Buffer × Result (Option (List FtSample))
unfolding batch_packet
get_sample_batch now b = batch_packet b.queue now b
