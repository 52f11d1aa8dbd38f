-- ===== src/Buffer/Samples.antt =====
-- The buffer as a queue of samples: what was put comes out of `get`, in order, once each.
use mathlib.Core.List.{append_assoc, append-nil}
use schunk_fts_ros.Base.{
  ℕ, ◌+◌, ◌≤◌, ◌<◌, ◌≡◌, refl, sym, ap, ap₂, ◌∙◌, true, false, Option, some, List, [], ◌∷◌, ◌++◌,
  map, Bytes, All, length, length-append, ◌==◌, if◌then◌else◌, Result, ok, err, arith,
}
use schunk_fts_ros.Packet.{FtData, decode_packet}
use schunk_fts_ros.Packet.Total.{is_packet, stated_length, ok_length, length-decode_packet}
use schunk_fts_ros.Buffer.{Buffer, new, put, get, get_pending, get_packet}

abbrev pub IsPacket : Bytes → Type 0
IsPacket bs = is_packet bs ≡ true

abbrev ok_or_nil : Result (List FtData) → List FtData
ok_or_nil (ok ds) = ds
ok_or_nil (err e) = []

-- The samples in a list of packets.
abbrev pub samples_in : List Bytes → List FtData
samples_in [] = []
samples_in (p ∷ ps) = ok_or_nil (decode_packet p) ++ samples_in ps

-- The samples that a buffer still has to give.
abbrev pub contents : Buffer → List FtData
contents b = b.pending_samples ++ samples_in b.queue

ok_length-cons :
    (n : ℕ) (r : Result (List FtData))
    → ok_length r ≡ some n
    → 0 < n
    → (d : FtData) × (ds : List FtData) × (r ≡ ok (d ∷ ds))
ok_length-cons n (ok []) h p = ground arith
ok_length-cons n (ok (d ∷ ds)) h p = (d, ds, refl)
ok_length-cons n (err e) h p = ground arith

decode_packet-cons :
    (p : Bytes) → IsPacket p → (d : FtData) × (ds : List FtData) × (decode_packet p ≡ ok (d ∷ ds))
decode_packet-cons p h =
    ok_length-cons (if stated_length p == 449 then 16 else 1) (decode_packet p)
      (length-decode_packet p ∙ rw h) (ground arith)

-- One `get` gave `d`, and left `ds` in the buffer.
abbrev Gives : FtData → List FtData → Buffer × Result (Option FtData) → Type 0
Gives d ds r = (r.1 ≡ ok (some d)) × (contents r.0 ≡ ds) × All IsPacket r.0.queue

module _ (now : ℕ) (d : FtData) (ds : List FtData) where
  packet_next :
      (queue : List Bytes) (b : Buffer)
      → All IsPacket queue
      → b.pending_samples ≡ []
      → samples_in queue ≡ d ∷ ds
      → Gives d ds (get_packet queue now b)
  unfolding get_packet
  packet_next [] b h n e = cc
  packet_next (p ∷ queue) b (hp, hq) n e =
      let (s, rest, q) = decode_packet-cons p hp in let e' = rw q at e in ground (arith, q, e')

  pending_next :
      (pending : List FtData) (b : Buffer)
      → All IsPacket b.queue
      → b.pending_samples ≡ pending
      → pending ++ samples_in b.queue ≡ d ∷ ds
      → Gives d ds (get_pending pending now b)
  unfolding get_pending
  pending_next [] b h n e = packet_next b.queue b h n e
  pending_next (s ∷ rest) b h n e = (cc, cc, h)

  get_next : (b : Buffer) → All IsPacket b.queue → contents b ≡ d ∷ ds → Gives d ds (get now b)
  unfolding get
  get_next b h e = pending_next b.pending_samples b h refl e

-- The results of `get` at successive clock values.
unfoldable pub drain : List ℕ → Buffer → List (Result (Option FtData))
drain [] b = []
drain (now ∷ nows) b = (get now b).1 ∷ drain nows (get now b).0

unfoldable pub puts : List Bytes → Buffer → Buffer
puts [] b = b
puts (p ∷ ps) b = puts ps (put p b)

drain-contents :
    (nows : List ℕ) (ds : List FtData) (b : Buffer)
    → All IsPacket b.queue
    → contents b ≡ ds
    → length nows ≡ length ds
    → drain nows b ≡ map (λ d. ok (some d)) ds
unfolding drain
drain-contents [] [] b h e n = refl
drain-contents [] (d ∷ ds) b h e n = absurd (omega arith)
drain-contents (now ∷ nows) [] b h e n = absurd (omega arith)
drain-contents (now ∷ nows) (d ∷ ds) b h e n =
    let (given, left, valid) = get_next now d ds b h e in
    ap₂ ◌∷◌ given (drain-contents nows ds (get now b).0 valid left (omega arith))

samples_in-append : (ps qs : List Bytes) → samples_in (ps ++ qs) ≡ samples_in ps ++ samples_in qs
samples_in-append [] qs = refl
samples_in-append (p ∷ ps) qs =
    ap (λ (ds : List FtData). ok_or_nil (decode_packet p) ++ ds) (samples_in-append ps qs)
    ∙ sym (append_assoc (ok_or_nil (decode_packet p)) (samples_in ps) (samples_in qs))

All-append {ℓ} :
    {A : Type ℓ} (P : A → Type 0) (xs ys : List A) → All P xs → All P ys → All P (xs ++ ys)
All-append P [] ys h k = k
All-append P (x ∷ xs) ys (hx, hxs) k = (hx, All-append P xs ys hxs k)

put_room :
    (p : Bytes) (b : Buffer)
    → length b.queue < b.maxsize
    → put p b ≡ record b { queue = b.queue ++ p ∷ []; no_data_warning_printed = false }
unfolding put
put_room p b h = ground arith

-- With room for all, `puts` appends the packets to the queue.
pub queue-puts :
    (ps : List Bytes) (b : Buffer)
    → length b.queue + length ps ≤ b.maxsize
    → ((puts ps b).queue ≡ b.queue ++ ps) × ((puts ps b).pending_samples ≡ b.pending_samples)
unfolding puts
queue-puts [] b h = (sym (append-nil b.queue), refl)
queue-puts (p ∷ ps) b h =
    let b' : Buffer = record b { queue = b.queue ++ p ∷ []; no_data_warning_printed = false } in
    let (q, r) = queue-puts ps b' (omega (arith, length-append b.queue (p ∷ []))) in
    rw (put_room p b (omega arith), puts) (q ∙ append_assoc b.queue (p ∷ []) ps, r)

-- A producer's packets come out of `get` as their samples, in the order of the packets and
-- within a packet in the order of the measurements, none lost and none twice, if the packets
-- are well formed and the queue has room for them.
pub drain-puts :
    (maxsize now : ℕ) (ps : List Bytes) (nows : List ℕ)
    → All IsPacket ps
    → length ps ≤ maxsize
    → length nows ≡ length (samples_in ps)
    → drain nows (puts ps (new maxsize now)) ≡ map (λ d. ok (some d)) (samples_in ps)
unfolding new
drain-puts maxsize now ps nows h room n =
    let (q, p) = queue-puts ps (new maxsize now) (omega arith) in
    drain-contents nows (samples_in ps) (puts ps (new maxsize now)) (rw q h) (rw (p, q)) n
