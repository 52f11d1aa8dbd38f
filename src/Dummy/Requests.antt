-- ===== src/Dummy/Requests.antt =====
-- What the simulator answers to each request.
use schunk_fts_ros.Base.{
  ℕ, ◌≡◌, refl, not, Option, none, some, [], ◌∷◌, Bytes, length, Result, ok, err, arith, ◌+◌, ◌%◌,
  ltb, leb, ◌==◌, get_elem?, is_ok, if◌then◌else◌,
}
use schunk_fts_ros.Packet.{item}
use schunk_fts_ros.Dummy.{
  OutputRateMode, Session, process, dispatch, get_parameter, set_parameter, set_rate,
  handle_request, answer, param_index_of,
}

-- The last byte that the simulator reads without a test of the length.
abbrev pub last_read : Option ℕ → ℕ
last_read none = 6
last_read (some command_id) = if command_id == 0xf0 then 9 else if command_id == 0xf1 then 9 else 6

-- What a message comes to for its connection: the task returns, it panics, or it answers.
pub data Outcome : Type 0 where
  closed panicked answered : Outcome

abbrev pub outcome : Result (Option Bytes) → Outcome
outcome (err e) = panicked
outcome (ok none) = closed
outcome (ok (some bs)) = answered

-- From the length and the command alone.
abbrev pub expected : Bytes → Outcome
expected msg =
    if ltb (length msg) 6
    then closed
    else if leb (length msg) (last_read (get_elem? msg 6))
    then panicked
    else answered

abbrev pub counter_after : Outcome → ℕ → ℕ
counter_after answered c = (c + 1) % 65536
counter_after closed c = c
counter_after panicked c = c

process-panics :
    (msg : Bytes) (m : OutputRateMode)
    → is_ok (process msg m).1 ≡ not (leb (length msg) (last_read (get_elem? msg 6)))
unfolding process item dispatch get_parameter set_parameter param_index_of set_rate
process-panics [] m = refl
process-panics (a0 ∷ []) m = refl
process-panics (a0 ∷ a1 ∷ []) m = refl
process-panics (a0 ∷ a1 ∷ a2 ∷ []) m = refl
process-panics (a0 ∷ a1 ∷ a2 ∷ a3 ∷ []) m = refl
process-panics (a0 ∷ a1 ∷ a2 ∷ a3 ∷ a4 ∷ []) m = refl
process-panics (a0 ∷ a1 ∷ a2 ∷ a3 ∷ a4 ∷ a5 ∷ []) m = refl
process-panics (a0 ∷ a1 ∷ a2 ∷ a3 ∷ a4 ∷ a5 ∷ c ∷ []) m = ground arith
process-panics (a0 ∷ a1 ∷ a2 ∷ a3 ∷ a4 ∷ a5 ∷ c ∷ b7 ∷ []) m = ground arith
process-panics (a0 ∷ a1 ∷ a2 ∷ a3 ∷ a4 ∷ a5 ∷ c ∷ b7 ∷ b8 ∷ []) m = ground arith
process-panics (a0 ∷ a1 ∷ a2 ∷ a3 ∷ a4 ∷ a5 ∷ c ∷ b7 ∷ b8 ∷ b9 ∷ []) m = ground arith
process-panics (a0 ∷ a1 ∷ a2 ∷ a3 ∷ a4 ∷ a5 ∷ c ∷ b7 ∷ b8 ∷ b9 ∷ b10 ∷ rest) m = ground arith

outcome-answer :
    (s : Session) (r : OutputRateMode × Result Bytes)
    → let o = if is_ok r.1 then answered else panicked in
      (outcome (answer s r).1 ≡ o) × ((answer s r).0.counter ≡ counter_after o s.counter)
unfolding answer
outcome-answer s (m, ok p) = (refl, refl)
outcome-answer s (m, err e) = (refl, refl)

-- A message of less than six bytes ends the task of its connection quietly. A longer one brings
-- the task down by a panic exactly if it ends before the last byte that the simulator reads
-- unasked, the seventh, or for a parameter the tenth; and else it is answered. The counter of the
-- answers goes on, modulo 65536, exactly with an answer.
pub handle_request_lem :
    (msg : Bytes) (s : Session)
    → (outcome (handle_request msg s).1 ≡ expected msg)
      × ((handle_request msg s).0.counter ≡ counter_after (expected msg) s.counter)
unfolding handle_request
handle_request_lem msg s =
    ground (arith, outcome-answer s (process msg s.output_rate), process-panics msg s.output_rate)
