-- ===== src/Lifecycle/Publishers.antt =====
-- A round of the publishing thread leaves its publishers alone.
use schunk_fts_ros.Base.{ℕ, ◌≡◌, none, some, Option, List, [], ◌∷◌, Result, ok, err, arith}
use schunk_fts_ros.Packet.{FtSample}
use schunk_fts_ros.Node.{Level, status_level_from_bits}
use schunk_fts_ros.Node.Publish.{
  Node, Moment, on_no_samples, on_restored, track_counter, is_ok_level, set_base, publish_data,
  publish_state, handle_samples, publish_round,
}

pub record HasSame (n m : Node) : Type 0 where
  pub data_publisher : m.data_publisher ≡ n.data_publisher
  pub state_publisher : m.state_publisher ≡ n.state_publisher

on_no_samples-HasSame : (n : Node) → HasSame n (on_no_samples n)
unfolding on_no_samples
on_no_samples-HasSame n = ground arith

on_restored-HasSame : (n : Node) → HasSame n (on_restored n)
unfolding on_restored
on_restored-HasSame n = ground arith

publish_data-HasSame :
    (first : FtSample) (samples : List FtSample) (n : Node)
    → HasSame n (publish_data first samples n).0
unfolding publish_data
publish_data-HasSame first samples n = ground arith

publish_state-HasSame :
    (level : Level) (bits : ℕ) (t : Moment) (n : Node) → HasSame n (publish_state level bits t n)
unfolding publish_state
publish_state-HasSame level bits t n = ground arith

handle_samples-HasSame :
    (first : FtSample) (samples : List FtSample) (t : Moment) (n : Node)
    → HasSame n (handle_samples first samples t n).0
unfolding handle_samples set_base
handle_samples-HasSame first samples t n =
    let judged : Node = record n {
      is_sensor_ok = is_ok_level (status_level_from_bits first.status_bits);
    } in
    let (n', going) = publish_data first samples (set_base first t judged) in
    ground (
      arith,
      publish_data-HasSame first samples (set_base first t judged),
      publish_state-HasSame (status_level_from_bits first.status_bits) first.status_bits t n',
    )

pub publish_round-HasSame :
    (r : Result (Option (List FtSample))) (t : Moment) (n : Node)
    → HasSame n (publish_round r t n).0
unfolding publish_round track_counter
publish_round-HasSame (err e) t n = ground arith
publish_round-HasSame (ok none) t n = on_no_samples-HasSame n
publish_round-HasSame (ok (some [])) t n = on_restored-HasSame n
publish_round-HasSame (ok (some (first ∷ rest))) t n =
    let n' = track_counter first.counter t (on_restored n) in
    ground (arith, on_restored-HasSame n, handle_samples-HasSame first (first ∷ rest) t n')
