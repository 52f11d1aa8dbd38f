-- ===== src/Node/Publish/Outage.antt =====
-- An outage, as the publishing thread sees it.
use schunk_fts_ros.Base.{
  ℕ, ◌+◌, ◌<◌, ◌≡◌, ◌∙◌, true, false, none, some, [], ◌∷◌, ◌++◌, codes, ok, arith,
}
use mathlib.Core.List.{append_assoc}
use schunk_fts_ros.Buffer.{Buffer, second, get_sample_batch, no_signal_sample}
use schunk_fts_ros.Node.{
  ok_level, warn_level, Event, state, status_level_from_bits, get_status_level,
}
use schunk_fts_ros.Node.Publish.{
  Node, Moment, status_for, on_no_samples, on_restored, publish_round, handle_samples,
  track_counter, set_base, publish_data, publish_state,
}

silent_batch :
    (b : Buffer) (now : ℕ)
    → b.queue ≡ []
    → b.last_packet_time + second < now
    → (get_sample_batch now b).1 ≡ ok (some (no_signal_sample ∷ []))
unfolding get_sample_batch
silent_batch b now q h = ground arith

-- The first round without samples after a good one publishes the loss, and the next ones publish
-- nothing and change nothing.
pub loss_reported_once :
    (t u : Moment) (n : Node)
    → n.connection_lost ≡ false
    → n.is_sensor_ok ≡ true
    → n.state_publisher ≡ true
    → let lost = (publish_round (ok none) t n).0 in
      (lost.events
        ≡ n.events ++ state warn_level (codes "Connection lost - attempting reconnection") ∷ [])
      × (lost.connection_lost ≡ true)
      × (publish_round (ok none) u lost ≡ (lost, true))
unfolding publish_round on_no_samples
loss_reported_once t u n c k p = ground arith

abbrev pub restored : Event
restored = state ok_level (codes "Connection restored")

-- The message for a zero status word.
abbrev pub not_ready : Moment → Event
not_ready t = state warn_level (get_status_level (status_for t.is_streaming 0)).1

silent_round :
    (t : Moment) (n : Node)
    → n.connection_lost ≡ true
    → n.state_publisher ≡ true
    → ((publish_round (ok (some (no_signal_sample ∷ []))) t n).0.events
        ≡ n.events ++ restored ∷ [] ++ not_ready t ∷ [])
      × ((publish_round (ok (some (no_signal_sample ∷ []))) t n).0.connection_lost ≡ false)
unfolding publish_round on_restored handle_samples track_counter set_base publish_data publish_state
    status_level_from_bits
silent_round t n lost p = ground arith

-- While the connection is lost, the first round after a second of silence publishes that the
-- connection is restored, with the level OK, though the queue is empty and no packet came; the
-- level is taken back by the next message, and the connection counts as restored.
pub silence_is_restored :
    (b : Buffer) (now : ℕ) (t : Moment) (n : Node)
    → b.queue ≡ []
    → b.last_packet_time + second < now
    → n.connection_lost ≡ true
    → n.state_publisher ≡ true
    → ((publish_round (get_sample_batch now b).1 t n).0.events
        ≡ n.events ++ (restored ∷ not_ready t ∷ []))
      × ((publish_round (get_sample_batch now b).1 t n).0.connection_lost ≡ false)
silence_is_restored b now t n q h lost p =
    rw (silent_batch b now q h)
      (let (e, c) = silent_round t n lost p in (e ∙ append_assoc n.events _ _, c))
