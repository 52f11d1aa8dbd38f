-- ===== src/Node/Publish/Quiet.antt =====
-- The steps of a round that publish nothing.
use schunk_fts_ros.Base.{ℕ, ◌≡◌, arith}
use schunk_fts_ros.Packet.{FtSample}
use schunk_fts_ros.Node.Publish.{Node, Moment, track_counter, set_base}

-- What the steps before publication leave alone.
pub record IsQuiet (n m : Node) : Type 0 where
  pub name : m.name ≡ n.name
  pub period : m.sample_period_ns ≡ n.sample_period_ns
  pub batches : m.publish_sample_batches ≡ n.publish_sample_batches
  pub data_publisher : m.data_publisher ≡ n.data_publisher
  pub state_publisher : m.state_publisher ≡ n.state_publisher
  pub last_level : m.last_state_level ≡ n.last_state_level
  pub ok_flag : m.is_sensor_ok ≡ n.is_sensor_ok
  pub events : m.events ≡ n.events

pub track_counter-IsQuiet : (c : ℕ) (t : Moment) (n : Node) → IsQuiet n (track_counter c t n)
unfolding track_counter
track_counter-IsQuiet c t n = ground arith

pub set_base-IsQuiet : (first : FtSample) (t : Moment) (n : Node) → IsQuiet n (set_base first t n)
unfolding set_base
set_base-IsQuiet first t n = ground arith
