-- ===== src/Lifecycle/Runs.antt =====
-- What holds of the node over any run of its callbacks and of its thread. The order of the
-- callbacks is that of the managed nodes of ROS 2, which the base class keeps.
use schunk_fts_ros.Base.{
  ℕ, ◌+◌, ◌≡◌, refl, Bool, true, false, Option, none, if◌then◌else◌, Text, Result, ok, err, arith,
}
use schunk_fts_ros.Base.Act.{Act, continue}
use schunk_fts_ros.Connection.{Network}
use schunk_fts_ros.Status.{SensorStatus}
use schunk_fts_ros.Sensor.{Sensor, sample_batch, streaming_on, streaming_off, get_status}
use schunk_fts_ros.Node.Publish.{Moment}
use schunk_fts_ros.Lifecycle
use schunk_fts_ros.Lifecycle.{Lifecycle, all_services, thread_round, judge_status, on_sensor}
use schunk_fts_ros.Lifecycle.Publishers.{publish_round-HasSame}

-- The primary states of a managed node.
pub data Primary : Type 0 where
  unconfigured inactive active finalized : Primary

abbrev pub is_active : Primary → Bool
is_active active = true
is_active unconfigured = false
is_active inactive = false
is_active finalized = false

abbrev pub is_idle : Primary → Bool
is_idle unconfigured = true
is_idle inactive = true
is_idle active = false
is_idle finalized = false

-- A callback in a state that it is called in; a round of the thread while it is alive and the stop
-- event is clear; or whatever the driver's own thread and the services do to the driver meanwhile.
-- After `on_configure` and `on_cleanup` the node may be in any state that is not active, as their
-- results and exceptions have it.
pub data Step : Primary → Lifecycle → Primary → Lifecycle → Type 0 where
  configure :
      (p : Primary) (stream_opens : Bool) (now : ℕ) (l : Lifecycle)
      → is_active p ≡ false
      → Step unconfigured l p (Lifecycle.on_configure stream_opens now l).0
  activate : (now : ℕ) (l : Lifecycle) → Step inactive l active (Lifecycle.on_activate now l).0
  deactivate : (l : Lifecycle) → Step active l inactive (Lifecycle.on_deactivate l).0
  cleanup :
      (p : Primary) (l : Lifecycle)
      → is_active p ≡ false
      → Step inactive l p (Lifecycle.on_cleanup l).0
  shutdown : (p : Primary) (l : Lifecycle) → Step p l finalized (Lifecycle.on_shutdown l).0
  thread :
      (p : Primary) (now : ℕ) (t : Moment) (l : Lifecycle)
      → l.thread_alive ≡ true
      → l.stop_event ≡ false
      → Step p l p (thread_round now t l)
  driver : (p : Primary) (s : Sensor) (l : Lifecycle) → Step p l p (record l { sensor = s })

pub data Steps (p : Primary) (l : Lifecycle) : Primary → Lifecycle → Type 0 where
  here : Steps p l p l
  next : {q r : Primary} {m n : Lifecycle} → Steps p l q m → Step q m r n → Steps p l r n

-- The publishers and the services are there together: in the state active they are, in the states
-- unconfigured and inactive they are not. A live thread has them, with the stop event clear. Each
-- publisher that was ever created has its handle.
pub record IsConsistent (p : Primary) (l : Lifecycle) : Type 0 where
  pub state_publisher : l.node.state_publisher ≡ l.node.data_publisher
  pub services : l.services ≡ all_services l.node.data_publisher
  pub if_active : is_active p ≡ true → l.node.data_publisher ≡ true
  pub if_idle : is_idle p ≡ true → l.node.data_publisher ≡ false
  pub thread_publishes : l.thread_alive ≡ true → l.node.data_publisher ≡ true
  pub thread_goes_on : l.thread_alive ≡ true → l.stop_event ≡ false
  pub created :
      l.publishers_created ≡ (if l.data_handle then 1 else 0) + (if l.state_handle then 1 else 0)
  pub data_created : l.node.data_publisher ≡ true → l.data_handle ≡ true
  pub state_created : l.node.data_publisher ≡ true → l.state_handle ≡ true

with_sensor-IsConsistent :
    (p : Primary) (s : Sensor) (l : Lifecycle)
    → IsConsistent p l
    → IsConsistent p (record l { sensor = s })
with_sensor-IsConsistent p s l h = ground arith

-- An exception leaves what was reached.
continue-IsConsistent :
    {A B : Type 0}
    → (p : Primary) (r : Result A) (f : A → Act Lifecycle B) (l : Lifecycle)
    → ((a : A) → IsConsistent p (f a l).0)
    → IsConsistent p l
    → IsConsistent p (continue r f l).0
continue-IsConsistent p (ok a) f l step h = step a
continue-IsConsistent p (err e) f l step h = h

judge_status-IsConsistent :
    (p : Primary) (status : Option SensorStatus) (l : Lifecycle)
    → IsConsistent p l
    → IsConsistent p (judge_status status l).0
unfolding judge_status
judge_status-IsConsistent p status l h = ground arith

on_configure-IsConsistent :
    (p : Primary) (stream_opens : Bool) (now : ℕ) (l : Lifecycle)
    → IsConsistent p l
    → IsConsistent p (Lifecycle.on_configure stream_opens now l).0
unfolding Lifecycle.on_configure on_sensor
on_configure-IsConsistent p stream_opens now l h =
    let (s, r) = streaming_on stream_opens true l.sensor in
    continue-IsConsistent p r _ (record l { sensor = s })
      (λ _.
        let (s', r') = get_status none now s in
        continue-IsConsistent p r' judge_status (record l { sensor = s' })
          (λ status. judge_status-IsConsistent p status _ (with_sensor-IsConsistent p s' l h))
          (with_sensor-IsConsistent p s' l h))
      (with_sensor-IsConsistent p s l h)

on_cleanup-IsConsistent :
    (p : Primary) (l : Lifecycle) → IsConsistent p l → IsConsistent p (Lifecycle.on_cleanup l).0
unfolding Lifecycle.on_cleanup on_sensor
on_cleanup-IsConsistent p l h =
    let (s, r) = streaming_off l.sensor in
    continue-IsConsistent p r _ (record l { sensor = s }) (λ _. with_sensor-IsConsistent p s l h)
      (with_sensor-IsConsistent p s l h)

ends_idle :
    (p q : Primary) (l : Lifecycle)
    → is_idle p ≡ true
    → is_active q ≡ false
    → IsConsistent p l
    → IsConsistent q l
ends_idle p q l i a h = ground arith

thread_round-IsConsistent :
    (p : Primary) (now : ℕ) (t : Moment) (l : Lifecycle)
    → l.thread_alive ≡ true
    → l.stop_event ≡ false
    → IsConsistent p l
    → IsConsistent p (thread_round now t l)
unfolding thread_round
thread_round-IsConsistent p now t l alive clear h =
    let (s, r) = sample_batch now l.sensor in
    ground (arith, publish_round-HasSame r (record t { is_streaming = s.is_streaming }) l.node)

Step-IsConsistent :
    {p q : Primary} {l m : Lifecycle} → Step p l q m → IsConsistent p l → IsConsistent q m
unfolding Lifecycle.on_activate Lifecycle.on_deactivate Lifecycle.on_shutdown
Step-IsConsistent (configure q stream_opens now l a) h =
    ends_idle unconfigured q _ refl a (on_configure-IsConsistent unconfigured stream_opens now l h)
Step-IsConsistent (activate now l) h = ground arith
Step-IsConsistent (deactivate l) h = ground arith
Step-IsConsistent (cleanup q l a) h =
    ends_idle inactive q _ refl a (on_cleanup-IsConsistent inactive l h)
Step-IsConsistent (shutdown p l) h = ground arith
Step-IsConsistent (thread p now t l alive clear) h =
    thread_round-IsConsistent p now t l alive clear h
Step-IsConsistent (driver p s l) h = with_sensor-IsConsistent p s l h

new-IsConsistent :
    (node_name host : Text) (port : ℕ) (output_rate : Text) (now : ℕ) (net : Network)
    (l : Lifecycle)
    → Lifecycle.new node_name host port output_rate now net ≡ ok l
    → IsConsistent unconfigured l
unfolding Lifecycle.new
new-IsConsistent node_name host port output_rate now net l e = ground arith

-- From the node that `__init__` makes, over any run of its callbacks, in the order of a managed
-- node, of rounds of its thread, which may end by itself, and of changes to its driver: the
-- publishers and the services are there together, in the state active always and in the states
-- unconfigured and inactive never; a thread that is alive has them, with the stop event clear, so
-- that `on_activate` never finds one; and a publisher is created at most once each.
pub Steps-IsConsistent :
    (node_name host : Text) (port : ℕ) (output_rate : Text) (now : ℕ) (net : Network)
    (l : Lifecycle) (q : Primary) (m : Lifecycle)
    → Lifecycle.new node_name host port output_rate now net ≡ ok l
    → Steps unconfigured l q m
    → IsConsistent q m
Steps-IsConsistent node_name host port output_rate now net l q m e here =
    new-IsConsistent node_name host port output_rate now net l e
Steps-IsConsistent node_name host port output_rate now net l q m e
      (next {q = q'} {m = m'} steps step) =
    Step-IsConsistent step
      (Steps-IsConsistent node_name host port output_rate now net l q' m' e steps)
