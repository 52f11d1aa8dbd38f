-- ===== src/Fixtures.antt =====
-- The session fixture `sensor` of schunk_fts_library/schunk_fts_library/fixtures.py: which sensor
-- the tests run against, and what becomes of the simulator that it starts. What each call of
-- `sensor_available_at` answers is a script; the loop of that function is in Reach.
pub mod Reach
pub mod Runs
use schunk_fts_ros.Base.{
  ℕ, Bool, true, false, not, ◌&&◌, Option, none, some, List, [], ◌∷◌, Text, codes, if◌then◌else◌,
}

-- A program that the fixture starts.
pub data Program : Type 0 where
  ci_dummy workspace_dummy : Program

-- `running` are the processes that were started and have not ended, the last one first.
pub record Host : Type 0 where
  pub answers : List Bool
  pub running : List Program

-- The variables FTS_HOST and FTS_PORT, the latter as `int` reads it, where `some none` is no
-- number, and what the file system and cargo say.
pub record Environment : Type 0 where
  pub fts_host : Option Text
  pub fts_port : Option (Option ℕ)
  pub real_host : Text
  pub real_port : ℕ
  pub ci_exists : Bool
  pub dir_exists : Bool
  pub binary_exists : Bool
  pub cargo_found : Bool
  pub build_succeeds : Bool

pub data Kind : Type 0 where
  env dummy_running dummy_ci dummy_workspace real : Kind

pub record Offer : Type 0 where
  pub ip : Text
  pub port : ℕ
  pub kind : Kind
  pub process : Option Program

-- `raised` is an exception of `int` or of the build; `pytest.skip` raises as well.
pub data Outcome : Type 0 where
  offered : Offer → Outcome
  skipped raised : Outcome

unfoldable pub take_answer : List Bool → Host → Host × Bool
take_answer [] h = (h, false)
take_answer (b ∷ bs) h = (record h { answers = bs }, b)

-- A call of `sensor_available_at`.
unfoldable pub sensor_available : Host → Host × Bool
unfolding take_answer
sensor_available h = take_answer h.answers h

-- `subprocess.Popen`
unfoldable pub start : Program → Host → Host
start p h = record h { running = p ∷ h.running }

unfoldable pub remove : Program → List Program → List Program
remove p [] = []
remove ci_dummy (ci_dummy ∷ ps) = ps
remove ci_dummy (workspace_dummy ∷ ps) = workspace_dummy ∷ remove ci_dummy ps
remove workspace_dummy (ci_dummy ∷ ps) = ci_dummy ∷ remove workspace_dummy ps
remove workspace_dummy (workspace_dummy ∷ ps) = ps

-- `process.kill()`, and `process.terminate()` with its wait and, if that is not enough, a kill.
unfoldable pub kill : Program → Host → Host
unfolding remove
kill p h = record h { running = remove p h.running }

abbrev pub dummy : Kind → Option Program → Outcome
dummy kind process =
    offered (record { ip = codes "127.0.0.1"; port = 8082; kind = kind; process = process })

-- `start_workspace_dummy` behind its tests of the files.
unfoldable pub try_workspace : Host → Host × Option Program
unfolding sensor_available start kill
try_workspace h =
    let (h', reached) = sensor_available (start workspace_dummy h) in
    if reached then (h', some workspace_dummy) else (kill workspace_dummy h', none)

-- `start_workspace_dummy`; `none` is an exception of the build.
unfoldable pub start_workspace_dummy : Environment → Host → Host × Option (Option Program)
unfolding try_workspace
start_workspace_dummy e h =
    if e.dir_exists
    then if e.binary_exists
      then (let (h', p) = try_workspace h in (h', some p))
      else if e.cargo_found
      then if e.build_succeeds then (let (h', p) = try_workspace h in (h', some p)) else (h, none)
      else (h, some none)
    else (h, some none)

-- The branches of `sensor`, from the last one to the first.
unfoldable pub offer_real : Environment → Host → Host × Outcome
unfolding sensor_available
offer_real e h =
    let (h', reached) = sensor_available h in
    if reached
    then (
      h',
      offered (record { ip = e.real_host; port = e.real_port; kind = real; process = none }),
    )
    else (h', skipped)

unfoldable pub after_workspace : Environment → Host × Option (Option Program) → Host × Outcome
unfolding offer_real
after_workspace e (h, none) = (h, raised)
after_workspace e (h, some none) = offer_real e h
after_workspace e (h, some (some p)) = (h, dummy dummy_workspace (some p))

unfoldable pub offer_ci : Host → Host × Outcome
unfolding sensor_available start
offer_ci h =
    let (h', reached) = sensor_available (start ci_dummy h) in
    if reached then (h', dummy dummy_ci (some ci_dummy)) else (h', skipped)

unfoldable pub offer_dummy : Environment → Host → Host × Outcome
unfolding sensor_available offer_ci after_workspace start_workspace_dummy
offer_dummy e h =
    let (h', reached) = sensor_available h in
    if reached
    then (h', dummy dummy_running none)
    else if e.ci_exists
    then offer_ci h'
    else after_workspace e (start_workspace_dummy e h')

unfoldable pub offer_configured : Text → Option ℕ → Host → Host × Outcome
unfolding sensor_available
offer_configured ip none h = (h, raised)
offer_configured ip (some port) h =
    let (h', reached) = sensor_available h in
    if reached
    then (h', offered (record { ip = ip; port = port; kind = env; process = none }))
    else (h', skipped)

unfoldable pub choose : Option Text → Option (Option ℕ) → Environment → Host → Host × Outcome
unfolding offer_configured offer_dummy
choose (some ip) (some port) e h = offer_configured ip port h
choose (some ip) none e h = offer_dummy e h
choose none port e h = offer_dummy e h

-- `sensor` up to its `yield`, and behind it.
unfoldable pub sensor : Environment → Host → Host × Outcome
unfolding choose
sensor e h = choose e.fts_host e.fts_port e h

unfoldable pub stop_process : Option Program → Host → Host
unfolding kill
stop_process none h = h
stop_process (some p) h = kill p h

unfoldable pub teardown : Host × Outcome → Host
unfolding stop_process
teardown (h, offered o) = stop_process o.process h
teardown (h, skipped) = h
teardown (h, raised) = h
