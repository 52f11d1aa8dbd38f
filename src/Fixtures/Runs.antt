-- ===== src/Fixtures/Runs.antt =====
-- The processes that the fixture leaves behind.
use schunk_fts_ros.Base.{
  ℕ, ◌≡◌, refl, Bool, true, false, not, ◌&&◌, Option, none, some, List, [], ◌∷◌, Text, arith,
  if◌then◌else◌,
}
use schunk_fts_ros.Fixtures.{ci_dummy, Host, Environment, sensor, offer_dummy, choose, teardown}

-- Whether FTS_HOST and FTS_PORT are set.
abbrev pub configured : Option Text → Option (Option ℕ) → Bool
configured (some ip) (some port) = true
configured _ _ = false

-- Nothing answers on the port of the simulator, neither before nor after the simulator of the
-- continuous integration was started.
abbrev pub silent : List Bool → Bool
silent [] = true
silent (b ∷ []) = not b
silent (b ∷ c ∷ bs) = not b && not c

abbrev pub leaks : Environment → Host → Bool
leaks e h = not (configured e.fts_host e.fts_port) && (e.ci_exists && silent h.answers)

dummy_leaks :
    (e : Environment) (answers : List Bool) (h : Host)
    → h.answers ≡ answers
    → (teardown (offer_dummy e h)).running
      ≡ (if e.ci_exists && silent answers then ci_dummy ∷ h.running else h.running)
unfolding teardown offer_dummy
dummy_leaks e [] h a = ground arith
dummy_leaks e (b ∷ []) h a = ground arith
dummy_leaks e (b ∷ c ∷ []) h a = ground arith
dummy_leaks e (b ∷ c ∷ d ∷ r) h a = ground arith

choose_leaks :
    (host : Option Text) (port : Option (Option ℕ)) (e : Environment) (h : Host)
    → (teardown (choose host port e h)).running ≡ (
        if not (configured host port) && (e.ci_exists && silent h.answers)
        then ci_dummy ∷ h.running
        else h.running)
unfolding teardown choose
choose_leaks none none e h = dummy_leaks e h.answers h refl
choose_leaks none (some port) e h = dummy_leaks e h.answers h refl
choose_leaks (some ip) none e h = dummy_leaks e h.answers h refl
choose_leaks (some ip) (some none) e h = refl
choose_leaks (some ip) (some (some port)) e h = ground arith

-- The fixture ends every process that it starts, but for one case: no sensor is configured, the
-- simulator of the continuous integration is there, and it does not answer once it was started.
pub sensor_leaks :
    (e : Environment) (h : Host)
    → (teardown (sensor e h)).running ≡ (if leaks e h then ci_dummy ∷ h.running else h.running)
unfolding sensor
sensor_leaks e h = choose_leaks e.fts_host e.fts_port e h
