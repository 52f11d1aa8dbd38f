-- ===== src/Examples/Session.antt =====
-- The theorems on the test fixture, each on an example.
use schunk_fts_ros.Base.{◌≡◌, true, false, none, some, [], ◌∷◌, codes}
use schunk_fts_ros.Fixtures.{Host, Environment, ci_dummy, sensor, teardown}
use schunk_fts_ros.Fixtures.Runs.{sensor_leaks}

abbrev environment : Environment
environment = record {
  fts_host = none;
  fts_port = some (some 82);
  real_host = codes "10.49.60.117";
  real_port = 82;
  ci_exists = true;
  dir_exists = true;
  binary_exists = false;
  cargo_found = true;
  build_succeeds = true;
}

-- Neither a simulator that runs nor the one that is started answers.
abbrev host : Host
host = record { answers = false ∷ false ∷ []; running = [] }

sensor_leaks_example : (teardown (sensor environment host)).running ≡ ci_dummy ∷ []
sensor_leaks_example = sensor_leaks environment host
