-- ===== src/Launch.antt =====
-- The launch file schunk_fts_driver/launch/driver.launch.py, and the parameters that `__init__` of
-- the node in schunk_fts_driver/schunk_fts_driver/driver.py declares and reads. How ROS reads the
-- text of a launch argument as a value is the parameter `read`.
use schunk_fts_ros.Base.{ℕ, ◌≡◌, refl, List, [], ◌∷◌, Text, codes, arith}
use schunk_fts_ros.Strings.{find, or_else, show}

-- The value of a parameter.
pub data Value : Type 0 where
  text : Text → Value
  number : ℕ → Value

-- The launch arguments, each with its default value.
abbrev pub args : List (Text × Text)
args =
    (codes "host", codes "192.168.0.100")
    ∷ (codes "port", codes "82")
    ∷ (codes "streaming_port", codes "54843")
    ∷ (codes "output_rate", codes "1000")
    ∷ (codes "namespace", codes "schunk")
    ∷ []

-- `LaunchConfiguration(name)`, with the arguments that were given.
unfoldable pub launch_configuration : List (Text × Text) → Text → Text
launch_configuration given name = or_else (find name given) (or_else (find name args) [])

pub record NodeAction : Type 0 where
  pub package_name : Text
  pub namespace : Text
  pub executable : Text
  pub name : Text
  pub parameters : List (Text × Value)

module _ (read : Text → Value) where
  -- The node of `generate_launch_description`.
  unfoldable pub generate_launch_description : List (Text × Text) → NodeAction
  unfolding launch_configuration
  generate_launch_description given = record {
    package_name = codes "schunk_fts_driver";
    namespace = launch_configuration given (codes "namespace");
    executable = codes "driver.py";
    name = codes "fts";
    parameters =
        (codes "host", read (launch_configuration given (codes "host")))
        ∷ (codes "port", read (launch_configuration given (codes "port")))
        ∷ (codes "streaming_port", read (launch_configuration given (codes "streaming_port")))
        ∷ (codes "output_rate", text (launch_configuration given (codes "output_rate")))
        ∷ [];
  }

-- The arguments of `SensorDriver`.
pub record Arguments : Type 0 where
  pub host : Value
  pub port : Value
  pub streaming_port : Value
  pub output_rate : Text

-- `declare_parameter` and `get_parameter`.
unfoldable pub parameter : List (Text × Value) → Text → Value → Value
parameter overrides name default_value = or_else (find name overrides) default_value

-- `str(…)`
unfoldable pub to_text : Value → Text
to_text (text t) = t
to_text (number n) = show n

-- What `__init__` hands to `SensorDriver`.
unfoldable pub sensor_arguments : List (Text × Value) → Arguments
unfolding parameter to_text
sensor_arguments overrides = record {
  host = parameter overrides (codes "host") (text (codes "192.168.0.100"));
  port = parameter overrides (codes "port") (number 82);
  streaming_port = parameter overrides (codes "streaming_port") (number 54843);
  output_rate = to_text (parameter overrides (codes "output_rate") (text (codes "1000")));
}

-- What was given for an argument of the launch file, or the default.
abbrev pub given_or : List (Text × Text) → Text → Text → Text
given_or given name default_value = or_else (find name given) default_value

-- Whatever arguments the launch file is given, the driver is made with the host, the port and the
-- streaming port that were given, as ROS reads them, and with the very text of the output rate; in
-- the place of one that was not given stands its default. Where ROS reads the defaults as what they
-- say, these are also the driver's without the launch file.
pub launched :
    (read : Text → Value) (given : List (Text × Text))
    → read (codes "192.168.0.100") ≡ text (codes "192.168.0.100")
    → read (codes "82") ≡ number 82
    → read (codes "54843") ≡ number 54843
    → (sensor_arguments (generate_launch_description read given).parameters ≡ (record {
      host = read (given_or given (codes "host") (codes "192.168.0.100"));
      port = read (given_or given (codes "port") (codes "82"));
      streaming_port = read (given_or given (codes "streaming_port") (codes "54843"));
      output_rate = given_or given (codes "output_rate") (codes "1000");
    }))
      × (sensor_arguments (generate_launch_description read []).parameters ≡ sensor_arguments [])
unfolding sensor_arguments generate_launch_description find
launched read given h p s = (refl, ground (arith, h, p, s))
