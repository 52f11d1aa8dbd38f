-- ===== src/Packaging.antt =====
-- The packaging of the two Python packages: the calls of `setup` in schunk_fts_driver/setup.py and
-- schunk_fts_library/setup.py, as the scanner sees them. Of the nodes in the tree those that are no
-- calls are left out, which the scanner skips; of the values it reads lists and texts.
use schunk_fts_ros.Base.{
  ◌≡◌, refl, Bool, true, ◌&&◌, none, some, List, [], ◌∷◌, map, Text, codes, ◌==◌, All, arith,
}
use mathlib.Core.List.{Memᴰ}
use schunk_fts_ros.Strings.Strip.{all, stops}
use schunk_fts_ros.Scanner.Requirement.{is_name_char, is_version_char}
use schunk_fts_ros.Scanner.Requirement.Form.{Form, IsForm, nonempty}
use schunk_fts_ros.Scanner.Sources.Setup.{
  Node, Value, call, plain, attribute, sequence, constant, other_value,
}
use schunk_fts_ros.Scanner.Sources.Setup.Pinned.{Script}

-- `name==version`
abbrev pub pinned : Text × Text → Form
pinned (name, version) = record {
  before = [];
  name = name;
  extra = none;
  gap = [];
  op = codes "==";
  gap' = [];
  version = version;
  rest = [];
}

-- `install_requires` of the driver.
abbrev pub driver_requires : List (Text × Text)
driver_requires =
    (codes "black", codes "26.5.1")
    ∷ (codes "certifi", codes "2026.6.17")
    ∷ (codes "charset-normalizer", codes "3.4.7")
    ∷ (codes "click", codes "8.4.2")
    ∷ (codes "exceptiongroup", codes "1.3.1")
    ∷ (codes "idna", codes "3.18")
    ∷ (codes "iniconfig", codes "2.3.0")
    ∷ (codes "lark", codes "1.3.1")
    ∷ (codes "mypy_extensions", codes "1.1.0")
    ∷ (codes "numpy", codes "2.2.6")
    ∷ (codes "packaging", codes "26.2")
    ∷ (codes "pathspec", codes "1.1.1")
    ∷ (codes "platformdirs", codes "4.10.0")
    ∷ (codes "pluggy", codes "1.6.0")
    ∷ (codes "pytest", codes "9.0.2")
    ∷ (codes "pytest-repeat", codes "0.9.4")
    ∷ (codes "PyYAML", codes "6.0.3")
    ∷ (codes "requests", codes "2.34.2")
    ∷ (codes "tomli", codes "2.4.1")
    ∷ (codes "typing_extensions", codes "4.15.0")
    ∷ (codes "urllib3", codes "2.7.0")
    ∷ []

abbrev pub library_requires : List (Text × Text)
library_requires = (codes "requests", codes "2.34.2") ∷ (codes "psutil", codes "7.2.2") ∷ []

abbrev texts : List Text → Value
texts ts = sequence (map (λ (t : Text). some t) ts)

-- `packages=find_packages(exclude=[…])`
abbrev find_packages : Node
find_packages = call (plain (codes "find_packages")) (
    (
      codes "exclude",
      texts (
          codes "test" ∷ codes "test.*" ∷ codes "tests" ∷ codes "*.tests" ∷ codes "*.tests.*" ∷ []),
    )
    ∷ [])

abbrev join_path : Node
join_path = call (attribute (codes "join")) []

abbrev glob_files : Node
glob_files = call (plain (codes "glob")) []

abbrev pub driver_setup : Script
driver_setup = record {
  before = [];
  callee = plain (codes "setup");
  keywords =
      (codes "name", other_value)
      ∷ (codes "version", constant (codes "0.0.0"))
      ∷ (codes "packages", other_value)
      ∷ (codes "data_files", sequence (none ∷ none ∷ none ∷ none ∷ []))
      ∷ [];
  forms = map pinned driver_requires;
  more_keywords =
      (codes "zip_safe", other_value)
      ∷ (codes "maintainer", constant (codes "Fabian Reinwald"))
      ∷ (codes "maintainer_email", constant (codes "fabian.reinwald@de.schunk.com"))
      ∷ (codes "description", constant (codes "ROS2 driver for SCHUNK's force-torque sensors"))
      ∷ (codes "license", constant (codes "GPL-3.0-or-later"))
      ∷ (codes "tests_require", texts (codes "pytest" ∷ []))
      ∷ (codes "entry_points", other_value)
      ∷ [];
  behind = find_packages ∷ join_path ∷ join_path ∷ glob_files ∷ [];
}

abbrev pub library_setup : Script
library_setup = record {
  before = [];
  callee = plain (codes "setup");
  keywords =
      (codes "name", other_value)
      ∷ (codes "version", constant (codes "0.0.1"))
      ∷ (codes "packages", other_value)
      ∷ (codes "include_package_data", other_value)
      ∷ (codes "data_files", sequence (none ∷ none ∷ none ∷ []))
      ∷ [];
  forms = map pinned library_requires;
  more_keywords =
      (codes "zip_safe", other_value)
      ∷ (codes "author", constant (codes "Stefan Scherzinger"))
      ∷ (codes "author_email", constant (codes "stefan.scherzinger@de.schunk.com"))
      ∷ (codes "maintainer", constant (codes "Fabian Reinwald"))
      ∷ (codes "maintainer_email", constant (codes "fabian.reinwald@de.schunk.com"))
      ∷ (
        codes "description",
        constant (codes "Low-level driver library for SCHUNK's force-torque sensors"),
      )
      ∷ (codes "license", constant (codes "GPL-3.0-or-later"))
      ∷ (codes "tests_require", texts (codes "pytest" ∷ codes "coverage" ∷ []))
      ∷ (codes "entry_points", other_value)
      ∷ [];
  behind = find_packages ∷ join_path ∷ glob_files ∷ [];
}

abbrev pub is_pin : Text × Text → Bool
is_pin (name, version) =
    all is_name_char name
    && (nonempty name
        && (all is_version_char version && (nonempty version && stops (λ c. b'=' == c) version)))

abbrev pub are_pins : List (Text × Text) → Bool
are_pins [] = true
are_pins (p ∷ ps) = is_pin p && are_pins ps

-- A pin is a requirement that is read back.
pub pinned-IsForm : (p : Text × Text) → is_pin p ≡ true → IsForm (pinned p)
pinned-IsForm (name, version) h = record {
  before_blank = refl;
  name_chars = ground arith;
  name_nonempty = ground arith;
  extra_inner = refl;
  gap_blank = refl;
  operator = Memᴰ.head refl;
  gap'_space = refl;
  version_chars = ground arith;
  version_nonempty = ground arith;
  no_equals = ground arith;
  rest_stops = refl;
}

pub pinned-All : (ps : List (Text × Text)) → are_pins ps ≡ true → All IsForm (map pinned ps)
pinned-All [] h = tt
pinned-All (p ∷ ps) h = (pinned-IsForm p (ground arith), pinned-All ps (ground arith))
