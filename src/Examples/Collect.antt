-- ===== src/Examples/Collect.antt =====
-- The theorems on what the scanner reads, on examples.
use schunk_fts_ros.Base.{
  ◌≡◌, refl, arith, Option, some, none, List, [], ◌∷◌, ◌++◌, map, Text, codes,
}
use mathlib.Core.List.Memᴰ.{head, tail}
use schunk_fts_ros.Strings.{contains, is_blank, partition}
use schunk_fts_ros.Strings.Sets.{are_distinct}
use schunk_fts_ros.Scanner.{Dependency}
use schunk_fts_ros.Scanner.Requirement.{is_name_char, is_version_char, parse_requirement_string}
use schunk_fts_ros.Scanner.Requirement.Form.{Form, IsForm, print}
use schunk_fts_ros.Scanner.Requirement.Printed.{parse-print}
use schunk_fts_ros.Scanner.Sources.Setup.{Node, call, other_node, attribute, sequence}
use schunk_fts_ros.Scanner.Sources.Cargo.{extract_cargo_lock_deps}
use schunk_fts_ros.Scanner.Score.{to_decimal, last_number, fetch_ghsa_cvss_score}
use schunk_fts_ros.Scanner.Score.Page.{out_of, shown_number, fetch_ghsa_cvss_score-shown}
use schunk_fts_ros.Scanner.Web.{Web}
use schunk_fts_ros.Scanner.Scan.{Repository}
use schunk_fts_ros.Scanner.Sources.Cargo.Blocks.{Crate}
use schunk_fts_ros.Scanner.Sources.Cargo.Lock.{IsLock, lock, dependency_of, extract-lock}

abbrev dependency : Text → Text → Dependency
dependency name source = record {
  name = name;
  version = [];
  ecosystem = codes "PyPI";
  source = source;
  upstream_repo = [];
}

-- One package, found in two files, and another.
abbrev pub found : List Dependency
found =
    dependency (codes "numpy") (codes "a/setup.py")
    ∷ dependency (codes "numpy") (codes "b/setup.py")
    ∷ dependency (codes "lark") (codes "b/setup.py")
    ∷ []

-- `requests[security] >= 2.31, <3`
abbrev requests_form : Form
requests_form = record {
  before = codes " ";
  name = codes "requests";
  extra = some (codes "security");
  gap = codes " ";
  op = codes ">=";
  gap' = codes " ";
  version = codes "2.31";
  rest = codes ", <3";
}

requests_form-IsForm : IsForm requests_form
unfolding is_name_char is_version_char is_blank
requests_form-IsForm = record {
  before_blank = refl;
  name_chars = refl;
  name_nonempty = refl;
  extra_inner = refl;
  gap_blank = refl;
  operator = tail (head refl);
  gap'_space = refl;
  version_chars = refl;
  version_nonempty = refl;
  no_equals = refl;
  rest_stops = refl;
}

parse-print_example :
    parse_requirement_string (print requests_form) ≡ (codes "requests", codes "2.31")
parse-print_example = parse-print requests_form requests_form-IsForm

-- What the parser gives for a call of `setup`, whatever the text.
abbrev pub parse : Text → Option (List Node)
parse t = some (
    other_node
    ∷ call (attribute (codes "setup"))
        ((codes "install_requires", sequence (some (codes "numpy==2.2.6") ∷ none ∷ [])) ∷ [])
    ∷ [])

-- A repository with a package of each ecosystem.
abbrev pub files : Repository
files = record {
  setup_py = (codes "a/setup.py", some (codes "setup(...)")) ∷ (codes "b/setup.py", none) ∷ [];
  cargo_lock =
      (codes "Cargo.lock", some (codes "[[package]]\nname = \"tokio\"\nversion = \"1.45.0\"\n"))
      ∷ [];
  package_xml =
      (
        codes "package.xml",
        some ((codes "depend", some (codes "rclpy")) ∷ (codes "depend", none) ∷ []),
      )
      ∷ [];
}

abbrev tokio : Crate
tokio = record { name = codes "tokio"; version = codes "1.45.0"; rest = codes "\n" }

abbrev serde : Crate
serde = record { name = codes "serde"; version = codes "1.0.219"; rest = [] }

abbrev lock_header : Text
lock_header = codes "version = 4\n"

two_crates-IsLock : IsLock lock_header (tokio ∷ serde ∷ [])
unfolding partition contains are_distinct
two_crates-IsLock = record {
  free = (refl, (refl, (refl, tt)));
  values = refl;
  distinct = refl;
  external = refl;
}

extract-lock_example :
    extract_cargo_lock_deps
      ((codes "Cargo.lock", some (lock lock_header (tokio ∷ serde ∷ []))) ∷ [])
    ≡ map (dependency_of (codes "Cargo.lock")) (tokio ∷ serde ∷ [])
extract-lock_example =
    extract-lock (codes "Cargo.lock") lock_header (tokio ∷ serde ∷ []) two_crates-IsLock

-- The page of an advisory, up to the score, and from it on.
abbrev page_start : Text
page_start = codes "<td>7.0</td> <b>CVSS</b> <span"

abbrev page_end : Text
page_end = codes " base score"

abbrev pages : Web
pages = record {
  page = λ id. some (
      (page_start ++ b'>' ∷ shown_number (codes "8") (codes "1") (codes "/span> "))
      ++ (out_of ++ page_end));
  entry = λ t. none;
  advisories = λ ecosystem repo. none;
  repo_advisories = λ repo. none;
  batch = λ qs. none;
  vuln = λ t. none;
}

first_out_of :
    partition out_of (page_start ++ b'>' ∷ shown_number (codes "8") (codes "1") (codes "/span> "))
    ≡ none
unfolding partition
first_out_of = refl

no_other_number : last_number (codes "/span> ") ≡ none
unfolding last_number
no_other_number = refl

fetch_ghsa_cvss_score-shown_example :
    fetch_ghsa_cvss_score pages (codes "GHSA-1") ≡ some (to_decimal (codes "8") (codes "1"))
fetch_ghsa_cvss_score-shown_example =
    fetch_ghsa_cvss_score-shown pages (codes "GHSA-1") page_start (codes "8") (codes "1")
      (codes "/span> ") page_end refl first_out_of refl refl no_other_number (omega arith)
