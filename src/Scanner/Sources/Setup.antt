-- ===== src/Scanner/Sources/Setup.antt =====
-- The Python dependencies: from `_extract_string_list` to `extract_setup_py_deps` of
-- security/cve_scanner.py. The parser of Python is the parameter `parse`: what the code looks at in
-- its tree is the list of the nodes, in the order of `ast.walk`.
pub mod Pinned
use schunk_fts_ros.Base.{Option, none, some, List, [], ◌∷◌, ◌++◌, Text, codes, same, if◌then◌else◌}
use schunk_fts_ros.Strings.{lower, replace, contains}
use schunk_fts_ros.Scanner.{Dependency}
use schunk_fts_ros.Scanner.Requirement.{parse_requirement_string}
use schunk_fts_ros.Scanner.Sources.{Found, nothing_found, note, File, internal_packages}

-- An element of a list in the tree of Python: `none` is not a constant text.
abbrev pub Element : Type 0
Element = Option Text

pub data Value : Type 0 where
  sequence : List Element → Value
  constant : Text → Value
  other_value : Value

pub data Callee : Type 0 where
  plain attribute : Text → Callee
  other_callee : Callee

pub data Node : Type 0 where
  call : Callee → List (Text × Value) → Node
  other_node : Node

unfoldable pub constants : List Element → List Text
constants [] = []
constants (none ∷ es) = constants es
constants (some t ∷ es) = t ∷ constants es

-- `_extract_string_list`
unfoldable pub extract_string_list : Value → List Text
unfolding constants
extract_string_list (sequence es) = constants es
extract_string_list (constant t) = t ∷ []
extract_string_list other_value = []

-- `if name: requirements.append((name, version))`
abbrev pub cons_named : Text × Text → List (Text × Text) → List (Text × Text)
cons_named ([], version) rest = rest
cons_named (c ∷ t, version) rest = (c ∷ t, version) ∷ rest

unfoldable pub requirements : List Text → List (Text × Text)
requirements [] = []
requirements (r ∷ rs) = cons_named (parse_requirement_string r) (requirements rs)

unfoldable pub keyword_requirements : List (Text × Value) → List (Text × Text)
unfolding requirements extract_string_list
keyword_requirements [] = []
keyword_requirements ((arg, v) ∷ rest) =
    (if same arg (codes "install_requires") then requirements (extract_string_list v) else [])
    ++ keyword_requirements rest

abbrev pub callee_name : Callee → Text
callee_name (plain t) = t
callee_name (attribute t) = t
callee_name other_callee = []

-- The loop of `_parse_setup_py_install_requires`.
unfoldable pub node_requirements : List Node → List (Text × Text)
unfolding keyword_requirements
node_requirements [] = []
node_requirements (other_node ∷ nodes) = node_requirements nodes
node_requirements (call f keywords ∷ nodes) =
    (if same (callee_name f) (codes "setup") then keyword_requirements keywords else [])
    ++ node_requirements nodes

-- `name.lower().replace("-", "_")`
unfoldable pub normal : Text → Text
unfolding lower replace
normal t = replace b'-' b'_' (lower t)

abbrev pub setup_key : Text → Text → Text
setup_key name version = normal name ++ codes ":" ++ version

unfoldable pub note_requirements : Text → List (Text × Text) → Found → Found
unfolding note
note_requirements source [] s = s
note_requirements source ((name, version) ∷ rest) s = note_requirements source rest (
    note (setup_key name version) (contains (normal name) internal_packages)
      (record {
        name = name;
        version = version;
        ecosystem = codes "PyPI";
        source = source;
        upstream_repo = [];
      })
      s)

module _ (parse : Text → Option (List Node)) where
  -- `_parse_setup_py_install_requires`; `parse` gives `none` for a SyntaxError.
  unfoldable pub parse_setup_py_install_requires : Text → List (Text × Text)
  unfolding node_requirements
  parse_setup_py_install_requires content = elim (parse content) [
    | none ↦ []
    | some nodes ↦ node_requirements nodes
  ]

  unfoldable pub setup_py_files : List File → Found → Found
  unfolding note_requirements parse_setup_py_install_requires
  setup_py_files [] s = s
  setup_py_files ((source, none) ∷ files) s = setup_py_files files s
  setup_py_files ((source, some content) ∷ files) s =
      setup_py_files files (note_requirements source (parse_setup_py_install_requires content) s)

  unfoldable pub extract_setup_py_deps : List File → List Dependency
  unfolding setup_py_files
  extract_setup_py_deps files = (setup_py_files files nothing_found).deps
