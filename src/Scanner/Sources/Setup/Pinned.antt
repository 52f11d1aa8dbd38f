-- ===== src/Scanner/Sources/Setup/Pinned.antt =====
-- The requirements of a setup.py are read back, in order.
use schunk_fts_ros.Base.{
  ◌≡◌, refl, sym, ap, ap₂, ◌∙◌, Bool, true, false, not, ◌&&◌, Option, some, List, [], ◌∷◌, ◌++◌,
  map, Text, codes, arith, All, same, none, if◌then◌else◌,
}
use mathlib.Core.List.{append_assoc, append-nil}
use schunk_fts_ros.Strings.{contains}
use schunk_fts_ros.Strings.Sets.{are_distinct}
use schunk_fts_ros.Scanner.{Dependency}
use schunk_fts_ros.Scanner.Requirement.Form.{Form, IsForm, print, nonempty}
use schunk_fts_ros.Scanner.Requirement.Printed.{parse-print}
use schunk_fts_ros.Scanner.Noted.{are_fresh, fresh_cons, fresh_nil, note_new}
use schunk_fts_ros.Scanner.Sources.{Found, nothing_found, note, internal_packages}
use schunk_fts_ros.Scanner.Sources.Setup.{
  Node, Value, Callee, call, other_node, sequence, cons_named, requirements, extract_string_list,
  keyword_requirements, node_requirements, callee_name, normal, setup_key, note_requirements,
  extract_setup_py_deps,
}

-- Keyword arguments other than the one that is looked for, and nodes other than calls of `setup`.
abbrev pub are_other_keywords : List (Text × Value) → Bool
are_other_keywords [] = true
are_other_keywords ((arg, v) ∷ rest) =
    not (same arg (codes "install_requires")) && are_other_keywords rest

abbrev pub are_other_nodes : List Node → Bool
are_other_nodes [] = true
are_other_nodes (other_node ∷ nodes) = are_other_nodes nodes
are_other_nodes (call f keywords ∷ nodes) =
    not (same (callee_name f) (codes "setup")) && are_other_nodes nodes

-- The tree of a setup.py with one call of `setup`, which lists the requirements.
pub record Script : Type 0 where
  pub before : List Node
  pub callee : Callee
  pub keywords : List (Text × Value)
  pub forms : List Form
  pub more_keywords : List (Text × Value)
  pub behind : List Node

abbrev pub listed : List Form → Value
listed fs = sequence (map (λ (f : Form). some (print f)) fs)

abbrev pub tree : Script → List Node
tree s =
    s.before
    ++ (call s.callee (s.keywords ++ ((codes "install_requires", listed s.forms) ∷ s.more_keywords))
        ∷ s.behind)

abbrev pub key_of : Form → Text
key_of f = setup_key f.name f.version

abbrev pub are_external : List Form → Bool
are_external [] = true
are_external (f ∷ fs) = not (contains (normal f.name) internal_packages) && are_external fs

-- No requirement is listed twice, and none is a package of this repository.
pub record IsScript (s : Script) : Type 0 where
  pub others_before : are_other_nodes s.before ≡ true
  pub is_setup : same (callee_name s.callee) (codes "setup") ≡ true
  pub others_behind : are_other_nodes s.behind ≡ true
  pub other_keywords : are_other_keywords s.keywords ≡ true
  pub more_other_keywords : are_other_keywords s.more_keywords ≡ true
  pub forms : All IsForm s.forms
  pub distinct : are_distinct (map key_of s.forms) ≡ true
  pub external : are_external s.forms ≡ true

abbrev pub dependency_of : Text → Form → Dependency
dependency_of source f = record {
  name = f.name;
  version = f.version;
  ecosystem = codes "PyPI";
  source = source;
  upstream_repo = [];
}

abbrev pair_of : Form → Text × Text
pair_of f = (f.name, f.version)

cons_named-pair_of :
    (f : Form) (rest : List (Text × Text))
    → nonempty f.name ≡ true
    → cons_named (pair_of f) rest ≡ pair_of f ∷ rest
cons_named-pair_of f rest h = named f.name h
  where
    named :
        (name : Text)
        → nonempty name ≡ true
        → cons_named (name, f.version) rest ≡ (name, f.version) ∷ rest
    named [] h = cc
    named (c ∷ t) h = refl

requirements-print : (fs : List Form) → All IsForm fs → requirements (map print fs) ≡ map pair_of fs
unfolding requirements
requirements-print [] h = refl
requirements-print (f ∷ fs) (h, hs) =
    ap₂ cons_named (parse-print f h) (requirements-print fs hs)
    ∙ cons_named-pair_of f (map pair_of fs) h.name_nonempty

constants-listed : (fs : List Form) → extract_string_list (listed fs) ≡ map print fs
unfolding extract_string_list
constants-listed [] = refl
constants-listed (f ∷ fs) = ap (λ (ts : List Text). print f ∷ ts) (constants-listed fs)

keywords-other :
    (ks more : List (Text × Value))
    → are_other_keywords ks ≡ true
    → keyword_requirements (ks ++ more) ≡ keyword_requirements more
unfolding keyword_requirements
keywords-other [] more h = refl
keywords-other ((arg, v) ∷ ks) more h = ground (arith, keywords-other ks more)

nodes-other :
    (ns more : List Node)
    → are_other_nodes ns ≡ true
    → node_requirements (ns ++ more) ≡ node_requirements more
unfolding node_requirements
nodes-other [] more h = refl
nodes-other (other_node ∷ ns) more h = nodes-other ns more h
nodes-other (call f ks ∷ ns) more h = ground (arith, nodes-other ns more)

keywords-nothing :
    (ks : List (Text × Value)) → are_other_keywords ks ≡ true → keyword_requirements ks ≡ []
unfolding keyword_requirements
keywords-nothing [] h = refl
keywords-nothing ((arg, v) ∷ ks) h = ground (arith, keywords-nothing ks)

nodes-nothing : (ns : List Node) → are_other_nodes ns ≡ true → node_requirements ns ≡ []
unfolding node_requirements
nodes-nothing [] h = refl
nodes-nothing (other_node ∷ ns) h = nodes-nothing ns h
nodes-nothing (call f ks ∷ ns) h = ground (arith, nodes-nothing ns)

node_requirements-setup :
    (f : Callee) (ks : List (Text × Value)) (ns : List Node)
    → same (callee_name f) (codes "setup") ≡ true
    → node_requirements (call f ks ∷ ns) ≡ keyword_requirements ks ++ node_requirements ns
unfolding node_requirements
node_requirements-setup f ks ns h =
    ap (λ (b : Bool). (if b then keyword_requirements ks else []) ++ node_requirements ns) h

keyword_requirements-listed :
    (fs : List Form) (more : List (Text × Value))
    → All IsForm fs
    → are_other_keywords more ≡ true
    → keyword_requirements ((codes "install_requires", listed fs) ∷ more) ≡ map pair_of fs
unfolding keyword_requirements
keyword_requirements-listed fs more h o =
    ap₂ (λ (xs ys : List (Text × Text)). xs ++ ys)
      (ap requirements (constants-listed fs) ∙ requirements-print fs h) (keywords-nothing more o)
    ∙ append-nil (map pair_of fs)

tree-pairs : (s : Script) → IsScript s → node_requirements (tree s) ≡ map pair_of s.forms
tree-pairs s h =
    let install = (codes "install_requires", listed s.forms) ∷ s.more_keywords in
    nodes-other s.before (call s.callee (s.keywords ++ install) ∷ s.behind) h.others_before
    ∙ node_requirements-setup s.callee (s.keywords ++ install) s.behind h.is_setup
    ∙ ap₂ (λ (xs ys : List (Text × Text)). xs ++ ys)
        (keywords-other s.keywords install h.other_keywords
          ∙ keyword_requirements-listed s.forms s.more_keywords h.forms h.more_other_keywords)
        (nodes-nothing s.behind h.others_behind)
    ∙ append-nil (map pair_of s.forms)

abbrev noted : Text → Form → Found → Found
noted source f s = record { deps = s.deps ++ dependency_of source f ∷ []; seen = key_of f ∷ s.seen }

note_requirements-cons :
    (source : Text) (f : Form) (rest : List (Text × Text)) (s : Found)
    → contains (normal f.name) internal_packages ≡ false
    → contains (key_of f) s.seen ≡ false
    → note_requirements source (pair_of f ∷ rest) s
      ≡ note_requirements source rest (noted source f s)
unfolding note_requirements
note_requirements-cons source f rest s x new = ap (note_requirements source rest) (
    ap (λ (b : Bool). note (key_of f) b (dependency_of source f) s) x
    ∙ note_new (key_of f) (dependency_of source f) s new)

module _ (source : Text) where
  note_requirements-forms :
      (fs : List Form) (s : Found)
      → are_external fs ≡ true
      → are_distinct (map key_of fs) ≡ true
      → are_fresh s.seen (map key_of fs) ≡ true
      → (note_requirements source (map pair_of fs) s).deps
        ≡ (s.deps ++ map (dependency_of source) fs)
  unfolding are_distinct
  note_requirements-forms [] s x d f = unfold note_requirements in sym (append-nil s.deps)
  note_requirements-forms (g ∷ fs) s x d f =
      let external : contains (normal g.name) internal_packages ≡ false = ground (arith, x) in
      let new : contains (key_of g) s.seen ≡ false = ground (arith, f) in
      let once : contains (key_of g) (map key_of fs) ≡ false = ground (arith, d) in
      let later =
        note_requirements-forms fs (noted source g s) (ground (arith, x)) (ground (arith, d))
          (fresh_cons (key_of g) s.seen (map key_of fs) once (ground (arith, f))) in
      ap (λ (r : Found). r.deps) (note_requirements-cons source g (map pair_of fs) s external new)
      ∙ later
      ∙ append_assoc s.deps (dependency_of source g ∷ []) (map (dependency_of source) fs)

-- What `_parse_setup_py_install_requires` makes of the tree.
abbrev read_tree : Option (List Node) → List (Text × Text)
read_tree r = elim r [ none ↦ [] | some nodes ↦ node_requirements nodes ]

-- A setup.py with one call of `setup` that lists requirements written from their parts, with the
-- conditions of `IsScript`, is read as one dependency for each requirement, in order, under its
-- name and its version.
pub extract-tree :
    (parse : Text → Option (List Node)) (source content : Text) (s : Script)
    → parse content ≡ some (tree s)
    → IsScript s
    → extract_setup_py_deps parse ((source, some content) ∷ []) ≡ map (dependency_of source) s.forms
unfolding extract_setup_py_deps
extract-tree parse source content s e h =
    ap (λ (r : Option (List Node)). (note_requirements source (read_tree r) nothing_found).deps) e
    ∙ ap (λ (l : List (Text × Text)). (note_requirements source l nothing_found).deps)
        (tree-pairs s h)
    ∙ note_requirements-forms source s.forms nothing_found h.external h.distinct
        (fresh_nil (map key_of s.forms))
