-- ===== src/Scanner/Sources/Cargo/Lock.antt =====
-- The crates of a Cargo.lock are read back, in order.
use schunk_fts_ros.Base.{
  ◌≡◌, refl, sym, ap, ◌∙◌, Bool, true, false, not, ◌&&◌, some, List, [], ◌∷◌, ◌++◌, map, Text,
  codes, arith, drop,
}
use mathlib.Core.List.{append_assoc, append-nil}
use schunk_fts_ros.Strings.{contains, split}
use schunk_fts_ros.Strings.Sets.{are_distinct}
use schunk_fts_ros.Strings.Lines.{line, glue, AreFree, split-glue}
use schunk_fts_ros.Scanner.{Dependency}
use schunk_fts_ros.Scanner.Noted.{are_fresh, fresh_cons, fresh_nil, note_new}
use schunk_fts_ros.Scanner.Sources.{Found, nothing_found, internal_packages}
use schunk_fts_ros.Scanner.Sources.Cargo.{
  cargo_key, note_crate, note_blocks, extract_cargo_lock_deps, search_line,
}
use schunk_fts_ros.Scanner.Sources.Cargo.Blocks.{Crate, block, is_value, block-name, block-version}

abbrev pub marker : Text
marker = codes "[[package]]"

-- A Cargo.lock: its header, and a marked block for each crate.
abbrev pub lock : Text → List Crate → Text
lock header cs = glue marker header (map block cs)

abbrev pub are_values : List Crate → Bool
are_values [] = true
are_values (c ∷ cs) = is_value c.name && is_value c.version && are_values cs

abbrev pub are_external : List Crate → Bool
are_external [] = true
are_external (c ∷ cs) = not (contains c.name internal_packages) && are_external cs

abbrev pub key_of : Crate → Text
key_of c = cargo_key c.name c.version

-- What the header and the crates must be: the marker stands at the blocks alone, the names and
-- the versions are quoted on their line, no crate is listed twice, and none is of this repository.
pub record IsLock (header : Text) (cs : List Crate) : Type 0 where
  pub free : AreFree marker (header ∷ map block cs)
  pub values : are_values cs ≡ true
  pub distinct : are_distinct (map key_of cs) ≡ true
  pub external : are_external cs ≡ true

abbrev pub dependency_of : Text → Crate → Dependency
dependency_of source c = record {
  name = c.name;
  version = c.version;
  ecosystem = codes "crates.io";
  source = source;
  upstream_repo = [];
}

abbrev noted : Text → Crate → Found → Found
noted source c s = record { deps = s.deps ++ dependency_of source c ∷ []; seen = key_of c ∷ s.seen }

-- A block in which a new crate is found.
note_blocks-cons :
    (source t : Text) (ts : List Text) (c : Crate) (s : Found)
    → search_line true (codes "name") t ≡ some c.name
    → search_line true (codes "version") t ≡ some c.version
    → contains c.name internal_packages ≡ false
    → contains (key_of c) s.seen ≡ false
    → note_blocks source (t ∷ ts) s ≡ note_blocks source ts (noted source c s)
unfolding note_blocks note_crate
note_blocks-cons source t ts c s n v x f =
    rw (n, v, x) (rw (note_new (key_of c) (dependency_of source c) s f) refl)

module _ (source : Text) where
  note_blocks-lines :
      (cs : List Crate) (s : Found)
      → are_values cs ≡ true
      → are_external cs ≡ true
      → are_distinct (map key_of cs) ≡ true
      → are_fresh s.seen (map key_of cs) ≡ true
      → (note_blocks source (map line (map block cs)) s).deps
        ≡ (s.deps ++ map (dependency_of source) cs)
  unfolding are_distinct
  note_blocks-lines [] s v x d f = unfold note_blocks in sym (append-nil s.deps)
  note_blocks-lines (c ∷ cs) s v x d f =
      let good_name : is_value c.name ≡ true = ground (arith, v) in
      let good_version : is_value c.version ≡ true = ground (arith, v) in
      let external : contains c.name internal_packages ≡ false = ground (arith, x) in
      let new : contains (key_of c) s.seen ≡ false = ground (arith, f) in
      let s' : Found = noted source c s in
      let once : contains (key_of c) (map key_of cs) ≡ false = ground (arith, d) in
      let later =
        note_blocks-lines cs s' (ground (arith, v)) (ground (arith, x)) (ground (arith, d))
          (fresh_cons (key_of c) s.seen (map key_of cs) once (ground (arith, f))) in
      ap (λ (r : Found). r.deps)
        (note_blocks-cons source (line (block c)) (map line (map block cs)) c s
          (block-name c good_name) (block-version c good_name good_version) external new)
      ∙ later
      ∙ append_assoc s.deps (dependency_of source c ∷ []) (map (dependency_of source) cs)

split-lock :
    (header : Text) (cs : List Crate)
    → AreFree marker (header ∷ map block cs)
    → split marker (lock header cs) ≡ line header ∷ map line (map block cs)
split-lock header cs f = split-glue b'[' (codes "[package]]") refl header (map block cs) f

cargo_lock_file :
    (source content : Text)
    → extract_cargo_lock_deps ((source, some content) ∷ [])
      ≡ (note_blocks source (drop 1 (split marker content)) nothing_found).deps
unfolding extract_cargo_lock_deps
cargo_lock_file source content = refl

-- A Cargo.lock that has a block for each crate, with the conditions of `IsLock`, is read as one
-- dependency for each crate, in order.
pub extract-lock :
    (source header : Text) (cs : List Crate)
    → IsLock header cs
    → extract_cargo_lock_deps ((source, some (lock header cs)) ∷ []) ≡ map (dependency_of source) cs
extract-lock source header cs h =
    cargo_lock_file source (lock header cs)
    ∙ ap (λ (ts : List Text). (note_blocks source (drop 1 ts) nothing_found).deps)
        (split-lock header cs h.free)
    ∙ note_blocks-lines source cs nothing_found h.values h.external h.distinct
        (fresh_nil (map key_of cs))
