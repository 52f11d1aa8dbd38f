-- ===== src/Scanner/Sources/Cargo.antt =====
-- The Rust dependencies: `extract_cargo_lock_deps` of security/cve_scanner.py.
pub mod Blocks
pub mod Lock
use schunk_fts_ros.Base.{
  Bool, true, not, ◌&&◌, Option, none, some, List, [], ◌∷◌, ◌++◌, Text, codes, ◌==◌, if◌then◌else◌,
  drop,
}
use schunk_fts_ros.Strings.{
  is_blank, drop_while, take_while, after_prefix, split, contains, is_empty,
}
use schunk_fts_ros.Scanner.{Dependency}
use schunk_fts_ros.Scanner.Sources.{Found, nothing_found, note, File, internal_packages}

-- `"([^"]+)"`
unfoldable pub quoted : Text → Option Text
unfolding take_while drop_while
quoted [] = none
quoted (c ∷ t) =
    let value = take_while (λ d. not (d == b'"')) t in
    if (c == b'"') && not (is_empty value) && not (is_empty (drop_while (λ d. not (d == b'"')) t))
    then some value
    else none

-- `=\s*"([^"]+)"`
unfoldable pub assigned : Text → Option Text
unfolding quoted drop_while
assigned [] = none
assigned (c ∷ t) = if c == b'=' then quoted (drop_while is_blank t) else none

-- `name\s*=\s*"([^"]+)"`, with the word as an argument.
unfoldable pub match_line : Text → Text → Option Text
unfolding assigned after_prefix
match_line word t = elim (after_prefix word t) [
  | none ↦ none
  | some r ↦ assigned (drop_while is_blank r)
]

-- `search` with `^` and MULTILINE; the flag says that a line begins here.
unfoldable pub search_line : Bool → Text → Text → Option Text
unfolding match_line
search_line begins word [] = none
search_line begins word (c ∷ t) = elim (if begins then match_line word (c ∷ t) else none) [
  | some v ↦ some v
  | none ↦ search_line (c == b'\n') word t
]

abbrev pub cargo_key : Text → Text → Text
cargo_key name version = name ++ codes ":" ++ version

unfoldable pub note_crate : Text → Option Text → Option Text → Found → Found
unfolding note
note_crate source (some name) (some version) s =
    note (cargo_key name version) (contains name internal_packages)
      (record {
        name = name;
        version = version;
        ecosystem = codes "crates.io";
        source = source;
        upstream_repo = [];
      })
      s
note_crate source _ _ s = s

unfoldable pub note_blocks : Text → List Text → Found → Found
unfolding note_crate search_line
note_blocks source [] s = s
note_blocks source (block ∷ blocks) s = note_blocks source blocks (
    note_crate source (search_line true (codes "name") block)
      (search_line true (codes "version") block) s)

unfoldable pub cargo_lock_files : List File → Found → Found
unfolding note_blocks split
cargo_lock_files [] s = s
cargo_lock_files ((source, none) ∷ files) s = cargo_lock_files files s
cargo_lock_files ((source, some content) ∷ files) s =
    cargo_lock_files files (note_blocks source (drop 1 (split (codes "[[package]]") content)) s)

unfoldable pub extract_cargo_lock_deps : List File → List Dependency
unfolding cargo_lock_files
extract_cargo_lock_deps files = (cargo_lock_files files nothing_found).deps
