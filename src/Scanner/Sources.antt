-- ===== src/Scanner/Sources.antt =====
-- What the three extractors of dependencies of security/cve_scanner.py share. The files that
-- `rglob` finds are an argument, each with its text, or none if it cannot be read.
pub mod Setup
pub mod Cargo
pub mod PackageXml
use schunk_fts_ros.Base.{
  ℕ, Bool, true, false, not, ◌&&◌, ◌||◌, Option, none, some, List, [], ◌∷◌, ◌++◌, Text, codes, same,
  ◌==◌, if◌then◌else◌, drop,
}
use schunk_fts_ros.Strings.{
  is_blank, drop_while, take_while, strip, lower, replace, after_prefix, split, contains, find,
  is_empty,
}
use schunk_fts_ros.Scanner.{Dependency}

abbrev pub internal_packages : List Text
internal_packages =
    codes "schunk_fts_driver"
    ∷ codes "schunk_fts_library"
    ∷ codes "schunk_fts_interfaces"
    ∷ codes "schunk_fts_dummy"
    ∷ []

-- The two variables of each extractor.
pub record Found : Type 0 where
  pub deps : List Dependency
  pub seen : List Text

abbrev pub nothing_found : Found
nothing_found = record { deps = []; seen = [] }

-- `if key in seen: continue`, `seen.add(key)`, and the skip or the append behind it.
unfoldable pub note : Text → Bool → Dependency → Found → Found
note k skip d s =
    if contains k s.seen
    then s
    else if skip
    then record s { seen = k ∷ s.seen }
    else record { deps = s.deps ++ d ∷ []; seen = k ∷ s.seen }

-- A file: its path, and its text if it can be read.
abbrev pub File : Type 0
File = Text × Option Text
