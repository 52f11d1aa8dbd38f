-- ===== src/Scanner.antt =====
-- The dependencies that security/cve_scanner.py collects, and their deduplication.
pub mod Distinct
pub mod Requirement
pub mod Sources
pub mod Found
pub mod Noted
pub mod Extracted
pub mod Web
pub mod Score
pub mod Osv
pub mod Parse
pub mod Scan
pub mod Report
pub mod Alert
use schunk_fts_ros.Strings.{contains}
use schunk_fts_ros.Base.{
  Bool, true, false, ◌||◌, List, [], ◌∷◌, ◌++◌, Text, codes, same, if◌then◌else◌,
}

pub record Dependency : Type 0 where
  pub name : Text
  pub version : Text
  pub ecosystem : Text
  pub source : Text
  pub upstream_repo : Text

-- `f"{d.ecosystem}:{d.name}:{d.version}"`
unfoldable pub key : Dependency → Text
key d = d.ecosystem ++ codes ":" ++ d.name ++ codes ":" ++ d.version

-- The loop of `deduplicate_deps`.
unfoldable pub unique : List Text → List Dependency → List Dependency
unique seen [] = []
unique seen (d ∷ ds) = elim (contains (key d) seen) [
  | true ↦ unique seen ds
  | false ↦ d ∷ unique (key d ∷ seen) ds
]

unfoldable pub deduplicate_deps : List Dependency → List Dependency
unfolding unique
deduplicate_deps ds = unique [] ds
