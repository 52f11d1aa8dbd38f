-- ===== src/Scanner/Distinct.antt =====
-- What deduplication keeps.
use schunk_fts_ros.Base.{
  ◌≡◌, refl, true, not, ◌&&◌, List, [], ◌∷◌, map, Text, same→eq, same_self, arith, Bool-cases, inl,
  inr,
}
use schunk_fts_ros.Strings.{contains}
use schunk_fts_ros.Strings.Sets.{are_distinct}
use schunk_fts_ros.Scanner.{Dependency, key, unique, deduplicate_deps}

abbrev pub keys : List Dependency → List Text
keys ds = map key ds

-- What is left of a list after some of its entries are struck out.
pub data IsSublist {A : Type 0} : List A → List A → Type 0 where
  none_left : IsSublist [] []
  keep : {x : A} {xs ys : List A} → IsSublist xs ys → IsSublist (x ∷ xs) (x ∷ ys)
  strike : {x : A} {xs ys : List A} → IsSublist xs ys → IsSublist xs (x ∷ ys)

contains-unique :
    (t : Text) (seen : List Text) (ds : List Dependency)
    → contains t (keys (unique seen ds)) ≡ (contains t (keys ds) && not (contains t seen))
unfolding unique contains
contains-unique t seen [] = refl
contains-unique t seen (d ∷ ds) =
    ground
      (arith, contains-unique t seen ds, contains-unique t (key d ∷ seen) ds, same→eq t (key d))

are_distinct-unique :
    (seen : List Text) (ds : List Dependency) → are_distinct (keys (unique seen ds)) ≡ true
unfolding unique are_distinct contains
are_distinct-unique seen [] = refl
are_distinct-unique seen (d ∷ ds) = ground (
  arith,
  are_distinct-unique seen ds,
  are_distinct-unique (key d ∷ seen) ds,
  contains-unique (key d) (key d ∷ seen) ds,
  same_self (key d),
)

unique-IsSublist : (seen : List Text) (ds : List Dependency) → IsSublist (unique seen ds) ds
unfolding unique
unique-IsSublist seen [] = none_left
unique-IsSublist seen (d ∷ ds) = elim (Bool-cases (contains (key d) seen)) [
  | inl old ↦ rw (old, unique) (strike (unique-IsSublist seen ds))
  | inr new ↦ rw (new, unique) (keep (unique-IsSublist (key d ∷ seen) ds))
]

-- Deduplication strikes out entries and keeps the rest in order; what it keeps has distinct keys,
-- and every key is kept.
pub deduplicate_deps_lem :
    (ds : List Dependency)
    → IsSublist (deduplicate_deps ds) ds
      × (are_distinct (keys (deduplicate_deps ds)) ≡ true)
      × ((t : Text) → contains t (keys (deduplicate_deps ds)) ≡ contains t (keys ds))
unfolding deduplicate_deps contains
deduplicate_deps_lem ds = (
  unique-IsSublist [] ds,
  are_distinct-unique [] ds,
  λ t. ground (arith, contains-unique t [] ds),
)
