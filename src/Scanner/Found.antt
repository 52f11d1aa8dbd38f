-- ===== src/Scanner/Found.antt =====
-- What `note` keeps of the dependencies that were found so far.
use schunk_fts_ros.Base.{
  ◌≡◌, refl, Bool, true, false, not, ◌&&◌, List, [], ◌∷◌, ◌++◌, map, Text, same→eq, same_self,
  arith, Bool-cases, inl, inr, if◌then◌else◌,
}
use mathlib.Core.List.{map-append}
use schunk_fts_ros.Strings.{contains}
use schunk_fts_ros.Strings.Sets.{are_distinct, are_distinct-concat}
use schunk_fts_ros.Scanner.{Dependency}
use schunk_fts_ros.Scanner.Sources.{Found, nothing_found, note}

-- The key of each dependency is `key`, and `bad` says which dependencies are to be skipped.
module _ (key : Dependency → Text) (bad : Dependency → Bool) where
  abbrev pub are_good : List Dependency → Bool
  are_good [] = true
  are_good (d ∷ ds) = not (bad d) && are_good ds

  -- No key stands twice, and no dependency is bad.
  abbrev pub AreClean : List Dependency → Type 0
  AreClean ds = (are_distinct (map key ds) ≡ true) × (are_good ds ≡ true)

  abbrev pub AllSeen : List Text → List Dependency → Type 0
  AllSeen seen [] = Unit {0}
  AllSeen seen (d ∷ ds) = (contains (key d) seen ≡ true) × AllSeen seen ds

  pub record IsClean (s : Found) : Type 0 where
    pub clean : AreClean s.deps
    pub all_seen : AllSeen s.seen s.deps

  contains-AllSeen :
      (k : Text) (seen : List Text) (ds : List Dependency)
      → AllSeen seen ds
      → contains k seen ≡ false
      → contains k (map key ds) ≡ false
  unfolding contains
  contains-AllSeen k seen [] h e = refl
  contains-AllSeen k seen (d ∷ ds) (h, hs) e =
      ground (arith, contains-AllSeen k seen ds hs e, same→eq k (key d))

  AllSeen-cons :
      (k : Text) (seen : List Text) (ds : List Dependency) → AllSeen seen ds → AllSeen (k ∷ seen) ds
  unfolding contains
  AllSeen-cons k seen [] h = tt
  AllSeen-cons k seen (d ∷ ds) (h, hs) = (ground arith, AllSeen-cons k seen ds hs)

  AllSeen-concat :
      (seen : List Text) (ds : List Dependency) (d : Dependency)
      → AllSeen seen ds
      → contains (key d) seen ≡ true
      → AllSeen seen (ds ++ d ∷ [])
  AllSeen-concat seen [] d h e = (e, tt)
  AllSeen-concat seen (x ∷ ds) d (h, hs) e = (h, AllSeen-concat seen ds d hs e)

  are_good-concat :
      (ds : List Dependency) (d : Dependency)
      → are_good (ds ++ d ∷ []) ≡ (are_good ds && not (bad d))
  are_good-concat [] d = ground arith
  are_good-concat (x ∷ ds) d = ground (arith, are_good-concat ds d)

  contains_self : (k : Text) (ks : List Text) → contains k (k ∷ ks) ≡ true
  unfolding contains
  contains_self k ks = rw (same_self k)

  append-AreClean :
      (d : Dependency) (ds : List Dependency)
      → AreClean ds
      → contains (key d) (map key ds) ≡ false
      → bad d ≡ false
      → AreClean (ds ++ d ∷ [])
  append-AreClean d ds (distinct, good) fresh b = (
    rw (map-append key ds (d ∷ []))
        (rw (are_distinct-concat (key d) (map key ds), distinct, fresh)),
    rw (are_good-concat ds d, good, b),
  )

  pub note-IsClean :
      (d : Dependency) (s : Found) (skip : Bool)
      → IsClean s
      → (skip ≡ false → bad d ≡ false)
      → IsClean (note (key d) skip d s)
  unfolding note
  note-IsClean d s skip h b = elim (Bool-cases (contains (key d) s.seen)) [
    | inl old ↦ rw old h
    | inr new ↦ rw new (fresh skip new b)
  ]
    where
      fresh :
          (skip : Bool)
          → contains (key d) s.seen ≡ false
          → (skip ≡ false → bad d ≡ false)
          → IsClean (
              if skip
              then record s { seen = key d ∷ s.seen }
              else record { deps = s.deps ++ d ∷ []; seen = key d ∷ s.seen })
      fresh true new b = record {
        clean = h.clean;
        all_seen = AllSeen-cons (key d) s.seen s.deps h.all_seen;
      }
      fresh false new b = record {
        clean =
            append-AreClean d s.deps h.clean (contains-AllSeen (key d) s.seen s.deps h.all_seen new)
              (b refl);
        all_seen =
            AllSeen-concat (key d ∷ s.seen) s.deps d (AllSeen-cons (key d) s.seen s.deps h.all_seen)
              (contains_self (key d) s.seen);
      }

  pub nothing-IsClean : IsClean nothing_found
  unfolding are_distinct
  nothing-IsClean = record { clean = (refl, refl); all_seen = tt }
