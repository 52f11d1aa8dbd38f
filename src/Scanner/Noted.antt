-- ===== src/Scanner/Noted.antt =====
-- What `note` does with keys that are new, one after another.
use schunk_fts_ros.Base.{◌≡◌, refl, Bool, true, false, not, ◌&&◌, List, [], ◌∷◌, ◌++◌, Text, arith}
use schunk_fts_ros.Strings.{contains}
use schunk_fts_ros.Strings.Sets.{same_comm}
use schunk_fts_ros.Scanner.{Dependency}
use schunk_fts_ros.Scanner.Sources.{Found, note}

abbrev pub are_fresh : List Text → List Text → Bool
are_fresh seen [] = true
are_fresh seen (k ∷ ks) = not (contains k seen) && are_fresh seen ks

pub fresh_cons :
    (k : Text) (seen ks : List Text)
    → contains k ks ≡ false
    → are_fresh seen ks ≡ true
    → are_fresh (k ∷ seen) ks ≡ true
unfolding contains
fresh_cons k seen [] h e = refl
fresh_cons k seen (j ∷ ks) h e = ground (arith, h, e, same_comm j k, fresh_cons k seen ks)

pub fresh_nil : (ks : List Text) → are_fresh [] ks ≡ true
unfolding contains
fresh_nil [] = refl
fresh_nil (k ∷ ks) = ground (arith, fresh_nil ks)

-- The dependency under a new key is kept, behind the others.
pub note_new :
    (k : Text) (d : Dependency) (s : Found)
    → contains k s.seen ≡ false
    → note k false d s ≡ record { deps = s.deps ++ d ∷ []; seen = k ∷ s.seen }
unfolding note
note_new k d s h = rw h refl

-- A dependency under an old key is dropped.
pub note_old :
    (k : Text) (skip : Bool) (d : Dependency) (s : Found)
    → contains k s.seen ≡ true
    → note k skip d s ≡ s
unfolding note
note_old k skip d s h = rw (h, note) refl
