-- ===== src/Strings/Sets.antt =====
-- Membership in a list of texts, and lists without repetition.
use schunk_fts_ros.Base.{
  ◌≡◌, refl, Bool, true, not, ◌&&◌, ◌||◌, List, [], ◌∷◌, ◌++◌, Text, same, same→eq, same_self,
  arith,
}
use schunk_fts_ros.Strings.{contains}

-- No text stands twice in the list.
unfoldable pub are_distinct : List Text → Bool
are_distinct [] = true
are_distinct (t ∷ ts) = not (contains t ts) && are_distinct ts

pub contains-append :
    (t : Text) (us vs : List Text) → contains t (us ++ vs) ≡ (contains t us || contains t vs)
unfolding contains
contains-append t [] vs = refl
contains-append t (u ∷ us) vs = ground (arith, contains-append t us vs)

pub same_comm : (s t : Text) → same s t ≡ same t s
same_comm s t = ground (arith, same→eq s t, same→eq t s, same_self s, same_self t)

-- A new text at the end.
pub are_distinct-concat :
    (t : Text) (us : List Text)
    → are_distinct (us ++ t ∷ []) ≡ (are_distinct us && not (contains t us))
unfolding are_distinct contains
are_distinct-concat t [] = refl
are_distinct-concat t (u ∷ us) =
    ground (arith, are_distinct-concat t us, contains-append u us (t ∷ []), same_comm t u)
