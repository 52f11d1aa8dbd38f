-- ===== src/Strings/Strip.antt =====
-- What `strip`, `take_while` and `drop_while` do to a text with known parts.
use schunk_fts_ros.Base.{
  ℕ, ◌≡◌, refl, Bool, true, not, ◌&&◌, [], ◌∷◌, ◌++◌, reverse, Text, arith, Bool-cases, inl, inr,
  if◌then◌else◌,
}
use mathlib.Core.List.{reverse-cons, reverse-append}
use schunk_fts_ros.Strings.{is_blank, drop_while, take_while, strip}

abbrev pub all : (ℕ → Bool) → Text → Bool
all p [] = true
all p (c ∷ t) = p c && all p t

-- The first character, if there is one, does not have the property.
abbrev pub stops : (ℕ → Bool) → Text → Bool
stops p [] = true
stops p (c ∷ t) = not (p c)

module _ (p : ℕ → Bool) where
  pub take_while-append :
      (s t : Text) → all p s ≡ true → stops p t ≡ true → take_while p (s ++ t) ≡ s
  unfolding take_while
  take_while-append [] [] h e = refl
  take_while-append [] (c ∷ t) h e = ground (arith, h, e)
  take_while-append (c ∷ s) t h e = ground (arith, take_while-append s t, h, e)

  pub drop_while-append :
      (s t : Text) → all p s ≡ true → stops p t ≡ true → drop_while p (s ++ t) ≡ t
  unfolding drop_while
  drop_while-append [] [] h e = refl
  drop_while-append [] (c ∷ t) h e = ground (arith, h, e)
  drop_while-append (c ∷ s) t h e = ground (arith, drop_while-append s t, h, e)

  -- The text without what it ends with.
  abbrev keep_first : ℕ → Text → Text
  keep_first c [] = if p c then [] else c ∷ []
  keep_first c (d ∷ u) = c ∷ d ∷ u

  abbrev pub drop_end : Text → Text
  drop_end [] = []
  drop_end (c ∷ t) = keep_first c (drop_end t)

  keep_first-concat : (c d : ℕ) (t : Text) → keep_first c (t ++ d ∷ []) ≡ (c ∷ (t ++ d ∷ []))
  keep_first-concat c d [] = refl
  keep_first-concat c d (e ∷ t) = refl

  drop_while-concat :
      (c : ℕ) (t : Text)
      → reverse (drop_while p (t ++ c ∷ [])) ≡ keep_first c (reverse (drop_while p t))
  unfolding drop_while
  drop_while-concat c [] = ground arith
  drop_while-concat c (d ∷ t) = elim (Bool-cases (p d)) [
    | inl y ↦ rw y (drop_while-concat c t)
    | inr n ↦
        rw (n, reverse-append (d ∷ t) (c ∷ []), reverse-cons d t, keep_first-concat c d (reverse t))
          refl
  ]

  pub reverse-drop_end : (t : Text) → reverse (drop_while p (reverse t)) ≡ drop_end t
  unfolding drop_while
  reverse-drop_end [] = refl
  reverse-drop_end (c ∷ t) =
      rw (reverse-cons c t, drop_while-concat c (reverse t), reverse-drop_end t) refl

  pub drop_end-append :
      (s t : Text) → all (λ c. not (p c)) s ≡ true → drop_end (s ++ t) ≡ (s ++ drop_end t)
  drop_end-append [] t h = refl
  drop_end-append (c ∷ s) t h =
      rw (drop_end-append s t (ground (arith, h))) (kept (s ++ drop_end t))
    where
      kept : (u : Text) → keep_first c u ≡ c ∷ u
      kept [] = ground (arith, h)
      kept (d ∷ u) = refl

  pub drop_end-keep : (s t u : Text) (d : ℕ) → drop_end t ≡ d ∷ u → drop_end (s ++ t) ≡ (s ++ d ∷ u)
  drop_end-keep [] t u d h = h
  drop_end-keep (c ∷ s) t u d h = rw (drop_end-keep s t u d h) (kept s)
    where
      kept : (r : Text) → keep_first c (r ++ d ∷ u) ≡ (c ∷ (r ++ d ∷ u))
      kept [] = refl
      kept (e ∷ r) = refl

  pub stops-drop_end : (q : ℕ → Bool) (t : Text) → stops q t ≡ true → stops q (drop_end t) ≡ true
  stops-drop_end q [] h = refl
  stops-drop_end q (c ∷ t) h = kept (drop_end t)
    where
      kept : (u : Text) → stops q (keep_first c u) ≡ true
      kept [] = ground (arith, h)
      kept (d ∷ u) = h

-- `strip` leaves out the blanks before the first character that is none, and those at the end.
pub strip_lem :
    (before t : Text)
    → all is_blank before ≡ true
    → stops is_blank t ≡ true
    → strip (before ++ t) ≡ drop_end is_blank t
unfolding strip
strip_lem before t b h = rw (drop_while-append is_blank before t b h) (reverse-drop_end is_blank t)
