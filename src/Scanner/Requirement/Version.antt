-- ===== src/Scanner/Requirement/Version.antt =====
-- How the version of a requirement is read.
use schunk_fts_ros.Base.{
  ℕ, ◌≡◌, refl, ◌∙◌, Bool, true, false, not, none, [], ◌∷◌, ◌++◌, Text, arith, ◌==◌,
}
use mathlib.Core.List.{Memᴰ}
use mathlib.Core.List.Memᴰ.{head, tail}
use schunk_fts_ros.Strings.{is_blank, strip, drop_while, after_prefix}
use schunk_fts_ros.Strings.Strip.{
  all, stops, take_while-append, drop_while-append, drop_end, drop_end-append, drop_end-keep,
  stops-drop_end, strip_lem,
}
use schunk_fts_ros.Scanner.Requirement.{
  is_version_char, read_version, operators, nonempty_or, first_version, first_line,
}
use schunk_fts_ros.Scanner.Requirement.Form.{is_space, nonempty}
use schunk_fts_ros.Scanner.Requirement.Characters.{
  all-imply, stops-append, stops-gap, stops-front, take_while-keep, stops-take_while,
  version-nonblank, is_op_char, operator-chars, op_char-nonblank, version-line, space-no_equals,
}

-- The version is read up to where it stops.
read_version_lem :
    (gap version rest : Text)
    → all is_space gap ≡ true
    → all is_version_char version ≡ true
    → nonempty version ≡ true
    → stops is_version_char rest ≡ true
    → read_version (gap ++ (version ++ rest)) ≡ version
unfolding read_version
read_version_lem gap version rest g v n r =
    rw
      (drop_while-append is_blank gap (version ++ rest)
        (all-imply is_space is_blank gap (λ c h. ground (arith, h)) g)
        (stops-append is_version_char is_blank version rest version-nonblank n v))
      (take_while-append is_version_char version rest v r)

nonempty_or_lem : (s t : Text) → nonempty s ≡ true → nonempty_or s t ≡ s
nonempty_or_lem [] t h = ground (arith, h)
nonempty_or_lem (c ∷ s) t h = refl

no_equals-after_prefix :
    (t : Text) → stops (λ c. b'=' == c) t ≡ true → after_prefix (b'=' ∷ []) t ≡ none
unfolding after_prefix
no_equals-after_prefix [] s = refl
no_equals-after_prefix (c ∷ t) s = ground (arith, s)

-- Each operator is found before another one that it starts with.
first_version_lem :
    (op t : Text) (version : Text)
    → Memᴰ op operators
    → stops (λ c. b'=' == c) t ≡ true
    → read_version t ≡ version
    → nonempty version ≡ true
    → first_version operators (op ++ t) ≡ version
unfolding first_version after_prefix
first_version_lem op t version m s r n = go m
  where
    eq : after_prefix (b'=' ∷ []) t ≡ none
    eq = no_equals-after_prefix t s

    go : Memᴰ op operators → first_version operators (op ++ t) ≡ version
    go (head e) = rw (e, r) (nonempty_or_lem version _ n)
    go (tail (head e)) = rw (e, r) (nonempty_or_lem version _ n)
    go (tail (tail (head e))) = rw (e, r) (nonempty_or_lem version _ n)
    go (tail (tail (tail (head e)))) = rw (e, r) (nonempty_or_lem version _ n)
    go (tail (tail (tail (tail (head e))))) = rw (e, r) (nonempty_or_lem version _ n)
    go (tail (tail (tail (tail (tail (head e)))))) = rw (e, eq, r) (nonempty_or_lem version _ n)
    go (tail (tail (tail (tail (tail (tail (head e))))))) =
        rw (e, eq, r) (nonempty_or_lem version _ n)
    go (tail (tail (tail (tail (tail (tail (tail m))))))) = elim m [ ]

-- `u` is what `strip` leaves of the end of `t`, and not empty.
abbrev Ends : Text → Text → Type 0
Ends t u = (drop_end is_blank t ≡ u) × (nonempty u ≡ true)

pub Ends-append : (s t u : Text) → Ends t u → Ends (s ++ t) (s ++ u)
Ends-append s t [] (e, n) = ground (arith, n)
Ends-append [] t (d ∷ u) (e, n) = (e, n)
Ends-append (c ∷ s) t (d ∷ u) (e, n) = (drop_end-keep is_blank (c ∷ s) t u d e, refl)

pub Ends-version :
    (version rest : Text)
    → all is_version_char version ≡ true
    → nonempty version ≡ true
    → Ends (version ++ rest) (version ++ drop_end is_blank rest)
Ends-version [] rest h n = ground (arith, n)
Ends-version (c ∷ v) rest h n = (
  drop_end-append is_blank (c ∷ v) rest (
      all-imply is_version_char (λ c. not (is_blank c)) (c ∷ v)
        (λ c h. ground (arith, version-nonblank c h)) h),
  refl,
)

-- What the pattern makes of the part behind the name and the brackets.
module _ (gap op gap' version rest : Text) (m : Memᴰ op operators) where
  abbrev shown : Text
  shown = gap ++ (op ++ (gap' ++ (version ++ rest)))

  pub shown-stops :
      (q : ℕ → Bool)
      → ((c : ℕ) → is_blank c ≡ true → q c ≡ false)
      → ((c : ℕ) → is_op_char c ≡ true → q c ≡ false)
      → all is_blank gap ≡ true
      → stops q shown ≡ true
  shown-stops q blank op_char g =
      let (chars, n) = operator-chars op m in
      stops-gap is_blank q gap _ blank g (stops-append is_op_char q op _ op_char n chars)

  op-stops_blank : (t : Text) → stops is_blank (op ++ t) ≡ true
  op-stops_blank t =
      let (chars, n) = operator-chars op m in
      stops-append is_op_char is_blank op t op_char-nonblank n chars

  first_line-shown :
      all is_space gap' ≡ true
      → all is_version_char version ≡ true
      → first_line (op ++ (gap' ++ (version ++ rest)))
        ≡ (op ++ (gap' ++ (version ++ first_line rest)))
  unfolding first_line
  first_line-shown g' v =
      let line = λ (c : ℕ). not (c == b'\n') in
      rw
        (
          take_while-keep line op (gap' ++ (version ++ rest))
              (all-imply is_op_char line op (λ c h. ground (arith, h)) (operator-chars op m).0),
          take_while-keep line gap' (version ++ rest)
              (all-imply is_space line gap' (λ c h. ground (arith, h)) g'),
          take_while-keep line version rest (all-imply is_version_char line version version-line v),
        )
        refl

  version_part_lem :
      all is_blank gap ≡ true
      → all is_space gap' ≡ true
      → all is_version_char version ≡ true
      → nonempty version ≡ true
      → strip (first_line (drop_while is_blank shown))
        ≡ (op ++ (gap' ++ (version ++ drop_end is_blank (first_line rest))))
  version_part_lem g g' v n =
      let ends =
        Ends-append op _ _ (Ends-append gap' _ _ (Ends-version version (first_line rest) v n)) in
      rw (drop_while-append is_blank gap _ g (op-stops_blank _), first_line-shown g' v)
        (strip_lem [] _ refl (op-stops_blank _) ∙ ends.0)

  -- The version of what is shown.
  pub version_lem :
      all is_blank gap ≡ true
      → all is_space gap' ≡ true
      → all is_version_char version ≡ true
      → nonempty version ≡ true
      → stops (λ c. b'=' == c) version ≡ true
      → stops is_version_char rest ≡ true
      → first_version operators (strip (first_line (drop_while is_blank shown))) ≡ version
  version_lem g g' v n eq r =
      let end = drop_end is_blank (first_line rest) in
      let end_stops : stops is_version_char end ≡ true =
        stops-drop_end is_blank is_version_char (first_line rest)
          (unfold first_line in stops-take_while _ is_version_char rest r) in
      let no_equals : stops (λ c. b'=' == c) (gap' ++ (version ++ end)) ≡ true =
        stops-gap is_space (λ c. b'=' == c) gap' _ space-no_equals g'
          (stops-front _ version end n eq) in
      rw (version_part_lem g g' v n) (
        first_version_lem op (gap' ++ (version ++ end)) version m no_equals
          (read_version_lem gap' version end g' v n end_stops) n)
