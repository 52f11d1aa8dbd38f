-- ===== src/Scanner/Requirement/Brackets.antt =====
-- How the extra names in brackets are left out.
use schunk_fts_ros.Base.{
  ◌≡◌, refl, ap, true, false, Option, none, some, [], ◌∷◌, ◌++◌, Text, arith, ◌==◌,
}
use mathlib.Core.List.{append_assoc}
use schunk_fts_ros.Strings.Strip.{all, stops}
use schunk_fts_ros.Scanner.Requirement.{is_name_char, to_bracket, extras, closes, without_brackets}
use schunk_fts_ros.Scanner.Requirement.Form.{bracketed, is_inner, is_extra}

to_bracket_lem :
    (t u : Text) → all is_inner t ≡ true → to_bracket (t ++ (b']' ∷ u)) ≡ some (t ++ b']' ∷ [], u)
unfolding to_bracket
to_bracket_lem [] u h = refl
to_bracket_lem (c ∷ t) u h = ground (arith, h, to_bracket_lem t u)

pub extras_lem :
    (e : Option Text) (u : Text)
    → is_extra e ≡ true
    → stops (λ c. c == b'[') u ≡ true
    → extras (bracketed e ++ u) ≡ (bracketed e, u)
unfolding extras
extras_lem none [] h s = refl
extras_lem none (c ∷ u) h s = ground (arith, s)
extras_lem (some t) u h s = rw (append_assoc t (b']' ∷ []) u, to_bracket_lem t u h) refl

closes_lem : (t : Text) → all is_inner t ≡ true → closes (t ++ b']' ∷ []) ≡ true
unfolding closes
closes_lem [] h = refl
closes_lem (c ∷ t) h = ground (arith, h, closes_lem t)

inside_lem : (t : Text) → all is_inner t ≡ true → without_brackets true (t ++ b']' ∷ []) ≡ []
unfolding without_brackets
inside_lem [] h = refl
inside_lem (c ∷ t) h =
    let not_end : (c == b']') ≡ false = ground (arith, h) in
    rw (without_brackets, not_end) (inside_lem t (ground (arith, h)))

pub without_brackets_lem :
    (name : Text) (e : Option Text)
    → all is_name_char name ≡ true
    → is_extra e ≡ true
    → without_brackets false (name ++ bracketed e) ≡ name
unfolding without_brackets is_name_char
without_brackets_lem [] none h i = refl
without_brackets_lem [] (some t) h i = rw (without_brackets, closes_lem t i) (inside_lem t i)
without_brackets_lem (c ∷ name) e h i =
    let no_bracket : (c == b'[') ≡ false = ground (arith, h) in
    rw (without_brackets, no_bracket)
      (ap (λ t. c ∷ t) (without_brackets_lem name e (ground (arith, h)) i))
