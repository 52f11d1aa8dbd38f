-- ===== src/Scanner/Requirement/Printed.antt =====
-- The requirements of the form are read back.
use schunk_fts_ros.Base.{
  ◌≡◌, refl, sym, ap, ◌∙◌, true, false, not, Option, none, some, [], ◌∷◌, ◌++◌, Text, arith, ◌==◌,
}
use mathlib.Core.List.{append-nil}
use schunk_fts_ros.Strings.{is_blank, strip, drop_while}
use schunk_fts_ros.Strings.Strip.{
  all, stops, take_while-append, drop_while-append, drop_end, drop_end-append, stops-drop_end,
  strip_lem,
}
use schunk_fts_ros.Scanner.Requirement.{
  is_name_char, extras, without_brackets, is_version_char, operators, first_version, first_line,
  match_requirement, parse_requirement_string,
}
use schunk_fts_ros.Scanner.Requirement.Form.{Form, bracketed, print, nonempty, IsForm}
use schunk_fts_ros.Scanner.Requirement.Characters.{
  all-imply, stops-append, name-nonblank, blank-name, op_char-name, blank-bracket,
}
use schunk_fts_ros.Scanner.Requirement.Version.{Ends-append, Ends-version, version_lem, shown-stops}
use schunk_fts_ros.Scanner.Requirement.Brackets.{extras_lem, without_brackets_lem}

match_lem :
    (name r : Text)
    → nonempty name ≡ true
    → match_requirement name r ≡ (
      strip (without_brackets false (name ++ (extras r).0)),
      first_version operators (strip (first_line (drop_while is_blank (extras r).1))),
    )
unfolding match_requirement
match_lem [] r n = ground (arith, n)
match_lem (c ∷ name) r n = refl

strip-name : (name : Text) → all is_name_char name ≡ true → strip name ≡ name
strip-name [] h = unfold strip in refl
strip-name (c ∷ name) h =
    let nonblank =
      all-imply is_name_char (λ c. not (is_blank c)) (c ∷ name)
        (λ c h. ground (arith, name-nonblank c h)) h in
    strip_lem [] (c ∷ name) refl (ground (arith, nonblank))
    ∙ ap (drop_end is_blank) (sym (append-nil (c ∷ name)))
    ∙ drop_end-append is_blank (c ∷ name) [] nonblank
    ∙ append-nil (c ∷ name)

strip-print :
    (f : Form)
    → IsForm f
    → strip (print f) ≡ (
        f.name
        ++ (bracketed f.extra
            ++ (f.gap ++ (f.op ++ (f.gap' ++ (f.version ++ drop_end is_blank f.rest))))))
strip-print f h =
    let core =
      Ends-append f.op _ _ (
        Ends-append f.gap' _ _
          (Ends-version f.version f.rest h.version_chars h.version_nonempty)) in
    let all_ends =
      Ends-append f.name _ _ (Ends-append (bracketed f.extra) _ _ (Ends-append f.gap _ _ core)) in
    strip_lem f.before _ h.before_blank
      (stops-append is_name_char is_blank f.name _ name-nonblank h.name_nonempty h.name_chars)
    ∙ all_ends.0

bracketed-stops_name :
    (e : Option Text) (t : Text)
    → stops is_name_char t ≡ true
    → stops is_name_char (bracketed e ++ t) ≡ true
unfolding is_name_char
bracketed-stops_name none t h = h
bracketed-stops_name (some e) t h = refl

-- A requirement that is written from its parts, blanks, a name, names in brackets or none, an
-- operator, a version and a rest, as `IsForm` says, is read as its name and its version.
pub parse-print : (f : Form) → IsForm f → parse_requirement_string (print f) ≡ (f.name, f.version)
unfolding parse_requirement_string
parse-print f h =
    let end = drop_end is_blank f.rest in
    let tail_part = f.gap ++ (f.op ++ (f.gap' ++ (f.version ++ end))) in
    let end_stops = stops-drop_end is_blank is_version_char f.rest h.rest_stops in
    let name_stops : stops is_name_char (bracketed f.extra ++ tail_part) ≡ true =
      bracketed-stops_name f.extra tail_part (
        shown-stops f.gap f.op f.gap' f.version end h.operator is_name_char blank-name op_char-name
          h.gap_blank) in
    let no_bracket : stops (λ c. c == b'[') tail_part ≡ true =
      shown-stops f.gap f.op f.gap' f.version end h.operator (λ c. c == b'[') blank-bracket
        (λ c e. ground (arith, e)) h.gap_blank in
    rw
      (
        strip-print f h,
        take_while-append is_name_char f.name (bracketed f.extra ++ tail_part) h.name_chars
            name_stops,
        drop_while-append is_name_char f.name (bracketed f.extra ++ tail_part) h.name_chars
            name_stops,
        match_lem f.name (bracketed f.extra ++ tail_part) h.name_nonempty,
        extras_lem f.extra tail_part h.extra_inner no_bracket,
        without_brackets_lem f.name f.extra h.name_chars h.extra_inner,
        strip-name f.name h.name_chars,
        version_lem f.gap f.op f.gap' f.version end h.operator h.gap_blank h.gap'_space
            h.version_chars h.version_nonempty h.no_equals end_stops,
      )
      refl
