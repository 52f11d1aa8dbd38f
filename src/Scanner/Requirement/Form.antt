-- ===== src/Scanner/Requirement/Form.antt =====
-- The requirements with a version that `_parse_requirement_string` of security/cve_scanner.py is for.
use schunk_fts_ros.Base.{
  ℕ, ◌≡◌, Bool, true, false, not, ◌&&◌, Option, none, some, [], ◌∷◌, ◌++◌, Text, ◌==◌,
}
use mathlib.Core.List.{Memᴰ}
use schunk_fts_ros.Strings.{is_blank}
use schunk_fts_ros.Strings.Strip.{all, stops}
use schunk_fts_ros.Scanner.Requirement.{is_name_char, is_version_char, operators}

-- `before name[extra] gap op gap' version rest`, as in `requests[security] >= 2.31, <3`.
pub record Form : Type 0 where
  pub before : Text
  pub name : Text
  pub extra : Option Text
  pub gap : Text
  pub op : Text
  pub gap' : Text
  pub version : Text
  pub rest : Text

abbrev pub bracketed : Option Text → Text
bracketed none = []
bracketed (some t) = b'[' ∷ (t ++ b']' ∷ [])

-- The text behind the name and what stands in brackets.
abbrev pub constraint : Form → Text
constraint f = f.op ++ (f.gap' ++ (f.version ++ f.rest))

abbrev pub print : Form → Text
print f = f.before ++ (f.name ++ (bracketed f.extra ++ (f.gap ++ constraint f)))

-- Neither the end of a bracket nor of a line.
abbrev pub is_inner : ℕ → Bool
is_inner c = not (c == b']') && not (c == b'\n')

abbrev pub is_extra : Option Text → Bool
is_extra none = true
is_extra (some t) = all is_inner t

-- A blank that does not end the line.
abbrev pub is_space : ℕ → Bool
is_space c = is_blank c && not (c == b'\n')

abbrev pub nonempty : Text → Bool
nonempty [] = false
nonempty (c ∷ t) = true

-- The name, and the version, are not empty and made of their characters; the version does not
-- start with `=`, and ends where the rest starts.
pub record IsForm (f : Form) : Type 0 where
  pub before_blank : all is_blank f.before ≡ true
  pub name_chars : all is_name_char f.name ≡ true
  pub name_nonempty : nonempty f.name ≡ true
  pub extra_inner : is_extra f.extra ≡ true
  pub gap_blank : all is_blank f.gap ≡ true
  pub operator : Memᴰ f.op operators
  pub gap'_space : all is_space f.gap' ≡ true
  pub version_chars : all is_version_char f.version ≡ true
  pub version_nonempty : nonempty f.version ≡ true
  pub no_equals : stops (λ c. b'=' == c) f.version ≡ true
  pub rest_stops : stops is_version_char f.rest ≡ true
