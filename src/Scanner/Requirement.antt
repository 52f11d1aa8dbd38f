-- ===== src/Scanner/Requirement.antt =====
-- `_parse_requirement_string` of security/cve_scanner.py. Its regular expressions are written out:
-- the classes of their parts do not overlap, so that each part takes as much as it can and nothing
-- is given back, but for the operator of a version.
pub mod Form
pub mod Characters
pub mod Version
pub mod Brackets
pub mod Printed
use schunk_fts_ros.Base.{
  ℕ, Bool, true, false, not, ◌&&◌, ◌||◌, Option, none, some, List, [], ◌∷◌, ◌++◌, Text, codes, leb,
  ◌==◌, if◌then◌else◌,
}
use schunk_fts_ros.Strings.{is_blank, drop_while, take_while, strip, after_prefix}

-- `[a-zA-Z0-9_.-]`
unfoldable pub is_name_char : ℕ → Bool
is_name_char c =
    leb b'a' c && leb c b'z'
    || leb b'A' c && leb c b'Z'
    || leb b'0' c && leb c b'9'
    || c == b'_'
    || c == b'.'
    || c == b'-'

-- `\[[^\]]*\]` after its first character: the rest of it, and what follows.
unfoldable pub to_bracket : Text → Option (Text × Text)
to_bracket [] = none
to_bracket (c ∷ t) =
    if c == b']'
    then some (c ∷ [], t)
    else elim (to_bracket t) [ none ↦ none | some (inner, r) ↦ some (c ∷ inner, r) ]

-- `(?:\[[^\]]*\])?`: what it takes, and what follows.
unfoldable pub extras : Text → Text × Text
unfolding to_bracket
extras [] = ([], [])
extras (c ∷ t) =
    if c == b'['
    then elim (to_bracket t) [ none ↦ ([], c ∷ t) | some (inner, r) ↦ (c ∷ inner, r) ]
    else ([], c ∷ t)

-- `.*?\]`: whether a bracket closes on this line.
unfoldable pub closes : Text → Bool
closes [] = false
closes (c ∷ t) = if c == b']' then true else if c == b'\n' then false else closes t

-- `re.sub(r"\[.*?\]", "", t)`; the flag says that a bracket is being left out.
unfoldable pub without_brackets : Bool → Text → Text
unfolding closes
without_brackets inside [] = []
without_brackets true (c ∷ t) = without_brackets (not (c == b']')) t
without_brackets false (c ∷ t) = elim (c == b'[' && closes t) [
  | true ↦ without_brackets true t
  | false ↦ c ∷ without_brackets false t
]

-- `[^\s,;]`
unfoldable pub is_version_char : ℕ → Bool
unfolding is_blank
is_version_char c = not (is_blank c || c == b',' || c == b';')

-- `\s*([^\s,;]+)`
unfoldable pub read_version : Text → Text
unfolding is_version_char drop_while take_while
read_version t = take_while is_version_char (drop_while is_blank t)

abbrev pub operators : List Text
operators =
    codes "==" ∷ codes ">=" ∷ codes "<=" ∷ codes "~=" ∷ codes "!=" ∷ codes "<" ∷ codes ">" ∷ []

abbrev pub nonempty_or : Text → Text → Text
nonempty_or [] u = u
nonempty_or (c ∷ t) u = c ∷ t

-- The first operator with a version behind it decides.
unfoldable pub first_version : List Text → Text → Text
unfolding after_prefix read_version
first_version [] t = []
first_version (op ∷ ops) t = elim (after_prefix op t) [
  | none ↦ first_version ops t
  | some r ↦ nonempty_or (read_version r) (first_version ops t)
]

-- `.*`
unfoldable pub first_line : Text → Text
unfolding take_while
first_line = take_while (λ c. not (c == b'\n'))

-- The parts of the match, if the name is not empty.
unfoldable pub match_requirement : Text → Text → Text × Text
unfolding extras without_brackets strip first_version first_line
match_requirement [] r = ([], [])
match_requirement (c ∷ run) r =
    let (bracket, r') = extras r in
    let version_part = strip (first_line (drop_while is_blank r')) in
    let name = strip (without_brackets false ((c ∷ run) ++ bracket)) in
    (name, first_version operators version_part)

unfoldable pub parse_requirement_string : Text → Text × Text
unfolding match_requirement is_name_char
parse_requirement_string req =
    let t = strip req in match_requirement (take_while is_name_char t) (drop_while is_name_char t)
