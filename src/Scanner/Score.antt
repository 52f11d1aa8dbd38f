-- ===== src/Scanner/Score.antt =====
-- The score of a vulnerability: `_fetch_ghsa_cvss_score`, `_extract_severity` and
-- `_compute_cvss_score` of security/cve_scanner.py. The digits of a score on a page are ASCII.
pub mod Page
use schunk_fts_ros.Base.{
  ℕ, ◌+◌, ◌-◌, ◌*◌, Bool, false, ◌&&◌, Option, none, some, List, [], ◌∷◌, ◌++◌, Text, codes, leb,
  ◌==◌, if◌then◌else◌, length, drop,
}
use schunk_fts_ros.Strings.{
  drop_while, take_while, upper, starts_with, partition, occurs, find, or_else, is_empty,
}
use schunk_fts_ros.Scanner.Web.{Decimal, is_positive, Cvss, Vuln, Web}

abbrev pub severity_label_scores : List (Text × Decimal)
severity_label_scores =
    (codes "CRITICAL", record { mantissa = 90; places = 1 })
    ∷ (codes "HIGH", record { mantissa = 75; places = 1 })
    ∷ (codes "MODERATE", record { mantissa = 50; places = 1 })
    ∷ (codes "MEDIUM", record { mantissa = 50; places = 1 })
    ∷ (codes "LOW", record { mantissa = 25; places = 1 })
    ∷ []

abbrev pub is_digit : ℕ → Bool
is_digit c = leb b'0' c && leb c b'9'

unfoldable pub value_of : ℕ → Text → ℕ
value_of acc [] = acc
value_of acc (c ∷ t) = value_of (acc * 10 + (c - b'0')) t

-- `float` of digits, a point and digits.
unfoldable pub to_decimal : Text → Text → Decimal
unfolding value_of
to_decimal whole fraction = record {
  mantissa = value_of 0 (whole ++ fraction);
  places = length fraction;
}

abbrev pub begins_with : ℕ → Text → Bool
begins_with c [] = false
begins_with c (d ∷ t) = c == d

-- `(\d+\.\d+)<`, which may follow a `>`.
unfoldable pub match_number : Text → Option Decimal
unfolding drop_while take_while to_decimal
match_number t =
    let whole = take_while is_digit t in
    let point = drop_while is_digit t in
    let fraction = take_while is_digit (drop 1 point) in
    let rest = drop_while is_digit (drop 1 point) in
    if begins_with b'.' point
    then (if begins_with b'<' rest
        then (if is_empty whole
            then none
            else (if is_empty fraction then none else some (to_decimal whole fraction)))
        else none)
    else none

-- The last of `findall`: matches do not overlap, since each has one `>`, its first character.
unfoldable pub last_number : Text → Option Decimal
unfolding match_number
last_number [] = none
last_number (c ∷ t) = elim (last_number t) [
  | some d ↦ some d
  | none ↦ if c == b'>' then match_number t else none
]

-- The score on the page: in the 3000 characters before the first "/ 10".
unfoldable pub page_score : Text → Option Decimal
unfolding partition last_number
page_score page = elim (partition (codes "/ 10") page) [
  | none ↦ none
  | some (before, after) ↦ last_number (drop (length before - 3000) before)
]

unfoldable pub positive_score : Option Decimal → Option Decimal
positive_score none = none
positive_score (some d) = if is_positive d then some d else none

unfoldable pub entry_score : Option Cvss → Option Decimal
unfolding positive_score
entry_score none = none
entry_score (some e) = elim (positive_score e.cvss_v4) [
  | some d ↦ some d
  | none ↦ positive_score e.cvss
]

-- `_extract_severity`
unfoldable pub first_score : List (Option Text) → Option Text
first_score [] = none
first_score (none ∷ scores) = first_score scores
first_score (some t ∷ scores) = if is_empty t then first_score scores else some t

unfoldable pub extract_severity : Vuln → Text
unfolding first_score
extract_severity v = elim (first_score v.scores) [
  | some t ↦ t
  | none ↦
      let severity = or_else v.database_severity [] in
      if is_empty severity then codes "UNKNOWN" else severity
]

-- `if alias.startswith("GHSA-")`
unfoldable pub first_ghsa : List Text → Text
unfolding starts_with
first_ghsa [] = []
first_ghsa (t ∷ ts) = if starts_with t (codes "GHSA-") then t else first_ghsa ts

unfoldable pub ghsa_of : Text → List Text → Text
unfolding first_ghsa
ghsa_of vuln_id aliases =
    if starts_with vuln_id (codes "GHSA-") then vuln_id else first_ghsa aliases

-- `for label in SEVERITY_LABEL_SCORES: if label in upper: …`
unfoldable pub label_within : Text → List (Text × Decimal) → Option Decimal
unfolding occurs
label_within t [] = none
label_within t ((label, d) ∷ rest) = if occurs label t then some d else label_within t rest

abbrev pub zero_score : Decimal
zero_score = record { mantissa = 0; places = 1 }

-- The second step of `_compute_cvss_score`.
unfoldable pub label_score : Vuln → Text → Decimal
unfolding label_within find upper
label_score v severity_str =
    elim (find (upper (or_else v.database_severity [])) severity_label_scores) [
      | some d ↦ d
      | none ↦ or_else (label_within (upper severity_str) severity_label_scores) zero_score
    ]

module _ (web : Web) where
  unfoldable pub fetch_ghsa_cvss_score : Text → Option Decimal
  unfolding page_score entry_score
  fetch_ghsa_cvss_score ghsa_id = elim (web.page ghsa_id) [
    | none ↦ entry_score (web.entry ghsa_id)
    | some page ↦ elim (page_score page) [
      | some d ↦ some d
      | none ↦ entry_score (web.entry ghsa_id)
    ]
  ]

  unfoldable pub compute_cvss_score : Vuln → Text → Decimal
  unfolding fetch_ghsa_cvss_score ghsa_of label_score
  compute_cvss_score v severity_str =
      let ghsa_id = ghsa_of (or_else v.id []) v.aliases in
      or_else (if is_empty ghsa_id then none else fetch_ghsa_cvss_score ghsa_id)
        (label_score v severity_str)
