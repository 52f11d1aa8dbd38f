-- ===== src/Scanner/Report/Cves.antt =====
-- The lines of the report that name the CVE ids of a vulnerability, and the counts of its summary.
use schunk_fts_ros.Base.{
  ℕ, ◌+◌, ◌≡◌, refl, ap, Bool, true, false, ◌&&◌, List, [], ◌∷◌, ◌++◌, Text, codes, same_self,
  length, ◌==◌, if◌then◌else◌, arith,
}
use mathlib.Core.List.{Memᴰ}
use mathlib.Core.List.Memᴰ.{head, tail}
use schunk_fts_ros.Strings.{after_prefix, starts_with, contains, join, is_empty}
use schunk_fts_ros.Strings.Sets.{contains-append}
use schunk_fts_ros.Scanner.Web.{Decimal}
use schunk_fts_ros.Scanner.Parse.{Vulnerability, dash}
use schunk_fts_ros.Scanner.Scan.{ScanResult}
use schunk_fts_ros.Scanner.Report.{
  of_package, of_ecosystem, cve_aliases, cve_str, vulnerability_lines, sections, found_lines,
  summary_lines, summary_row,
}

-- Whether the text begins with the prefix, character by character.
abbrev pub begins : Text → Text → Bool
begins [] t = true
begins (c ∷ p) [] = false
begins (c ∷ p) (d ∷ t) = c == d && begins p t

-- How many of the vulnerabilities are of a package of the ecosystem.
abbrev pub count : Text → List Vulnerability → ℕ
count start [] = 0
count start (v ∷ vs) = (if begins start v.affected_package then 1 else 0) + count start vs

-- The aliases that are CVE ids.
abbrev pub cves : List Text → List Text
cves [] = []
cves (a ∷ rest) = if begins (codes "CVE-") a then a ∷ cves rest else cves rest

abbrev pub listed : List Text → Text
listed [] = dash
listed (a ∷ rest) = join (codes ", ") (a ∷ rest)

abbrev pub cve_line : Vulnerability → Text
cve_line v = codes "- **CVE:** " ++ listed (cves v.aliases)

starts_with-begins : (p t : Text) → starts_with t p ≡ begins p t
unfolding starts_with after_prefix
starts_with-begins [] t = refl
starts_with-begins (c ∷ p) [] = refl
starts_with-begins (c ∷ p) (d ∷ t) = ground (arith, starts_with-begins p t)

length-of_package :
    (start : Text) (vs : List Vulnerability) → length (of_package start vs) ≡ count start vs
unfolding of_package
length-of_package start [] = refl
length-of_package start (v ∷ vs) =
    ground (arith, starts_with-begins start v.affected_package, length-of_package start vs)

cve_aliases-cves : (aliases : List Text) → cve_aliases aliases ≡ cves aliases
unfolding cve_aliases
cve_aliases-cves [] = refl
cve_aliases-cves (a ∷ rest) = rw (starts_with-begins (codes "CVE-") a, cve_aliases-cves rest) refl

shown_listed : (ts : List Text) → (if is_empty ts then dash else join (codes ", ") ts) ≡ listed ts
shown_listed [] = refl
shown_listed (t ∷ ts) = refl

cve_str-listed : (aliases : List Text) → cve_str aliases ≡ listed (cves aliases)
unfolding cve_str
cve_str-listed aliases = rw (cve_aliases-cves aliases) (shown_listed (cves aliases))

contains_here : (s t : Text) (ts : List Text) → s ≡ t → contains t (s ∷ ts) ≡ true
unfolding contains
contains_here s t ts e = rw e (ground (arith, same_self t))

contains_later : (s t : Text) (ts : List Text) → contains t ts ≡ true → contains t (s ∷ ts) ≡ true
unfolding contains
contains_later s t ts h = ground (arith, h)

contains_fifth :
    (a b c d t : Text) (ts : List Text)
    → contains t ts ≡ true
    → contains t (a ∷ b ∷ c ∷ d ∷ ts) ≡ true
contains_fifth a b c d t ts h =
    contains_later a t _ (contains_later b t _ (contains_later c t _ (contains_later d t ts h)))

-- A row of the summary: how many dependencies and how many vulnerabilities the ecosystem has.
abbrev pub counted_row : Text → Text → Text → ScanResult → Text
counted_row title name start r =
    summary_row title (length (of_ecosystem name r.dependencies)) (count start r.vulnerabilities)

-- Each of the three ecosystems has its row among the lines.
abbrev pub Counts : ScanResult → List Text → Type 0
Counts r lines =
    (contains (counted_row (codes "PyPI (Python)") (codes "PyPI") (codes "PyPI:") r) lines ≡ true)
    × (contains (counted_row (codes "crates.io (Rust)") (codes "crates.io") (codes "crates.io:") r)
          lines
        ≡ true)
    × (contains (counted_row (codes "ROS 2") (codes "ROS") (codes "ROS:") r) lines ≡ true)

pub summary_lines-Counts : (r : ScanResult) → Counts r (summary_lines r)
unfolding summary_lines
summary_lines-Counts r =
    let row = λ (title name start : Text).
      ap (summary_row title (length (of_ecosystem name r.dependencies)))
        (length-of_package start r.vulnerabilities) in
    (
      contains_fifth _ _ _ _ _ _
          (contains_here _ _ _ (row (codes "PyPI (Python)") (codes "PyPI") (codes "PyPI:"))),
      contains_fifth _ _ _ _ _ _ (
          contains_later _ _ _ (
            contains_here _ _ _
              (row (codes "crates.io (Rust)") (codes "crates.io") (codes "crates.io:")))),
      contains_fifth _ _ _ _ _ _ (
          contains_later _ _ _ (
            contains_later _ _ _
              (contains_here _ _ _ (row (codes "ROS 2") (codes "ROS") (codes "ROS:"))))),
    )

module _ (show_score : Decimal → Text) where
  contains-cve_line :
      (v : Vulnerability) → contains (cve_line v) (vulnerability_lines show_score v) ≡ true
  unfolding vulnerability_lines
  contains-cve_line v =
      let line = ap (λ t. codes "- **CVE:** " ++ t) (cve_str-listed v.aliases) in
      contains_fifth _ _ _ _ _ _ (contains_later _ _ _ (contains_here _ _ _ line))

  contains-sections_cve :
      (v : Vulnerability) (vs : List Vulnerability)
      → Memᴰ v vs
      → contains (cve_line v) (sections show_score vs) ≡ true
  unfolding sections
  contains-sections_cve v [] m = elim m [ ]
  contains-sections_cve v (x ∷ vs) (head e) =
      rw
        (
          e,
          contains-append (cve_line x) (vulnerability_lines show_score x) (sections show_score vs),
        )
        (ground (arith, contains-cve_line x))
  contains-sections_cve v (x ∷ vs) (tail m) =
      rw (contains-append (cve_line v) (vulnerability_lines show_score x) (sections show_score vs))
        (ground (arith, contains-sections_cve v vs m))

  pub contains-found_cve :
      (v : Vulnerability) (vs : List Vulnerability)
      → Memᴰ v vs
      → contains (cve_line v) (found_lines show_score vs) ≡ true
  unfolding found_lines contains
  contains-found_cve v [] m = elim m [ ]
  contains-found_cve v (x ∷ vs) m = ground (arith, contains-sections_cve v (x ∷ vs) m)
