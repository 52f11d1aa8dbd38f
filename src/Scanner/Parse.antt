-- ===== src/Scanner/Parse.antt =====
-- `Vulnerability`, `parse_vulnerabilities` and `parse_github_advisory` of security/cve_scanner.py.
use schunk_fts_ros.Base.{
  Bool, false, Option, none, some, List, [], ◌∷◌, ◌++◌, map, Text, codes, same, ltb, if◌then◌else◌,
  length, take,
}
use schunk_fts_ros.Strings.{upper, join, find, or_else, is_empty}
use schunk_fts_ros.Scanner.{Dependency}
use schunk_fts_ros.Scanner.Web.{Decimal, Affected, Vuln, Advisory, Web}
use schunk_fts_ros.Scanner.Score.{
  severity_label_scores, zero_score, extract_severity, fetch_ghsa_cvss_score, compute_cvss_score,
}

pub record Vulnerability : Type 0 where
  pub vuln_id : Text
  pub summary : Text
  pub severity : Text
  pub cvss_score : Decimal
  pub affected_package : Text
  pub affected_versions : Text
  pub fixed_version : Text
  pub references : List Text
  pub aliases : List Text

abbrev pub no_summary : Text
no_summary = codes "Keine Beschreibung"

abbrev pub dash : Text
dash = codes "–"

unfoldable pub first_fixed : List (Option Text) → Option Text
first_fixed [] = none
first_fixed (some version ∷ events) = some version
first_fixed (none ∷ events) = first_fixed events

-- `_extract_fixed_version`, on the ranges.
unfoldable pub extract_fixed_version : List (List (Option Text)) → Text
unfolding first_fixed
extract_fixed_version [] = dash
extract_fixed_version (events ∷ ranges) = elim (first_fixed events) [
  | some version ↦ version
  | none ↦ extract_fixed_version ranges
]

unfoldable pub shown_versions : List Text → Text
unfolding join
shown_versions versions =
    join (codes ", ") (take 10 versions) ++ (if ltb 10 (length versions) then codes " …" else [])

abbrev pub is_named : Option Text → Text → Bool
is_named none name = false
is_named (some t) name = same t name

-- The loop over `affected`: the versions that it shows, and the one that has the fix.
unfoldable pub affected_of : Text → List Affected → Text × Text
unfolding extract_fixed_version shown_versions
affected_of name [] = ([], dash)
affected_of name (a ∷ rest) =
    if is_named a.package_name name
    then (shown_versions a.versions, extract_fixed_version a.ranges)
    else affected_of name rest

-- `[r.get("url", "") for r in … if r.get("url")]`
unfoldable pub urls_of : List (Option Text) → List Text
urls_of [] = []
urls_of (none ∷ rest) = urls_of rest
urls_of (some t ∷ rest) = if is_empty t then urls_of rest else t ∷ urls_of rest

-- The text that names the package of an OSV entry.
unfoldable pub osv_package : Dependency → Text
osv_package d =
    d.ecosystem
    ++ codes ":"
    ++ d.name
    ++ (if is_empty d.version then [] else codes "@" ++ d.version)

unfoldable pub ros_package : Dependency → Text
ros_package d =
    codes "ROS:"
    ++ d.name
    ++ (if is_empty d.upstream_repo then [] else codes " (" ++ d.upstream_repo ++ codes ")")

module _ (web : Web) where
  -- The body of the loop of `parse_vulnerabilities`.
  unfoldable pub parse_vulnerability : Dependency → Vuln → Vulnerability
  unfolding affected_of urls_of extract_severity compute_cvss_score osv_package
  parse_vulnerability d v =
      let severity = extract_severity v in
      let (affected_versions, fixed_version) = affected_of d.name v.affected in
      record {
        vuln_id = or_else v.id (codes "?");
        summary = take 300 (or_else v.summary (or_else v.details no_summary));
        severity = severity;
        cvss_score = compute_cvss_score web v severity;
        affected_package = osv_package d;
        affected_versions = affected_versions;
        fixed_version = fixed_version;
        references = take 5 (urls_of v.urls);
        aliases = v.aliases;
      }

  unfoldable pub parse_vulnerabilities : Dependency → List Vuln → List Vulnerability
  unfolding parse_vulnerability
  parse_vulnerabilities d = map (parse_vulnerability d)

  -- The score of a GitHub advisory.
  unfoldable pub advisory_score : Text → Text → Decimal
  unfolding fetch_ghsa_cvss_score find upper
  advisory_score ghsa_id severity = elim (fetch_ghsa_cvss_score web ghsa_id) [
    | some d ↦ d
    | none ↦ or_else (find (upper severity) severity_label_scores) zero_score
  ]

  -- The vulnerability of an advisory that has the id.
  unfoldable pub advisory_vulnerability : Dependency → Text → Advisory → Vulnerability
  unfolding advisory_score ros_package
  advisory_vulnerability d ghsa_id adv =
      let severity = or_else adv.severity (codes "UNKNOWN") in
      let cve_id = or_else adv.cve_id [] in
      let html_url = or_else adv.html_url [] in
      record {
        vuln_id = ghsa_id;
        summary = take 300 (or_else adv.summary no_summary);
        severity = severity;
        cvss_score = advisory_score ghsa_id severity;
        affected_package = ros_package d;
        affected_versions = [];
        fixed_version = dash;
        references = take 5 (if is_empty html_url then [] else html_url ∷ []);
        aliases = ghsa_id ∷ (if is_empty cve_id then [] else cve_id ∷ []);
      }

  unfoldable pub parse_github_advisory : Dependency → Advisory → Option Vulnerability
  unfolding advisory_vulnerability
  parse_github_advisory d adv =
      let ghsa_id = or_else adv.ghsa_id [] in
      if is_empty ghsa_id then none else some (advisory_vulnerability d ghsa_id adv)
