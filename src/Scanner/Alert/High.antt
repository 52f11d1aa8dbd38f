-- ===== src/Scanner/Alert/High.antt =====
-- No high entry of OSV is lost on the way to the alert.
use schunk_fts_ros.Base.{
  ◌≡◌, refl, Bool, true, false, ◌||◌, Option, none, some, List, [], ◌∷◌, ◌++◌, Text, ◌∙◌, arith, ok,
  length, ltb, if◌then◌else◌,
}
use schunk_fts_ros.Strings.{is_some, is_empty}
use schunk_fts_ros.Scanner.{Dependency}
use schunk_fts_ros.Scanner.Sources.Setup.{Node}
use schunk_fts_ros.Scanner.Web.{Decimal, Vuln, Advisory, Web, is_high}
use schunk_fts_ros.Scanner.Score.{extract_severity, compute_cvss_score}
use schunk_fts_ros.Scanner.Osv.{query_osv_batch, enrich_vulnerabilities, scan_github_advisories}
use schunk_fts_ros.Scanner.Parse.{
  Vulnerability, parse_vulnerability, parse_vulnerabilities, parse_github_advisory,
}
use schunk_fts_ros.Scanner.Scan.{
  ScanResult, Repository, all_dependencies, run_scan, to_result, add_new, add_advisories,
  scan_dependency, scan_dependencies,
}
use schunk_fts_ros.Scanner.Alert.{Reports, Exit, main, finish}
use schunk_fts_ros.Scanner.Alert.Outcome.{any_high, any_high_lem, finish-reports}

any_high-append : (vs ws : List Vulnerability) → any_high (vs ++ ws) ≡ (any_high vs || any_high ws)
any_high-append [] ws = refl
any_high-append (v ∷ vs) ws = ground (arith, any_high-append vs ws)

any_high-add_new :
    (r : Option Vulnerability) (vs : List Vulnerability)
    → any_high vs ≡ true
    → any_high (add_new r vs) ≡ true
unfolding add_new
any_high-add_new none vs h = h
any_high-add_new (some v) vs h = ground (arith, h, any_high-append vs (v ∷ []))

any_high-either :
    (b : Bool) (vs ws : List Vulnerability)
    → any_high vs ≡ true
    → any_high ws ≡ true
    → any_high (if b then vs else ws) ≡ true
any_high-either true vs ws h k = h
any_high-either false vs ws h k = k

any_high-some : (vs : List Vulnerability) → any_high vs ≡ true → ltb 0 (length vs) ≡ true
any_high-some [] h = ground (arith, h)
any_high-some (v ∷ vs) h = ground arith

module _ (web : Web) where
  -- The entry is scored as high.
  abbrev pub is_high_entry : Vuln → Bool
  is_high_entry v = is_high (compute_cvss_score web v (extract_severity v))

  abbrev pub any_high_entry : List Vuln → Bool
  any_high_entry [] = false
  any_high_entry (v ∷ vs) = is_high_entry v || any_high_entry vs

  -- Some entry that stands for a dependency is high.
  abbrev pub high_answered : List Dependency → List (List Vuln) → Bool
  high_answered [] batch = false
  high_answered (d ∷ ds) [] = false
  high_answered (d ∷ ds) (vulns ∷ batch) = any_high_entry vulns || high_answered ds batch

  any_high-parse :
      (d : Dependency) (vs : List Vuln)
      → any_high (parse_vulnerabilities web d vs) ≡ any_high_entry vs
  unfolding parse_vulnerabilities parse_vulnerability
  any_high-parse d [] = refl
  any_high-parse d (v ∷ vs) = cc (any_high-parse d vs)

  any_high-add_advisories :
      (d : Dependency) (advs : List Advisory) (vs : List Vulnerability)
      → any_high vs ≡ true
      → any_high (add_advisories web d advs vs) ≡ true
  unfolding add_advisories
  any_high-add_advisories d [] vs h = h
  any_high-add_advisories d (adv ∷ advs) vs h =
      any_high-add_advisories d advs _ (any_high-add_new (parse_github_advisory web d adv) vs h)

  any_high-scan_dependency :
      (d : Dependency) (vulns : List Vuln) (vs : List Vulnerability)
      → (any_high vs || any_high_entry vulns) ≡ true
      → any_high (scan_dependency web d vulns vs) ≡ true
  unfolding scan_dependency
  any_high-scan_dependency d vulns vs h =
      let parsed = parse_vulnerabilities web d vulns in
      let before : any_high (vs ++ parsed) ≡ true =
        rw (any_high-append vs parsed, any_high-parse d vulns) h in
      any_high-either (is_empty d.upstream_repo) (vs ++ parsed) _ before
        (any_high-add_advisories d (scan_github_advisories web d) (vs ++ parsed) before)

  any_high-scan_dependencies :
      (ds : List Dependency) (batch : List (List Vuln)) (vs : List Vulnerability)
      → (any_high vs || high_answered ds batch) ≡ true
      → any_high (scan_dependencies web ds batch vs) ≡ true
  unfolding scan_dependencies
  any_high-scan_dependencies [] batch vs h = ground (arith, h)
  any_high-scan_dependencies (d ∷ ds) [] vs h = ground (arith, h)
  any_high-scan_dependencies (d ∷ ds) (vulns ∷ batch) vs h =
      any_high-scan_dependencies ds batch (scan_dependency web d vulns vs)
        (ground (arith, h, any_high-scan_dependency d vulns vs))

-- If an entry that OSV answered for a dependency is scored as high, the run without the option for
-- JSON only ends with the exit code 1 and leaves the file of the alert.
pub high-main :
    (show_score : Decimal → Text) (dumps : ScanResult → Text) (web : Web)
    (parse : Text → Option (List Node)) (files : Repository) (timestamp : Text)
    (batch : List (List Vuln)) (s : Reports)
    → query_osv_batch web (all_dependencies parse files) ≡ ok batch
    → high_answered web (all_dependencies parse files) (enrich_vulnerabilities web batch) ≡ true
    → (e : Exit) × (main show_score dumps web parse files timestamp false s ≡ ok e)
      × (e.code ≡ 1)
      × (is_some e.reports.alert_high_severity ≡ true)
unfolding main run_scan to_result finish
high-main show_score dumps web parse files timestamp batch s h k =
    let deps = all_dependencies parse files in
    let found = scan_dependencies web deps (enrich_vulnerabilities web batch) [] in
    let high : any_high found ≡ true =
      any_high-scan_dependencies web deps (enrich_vulnerabilities web batch) []
        (ground (arith, k)) in
    let r = to_result timestamp deps found in
    let (_, _, alert) = finish-reports show_score dumps r s in
    (
      finish show_score dumps r false s,
      rw h refl,
      rw (any_high-some found high) refl,
      alert ∙ any_high_lem found ∙ high,
    )
