-- ===== src/Scanner/Scan.antt =====
-- `ScanResult` and `run_scan` of security/cve_scanner.py. The files, the parser of Python, the
-- network and the time are arguments; what is printed is left out.
pub mod Reported
use schunk_fts_ros.Base.{
  ℕ, ◌+◌, Bool, true, false, Option, none, some, List, [], ◌∷◌, ◌++◌, map, Text, codes,
  if◌then◌else◌, length, Result, ok, err, ◌>>=◌,
}
use schunk_fts_ros.Strings.{contains, is_empty}
use schunk_fts_ros.Scanner.{Dependency, deduplicate_deps}
use schunk_fts_ros.Scanner.Sources.{File}
use schunk_fts_ros.Scanner.Sources.Setup.{Node, extract_setup_py_deps}
use schunk_fts_ros.Scanner.Sources.Cargo.{extract_cargo_lock_deps}
use schunk_fts_ros.Scanner.Sources.PackageXml.{Child, extract_package_xml_deps}
use schunk_fts_ros.Scanner.Web.{is_high, Vuln, Advisory, Web}
use schunk_fts_ros.Scanner.Osv.{scan_github_advisories, query_osv_batch, enrich_vulnerabilities}
use schunk_fts_ros.Scanner.Parse.{Vulnerability, parse_vulnerabilities, parse_github_advisory}

pub record ScanResult : Type 0 where
  pub timestamp : Text
  pub repository : Text
  pub dependencies_scanned : ℕ
  pub vulnerabilities_found : ℕ
  pub high_severity_count : ℕ
  pub dependencies : List Dependency
  pub vulnerabilities : List Vulnerability

-- What `rglob` finds under the root of the repository.
pub record Repository : Type 0 where
  pub setup_py : List File
  pub cargo_lock : List File
  pub package_xml : List (Text × Option (List Child))

abbrev pub repo_name : Text
repo_name = codes "SCHUNK-SE-Co-KG/schunk_force_torque_sensor"

-- `{v.vuln_id for v in all_vulns}`
abbrev pub ids : List Vulnerability → List Text
ids = map (λ (v : Vulnerability). v.vuln_id)

-- `[v for v in … if v.cvss_score >= CVSS_HIGH_THRESHOLD]`
unfoldable pub high_severity : List Vulnerability → List Vulnerability
unfolding is_high
high_severity [] = []
high_severity (v ∷ vs) = if is_high v.cvss_score then v ∷ high_severity vs else high_severity vs

-- `if vuln and vuln.vuln_id not in seen_ids: …`; the set holds the ids of the list.
unfoldable pub add_new : Option Vulnerability → List Vulnerability → List Vulnerability
add_new none all_vulns = all_vulns
add_new (some v) all_vulns =
    if contains v.vuln_id (ids all_vulns) then all_vulns else all_vulns ++ v ∷ []

unfoldable pub to_result : Text → List Dependency → List Vulnerability → ScanResult
unfolding high_severity
to_result timestamp all_deps all_vulns = record {
  timestamp = timestamp;
  repository = repo_name;
  dependencies_scanned = length all_deps;
  vulnerabilities_found = length all_vulns;
  high_severity_count = length (high_severity all_vulns);
  dependencies = all_deps;
  vulnerabilities = all_vulns;
}

unfoldable pub all_dependencies : (Text → Option (List Node)) → Repository → List Dependency
unfolding deduplicate_deps extract_setup_py_deps extract_cargo_lock_deps extract_package_xml_deps
all_dependencies parse files = deduplicate_deps (
    extract_setup_py_deps parse files.setup_py
    ++ extract_cargo_lock_deps files.cargo_lock
    ++ extract_package_xml_deps files.package_xml)

module _ (web : Web) where
  unfoldable pub add_advisories :
      Dependency → List Advisory → List Vulnerability → List Vulnerability
  unfolding add_new parse_github_advisory
  add_advisories d [] all_vulns = all_vulns
  add_advisories d (adv ∷ advs) all_vulns =
      add_advisories d advs (add_new (parse_github_advisory web d adv) all_vulns)

  -- One round of the loop over the dependencies.
  unfoldable pub scan_dependency : Dependency → List Vuln → List Vulnerability → List Vulnerability
  unfolding add_advisories parse_vulnerabilities scan_github_advisories
  scan_dependency d osv_vulns all_vulns =
      let all_vulns' = all_vulns ++ parse_vulnerabilities web d osv_vulns in
      if is_empty d.upstream_repo
      then all_vulns'
      else add_advisories d (scan_github_advisories web d) all_vulns'

  -- `for dep, osv_vulns in zip(…)`
  unfoldable pub scan_dependencies :
      List Dependency → List (List Vuln) → List Vulnerability → List Vulnerability
  unfolding scan_dependency
  scan_dependencies [] batch all_vulns = all_vulns
  scan_dependencies (d ∷ ds) [] all_vulns = all_vulns
  scan_dependencies (d ∷ ds) (vulns ∷ batch) all_vulns =
      scan_dependencies ds batch (scan_dependency d vulns all_vulns)

  unfoldable pub run_scan : (Text → Option (List Node)) → Repository → Text → Result ScanResult
  unfolding all_dependencies query_osv_batch enrich_vulnerabilities scan_dependencies to_result
  run_scan parse files timestamp = do
    let all_deps = all_dependencies parse files
    batch_results ← query_osv_batch web all_deps
    let found = scan_dependencies all_deps (enrich_vulnerabilities web batch_results) []
    ok (to_result timestamp all_deps found)
