-- ===== src/Examples/Scan.antt =====
-- The theorems on a scan and its reports, on examples.
use schunk_fts_ros.Base.{
  ◌≡◌, refl, true, false, not, ◌&&◌, some, none, List, [], ◌∷◌, ◌++◌, map, Text, codes, length, leb,
  ok, if◌then◌else◌,
}
use mathlib.Core.List.{Memᴰ}
use schunk_fts_ros.Strings.{contains, is_empty, is_some, show}
use schunk_fts_ros.Strings.Sets.{are_distinct}
use schunk_fts_ros.Scanner.{Dependency, key}
use schunk_fts_ros.Scanner.Requirement.{parse_requirement_string}
use schunk_fts_ros.Scanner.Sources.Setup.{normal}
use schunk_fts_ros.Scanner.Score.{compute_cvss_score}
use schunk_fts_ros.Scanner.Web.{is_high, Decimal, Vuln, Advisory, Query, Web}
use schunk_fts_ros.Scanner.Osv.{
  queries, query_osv_batch, scan_github_advisories, enrich_vulnerabilities,
}
use schunk_fts_ros.Scanner.Osv.Assign.{assign, replies, query_osv_batch-assign}
use schunk_fts_ros.Scanner.Osv.Sized.{IsSized, query_osv_batch-IsSized}
use schunk_fts_ros.Scanner.Osv.Advisories
use schunk_fts_ros.Scanner.Osv.Advisories.{scan_github_advisories_lem}
use schunk_fts_ros.Scanner.Scan.{ScanResult, ids, high_severity, all_dependencies, run_scan}
use schunk_fts_ros.Scanner.Scan.Reported.{answered, run_scan_reports}
use schunk_fts_ros.Scanner.Report.{newline, heading, report_lines, generate_markdown_report}
use schunk_fts_ros.Scanner.Report.Tables.{row}
use schunk_fts_ros.Scanner.Parse.{Vulnerability}
use schunk_fts_ros.Scanner.Report.{cve_aliases}
use schunk_fts_ros.Scanner.Report.Cves.{cve_line, Counts}
use schunk_fts_ros.Scanner.Report.Complete.{report-IsComplete}
use schunk_fts_ros.Scanner.Alert.{Reports, Exit, main}
use schunk_fts_ros.Scanner.Alert.High.{high_answered, high-main}
use schunk_fts_ros.Scanner.Alert.Outcome.{any_high, main_lem}
use schunk_fts_ros.Examples.Collect.{found, parse, files}

abbrev entry : Text → Vuln
entry id = record {
  id = some id;
  summary = some (codes "an overflow");
  details = none;
  scores = [];
  database_severity = some (codes "high");
  aliases = [];
  affected = [];
  urls = [];
}

abbrev advisory : Text → Advisory
advisory id = record {
  ghsa_id = some id;
  summary = none;
  severity = none;
  cve_id = none;
  html_url = none;
}

-- Services that know one entry for each package, and one advisory, which is found twice.
abbrev services : Web
services = record {
  page = λ t. none;
  entry = λ t. none;
  advisories = λ ecosystem repo. some (advisory (codes "GHSA-1") ∷ []);
  repo_advisories = λ repo. none;
  batch = λ qs. some (map (λ (q : Query). entry q.name ∷ []) qs);
  vuln = λ t. none;
}

abbrev ros_package : Dependency
ros_package = record {
  name = codes "rclpy";
  version = [];
  ecosystem = codes "ROS";
  source = codes "package.xml";
  upstream_repo = codes "ros2/rclpy";
}

query_osv_batch-assign_example :
    query_osv_batch services (ros_package ∷ found)
    ≡ assign (ros_package ∷ found) (replies services (ros_package ∷ found))
query_osv_batch-assign_example = query_osv_batch-assign services (ros_package ∷ found)

query_osv_batch-IsSized_example :
    IsSized found
      (leb (length (replies services found)) (length (queries found)))
      (query_osv_batch services found)
query_osv_batch-IsSized_example = query_osv_batch-IsSized services found

scan_github_advisories_lem_example :
    (are_distinct (Advisories.ids (scan_github_advisories services ros_package)) ≡ true)
    × ((t : Text)
        → contains t (Advisories.ids (scan_github_advisories services ros_package)) ≡ (
            contains t (Advisories.reply_ids (Advisories.asked services ros_package.upstream_repo))
            && not (is_empty t)))
scan_github_advisories_lem_example = scan_github_advisories_lem services ros_package refl

-- The replies to the batch, in the places of the dependencies.
abbrev batch : List (List Vuln)
batch = (entry (codes "numpy") ∷ []) ∷ (entry (codes "tokio") ∷ []) ∷ [] ∷ []

batch_placed : query_osv_batch services (all_dependencies parse files) ≡ ok batch
unfolding query_osv_batch all_dependencies parse_requirement_string contains normal key
batch_placed = refl

run_scan_reports_example :
    (r : ScanResult) × (run_scan services parse files [] ≡ ok r)
    × (r.dependencies ≡ all_dependencies parse files)
    × (r.dependencies_scanned ≡ length r.dependencies)
    × (r.vulnerabilities_found ≡ length r.vulnerabilities)
    × (r.high_severity_count ≡ length (high_severity r.vulnerabilities))
    × ((t : Text)
        → contains t (ids r.vulnerabilities)
          ≡ contains t (
              answered services
                (all_dependencies parse files)
                (enrich_vulnerabilities services batch)))
run_scan_reports_example = run_scan_reports services parse files [] batch batch_placed

abbrev show_score : Decimal → Text
show_score d = show d.mantissa

report-IsComplete_example :
    (r : ScanResult) × (run_scan services parse files [] ≡ ok r)
    × ((d : Dependency)
        → Memᴰ d (all_dependencies parse files)
        → contains (row d) (report_lines show_score r) ≡ true)
    × ((t : Text)
        → contains t (
            answered services
              (all_dependencies parse files)
              (enrich_vulnerabilities services batch))
          ≡ true
        → contains (heading t) (report_lines show_score r) ≡ true)
    × ((v : Vulnerability)
        → Memᴰ v r.vulnerabilities
        → contains (cve_line v) (report_lines show_score r) ≡ true)
    × Counts r (report_lines show_score r)
report-IsComplete_example = report-IsComplete show_score services parse files [] batch batch_placed

cve_aliases_kept : cve_aliases (codes "GHSA-1" ∷ codes "CVE-2024-1" ∷ []) ≡ codes "CVE-2024-1" ∷ []
unfolding cve_aliases
cve_aliases_kept = refl

abbrev old_alert : Reports
old_alert = record {
  cve_report_json = none;
  cve_report_md = none;
  alert_high_severity = some (codes "old");
  github_output = some [];
}

main_lem_example :
    (r : ScanResult) × (e : Exit) × (run_scan services parse files [] ≡ ok r)
    × (main show_score (λ r. []) services parse files [] true old_alert
        ≡ ok (record { code = 0; reports = old_alert }))
    × (main show_score (λ r. []) services parse files [] false old_alert ≡ ok e)
    × (e.code ≡ (
        if is_empty
          (answered services (all_dependencies parse files) (enrich_vulnerabilities services batch))
        then 0
        else 1))
    × (e.reports.cve_report_md ≡ some (generate_markdown_report show_score r))
    × (e.reports.cve_report_json ≡ some ([] ++ newline))
    × (is_some e.reports.alert_high_severity ≡ any_high r.vulnerabilities)
main_lem_example =
    main_lem show_score (λ r. []) services parse files [] batch old_alert batch_placed

high_expected :
    high_answered services (all_dependencies parse files) (enrich_vulnerabilities services batch)
    ≡ true
unfolding all_dependencies enrich_vulnerabilities parse_requirement_string contains normal is_high
    compute_cvss_score
high_expected = refl

high-main_example :
    (e : Exit) × (main show_score (λ r. []) services parse files [] false old_alert ≡ ok e)
    × (e.code ≡ 1)
    × (is_some e.reports.alert_high_severity ≡ true)
high-main_example =
    high-main show_score (λ r. []) services parse files [] batch old_alert batch_placed
      high_expected
