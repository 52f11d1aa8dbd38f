-- ===== src/Scanner/Report.antt =====
-- `generate_markdown_report` of security/cve_scanner.py. How a score is
-- shown with one digit after the point is an argument, since the scores are floats there.
pub mod Body
pub mod Tables
pub mod Cves
pub mod Complete
use schunk_fts_ros.Base.{
  ℕ, zero, suc, List, [], ◌∷◌, ◌++◌, map, Text, codes, same, if◌then◌else◌, length, take, ◌==◌,
}
use schunk_fts_ros.Strings.{starts_with, join, is_empty, show}
use schunk_fts_ros.Scanner.{Dependency}
use schunk_fts_ros.Scanner.Web.{Decimal, is_positive, is_high}
use schunk_fts_ros.Scanner.Parse.{Vulnerability, dash}
use schunk_fts_ros.Scanner.Scan.{ScanResult, repo_name, high_severity}

abbrev pub newline : Text
newline = codes "\n"

abbrev pub or_dash : Text → Text
or_dash [] = dash
or_dash (c ∷ t) = c ∷ t

-- `[d for d in result.dependencies if d.ecosystem == …]`
unfoldable pub of_ecosystem : Text → List Dependency → List Dependency
of_ecosystem name [] = []
of_ecosystem name (d ∷ ds) =
    let rest = of_ecosystem name ds in if same d.ecosystem name then d ∷ rest else rest

-- `[v for v in result.vulnerabilities if v.affected_package.startswith(…)]`
unfoldable pub of_package : Text → List Vulnerability → List Vulnerability
unfolding starts_with
of_package start [] = []
of_package start (v ∷ vs) =
    let rest = of_package start vs in
    if starts_with v.affected_package start then v ∷ rest else rest

-- `[a for a in v.aliases if a.startswith("CVE-")]`
unfoldable pub cve_aliases : List Text → List Text
unfolding starts_with
cve_aliases [] = []
cve_aliases (a ∷ rest) =
    let others = cve_aliases rest in if starts_with a (codes "CVE-") then a ∷ others else others

unfoldable pub cve_str : List Text → Text
unfolding cve_aliases join
cve_str aliases =
    let cves = cve_aliases aliases in if is_empty cves then dash else join (codes ", ") cves

unfoldable pub header_lines : ScanResult → List Text
unfolding show
header_lines r =
    codes "# CVE-Scan Report – schunk_force_torque_sensor"
    ∷ []
    ∷ (codes "**Scan-Zeitpunkt:** " ++ r.timestamp)
    ∷ (codes "**Repository:** " ++ r.repository)
    ∷ (codes "**Abhängigkeiten geprüft:** " ++ show r.dependencies_scanned)
    ∷ (codes "**Schwachstellen gefunden:** " ++ show r.vulnerabilities_found)
    ∷ []
    ∷ (if r.vulnerabilities_found == 0
        then codes "> Keine bekannten Schwachstellen gefunden."
        else codes "> " ++ show r.vulnerabilities_found ++ codes " Schwachstelle(n) gefunden!")
    ∷ []
    ∷ []

abbrev pub summary_row : Text → ℕ → ℕ → Text
summary_row title deps vulns =
    codes "| " ++ title ++ codes " | " ++ show deps ++ codes " | " ++ show vulns ++ codes " |"

unfoldable pub summary_lines : ScanResult → List Text
unfolding of_ecosystem of_package show
summary_lines r =
    let deps = λ (name : Text). length (of_ecosystem name r.dependencies) in
    let vulns = λ (start : Text). length (of_package start r.vulnerabilities) in
    codes "## Zusammenfassung nach Ökosystem"
    ∷ []
    ∷ codes "| Ökosystem | Abhängigkeiten | Schwachstellen |"
    ∷ codes "|-----------|---------------|----------------|"
    ∷ summary_row (codes "PyPI (Python)") (deps (codes "PyPI")) (vulns (codes "PyPI:"))
    ∷ summary_row (codes "crates.io (Rust)") (deps (codes "crates.io")) (vulns (codes "crates.io:"))
    ∷ summary_row (codes "ROS 2") (deps (codes "ROS")) (vulns (codes "ROS:"))
    ∷ (codes "| **Gesamt** | **"
        ++ show r.dependencies_scanned
        ++ codes "** | **"
        ++ show r.vulnerabilities_found
        ++ codes "** |")
    ∷ []
    ∷ []

-- The row of a package of PyPI or of crates.io.
unfoldable pub package_row : Dependency → Text
package_row d =
    codes "| "
    ++ d.name
    ++ codes " | "
    ++ or_dash d.version
    ++ codes " | "
    ++ d.source
    ++ codes " |"

unfoldable pub ros_row : Dependency → Text
ros_row d =
    let repo = d.upstream_repo in
    let upstream =
      if is_empty repo
      then dash
      else codes "[" ++ repo ++ codes "](https://github.com/" ++ repo ++ codes ")" in
    codes "| "
    ++ d.name
    ++ codes " | "
    ++ d.ecosystem
    ++ codes " | "
    ++ d.source
    ++ codes " | "
    ++ upstream
    ++ codes " |"

-- A table, if it has a row.
unfoldable pub table : Text → Text → Text → List Text → List Text
table title columns rule [] = []
table title columns rule (row ∷ rows) = title ∷ [] ∷ columns ∷ rule ∷ ((row ∷ rows) ++ [] ∷ [])

unfoldable pub python_table : List Dependency → List Text
unfolding of_ecosystem package_row table
python_table ds =
    table (codes "### Python (PyPI)") (codes "| Paket | Version | Quelle |")
      (codes "|-------|---------|--------|") (map package_row (of_ecosystem (codes "PyPI") ds))

unfoldable pub rust_table : List Dependency → List Text
unfolding of_ecosystem package_row table
rust_table ds =
    table (codes "### Rust (crates.io)") (codes "| Crate | Version | Quelle |")
      (codes "|-------|---------|--------|") (map package_row (of_ecosystem (codes "crates.io") ds))

unfoldable pub ros_table : List Dependency → List Text
unfolding of_ecosystem ros_row table
ros_table ds =
    table (codes "### ROS 2") (codes "| Paket | Ökosystem | Quelle | Upstream |")
      (codes "|-------|-----------|--------|----------|")
      (map ros_row (of_ecosystem (codes "ROS") ds))

unfoldable pub dependency_lines : List Dependency → List Text
unfolding python_table rust_table ros_table
dependency_lines ds =
    codes "## Geprüfte Abhängigkeiten" ∷ [] ∷ (python_table ds ++ (rust_table ds ++ ros_table ds))

-- A list of the references, if there is one.
unfoldable pub reference_lines : List Text → List Text
reference_lines [] = []
reference_lines (ref ∷ refs) = codes "- **Referenzen:**" ∷ map (λ r. codes "  - " ++ r) (ref ∷ refs)

abbrev pub heading : Text → Text
heading vuln_id = codes "### " ++ vuln_id

module _ (show_score : Decimal → Text) where
  unfoldable pub vulnerability_lines : Vulnerability → List Text
  unfolding cve_str is_high reference_lines
  vulnerability_lines v =
      let score_display = if is_positive v.cvss_score then show_score v.cvss_score else dash in
      let high_marker = if is_high v.cvss_score then codes " (KRITISCH)" else [] in
      heading v.vuln_id
      ∷ []
      ∷ (codes "- **Paket:** " ++ v.affected_package)
      ∷ (codes "- **CVSS-Score:** " ++ score_display ++ high_marker)
      ∷ (codes "- **Schweregrad:** " ++ v.severity)
      ∷ (codes "- **CVE:** " ++ cve_str v.aliases)
      ∷ (codes "- **Beschreibung:** " ++ v.summary)
      ∷ (codes "- **Fix-Version:** " ++ v.fixed_version)
      ∷ (reference_lines v.references ++ [] ∷ [])

  unfoldable pub sections : List Vulnerability → List Text
  unfolding vulnerability_lines
  sections [] = []
  sections (v ∷ vs) = vulnerability_lines v ++ sections vs

  unfoldable pub found_lines : List Vulnerability → List Text
  unfolding sections
  found_lines [] = []
  found_lines (v ∷ vs) = codes "## Gefundene Schwachstellen" ∷ [] ∷ sections (v ∷ vs)

  -- The lines of `generate_markdown_report`.
  unfoldable pub report_lines : ScanResult → List Text
  unfolding header_lines summary_lines dependency_lines found_lines
  report_lines r =
      header_lines r
      ++ (summary_lines r
          ++ (dependency_lines r.dependencies
              ++ (found_lines r.vulnerabilities
                  ++ codes "---"
                    ∷ codes
                        "*Automatisch generiert von `security/cve_scanner.py` via [OSV.dev](https://osv.dev) und GitHub Advisory Database.*"
                    ∷ []
                    ∷ [])))

  unfoldable pub generate_markdown_report : ScanResult → Text
  unfolding report_lines join
  generate_markdown_report r = join newline (report_lines r)
