-- ===== src/Scanner/Report/Body.antt =====
-- `generate_alert_body` of security/cve_scanner.py.
use schunk_fts_ros.Base.{ℕ, zero, suc, List, [], ◌∷◌, ◌++◌, Text, codes, length, take}
use schunk_fts_ros.Strings.{join, show}
use schunk_fts_ros.Scanner.Web.{Decimal}
use schunk_fts_ros.Scanner.Parse.{Vulnerability}
use schunk_fts_ros.Scanner.Scan.{ScanResult, repo_name, high_severity}
use schunk_fts_ros.Scanner.Report.{newline, cve_str}

abbrev pub rule : ℕ → ℕ → Text
rule zero c = []
rule (suc n) c = c ∷ rule n c

-- `str(CVSS_HIGH_THRESHOLD)`
abbrev pub threshold : Text
threshold = codes "7.0"

module _ (show_score : Decimal → Text) where
  unfoldable pub first_reference : List Text → List Text
  first_reference [] = []
  first_reference (ref ∷ refs) = (codes "  -> " ++ ref) ∷ []

  unfoldable pub alert_lines : List Vulnerability → List Text
  unfolding cve_str first_reference
  alert_lines [] = []
  alert_lines (v ∷ vs) =
      []
      ∷ (codes "  " ++ v.vuln_id ++ codes "  (CVSS " ++ show_score v.cvss_score ++ codes ")")
      ∷ (codes "  Paket:       " ++ v.affected_package)
      ∷ (codes "  CVE:         " ++ cve_str v.aliases)
      ∷ (codes "  Fix-Version: " ++ v.fixed_version)
      ∷ (codes "  " ++ take 200 v.summary)
      ∷ (first_reference v.references ++ alert_lines vs)

  unfoldable pub generate_alert_body : ScanResult → Text
  unfolding high_severity alert_lines join show
  generate_alert_body r =
      let high = high_severity r.vulnerabilities in
      join newline (
        codes "CVE-Alert: Kritische Schwachstellen in schunk_force_torque_sensor"
        ∷ rule 68 b'='
        ∷ []
        ∷ (codes "Scan-Zeitpunkt: " ++ r.timestamp)
        ∷ (codes "Repository:     " ++ r.repository)
        ∷ (codes "Schwachstellen: "
            ++ show r.vulnerabilities_found
            ++ codes " gesamt, "
            ++ show (length high)
            ++ codes " mit CVSS >= "
            ++ threshold)
        ∷ []
        ∷ rule 68 b'-'
        ∷ (alert_lines high
            ++ []
              ∷ rule 68 b'-'
              ∷ codes "Vollstaendiger Report: security/reports/cve_report.md"
              ∷ (codes "https://github.com/"
                  ++ repo_name
                  ++ codes "/blob/main/security/reports/cve_report.md")
              ∷ []
              ∷ []))
