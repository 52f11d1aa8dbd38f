-- ===== src/Scanner/Alert.antt =====
-- `write_alert_output`, `save_reports` and `main` of security/cve_scanner.py, on the files that they
-- write. What is printed is left out; the folder of the reports is there.
pub mod Outcome
pub mod High
use schunk_fts_ros.Base.{
  ℕ, Bool, true, false, Option, none, some, List, ◌++◌, Text, codes, if◌then◌else◌, ltb, Result, ok,
  ◌>>=◌,
}
use schunk_fts_ros.Strings.{show}
use schunk_fts_ros.Scanner.Sources.Setup.{Node}
use schunk_fts_ros.Scanner.Web.{Decimal, Web}
use schunk_fts_ros.Scanner.Scan.{ScanResult, Repository, run_scan}
use schunk_fts_ros.Scanner.Report.{newline, generate_markdown_report}
use schunk_fts_ros.Scanner.Report.Body.{generate_alert_body}

-- The files of the folder of the reports, `none` for one that is not there, and the text of the
-- file `$GITHUB_OUTPUT`, `none` if the variable is not set.
pub record Reports : Type 0 where
  pub cve_report_json : Option Text
  pub cve_report_md : Option Text
  pub alert_high_severity : Option Text
  pub github_output : Option Text

-- `open(…, "a")`, if the variable is set.
abbrev pub append_to : Option Text → Text → Option Text
append_to none t = none
append_to (some before) t = some (before ++ t)

abbrev pub alert_output : ℕ → Text
alert_output high_severity_count =
    codes "high_severity=true\n"
    ++ (codes "high_count=" ++ show high_severity_count ++ newline)
    ++ (codes "alert_subject=CVE-Alert: "
        ++ show high_severity_count
        ++ codes " kritische Schwachstelle(n) in schunk_force_torque_sensor\n")

-- What ends the process: the value for `sys.exit`, and the files.
pub record Exit : Type 0 where
  pub code : ℕ
  pub reports : Reports

-- How the library shows a score and dumps a result.
module _ (show_score : Decimal → Text) (dumps : ScanResult → Text) where
  unfoldable pub save_reports : ScanResult → Reports → Reports
  unfolding generate_markdown_report
  save_reports r s = record s {
    cve_report_json = some (dumps r ++ newline);
    cve_report_md = some (generate_markdown_report show_score r);
  }

  unfoldable pub write_alert_output : ScanResult → Reports → Reports
  unfolding generate_alert_body show
  write_alert_output r s =
      if ltb 0 r.high_severity_count
      then record s {
        alert_high_severity = some (generate_alert_body show_score r);
        github_output = append_to s.github_output (alert_output r.high_severity_count);
      }
      else record s {
        alert_high_severity = none;
        github_output = append_to s.github_output (codes "high_severity=false\n");
      }

  -- The rest of `main`, with the result of the scan.
  unfoldable pub finish : ScanResult → Bool → Reports → Exit
  unfolding save_reports write_alert_output
  finish r true s = record { code = 0; reports = s }
  finish r false s = record {
    code = if ltb 0 r.vulnerabilities_found then 1 else 0;
    reports = write_alert_output r (save_reports r s);
  }

  -- An exception of the scan ends the process before a file is written.
  unfoldable pub main :
      Web → (Text → Option (List Node)) → Repository → Text → Bool → Reports → Result Exit
  unfolding run_scan finish
  main web parse files timestamp json_only s = do
    result ← run_scan web parse files timestamp
    ok (finish result json_only s)
