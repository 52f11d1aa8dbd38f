-- ===== src/Scanner/Alert/Outcome.antt =====
-- How a run of the scanner ends, and which files it leaves.
use schunk_fts_ros.Base.{
  ◌≡◌, refl, ap, Bool, Bool-cases, inl, inr, true, false, not, ◌||◌, Option, some, List, [], ◌∷◌,
  ◌++◌, Text, ◌∙◌, same_self, arith, ok, length, ltb, if◌then◌else◌,
}
use schunk_fts_ros.Strings.{contains, is_some, is_empty}
use schunk_fts_ros.Scanner.Sources.Setup.{Node}
use schunk_fts_ros.Scanner.Web.{Decimal, Vuln, Web, is_high}
use schunk_fts_ros.Scanner.Osv.{query_osv_batch, enrich_vulnerabilities}
use schunk_fts_ros.Scanner.Parse.{Vulnerability}
use schunk_fts_ros.Scanner.Scan.{
  ScanResult, Repository, ids, high_severity, all_dependencies, run_scan,
}
use schunk_fts_ros.Scanner.Scan.Reported.{answered, run_scan_reports}
use schunk_fts_ros.Scanner.Report.{newline, generate_markdown_report}
use schunk_fts_ros.Scanner.Alert.{Reports, Exit, main, finish, save_reports, write_alert_output}

abbrev pub any_high : List Vulnerability → Bool
any_high [] = false
any_high (v ∷ vs) = is_high v.cvss_score || any_high vs

pub any_high_lem : (vs : List Vulnerability) → ltb 0 (length (high_severity vs)) ≡ any_high vs
unfolding high_severity
any_high_lem [] = refl
any_high_lem (v ∷ vs) = ground (arith, any_high_lem vs)

ids_empty : (vs : List Vulnerability) → is_empty (ids vs) ≡ not (ltb 0 (length vs))
ids_empty [] = refl
ids_empty (v ∷ vs) = ground arith

-- Two lists with the same texts are both empty or both not.
same_empty :
    (ss ts : List Text) → ((t : Text) → contains t ss ≡ contains t ts) → is_empty ss ≡ is_empty ts
unfolding contains
same_empty [] [] h = refl
same_empty [] (t ∷ ts) h = ground (arith, h t, same_self t)
same_empty (s ∷ ss) [] h = ground (arith, h s, same_self s)
same_empty (s ∷ ss) (t ∷ ts) h = refl

module _ (show_score : Decimal → Text) (dumps : ScanResult → Text) (r : ScanResult)
    (s : Reports) where
  -- Both reports are written, and the alert just if there is a high vulnerability.
  pub finish-reports :
      let s' = (finish show_score dumps r false s).reports in
      (s'.cve_report_md ≡ some (generate_markdown_report show_score r))
      × (s'.cve_report_json ≡ some (dumps r ++ newline))
      × (is_some s'.alert_high_severity ≡ ltb 0 r.high_severity_count)
  unfolding finish write_alert_output save_reports
  finish-reports = elim (Bool-cases (ltb 0 r.high_severity_count)) [
    | inl high ↦ rw high (refl, refl, refl)
    | inr none_high ↦ rw none_high (refl, refl, refl)
  ]

-- If the replies to the batch can be assigned, the scanner ends, whatever files were there before:
-- with the option for JSON only, it leaves the files alone and its exit code is 0. Without it, the
-- code is 0 if the services answered no id, and else 1; both reports are there; and the file of
-- the alert is there just if a vulnerability of the result is high.
pub main_lem :
    (show_score : Decimal → Text) (dumps : ScanResult → Text) (web : Web)
    (parse : Text → Option (List Node)) (files : Repository) (timestamp : Text)
    (batch : List (List Vuln)) (s : Reports)
    → query_osv_batch web (all_dependencies parse files) ≡ ok batch
    → (r : ScanResult) × (e : Exit) × (run_scan web parse files timestamp ≡ ok r)
      × (main show_score dumps web parse files timestamp true s
          ≡ ok (record { code = 0; reports = s }))
      × (main show_score dumps web parse files timestamp false s ≡ ok e)
      × (e.code ≡ (
          if is_empty
            (answered web (all_dependencies parse files) (enrich_vulnerabilities web batch))
          then 0
          else 1))
      × (e.reports.cve_report_md ≡ some (generate_markdown_report show_score r))
      × (e.reports.cve_report_json ≡ some (dumps r ++ newline))
      × (is_some e.reports.alert_high_severity ≡ any_high r.vulnerabilities)
unfolding main finish
main_lem show_score dumps web parse files timestamp batch s h =
    let (r, run, _, _, found, high, reported) =
      run_scan_reports web parse files timestamp batch h in
    let exit = finish show_score dumps r false s in
    let (md, json, alert) = finish-reports show_score dumps r s in
    let empty = same_empty (ids r.vulnerabilities) _ reported in
    (
      r,
      exit,
      run,
      rw run refl,
      rw run refl,
      rw (found, ← empty, ids_empty r.vulnerabilities) (ground arith),
      md,
      json,
      alert ∙ ap (ltb 0) high ∙ any_high_lem r.vulnerabilities,
    )
