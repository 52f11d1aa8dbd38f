-- ===== src/Scanner/Report/Complete.antt =====
-- What the report shows of a scan.
use schunk_fts_ros.Base.{
  ◌≡◌, true, ◌||◌, Option, List, [], ◌∷◌, Text, ◌∙◌, same, same→eq, same_self, arith, Bool-cases,
  inl, inr, ok,
}
use schunk_fts_ros.Strings.{contains}
use schunk_fts_ros.Strings.Sets.{contains-append}
use schunk_fts_ros.Scanner.{Dependency}
use schunk_fts_ros.Scanner.Sources.Setup.{Node}
use schunk_fts_ros.Scanner.Web.{Decimal, Vuln, Web}
use schunk_fts_ros.Scanner.Osv.{query_osv_batch, enrich_vulnerabilities}
use schunk_fts_ros.Scanner.Parse.{Vulnerability}
use schunk_fts_ros.Scanner.Scan.{ScanResult, Repository, ids, all_dependencies, run_scan}
use schunk_fts_ros.Scanner.Scan.Reported.{answered, run_scan_reports}
use mathlib.Core.List.{Memᴰ}
use schunk_fts_ros.Scanner.Report.Tables.{
  row, contains-dependency_lines, all_dependencies-has_table,
}
use schunk_fts_ros.Scanner.Report.Cves.{cve_line, Counts, summary_lines-Counts, contains-found_cve}
use schunk_fts_ros.Scanner.Report.{
  header_lines, summary_lines, dependency_lines, heading, vulnerability_lines, sections,
  found_lines, report_lines,
}

module _ (show_score : Decimal → Text) where
  contains-sections :
      (t : Text) (vs : List Vulnerability)
      → contains t (ids vs) ≡ true
      → contains (heading t) (sections show_score vs) ≡ true
  unfolding sections contains vulnerability_lines
  contains-sections t [] h = ground (arith, h)
  contains-sections t (v ∷ vs) h = elim (Bool-cases (same t v.vuln_id)) [
    | inl e ↦ rw (same→eq t v.vuln_id e) (ground (arith, same_self v.vuln_id))
    | inr ne ↦
        rw (contains-append (heading t) (vulnerability_lines show_score v) (sections show_score vs))
          (ground (arith, contains-sections t vs, ne, h))
  ]

  contains-found_lines :
      (t : Text) (vs : List Vulnerability)
      → contains t (ids vs) ≡ true
      → contains (heading t) (found_lines show_score vs) ≡ true
  unfolding found_lines contains
  contains-found_lines t [] h = ground (arith, h)
  contains-found_lines t (v ∷ vs) h = ground (arith, contains-sections t (v ∷ vs) h)

  contains-report_lines :
      (t : Text) (r : ScanResult)
      → (contains t (summary_lines r)
          || contains t (dependency_lines r.dependencies)
          || contains t (found_lines show_score r.vulnerabilities))
        ≡ true
      → contains t (report_lines show_score r) ≡ true
  unfolding report_lines
  contains-report_lines t r h =
      let found = found_lines show_score r.vulnerabilities in
      let deps = dependency_lines r.dependencies in
      rw
        (
          contains-append t (header_lines r) _,
          contains-append t (summary_lines r) _,
          contains-append t deps _,
          contains-append t found _,
        )
        (ground (arith, h))

  report_lines-Counts : (r : ScanResult) → Counts r (report_lines show_score r)
  report_lines-Counts r =
      let (pypi, crates, ros) = summary_lines-Counts r in
      (
        contains-report_lines _ r (ground (arith, pypi)),
        contains-report_lines _ r (ground (arith, crates)),
        contains-report_lines _ r (ground (arith, ros)),
      )

  -- If the replies to the batch can be assigned, the Markdown report of the scan has a row for
  -- every dependency of the repository, and a heading for every id that the services answered. Of
  -- every vulnerability that the scan found it has a line with the aliases that begin with `CVE-`, in
  -- order, or a dash if there is none; and of PyPI, of crates.io and of ROS 2 a row with the number of
  -- their dependencies and the number of the vulnerabilities whose package begins with
  -- the name of theirs and a colon.
  pub report-IsComplete :
      (web : Web) (parse : Text → Option (List Node)) (files : Repository) (timestamp : Text)
      (batch : List (List Vuln))
      → query_osv_batch web (all_dependencies parse files) ≡ ok batch
      → (r : ScanResult) × (run_scan web parse files timestamp ≡ ok r)
        × ((d : Dependency)
            → Memᴰ d (all_dependencies parse files)
            → contains (row d) (report_lines show_score r) ≡ true)
        × ((t : Text)
            → contains t
                (answered web (all_dependencies parse files) (enrich_vulnerabilities web batch))
              ≡ true
            → contains (heading t) (report_lines show_score r) ≡ true)
        × ((v : Vulnerability)
            → Memᴰ v r.vulnerabilities
            → contains (cve_line v) (report_lines show_score r) ≡ true)
        × Counts r (report_lines show_score r)
  report-IsComplete web parse files timestamp batch h =
      let (r, run, deps, _, _, _, reported) = run_scan_reports web parse files timestamp batch h in
      (
        r,
        run,
        λ d m.
            let in_table : contains (row d) (dependency_lines r.dependencies) ≡ true =
              rw deps
                (contains-dependency_lines d _ (all_dependencies-has_table parse files d m) m) in
            contains-report_lines (row d) r (ground (arith, in_table)),
        λ t e.
            contains-report_lines (heading t) r
              (ground (arith, contains-found_lines t r.vulnerabilities (reported t ∙ e))),
        λ v m.
            contains-report_lines (cve_line v) r
              (ground (arith, contains-found_cve show_score v r.vulnerabilities m)),
        report_lines-Counts r,
      )
