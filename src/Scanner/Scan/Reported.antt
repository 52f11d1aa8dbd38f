-- ===== src/Scanner/Scan/Reported.antt =====
-- Which vulnerabilities a scan reports.
use schunk_fts_ros.Base.{
  ◌≡◌, refl, ◌||◌, Option, none, some, List, [], ◌∷◌, ◌++◌, Text, same, if◌then◌else◌, length,
  same→eq, arith, Bool-cases, inl, inr, ◌∙◌, ok, codes,
}
use schunk_fts_ros.Strings.{contains, or_else, is_empty}
use schunk_fts_ros.Strings.Sets.{contains-append}
use mathlib.Core.List.{map-append}
use schunk_fts_ros.Scanner.{Dependency}
use schunk_fts_ros.Scanner.Sources.Setup.{Node}
use schunk_fts_ros.Scanner.Web.{Vuln, Advisory, Web}
use schunk_fts_ros.Scanner.Osv.{scan_github_advisories, query_osv_batch, enrich_vulnerabilities}
use schunk_fts_ros.Scanner.Osv.Advisories
use schunk_fts_ros.Scanner.Osv.Advisories.{id_of}
use schunk_fts_ros.Scanner.Parse.{
  Vulnerability, parse_vulnerabilities, parse_github_advisory, parse_vulnerability,
  advisory_vulnerability,
}
use schunk_fts_ros.Scanner.Scan.{
  ScanResult, Repository, ids, add_new, add_advisories, scan_dependency, scan_dependencies,
  to_result, all_dependencies, run_scan, high_severity,
}

-- The texts that are not empty.
abbrev pub nonempty : List Text → List Text
nonempty [] = []
nonempty ([] ∷ ts) = nonempty ts
nonempty ((c ∷ t) ∷ ts) = (c ∷ t) ∷ nonempty ts

-- The ids of the entries of OSV, as the report names them.
abbrev pub osv_ids : List Vuln → List Text
osv_ids [] = []
osv_ids (v ∷ vs) = or_else v.id (codes "?") ∷ osv_ids vs

abbrev pub advisory_ids : Web → Dependency → List Text
advisory_ids web d = nonempty (Advisories.ids (scan_github_advisories web d))

-- What the services answered for the dependencies, one after another.
abbrev pub answered : Web → List Dependency → List (List Vuln) → List Text
answered web [] batch = []
answered web (d ∷ ds) [] = []
answered web (d ∷ ds) (vulns ∷ batch) =
    osv_ids vulns ++ (advisory_ids web d ++ answered web ds batch)

contains-add_some :
    (t : Text) (v : Vulnerability) (all_vulns : List Vulnerability)
    → contains t (ids (add_new (some v) all_vulns))
      ≡ (contains t (ids all_vulns) || same t v.vuln_id)
unfolding add_new
contains-add_some t v all_vulns = elim (Bool-cases (contains v.vuln_id (ids all_vulns))) [
  | inl old ↦ rw old (ground (arith, same→eq t v.vuln_id))
  | inr new ↦
      rw (new, map-append (λ (w : Vulnerability). w.vuln_id) all_vulns (v ∷ []))
        (unfold contains in ground (arith, contains-append t (ids all_vulns) (v.vuln_id ∷ [])))
]

-- An advisory is parsed to what bears its id, if that is not empty.
abbrev Parsed : Text → Option Vulnerability → Type 0
Parsed [] r = r ≡ none
Parsed (c ∷ s) r = (v : Vulnerability) × (r ≡ some v) × (v.vuln_id ≡ c ∷ s)

module _ (web : Web) (d : Dependency) where
  parse-Parsed : (adv : Advisory) → Parsed (id_of adv) (parse_github_advisory web d adv)
  unfolding parse_github_advisory advisory_vulnerability
  parse-Parsed adv = go (id_of adv)
    where
      go :
          (k : Text)
          → Parsed k (if is_empty k then none else some (advisory_vulnerability web d k adv))
      go [] = refl
      go (c ∷ s) = (advisory_vulnerability web d (c ∷ s) adv, refl, refl)

  ids-parse : (vs : List Vuln) → ids (parse_vulnerabilities web d vs) ≡ osv_ids vs
  unfolding parse_vulnerabilities parse_vulnerability
  ids-parse [] = refl
  ids-parse (v ∷ vs) = cc (ids-parse vs)

  contains-add_new :
      (t k : Text) (r : Option Vulnerability) (all_vulns : List Vulnerability)
      → Parsed k r
      → contains t (ids (add_new r all_vulns))
        ≡ (contains t (ids all_vulns) || contains t (nonempty (k ∷ [])))
  unfolding add_new contains
  contains-add_new t [] r all_vulns e = rw e (ground arith)
  contains-add_new t (c ∷ s) r all_vulns (v, e, n) =
      rw (e, ← n) (contains-add_some t v all_vulns ∙ ground arith)

  nonempty_cons :
      (t k : Text) (ks : List Text)
      → contains t (nonempty (k ∷ ks))
        ≡ (contains t (nonempty (k ∷ [])) || contains t (nonempty ks))
  unfolding contains
  nonempty_cons t [] ks = refl
  nonempty_cons t (c ∷ s) ks = ground arith

  contains-add_advisories :
      (t : Text) (advs : List Advisory) (all_vulns : List Vulnerability)
      → contains t (ids (add_advisories web d advs all_vulns))
        ≡ (contains t (ids all_vulns) || contains t (nonempty (Advisories.ids advs)))
  unfolding add_advisories contains
  contains-add_advisories t [] all_vulns = ground arith
  contains-add_advisories t (adv ∷ advs) all_vulns =
      let r = parse_github_advisory web d adv in
      rw
        (
          contains-add_advisories t advs (add_new r all_vulns),
          contains-add_new t (id_of adv) r all_vulns (parse-Parsed adv),
        )
        (ground (arith, nonempty_cons t (id_of adv) (Advisories.ids advs)))

module _ (web : Web) where
  contains-scan_dependency :
      (t : Text) (d : Dependency) (vulns : List Vuln) (all_vulns : List Vulnerability)
      → contains t (ids (scan_dependency web d vulns all_vulns)) ≡ (
          contains t (ids all_vulns)
          || contains t (osv_ids vulns)
          || contains t (advisory_ids web d))
  unfolding scan_dependency contains scan_github_advisories
  contains-scan_dependency t d vulns all_vulns =
      let parsed = parse_vulnerabilities web d vulns in
      let before : contains t (ids (all_vulns ++ parsed))
          ≡ (contains t (ids all_vulns) || contains t (osv_ids vulns)) =
        rw (map-append (λ (w : Vulnerability). w.vuln_id) all_vulns parsed, ids-parse web d vulns)
          (contains-append t (ids all_vulns) (osv_ids vulns)) in
      elim (Bool-cases (is_empty d.upstream_repo)) [
        | inl none_known ↦ rw (none_known, before) (ground arith)
        | inr known ↦
            rw (known, contains-add_advisories web d t _ (all_vulns ++ parsed), before)
              (ground arith)
      ]

  contains-scan_dependencies :
      (t : Text) (ds : List Dependency) (batch : List (List Vuln)) (all_vulns : List Vulnerability)
      → contains t (ids (scan_dependencies web ds batch all_vulns))
        ≡ (contains t (ids all_vulns) || contains t (answered web ds batch))
  unfolding scan_dependencies contains
  contains-scan_dependencies t [] batch all_vulns = ground arith
  contains-scan_dependencies t (d ∷ ds) [] all_vulns = ground arith
  contains-scan_dependencies t (d ∷ ds) (vulns ∷ batch) all_vulns =
      rw
        (
          contains-scan_dependencies t ds batch (scan_dependency web d vulns all_vulns),
          contains-scan_dependency t d vulns all_vulns,
          contains-append t (osv_ids vulns) (advisory_ids web d ++ answered web ds batch),
          contains-append t (advisory_ids web d) (answered web ds batch),
        )
        (ground arith)

-- If the replies to the batch can be assigned, the scan returns a result, which has every
-- dependency that was found, and which reports exactly the ids that the services answered: those
-- of the OSV entries of each dependency, and those of the GitHub advisories of its repository. The
-- counts of the result are those of its lists.
pub run_scan_reports :
    (web : Web) (parse : Text → Option (List Node)) (files : Repository) (timestamp : Text)
    (batch : List (List Vuln))
    → query_osv_batch web (all_dependencies parse files) ≡ ok batch
    → (r : ScanResult) × (run_scan web parse files timestamp ≡ ok r)
      × (r.dependencies ≡ all_dependencies parse files)
      × (r.dependencies_scanned ≡ length r.dependencies)
      × (r.vulnerabilities_found ≡ length r.vulnerabilities)
      × (r.high_severity_count ≡ length (high_severity r.vulnerabilities))
      × ((t : Text)
          → contains t (ids r.vulnerabilities)
            ≡ contains t
                (answered web (all_dependencies parse files) (enrich_vulnerabilities web batch)))
unfolding run_scan to_result contains
run_scan_reports web parse files timestamp batch h =
    let deps = all_dependencies parse files in
    let batch' = enrich_vulnerabilities web batch in
    (
      to_result timestamp deps (scan_dependencies web deps batch' []),
      rw h refl,
      refl,
      refl,
      refl,
      refl,
      λ t. contains-scan_dependencies web t deps batch' [] ∙ ground arith,
    )
