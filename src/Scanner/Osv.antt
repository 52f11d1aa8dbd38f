-- ===== src/Scanner/Osv.antt =====
-- The queries of OSV and of GitHub: from `scan_github_advisories` to `enrich_vulnerabilities` of
-- security/cve_scanner.py.
pub mod Assign
pub mod Sized
pub mod Advisories
use schunk_fts_ros.Base.{
  ℕ, zero, suc, ◌+◌, Bool, true, false, not, ◌&&◌, ◌||◌, Option, none, some, List, [], ◌∷◌, ◌++◌,
  map, Text, codes, if◌then◌else◌, Result, ok, err, index_error,
}
use schunk_fts_ros.Strings.{contains, or_else, is_empty}
use schunk_fts_ros.Scanner.{Dependency}
use schunk_fts_ros.Scanner.Web.{Query, Vuln, Advisory, Web}

-- The two variables of `scan_github_advisories`.
pub record Collected : Type 0 where
  pub all_advisories : List Advisory
  pub seen_ids : List Text

-- `if adv_id and adv_id not in seen_ids: …`
unfoldable pub collect_one : Advisory → Collected → Collected
collect_one adv s =
    let adv_id = or_else adv.ghsa_id [] in
    if not (is_empty adv_id) && not (contains adv_id s.seen_ids)
    then record { all_advisories = s.all_advisories ++ adv ∷ []; seen_ids = adv_id ∷ s.seen_ids }
    else s

unfoldable pub collect : List Advisory → Collected → Collected
unfolding collect_one
collect [] s = s
collect (adv ∷ advs) s = collect advs (collect_one adv s)

unfoldable pub collect_reply : Option (List Advisory) → Collected → Collected
unfolding collect
collect_reply none s = s
collect_reply (some advs) s = collect advs s

unfoldable pub collect_replies : List (Option (List Advisory)) → Collected → Collected
unfolding collect_reply
collect_replies [] s = s
collect_replies (r ∷ rs) s = collect_replies rs (collect_reply r s)

abbrev pub osv_ecosystems : List Text
osv_ecosystems =
    codes "PyPI"
    ∷ codes "Debian"
    ∷ codes "npm"
    ∷ codes "crates.io"
    ∷ codes "Go"
    ∷ codes "Maven"
    ∷ []

abbrev pub is_known : Dependency → Bool
is_known d = contains d.ecosystem osv_ecosystems

unfoldable pub build_osv_query : Dependency → Query
build_osv_query d = record {
  name = d.name;
  ecosystem = d.ecosystem;
  version = if is_empty d.version then none else some d.version;
}

-- The loop that fills `queries` and `query_indices`.
unfoldable pub queries : List Dependency → List Query
unfolding build_osv_query
queries [] = []
queries (d ∷ ds) = if is_known d then build_osv_query d ∷ queries ds else queries ds

unfoldable pub query_indices : ℕ → List Dependency → List ℕ
query_indices i [] = []
query_indices i (d ∷ ds) =
    let rest = query_indices (i + 1) ds in if is_known d then i ∷ rest else rest

-- `results[i] = r`
unfoldable pub set {ℓ} : {A : Type ℓ} → List A → ℕ → A → List A
set [] i v = []
set (x ∷ xs) zero v = v ∷ xs
set (x ∷ xs) (suc i) v = x ∷ set xs i v

-- The loop over the results of the batch: an index too many raises IndexError.
unfoldable pub place : List ℕ → List (List Vuln) → List (List Vuln) → Result (List (List Vuln))
unfolding set
place indices [] results = ok results
place [] (r ∷ rs) results = err index_error
place (i ∷ indices) (r ∷ rs) results = place indices rs (set results i r)

unfoldable pub place_reply :
    List ℕ → Option (List (List Vuln)) → List (List Vuln) → Result (List (List Vuln))
unfolding place
place_reply indices none results = ok results
place_reply indices (some batch_results) results = place indices batch_results results

module _ (web : Web) where
  unfoldable pub scan_github_advisories : Dependency → List Advisory
  unfolding collect_replies
  scan_github_advisories d =
      if is_empty d.upstream_repo
      then []
      else (collect_replies
          (web.advisories (codes "pip") d.upstream_repo
            ∷ web.advisories (codes "go") d.upstream_repo
            ∷ web.advisories (codes "rust") d.upstream_repo
            ∷ web.advisories (codes "npm") d.upstream_repo
            ∷ web.repo_advisories d.upstream_repo
            ∷ [])
          (record { all_advisories = []; seen_ids = [] })).all_advisories

  -- No request is sent without a query.
  unfoldable pub ask_batch : List Query → Option (List (List Vuln))
  ask_batch [] = none
  ask_batch (q ∷ qs) = web.batch (q ∷ qs)

  unfoldable pub query_osv_batch : List Dependency → Result (List (List Vuln))
  unfolding queries query_indices place_reply ask_batch
  query_osv_batch deps =
      place_reply (query_indices 0 deps) (ask_batch (queries deps)) (map (λ d. []) deps)

  -- The entry in the place of one that says nothing.
  unfoldable pub enrich_entry : Vuln → Vuln
  enrich_entry v =
      if is_empty (or_else v.summary []) && is_empty (or_else v.details [])
      then or_else (web.vuln (or_else v.id [])) v
      else v

  unfoldable pub enrich_vulnerabilities : List (List Vuln) → List (List Vuln)
  unfolding enrich_entry
  enrich_vulnerabilities = map (map enrich_entry)
