-- ===== src/Scanner/Osv/Advisories.antt =====
-- The advisories of a repository: every one that has an id, once.
use schunk_fts_ros.Base.{
  ◌≡◌, refl, Bool, true, false, not, ◌&&◌, ◌||◌, Option, none, some, List, [], ◌∷◌, ◌++◌, map, Text,
  codes, sym, ◌∙◌, same→eq, arith, Bool-cases, inl, inr,
}
use schunk_fts_ros.Strings.{contains, or_else, is_empty}
use schunk_fts_ros.Strings.Sets.{are_distinct, are_distinct-concat, contains-append}
use mathlib.Core.List.{map-append}
use schunk_fts_ros.Scanner.{Dependency}
use schunk_fts_ros.Scanner.Web.{Advisory, Web}
use schunk_fts_ros.Scanner.Osv.{
  Collected, scan_github_advisories, collect_one, collect, collect_reply, collect_replies,
}

abbrev pub id_of : Advisory → Text
id_of adv = or_else adv.ghsa_id []

abbrev pub ids : List Advisory → List Text
ids = map id_of

-- The ids in the replies.
abbrev pub reply_ids : List (Option (List Advisory)) → List Text
reply_ids [] = []
reply_ids (none ∷ rs) = reply_ids rs
reply_ids (some advs ∷ rs) = ids advs ++ reply_ids rs

-- The set and the list have the same ids, the list no id twice, and never the empty one.
record IsCollected (s : Collected) : Type 0 where
  distinct : are_distinct (ids s.all_advisories) ≡ true
  same_ids : (t : Text) → contains t s.seen_ids ≡ contains t (ids s.all_advisories)
  no_empty : contains [] s.seen_ids ≡ false

start-IsCollected : IsCollected (record { all_advisories = []; seen_ids = [] })
unfolding are_distinct contains
start-IsCollected = record { distinct = refl; same_ids = λ t. refl; no_empty = refl }

abbrev is_new : Advisory → Collected → Bool
is_new adv s = not (is_empty (id_of adv)) && not (contains (id_of adv) s.seen_ids)

-- `t` is among the ids after the loop if it was before, or if an advisory has it.
abbrev Grows : List Text → Collected → Collected → Type 0
Grows new s s' =
    (t : Text)
    → contains t s'.seen_ids ≡ (contains t s.seen_ids || contains t new && not (is_empty t))

collect_one-IsCollected :
    (adv : Advisory) (s : Collected) → IsCollected s → IsCollected (collect_one adv s)
unfolding collect_one
collect_one-IsCollected adv s h = elim (Bool-cases (is_new adv s)) [
  | inr old ↦ rw old h
  | inl new ↦ rw new (record {
    distinct = rw (map-append id_of s.all_advisories (adv ∷ [])) (
        ground (
          arith,
          are_distinct-concat (id_of adv) (ids s.all_advisories),
          h.distinct,
          h.same_ids (id_of adv),
        ));
    same_ids = λ t. rw (map-append id_of s.all_advisories (adv ∷ [])) (
        unfold contains in
        ground (arith, contains-append t (ids s.all_advisories) (id_of adv ∷ []), h.same_ids t));
    no_empty = unfold contains in ground (arith, h.no_empty, same→eq [] (id_of adv));
  })
]

collect_one-Grows : (adv : Advisory) (s : Collected) → Grows (id_of adv ∷ []) s (collect_one adv s)
unfolding collect_one contains
collect_one-Grows adv s t = ground (arith, same→eq t (id_of adv))

collect-IsCollected :
    (advs : List Advisory) (s : Collected) → IsCollected s → IsCollected (collect advs s)
unfolding collect
collect-IsCollected [] s h = h
collect-IsCollected (adv ∷ advs) s h =
    collect-IsCollected advs (collect_one adv s) (collect_one-IsCollected adv s h)

collect-Grows : (advs : List Advisory) (s : Collected) → Grows (ids advs) s (collect advs s)
unfolding collect contains
collect-Grows [] s t = ground arith
collect-Grows (adv ∷ advs) s t =
    ground (arith, collect-Grows advs (collect_one adv s) t, collect_one-Grows adv s t)

replies-IsCollected :
    (rs : List (Option (List Advisory))) (s : Collected)
    → IsCollected s
    → IsCollected (collect_replies rs s)
unfolding collect_replies collect_reply
replies-IsCollected [] s h = h
replies-IsCollected (none ∷ rs) s h = replies-IsCollected rs s h
replies-IsCollected (some advs ∷ rs) s h =
    replies-IsCollected rs (collect advs s) (collect-IsCollected advs s h)

replies-Grows :
    (rs : List (Option (List Advisory))) (s : Collected)
    → Grows (reply_ids rs) s (collect_replies rs s)
unfolding collect_replies collect_reply contains
replies-Grows [] s t = ground arith
replies-Grows (none ∷ rs) s t = replies-Grows rs s t
replies-Grows (some advs ∷ rs) s t = ground (
  arith,
  replies-Grows rs (collect advs s) t,
  collect-Grows advs s t,
  contains-append t (ids advs) (reply_ids rs),
)

-- What is asked about a repository, in this order.
abbrev pub asked : Web → Text → List (Option (List Advisory))
asked web repo =
    web.advisories (codes "pip") repo
    ∷ web.advisories (codes "go") repo
    ∷ web.advisories (codes "rust") repo
    ∷ web.advisories (codes "npm") repo
    ∷ web.repo_advisories repo
    ∷ []

-- For a dependency with a repository, the advisories that are collected have exactly the ids of
-- the replies, without the empty one, and each id once.
pub scan_github_advisories_lem :
    (web : Web) (d : Dependency)
    → is_empty d.upstream_repo ≡ false
    → (are_distinct (ids (scan_github_advisories web d)) ≡ true)
      × ((t : Text)
          → contains t (ids (scan_github_advisories web d))
            ≡ (contains t (reply_ids (asked web d.upstream_repo)) && not (is_empty t)))
unfolding scan_github_advisories contains
scan_github_advisories_lem web d h =
    let start : Collected = record { all_advisories = []; seen_ids = [] } in
    let start_good : IsCollected start = start-IsCollected in
    let rs = asked web d.upstream_repo in
    let good = replies-IsCollected rs start start_good in
    rw h (good.distinct, λ t. sym (good.same_ids t) ∙ replies-Grows rs start t)
