-- ===== src/Scanner/Osv/Assign.antt =====
-- Each reply of the batch goes to the dependency that was asked about.
use schunk_fts_ros.Base.{
  ◌+◌, ◌≡◌, refl, ◌∙◌, true, false, Option, none, some, List, [], ◌∷◌, ◌++◌, map, length,
  length-append, Result, ok, err, index_error, arith, Bool-cases, inl, inr, ◌>>=◌, sym,
}
use mathlib.Core.List.{append_assoc}
use schunk_fts_ros.Strings.{or_else}
use schunk_fts_ros.Scanner.{Dependency}
use schunk_fts_ros.Scanner.Web.{Vuln, Web}
use schunk_fts_ros.Scanner.Osv.{
  is_known, queries, query_indices, set, place, place_reply, ask_batch, query_osv_batch,
}

-- The dependencies with their entries: a known one takes the next reply, if there is one left.
-- Replies that are left over raise IndexError.
unfoldable pub assign : List Dependency → List (List Vuln) → Result (List (List Vuln))
assign [] [] = ok []
assign [] (r ∷ rs) = err index_error
assign (d ∷ ds) rs = elim (is_known d) [
  | false ↦ assign ds rs >>= λ rest. ok ([] ∷ rest)
  | true ↦ elim rs [
    | [] ↦ assign ds [] >>= λ rest. ok ([] ∷ rest)
    | r ∷ rs' ↦ assign ds rs' >>= λ rest. ok (r ∷ rest)
  ]
]

set-append :
    {A : Type 0} (xs ys : List A) (y v : A) → set (xs ++ y ∷ ys) (length xs) v ≡ (xs ++ v ∷ ys)
unfolding set
set-append [] ys y v = refl
set-append (x ∷ xs) ys y v = cc (set-append xs ys y v)

abbrev blanks : List Dependency → List (List Vuln)
blanks ds = map (λ d. []) ds

abbrev after : List (List Vuln) → Result (List (List Vuln)) → Result (List (List Vuln))
after done r = r >>= λ rest. ok (done ++ rest)

after-concat :
    (done : List (List Vuln)) (x : List Vuln) (r : Result (List (List Vuln)))
    → after (done ++ x ∷ []) r ≡ after done (r >>= λ rest. ok (x ∷ rest))
after-concat done x (ok rest) = cc (append_assoc done (x ∷ []) rest)
after-concat done x (err e) = refl

-- The dependency at hand has its entries `x`; the statement for the rest, with `x` among the done.
shift :
    (ds : List Dependency) (rs done : List (List Vuln)) (x : List Vuln)
    → place (query_indices (length (done ++ x ∷ [])) ds) rs ((done ++ x ∷ []) ++ blanks ds)
      ≡ after (done ++ x ∷ []) (assign ds rs)
    → place (query_indices (length done + 1) ds) rs (done ++ x ∷ blanks ds)
      ≡ after done (assign ds rs >>= λ rest. ok (x ∷ rest))
shift ds rs done x h =
    let n : length (done ++ x ∷ []) ≡ length done + 1 = length-append done (x ∷ []) in
    rw (n, append_assoc done (x ∷ []) (blanks ds), after-concat done x (assign ds rs)) at h

place-assign :
    (ds : List Dependency) (rs done : List (List Vuln))
    → place (query_indices (length done) ds) rs (done ++ blanks ds) ≡ after done (assign ds rs)
unfolding place query_indices assign
place-assign [] [] done = refl
place-assign [] (r ∷ rs) done = refl
place-assign (d ∷ ds) [] done =
    let later = shift ds [] done [] (place-assign ds [] (done ++ [] ∷ [])) in
    elim (Bool-cases (is_known d)) [
      | inl known ↦ rw (known, assign) later
      | inr unknown ↦ rw (unknown, assign) later
    ]
place-assign (d ∷ ds) (r ∷ rs) done = elim (Bool-cases (is_known d)) [
  | inl known ↦
      rw (known, assign)
        (rw (set-append done (blanks ds) [] r)
          (shift ds rs done r (place-assign ds rs (done ++ r ∷ []))))
  | inr unknown ↦
      rw (unknown, assign) (shift ds (r ∷ rs) done [] (place-assign ds (r ∷ rs) (done ++ [] ∷ [])))
]

after_nil : (r : Result (List (List Vuln))) → after [] r ≡ r
after_nil (ok rest) = refl
after_nil (err e) = refl

-- The replies that are assigned: those of the batch, or none if it was not asked or failed.
abbrev pub replies : Web → List Dependency → List (List Vuln)
replies web ds = or_else (ask_batch web (queries ds)) []

assign_nothing : (ds : List Dependency) → assign ds [] ≡ ok (blanks ds)
unfolding assign
assign_nothing [] = refl
assign_nothing (d ∷ ds) = ground (arith, assign_nothing ds)

place_reply-assign :
    (ds : List Dependency) (reply : Option (List (List Vuln)))
    → place_reply (query_indices 0 ds) reply (blanks ds) ≡ assign ds (or_else reply [])
unfolding place_reply
place_reply-assign ds none = sym (assign_nothing ds)
place_reply-assign ds (some rs) = place-assign ds rs [] ∙ after_nil (assign ds rs)

-- The bookkeeping with indices assigns the replies in order to the known dependencies: a
-- dependency of another ecosystem, or one for which no reply is left, has no entries, and a reply
-- too many raises IndexError.
pub query_osv_batch-assign :
    (web : Web) (ds : List Dependency) → query_osv_batch web ds ≡ assign ds (replies web ds)
unfolding query_osv_batch
query_osv_batch-assign web ds = place_reply-assign ds (ask_batch web (queries ds))
