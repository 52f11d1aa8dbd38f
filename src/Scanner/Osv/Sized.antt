-- ===== src/Scanner/Osv/Sized.antt =====
-- When the replies to the batch can be assigned, and how many lists of entries there are then.
use schunk_fts_ros.Base.{
  ℕ, suc, ◌≡◌, refl, sym, Bool, true, false, List, [], ◌∷◌, length, Result, ok, err, index_error,
  arith, Bool-cases, inl, inr, leb, ◌>>=◌,
}
use schunk_fts_ros.Scanner.{Dependency}
use schunk_fts_ros.Scanner.Web.{Vuln, Web}
use schunk_fts_ros.Scanner.Osv.{is_known, queries, query_osv_batch}
use schunk_fts_ros.Scanner.Osv.Assign.{assign, replies, query_osv_batch-assign}

-- A list for each dependency if `fits`, and else IndexError.
abbrev pub IsSized : List Dependency → Bool → Result (List (List Vuln)) → Type 0
IsSized ds fits (ok batch) = (fits ≡ true) × (length batch ≡ length ds)
IsSized ds fits (err e) = (fits ≡ false) × (e ≡ index_error)

IsSized-cons :
    (d : Dependency) (ds : List Dependency) (fits : Bool) (x : List Vuln)
    (r : Result (List (List Vuln)))
    → IsSized ds fits r
    → IsSized (d ∷ ds) fits (r >>= λ rest. ok (x ∷ rest))
IsSized-cons d ds fits x (ok batch) (e, n) = (e, ground (arith, n))
IsSized-cons d ds fits x (err e) h = h

IsSized-cast :
    (ds : List Dependency) {a b : Bool} (r : Result (List (List Vuln)))
    → a ≡ b
    → IsSized ds a r
    → IsSized ds b r
IsSized-cast ds r e h = rw (← e) h

leb_zero : (m n : ℕ) → leb 0 m ≡ leb 0 n
leb_zero m n = ground arith

leb_next : (m n : ℕ) → leb (suc m) (suc n) ≡ leb m n
leb_next m n = ground arith

assign-IsSized :
    (ds : List Dependency) (rs : List (List Vuln))
    → IsSized ds (leb (length rs) (length (queries ds))) (assign ds rs)
unfolding assign queries
assign-IsSized [] [] = (refl, refl)
assign-IsSized [] (r ∷ rs) = (ground arith, refl)
assign-IsSized (d ∷ ds) [] = elim (Bool-cases (is_known d)) [
  | inl known ↦
      rw (known, assign)
        (IsSized-cast (d ∷ ds) _ (leb_zero (length (queries ds)) _)
          (IsSized-cons d ds _ [] _ (assign-IsSized ds [])))
  | inr unknown ↦ rw (unknown, assign) (IsSized-cons d ds _ [] _ (assign-IsSized ds []))
]
assign-IsSized (d ∷ ds) (r ∷ rs) = elim (Bool-cases (is_known d)) [
  | inl known ↦
      rw (known, assign)
        (IsSized-cast (d ∷ ds) _ (sym (leb_next (length rs) (length (queries ds))))
          (IsSized-cons d ds _ r _ (assign-IsSized ds rs)))
  | inr unknown ↦ rw (unknown, assign) (IsSized-cons d ds _ [] _ (assign-IsSized ds (r ∷ rs)))
]

-- The query of the batch succeeds just if OSV answers at most one list for each query, and then
-- there is one list for each dependency; with more lists it raises IndexError.
pub query_osv_batch-IsSized :
    (web : Web) (ds : List Dependency)
    → IsSized ds (leb (length (replies web ds)) (length (queries ds))) (query_osv_batch web ds)
query_osv_batch-IsSized web ds =
    rw (query_osv_batch-assign web ds) (assign-IsSized ds (replies web ds))
