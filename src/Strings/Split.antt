-- ===== src/Strings/Split.antt =====
-- `split` cuts at every occurrence, and `join` puts the pieces together again.
use schunk_fts_ros.Base.{
  ℕ, zero, suc, ◌<◌, ◌≡◌, refl, sym, ap, ◌∙◌, Option, none, some, List, [], ◌∷◌, ◌++◌, Text, All,
  length, length-append, arith,
}
use schunk_fts_ros.Strings.{after_prefix, partition, split_loop, split, join}

after_prefix_lem : (s t r : Text) → after_prefix s t ≡ some r → t ≡ s ++ r
unfolding after_prefix
after_prefix_lem [] t r h = ground arith
after_prefix_lem (c ∷ s) [] r h = ground arith
after_prefix_lem (c ∷ s) (d ∷ t) r h = ground (arith, after_prefix_lem s t r)

-- The parts and the separator between them are the text.
pub partition_lem : (sep t b r : Text) → partition sep t ≡ some (b, r) → t ≡ b ++ (sep ++ r)
unfolding partition
partition_lem sep [] b r h = ground (arith, after_prefix_lem sep [] r)
partition_lem sep (c ∷ t) [] r h = ground (arith, after_prefix_lem sep (c ∷ t) r)
partition_lem sep (c ∷ t) (d ∷ b) r h = ground (arith, partition_lem sep t b r)

after_prefix-none : (s t u : Text) → after_prefix s (t ++ u) ≡ none → after_prefix s t ≡ none
unfolding after_prefix
after_prefix-none [] t u h = ground arith
after_prefix-none (c ∷ s) [] u h = refl
after_prefix-none (c ∷ s) (d ∷ t) u h = ground (arith, after_prefix-none s t u)

partition_cons :
    (sep : Text) (c : ℕ) (t : Text) (d : ℕ) (b r : Text)
    → partition sep (c ∷ t) ≡ some (d ∷ b, r)
    → (after_prefix sep (c ∷ t) ≡ none) × (c ≡ d) × (partition sep t ≡ some (b, r))
unfolding partition
partition_cons sep c t d b r h = ground arith

partition_nil : (sep : Text) → 0 < length sep → partition sep [] ≡ none
unfolding partition after_prefix
partition_nil [] p = absurd (omega arith)
partition_nil (c ∷ sep) p = refl

-- A piece before the first occurrence has no occurrence in it.
partition_first :
    (sep t b r : Text) → 0 < length sep → partition sep t ≡ some (b, r) → partition sep b ≡ none
unfolding partition
partition_first sep [] [] r p h = partition_nil sep p
partition_first sep [] (d ∷ b) r p h = ground arith
partition_first sep (c ∷ t) [] r p h = partition_nil sep p
partition_first sep (c ∷ t) (d ∷ b) r p h =
    let (missed, e, later) = partition_cons sep c t d b r h in
    let whole : c ∷ t ≡ (d ∷ b) ++ (sep ++ r) = cc (e, partition_lem sep t b r later) in
    rw (after_prefix-none sep (d ∷ b) (sep ++ r) (rw whole at missed), partition)
      (rw (partition_first sep t b r p later) refl)

length-partition :
    (sep t b r : Text) → 0 < length sep → partition sep t ≡ some (b, r) → length r < length t
length-partition sep t b r p h =
    ground (
      arith,
      ap length (partition_lem sep t b r h),
      length-append b (sep ++ r),
      length-append sep r,
    )

join-cons :
    (sep b : Text) (ts : List Text) → 0 < length ts → join sep (b ∷ ts) ≡ b ++ (sep ++ join sep ts)
unfolding join
join-cons sep b [] h = absurd (omega arith)
join-cons sep b (t ∷ ts) h = refl

length-split_loop : (fuel : ℕ) (sep t : Text) → 0 < length (split_loop fuel sep t)
unfolding split_loop
length-split_loop zero sep t = omega arith
length-split_loop (suc fuel) sep t = ground arith

join-split_loop : (fuel : ℕ) (sep t : Text) → join sep (split_loop fuel sep t) ≡ t
unfolding split_loop
join-split_loop zero sep t = unfold join in refl
join-split_loop (suc fuel) sep t = go (partition sep t) refl (join-split_loop fuel sep)
  where
    go :
        (o : Option (Text × Text))
        → partition sep t ≡ o
        → ((r : Text) → join sep (split_loop fuel sep r) ≡ r)
        → join sep (elim o [ none ↦ t ∷ [] | some (b, r) ↦ b ∷ split_loop fuel sep r ]) ≡ t
    go none e ih = unfold join in refl
    go (some (b, r)) e ih =
        join-cons sep b (split_loop fuel sep r) (length-split_loop fuel sep r)
        ∙ ap (λ (u : Text). b ++ (sep ++ u)) (ih r)
        ∙ sym (partition_lem sep t b r e)

pieces_whole :
    (fuel : ℕ) (sep t : Text)
    → 0 < length sep
    → length t < fuel
    → All (λ piece. partition sep piece ≡ none) (split_loop fuel sep t)
unfolding split_loop
pieces_whole zero sep t p h = absurd (omega arith)
pieces_whole (suc fuel) sep t p h = go (partition sep t) refl (λ r m. pieces_whole fuel sep r p m)
  where
    go :
        (o : Option (Text × Text))
        → partition sep t ≡ o
        → ((r : Text)
            → length r < fuel
            → All (λ piece. partition sep piece ≡ none) (split_loop fuel sep r))
        → All
            (λ piece. partition sep piece ≡ none)
            (elim o [ none ↦ t ∷ [] | some (b, r) ↦ b ∷ split_loop fuel sep r ])
    go none e ih = (e, tt)
    go (some (b, r)) e ih =
        (partition_first sep t b r p e, ih r (omega (arith, length-partition sep t b r p e)))

-- The text is cut at every occurrence of a separator that is not empty: no piece has one left,
-- and joined by the separator the pieces are the text again. The fuel of `split` is enough.
pub split_lem :
    (sep t : Text)
    → 0 < length sep
    → All (λ piece. partition sep piece ≡ none) (split sep t) × (join sep (split sep t) ≡ t)
unfolding split
split_lem sep t p =
    (pieces_whole (suc (length t)) sep t p (omega arith), join-split_loop (suc (length t)) sep t)
