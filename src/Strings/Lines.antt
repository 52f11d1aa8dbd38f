-- ===== src/Strings/Lines.antt =====
-- `split` of texts that end with a newline, with a separator between them that has no newline.
use schunk_fts_ros.Base.{
  ℕ, zero, suc, ◌≤◌, ◌<◌, ◌≡◌, refl, ap, Bool, true, not, none, some, List, [], ◌∷◌, ◌++◌, map,
  Text, ◌==◌, length, length-append, arith,
}
use schunk_fts_ros.Strings.{after_prefix, partition, split_loop, split}
use schunk_fts_ros.Strings.Strip.{all}

abbrev pub in_line : ℕ → Bool
in_line c = not (c == b'\n')

abbrev pub line : Text → Text
line t = t ++ b'\n' ∷ []

pub after_prefix-append : (s r : Text) → after_prefix s (s ++ r) ≡ some r
unfolding after_prefix
after_prefix-append [] r = refl
after_prefix-append (c ∷ s) r = ground (arith, after_prefix-append s r)

after_prefix-line :
    (s t r : Text)
    → all in_line s ≡ true
    → after_prefix s t ≡ none
    → after_prefix s (t ++ b'\n' ∷ r) ≡ none
unfolding after_prefix
after_prefix-line [] t r k e = ground (arith, e)
after_prefix-line (c ∷ s) [] r k e = ground (arith, k)
after_prefix-line (c ∷ s) (d ∷ t) r k e = ground (arith, k, e, after_prefix-line s t r)

-- The lines, with the separator between them.
abbrev pub glue : Text → Text → List Text → Text
glue sep t [] = line t
glue sep t (u ∷ us) = t ++ b'\n' ∷ (sep ++ glue sep u us)

abbrev pub AreFree : Text → List Text → Type 0
AreFree sep [] = Unit {0}
AreFree sep (t ∷ ts) = (partition sep t ≡ none) × AreFree sep ts

-- What stops the search at each position of `t`.
pub missed :
    (sep : Text) (c : ℕ) (t : Text)
    → partition sep (c ∷ t) ≡ none
    → (after_prefix sep (c ∷ t) ≡ none) × (partition sep t ≡ none)
unfolding partition
missed sep c t h = ground arith

pub partition_here : (sep t r : Text) → after_prefix sep t ≡ some r → partition sep t ≡ some ([], r)
unfolding partition
partition_here sep [] r h = ground (arith, h)
partition_here sep (c ∷ t) r h = ground (arith, h)

pub partition_past :
    (sep : Text) (c : ℕ) (t b r : Text)
    → after_prefix sep (c ∷ t) ≡ none
    → partition sep t ≡ some (b, r)
    → partition sep (c ∷ t) ≡ some (c ∷ b, r)
unfolding partition
partition_past sep c t b r h e = ground (arith, h, e)

partition_over :
    (sep : Text) (c : ℕ) (t : Text)
    → after_prefix sep (c ∷ t) ≡ none
    → partition sep t ≡ none
    → partition sep (c ∷ t) ≡ none
unfolding partition
partition_over sep c t h e = ground (arith, h, e)

module _ (c : ℕ) (s : Text) (h : all in_line (c ∷ s) ≡ true) where
  newline-after_prefix : (r : Text) → after_prefix (c ∷ s) (b'\n' ∷ r) ≡ none
  unfolding after_prefix
  newline-after_prefix r = ground (arith, h)

  nothing_left : partition (c ∷ s) [] ≡ none
  unfolding partition after_prefix
  nothing_left = refl

  partition-last : (t : Text) → partition (c ∷ s) t ≡ none → partition (c ∷ s) (line t) ≡ none
  partition-last [] e = partition_over (c ∷ s) b'\n' [] (newline-after_prefix []) nothing_left
  partition-last (d ∷ t) e =
      let (here, later) = missed (c ∷ s) d t e in
      partition_over (c ∷ s) d (line t) (after_prefix-line (c ∷ s) (d ∷ t) [] h here)
        (partition-last t later)

  partition-line :
      (t r : Text)
      → partition (c ∷ s) t ≡ none
      → partition (c ∷ s) (t ++ b'\n' ∷ ((c ∷ s) ++ r)) ≡ some (line t, r)
  partition-line [] r e =
      partition_past (c ∷ s) b'\n' ((c ∷ s) ++ r) [] r (newline-after_prefix ((c ∷ s) ++ r))
        (partition_here (c ∷ s) ((c ∷ s) ++ r) r (after_prefix-append (c ∷ s) r))
  partition-line (d ∷ t) r e =
      let (here, later) = missed (c ∷ s) d t e in
      partition_past (c ∷ s) d (t ++ b'\n' ∷ ((c ∷ s) ++ r)) (line t) r
        (after_prefix-line (c ∷ s) (d ∷ t) ((c ∷ s) ++ r) h here) (partition-line t r later)

  split_loop-glue :
      (fuel : ℕ) (t : Text) (ts : List Text)
      → length ts < fuel
      → AreFree (c ∷ s) (t ∷ ts)
      → split_loop fuel (c ∷ s) (glue (c ∷ s) t ts) ≡ map line (t ∷ ts)
  unfolding split_loop
  split_loop-glue zero t ts n f = absurd (omega arith)
  split_loop-glue (suc fuel) t [] n (e, f) = rw (split_loop, partition-last t e) refl
  split_loop-glue (suc fuel) t (u ∷ us) n (e, f) =
      rw (split_loop, partition-line t (glue (c ∷ s) u us) e)
        (ap (λ rest. line t ∷ rest) (split_loop-glue fuel u us (omega (arith, n)) f))

  length-glue : (t : Text) (ts : List Text) → length ts ≤ length (glue (c ∷ s) t ts)
  length-glue t [] = omega arith
  length-glue t (u ∷ us) = ground (
    arith,
    length-append t (b'\n' ∷ ((c ∷ s) ++ glue (c ∷ s) u us)),
    length-append s (glue (c ∷ s) u us),
    length-glue u us,
  )

  -- The separator of one line stands in none of the texts: `split` finds their lines.
  pub split-glue :
      (t : Text) (ts : List Text)
      → AreFree (c ∷ s) (t ∷ ts)
      → split (c ∷ s) (glue (c ∷ s) t ts) ≡ map line (t ∷ ts)
  unfolding split
  split-glue t ts f =
      split_loop-glue (suc (length (glue (c ∷ s) t ts))) t ts (omega (arith, length-glue t ts)) f
