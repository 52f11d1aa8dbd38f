-- ===== src/Strings.antt =====
-- The methods of Python's `str`, `list`, `set` and `dict` that security/cve_scanner.py calls, on
-- texts as lists of code points. `lower` and `upper` change the letters of ASCII alone: the program
-- applies them to package names and to labels of a severity.
pub mod Sets
pub mod Split
pub mod Strip
pub mod Lines
use schunk_fts_ros.Base.{
  ℕ, zero, suc, ◌+◌, ◌-◌, ◌/◌, ◌%◌, Bool, true, false, not, ◌&&◌, ◌||◌, Option, none, some, List,
  [], ◌∷◌, ◌++◌, map, reverse, Text, codes, same, ltb, leb, ◌==◌, if◌then◌else◌, length,
}

-- `str.isspace` of a code point, which is also the class `\s`.
unfoldable pub is_blank : ℕ → Bool
is_blank c =
    leb 9 c && leb c 13
    || leb 28 c && leb c 32
    || c == 133
    || c == 160
    || c == 5760
    || leb 8192 c && leb c 8202
    || c == 8232
    || c == 8233
    || c == 8239
    || c == 8287
    || c == 12288

module _ (p : ℕ → Bool) where
  unfoldable pub drop_while : Text → Text
  drop_while [] = []
  drop_while (c ∷ t) = if p c then drop_while t else c ∷ t

  unfoldable pub take_while : Text → Text
  take_while [] = []
  take_while (c ∷ t) = if p c then c ∷ take_while t else []

unfoldable pub strip : Text → Text
unfolding is_blank drop_while
strip t = reverse (drop_while is_blank (reverse (drop_while is_blank t)))

unfoldable pub lower : Text → Text
lower = map (λ c. if leb b'A' c && leb c b'Z' then c + 32 else c)

unfoldable pub upper : Text → Text
upper = map (λ c. if leb b'a' c && leb c b'z' then c - 32 else c)

-- `t.replace(a, b)` of one character by another.
unfoldable pub replace : ℕ → ℕ → Text → Text
replace a b = map (λ c. if c == a then b else c)

-- What follows a prefix.
unfoldable pub after_prefix : Text → Text → Option Text
after_prefix [] t = some t
after_prefix (c ∷ s) [] = none
after_prefix (c ∷ s) (d ∷ t) = if c == d then after_prefix s t else none

abbrev pub is_some {ℓ} : {A : Type ℓ} → Option A → Bool
is_some none = false
is_some (some a) = true

unfoldable pub starts_with : Text → Text → Bool
unfolding after_prefix
starts_with t prefix = is_some (after_prefix prefix t)

-- The first occurrence of a text: what precedes it, and what follows it.
unfoldable pub partition : Text → Text → Option (Text × Text)
unfolding after_prefix
partition sep [] = elim (after_prefix sep []) [ none ↦ none | some r ↦ some ([], r) ]
partition sep (c ∷ t) = elim (after_prefix sep (c ∷ t)) [
  | some r ↦ some ([], r)
  | none ↦ elim (partition sep t) [ none ↦ none | some (b, r) ↦ some (c ∷ b, r) ]
]

-- `needle in text`
unfoldable pub occurs : Text → Text → Bool
unfolding partition
occurs needle t = is_some (partition needle t)

-- `t.split(sep)`, with fuel.
unfoldable pub split_loop : ℕ → Text → Text → List Text
split_loop zero sep t = t ∷ []
split_loop (suc fuel) sep t = elim (partition sep t) [
  | none ↦ t ∷ []
  | some (b, r) ↦ b ∷ split_loop fuel sep r
]

unfoldable pub split : Text → Text → List Text
unfolding split_loop partition
split sep t = split_loop (suc (length t)) sep t

-- `sep.join(texts)`
unfoldable pub join : Text → List Text → Text
join sep [] = []
join sep (t ∷ []) = t
join sep (t ∷ u ∷ ts) = t ++ (sep ++ join sep (u ∷ ts))

-- `x in set`
unfoldable pub contains : Text → List Text → Bool
contains t [] = false
contains t (u ∷ us) = same t u || contains t us

-- `d.get(key)`
unfoldable pub find {ℓ} : {V : Type ℓ} → Text → List (Text × V) → Option V
find k [] = none
find k ((j, v) ∷ m) = if same k j then some v else find k m

-- `d.get(key, default)`, on the entry.
abbrev pub or_else {ℓ} : {A : Type ℓ} → Option A → A → A
or_else none a = a
or_else (some x) a = x

-- The texts, and the lists, that count as false.
abbrev pub is_empty {ℓ} : {A : Type ℓ} → List A → Bool
is_empty [] = true
is_empty (x ∷ xs) = false

-- `str(n)`, with fuel for the digits.
unfoldable pub digits : ℕ → ℕ → Text → Text
digits zero n acc = acc
digits (suc fuel) n acc =
    let acc' = (48 + n % 10) ∷ acc in
    let rest = digits fuel (n / 10) acc' in if ltb n 10 then acc' else rest

unfoldable pub show : ℕ → Text
unfolding digits
show n = digits (suc n) n []
