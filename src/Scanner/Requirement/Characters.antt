-- ===== src/Scanner/Requirement/Characters.antt =====
-- Which characters the parts of a requirement exclude.
use schunk_fts_ros.Base.{
  ℕ, ◌≡◌, refl, Bool, true, false, not, ◌||◌, [], ◌∷◌, ◌++◌, Text, arith, ◌==◌,
}
use mathlib.Core.List.{Memᴰ}
use mathlib.Core.List.Memᴰ.{head, tail}
use schunk_fts_ros.Strings.{is_blank, take_while}
use schunk_fts_ros.Strings.Strip.{all, stops}
use schunk_fts_ros.Scanner.Requirement.{is_name_char, is_version_char, operators}
use schunk_fts_ros.Scanner.Requirement.Form.{is_space, nonempty}

pub all-imply :
    (p q : ℕ → Bool) (t : Text)
    → ((c : ℕ) → p c ≡ true → q c ≡ true)
    → all p t ≡ true
    → all q t ≡ true
all-imply p q [] pq h = refl
all-imply p q (c ∷ t) pq h = ground (arith, h, pq c, all-imply p q t pq)

-- What starts with characters that satisfy `p`, and has one, stops `q`.
pub stops-append :
    (p q : ℕ → Bool) (s t : Text)
    → ((c : ℕ) → p c ≡ true → q c ≡ false)
    → nonempty s ≡ true
    → all p s ≡ true
    → stops q (s ++ t) ≡ true
stops-append p q [] t pq n h = ground (arith, n)
stops-append p q (c ∷ s) t pq n h = ground (arith, h, pq c)

-- What ends after `p` stops `q` if `p` excludes it and what follows stops it.
pub stops-gap :
    (p q : ℕ → Bool) (s t : Text)
    → ((c : ℕ) → p c ≡ true → q c ≡ false)
    → all p s ≡ true
    → stops q t ≡ true
    → stops q (s ++ t) ≡ true
stops-gap p q [] t pq h e = e
stops-gap p q (c ∷ s) t pq h e = ground (arith, h, pq c)

pub stops-front :
    (q : ℕ → Bool) (s t : Text) → nonempty s ≡ true → stops q s ≡ true → stops q (s ++ t) ≡ true
stops-front q [] t n h = ground (arith, n)
stops-front q (c ∷ s) t n h = h

pub take_while-keep :
    (p : ℕ → Bool) (s t : Text) → all p s ≡ true → take_while p (s ++ t) ≡ (s ++ take_while p t)
unfolding take_while
take_while-keep p [] t h = refl
take_while-keep p (c ∷ s) t h = ground (arith, h, take_while-keep p s t)

pub stops-take_while :
    (p q : ℕ → Bool) (t : Text) → stops q t ≡ true → stops q (take_while p t) ≡ true
unfolding take_while
stops-take_while p q [] h = refl
stops-take_while p q (c ∷ t) h = ground (arith, h)

pub version-nonblank : (c : ℕ) → is_version_char c ≡ true → is_blank c ≡ false
unfolding is_version_char
version-nonblank c h = ground (arith, h)

pub name-nonblank : (c : ℕ) → is_name_char c ≡ true → is_blank c ≡ false
unfolding is_name_char is_blank
name-nonblank c h = ground (arith, h)

abbrev pub is_op_char : ℕ → Bool
is_op_char c = c == b'=' || c == b'<' || c == b'>' || c == b'~' || c == b'!'

pub operator-chars :
    (op : Text) → Memᴰ op operators → (all is_op_char op ≡ true) × (nonempty op ≡ true)
operator-chars op (head e) = rw e (refl, refl)
operator-chars op (tail (head e)) = rw e (refl, refl)
operator-chars op (tail (tail (head e))) = rw e (refl, refl)
operator-chars op (tail (tail (tail (head e)))) = rw e (refl, refl)
operator-chars op (tail (tail (tail (tail (head e))))) = rw e (refl, refl)
operator-chars op (tail (tail (tail (tail (tail (head e)))))) = rw e (refl, refl)
operator-chars op (tail (tail (tail (tail (tail (tail (head e))))))) = rw e (refl, refl)
operator-chars op (tail (tail (tail (tail (tail (tail (tail m))))))) = elim m [ ]

pub op_char-nonblank : (c : ℕ) → is_op_char c ≡ true → is_blank c ≡ false
unfolding is_blank
op_char-nonblank c h = ground (arith, h)

pub version-line : (c : ℕ) → is_version_char c ≡ true → not (c == b'\n') ≡ true
unfolding is_version_char is_blank
version-line c h = ground (arith, h)

pub space-no_equals : (c : ℕ) → is_space c ≡ true → (b'=' == c) ≡ false
unfolding is_blank
space-no_equals c h = ground (arith, h)

pub blank-name : (c : ℕ) → is_blank c ≡ true → is_name_char c ≡ false
blank-name c h = ground (arith, h, name-nonblank c)

pub op_char-name : (c : ℕ) → is_op_char c ≡ true → is_name_char c ≡ false
unfolding is_name_char
op_char-name c h = ground (arith, h)

pub blank-bracket : (c : ℕ) → is_blank c ≡ true → (c == b'[') ≡ false
unfolding is_blank
blank-bracket c h = ground (arith, h)
