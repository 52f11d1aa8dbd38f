-- ===== src/Scanner/Sources/Cargo/Blocks.antt =====
-- A block of a Cargo.lock, as Cargo writes it, and what the scanner finds in it.
use schunk_fts_ros.Base.{
  ℕ, ◌≡◌, refl, ap, ◌∙◌, Bool, true, false, not, ◌&&◌, some, [], ◌∷◌, ◌++◌, Text, codes, ◌==◌,
  arith,
}
use mathlib.Core.List.{append_assoc}
use schunk_fts_ros.Strings.{is_blank, drop_while, after_prefix}
use schunk_fts_ros.Strings.Strip.{all, take_while-append, drop_while-append}
use schunk_fts_ros.Strings.Lines.{line}
use schunk_fts_ros.Scanner.Sources.Cargo.{quoted, assigned, match_line, search_line}

pub record Crate : Type 0 where
  pub name : Text
  pub version : Text
  pub rest : Text

-- The lines of a crate, without the last newline.
abbrev pub block : Crate → Text
block c =
    codes "\nname = \"" ++ (c.name ++ (codes "\"\nversion = \"" ++ (c.version ++ b'"' ∷ c.rest)))

-- Neither a quote nor the end of a line.
abbrev pub in_value : ℕ → Bool
in_value c = not (c == b'"') && not (c == b'\n')

abbrev pub is_value : Text → Bool
is_value [] = false
is_value (c ∷ t) = all in_value (c ∷ t)

unquoted : (t : Text) → all in_value t ≡ true → all (λ d. not (d == b'"')) t ≡ true
unquoted [] h = refl
unquoted (c ∷ t) h = ground (arith, h, unquoted t)

quoted_lem : (v r : Text) → is_value v ≡ true → quoted (b'"' ∷ (v ++ b'"' ∷ r)) ≡ some v
unfolding quoted
quoted_lem [] r h = ground (arith, h)
quoted_lem (c ∷ v) r h =
    let quote = λ (d : ℕ). not (d == b'"') in
    rw
      (
        take_while-append quote (c ∷ v) (b'"' ∷ r) (unquoted (c ∷ v) h) refl,
        drop_while-append quote (c ∷ v) (b'"' ∷ r) (unquoted (c ∷ v) h) refl,
      )
      refl

-- Within a line no search begins.
search_value :
    (word v t : Text)
    → all in_value v ≡ true
    → search_line false word (v ++ t) ≡ search_line false word t
unfolding search_line
search_value word [] t h = refl
search_value word (c ∷ v) t h =
    let inside : (c == b'\n') ≡ false = ground (arith, h) in
    rw inside (search_value word v t (ground (arith, h)))

-- A line that matches is what the search finds, where it begins.
search_here :
    (word : Text) (c : ℕ) (t v : Text)
    → match_line word (c ∷ t) ≡ some v
    → search_line true word (c ∷ t) ≡ some v
unfolding search_line
search_here word c t v h = ground (arith, h)

name_matches :
    (v r : Text)
    → is_value v ≡ true
    → match_line (codes "name") (codes "name = \"" ++ (v ++ b'"' ∷ r)) ≡ some v
unfolding match_line assigned after_prefix drop_while is_blank
name_matches v r h = quoted_lem v r h

version_matches :
    (v r : Text)
    → is_value v ≡ true
    → match_line (codes "version") (codes "version = \"" ++ (v ++ b'"' ∷ r)) ≡ some v
unfolding match_line assigned after_prefix drop_while is_blank
version_matches v r h = quoted_lem v r h

name_found :
    (v r : Text)
    → is_value v ≡ true
    → search_line true (codes "name") (codes "\nname = \"" ++ (v ++ b'"' ∷ r)) ≡ some v
unfolding search_line match_line after_prefix
name_found v r h =
    search_here (codes "name") b'n' (codes "ame = \"" ++ (v ++ b'"' ∷ r)) v (name_matches v r h)

value_in_line : (v : Text) → is_value v ≡ true → all in_value v ≡ true
value_in_line [] h = refl
value_in_line (c ∷ v) h = h

version_found :
    (n v r : Text)
    → is_value n ≡ true
    → is_value v ≡ true
    → search_line true
        (codes "version")
        (codes "\nname = \"" ++ (n ++ (codes "\"\nversion = \"" ++ (v ++ b'"' ∷ r))))
      ≡ some v
unfolding search_line match_line after_prefix
version_found n v r k h =
    search_value (codes "version") n _ (value_in_line n k)
    ∙ search_here (codes "version") b'v' (codes "ersion = \"" ++ (v ++ b'"' ∷ r)) v
        (version_matches v r h)

-- The block with its newline, which belongs to the rest.
line-block :
    (c : Crate)
    → line (block c) ≡ (
        codes "\nname = \""
        ++ (c.name ++ (codes "\"\nversion = \"" ++ (c.version ++ b'"' ∷ (c.rest ++ b'\n' ∷ [])))))
line-block c =
    ap (λ (t : Text). codes "\nname = \"" ++ t)
      (append_assoc c.name _ (b'\n' ∷ [])
        ∙ ap (λ (t : Text). c.name ++ (codes "\"\nversion = \"" ++ t))
            (append_assoc c.version (b'"' ∷ c.rest) (b'\n' ∷ [])))

-- The name and the version of a block are found.
pub block-name :
    (c : Crate)
    → is_value c.name ≡ true
    → search_line true (codes "name") (line (block c)) ≡ some c.name
block-name c h = rw (line-block c) (name_found c.name _ h)

pub block-version :
    (c : Crate)
    → is_value c.name ≡ true
    → is_value c.version ≡ true
    → search_line true (codes "version") (line (block c)) ≡ some c.version
block-version c k h = rw (line-block c) (version_found c.name c.version _ k h)
