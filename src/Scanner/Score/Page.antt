-- ===== src/Scanner/Score/Page.antt =====
-- The score that the page of an advisory shows is the one that is read.
use schunk_fts_ros.Base.{
  ℕ, zero, suc, ◌-◌, ◌≤◌, ◌≡◌, refl, ◌∙◌, Bool, true, false, not, ◌&&◌, some, none, [], ◌∷◌, ◌++◌,
  Text, codes, ◌==◌, length, length-append, drop, arith,
}
use schunk_fts_ros.Strings.{after_prefix, partition, is_empty}
use schunk_fts_ros.Strings.Strip.{all, take_while-append, drop_while-append}
use schunk_fts_ros.Strings.Lines.{after_prefix-append, partition_here, partition_past, missed}
use schunk_fts_ros.Scanner.Web.{Decimal, Web}
use schunk_fts_ros.Scanner.Score.{
  is_digit, to_decimal, match_number, last_number, page_score, fetch_ghsa_cvss_score,
}

abbrev pub out_of : Text
out_of = codes "/ 10"

-- The marker stands at the front of no text that ends within it.
no_overlap :
    (c : ℕ) (t r : Text)
    → after_prefix out_of (c ∷ t) ≡ none
    → after_prefix out_of (c ∷ (t ++ (out_of ++ r))) ≡ none
unfolding after_prefix
no_overlap c [] r h = ground arith
no_overlap c (d ∷ []) r h = ground arith
no_overlap c (d ∷ e ∷ []) r h = ground arith
no_overlap c (d ∷ e ∷ f ∷ t) r h = ground (arith, h)

partition-out_of :
    (t r : Text) → partition out_of t ≡ none → partition out_of (t ++ (out_of ++ r)) ≡ some (t, r)
partition-out_of [] r h = partition_here out_of (out_of ++ r) r (after_prefix-append out_of r)
partition-out_of (c ∷ t) r h =
    let (here, later) = missed out_of c t h in
    partition_past out_of c (t ++ (out_of ++ r)) t r (no_overlap c t r here)
      (partition-out_of t r later)

abbrev pub is_number : Text → Bool
is_number t = all is_digit t && not (is_empty t)

-- A number as a page shows it, behind the `>`.
abbrev pub shown_number : Text → Text → Text → Text
shown_number whole fraction rest = whole ++ b'.' ∷ (fraction ++ b'<' ∷ rest)

match_number-shown :
    (whole fraction rest : Text)
    → is_number whole ≡ true
    → is_number fraction ≡ true
    → match_number (shown_number whole fraction rest) ≡ some (to_decimal whole fraction)
unfolding match_number
match_number-shown whole fraction rest w f =
    let digits : all is_digit whole ≡ true = ground (arith, w) in
    let digits' : all is_digit fraction ≡ true = ground (arith, f) in
    rw
      (
        take_while-append is_digit whole (b'.' ∷ (fraction ++ b'<' ∷ rest)) digits refl,
        drop_while-append is_digit whole (b'.' ∷ (fraction ++ b'<' ∷ rest)) digits refl,
        take_while-append is_digit fraction (b'<' ∷ rest) digits' refl,
        drop_while-append is_digit fraction (b'<' ∷ rest) digits' refl,
      )
      (ground (arith, w, f))

last_number-digits :
    (t r : Text) → all is_digit t ≡ true → last_number r ≡ none → last_number (t ++ r) ≡ none
unfolding last_number
last_number-digits [] r h e = e
last_number-digits (c ∷ t) r h e = ground (arith, h, last_number-digits t r (ground (arith, h)) e)

last_number-other :
    (c : ℕ) (r : Text) → (c == b'>') ≡ false → last_number r ≡ none → last_number (c ∷ r) ≡ none
unfolding last_number
last_number-other c r h e = ground (arith, h, e)

last_number-here :
    (t : Text) (d : Decimal)
    → last_number t ≡ none
    → match_number t ≡ some d
    → last_number (b'>' ∷ t) ≡ some d
unfolding last_number
last_number-here t d e h = ground (arith, e, h)

last_number-shown :
    (whole fraction rest : Text)
    → is_number whole ≡ true
    → is_number fraction ≡ true
    → last_number rest ≡ none
    → last_number (b'>' ∷ shown_number whole fraction rest) ≡ some (to_decimal whole fraction)
last_number-shown whole fraction rest w f h =
    last_number-here (shown_number whole fraction rest) (to_decimal whole fraction)
      (last_number-digits whole _ (ground (arith, w)) (
        last_number-other b'.' _ refl
          (last_number-digits fraction _ (ground (arith, f)) (last_number-other b'<' rest refl h))))
      (match_number-shown whole fraction rest w f)

last_number-append :
    (t r : Text) (d : Decimal) → last_number r ≡ some d → last_number (t ++ r) ≡ some d
unfolding last_number
last_number-append [] r d h = h
last_number-append (c ∷ t) r d h = ground (arith, last_number-append t r d h)

-- What precedes the last part can be cut anywhere.
last_number-drop :
    (n : ℕ) (s r : Text) (d : Decimal)
    → n ≤ length s
    → last_number r ≡ some d
    → last_number (drop n (s ++ r)) ≡ some d
last_number-drop zero s r d h e = last_number-append s r d e
last_number-drop (suc n) [] r d h e = absurd (omega (arith, h))
last_number-drop (suc n) (c ∷ s) r d h e = last_number-drop n s r d (omega (arith, h)) e

page_score-partition :
    (page b a : Text)
    → partition out_of page ≡ some (b, a)
    → page_score page ≡ last_number (drop (length b - 3000) b)
unfolding page_score
page_score-partition page b a h = ground (arith, h)

page_score-shown :
    (before whole fraction between after : Text)
    → partition out_of (before ++ b'>' ∷ shown_number whole fraction between) ≡ none
    → is_number whole ≡ true
    → is_number fraction ≡ true
    → last_number between ≡ none
    → length (b'>' ∷ shown_number whole fraction between) ≤ 3000
    → page_score ((before ++ b'>' ∷ shown_number whole fraction between) ++ (out_of ++ after))
      ≡ some (to_decimal whole fraction)
page_score-shown before whole fraction between after p w f h n =
    let shown = b'>' ∷ shown_number whole fraction between in
    page_score-partition _ (before ++ shown) after (partition-out_of (before ++ shown) after p)
    ∙ last_number-drop (length (before ++ shown) - 3000) before shown (to_decimal whole fraction)
        (omega (arith, length-append before shown, n))
        (last_number-shown whole fraction between w f h)

fetch-page :
    (web : Web) (ghsa_id page : Text) (d : Decimal)
    → web.page ghsa_id ≡ some page
    → page_score page ≡ some d
    → fetch_ghsa_cvss_score web ghsa_id ≡ some d
unfolding fetch_ghsa_cvss_score
fetch-page web ghsa_id page d g h = ground (arith, g, h)

-- If the page of an advisory shows `>`, a number and `<` in the 3000 characters before its first
-- `/ 10`, and no such number behind them, then this number is the score of the advisory, whatever
-- the REST API says.
pub fetch_ghsa_cvss_score-shown :
    (web : Web) (ghsa_id before whole fraction between after : Text)
    → web.page ghsa_id
      ≡ some ((before ++ b'>' ∷ shown_number whole fraction between) ++ (out_of ++ after))
    → partition out_of (before ++ b'>' ∷ shown_number whole fraction between) ≡ none
    → is_number whole ≡ true
    → is_number fraction ≡ true
    → last_number between ≡ none
    → length (b'>' ∷ shown_number whole fraction between) ≤ 3000
    → fetch_ghsa_cvss_score web ghsa_id ≡ some (to_decimal whole fraction)
fetch_ghsa_cvss_score-shown web ghsa_id before whole fraction between after g p w f h n =
    fetch-page web ghsa_id _ (to_decimal whole fraction) g
      (page_score-shown before whole fraction between after p w f h n)
