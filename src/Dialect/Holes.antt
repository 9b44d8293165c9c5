-- ===== src/Dialect/Holes.antt =====
-- The number of `?` in quoted names: quoting adds none and drops none.
use relica.Prelude.{ℕ, ◌==◌, ◌≡◌, refl, ap, arith, false, List, [], ◌∷◌, map}
use relica.Text.{Text, question, replace_char, split}
use relica.Text.Counts.{count, count-append, count_all, count-join}
use relica.Text.Split.{join-split}
use relica.Dialect.{
  Dialect, postgres, mysql, sqlite, strip_nul, quote_with, quote_identifier, quote_column, dot,
}

-- The bind positions of a fragment: the renumbering loops look for `?` and nothing else.
abbrev pub holes : Text → ℕ
holes = count question

count-replace_char :
    (c q : ℕ) (by s : Text)
    → c == q ≡ false
    → q == c ≡ false
    → count q by ≡ 0
    → count q (replace_char c by s) ≡ count q s
count-replace_char c q by [] h h' k = refl
count-replace_char c q by (x ∷ s) h h' k =
    ground (arith, count-replace_char c q by s h h' k, count-append q by (replace_char c by s))

-- A character that is neither NUL nor a quote.
pub record IsOrdinary (c : ℕ) : Type 0 where
  pub not_nul : 0 == c ≡ false
  pub not_double : c == b'"' ≡ false
  pub not_back : c == b'`' ≡ false

count-quote_with :
    (c q : ℕ) (s : Text) → 0 == c ≡ false → c == q ≡ false → count c (quote_with q s) ≡ count c s
count-quote_with c q s h0 h = ground (
  arith,
  count-append c (replace_char q (q ∷ q ∷ []) (strip_nul s)) (q ∷ []),
  count-replace_char q c (q ∷ q ∷ []) (strip_nul s),
  count-replace_char 0 c [] s,
)

pub count-quote_identifier :
    (c : ℕ) (d : Dialect) (s : Text) → IsOrdinary c → count c (quote_identifier d s) ≡ count c s
unfolding quote_identifier
count-quote_identifier c postgres s o = count-quote_with c b'"' s o.not_nul o.not_double
count-quote_identifier c mysql s o = count-quote_with c b'`' s o.not_nul o.not_back
count-quote_identifier c sqlite s o = count-quote_with c b'"' s o.not_nul o.not_double

count_all-map-quote :
    (c : ℕ) (d : Dialect) (ps : List Text)
    → IsOrdinary c
    → count_all c (map (quote_identifier d) ps) ≡ count_all c ps
count_all-map-quote c d [] o = refl
count_all-map-quote c d (p ∷ ps) o =
    omega (arith, count-quote_identifier c d p o, count_all-map-quote c d ps o)

pub count-quote_column :
    (c : ℕ) (d : Dialect) (col : Text)
    → IsOrdinary c
    → c == dot ≡ false
    → count c (quote_column col d) ≡ count c col
unfolding quote_column
count-quote_column c d col o h = ground (
  arith,
  count-join c (dot ∷ []) (map (quote_identifier d) (split dot col)),
  count-join c (dot ∷ []) (split dot col),
  count_all-map-quote c d (split dot col) o,
  ap (count c) (join-split dot col),
  count-quote_identifier c d col o,
)

pub question-IsOrdinary : IsOrdinary question
question-IsOrdinary = record { not_nul = refl; not_double = refl; not_back = refl }

pub holes-quote_identifier : (d : Dialect) (s : Text) → holes (quote_identifier d s) ≡ holes s
holes-quote_identifier d s = count-quote_identifier question d s question-IsOrdinary

pub holes-quote_column : (d : Dialect) (col : Text) → holes (quote_column col d) ≡ holes col
holes-quote_column d col = count-quote_column question d col question-IsOrdinary refl
