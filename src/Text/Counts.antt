-- ===== src/Text/Counts.antt =====
-- How often a character stands in a text.
use relica.Prelude.{ℕ, suc, ◌+◌, ◌==◌, if◌then◌else◌, ◌≡◌, refl, arith, List, [], ◌∷◌, ◌++◌}
use relica.Text.{Text, join}

abbrev pub count : ℕ → Text → ℕ
count c [] = 0
count c (x ∷ s) = if x == c then suc (count c s) else count c s

pub count-append : (c : ℕ) (s t : Text) → count c (s ++ t) ≡ count c s + count c t
count-append c [] t = omega arith
count-append c (x ∷ s) t = ground (arith, count-append c s t)

-- All pieces together.
abbrev pub count_all : ℕ → List Text → ℕ
count_all c [] = 0
count_all c (p ∷ ps) = count c p + count_all c ps

pub count_all-append :
    (c : ℕ) (ps qs : List Text) → count_all c (ps ++ qs) ≡ count_all c ps + count_all c qs
count_all-append c [] qs = omega arith
count_all-append c (p ∷ ps) qs = omega (arith, count_all-append c ps qs)

-- A separator without the character adds none.
pub count-join :
    (c : ℕ) (sep : Text) (ps : List Text) → count c sep ≡ 0 → count c (join sep ps) ≡ count_all c ps
count-join c sep [] h = refl
count-join c sep (p ∷ []) h = omega arith
count-join c sep (p ∷ q ∷ ps) h = omega (
  arith,
  count-append c p (sep ++ join sep (q ∷ ps)),
  count-append c sep (join sep (q ∷ ps)),
  count-join c sep (q ∷ ps) h,
)
