-- ===== src/Query/Number.antt =====
-- The renumbering loop against one pass over the text.
use relica.Prelude.{
  ℕ, zero, suc, ◌-◌, ◌==◌, ◌≡◌, refl, ap, ◌∙◌, true, false, [], ◌∷◌, ◌++◌, arith, Bool-cases, inl,
  inr,
}
use relica.Text.{Text, question, replace_first}
use relica.Text.Counts.{count-append}
use relica.Text.Decimal.{decimal, decimal-All, count_of_digits}
use relica.Dialect.{postgres, placeholder}
use relica.Dialect.Holes.{holes}
use relica.Query.{renumber}

-- The first `n` question marks become the placeholders from `k` on.
unfoldable pub number : ℕ → ℕ → Text → Text
number k zero s = s
number k (suc n) [] = []
number k (suc n) (x ∷ s) = elim (x == question) [
  | true ↦ placeholder postgres k ++ number (suc k) n s
  | false ↦ x ∷ number k (suc n) s
]

pub holes-placeholder : (k : ℕ) → holes (placeholder postgres k) ≡ 0
unfolding placeholder
holes-placeholder k = count_of_digits question (decimal k) (decimal-All k) (omega arith)

replace_first-append :
    (by p s : Text)
    → holes p ≡ 0
    → replace_first question by (p ++ s) ≡ p ++ replace_first question by s
replace_first-append by [] s h = refl
replace_first-append by (x ∷ p) s h = ground (arith, replace_first-append by p s)

renumber-append :
    (k n : ℕ) (p s : Text)
    → holes p ≡ 0
    → renumber postgres k n (p ++ s) ≡ p ++ renumber postgres k n s
unfolding renumber
renumber-append k zero p s h = refl
renumber-append k (suc n) p s h =
    rw (replace_first-append (placeholder postgres k) p s h) (renumber-append (suc k) n p _ h)

renumber-nil : (k n : ℕ) → renumber postgres k n [] ≡ []
unfolding renumber
renumber-nil k zero = refl
renumber-nil k (suc n) = renumber-nil (suc k) n

-- The loop of string replacements is the one pass: each placeholder it writes holds no `?`,
-- so the next round finds the next `?` of the source text.
pub renumber-number : (k n : ℕ) (s : Text) → renumber postgres k n s ≡ number k n s
unfolding renumber number
renumber-number k zero s = refl
renumber-number k (suc n) [] = renumber-nil (suc k) n
renumber-number k (suc n) (x ∷ s) = elim (Bool-cases (x == question)) [
  | inl hole ↦
      rw (hole, number, renumber-append (suc k) n (placeholder postgres k) s (holes-placeholder k))
        (ap (◌++◌ (placeholder postgres k)) (renumber-number (suc k) n s))
  | inr plain ↦
      rw (plain, number)
        (renumber-append (suc k) n (x ∷ []) (replace_first question (placeholder postgres k) s)
            (rw plain)
          ∙ ap (◌∷◌ x) (renumber-number k (suc n) s))
]

-- It takes away `n` question marks, if there are as many.
pub holes-number : (k n : ℕ) (s : Text) → holes (number k n s) ≡ holes s - n
unfolding number
holes-number k zero s = omega arith
holes-number k (suc n) [] = omega arith
holes-number k (suc n) (x ∷ s) = ground (
  arith,
  holes-number (suc k) n s,
  holes-number k (suc n) s,
  holes-placeholder k,
  count-append question (placeholder postgres k) (number (suc k) n s),
)
