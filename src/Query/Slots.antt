-- ===== src/Query/Slots.antt =====
-- What PostgreSQL sees of a statement: the parameter that each `$n` stands for.
use relica.Prelude.{
  ℕ, zero, suc, ◌+◌, ◌-◌, ◌*◌, ◌==◌, leb, ◌≡◌, refl, ap, ◌∙◌, Bool, true, false, not, ◌&&◌, List,
  [], ◌∷◌, ◌++◌, if◌then◌else◌, arith, Bool-cases, inl, inr, Option, none, some, All, append_assoc,
}
use relica.Text.{Text, question}
use relica.Text.Counts.{count}
use relica.Text.Decimal.{decimal, decimal-All, value, value-decimal, IsDigit}
use relica.Dialect.{postgres, placeholder}
use relica.Dialect.Holes.{holes}
use relica.Query.Number.{number}

abbrev pub dollar : ℕ
dollar = b'$'

abbrev pub is_digit : ℕ → Bool
is_digit c = leb b'0' c && leb c b'9'

-- The indices behind the dollar signs, in the order of the text. The first argument is the
-- index that is being read.
unfoldable pub slots_from : Option ℕ → Text → List ℕ
slots_from none [] = []
slots_from (some n) [] = n ∷ []
slots_from none (c ∷ s) = slots_from (if c == dollar then some 0 else none) s
slots_from (some n) (c ∷ s) = elim (is_digit c) [
  | true ↦ slots_from (some (n * 10 + (c - b'0'))) s
  | false ↦ n ∷ slots_from (if c == dollar then some 0 else none) s
]

unfoldable pub slots : Text → List ℕ
unfolding slots_from
slots s = slots_from none s

abbrev pub is_digit_head : Text → Bool
is_digit_head [] = false
is_digit_head (c ∷ s) = is_digit c

-- No dollar sign.
abbrev pub dollars : Text → ℕ
dollars = count dollar

-- Numbers from `k` on.
abbrev pub up_from : ℕ → ℕ → List ℕ
up_from k zero = []
up_from k (suc n) = k ∷ up_from (suc k) n

-- A fragment that numbering makes no index ambiguous in: no dollar sign, and no digit behind
-- a `?`.
abbrev pub IsClear : Text → Type 0
IsClear [] = Unit
IsClear (c ∷ s) = (c == dollar ≡ false) × ((c == question && is_digit_head s) ≡ false) × IsClear s

-- A decision of `IsClear`.
abbrev pub is_clear : Text → Bool
is_clear [] = true
is_clear (c ∷ s) = not (c == dollar) && (not (c == question && is_digit_head s) && is_clear s)

pub is_clear→IsClear : (s : Text) → is_clear s ≡ true → IsClear s
is_clear→IsClear [] h = tt
is_clear→IsClear (c ∷ s) h = (ground arith, ground arith, is_clear→IsClear s (ground arith))

pub IsClear-append :
    (s t : Text) → IsClear s → IsClear t → is_digit_head t ≡ false → IsClear (s ++ t)
IsClear-append [] t h k e = k
IsClear-append (c ∷ []) t h k e = ground arith
IsClear-append (c ∷ x ∷ s) t h k e = (h.0, h.1, IsClear-append (x ∷ s) t h.2 k e)

slots_from-plain : (p t : Text) → dollars p ≡ 0 → slots_from none (p ++ t) ≡ slots_from none t
unfolding slots_from
slots_from-plain [] t h = refl
slots_from-plain (c ∷ p) t h = ground (arith, slots_from-plain p t)

slots_from-digits :
    (n : ℕ) (w t : Text)
    → All IsDigit w
    → is_digit_head t ≡ false
    → slots_from (some n) (w ++ t) ≡ value n w ∷ slots_from none t
unfolding slots_from
slots_from-digits n [] [] h e = refl
slots_from-digits n [] (c ∷ t) h e = ground arith
slots_from-digits n (c ∷ w) t h e =
    ground (arith, slots_from-digits (n * 10 + (c - b'0')) w t h.1 e)

-- Text without dollar signs holds no placeholder.
pub slots-plain : (p t : Text) → dollars p ≡ 0 → slots (p ++ t) ≡ slots t
unfolding slots
slots-plain p t h = slots_from-plain p t h

-- A placeholder is read back as its index.
pub slots-placeholder :
    (k : ℕ) (t : Text) → is_digit_head t ≡ false → slots (placeholder postgres k ++ t) ≡ k ∷ slots t
unfolding slots placeholder slots_from
slots-placeholder k t e =
    slots_from-digits 0 (decimal k) t (decimal-All k) e
    ∙ ap (λ n. n ∷ slots_from none t) (value-decimal k)

pub is_digit_head-number :
    (k n : ℕ) (s t : Text)
    → is_digit_head s ≡ false
    → is_digit_head t ≡ false
    → is_digit_head (number k n s ++ t) ≡ false
unfolding number placeholder
is_digit_head-number k zero [] t h e = e
is_digit_head-number k (suc n) [] t h e = e
is_digit_head-number k zero (x ∷ s) t h e = h
is_digit_head-number k (suc n) (x ∷ s) t h e = ground arith

number-cons : (k n x : ℕ) (s : Text) → x == question ≡ false → number k n (x ∷ s) ≡ x ∷ number k n s
unfolding number
number-cons k zero x s h = refl
number-cons k (suc n) x s h = ground arith

number-hole :
    (k n x : ℕ) (s : Text)
    → x == question ≡ true
    → number k (suc n) (x ∷ s) ≡ placeholder postgres k ++ number (suc k) n s
unfolding number
number-hole k n x s h = ground arith

-- After numbering, the i-th `?` of a clear fragment stands for the i-th parameter from `k` on.
pub slots-number :
    (k : ℕ) (s t : Text)
    → IsClear s
    → is_digit_head t ≡ false
    → slots (number k (holes s) s ++ t) ≡ up_from k (holes s) ++ slots t
unfolding number
slots-number k [] t h e = refl
slots-number k (x ∷ s) t h e = elim (Bool-cases (x == question)) [
  | inl hole ↦
      let head : is_digit_head s ≡ false = ground arith in
      let rest = number (suc k) (holes s) s in
      rw (hole, number-hole k (holes s) x s hole, append_assoc (placeholder postgres k) rest t)
        (slots-placeholder k (rest ++ t) (is_digit_head-number (suc k) (holes s) s t head e)
          ∙ ap (◌∷◌ k) (slots-number (suc k) s t h.2 e))
  | inr plain ↦
      rw (plain, number-cons k (holes s) x s plain)
        (slots-plain (x ∷ []) (number k (holes s) s ++ t) (rw h.0) ∙ slots-number k s t h.2 e)
]
