-- ===== src/Text/Decimal.antt =====
-- `fmt.Sprintf("%d", n)`.
use relica.Prelude.{
  ℕ, zero, suc, ◌+◌, ◌-◌, ◌*◌, ◌/◌, ◌%◌, ◌≤◌, ◌<◌, ◌==◌, if◌then◌else◌, ◌≡◌, refl, arith, [], ◌∷◌,
  All,
}
use mathlib.Core.List.{foldl}
use relica.Text.{Text}
use relica.Text.Counts.{count}

-- One round for each digit; the fuel `n + 1` is more than the rounds.
digits : ℕ → ℕ → Text → Text
digits zero n out = out
digits (suc f) n out =
    let d = b'0' + n % 10 in
    let more = digits f (n / 10) (d ∷ out) in if n / 10 == 0 then d ∷ out else more

unfoldable pub decimal : ℕ → Text
unfolding digits
decimal n = digits (suc n) n []

-- The number that digits spell behind `n`.
abbrev pub value : ℕ → Text → ℕ
value = foldl (λ n c. n * 10 + (c - b'0'))

value-digits : (f n : ℕ) (out : Text) → n < f → value 0 (digits f n out) ≡ value n out
unfolding digits
value-digits zero n out h = elim h [ ]
value-digits (suc f) n out h = ground (arith, value-digits f (n / 10) ((b'0' + n % 10) ∷ out))

-- Printing loses nothing.
pub value-decimal : (n : ℕ) → value 0 (decimal n) ≡ n
unfolding decimal
value-decimal n = value-digits (suc n) n [] (omega arith)

pub decimal-injective : (m n : ℕ) → decimal m ≡ decimal n → m ≡ n
decimal-injective m n e = cc (value-decimal m, value-decimal n)

abbrev pub IsDigit : ℕ → Type 0
IsDigit c = (b'0' ≤ c) × (c ≤ b'9')

digits-All : (f n : ℕ) (out : Text) → All IsDigit out → All IsDigit (digits f n out)
unfolding digits
digits-All zero n out h = h
digits-All (suc f) n out h = ground (arith, digits-All f (n / 10) ((b'0' + n % 10) ∷ out))

pub decimal-All : (n : ℕ) → All IsDigit (decimal n)
unfolding decimal
decimal-All n = digits-All (suc n) n [] tt

pub count_of_digits : (c : ℕ) (s : Text) → All IsDigit s → b'9' < c → count c s ≡ 0
count_of_digits c [] h lt = refl
count_of_digits c (x ∷ s) h lt = ground (arith, count_of_digits c s h.1 lt)

-- Nor those below the digits.
pub count_below_digits : (c : ℕ) (s : Text) → All IsDigit s → c < b'0' → count c s ≡ 0
count_below_digits c [] h k = refl
count_below_digits c (x ∷ s) h k = ground (arith, count_below_digits c s h.1 k)
