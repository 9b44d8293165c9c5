-- ===== src/Text/Replace.antt =====
-- `strings.ReplaceAll` for a pattern of one character.
use relica.Prelude.{◌≡◌, refl, arith, ℕ, [], ◌∷◌, zero}
use relica.Text.{Text, replace_char, replace_from, replace_all}

replace_from-replace_char :
    (c : ℕ) (by s : Text) → replace_from c [] by zero s ≡ replace_char c by s
unfolding replace_from
replace_from-replace_char c by [] = refl
replace_from-replace_char c by (x ∷ s) = ground (arith, replace_from-replace_char c by s)

pub replace_all-replace_char :
    (c : ℕ) (by s : Text) → replace_all (c ∷ []) by s ≡ replace_char c by s
unfolding replace_all
replace_all-replace_char c by s = replace_from-replace_char c by s
