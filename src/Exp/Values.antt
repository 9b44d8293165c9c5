-- ===== src/Exp/Values.antt =====
-- Dynamic values for examples: nil, numbers, strings, slices, named parameters, raw fragments.
use relica.Prelude.{ℕ, List, map, refl}
use relica.Text.{Text, codes}
use relica.Text.Decimal.{decimal}
use relica.Exp.{View, nil, text, params, slice, exp, other, Dynamic}

pub data Val : Type 0 where
  nothing : Val
  num : ℕ → Val
  string : Text → Val
  numbers : List ℕ → Val
  bindings : List (Text × ℕ) → Val
  raw : Text → List ℕ → Val

abbrev pub view_val : Val → View Val
view_val nothing = nil
view_val (num n) = other
view_val (string s) = text s
view_val (numbers ns) = slice (map num ns)
view_val (bindings m) = params (map (λ e. (e.0, num e.1)) m)
view_val (raw sql ns) = exp (λ d. (sql, map num ns))

abbrev pub print_val : Val → Text
print_val nothing = codes "<nil>"
print_val (num n) = decimal n
print_val (string s) = s
print_val (numbers ns) = codes "[]"
print_val (bindings m) = codes "map[]"
print_val (raw sql ns) = sql

instance abbrev pub dynamic_val : Dynamic Val
dynamic_val = record {
  view = view_val;
  print = print_val;
  null = nothing;
  of_text = string;
  view-null = refl;
  view-of_text = λ s. refl;
}
