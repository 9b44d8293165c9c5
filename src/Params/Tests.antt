-- ===== src/Params/Tests.antt =====
-- Named parameters on examples.
use relica.Prelude.{ℕ, ◌≡◌, ◌≢◌, ◌↔◌, refl, List, [], ◌∷◌, some}
use relica.Text.{Text, codes}
use relica.Exp.Values.{Val, dynamic_val, num, bindings}
use relica.Params.{scan, names, with_questions, ok, bind_params, resolve_named_params}
use relica.Params.Scan.{spell, spell-scan}
use relica.Params.Bind.{resolve-bind_params}

abbrev condition : Text
condition = codes "a = {:x} OR b = {:y} OR c = {:x}"

abbrev two_numbers : List (Text × ℕ)
two_numbers = (codes "x", 1) ∷ (codes "y", 2) ∷ []

abbrev two_params : List (Text × Val)
two_params = (codes "x", num 1) ∷ (codes "y", num 2) ∷ []

abbrev three : List Val
three = num 1 ∷ num 2 ∷ num 1 ∷ []

has_names : names (scan condition) ≢ []
unfolding scan
has_names = λ h. cc

resolve-bind_params_example :
    (resolve_named_params condition (bindings two_numbers ∷ [])
      ≡ ok (with_questions (scan condition)) three)
    ↔ (bind_params two_params (names (scan condition)) ≡ some three)
resolve-bind_params_example =
    resolve-bind_params condition (bindings two_numbers) two_params three refl has_names

resolves :
    resolve_named_params condition (bindings two_numbers ∷ [])
    ≡ ok (codes "a = ? OR b = ? OR c = ?") three
unfolding resolve_named_params scan
resolves = refl

spell-scan_example : spell (scan condition) ≡ condition
spell-scan_example = spell-scan condition
