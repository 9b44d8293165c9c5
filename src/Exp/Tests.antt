-- ===== src/Exp/Tests.antt =====
-- Expressions on examples.
use mathlib.Core.List.Perm
use relica.Prelude.{◌≡◌, refl, true, false, [], ◌∷◌, ◌++◌, Option, some, Bool-cases, inl, inr}
use relica.Prelude.Maps.{SameMap, lookup, text_eq, text_eq→≡}
use relica.Text.{Text, codes}
use relica.Dialect.{postgres, mysql, sqlite}
use relica.Exp.{Expression, IsBalanced}
use relica.Exp.Values.{Val, dynamic_val, nothing, num, string, numbers, raw}
use relica.Exp.Like.{LikeExp, is_like, like_pattern}
use relica.Exp.Like.Pattern.{read_pattern, read_pattern-like_pattern, literals, wildcard}
use relica.Exp.Logic.{not_exists_in, build_exists, build_exists-IsBalanced}
use relica.Exp.Hash.{HashExp}
use relica.Exp.Func.{CaseExp, ListExp, NullIfExp, GreatestLeastExp, greatest}

abbrev age : Text
age = codes "users.age"

abbrev sub : Val
sub = raw (codes "SELECT max(age) FROM users WHERE id < ?") (9 ∷ [])

abbrev sale : LikeExp
sale = is_like (codes "title") (codes "50%_\\" ∷ [])

read_pattern-like_pattern_example :
    read_pattern mysql false (like_pattern sale (codes "50%_\\"))
    ≡ some (wildcard true ++ (literals (codes "50%_\\") ++ wildcard true))
read_pattern-like_pattern_example = read_pattern-like_pattern mysql sale (codes "50%_\\") refl refl

-- SQLite reads the `\` that LikeExp puts in front of a wildcard as a character of its own.
sqlite_reads_backslash :
    read_pattern sqlite false (codes "5\\%") ≡ some (literals (codes "5\\") ++ wildcard true)
unfolding read_pattern
sqlite_reads_backslash = refl

abbrev one : Option (Expression Val)
one = some (λ d. (codes "a = ?", num 1 ∷ []))

abbrev two : Option (Expression Val)
two = some (λ d. (codes "b BETWEEN ? AND ?", num 2 ∷ num 3 ∷ []))

build_exists-IsBalanced_example : IsBalanced (build_exists (not_exists_in two) postgres)
build_exists-IsBalanced_example = build_exists-IsBalanced (not_exists_in two) postgres refl

abbrev age_first : HashExp Val
age_first = (age, numbers (1 ∷ 2 ∷ [])) ∷ (codes "id", nothing) ∷ []

abbrev id_first : HashExp Val
id_first = (codes "id", nothing) ∷ (age, numbers (1 ∷ 2 ∷ [])) ∷ []

same_map : SameMap age_first id_first
same_map = record { same_keys = Perm.swap _ _ _; same_values = same }
  where
    same : (k : Text) → lookup k age_first ≡ lookup k id_first
    same k = elim (Bool-cases (text_eq age k)) [
      | inl hit ↦ rw (← text_eq→≡ age k hit) refl
      | inr miss ↦ rw miss refl
    ]

abbrev age_only : HashExp Val
age_only = (age, numbers (1 ∷ 2 ∷ [])) ∷ []

abbrev label : CaseExp Val
label = record {
  column = [];
  whens = record { condition = string (codes "age < 18"); result = string (codes "minor") } ∷ [];
  else_value = string (codes "adult");
  alias = codes "label";
}

abbrev names_or_sub : ListExp Val
names_or_sub = record { values = string (codes "name") ∷ sub ∷ num 3 ∷ []; alias = codes "n" }

abbrev null_if : NullIfExp Val
null_if = record { expr1 = string (codes "name"); expr2 = num 0; alias = [] }

abbrev largest : GreatestLeastExp Val
largest = record { values = num 1 ∷ string age ∷ []; func = greatest; alias = [] }
