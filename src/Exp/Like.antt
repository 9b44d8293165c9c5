-- ===== src/Exp/Like.antt =====
-- `LikeExp` of internal/core/expression.go.
pub mod Pattern
pub mod Balance
use relica.Prelude.{
  ℕ, ◌+◌, ◌≡◌, Bool, true, false, List, [], ◌∷◌, ◌++◌, if◌then◌else◌, Option, none, some, length,
  map,
}
use relica.Text.{Text, codes, join, replace_all}
use relica.Dialect.{Dialect, quote_column}
use relica.Exp.{Expression, Dynamic}

-- `escape` holds the pairs at 2i and 2i + 1 of the source's slice, which the operations below
-- keep even. `err` is the stored error of `EscapeChars`, with the number it names.
pub record LikeExp : Type 0 where
  pub col : Text
  pub values : List Text
  pub like : Text
  pub any : Bool
  pub left : Bool
  pub right : Bool
  pub escape : List (Text × Text)
  pub err : Option ℕ

-- `DefaultLikeEscape`.
abbrev pub default_like_escape : List (Text × Text)
default_like_escape =
    (codes "\\", codes "\\\\") ∷ (codes "%", codes "\\%") ∷ (codes "_", codes "\\_") ∷ []

abbrev pub is_like : Text → List Text → LikeExp
is_like col values = record {
  col = col;
  values = values;
  like = codes "LIKE";
  any = false;
  left = true;
  right = true;
  escape = default_like_escape;
  err = none;
}

abbrev pub not_like : Text → List Text → LikeExp
not_like col values = record (is_like col values) { like = codes "NOT LIKE" }

abbrev pub or_like : Text → List Text → LikeExp
or_like col values = record (is_like col values) { any = true }

abbrev pub or_not_like : Text → List Text → LikeExp
or_not_like col values = record (not_like col values) { any = true }

-- `Match`.
unfoldable pub match_sides : Bool → Bool → LikeExp → LikeExp
match_sides left right e = record e { left = left; right = right }

pairs : List Text → Option (List (Text × Text))
pairs [] = some []
pairs (a ∷ []) = none
pairs (a ∷ b ∷ rest) = elim (pairs rest) [ none ↦ none | some ps ↦ some ((a, b) ∷ ps) ]

set_escape : LikeExp → ℕ → Option (List (Text × Text)) → LikeExp
set_escape e n none = record e { err = some n }
set_escape e n (some ps) = record e { escape = ps }

-- `EscapeChars`.
unfoldable pub escape_chars : List Text → LikeExp → LikeExp
unfolding pairs set_escape
escape_chars chars e = set_escape e (length chars) (pairs chars)

-- The inner loop of `Build`: one replacement after the other.
unfoldable pub escape_value : List (Text × Text) → Text → Text
escape_value [] val = val
escape_value ((special, escaped) ∷ rest) val = escape_value rest (replace_all special escaped val)

-- The parameter for one value.
unfoldable pub like_pattern : LikeExp → Text → Text
unfolding escape_value
like_pattern e val =
    let escaped = escape_value e.escape val in
    let opened = if e.left then codes "%" ++ escaped else escaped in
    if e.right then opened ++ codes "%" else opened

like_parts : Text → LikeExp → List Text → List Text
like_parts col e [] = []
like_parts col e (val ∷ vals) =
    (col ++ (codes " " ++ (e.like ++ codes " ?"))) ∷ like_parts col e vals

module _ {V : Type 0} ⦃dyn : Dynamic V⦄ where
  like_args : LikeExp → List Text → List V
  unfolding like_pattern
  like_args e [] = []
  like_args e (val ∷ vals) = dyn.of_text (like_pattern e val) ∷ like_args e vals

  like_values : LikeExp → List Text → Option ℕ → Expression V
  unfolding like_parts like_args
  like_values e vals (some n) d = ([], [])
  like_values e [] none d = ([], [])
  like_values e (val ∷ vals) none d = (
    join (if e.any then codes " OR " else codes " AND ")
        (like_parts (quote_column e.col d) e (val ∷ vals)),
    like_args e (val ∷ vals),
  )

  unfoldable pub build_like : LikeExp → Expression V
  unfolding like_values
  build_like e d = like_values e e.values e.err d
