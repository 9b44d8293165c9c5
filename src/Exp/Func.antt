-- ===== src/Exp/Func.antt =====
-- internal/core/func_expressions.go: CASE, COALESCE, NULLIF, GREATEST, LEAST and CONCAT.
pub mod Balance
use relica.Prelude.{
  ℕ, ◌+◌, ◌≡◌, Bool, true, false, List, [], ◌∷◌, ◌++◌, if◌then◌else◌, ◌||◌, Option, none, some,
  length, map,
}
use relica.Text.{Text, codes, join, is_empty, has_prefix}
use relica.Dialect.{Dialect, postgres, mysql, sqlite, quote_identifier, quote_column}
use relica.Exp.{Expression, View, nil, text, params, slice, exp, query, other, Dynamic, view_of}

pub record WhenClause (V : Type 0) : Type 0 where
  pub condition : V
  pub result : V

-- `column` and `alias` are empty if they are not set; `else_value` is nil then.
pub record CaseExp (V : Type 0) : Type 0 where
  pub column : Text
  pub whens : List (WhenClause V)
  pub else_value : V
  pub alias : Text

-- `CoalesceExp` and `ConcatExp`.
pub record ListExp (V : Type 0) : Type 0 where
  pub values : List V
  pub alias : Text

pub record NullIfExp (V : Type 0) : Type 0 where
  pub expr1 : V
  pub expr2 : V
  pub alias : Text

-- `funcSQL` is one of two words.
pub data Extremum : Type 0 where
  greatest least : Extremum

pub record GreatestLeastExp (V : Type 0) : Type 0 where
  pub values : List V
  pub func : Extremum
  pub alias : Text

-- ` AS "alias"`, if there is one.
as_alias : Dialect → Text → Text
as_alias d [] = []
as_alias d (c ∷ s) = codes " AS " ++ quote_identifier d (c ∷ s)

is_literal : Text → Bool
is_literal s = has_prefix (codes "'") s || has_prefix (codes "\"") s

extremum_name : Dialect → Extremum → Text
extremum_name sqlite greatest = codes "MAX"
extremum_name sqlite least = codes "MIN"
extremum_name d greatest = codes "GREATEST"
extremum_name d least = codes "LEAST"

case_head : Text → Dialect → Text
case_head column d =
    if is_empty column then codes "CASE" else codes "CASE " ++ quote_column column d

-- Two `WriteString`s, one after the other, with what was appended to the parameters.
abbrev append_fragment : {V : Type 0} → Text × List V → Text × List V → Text × List V
append_fragment (s, a) (t, b) = (s ++ t, a ++ b)

-- The fragments of several values and their parameters, as the loops append them.
abbrev pub add_fragment : {V : Type 0} → Text × List V → List Text × List V → List Text × List V
add_fragment (sql, sub_args) (parts, args) = (sql ∷ parts, sub_args ++ args)

module _ {V : Type 0} ⦃dyn : Dynamic V⦄ where
  -- `Case(column)` and `CaseWhen()`.
  abbrev pub case_of : Text → CaseExp V
  case_of column = record { column = column; whens = []; else_value = dyn.null; alias = [] }

  abbrev pub case_when : CaseExp V
  case_when = case_of []

  pub when : V → V → CaseExp V → CaseExp V
  when condition result c = record c {
    whens = c.whens ++ record { condition = condition; result = result } ∷ [];
  }

  pub else_is : V → CaseExp V → CaseExp V
  else_is value c = record c { else_value = value }

  -- One round of the loop over the WHEN clauses. A searched CASE prints its condition.
  when_clause : Bool → WhenClause V → Text × List V
  when_clause searched w =
      if searched
      then (codes " WHEN " ++ (dyn.print w.condition ++ codes " THEN ?"), w.result ∷ [])
      else (codes " WHEN ? THEN ?", w.condition ∷ w.result ∷ [])

  when_clauses : Bool → List (WhenClause V) → Text × List V
  unfolding when_clause
  when_clauses searched [] = ([], [])
  when_clauses searched (w ∷ ws) =
      append_fragment (when_clause searched w) (when_clauses searched ws)

  else_clause : V → View V → Text × List V
  else_clause v nil = ([], [])
  else_clause v other_view = (codes " ELSE ?", v ∷ [])

  case_with : List (WhenClause V) → CaseExp V → Expression V
  unfolding when_clauses else_clause case_head as_alias
  case_with [] c d = ([], [])
  case_with (w ∷ ws) c d =
      append_fragment (case_head c.column d, [])
        (append_fragment (when_clauses (is_empty c.column) (w ∷ ws)) (
          append_fragment (else_clause c.else_value (view_of c.else_value))
            (codes " END" ++ as_alias d c.alias, [])))

  unfoldable pub build_case : CaseExp V → Expression V
  unfolding case_with
  build_case c d = case_with c.whens c d

  -- `buildExprValue`, and one round of the loop of `(*CoalesceExp).Build`.
  expr_value : V → View V → Expression V
  unfolding is_literal
  expr_value v (text s) d = (if is_literal s then s else quote_column s d, [])
  expr_value v (exp build) d = build d
  expr_value v other_view d = (codes "?", v ∷ [])

  unfoldable pub build_expr_value : V → Expression V
  unfolding expr_value
  build_expr_value v d = expr_value v (view_of v) d

  expr_values : List V → Dialect → List Text × List V
  unfolding build_expr_value
  expr_values [] d = ([], [])
  expr_values (v ∷ vs) d = add_fragment (build_expr_value v d) (expr_values vs d)

  -- The name of the function around the parts, and the alias behind it.
  call_of : Text → Text → Dialect → List Text × List V → Text × List V
  unfolding as_alias
  call_of name alias d (parts, args) =
      (name ++ (codes "(" ++ (join (codes ", ") parts ++ (codes ")" ++ as_alias d alias))), args)

  coalesce_values : List V → Text → Expression V
  unfolding expr_values call_of
  coalesce_values [] alias d = ([], [])
  coalesce_values (v ∷ vs) alias d = call_of (codes "COALESCE") alias d (expr_values (v ∷ vs) d)

  unfoldable pub build_coalesce : ListExp V → Expression V
  unfolding coalesce_values
  build_coalesce c d = coalesce_values c.values c.alias d

  unfoldable pub build_null_if : NullIfExp V → Expression V
  unfolding expr_values call_of
  build_null_if n d = call_of (codes "NULLIF") n.alias d (expr_values (n.expr1 ∷ n.expr2 ∷ []) d)

  extremum_values : List V → Extremum → Text → Expression V
  unfolding expr_values call_of extremum_name
  extremum_values [] func alias d = ([], [])
  extremum_values (v ∷ vs) func alias d =
      call_of (extremum_name d func) alias d (expr_values (v ∷ vs) d)

  unfoldable pub build_greatest_least : GreatestLeastExp V → Expression V
  unfolding extremum_values
  build_greatest_least g d = extremum_values g.values g.func g.alias d

  -- MySQL calls CONCAT, the others write `||`.
  concat_parts : Text → Dialect → List Text × List V → Text × List V
  unfolding call_of as_alias
  concat_parts alias mysql r = call_of (codes "CONCAT") alias mysql r
  concat_parts alias postgres (parts, args) =
      (join (codes " || ") parts ++ as_alias postgres alias, args)
  concat_parts alias sqlite (parts, args) =
      (join (codes " || ") parts ++ as_alias sqlite alias, args)

  concat_values : List V → Text → Expression V
  unfolding expr_values concat_parts
  concat_values [] alias d = ([], [])
  concat_values (v ∷ vs) alias d = concat_parts alias d (expr_values (v ∷ vs) d)

  unfoldable pub build_concat : ListExp V → Expression V
  unfolding concat_values
  build_concat c d = concat_values c.values c.alias d
