-- ===== src/Query/Select/Sources.antt =====
-- The clauses of a SELECT that bring parameters: FROM, JOIN, HAVING and WITH.
use relica.Prelude.{
  ℕ, suc, Bool, true, false, ◌||◌, List, [], ◌∷◌, ◌++◌, if◌then◌else◌, Option, none, some, length,
}
use relica.Text.{Text, codes, join}
use relica.Dialect.{Dialect, quote_identifier, is_numbered}
use relica.Exp.{View, nil, text, params, slice, exp, query, other, Dynamic, view_of}
use relica.Query.{and_sep, renumber}
use relica.Query.Select.{
  SelectQuery, FromSource, from_table, from_subquery, JoinInfo, CteInfo, HavingClause,
}
use relica.Query.Select.Clauses.{table_with_alias}

-- What `buildJoins` gives: the clause, the parameters that it appends, and whether it stores an
-- error.
pub record Joined (V : Type 0) : Type 0 where
  pub sql : Text
  pub args : List V
  pub bad : Bool

module _ {V : Type 0} where
  -- `buildFrom`: the clause, and the parameters that it appends.
  unfoldable pub from_source : Dialect → Option (FromSource V) → Text × List V
  from_source d none = ([], [])
  from_source d (some (from_table table)) = (codes " FROM " ++ table_with_alias table d, [])
  from_source d (some (from_subquery sub alias)) =
      let (sql, args) = sub.build d in
      (codes " FROM (" ++ (sql ++ (codes ") AS " ++ quote_identifier d alias)), args)

  unfoldable pub build_from : Dialect → SelectQuery V → Text × List V
  unfolding from_source
  build_from d q = from_source d q.from_src

  -- `buildHaving`: the clause, and the parameters that it appends.
  having_conditions : List (HavingClause V) → List Text
  having_conditions [] = []
  having_conditions (c ∷ cs) = c.condition ∷ having_conditions cs

  unfoldable pub having_args : List (HavingClause V) → List V
  having_args [] = []
  having_args (c ∷ cs) = c.args ++ having_args cs

  unfoldable pub having_text : List (HavingClause V) → Text
  unfolding having_conditions
  having_text [] = []
  having_text (c ∷ cs) = codes " HAVING " ++ join and_sep (having_conditions (c ∷ cs))

  -- `buildHaving` and then `renumberHavingPlaceholders`, behind `before` parameters: the total
  -- less the arguments of HAVING is their number.
  unfoldable pub build_having : Dialect → ℕ → SelectQuery V → Text
  unfolding having_text
  build_having d before q =
      if is_numbered d
      then renumber d (suc before) (length (having_args q.having_clauses))
          (having_text q.having_clauses)
      else having_text q.having_clauses

  -- `buildWithClause`.
  any_recursive : List (CteInfo V) → Bool
  any_recursive [] = false
  any_recursive (c ∷ cs) = c.recursive || any_recursive cs

  cte_texts : Dialect → List (CteInfo V) → List Text
  cte_texts d [] = []
  cte_texts d (c ∷ cs) =
      (quote_identifier d c.name ++ (codes " AS (" ++ ((c.subquery.build d).0 ++ codes ")")))
      ∷ cte_texts d cs

  unfoldable pub cte_args : Dialect → List (CteInfo V) → List V
  cte_args d [] = []
  cte_args d (c ∷ cs) = (c.subquery.build d).1 ++ cte_args d cs

  -- The clause with the blank behind it, which `buildSQL` writes; empty without CTEs.
  unfoldable pub with_clause : Dialect → List (CteInfo V) → Text
  unfolding any_recursive cte_texts
  with_clause d [] = []
  with_clause d (c ∷ cs) =
      (if any_recursive (c ∷ cs) then codes "WITH RECURSIVE " else codes "WITH ")
      ++ (join (codes ", ") (cte_texts d (c ∷ cs)) ++ codes " ")

  unfoldable pub join_head : Dialect → JoinInfo V → Text
  join_head d j = codes " " ++ (j.join_type ++ (codes " " ++ table_with_alias j.table d))

  -- The ON condition: its text and parameters, or none if its type is wrong.
  unfoldable pub on_view : Dialect → View V → Option (Text × List V)
  on_view d nil = some ([], [])
  on_view d (text s) = some (codes " ON " ++ s, [])
  on_view d (exp build) = let (sql, args) = build d in some (codes " ON " ++ sql, args)
  on_view d (params p) = none
  on_view d (slice vs) = none
  on_view d (query build) = none
  on_view d other = none

  -- The first join in front of the others; the error clears the text, and keeps the parameters of
  -- the joins before it.
  unfoldable pub add_join : Text → Option (Text × List V) → Joined V → Joined V
  add_join head none rest = record { sql = []; args = []; bad = true }
  add_join head (some (sql, args)) rest = record {
    sql = if rest.bad then [] else head ++ (sql ++ rest.sql);
    args = args ++ rest.args;
    bad = rest.bad;
  }

module _ {V : Type 0} ⦃dyn : Dynamic V⦄ where
  -- `buildJoins`.
  unfoldable pub build_joins : Dialect → List (JoinInfo V) → Joined V
  unfolding add_join on_view join_head
  build_joins d [] = record { sql = []; args = []; bad = false }
  build_joins d (j ∷ js) = add_join (join_head d j) (on_view d (view_of j.on)) (build_joins d js)
