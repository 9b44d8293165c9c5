-- ===== src/Query/Select.antt =====
-- `SelectQuery` of internal/core/builder.go: its fields and the calls that set them.
mod Tests
pub mod Clauses
pub mod Sources
pub mod Build
pub mod Chain
pub mod Binding
pub mod Union
use relica.Prelude.{Bool, true, false, List, [], ◌∷◌, ◌++◌, if◌then◌else◌, Option, none, some}
use relica.Prelude.Ints.{ℤ}
use relica.Text.{Text, codes, is_empty}
use relica.Dialect.{Dialect}
use relica.Exp.{Expression, View, nil, text, params, slice, exp, query, other, Dynamic, view_of}
use relica.Exp.Compare.{RawExp}
use relica.Query.{
  BuildError, bad_condition, no_alias, no_cte_name, no_cte_query, no_recursion, Conditions,
  no_conditions, add_where, or_where,
}

-- A nested `*SelectQuery`: its `buildSQL`, and whether it has set operations.
pub record Subquery (V : Type 0) : Type 0 where
  pub build : Expression V
  pub has_unions : Bool

pub data FromSource (V : Type 0) : Type 0 where
  from_table : Text → FromSource V
  from_subquery : Subquery V → Text → FromSource V

pub record JoinInfo (V : Type 0) : Type 0 where
  pub join_type : Text
  pub table : Text
  pub on : V

pub record UnionInfo (V : Type 0) : Type 0 where
  pub subquery : Subquery V
  pub all : Bool
  pub op : Text

pub record CteInfo (V : Type 0) : Type 0 where
  pub name : Text
  pub subquery : Subquery V
  pub recursive : Bool

pub record SubExprEntry (V : Type 0) : Type 0 where
  pub subject : Expression V
  pub alias : Text

pub record HavingClause (V : Type 0) : Type 0 where
  pub condition : Text
  pub args : List V

-- `where`, `params` and `buildErr` are the conditions. The deprecated `table` is the source's
-- table wherever it is read, and is not kept twice.
pub record SelectQuery (V : Type 0) : Type 0 where
  pub columns : List Text
  pub from_src : Option (FromSource V)
  pub select_exprs : List (RawExp V)
  pub sub_exprs : List (SubExprEntry V)
  pub joins : List (JoinInfo V)
  pub conditions : Conditions V
  pub group_by : List Text
  pub group_by_exprs : List (RawExp V)
  pub having_clauses : List (HavingClause V)
  pub order_by : List Text
  pub order_by_exprs : List (RawExp V)
  pub sub_order_by_exprs : List (Expression V)
  pub sub_group_by_exprs : List (Expression V)
  pub limit_value : Option ℤ
  pub offset_value : Option ℤ
  pub unions : List (UnionInfo V)
  pub ctes : List (CteInfo V)
  pub distinct : Bool

module _ {V : Type 0} where
  -- `Select(cols...)`.
  abbrev pub select : List Text → SelectQuery V
  select cols = record {
    columns = cols;
    from_src = none;
    select_exprs = [];
    sub_exprs = [];
    joins = [];
    conditions = no_conditions;
    group_by = [];
    group_by_exprs = [];
    having_clauses = [];
    order_by = [];
    order_by_exprs = [];
    sub_order_by_exprs = [];
    sub_group_by_exprs = [];
    limit_value = none;
    offset_value = none;
    unions = [];
    ctes = [];
    distinct = false;
  }

  abbrev fail_select : BuildError → SelectQuery V → SelectQuery V
  fail_select e q = record q { conditions = record (q.conditions) { build_err = some e } }

  -- `From`.
  pub from : Text → SelectQuery V → SelectQuery V
  from table q = record q { from_src = some (from_table table) }

  -- `FromSelect`.
  pub from_select : Subquery V → Text → SelectQuery V → SelectQuery V
  from_select sub alias q =
      if is_empty alias
      then fail_select no_alias q
      else record q { from_src = some (from_subquery sub alias) }

  -- `SelectSub`.
  pub select_sub : Expression V → Text → SelectQuery V → SelectQuery V
  select_sub e alias q =
      if is_empty alias
      then fail_select no_alias q
      else record q { sub_exprs = q.sub_exprs ++ record { subject = e; alias = alias } ∷ [] }

  -- `Join`, of which `InnerJoin` and the others are calls.
  pub join_with : Text → Text → V → SelectQuery V → SelectQuery V
  join_with join_type table on q = record q {
    joins = q.joins ++ record { join_type = join_type; table = table; on = on } ∷ [];
  }

  -- `Union`, `UnionAll`, `Intersect` and `Except`, with their operation; `none` is a nil query.
  pub combine_with : Bool → Text → Option (Subquery V) → SelectQuery V → SelectQuery V
  combine_with all op none q = q
  combine_with all op (some sub) q = record q {
    unions = q.unions ++ record { subquery = sub; all = all; op = op } ∷ [];
  }

  add_cte : Text → Bool → Subquery V → SelectQuery V → SelectQuery V
  add_cte name recursive sub q = record q {
    ctes = q.ctes ++ record { name = name; subquery = sub; recursive = recursive } ∷ [];
  }

  named_cte : Text → Option (Subquery V) → SelectQuery V → SelectQuery V
  unfolding add_cte
  named_cte name none q = fail_select no_cte_query q
  named_cte name (some sub) q = add_cte name false sub q

  -- `With`.
  pub with_cte : Text → Option (Subquery V) → SelectQuery V → SelectQuery V
  unfolding named_cte
  with_cte name sub q = if is_empty name then fail_select no_cte_name q else named_cte name sub q

  named_recursive : Text → Option (Subquery V) → SelectQuery V → SelectQuery V
  unfolding add_cte
  named_recursive name none q = fail_select no_cte_query q
  named_recursive name (some sub) q =
      if sub.has_unions then add_cte name true sub q else fail_select no_recursion q

  -- `WithRecursive`.
  pub with_recursive : Text → Option (Subquery V) → SelectQuery V → SelectQuery V
  unfolding named_recursive
  with_recursive name sub q =
      if is_empty name then fail_select no_cte_name q else named_recursive name sub q

  add_having : Text → List V → SelectQuery V → SelectQuery V
  add_having condition args q = record q {
    having_clauses = q.having_clauses ++ record { condition = condition; args = args } ∷ [];
  }

  having_built : Text × List V → SelectQuery V → SelectQuery V
  unfolding add_having
  having_built (sql, args) q = if is_empty sql then q else add_having sql args q

  having_view : Dialect → View V → List V → SelectQuery V → SelectQuery V
  unfolding having_built add_having
  having_view d (text s) args q = add_having s args q
  having_view d (exp build) args q = having_built (build d) q
  having_view d other_view args q = fail_select bad_condition q

module _ {V : Type 0} ⦃dyn : Dynamic V⦄ where
  -- `Having`.
  pub having : Dialect → V → List V → SelectQuery V → SelectQuery V
  unfolding having_view
  having d condition args q = having_view d (view_of condition) args q

  -- `Where` and `AndWhere`.
  pub where_select : Dialect → V → List V → SelectQuery V → SelectQuery V
  where_select d condition args q = record q {
    conditions = add_where d condition args q.conditions;
  }

  -- `OrWhere`.
  pub or_where_select : Dialect → V → List V → SelectQuery V → SelectQuery V
  or_where_select d condition args q = record q {
    conditions = or_where d condition args q.conditions;
  }
