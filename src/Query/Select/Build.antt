-- ===== src/Query/Select/Build.antt =====
-- `buildSQL`, `buildSetOperations`, `Build`, `Count` and `Exists` of `SelectQuery`.
use relica.Prelude.{
  ℕ, zero, suc, ◌+◌, Bool, true, false, ◌&&◌, List, [], ◌∷◌, ◌++◌, if◌then◌else◌, Option, none,
  some, length,
}
use relica.Prelude.Maps.{text_eq}
use relica.Text.{Text, codes, is_empty}
use relica.Text.Fields.{replace_once}
use relica.Dialect.{Dialect, is_numbered, placeholder}
use relica.Exp.{Expression, Dynamic}
use relica.Query.{BuildError, bad_join, Query, failed, built, Conditions, where_clause}
use relica.Query.Select.{SelectQuery, SubExprEntry, UnionInfo, select}
use relica.Query.Select.Clauses.{
  build_select, build_group_by, build_order_by, build_limit_offset, raw_args, built_args,
}
use relica.Query.Select.Sources.{
  build_from, build_joins, build_having, having_args, with_clause, cte_args,
}

-- The loops that move `$1`, `$2`, … of a finished text behind `before` parameters: the i-th round
-- replaces the first occurrence of `Placeholder(i + 1)`.
shift_from : Dialect → ℕ → ℕ → ℕ → Text → Text
shift_from d before i zero sql = sql
shift_from d before i (suc n) sql =
    shift_from d before (suc i) n
      (replace_once (placeholder d (i + 1)) (placeholder d (before + 1 + i)) sql)

unfoldable pub shift : Dialect → ℕ → ℕ → Text → Text
unfolding shift_from
shift d before n sql = if is_numbered d then shift_from d before 0 n sql else sql

-- The keyword of a set operation.
unfoldable pub set_op : Text → Bool → Text
set_op op all =
    let op = if is_empty op then codes "UNION" else op in
    if all && text_eq op (codes "UNION") then codes "UNION ALL" else op

module _ {V : Type 0} where
  add_sub : Text → List V → List Text × List V → List Text × List V
  add_sub sql args (texts, rest) = (sql ∷ texts, args ++ rest)

  -- The rendered `SelectSub` expressions behind `before` parameters, and their parameters.
  unfoldable pub render_subs : Dialect → ℕ → List (SubExprEntry V) → List Text × List V
  unfolding add_sub
  render_subs d before [] = ([], [])
  render_subs d before (e ∷ es) =
      let (sql, args) = e.subject d in
      add_sub (shift d before (length args) sql) args (render_subs d (before + length args) es)

  -- `buildSetOperations` on the main query, which stands in parentheses.
  unfoldable pub set_operations : Dialect → List (UnionInfo V) → Text × List V → Text × List V
  unfolding set_op
  set_operations d [] main = main
  set_operations d (u ∷ us) (sql, args) =
      let (union_sql, union_args) = u.subquery.build d in
      set_operations d us (
        sql
            ++ (codes " "
                ++ (set_op u.op u.all
                    ++ (codes " ("
                        ++ (shift d (length args) (length union_args) union_sql ++ codes ")")))),
        args ++ union_args,
      )

  unfoldable pub with_unions : Dialect → List (UnionInfo V) → Text × List V → Text × List V
  with_unions d [] main = main
  with_unions d (u ∷ us) (sql, args) =
      set_operations d (u ∷ us) (codes "(" ++ (sql ++ codes ")"), args)

  unfoldable pub prepend : Text → Text × List V → Text × List V
  prepend head (sql, args) = (head ++ sql, args)

-- The parameters that `buildWhere` appends: none without a clause.
abbrev pub params_of : {V : Type 0} → List Text → List V → List V
params_of [] args = []
params_of (w ∷ ws) args = args

unfoldable pub where_params : {V : Type 0} → Conditions V → List V
where_params c = params_of c.clauses c.params

module _ {V : Type 0} ⦃dyn : Dynamic V⦄ where
  -- The statement without CTEs and set operations, and all parameters, those of the CTEs in front.
  unfoldable pub build_core : Dialect → SelectQuery V → Text × List V
  unfolding render_subs
  build_core d q =
      let first = cte_args d q.ctes ++ raw_args q.select_exprs in
      let (rendered, sub_args) = render_subs d (length first) q.sub_exprs in
      let (from_sql, from_args) = build_from d q in
      let joined = build_joins d q.joins in
      let before_where = first ++ (sub_args ++ (from_args ++ joined.args)) in
      let before_having = before_where ++ where_params q.conditions in
      (
        codes "SELECT "
            ++ (build_select d rendered q
                ++ (from_sql
                    ++ (joined.sql
                        ++ (where_clause d (length before_where + 1) q.conditions
                            ++ (build_group_by d q
                                ++ (build_having d (length before_having) q
                                    ++ (build_order_by d q ++ build_limit_offset q))))))),
        before_having
            ++ (having_args q.having_clauses
                ++ (raw_args q.group_by_exprs
                    ++ (built_args d q.sub_group_by_exprs
                        ++ (raw_args q.order_by_exprs ++ built_args d q.sub_order_by_exprs)))),
      )

  -- `buildSQL`.
  unfoldable pub build_sql : SelectQuery V → Expression V
  unfolding prepend with_unions
  build_sql q d = prepend (with_clause d q.ctes) (with_unions d q.unions (build_core d q))

  -- What `Build` does with a stored error, and with one that `buildJoins` stores.
  build_checked : Option BuildError → Bool → Text × List V → Query V
  build_checked (some e) bad sql = failed e
  build_checked none true sql = failed bad_join
  build_checked none false (sql, args) = built sql args

  -- `Build`.
  unfoldable pub build_select_query : Dialect → SelectQuery V → Query V
  unfolding build_checked
  build_select_query d q =
      build_checked q.conditions.build_err (build_joins d q.joins).bad (build_sql q d)

  -- The query that `Count` builds: a stored error is not copied.
  unfoldable pub count_query : SelectQuery V → SelectQuery V
  count_query q = record (select (codes "COUNT(*)" ∷ [])) {
    from_src = q.from_src;
    joins = q.joins;
    conditions = record (q.conditions) { build_err = none };
    group_by = q.group_by;
    having_clauses = q.having_clauses;
  }

  -- The query inside that of `Exists`: a stored error is not copied.
  inner_query : SelectQuery V → SelectQuery V
  inner_query q = record (select []) {
    select_exprs = record { sql = codes "1"; args = [] } ∷ [];
    from_src = q.from_src;
    joins = q.joins;
    conditions = record (q.conditions) { build_err = none };
  }

  in_exists : Text × List V → Query V
  in_exists (sql, args) = built (codes "SELECT EXISTS(" ++ (sql ++ codes ")")) args

  -- The query that `Exists` runs.
  unfoldable pub exists_query : Dialect → SelectQuery V → Query V
  unfolding in_exists inner_query
  exists_query d q = in_exists (build_sql (inner_query q) d)
