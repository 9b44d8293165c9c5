-- ===== src/Query.antt =====
-- What the query types of internal/core/builder.go share: the built `Query`, the stored
-- programming errors, the WHERE conditions, and the renumbering of `?` for PostgreSQL.
mod Tests
pub mod Number
pub mod Slots
pub mod Takes
pub mod Binds
pub mod Where
pub mod Insert
pub mod Upsert
pub mod Update
pub mod Delete
pub mod Select
pub mod BatchInsert
pub mod BatchUpdate
use relica.Prelude.{
  ℕ, zero, suc, ◌+◌, ◌≡◌, Bool, true, false, List, [], ◌∷◌, ◌++◌, if◌then◌else◌, Option, none, some,
  length,
}
use relica.Text.{Text, codes, is_empty, join, replace_first, question}
use relica.Dialect.{Dialect, placeholder, is_numbered}
use relica.Exp.{Expression, View, nil, text, params, slice, exp, query, other, Dynamic, view_of}
use relica.Params.{Resolved, ok, missing, resolve_named_params}

-- The errors that the builders store instead of panicking.
pub data BuildError : Type 0 where
  missing_parameters : List Text → BuildError
  bad_condition bad_join no_alias no_cte_name no_cte_query no_recursion : BuildError
  no_values no_rows no_updates : BuildError
  bad_row : ℕ → ℕ → BuildError

-- A built `Query`: its SQL and parameters, or the error that its execution returns.
pub record Query (V : Type 0) : Type 0 where
  pub sql : Text
  pub params : List V
  pub prep_err : Option BuildError

abbrev pub failed : {V : Type 0} → BuildError → Query V
failed e = record { sql = []; params = []; prep_err = some e }

abbrev pub built : {V : Type 0} → Text → List V → Query V
built sql args = record { sql = sql; params = args; prep_err = none }

-- The fields `where`, `params` and `buildErr` of a SELECT, UPDATE or DELETE.
pub record Conditions (V : Type 0) : Type 0 where
  pub clauses : List Text
  pub params : List V
  pub build_err : Option BuildError

abbrev pub no_conditions : {V : Type 0} → Conditions V
no_conditions = record { clauses = []; params = []; build_err = none }

abbrev pub and_sep : Text
and_sep = codes " AND "

module _ {V : Type 0} where
  abbrev pub fail_with : BuildError → Conditions V → Conditions V
  fail_with e c = record c { build_err = some e }

  -- `append` to both slices.
  abbrev pub add_clause : Text → List V → Conditions V → Conditions V
  add_clause sql args c = record c { clauses = c.clauses ++ sql ∷ []; params = c.params ++ args }

  add_resolved : Resolved V → Conditions V → Conditions V
  add_resolved (ok sql args) c = add_clause sql args c
  add_resolved (missing ns) c = fail_with (missing_parameters ns) c

  add_built : Text × List V → Conditions V → Conditions V
  add_built (sql, args) c = if is_empty sql then c else add_clause sql args c

  -- `OrWhere` on existing clauses: one clause in their place.
  abbrev pub or_clause : Text → List V → Conditions V → Conditions V
  or_clause sql args c = record c {
    clauses =
        (codes "(" ++ (join and_sep c.clauses ++ (codes ") OR (" ++ (sql ++ codes ")")))) ∷ [];
    params = c.params ++ args;
  }

  or_resolved : Resolved V → Conditions V → Conditions V
  or_resolved (ok sql args) c = or_clause sql args c
  or_resolved (missing ns) c = fail_with (missing_parameters ns) c

  or_built : Text × List V → Conditions V → Conditions V
  or_built (sql, args) c = if is_empty sql then c else or_clause sql args c

module _ {V : Type 0} ⦃dyn : Dynamic V⦄ where
  unfoldable pub where_view : Dialect → View V → List V → Conditions V → Conditions V
  unfolding add_resolved add_built
  where_view d (text s) args c = add_resolved (resolve_named_params s args) c
  where_view d (exp build) args c = add_built (build d) c
  where_view d other_view args c = fail_with bad_condition c

  -- `Where` of the three query types, and `AndWhere`, which is `Where`.
  unfoldable pub add_where : Dialect → V → List V → Conditions V → Conditions V
  unfolding where_view
  add_where d condition args c = where_view d (view_of condition) args c

  or_view : Dialect → View V → List V → Conditions V → Conditions V
  unfolding or_resolved or_built
  or_view d (text s) args c = or_resolved (resolve_named_params s args) c
  or_view d (exp build) args c = or_built (build d) c
  or_view d other_view args c = fail_with bad_condition c

  or_clauses : List Text → Dialect → V → List V → Conditions V → Conditions V
  unfolding add_where or_view
  or_clauses [] d condition args c = add_where d condition args c
  or_clauses (w ∷ ws) d condition args c = or_view d (view_of condition) args c

  -- `OrWhere` of the three query types.
  unfoldable pub or_where : Dialect → V → List V → Conditions V → Conditions V
  unfolding or_clauses
  or_where d condition args c = or_clauses c.clauses d condition args c

-- `for i := range params { clause = strings.Replace(clause, "?", Placeholder(start + i), 1) }`.
unfoldable pub renumber : Dialect → ℕ → ℕ → Text → Text
renumber d start zero clause = clause
renumber d start (suc n) clause =
    renumber d (suc start) n (replace_first question (placeholder d start) clause)

where_text : {V : Type 0} → Dialect → ℕ → List V → List Text → Text
where_text d start args [] = []
where_text d start args (w ∷ ws) =
    let clause = codes " WHERE " ++ join and_sep (w ∷ ws) in
    if is_numbered d then renumber d start (length args) clause else clause

-- The WHERE clause, its placeholders numbered from `start`.
unfoldable pub where_clause : {V : Type 0} → Dialect → ℕ → Conditions V → Text
unfolding where_text
where_clause d start c = where_text d start c.params c.clauses
