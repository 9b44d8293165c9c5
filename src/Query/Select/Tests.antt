-- ===== src/Query/Select/Tests.antt =====
-- A SELECT as an example.
use relica.Prelude.{◌≡◌, refl, true, false, List, [], ◌∷◌, ◌++◌, none, some}
use relica.Prelude.Ints.{pos}
use relica.Text.{Text, codes}
use relica.Dialect.{postgres, mysql, is_numbered, placeholder, quote_identifier, quote_column}
use relica.Exp.{IsBalanced}
use relica.Exp.Values.{Val, dynamic_val, num}
use relica.Query.{Conditions}
use relica.Query.Slots.{is_clear→IsClear}
use relica.Query.Takes.{Takes, Takes-quiet}
use relica.Query.Select.{SelectQuery, UnionInfo, Subquery, select, from_table}
use relica.Text.Decimal.{decimal}
use relica.Text.Fields.{fields, replace_once}
use relica.Query.Select.Clauses.{
  build_select, raw_args, built_args, table_with_alias, build_group_by, headed, build_order_by,
}
use relica.Query.Select.Sources.{
  cte_args, build_from, from_source, build_joins, having_args, having_text,
}
use relica.Query.Select.Build.{set_op, shift, render_subs, build_sql, set_operations}
use relica.Query.Select.Binding.{IsPlaced, build_sql-Takes}
use relica.Query.Select.Union.{set_operations-IsBalanced}

abbrev conditions : Conditions Val
conditions = record { clauses = codes "a = ?" ∷ []; params = num 1 ∷ []; build_err = none }

abbrev users : SelectQuery Val
users = record (select []) {
  from_src = some (from_table (codes "users u"));
  conditions = conditions;
  having_clauses = record { condition = codes "n > ?"; args = num 2 ∷ [] } ∷ [];
  limit_value = some (pos 10);
}

users-IsPlaced : IsPlaced postgres users
unfolding build_select render_subs cte_args raw_args build_from from_source table_with_alias fields
    quote_identifier quote_column build_joins build_group_by headed build_order_by having_args
    having_text built_args
users-IsPlaced = record {
  no_ctes = refl;
  no_unions = refl;
  list_takes = Takes-quiet postgres 1 (codes "*") (refl, refl);
  source_takes = Takes-quiet postgres 1 (codes " FROM \"users\" AS \"u\"") (refl, refl);
  joins_take = Takes-quiet postgres 1 [] (refl, refl);
  sound = record { balanced = refl; clear = (is_clear→IsClear (codes "a = ?") refl, tt) };
  group_quiet = (refl, refl);
  no_group_args = refl;
  sound_having = record { balanced = refl; clear = is_clear→IsClear (codes " HAVING n > ?") refl };
  order_takes = Takes-quiet postgres 3 [] (refl, refl);
}

build_sql-Takes_example :
    ((build_sql users postgres).1 ≡ num 1 ∷ num 2 ∷ [])
    × Takes postgres 1 2 (build_sql users postgres).0
unfolding render_subs cte_args raw_args build_from from_source build_joins having_args built_args
build_sql-Takes_example = build_sql-Takes postgres users users-IsPlaced

abbrev other_users : Subquery Val
other_users = record {
  build = λ d. (codes "SELECT * FROM others WHERE a = ?", num 2 ∷ []);
  has_unions = false;
}

abbrev one_union : List (UnionInfo Val)
one_union = record { subquery = other_users; all = true; op = codes "UNION" } ∷ []

not_numbered : is_numbered mysql ≡ false
unfolding is_numbered placeholder
not_numbered = refl

abbrev main_query : Text
main_query = codes "(SELECT * FROM users WHERE a = ?)"

set_operations-IsBalanced_example :
    (set_operations mysql one_union (main_query, num 1 ∷ [])
      ≡ (main_query ++ codes " UNION ALL (SELECT * FROM others WHERE a = ?)", num 1 ∷ num 2 ∷ []))
    × IsBalanced (set_operations mysql one_union (main_query, num 1 ∷ []))
unfolding set_op
set_operations-IsBalanced_example =
    set_operations-IsBalanced mysql one_union main_query (num 1 ∷ []) not_numbered
      ((refl, refl), tt) refl

-- The renumbering of a finished text with two parameters behind one: they come out exchanged.
shift_exchanges : shift postgres 1 2 (codes "a = $1 AND b = $2") ≡ codes "a = $3 AND b = $2"
unfolding shift is_numbered placeholder replace_once decimal
shift_exchanges = refl
