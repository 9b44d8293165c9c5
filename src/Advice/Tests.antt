-- ===== src/Advice/Tests.antt =====
-- Tests and examples of the recommended indexes.
use relica.Prelude.{◌≡◌, refl, [], ◌∷◌}
use relica.Text.{Text, codes, contains}
use relica.Log.{lower_text}
use relica.Advice.{
  categorize, composite_index, join_optimize, index_missing, Condition, WhereClause, logic_and,
  analyze_covering, combine_columns, analyze_where_indexes, reason_composite_index, function_reason,
  reason_single, generate_index_sql, index_name,
}
use relica.Advice.Covering.{
  IsCovering, IsCombined, combine_columns-IsCombined, analyze_covering-IsCovering,
}
use relica.Advice.Where.{index_on, analyze_where-advice, generate_index_sql-name, create_index}

combine_columns-IsCombined_example :
    IsCombined
      (codes "a" ∷ codes "a" ∷ [])
      (codes "b" ∷ codes "a" ∷ [])
      (codes "a" ∷ codes "b" ∷ [])
unfolding combine_columns
combine_columns-IsCombined_example =
    combine_columns-IsCombined (codes "a" ∷ codes "a" ∷ []) (codes "b" ∷ codes "a" ∷ [])

analyze_covering-IsCovering_example :
    IsCovering
      (codes "status" ∷ [])
      (codes "id" ∷ codes "status" ∷ [])
      (codes "status" ∷ codes "id" ∷ [])
unfolding analyze_covering combine_columns
analyze_covering-IsCovering_example =
    analyze_covering-IsCovering (codes "status" ∷ []) (codes "id" ∷ codes "status" ∷ []) refl

abbrev condition : Text → Text → Condition
condition column operator = record { column = column; operator = operator; function = [] }

abbrev two_conditions : WhereClause
two_conditions = record {
  conditions = condition (codes "a") (codes "=") ∷ condition (codes "b") (codes "IN") ∷ [];
  logic = logic_and;
}

analyze_where-advice_example :
    analyze_where_indexes two_conditions (codes "t")
    ≡ index_on (codes "t") (codes "a" ∷ codes "b" ∷ []) reason_composite_index ∷ []
analyze_where-advice_example = analyze_where-advice two_conditions (codes "t")

generate_index_sql-name_example :
    generate_index_sql (index_on (codes "t") (codes "a" ∷ codes "b" ∷ []) reason_single)
    ≡ create_index (codes "idx_t_a_b") (codes "t") (codes "a" ∷ codes "b" ∷ [])
unfolding index_name
generate_index_sql-name_example =
    generate_index_sql-name (codes "t") (codes "btree") reason_single (codes "a") (codes "b" ∷ [])

composite_of_reason :
    categorize (index_on (codes "t") (codes "a" ∷ codes "b" ∷ []) reason_composite_index)
    ≡ composite_index
unfolding categorize contains lower_text
composite_of_reason = refl

-- A function whose name has `join` in it makes its recommendation one for a JOIN.
joined_function :
    categorize (index_on (codes "t") (codes "a" ∷ []) (function_reason (codes "join_key")))
    ≡ join_optimize
unfolding categorize contains lower_text
joined_function = refl

single_of_reason : categorize (index_on (codes "t") (codes "a" ∷ []) reason_single) ≡ index_missing
unfolding categorize contains lower_text
single_of_reason = refl
