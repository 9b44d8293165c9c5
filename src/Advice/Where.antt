-- ===== src/Advice/Where.antt =====
-- internal/optimizer/basic.go: the indexes that are recommended for the conditions of WHERE.
use relica.Prelude.{
  ℕ, suc, ◌≡◌, refl, ◌∙◌, Bool, true, false, not, ◌||◌, List, [], ◌∷◌, ◌++◌, arith, length,
  Bool-cases, inl, inr, leb, append-nil, append_assoc, if◌then◌else◌,
}
use relica.Text.{Text, codes, text_eq, join, is_empty}
use relica.Advice.{
  IndexRecommendation, Condition, LogicType, logic_and, logic_or, WhereClause,
  analyze_where_indexes, analyze_all, analyze_conditions, Collected, collect, nothing_collected,
  build_composite, function_reason, index_type_b_tree, reason_composite_index, reason_single,
  generate_index_sql, index_name, columns_part,
}

abbrev pub has_function : Condition → Bool
has_function c = not (is_empty c.function)

abbrev pub tests_equality : Condition → Bool
tests_equality c = text_eq c.operator (codes "=") || text_eq c.operator (codes "IN")

abbrev pub any_function : List Condition → Bool
any_function [] = false
any_function (c ∷ cs) = if has_function c then true else any_function cs

abbrev pub equality_columns : List Condition → List Text
equality_columns [] = []
equality_columns (c ∷ cs) =
    let rest = equality_columns cs in
    if has_function c then rest else if tests_equality c then c.column ∷ rest else rest

abbrev pub index_on : Text → List Text → Text → IndexRecommendation
index_on table columns reason = record {
  table = table;
  columns = columns;
  index_type = index_type_b_tree;
  reason = reason;
}

abbrev pub function_indexes : Text → List Condition → List IndexRecommendation
function_indexes table [] = []
function_indexes table (c ∷ cs) =
    let rest = function_indexes table cs in
    if has_function c
    then index_on table (c.column ∷ []) (function_reason c.function) ∷ rest
    else rest

-- One index for the columns that are tested for equality.
abbrev pub equality_index : Text → List Text → List IndexRecommendation
equality_index table [] = []
equality_index table (c ∷ []) = index_on table (c ∷ []) reason_single ∷ []
equality_index table (c ∷ d ∷ cs) = index_on table (c ∷ d ∷ cs) reason_composite_index ∷ []

-- The advice, by the conditions as a whole.
abbrev pub advice : Text → LogicType → List Condition → List IndexRecommendation
advice table logic_or cs = function_indexes table cs
advice table logic_and cs =
    if any_function cs
    then function_indexes table cs
    else equality_index table (equality_columns cs)

abbrev after : Text → List Condition → Collected → Collected
after table cs acc = record {
  recommendations = acc.recommendations ++ function_indexes table cs;
  composite = acc.composite ++ equality_columns cs;
  has_functions = acc.has_functions || any_function cs;
}

or_false : (b : Bool) → (b || false) ≡ b
or_false true = refl
or_false false = refl

or_true : (b : Bool) → (b || true) ≡ true
or_true true = refl
or_true false = refl

-- One step of the loop, and then the rest.
after-collect :
    (table : Text) (c : Condition) (cs : List Condition) (acc : Collected)
    → after table cs (collect table c acc) ≡ after table (c ∷ cs) acc
after-collect table c cs acc = elim (Bool-cases (has_function c)) [
  | inl e ↦
      rw
        (
          e,
          or_true acc.has_functions,
          append_assoc acc.recommendations
              (index_on table (c.column ∷ []) (function_reason c.function) ∷ [])
              (function_indexes table cs),
        )
        refl
  | inr e ↦ elim (Bool-cases (tests_equality c)) [
    | inl q ↦ rw (e, q, append_assoc acc.composite (c.column ∷ []) (equality_columns cs)) refl
    | inr q ↦ rw (e, q) refl
  ]
]

analyze_conditions-after :
    (table : Text) (cs : List Condition) (acc : Collected)
    → analyze_conditions table cs acc ≡ after table cs acc
analyze_conditions-after table [] acc =
    rw (append-nil acc.recommendations, append-nil acc.composite, or_false acc.has_functions) refl
analyze_conditions-after table (c ∷ cs) acc =
    analyze_conditions-after table cs (collect table c acc) ∙ after-collect table c cs acc

no_functions :
    (table : Text) (cs : List Condition) → any_function cs ≡ false → function_indexes table cs ≡ []
no_functions table [] h = refl
no_functions table (c ∷ cs) h = ground (arith, no_functions table cs)

build_composite-or :
    (columns : List Text) (b : Bool) (table : Text) → build_composite logic_or columns b table ≡ []
build_composite-or columns b table = refl

build_composite-functions :
    (columns : List Text) (table : Text) → build_composite logic_and columns true table ≡ []
build_composite-functions [] table = refl
build_composite-functions (c ∷ cs) table = refl

leb_two : (n : ℕ) → leb 2 (suc (suc n)) ≡ true
leb_two n = ground arith

build_composite-index :
    (columns : List Text) (table : Text)
    → build_composite logic_and columns false table ≡ equality_index table columns
build_composite-index [] table = refl
build_composite-index (c ∷ []) table = refl
build_composite-index (c ∷ d ∷ cs) table = rw (leb_two (length cs)) refl

together :
    (table : Text) (logic : LogicType) (cs : List Condition)
    → function_indexes table cs
        ++ build_composite logic (equality_columns cs) (any_function cs) table
      ≡ advice table logic cs
together table logic_or cs = append-nil (function_indexes table cs)
together table logic_and cs = elim (Bool-cases (any_function cs)) [
  | inl e ↦
      rw (e, build_composite-functions (equality_columns cs) table)
        (append-nil (function_indexes table cs))
  | inr e ↦ rw (e, no_functions table cs e) (build_composite-index (equality_columns cs) table)
]

analyze_all-advice :
    (table : Text) (logic : LogicType) (cs : List Condition)
    → analyze_all table logic cs ≡ advice table logic cs
analyze_all-advice table logic_or [] = refl
analyze_all-advice table logic_and [] = refl
analyze_all-advice table logic (c ∷ cs) =
    rw (analyze_conditions-after table (c ∷ cs) nothing_collected) (together table logic (c ∷ cs))

-- analyzeWhereIndexes recommends an index for each condition on a function of a column. If there is
-- none and the conditions are joined by AND, it recommends one index for the columns that are tested
-- by = or IN, in their order, if there are any; and else nothing more.
pub analyze_where-advice :
    (w : WhereClause) (table : Text)
    → analyze_where_indexes w table ≡ advice table w.logic w.conditions
unfolding analyze_where_indexes
analyze_where-advice w table = analyze_all-advice table w.logic w.conditions

columns_part-join :
    (part : Text) (c : Text) (cs : List Text)
    → columns_part part false (c ∷ cs) ≡ part ++ (codes "_" ++ join (codes "_") (c ∷ cs))
columns_part-join part c [] = append_assoc part (codes "_") c
columns_part-join part c (d ∷ cs) =
    columns_part-join ((part ++ codes "_") ++ c) d cs
    ∙ append_assoc (part ++ codes "_") c (codes "_" ++ join (codes "_") (d ∷ cs))
    ∙ append_assoc part (codes "_") (c ++ (codes "_" ++ join (codes "_") (d ∷ cs)))

part-join : (c : Text) (cs : List Text) → columns_part [] true (c ∷ cs) ≡ join (codes "_") (c ∷ cs)
part-join c [] = refl
part-join c (d ∷ cs) = columns_part-join c d cs

-- A `CREATE INDEX` statement.
abbrev pub create_index : Text → Text → List Text → Text
create_index name table columns =
    codes "CREATE INDEX "
    ++ (name
        ++ (codes " ON " ++ (table ++ (codes "(" ++ (join (codes ", ") columns ++ codes ");")))))

-- The statement that is suggested for an index with columns creates it under the name that IndexName
-- gives, which the MySQL hint tells the user to use.
pub generate_index_sql-name :
    (table index_type reason c : Text) (cs : List Text)
    → generate_index_sql
        (record { table = table; columns = c ∷ cs; index_type = index_type; reason = reason })
      ≡ create_index
          (index_name
            (record { table = table; columns = c ∷ cs; index_type = index_type; reason = reason }))
          table
          (c ∷ cs)
unfolding generate_index_sql index_name
generate_index_sql-name table index_type reason c cs = rw (part-join c cs) refl
