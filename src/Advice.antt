-- ===== src/Advice.antt =====
-- internal/optimizer/optimizer.go, basic.go and covering.go: which indexes are recommended for a
-- WHERE clause that is parsed, and how they are told.
mod Tests
pub mod Covering
pub mod Where
use relica.Prelude.{
  ℕ, ◌==◌, ltb, leb, not, ◌&&◌, ◌||◌, Bool, true, false, List, [], ◌∷◌, ◌++◌, if◌then◌else◌, length,
}
use relica.Text.{Text, codes, join, text_eq, contains, is_empty}
use relica.Log.{lower_text}

-- `IndexRecommendation`.
pub record IndexRecommendation : Type 0 where
  pub table : Text
  pub columns : List Text
  pub index_type : Text
  pub reason : Text

-- `Condition`, `LogicType` and `WhereClause`.
pub record Condition : Type 0 where
  pub column : Text
  pub operator : Text
  pub function : Text

pub data LogicType : Type 0 where
  logic_and : LogicType
  logic_or : LogicType

pub record WhereClause : Type 0 where
  pub conditions : List Condition
  pub logic : LogicType

abbrev pub index_type_b_tree : Text
index_type_b_tree = codes "btree"

abbrev pub reason_composite_index : Text
reason_composite_index = codes "Composite index for multiple AND conditions"

abbrev pub reason_single : Text
reason_single = codes "Single column index for WHERE filtering"

-- `Suggestion`, its `Type` and its `Severity`, whose `SeverityError` is `critical`.
pub data SuggestionType : Type 0 where
  index_missing : SuggestionType
  slow_query : SuggestionType
  full_scan : SuggestionType
  composite_index : SuggestionType
  covering_index : SuggestionType
  join_optimize : SuggestionType
  function_index : SuggestionType
  query_rewrite : SuggestionType
  postgres_analyze : SuggestionType
  postgres_parallel : SuggestionType
  postgres_cache_hit : SuggestionType
  mysql_index_hint : SuggestionType
  mysql_optimize : SuggestionType
  mysql_buffer_pool : SuggestionType
  sqlite_analyze : SuggestionType
  sqlite_vacuum : SuggestionType
  sqlite_wal : SuggestionType

pub data Severity : Type 0 where
  info : Severity
  warning : Severity
  critical : Severity

pub record Suggestion : Type 0 where
  pub suggestion_type : SuggestionType
  pub message : Text
  pub severity : Severity
  pub sql : Text

-- `categorizeIndexRecommendation`.
unfoldable pub categorize : IndexRecommendation → SuggestionType
categorize idx =
    let reason = lower_text idx.reason in
    if contains reason (codes "covering index")
    then covering_index
    else if ltb 1 (length idx.columns) && contains reason (codes "composite")
    then composite_index
    else if contains reason (codes "join") || contains reason (codes "foreign key")
    then join_optimize
    else if contains reason (codes "function")
    then function_index
    else index_missing

-- `determineSeverity`.
abbrev pub determine_severity : SuggestionType → Severity
determine_severity kind = elim kind [
  | function_index ↦ warning
  | composite_index ↦ warning
  | join_optimize ↦ warning
  | covering_index ↦ info
  | _ ↦ warning
]

-- `suggestionTypeMessage`.
abbrev pub suggestion_type_message : SuggestionType → Text
suggestion_type_message kind = elim kind [
  | composite_index ↦ codes "Composite index recommended"
  | covering_index ↦ codes "Covering index recommended"
  | join_optimize ↦ codes "Index recommended"
  | function_index ↦ codes "Function-based index recommended"
  | _ ↦ codes "Index recommended"
]

-- `generateIndexSQL`.
unfoldable pub generate_index_sql : IndexRecommendation → Text
generate_index_sql idx =
    let index_name = codes "idx_" ++ (idx.table ++ (codes "_" ++ join (codes "_") idx.columns)) in
    codes "CREATE INDEX "
    ++ (index_name
        ++ (codes " ON "
            ++ (idx.table ++ (codes "(" ++ (join (codes ", ") idx.columns ++ codes ");")))))

-- The loop of `IndexName`, whose first column has index 0.
abbrev pub columns_part : Text → Bool → List Text → Text
columns_part part first [] = part
columns_part part first (col ∷ cols) =
    columns_part ((if first then part else part ++ codes "_") ++ col) false cols

abbrev pub name_of : Text → List Text → Text
name_of table [] = codes "idx_" ++ table
name_of table (c ∷ cs) = codes "idx_" ++ (table ++ (codes "_" ++ columns_part [] true (c ∷ cs)))

-- `IndexName`.
unfoldable pub index_name : IndexRecommendation → Text
index_name idx = name_of idx.table idx.columns

-- The suggestion that `Suggest` makes of a missing index.
unfoldable pub suggest_index : IndexRecommendation → Suggestion
suggest_index idx =
    let kind = categorize idx in
    record {
      suggestion_type = kind;
      message =
          suggestion_type_message kind
          ++ (codes " on "
              ++ (idx.table
                  ++ (codes "("
                      ++ (join (codes ", ") idx.columns ++ (codes "): " ++ idx.reason)))));
      severity = determine_severity kind;
      sql = generate_index_sql idx;
    }

-- A set of texts, `map[string]bool`, by the texts that were put in.
abbrev pub seen_in : List Text → Text → Bool
seen_in [] c = false
seen_in (s ∷ seen) c = if text_eq s c then true else seen_in seen c

-- A loop of `combineColumns`, from the set and the result that it finds.
abbrev pub add_columns : List Text → List Text × List Text → List Text × List Text
add_columns [] acc = acc
add_columns (c ∷ cs) (seen, result) =
    if seen_in seen c
    then add_columns cs (seen, result)
    else add_columns cs (c ∷ seen, result ++ c ∷ [])

-- `combineColumns`.
unfoldable pub combine_columns : List Text → List Text → List Text
combine_columns where_cols select_cols =
    let (seen, result) = add_columns select_cols (add_columns where_cols ([], [])) in result

-- `CoveringIndexAnalysis`.
pub record CoveringAnalysis : Type 0 where
  pub recommended : Bool
  pub columns : List Text
  pub benefit : Text

abbrev pub is_star : List Text → Bool
is_star [] = false
is_star (c ∷ []) = text_eq c (codes "*")
is_star (c ∷ d ∷ cs) = false

abbrev pub not_recommended : Text → CoveringAnalysis
not_recommended benefit = record { recommended = false; columns = []; benefit = benefit }

-- `AnalyzeCoveringIndex`, behind the parsing of the two lists of columns.
unfoldable pub analyze_covering : List Text → List Text → CoveringAnalysis
analyze_covering where_cols select_cols =
    let all_cols = combine_columns where_cols select_cols in
    if is_star select_cols
    then not_recommended (codes "SELECT * cannot be covered by index")
    else if ltb 0 (length where_cols) && leb 2 (length all_cols) && leb (length all_cols) 5
    then record {
      recommended = true;
      columns = all_cols;
      benefit = codes "Index-only scan (no table access needed)";
    }
    else if ltb (length all_cols) 2
    then not_recommended (codes "Too few columns for covering index")
    else if ltb 5 (length all_cols)
    then not_recommended (codes "Too many columns (wide index would be inefficient)")
    else not_recommended (codes "No WHERE clause to benefit from index")

abbrev pub function_reason : Text → Text
function_reason f =
    codes "Function "
    ++ (f ++ codes "() in WHERE prevents index use - consider function-based index")

-- What `analyzeConditions` collects: recommendations, columns for a composite index, and whether it
-- has met a function.
pub record Collected : Type 0 where
  pub recommendations : List IndexRecommendation
  pub composite : List Text
  pub has_functions : Bool

abbrev pub collect : Text → Condition → Collected → Collected
collect table cond acc =
    if not (is_empty cond.function)
    then record {
      recommendations =
          acc.recommendations
          ++ record {
            table = table;
            columns = cond.column ∷ [];
            index_type = index_type_b_tree;
            reason = function_reason cond.function;
          }
            ∷ [];
      composite = acc.composite;
      has_functions = true;
    }
    else if text_eq cond.operator (codes "=") || text_eq cond.operator (codes "IN")
    then record acc { composite = acc.composite ++ cond.column ∷ [] }
    else acc

-- The loop of `analyzeConditions`.
abbrev pub analyze_conditions : Text → List Condition → Collected → Collected
analyze_conditions table [] acc = acc
analyze_conditions table (c ∷ cs) acc = analyze_conditions table cs (collect table c acc)

-- `buildCompositeRecommendation`.
abbrev pub build_composite : LogicType → List Text → Bool → Text → List IndexRecommendation
build_composite logic_or columns has_functions table = []
build_composite logic_and [] has_functions table = []
build_composite logic_and (c ∷ cs) true table = []
build_composite logic_and (c ∷ cs) false table =
    record {
      table = table;
      columns = c ∷ cs;
      index_type = index_type_b_tree;
      reason = if leb 2 (length (c ∷ cs)) then reason_composite_index else reason_single;
    }
    ∷ []

abbrev pub nothing_collected : Collected
nothing_collected = record { recommendations = []; composite = []; has_functions = false }

abbrev pub analyze_all : Text → LogicType → List Condition → List IndexRecommendation
analyze_all table logic [] = []
analyze_all table logic (c ∷ cs) =
    let found = analyze_conditions table (c ∷ cs) nothing_collected in
    found.recommendations ++ build_composite logic found.composite found.has_functions table

-- `analyzeWhereIndexes`.
unfoldable pub analyze_where_indexes : WhereClause → Text → List IndexRecommendation
analyze_where_indexes w table = analyze_all table w.logic w.conditions
