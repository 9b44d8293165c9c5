-- ===== src/Query/BatchUpdate.antt =====
-- `BatchUpdateQuery` of internal/core/builder.go.
pub mod Binding
use relica.Prelude.{
  ℕ, zero, suc, ◌+◌, ◌≡◌, refl, ap, sym, ◌∙◌, Bool, List, [], ◌∷◌, ◌++◌, if◌then◌else◌, arith,
  length, length-append, All, Option, none, some, append_assoc,
}
use relica.Prelude.Maps.{lookup, keys, sorted_keys, text_eq}
use relica.Prelude.Sort.{sort_texts}
use relica.Text.{Text, codes, join}
use relica.Dialect.{Dialect, placeholder, quote_identifier}
use relica.Query.{Query, failed, built, no_updates}
use relica.Query.Insert.{placeholders}
use relica.Query.Upsert.{mem_text}
use relica.Query.Takes.{
  Takes, TakesAll, join-Takes, Takes-after, Takes-before, Takes-append, Takes-quiet,
  Takes-placeholder, IsQuiet, quote_identifier-IsQuiet, append-IsQuiet,
}

pub record BatchUpdateRow (V : Type 0) : Type 0 where
  pub key_value : V
  pub values : List (Text × V)

-- `update_columns` is nil (`none`) before the first row.
pub record BatchUpdateQuery (V : Type 0) : Type 0 where
  pub table : Text
  pub key_column : Text
  pub updates : List (BatchUpdateRow V)
  pub update_columns : Option (List Text)

-- The loop over the new row's columns.
add_columns : List Text → List Text → List Text
add_columns cols [] = cols
add_columns cols (k ∷ ks) = add_columns (if mem_text k cols then cols else cols ++ k ∷ []) ks

columns_with : {V : Type 0} → Option (List Text) → List (Text × V) → List Text
unfolding add_columns
columns_with none m = sorted_keys m
columns_with (some cols) m = sort_texts (add_columns cols (keys m))

case_clause : Dialect → Text → Text → Text → Text
case_clause d key col inner =
    quote_identifier d col
    ++ (codes " = CASE "
        ++ (quote_identifier d key
            ++ (inner ++ (codes " ELSE " ++ (quote_identifier d col ++ codes " END")))))

abbrev pub columns_of : Option (List Text) → List Text
columns_of none = []
columns_of (some cols) = cols

module _ {V : Type 0} where
  -- `BatchUpdate(table, keyColumn)`.
  abbrev pub batch_update : Text → Text → BatchUpdateQuery V
  batch_update table key = record {
    table = table;
    key_column = key;
    updates = [];
    update_columns = none;
  }

  -- `Set`.
  unfoldable pub set_row : V → List (Text × V) → BatchUpdateQuery V → BatchUpdateQuery V
  unfolding columns_with
  set_row key m q = record q {
    updates = q.updates ++ record { key_value = key; values = m } ∷ [];
    update_columns = some (columns_with q.update_columns m);
  }

  -- The loop over the rows for one column: the text, its parameters, and `paramIndex` after it.
  add_when : Dialect → ℕ → V → V → Text × List V × ℕ → Text × List V × ℕ
  add_when d i key v (s, args, next) = (
    codes " WHEN " ++ (placeholder d i ++ (codes " THEN " ++ (placeholder d (i + 1) ++ s))),
    key ∷ v ∷ args,
    next,
  )

  whens : Dialect → Text → ℕ → List (BatchUpdateRow V) → Text × List V × ℕ
  unfolding add_when
  whens d col i [] = ([], [], i)
  whens d col i (u ∷ us) = elim (lookup col u.values) [
    | none ↦ whens d col i us
    | some v ↦ add_when d i u.key_value v (whens d col (i + 2) us)
  ]

  add_set :
      Dialect → Text → Text → Text × List V × ℕ → List Text × List V × ℕ → List Text × List V × ℕ
  unfolding case_clause
  add_set d key col (inner, args, i) (parts, rest, next) =
      (case_clause d key col inner ∷ parts, args ++ rest, next)

  -- The loop over the columns.
  set_parts : Dialect → Text → List (BatchUpdateRow V) → ℕ → List Text → List Text × List V × ℕ
  unfolding whens add_set
  set_parts d key us i [] = ([], [], i)
  set_parts d key us i (col ∷ cols) =
      let w = whens d col i us in add_set d key col w (set_parts d key us w.2 cols)

  key_values : List (BatchUpdateRow V) → List V
  key_values [] = []
  key_values (u ∷ us) = u.key_value ∷ key_values us

  -- One placeholder for each key value.
  key_places : Dialect → ℕ → List (BatchUpdateRow V) → List Text
  key_places d i [] = []
  key_places d i (u ∷ us) = placeholder d i ∷ key_places d (suc i) us

  finish : Dialect → BatchUpdateQuery V → List (BatchUpdateRow V) → List Text × List V × ℕ → Query V
  unfolding key_values key_places
  finish d q us (parts, args, next) =
      built
        (codes "UPDATE "
          ++ (quote_identifier d q.table
              ++ (codes " SET "
                  ++ (join (codes ", ") parts
                      ++ (codes " WHERE "
                          ++ (quote_identifier d q.key_column
                              ++ (codes " IN ("
                                  ++ (join (codes ", ") (key_places d next us) ++ codes ")"))))))))
        (args ++ key_values us)

  build_updates : Dialect → BatchUpdateQuery V → List (BatchUpdateRow V) → Query V
  unfolding set_parts finish
  build_updates d q [] = failed no_updates
  build_updates d q (u ∷ us) =
      finish d q (u ∷ us) (set_parts d q.key_column (u ∷ us) 1 (columns_of q.update_columns))

  -- `Build`: no updates, or the statement.
  unfoldable pub build_batch_update : Dialect → BatchUpdateQuery V → Query V
  unfolding build_updates
  build_batch_update d q = build_updates d q q.updates
