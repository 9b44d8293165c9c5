-- ===== src/Query/BatchInsert.antt =====
-- `BatchInsertQuery` of internal/core/builder.go.
use relica.Prelude.{
  ℕ, ◌+◌, ◌==◌, ◌≡◌, refl, ap, List, [], ◌∷◌, ◌++◌, if◌then◌else◌, arith, length, length-append,
  All, All-append, Option, none, some, Bool-cases, inl, inr,
}
use relica.Text.{Text, codes, join}
use relica.Dialect.{Dialect, quote_identifier}
use relica.Exp.{Dynamic}
use relica.Query.{BuildError, bad_row, no_rows, Query, failed, built}
use relica.Query.Insert.{
  placeholders, quoted, values_of, length-values_of, placeholders-TakesAll, quoted-IsQuiet,
}
use relica.Query.Takes.{
  Takes, TakesAll, join-Takes, Takes-after, Takes-before, Takes-quiet, IsQuiet,
  quote_identifier-IsQuiet,
}

pub record BatchInsertQuery (V : Type 0) : Type 0 where
  pub table : Text
  pub columns : List Text
  pub rows : List (List V)
  pub build_err : Option BuildError

-- `row[j]` for each column index `j`. A shorter row would be an index out of range; `add_values`
-- lets none in.
row_args : {V : Type 0} → List Text → List V → List V
row_args [] row = []
row_args (c ∷ cs) [] = []
row_args (c ∷ cs) (v ∷ row) = v ∷ row_args cs row

module _ {V : Type 0} where
  -- `BatchInsert(table, columns)`.
  abbrev pub batch_insert : Text → List Text → BatchInsertQuery V
  batch_insert table columns = record {
    table = table;
    columns = columns;
    rows = [];
    build_err = none;
  }

  -- `Values`.
  unfoldable pub add_values : List V → BatchInsertQuery V → BatchInsertQuery V
  add_values vs q =
      if length vs == length q.columns
      then record q { rows = q.rows ++ vs ∷ [] }
      else record q { build_err = some (bad_row (length q.columns) (length vs)) }

  -- The loop over the rows: the clauses, and the index behind them.
  value_clauses : Dialect → List Text → ℕ → List (List V) → List Text
  value_clauses d cols i [] = []
  value_clauses d cols i (row ∷ rows) =
      (codes "(" ++ (join (codes ", ") (placeholders d i cols) ++ codes ")"))
      ∷ value_clauses d cols (i + length cols) rows

  all_args : List Text → List (List V) → List V
  unfolding row_args
  all_args cols [] = []
  all_args cols (row ∷ rows) = row_args cols row ++ all_args cols rows

  build_rows : Dialect → BatchInsertQuery V → List (List V) → Query V
  unfolding value_clauses all_args
  build_rows d q [] = failed no_rows
  build_rows d q (row ∷ rows) =
      built
        (codes "INSERT INTO "
          ++ (quote_identifier d q.table
              ++ (codes " ("
                  ++ (join (codes ", ") (quoted d q.columns)
                      ++ (codes ") VALUES "
                          ++ join (codes ", ") (value_clauses d q.columns 1 (row ∷ rows)))))))
        (all_args q.columns (row ∷ rows))

  rows_unless : Option BuildError → Dialect → BatchInsertQuery V → Query V
  unfolding build_rows
  rows_unless (some e) d q = failed e
  rows_unless none d q = build_rows d q q.rows

  -- `Build`: a stored error, no rows, or the statement.
  unfoldable pub build_batch_insert : Dialect → BatchInsertQuery V → Query V
  unfolding rows_unless
  build_batch_insert d q = rows_unless q.build_err d q

  -- Every row has as many values as there are columns.
  abbrev pub HasWidth : BatchInsertQuery V → Type 0
  HasWidth q = All (λ row. length row ≡ length q.columns) q.rows

  -- `Values` keeps the rows as wide as the columns, whatever it is given: it refuses a row of
  -- another length and stores the error.
  pub add_values-HasWidth :
      (vs : List V) (q : BatchInsertQuery V) → HasWidth q → HasWidth (add_values vs q)
  unfolding add_values
  add_values-HasWidth vs q h = elim (Bool-cases (length vs == length q.columns)) [
    | inl e ↦ rw e (All-append _ q.rows (vs ∷ []) h (ground arith, tt))
    | inr e ↦ rw e h
  ]

  row_args-eq :
      (cols : List Text) (row : List V) → length row ≡ length cols → row_args cols row ≡ row
  unfolding row_args
  row_args-eq [] [] h = refl
  row_args-eq [] (v ∷ row) h = absurd (omega arith)
  row_args-eq (c ∷ cs) [] h = absurd (omega arith)
  row_args-eq (c ∷ cs) (v ∷ row) h = ap (◌∷◌ v) (row_args-eq cs row (omega arith))

  abbrev pub concat : List (List V) → List V
  concat [] = []
  concat (row ∷ rows) = row ++ concat rows

  all_args-concat :
      (cols : List Text) (rows : List (List V))
      → All (λ row. length row ≡ length cols) rows
      → all_args cols rows ≡ concat rows
  unfolding all_args
  all_args-concat cols [] h = refl
  all_args-concat cols (row ∷ rows) h = rw (row_args-eq cols row h.0, all_args-concat cols rows h.1)

  value_clauses-TakesAll :
      (d : Dialect) (cols : List Text) (i : ℕ) (rows : List (List V))
      → All (λ row. length row ≡ length cols) rows
      → TakesAll d i (length (concat rows)) (value_clauses d cols i rows)
  unfolding value_clauses
  value_clauses-TakesAll d cols i [] h = refl
  value_clauses-TakesAll d cols i (row ∷ rows) h = (
    length cols,
    length (concat rows),
    omega (arith, length-append row (concat rows), h.0),
    Takes-after d i (length cols) (codes "(")
        (join (codes ", ") (placeholders d i cols) ++ codes ")") (refl, refl)
        (Takes-before d i (length cols) (join (codes ", ") (placeholders d i cols)) (codes ")")
          (join-Takes d i (length cols) (placeholders d i cols) (placeholders-TakesAll d i cols))
          (refl, refl) (λ u c. refl)),
    value_clauses-TakesAll d cols (i + length cols) rows h.1,
  )

  build_rows-Takes :
      (d : Dialect) (q : BatchInsertQuery V) (rows : List (List V))
      → IsQuiet q.table
      → All IsQuiet q.columns
      → All (λ row. length row ≡ length q.columns) rows
      → Takes d 1 (length (build_rows d q rows).params) (build_rows d q rows).sql
  unfolding build_rows
  build_rows-Takes d q [] ht hc h = Takes-quiet d 1 [] (refl, refl)
  build_rows-Takes d q (row ∷ rows) ht hc h =
      let n = length (concat (row ∷ rows)) in
      rw (all_args-concat q.columns (row ∷ rows) h) (
        Takes-after d 1 n (codes "INSERT INTO ") _ (refl, refl)
          (Takes-after d 1 n (quote_identifier d q.table) _ (quote_identifier-IsQuiet d q.table ht)
            (Takes-after d 1 n (codes " (") _ (refl, refl)
              (Takes-after d 1 n (join (codes ", ") (quoted d q.columns)) _
                (quoted-IsQuiet d q.columns hc)
                (Takes-after d 1 n (codes ") VALUES ") _ (refl, refl)
                  (join-Takes d 1 n (value_clauses d q.columns 1 (row ∷ rows))
                    (value_clauses-TakesAll d q.columns 1 (row ∷ rows) h)))))))

  rows_unless-Takes :
      (err : Option BuildError) (d : Dialect) (q : BatchInsertQuery V)
      → IsQuiet q.table
      → All IsQuiet q.columns
      → HasWidth q
      → Takes d 1 (length (rows_unless err d q).params) (rows_unless err d q).sql
  unfolding rows_unless
  rows_unless-Takes (some e) d q ht hc h = Takes-quiet d 1 [] (refl, refl)
  rows_unless-Takes none d q ht hc h = build_rows-Takes d q q.rows ht hc h

  -- A batch INSERT takes exactly its parameters, in order through all rows, in every dialect. Its
  -- rows are as wide as the columns, and the names hold neither `?` nor `$`.
  pub build_batch_insert-Takes :
      (d : Dialect) (q : BatchInsertQuery V)
      → IsQuiet q.table
      → All IsQuiet q.columns
      → HasWidth q
      → Takes d 1 (length (build_batch_insert d q).params) (build_batch_insert d q).sql
  unfolding build_batch_insert
  build_batch_insert-Takes d q ht hc h = rows_unless-Takes q.build_err d q ht hc h

  -- The parameters of a batch INSERT are its rows, one after the other.
  pub params-build_batch_insert :
      (d : Dialect) (q : BatchInsertQuery V)
      → HasWidth q
      → q.build_err ≡ none
      → (build_batch_insert d q).params ≡ concat q.rows
  unfolding build_batch_insert
  params-build_batch_insert d q h e = rw (e, rows_unless) (go q.rows h)
    where
      go :
          (rows : List (List V))
          → All (λ row. length row ≡ length q.columns) rows
          → (build_rows d q rows).params ≡ concat rows
      go [] h = refl
      go (row ∷ rows) h = all_args-concat q.columns (row ∷ rows) h

module _ {V : Type 0} ⦃dyn : Dynamic V⦄ where
  -- `ValuesMap`.
  unfoldable pub add_values_map : List (Text × V) → BatchInsertQuery V → BatchInsertQuery V
  add_values_map m q = add_values (values_of m q.columns) q

  -- `ValuesMap` is never refused: it adds the values of the columns in their order, with nil for
  -- a missing key.
  pub add_values_map_lem :
      (m : List (Text × V)) (q : BatchInsertQuery V)
      → (add_values_map m q).rows ≡ q.rows ++ values_of m q.columns ∷ []
  unfolding add_values_map add_values
  add_values_map_lem m q = ground (arith, length-values_of m q.columns)
