-- ===== src/Model/Statement.antt =====
-- `Update`, `UpdateChanged`, `Delete`, `Insert` and `Upsert` of a `ModelQuery`: the statements that
-- they build.
use relica.Prelude.{Bool, ◌&&◌, ◌||◌, List, [], ◌∷◌, ◌++◌, if◌then◌else◌, Option, none, some}
use relica.Prelude.Maps.{text_eq, keys}
use relica.Text.{Text, codes, is_empty}
use relica.Dialect.{Dialect, quote_identifier}
use relica.Exp.{exp, Dynamic}
use relica.Exp.Compare.{eq, build_compare}
use relica.Query.{Query, Conditions, where_view, no_conditions}
use relica.Query.Update.{build_update}
use relica.Query.Delete.{build_delete}
use relica.Query.Insert.{insert}
use relica.Query.Upsert.{upsert, on_conflict, do_update, build_upsert}
use relica.Model.{
  Field, struct_to_map, find_primary_keys, filter_fields, delete_key, delete_keys, column_of,
  contains, put,
}
use relica.Model.Number.{Cell, is_primary_key_zero, is_pk_numeric}

-- Why no statement is built.
pub data ModelError : Type 0 where
  no_table no_key other_type : ModelError

pub data Outcome (A : Type 0) : Type 0 where
  ok : A → Outcome A
  fails : ModelError → Outcome A
  -- `UpdateChanged` with nothing changed.
  nothing_to_do : Outcome A

-- `ModelQuery` of a struct: its table, the fields of the model, and the excluded ones.
pub record ModelQuery (V : Type 0) : Type 0 where
  pub table : Text
  pub fields : List (Field V)
  pub exclude : List Text

module _ {V : Type 0} where
  -- `Table`.
  abbrev pub table_of : Text → ModelQuery V → ModelQuery V
  table_of name q = record q { table = name }

  -- `Exclude`.
  abbrev pub excluding : List Text → ModelQuery V → ModelQuery V
  excluding attrs q = record q { exclude = q.exclude ++ attrs }

module _ {V : Type 0} ⦃dyn : Dynamic V⦄ where
  -- The loop `Where(Eq(col, value))` over the primary keys; `AndWhere` is `Where`.
  unfoldable pub where_keys : Dialect → List (Text × V) → Conditions V → Conditions V
  where_keys d [] c = c
  where_keys d ((col, v) ∷ ks) c =
      where_keys d ks (where_view d (exp (build_compare (eq col v))) [] c)

  abbrev pub update_of : Dialect → Text → List (Text × V) → List (Text × V) → Query V
  update_of d table ks values =
      build_update d
        (record { table = table; values = values; conditions = where_keys d ks no_conditions })

  unfoldable pub update_keys :
      Dialect → Text → List (Text × V) → List (Text × V) → Outcome (Query V)
  update_keys d table [] values = fails no_key
  update_keys d table (k ∷ ks) values = ok (update_of d table (k ∷ ks) values)

  -- `Update` of the fields asked for, or of all: its query.
  unfoldable pub update_model : Dialect → ModelQuery V → List Text → Outcome (Query V)
  unfolding update_keys
  update_model d q attrs =
      if is_empty q.table
      then fails no_table
      else let ks = find_primary_keys q.fields in
        update_keys d q.table ks
          (delete_keys (keys ks) (filter_fields attrs q.exclude (struct_to_map q.fields)))

  unfoldable pub delete_where : Dialect → Text → List (Text × V) → Outcome (Query V)
  delete_where d table [] = fails no_key
  delete_where d table (k ∷ ks) =
      ok (
        build_delete d (record { table = table; conditions = where_keys d (k ∷ ks) no_conditions }))

  -- `Delete`.
  unfoldable pub delete_model : Dialect → ModelQuery V → Outcome (Query V)
  unfolding delete_where
  delete_model d q =
      if is_empty q.table
      then fails no_table
      else delete_where d q.table (find_primary_keys q.fields)

  -- One field in the loop of `diffFields`.
  abbrev pub note_change :
      (V → V → Bool) → List Text → Field V → V → List (Text × V) → List (Text × V)
  note_change same pks f old m = elim (column_of f) [
    | none ↦ m
    | some c ↦ if contains c pks || same f.value old then m else put c f.value m
  ]

  -- `diffFields`, with what the original holds in the same fields; `reflect.DeepEqual` is `same`.
  unfoldable pub diff_from :
      (V → V → Bool) → List Text → List (Text × V) → List (Field V × V) → List (Text × V)
  diff_from same pks m [] = m
  diff_from same pks m ((f, old) ∷ fs) = diff_from same pks (note_change same pks f old m) fs

  -- The fields beside the original's values; none where there are not as many, as for a struct of
  -- another type.
  abbrev pub beside : List (Field V) → List V → Option (List (Field V × V))
  beside [] [] = some []
  beside [] (v ∷ vs) = none
  beside (f ∷ fs) [] = none
  beside (f ∷ fs) (v ∷ vs) = elim (beside fs vs) [ none ↦ none | some l ↦ some ((f, v) ∷ l) ]

  unfoldable pub update_diff :
      Dialect → Text → List (Text × V) → List (Text × V) → Outcome (Query V)
  unfolding update_keys
  update_diff d table ks [] = nothing_to_do
  update_diff d table ks (e ∷ m) = update_keys d table ks (e ∷ m)

  -- `UpdateChanged`.
  unfoldable pub update_changed :
      (V → V → Bool) → Dialect → ModelQuery V → List V → Outcome (Query V)
  unfolding update_diff diff_from
  update_changed same d q original =
      if is_empty q.table then fails no_table else elim (beside q.fields original) [
        | none ↦ fails other_type
        | some fs ↦
            let ks = find_primary_keys q.fields in
            update_diff d q.table ks (diff_from same (keys ks) [] fs)
      ]

-- `needsPostgresReturning`: the column that is asked for.
unfoldable pub needs_returning : {V : Type 0} → (V → Cell) → Text → List (Text × V) → Option Text
needs_returning cell driver [] = none
needs_returning cell driver ((c, v) ∷ k ∷ ks) = none
needs_returning cell driver ((c, v) ∷ []) =
    if (text_eq driver (codes "postgres") || text_eq driver (codes "pgx"))
      && (is_primary_key_zero (cell v) && is_pk_numeric (cell v))
    then some c
    else none

-- The clause that `insertWithReturning` and `Upsert` append.
abbrev pub with_returning : {V : Type 0} → Dialect → Option Text → Query V → Query V
with_returning d none q = q
with_returning d (some c) q = record q {
  sql = q.sql ++ (codes " RETURNING " ++ quote_identifier d c);
}

module _ {V : Type 0} (cell : V → Cell) where
  -- A single primary key that is zero is left to the database.
  unfoldable pub without_zero_key : List (Text × V) → List (Text × V) → List (Text × V)
  without_zero_key [] m = m
  without_zero_key ((c, v) ∷ k ∷ ks) m = m
  without_zero_key ((c, v) ∷ []) m = if is_primary_key_zero (cell v) then delete_key c m else m

-- `buildUpsertUpdateCols`.
abbrev pub without : List Text → List Text → List Text
without pks [] = []
without pks (c ∷ cs) = if contains c pks then without pks cs else c ∷ without pks cs

abbrev pub upsert_update_cols : List Text → List Text → List Text → List Text
upsert_update_cols columns pks [] = without pks columns
upsert_update_cols columns pks (f ∷ fs) = without pks (f ∷ fs)

module _ {V : Type 0} ⦃dyn : Dynamic V⦄ (cell : V → Cell) where
  -- `Insert`: its query, and the column that it returns.
  unfoldable pub insert_model :
      Dialect → Text → ModelQuery V → List Text → Outcome (Query V × Option Text)
  unfolding without_zero_key needs_returning
  insert_model d driver q attrs =
      if is_empty q.table
      then fails no_table
      else let ks = find_primary_keys q.fields in
        let m = without_zero_key cell ks (filter_fields attrs q.exclude (struct_to_map q.fields)) in
        let r = needs_returning cell driver ks in ok (with_returning d r (insert d q.table m), r)

  upsert_keys :
      Dialect
      → Text
      → Text
      → List (Text × V)
      → List (Text × V)
      → List Text
      → Outcome (Query V × Option Text)
  unfolding needs_returning
  upsert_keys d driver table [] m cols = fails no_key
  upsert_keys d driver table (k ∷ ks) m cols =
      let r = needs_returning cell driver (k ∷ ks) in
      let q =
        do_update (upsert_update_cols (keys m) (keys (k ∷ ks)) cols)
          (on_conflict (keys (k ∷ ks)) (upsert table m)) in
      ok (with_returning d r (build_upsert d q), r)

  -- `Upsert`: its query, and the column that it returns.
  unfoldable pub upsert_model :
      Dialect → Text → ModelQuery V → List Text → Outcome (Query V × Option Text)
  unfolding upsert_keys
  upsert_model d driver q cols =
      if is_empty q.table
      then fails no_table
      else upsert_keys d driver q.table (find_primary_keys q.fields) (struct_to_map q.fields) cols
