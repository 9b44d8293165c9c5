-- ===== src/Query/Upsert.antt =====
-- `UpsertQuery` of internal/core/builder.go.
pub mod Binding
use relica.Prelude.{
  ◌≡◌, refl, append-nil, ap, ◌&&◌, map, arith, Bool, true, false, not, List, [], ◌∷◌, ◌++◌,
  if◌then◌else◌, ◌||◌, All, none, some, Bool-cases, inl, inr,
}
use relica.Prelude.Maps.{sorted_keys, text_eq, text_eq→≡}
use relica.Text.{Text, codes, join}
use relica.Dialect.{Dialect, postgres, mysql, upsert_sql}
use relica.Exp.{Dynamic}
use relica.Query.{Query, built}
use relica.Query.Insert.{quoted, insert_into, values_of}
use relica.Query.Takes.{IsQuiet, append-IsQuiet, quote_identifier-IsQuiet}

pub record UpsertQuery (V : Type 0) : Type 0 where
  pub table : Text
  pub values : List (Text × V)
  pub conflict_columns : List Text
  pub update_columns : List Text
  pub nothing : Bool

abbrev pub is_nil : {A : Type 0} → List A → Bool
is_nil [] = true
is_nil (x ∷ xs) = false

abbrev pub mem_text : Text → List Text → Bool
mem_text k [] = false
mem_text k (e ∷ es) = text_eq e k || mem_text k es

-- `filterKeys`.
unfoldable pub filter_keys : List Text → List Text → List Text
filter_keys [] exclude = []
filter_keys (k ∷ ks) exclude =
    if mem_text k exclude then filter_keys ks exclude else k ∷ filter_keys ks exclude

module _ {V : Type 0} where
  -- `Upsert(table, values)`.
  abbrev pub upsert : Text → List (Text × V) → UpsertQuery V
  upsert table values = record {
    table = table;
    values = values;
    conflict_columns = [];
    update_columns = [];
    nothing = false;
  }

  unfoldable pub on_conflict : List Text → UpsertQuery V → UpsertQuery V
  on_conflict columns q = record q { conflict_columns = columns }

  unfoldable pub do_update : List Text → UpsertQuery V → UpsertQuery V
  do_update columns q = record q { update_columns = columns; nothing = false }

  unfoldable pub do_nothing : UpsertQuery V → UpsertQuery V
  do_nothing q = record q { update_columns = []; nothing = true }

  -- The columns of the conflict clause's SET: those asked for, or all but the conflict columns.
  unfoldable pub columns_to_update : UpsertQuery V → List Text → List Text
  columns_to_update q ks =
      if is_nil q.update_columns then filter_keys ks q.conflict_columns else q.update_columns

  -- What is appended to the INSERT.
  unfoldable pub conflict_clause : Dialect → UpsertQuery V → List Text → Text
  conflict_clause d q ks =
      if q.nothing
      then upsert_sql d q.table (quoted d q.conflict_columns) none
      else if not (is_nil q.conflict_columns) || not (is_nil q.update_columns)
      then upsert_sql d q.table (quoted d q.conflict_columns)
          (some (quoted d (columns_to_update q ks)))
      else []

-- `Build`.
unfoldable pub build_upsert : {V : Type 0} ⦃dyn : Dynamic V⦄ → Dialect → UpsertQuery V → Query V
build_upsert d q =
    let ks = sorted_keys q.values in
    built (insert_into d q.table ks ++ conflict_clause d q ks) (values_of q.values ks)

-- `filterKeys` keeps exactly the keys that are not excluded.
mem-filter_keys :
    (k : Text) (ks exclude : List Text)
    → mem_text k (filter_keys ks exclude) ≡ (mem_text k ks && not (mem_text k exclude))
unfolding filter_keys
mem-filter_keys k [] exclude = refl
mem-filter_keys k (j ∷ ks) exclude =
    let same : text_eq j k ≡ true → mem_text j exclude ≡ mem_text k exclude =
      λ e. ap (λ t. mem_text t exclude) (text_eq→≡ j k e) in
    ground (arith, mem-filter_keys k ks exclude, same)

-- By default an upsert updates exactly the columns that it inserts and that are no conflict
-- columns.
pub mem-columns_to_update :
    {V : Type 0} (q : UpsertQuery V) (k : Text) (ks : List Text)
    → q.update_columns ≡ []
    → mem_text k (columns_to_update q ks) ≡ (mem_text k ks && not (mem_text k q.conflict_columns))
unfolding columns_to_update
mem-columns_to_update q k ks e = rw e (mem-filter_keys k ks q.conflict_columns)

filter_keys-eq-nil :
    (ks exclude : List Text) → All (λ k. mem_text k exclude ≡ true) ks → filter_keys ks exclude ≡ []
unfolding filter_keys
filter_keys-eq-nil [] exclude h = refl
filter_keys-eq-nil (k ∷ ks) exclude h = rw h.0 (filter_keys-eq-nil ks exclude h.1)

-- If every inserted column is a conflict column and no others are named, the conflict clause for
-- PostgreSQL ends in a SET with nothing behind it.
pub conflict_clause_empty_set :
    {V : Type 0} (q : UpsertQuery V) (ks : List Text) (c : Text) (cs : List Text)
    → q.nothing ≡ false
    → q.update_columns ≡ []
    → q.conflict_columns ≡ c ∷ cs
    → All (λ k. mem_text k (c ∷ cs) ≡ true) ks
    → conflict_clause postgres q ks
      ≡ codes " ON CONFLICT ("
        ++ (join (codes ", ") (quoted postgres (c ∷ cs)) ++ codes ") DO UPDATE SET ")
unfolding conflict_clause columns_to_update upsert_sql
conflict_clause_empty_set q ks c cs n u e h =
    rw (n, u, e, filter_keys-eq-nil ks (c ∷ cs) h)
      (ground (arith, append-nil (codes ") DO UPDATE SET ")))

-- On MySQL an upsert that is to do nothing on a conflict is the plain INSERT of its values: a
-- duplicate key is an error there, and no row is ignored.
pub do_nothing_mysql :
    {V : Type 0} ⦃dyn : Dynamic V⦄ (q : UpsertQuery V)
    → (build_upsert mysql (do_nothing q)).sql ≡ insert_into mysql q.table (sorted_keys q.values)
unfolding build_upsert do_nothing conflict_clause upsert_sql
do_nothing_mysql q = append-nil (insert_into mysql q.table (sorted_keys q.values))
