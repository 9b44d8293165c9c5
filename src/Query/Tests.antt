-- ===== src/Query/Tests.antt =====
-- The statements of examples.
use mathlib.Core.List.Perm
use relica.Prelude.{◌≡◌, refl, false, List, [], ◌∷◌, length, Bool-cases, inl, inr, none, some, All}
use relica.Prelude.Maps.{sorted_keys, SameMap, lookup, text_eq, text_eq→≡}
use relica.Prelude.Sort.{sort_texts}
use relica.Text.{Text, codes}
use relica.Dialect.{postgres}
use relica.Exp.Values.{Val, dynamic_val, nothing, num, string, raw}
use relica.Query.Slots.{is_clear→IsClear}
use relica.Query.{Conditions, add_where, or_where, renumber}
use relica.Query.Where.{IsSound, Adds, where-IsSound}
use relica.Query.Binds.{Binds}
use relica.Query.Takes.{Takes, IsQuiet}
use relica.Query.Number.{number, renumber-number}
use relica.Query.Insert.{insert, insert-Takes}
use relica.Query.Upsert.{UpsertQuery, build_upsert}
use relica.Query.Upsert.Binding.{build_upsert-Takes}
use relica.Query.Update.{UpdateQuery, build_update, build_update-Takes, Updates}
use relica.Query.Delete.{DeleteQuery, build_delete, build_delete-Takes, Deletes}
use relica.Query.BatchInsert.{
  BatchInsertQuery, build_batch_insert, HasWidth, concat, build_batch_insert-Takes,
  params-build_batch_insert,
}
use relica.Query.BatchUpdate.{BatchUpdateQuery, build_batch_update}
use relica.Query.BatchUpdate.Binding.{build_batch_update-Takes}

abbrev two_clauses : Conditions Val
two_clauses = record {
  clauses = codes "a = ? OR b > ?" ∷ codes "c IN (?)" ∷ [];
  params = num 1 ∷ num 2 ∷ num 3 ∷ [];
  build_err = none;
}

abbrev name : Text
name = codes "name"

abbrev users : Text
users = codes "users"

abbrev one_value : List (Text × Val)
one_value = (name, string (codes "Ada")) ∷ []

two_clauses-IsSound : IsSound two_clauses
two_clauses-IsSound = record {
  balanced = refl;
  clear = (
    is_clear→IsClear (codes "a = ? OR b > ?") refl,
    (is_clear→IsClear (codes "c IN (?)") refl, tt),
  );
}

one_value-IsQuiet : All IsQuiet (sorted_keys one_value)
unfolding sorted_keys sort_texts
one_value-IsQuiet = ((refl, refl), tt)

abbrev users_update : UpdateQuery Val
users_update = record { table = users; values = one_value; conditions = two_clauses }

build_update-Takes_example : Updates postgres users_update (build_update postgres users_update)
build_update-Takes_example =
    build_update-Takes postgres users_update refl (λ e. cc) (refl, refl) one_value-IsQuiet
      two_clauses-IsSound

abbrev users_delete : DeleteQuery Val
users_delete = record { table = users; conditions = two_clauses }

build_delete-Takes_example : Deletes postgres users_delete (build_delete postgres users_delete)
build_delete-Takes_example =
    build_delete-Takes postgres users_delete refl (refl, refl) two_clauses-IsSound

insert-Takes_example :
    Takes postgres 1
      (length (insert postgres users one_value).params)
      (insert postgres users one_value).sql
insert-Takes_example =
    insert-Takes postgres users (name, string (codes "Ada")) [] (refl, refl) one_value-IsQuiet

abbrev users_upsert : UpsertQuery Val
users_upsert = record {
  table = users;
  values = one_value;
  conflict_columns = codes "id" ∷ [];
  update_columns = name ∷ [];
  nothing = false;
}

build_upsert-Takes_example :
    Takes postgres 1
      (length (build_upsert postgres users_upsert).params)
      (build_upsert postgres users_upsert).sql
build_upsert-Takes_example =
    build_upsert-Takes postgres users_upsert (refl, refl) one_value-IsQuiet ((refl, refl), tt)
      ((refl, refl), tt)

abbrev two_rows : BatchInsertQuery Val
two_rows = record {
  table = users;
  columns = codes "id" ∷ name ∷ [];
  rows = (num 1 ∷ nothing ∷ []) ∷ (num 2 ∷ string (codes "Bo") ∷ []) ∷ [];
  build_err = none;
}

two_rows-HasWidth : HasWidth two_rows
two_rows-HasWidth = (refl, (refl, tt))

build_batch_insert-Takes_example :
    Takes postgres 1
      (length (build_batch_insert postgres two_rows).params)
      (build_batch_insert postgres two_rows).sql
build_batch_insert-Takes_example =
    build_batch_insert-Takes postgres two_rows (refl, refl) ((refl, refl), ((refl, refl), tt))
      two_rows-HasWidth

params-build_batch_insert_example :
    (build_batch_insert postgres two_rows).params ≡ concat two_rows.rows
params-build_batch_insert_example =
    params-build_batch_insert postgres two_rows two_rows-HasWidth refl

abbrev two_updates : BatchUpdateQuery Val
two_updates = record {
  table = users;
  key_column = codes "id";
  updates =
      record { key_value = num 1; values = one_value }
      ∷ record { key_value = num 2; values = (codes "age", num 30) ∷ one_value }
      ∷ [];
  update_columns = some (codes "age" ∷ name ∷ []);
}

build_batch_update-Takes_example :
    Binds postgres
      (num 2
        ∷ num 30
        ∷ num 1
        ∷ string (codes "Ada")
        ∷ num 2
        ∷ string (codes "Ada")
        ∷ num 1
        ∷ num 2
        ∷ [])
      (build_batch_update postgres two_updates)
build_batch_update-Takes_example =
    build_batch_update-Takes postgres two_updates (λ e. cc) (refl, refl) (refl, refl)
      ((refl, refl), ((refl, refl), tt))

abbrev active : Val
active = raw (codes "active = ?") (1 ∷ [])

where-IsSound_example :
    Adds postgres active [] two_clauses (add_where postgres active [] two_clauses)
    × Adds postgres active [] two_clauses (or_where postgres active [] two_clauses)
where-IsSound_example =
    where-IsSound postgres active [] two_clauses (refl, is_clear→IsClear (codes "active = ?") refl)
      two_clauses-IsSound

renumber-number_example :
    renumber postgres 2 2 (codes "a = ? AND b = ?") ≡ number 2 2 (codes "a = ? AND b = ?")
renumber-number_example = renumber-number 2 2 (codes "a = ? AND b = ?")

abbrev id_first : List (Text × Val)
id_first = (codes "id", num 1) ∷ (name, nothing) ∷ []

abbrev name_first : List (Text × Val)
name_first = (name, nothing) ∷ (codes "id", num 1) ∷ []

same_map : SameMap id_first name_first
same_map = record { same_keys = Perm.swap _ _ _; same_values = same }
  where
    same : (k : Text) → lookup k id_first ≡ lookup k name_first
    same k = elim (Bool-cases (text_eq (codes "id") k)) [
      | inl hit ↦ rw (← text_eq→≡ (codes "id") k hit) refl
      | inr miss ↦ rw miss refl
    ]

abbrev key_upsert : UpsertQuery Val
key_upsert = record users_upsert { update_columns = []; conflict_columns = name ∷ [] }
