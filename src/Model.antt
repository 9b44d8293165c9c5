-- ===== src/Model.antt =====
-- internal/util/reflection.go and internal/core/model_query.go: what models become. A struct is
-- the list of its fields as `reflect` shows them.
mod Tests
pub mod Changed
pub mod Number
pub mod Statement
pub mod Restricted
use relica.Prelude.{
  ℕ, ◌+◌, ◌==◌, Bool, true, false, not, ◌&&◌, ◌||◌, List, [], ◌∷◌, ◌++◌, if◌then◌else◌, Option,
  none, some, map, length, leb, ltb, is_some,
}
use relica.Prelude.Maps.{text_eq, lookup, keys}
use relica.Text.{Text, codes, split}
use relica.Text.Trim.{trim_space}

-- `reflect.StructField` with the field's value: its name, whether it is exported, and what
-- `Tag.Lookup("db")` returns.
pub record Field (V : Type 0) : Type 0 where
  pub name : Text
  pub exported : Bool
  pub tag : Option Text
  pub value : V

abbrev comma : ℕ
comma = b','

-- `parts[0]`, and `parts[1:]`; `strings.Split` is never empty.
abbrev first_part : List Text → Text
first_part [] = []
first_part (p ∷ ps) = p

abbrev other_parts : List Text → List Text
other_parts [] = []
other_parts (p ∷ ps) = ps

abbrev has_pk : List Text → Bool
has_pk [] = false
has_pk (p ∷ ps) = if text_eq (trim_space p) (codes "pk") then true else has_pk ps

-- `parseDBTag`: the column, and whether it is marked as primary key.
unfoldable pub parse_db_tag : Text → Text × Bool
parse_db_tag tag =
    let parts = split comma tag in
    let column = trim_space (first_part parts) in
    (column, has_pk (other_parts parts) || text_eq column (codes "pk"))

abbrev skip_column : Text
skip_column = codes "-"

-- `exclude[k]`.
abbrev pub contains : Text → List Text → Bool
contains k [] = false
contains k (x ∷ xs) = if text_eq x k then true else contains k xs

-- `strings.ToLower`, for ASCII.
abbrev pub lower : Text → Text
lower s = map (λ (c : ℕ). if leb b'A' c && leb c b'Z' then c + 32 else c) s

module _ {V : Type 0} where
  -- `m[k] = v`.
  abbrev pub put : Text → V → List (Text × V) → List (Text × V)
  put k v [] = (k, v) ∷ []
  put k v ((j, w) ∷ m) = if text_eq j k then (j, v) ∷ m else (j, w) ∷ put k v m

  -- `delete(m, k)`.
  abbrev pub delete_key : Text → List (Text × V) → List (Text × V)
  delete_key k [] = []
  delete_key k ((j, w) ∷ m) = if text_eq j k then delete_key k m else (j, w) ∷ delete_key k m

  abbrev pub delete_keys : List Text → List (Text × V) → List (Text × V)
  delete_keys [] m = m
  delete_keys (k ∷ ks) m = delete_keys ks (delete_key k m)

  -- The column of a field in `StructToMap`; none for `db:"-"` and for a field not exported.
  unfoldable pub column_of : Field V → Option Text
  unfolding parse_db_tag
  column_of f =
      if f.exported
      then elim f.tag [
        | none ↦ some f.name
        | some t ↦ if text_eq (parse_db_tag t).0 skip_column then none else some (parse_db_tag t).0
      ]
      else none

  map_from : List (Text × V) → List (Field V) → List (Text × V)
  map_from m [] = m
  map_from m (f ∷ fs) = elim (column_of f) [
    | none ↦ map_from m fs
    | some c ↦ map_from (put c f.value m) fs
  ]

  -- `StructToMap` of a struct.
  unfoldable pub struct_to_map : List (Field V) → List (Text × V)
  unfolding map_from column_of
  struct_to_map fs = map_from [] fs

  -- A field marked as primary key in its tag, with its column.
  unfoldable pub tagged_key : Field V → Option (Text × V)
  unfolding parse_db_tag
  tagged_key f =
      if f.exported
      then elim f.tag [
        | none ↦ none
        | some t ↦
            let (c, is_pk) = parse_db_tag t in
            if is_pk && not (text_eq c skip_column || text_eq c (codes "pk"))
            then some (c, f.value)
            else none
      ]
      else none

  -- `db:"pk"`: the column is the field's name in small letters.
  unfoldable pub legacy_key : Field V → Option (Text × V)
  unfolding parse_db_tag
  legacy_key f =
      if f.exported
      then elim f.tag [
        | none ↦ none
        | some t ↦
            if text_eq (parse_db_tag t).0 (codes "pk") then some (lower f.name, f.value) else none
      ]
      else none

  -- The field `ID`; its column is the tag's, if there is one that is not empty.
  unfoldable pub id_key : Field V → Option (Text × V)
  unfolding parse_db_tag
  id_key f =
      if f.exported && text_eq f.name (codes "ID")
      then elim f.tag [
        | none ↦ some (codes "id", f.value)
        | some t ↦
            if text_eq (parse_db_tag t).0 skip_column
            then none
            else some (if text_eq t [] then codes "id" else (parse_db_tag t).0, f.value)
      ]
      else none

  -- The field `Id`, which counts without a tag alone.
  unfoldable pub id_case_key : Field V → Option (Text × V)
  id_case_key f =
      if f.exported && (text_eq f.name (codes "Id") && not (is_some f.tag))
      then some (codes "id", f.value)
      else none

  abbrev pub select : (Field V → Option (Text × V)) → List (Field V) → List (Text × V)
  select g [] = []
  select g (f ∷ fs) = elim (g f) [ none ↦ select g fs | some p ↦ p ∷ select g fs ]

  -- The last one: each hit of the loop overwrites the one before.
  abbrev pub last_of : List (Text × V) → List (Text × V)
  last_of [] = []
  last_of (p ∷ []) = p ∷ []
  last_of (p ∷ q ∷ ps) = last_of (q ∷ ps)

  abbrev pub or_else : List (Text × V) → List (Text × V) → List (Text × V)
  or_else [] qs = qs
  or_else (p ∷ ps) qs = p ∷ ps

  -- `FindPrimaryKeyFields` of a struct: the columns and values in the order of declaration; none
  -- for its error.
  unfoldable pub find_primary_keys : List (Field V) → List (Text × V)
  unfolding tagged_key legacy_key id_key id_case_key
  find_primary_keys fs = or_else (select tagged_key fs) (
      or_else (last_of (select legacy_key fs))
        (or_else (last_of (select id_key fs)) (last_of (select id_case_key fs))))

  -- The loop of `filterFields` over the fields asked for.
  only_fields : List Text → List Text → List (Text × V) → List (Text × V) → List (Text × V)
  only_fields exclude [] m result = result
  only_fields exclude (k ∷ ks) m result = elim (lookup k m) [
    | none ↦ only_fields exclude ks m result
    | some v ↦ only_fields exclude ks m (if contains k exclude then result else put k v result)
  ]

  all_fields : List Text → List (Text × V) → List (Text × V)
  all_fields exclude [] = []
  all_fields exclude ((k, v) ∷ m) =
      if contains k exclude then all_fields exclude m else (k, v) ∷ all_fields exclude m

  -- `filterFields`.
  unfoldable pub filter_fields : List Text → List Text → List (Text × V) → List (Text × V)
  unfolding only_fields all_fields
  filter_fields [] exclude m = all_fields exclude m
  filter_fields (k ∷ ks) exclude m = only_fields exclude (k ∷ ks) m []
