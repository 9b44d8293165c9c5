-- ===== src/Model/Tests.antt =====
-- Models on examples.
use relica.Prelude.{
  ℕ, ◌≡◌, ◌↔◌, refl, Bool, true, false, ◌==◌, List, [], ◌∷◌, Option, none, some, arith,
}
use relica.Prelude.Ints.{pos, negsuc}
use relica.Text.{Text, codes, split}
use relica.Text.Trim.{trim_space}
use relica.Dialect.{postgres, sqlite}
use relica.Exp.Values.{Val, dynamic_val, num}
use relica.Prelude.Maps.{sorted_keys}
use relica.Prelude.Sort.{sort_texts}
use relica.Text.Decimal.{decimal}
use relica.Dialect.{quote_identifier, quote_column, placeholder, is_numbered}
use relica.Exp.Compare.{build_compare}
use relica.Query.Update.{build_update}
use relica.Query.{Query, built, where_view, where_clause, renumber}
use relica.Model.{Field, find_primary_keys, struct_to_map, filter_fields}
use relica.Model.Number.{
  signed, unsigned, pointer, w8, w16, IsStored, set_primary_key_value,
  set_primary_key_value-IsStored, set_primary_key_value-succeeds, IsSigned, IsUnsigned,
}
use relica.Model.Statement.{
  Outcome, ModelQuery, ok, fails, nothing_to_do, update_of, update_model, where_keys,
}

abbrev same_number : Val → Val → Bool
same_number (num m) (num n) = m == n
same_number v w = false

abbrev field : Text → Option Text → ℕ → Field Val
field name tag n = record { name = name; exported = true; tag = tag; value = num n }

-- A row of an order, with a key of two columns.
abbrev order_item : List (Field Val)
order_item =
    field (codes "OrderID") (some (codes "order_id,pk")) 7
    ∷ field (codes "Line") (some (codes "line, pk")) 2
    ∷ field (codes "Amount") (some (codes "amount")) 5
    ∷ field (codes "Cache") (some (codes "-")) 1
    ∷ []

abbrev items : ModelQuery Val
items = record { table = codes "items"; fields = order_item; exclude = [] }

keys_found : find_primary_keys order_item ≡ (codes "order_id", num 7) ∷ (codes "line", num 2) ∷ []
unfolding find_primary_keys split trim_space
keys_found = refl

updated :
    update_of postgres (codes "items") (find_primary_keys order_item) ((codes "amount", num 5) ∷ [])
    ≡ record {
      sql = codes "UPDATE \"items\" SET \"amount\" = $1 WHERE \"order_id\" = $2 AND \"line\" = $3";
      params = num 5 ∷ num 7 ∷ num 2 ∷ [];
      prep_err = none;
    }
unfolding find_primary_keys split trim_space where_keys where_view build_compare build_update
    where_clause renumber is_numbered placeholder decimal quote_identifier quote_column sorted_keys
    sort_texts
updated = refl

set_values_found :
    filter_fields [] [] (struct_to_map order_item)
    ≡ (codes "order_id", num 7) ∷ (codes "line", num 2) ∷ (codes "amount", num 5) ∷ []
unfolding filter_fields struct_to_map split trim_space
set_values_found = refl

-- A field `ID` without a tag has the column `id` as a key, but `ID` in the map: it is set by
-- `Update`, and a zero is not left out by `Insert`.
untagged_id :
    update_model sqlite
      (record { table = codes "t"; fields = field (codes "ID") none 3 ∷ []; exclude = [] })
      []
    ≡ ok (update_of sqlite (codes "t") ((codes "id", num 3) ∷ []) ((codes "ID", num 3) ∷ []))
unfolding update_model find_primary_keys filter_fields struct_to_map
untagged_id = refl

-- Likewise `db:"pk"`: the key is the field's name, the map has `pk`.
legacy_tag :
    update_model sqlite
      (record {
        table = codes "t";
        fields = field (codes "Code") (some (codes "pk")) 3 ∷ [];
        exclude = [];
      })
      []
    ≡ ok (update_of sqlite (codes "t") ((codes "code", num 3) ∷ []) ((codes "pk", num 3) ∷ []))
unfolding update_model find_primary_keys filter_fields struct_to_map split trim_space
legacy_tag = refl

abbrev query_of : Outcome (Query Val) → Query Val
query_of (ok r) = r
query_of (fails e) = built [] []
query_of nothing_to_do = built [] []

set_primary_key_value-IsStored_example :
    IsStored
      (pos 300)
      (set_primary_key_value (pointer (unsigned w16 5)) (pos 300)).0
      (set_primary_key_value (pointer (unsigned w16 5)) (pos 300)).1
set_primary_key_value-IsStored_example =
    set_primary_key_value-IsStored (pointer (unsigned w16 5)) (pos 300) (omega arith) (omega arith)

set_primary_key_value-succeeds_example :
    (((set_primary_key_value (signed w8 (pos 0)) (negsuc 127)).0 ≡ true) ↔ IsSigned w8 (negsuc 127))
    × (((set_primary_key_value (unsigned w8 0) (negsuc 127)).0 ≡ true) ↔ IsUnsigned w8 (negsuc 127))
set_primary_key_value-succeeds_example =
    set_primary_key_value-succeeds w8 0 (negsuc 127) (omega arith)
