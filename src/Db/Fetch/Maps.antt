-- ===== src/Db/Fetch/Maps.antt =====
-- internal/core/nullmap.go, and how a row becomes a `NullStringMap`.
use relica.Prelude.{Bool, true, not, if◌then◌else◌, List, [], ◌∷◌, Option, none, some, is_some}
use relica.Prelude.Maps.{text_eq, text_eq→≡, text_eq_refl}
use relica.Prelude.Maps
use relica.Text.{Text}

-- `NullStringMap`, whose values are texts or NULL.
abbrev pub NullStringMap : Type 0
NullStringMap = List (Text × Option Text)

-- `v, ok := m[key]`.
abbrev pub get : Text → NullStringMap → Option (Option Text)
get k m = Maps.lookup k m

-- `m[key] = v`.
unfoldable pub put : Text → Option Text → NullStringMap → NullStringMap
put k v [] = (k, v) ∷ []
put k v ((j, w) ∷ m) = if text_eq j k then (j, v) ∷ m else (j, w) ∷ put k v m

-- The loop over the columns, into a map.
unfoldable pub fill : NullStringMap → List Text → List (Option Text) → NullStringMap
fill m (c ∷ cs) (v ∷ vs) = fill (put c v m) cs vs
fill m (c ∷ cs) [] = m
fill m [] vs = m

unfoldable pub row_map : List Text → List (Option Text) → NullStringMap
unfolding fill
row_map columns values = fill [] columns values

-- `Has`.
unfoldable pub has : Text → NullStringMap → Bool
has k m = is_some (get k m)

-- `IsNull`.
unfoldable pub is_null : Text → NullStringMap → Bool
is_null k m = elim (get k m) [ none ↦ true | some v ↦ not (is_some v) ]

-- `String`.
unfoldable pub string : Text → NullStringMap → Text
string k m = elim (get k m) [ none ↦ [] | some v ↦ elim v [ none ↦ [] | some s ↦ s ] ]

-- `Keys`.
abbrev pub keys : NullStringMap → List Text
keys m = Maps.keys m
