-- ===== src/Dialect.antt =====
-- internal/dialects: quoting, placeholders and the conflict clause of the three built-in
-- dialects, the registry of dialects by driver name, and `quoteColumn` of
-- internal/core/expression.go.
mod Tests
pub mod Quote
pub mod Holes
use relica.Prelude.{
  ℕ, suc, ◌+◌, ◌≡◌, if◌then◌else◌, Bool, not, List, [], ◌∷◌, ◌++◌, Option, none, some, map,
}
use relica.Text.{Text, codes, text_eq, contains_char, join, replace_char, split, question}
use relica.Text.Decimal.{decimal}

pub data Dialect : Type 0 where
  postgres mysql sqlite : Dialect

-- The character around an identifier.
abbrev pub quote_char : Dialect → ℕ
quote_char postgres = b'"'
quote_char mysql = b'`'
quote_char sqlite = b'"'

-- `strings.ReplaceAll(s, "\x00", "")`.
abbrev pub strip_nul : Text → Text
strip_nul s = replace_char 0 [] s

-- `QuoteIdentifier` with the dialect's quote.
abbrev pub quote_with : ℕ → Text → Text
quote_with q s = q ∷ (replace_char q (q ∷ q ∷ []) (strip_nul s) ++ q ∷ [])

unfoldable pub quote_identifier : Dialect → Text → Text
quote_identifier postgres s = quote_with b'"' s
quote_identifier mysql s = quote_with b'`' s
quote_identifier sqlite s = quote_with b'"' s

unfoldable pub placeholder : Dialect → ℕ → Text
placeholder postgres index = codes "$" ++ decimal index
placeholder mysql index = codes "?"
placeholder sqlite index = codes "?"

-- The test `dialect.Placeholder(1) != "?"` by which the builders choose numbered placeholders.
unfoldable pub is_numbered : Dialect → Bool
unfolding placeholder
is_numbered d = not (text_eq (placeholder d 1) (codes "?"))

comma : Text
comma = codes ", "

-- `buildUpdateSet` of postgres.go, and the loops of the other two dialects.
update_set : Dialect → List Text → Text
unfolding comma
update_set postgres cols = join comma (map (λ col. col ++ (codes " = EXCLUDED." ++ col)) cols)
update_set mysql cols =
    join comma (map (λ col. col ++ (codes " = VALUES(" ++ (col ++ codes ")"))) cols)
update_set sqlite cols = join comma (map (λ col. col ++ (codes " = excluded." ++ col)) cols)

do_nothing : List Text → Text
unfolding comma
do_nothing [] = codes " ON CONFLICT DO NOTHING"
do_nothing (c ∷ cs) = codes " ON CONFLICT (" ++ (join comma (c ∷ cs) ++ codes ") DO NOTHING")

-- `updateCols == nil` is `none`: DO NOTHING.
unfoldable pub upsert_sql : Dialect → Text → List Text → Option (List Text) → Text
unfolding update_set do_nothing comma
upsert_sql postgres table conflict none = do_nothing conflict
upsert_sql postgres table conflict (some cols) =
    codes " ON CONFLICT ("
    ++ (join comma conflict ++ (codes ") DO UPDATE SET " ++ update_set postgres cols))
upsert_sql mysql table conflict none = []
upsert_sql mysql table conflict (some cols) =
    codes " ON DUPLICATE KEY UPDATE " ++ update_set mysql cols
upsert_sql sqlite table conflict none = do_nothing conflict
upsert_sql sqlite table conflict (some cols) =
    codes " ON CONFLICT ("
    ++ (join comma conflict ++ (codes ") DO UPDATE SET " ++ update_set sqlite cols))

-- The package's map of dialects, and its two operations. `none` is the panic of `GetDialect`.
abbrev pub Registry : Type 0
Registry = List (Text × Dialect)

pub register_dialect : Text → Dialect → Registry → Registry
register_dialect name d [] = (name, d) ∷ []
register_dialect name d ((n, e) ∷ r) =
    if text_eq n name then (name, d) ∷ r else (n, e) ∷ register_dialect name d r

pub get_dialect : Text → Registry → Option Dialect
get_dialect name [] = none
get_dialect name ((n, d) ∷ r) = if text_eq n name then some d else get_dialect name r

-- The three `init` functions.
pub built_in : Registry
unfolding register_dialect
built_in = register_dialect (codes "sqlite3") sqlite (
    register_dialect (codes "sqlite") sqlite (
      register_dialect (codes "pgx") postgres (
        register_dialect (codes "postgresql") postgres (
          register_dialect (codes "postgres") postgres
            (register_dialect (codes "mysql") mysql [])))))

abbrev pub dot : ℕ
dot = b'.'

abbrev pub open_paren : ℕ
open_paren = b'('

-- `quoteColumn`.
unfoldable pub quote_column : Text → Dialect → Text
quote_column col d =
    if contains_char open_paren col
    then col
    else if contains_char dot col
    then join (dot ∷ []) (map (quote_identifier d) (split dot col))
    else quote_identifier d col
