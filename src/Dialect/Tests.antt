-- ===== src/Dialect/Tests.antt =====
-- Quoting on examples.
use relica.Prelude.{arith, ◌≡◌, refl, false, List, [], ◌∷◌, ◌++◌, some, map, length, All}
use relica.Text.{Text, codes, join, contains_char}
use relica.Dialect.{postgres, mysql, strip_nul, quote_char, quote_identifier, quote_column, dot}
use relica.Dialect.Quote.{
  read_identifier, read_path, read_identifier-quote_identifier, read_path-quote_column,
}

abbrev hostile : Text
hostile = codes "a\"; DROP TABLE b; --"

read_identifier-quote_identifier_example :
    read_identifier (quote_char postgres) (quote_identifier postgres hostile ++ codes " = 1")
    ≡ some (strip_nul hostile, codes " = 1")
read_identifier-quote_identifier_example =
    read_identifier-quote_identifier postgres hostile (codes " = 1") (λ h. omega arith)

read_path-quote_column_example :
    (parts : List Text) × (join (dot ∷ []) parts ≡ codes "app.`users")
    × All (λ p. contains_char dot p ≡ false) parts
    × (read_path
          (length parts)
          (quote_char mysql)
          (quote_column (codes "app.`users") mysql ++ codes " = 1")
        ≡ some (map strip_nul parts, codes " = 1"))
read_path-quote_column_example =
    read_path-quote_column mysql (codes "app.`users") (codes " = 1") refl (λ h. omega arith)
      (λ h. omega arith)
