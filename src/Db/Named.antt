-- ===== src/Db/Named.antt =====
-- internal/core/params.go: `processSQL`, `quoteIdentifier`, and `BindParams` of a query.
pub mod Bound
use relica.Prelude.{
  ℕ, zero, suc, ◌+◌, ◌==◌, Bool, true, false, ◌&&◌, ◌||◌, not, if◌then◌else◌, List, [], ◌∷◌, ◌++◌,
  map, Option, none, some, length,
}
use relica.Text.{Text, contains_char, split, join}
use relica.Text.Trim.{trim_space}
use relica.Dialect.{Dialect, placeholder, quote_identifier, quote_column, dot}
use relica.Params.{Piece, plain, named, scan, names, is_word, bind_params}
use relica.Db.{DbQuery, Failure, missing_parameter}

-- Step 1 of `processSQL`: the i-th named placeholder becomes `Placeholder(i)`, from `k` on.
abbrev pub with_placeholders : Dialect → ℕ → List Piece → Text
with_placeholders d k [] = []
with_placeholders d k (plain c ∷ ps) = c ∷ with_placeholders d k ps
with_placeholders d k (named n ∷ ps) = placeholder d k ++ with_placeholders d (suc k) ps

-- `quoteIdentifier` of a `DB`.
unfoldable pub quote_name : Dialect → Text → Text
quote_name d identifier =
    let id = trim_space identifier in
    if contains_char dot id
    then quote_column (join (dot ∷ []) (map trim_space (split dot id))) d
    else quote_identifier d id

-- `[\w\-. ]`.
abbrev pub is_name_char : ℕ → Bool
is_name_char c = is_word c || (c == b'-' || (c == b'.' || c == b' '))

-- The longest run of such characters, if the closing character stands twice behind it.
unfoldable pub read_name : ℕ → Text → Option Text
read_name close [] = none
read_name close (c ∷ []) = none
read_name close (c ∷ x ∷ s) = elim (is_name_char c) [
  | true ↦ elim (read_name close (x ∷ s)) [ none ↦ none | some w ↦ some (c ∷ w) ]
  | false ↦ if c == close && x == close then some [] else none
]

unfoldable pub some_name : Option Text → Option Text
some_name none = none
some_name (some []) = none
some_name (some (c ∷ w)) = some (c ∷ w)

-- A match of `quoteRegex` at the front: the name.
unfoldable pub match_mark : Text → Option Text
unfolding read_name some_name
match_mark [] = none
match_mark (a ∷ []) = none
match_mark (a ∷ b ∷ s) =
    if a == b'{' && b == b'{'
    then some_name (read_name b'}' s)
    else if a == b'[' && b == b'['
    then some_name (read_name b']' s)
    else none

-- Step 2: `{{name}}` and `[[name]]` are quoted. The number counts the characters of a match still
-- to be passed over.
unfoldable pub quote_from : Dialect → ℕ → Text → Text
unfolding match_mark quote_name
quote_from d k [] = []
quote_from d (suc k) (c ∷ s) = quote_from d k s
quote_from d zero (c ∷ s) = elim (match_mark (c ∷ s)) [
  | none ↦ c ∷ quote_from d zero s
  | some name ↦ quote_name d name ++ quote_from d (length name + 3) s
]

unfoldable pub quote_marks : Dialect → Text → Text
unfolding quote_from
quote_marks d s = quote_from d 0 s

-- `processSQL`.
unfoldable pub process_sql : Dialect → Text → Text × List Text
unfolding quote_marks scan
process_sql d sql = (quote_marks d (with_placeholders d 1 (scan sql)), names (scan sql))

-- The name in the error of `bindParams`.
unfoldable pub first_missing : {V : Type 0} → List (Text × V) → List Text → Text
first_missing p [] = []
first_missing p (n ∷ ns) = elim (relica.Prelude.Maps.lookup n p) [
  | none ↦ n
  | some v ↦ first_missing p ns
]

module _ {S X E V : Type 0} where
  -- `BindParams`.
  unfoldable pub bind_named : Dialect → List (Text × V) → DbQuery S X E V → DbQuery S X E V
  unfolding process_sql bind_params first_missing
  bind_named d p q =
      let (sql, ns) = process_sql d q.sql in
      elim (bind_params p ns) [
        | none ↦ record q { sql = sql; prep_err = some (missing_parameter (first_missing p ns)) }
        | some vs ↦ record q { sql = sql; params = vs }
      ]
