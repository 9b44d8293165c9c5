-- ===== src/Query/Select/Clauses.antt =====
-- The clauses of a SELECT: the `build` helpers of `SelectQuery` in internal/core/builder.go.
use relica.Prelude.{
  ℕ, ◌==◌, Bool, true, ◌&&◌, ◌||◌, List, [], ◌∷◌, ◌++◌, map, if◌then◌else◌, Option, none, some,
}
use relica.Prelude.Ints.{ℤ}
use relica.Prelude.Maps.{text_eq}
use relica.Text.{Text, codes, join, contains_char}
use relica.Text.Fields.{fields, to_upper, print_int}
use relica.Dialect.{Dialect, quote_identifier, quote_column, open_paren}
use relica.Exp.{Expression}
use relica.Exp.Compare.{RawExp}
use relica.Params.{is_word}
use relica.Query.Select.{SelectQuery, SubExprEntry}

-- `buildTableWithAlias`: two words are a table and its alias.
table_of : List Text → Text → Dialect → Text
table_of (table ∷ alias ∷ []) whole d =
    quote_column table d ++ (codes " AS " ++ quote_identifier d alias)
table_of [] whole d = quote_column whole d
table_of (a ∷ []) whole d = quote_column whole d
table_of (a ∷ b ∷ c ∷ ws) whole d = quote_column whole d

unfoldable pub table_with_alias : Text → Dialect → Text
unfolding table_of
table_with_alias table d = table_of (fields table) table d

-- `\s` and `[\w\-.]`.
abbrev is_regex_space : ℕ → Bool
is_regex_space c = c == 9 || (c == 10 || (c == 12 || (c == 13 || c == 32)))

abbrev is_alias_char : ℕ → Bool
is_alias_char c = is_word c || (c == b'-' || c == b'.')

all_alias : Text → Bool
all_alias [] = true
all_alias (c ∷ s) = is_alias_char c && all_alias s

drop_spaces : Text → Text
drop_spaces [] = []
drop_spaces (c ∷ s) = if is_regex_space c then drop_spaces s else c ∷ s

-- What is behind one or more spaces.
behind_spaces : Text → Option Text
unfolding drop_spaces
behind_spaces [] = none
behind_spaces (c ∷ s) = if is_regex_space c then some (drop_spaces s) else none

alias_end : Text → Option Text
unfolding all_alias
alias_end [] = none
alias_end (c ∷ s) = if all_alias (c ∷ s) then some (c ∷ s) else none

-- What is behind the word AS in any case; U+017F is a form of S for the regular expression too.
behind_as : Text → Option Text
behind_as [] = none
behind_as (a ∷ []) = none
behind_as (a ∷ b ∷ s) = if to_upper a == b'A' && to_upper b == b'S' then some s else none

-- A match of `(?i)\s+AS\s+([\w\-.]+)$` at the front: the alias.
alias_at : Text → Option Text
unfolding behind_spaces behind_as alias_end
alias_at s = elim (behind_spaces s) [
  | none ↦ none
  | some t ↦ elim (behind_as t) [
    | none ↦ none
    | some u ↦ elim (behind_spaces u) [ none ↦ none | some v ↦ alias_end v ]
  ]
]

-- `selectAliasRegex` on a column: the text before the leftmost match, and the alias.
split_alias : Text → Option (Text × Text)
unfolding alias_at
split_alias [] = none
split_alias (c ∷ s) = elim (alias_at (c ∷ s)) [
  | some alias ↦ some ([], alias)
  | none ↦ elim (split_alias s) [ none ↦ none | some (col, alias) ↦ some (c ∷ col, alias) ]
]

-- `formatSelectColumn`.
unfoldable pub format_select_column : Text → Dialect → Text
unfolding split_alias
format_select_column col d =
    if text_eq col (codes "*")
    then codes "*"
    else if contains_char open_paren col
    then col
    else elim (split_alias col) [
      | none ↦ quote_column col d
      | some (part, alias) ↦ quote_column part d ++ (codes " AS " ++ quote_identifier d alias)
    ]

-- A field of ORDER BY: the column, and a direction if it is one.
order_field : List Text → Dialect → List Text
order_field [] d = []
order_field (col ∷ []) d = quote_column col d ∷ []
order_field (col ∷ dir ∷ ws) d =
    let direction = map to_upper dir in
    if text_eq direction (codes "ASC") || text_eq direction (codes "DESC")
    then (quote_column col d ++ codes " " ++ direction) ∷ []
    else quote_column col d ∷ []

order_fields : List Text → Dialect → List Text
unfolding order_field
order_fields [] d = []
order_fields (col ∷ cols) d = order_field (fields col) d ++ order_fields cols d

unfoldable pub headed : Text → List Text → Text
headed head [] = []
headed head (p ∷ ps) = head ++ join (codes ", ") (p ∷ ps)

unfoldable pub print_limit : Option ℤ → Option ℤ → Text
print_limit (some n) offset = codes " LIMIT " ++ print_int n
print_limit none none = []
print_limit none (some n) = codes " LIMIT 9223372036854775807"

unfoldable pub print_offset : Option ℤ → Text
print_offset none = []
print_offset (some n) = codes " OFFSET " ++ print_int n

columns_or_star : List Text → Text
columns_or_star [] = codes "*"
columns_or_star (p ∷ ps) = join (codes ", ") (p ∷ ps)

module _ {V : Type 0} where
  raw_sqls : List (RawExp V) → List Text
  raw_sqls [] = []
  raw_sqls (e ∷ es) = e.sql ∷ raw_sqls es

  built_sqls : Dialect → List (Expression V) → List Text
  built_sqls d [] = []
  built_sqls d (e ∷ es) = (e d).0 ∷ built_sqls d es

  -- The parameters of raw expressions, and of expressions that are built for them alone.
  unfoldable pub raw_args : List (RawExp V) → List V
  raw_args [] = []
  raw_args (e ∷ es) = e.args ++ raw_args es

  unfoldable pub built_args : Dialect → List (Expression V) → List V
  built_args d [] = []
  built_args d (e ∷ es) = (e d).1 ++ built_args d es

  -- `buildOrderBy`.
  unfoldable pub build_order_by : Dialect → SelectQuery V → Text
  unfolding headed order_fields raw_sqls built_sqls
  build_order_by d q = headed (codes " ORDER BY ") (
      order_fields q.order_by d ++ (raw_sqls q.order_by_exprs ++ built_sqls d q.sub_order_by_exprs))

  -- `buildGroupBy`.
  unfoldable pub build_group_by : Dialect → SelectQuery V → Text
  unfolding headed raw_sqls built_sqls
  build_group_by d q = headed (codes " GROUP BY ") (
      map (λ col. quote_column col d) q.group_by
      ++ (raw_sqls q.group_by_exprs ++ built_sqls d q.sub_group_by_exprs))

  -- `buildLimitOffset`.
  unfoldable pub build_limit_offset : SelectQuery V → Text
  unfolding print_limit print_offset
  build_limit_offset q = print_limit q.limit_value q.offset_value ++ print_offset q.offset_value

  rendered_subs : Dialect → List (SubExprEntry V) → List Text → List Text
  rendered_subs d [] rendered = []
  rendered_subs d (e ∷ es) [] =
      (codes "() AS " ++ quote_identifier d e.alias) ∷ rendered_subs d es []
  rendered_subs d (e ∷ es) (r ∷ rs) =
      (codes "(" ++ (r ++ (codes ") AS " ++ quote_identifier d e.alias))) ∷ rendered_subs d es rs

  -- `buildSelect`, with the rendered `SelectSub` expressions.
  unfoldable pub build_select : Dialect → List Text → SelectQuery V → Text
  unfolding rendered_subs columns_or_star raw_sqls
  build_select d rendered q =
      let columns = columns_or_star (
        map (λ col. format_select_column col d) q.columns
        ++ (raw_sqls q.select_exprs ++ rendered_subs d q.sub_exprs rendered)) in
      if q.distinct then codes "DISTINCT " ++ columns else columns
