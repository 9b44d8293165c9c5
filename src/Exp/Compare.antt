-- ===== src/Exp/Compare.antt =====
-- `RawExp`, `CompareExp` and `ColumnCompareExp` of internal/core/expression.go.
use relica.Prelude.{◌≡◌, List, [], ◌∷◌, ◌++◌, if◌then◌else◌, arith}
use relica.Text.{Text, codes, text_eq, question}
use relica.Text.Counts.{count-append}
use relica.Dialect.{Dialect, quote_column}
use relica.Dialect.Holes.{holes, holes-quote_column}
use relica.Exp.{
  Expression, View, nil, text, params, slice, exp, query, other, Dynamic, view_of, IsBalanced,
  IsBalancedView, IsBalancedValue,
}

pub record RawExp (V : Type 0) : Type 0 where
  pub sql : Text
  pub args : List V

pub record CompareExp (V : Type 0) : Type 0 where
  pub col : Text
  pub operator : Text
  pub value : V

pub record ColumnCompareExp : Type 0 where
  pub col1 : Text
  pub col2 : Text
  pub operator : Text

abbrev pub eq_op : Text
eq_op = codes "="

abbrev pub ne_op : Text
ne_op = codes "<>"

module _ {V : Type 0} where
  -- `NewExp`, and `(*RawExp).Build`, which does not look at the dialect.
  pub new_exp : Text → List V → RawExp V
  new_exp sql args = record { sql = sql; args = args }

  unfoldable pub build_raw : RawExp V → Expression V
  build_raw e d = (e.sql, e.args)

  abbrev pub eq : Text → V → CompareExp V
  eq col value = record { col = col; operator = eq_op; value = value }

  abbrev pub not_eq : Text → V → CompareExp V
  not_eq col value = record { col = col; operator = ne_op; value = value }

  abbrev pub greater_than : Text → V → CompareExp V
  greater_than col value = record { col = col; operator = codes ">"; value = value }

  abbrev pub less_than : Text → V → CompareExp V
  less_than col value = record { col = col; operator = codes "<"; value = value }

  abbrev pub greater_or_equal : Text → V → CompareExp V
  greater_or_equal col value = record { col = col; operator = codes ">="; value = value }

  abbrev pub less_or_equal : Text → V → CompareExp V
  less_or_equal col value = record { col = col; operator = codes "<="; value = value }

  -- The steps of `(*CompareExp).Build` behind the test for NULL.
  compare_with : Text → Text → V → View V → Dialect → Text × List V
  compare_with col op v (exp build) d =
      let (sql, args) = build d in
      (col ++ (codes " " ++ (op ++ (codes " (" ++ (sql ++ codes ")")))), args)
  compare_with col op v other_value d = (col ++ (codes " " ++ (op ++ codes " ?")), v ∷ [])

  compare_null : Text → Text → V → Dialect → Text × List V
  unfolding compare_with
  compare_null col op v d =
      if text_eq op eq_op
      then (col ++ codes " IS NULL", [])
      else if text_eq op ne_op
      then (col ++ codes " IS NOT NULL", [])
      else compare_with col op v nil d

  compare_view : Text → Text → V → View V → Dialect → Text × List V
  unfolding compare_null
  compare_view col op v nil d = compare_null col op v d
  compare_view col op v other_view d = compare_with col op v other_view d

unfoldable pub build_compare : {V : Type 0} ⦃dyn : Dynamic V⦄ → CompareExp V → Expression V
unfolding compare_view
build_compare e d = compare_view (quote_column e.col d) e.operator e.value (view_of e.value) d

abbrev pub eq_col : Text → Text → ColumnCompareExp
eq_col col1 col2 = record { col1 = col1; col2 = col2; operator = eq_op }

abbrev pub not_eq_col : Text → Text → ColumnCompareExp
not_eq_col col1 col2 = record { col1 = col1; col2 = col2; operator = ne_op }

abbrev pub greater_than_col : Text → Text → ColumnCompareExp
greater_than_col col1 col2 = record { col1 = col1; col2 = col2; operator = codes ">" }

abbrev pub less_than_col : Text → Text → ColumnCompareExp
less_than_col col1 col2 = record { col1 = col1; col2 = col2; operator = codes "<" }

unfoldable pub build_column_compare : {V : Type 0} → ColumnCompareExp → Expression V
build_column_compare e d = (
  quote_column e.col1 d ++ (codes " " ++ (e.operator ++ (codes " " ++ quote_column e.col2 d))),
  [],
)

module _ {V : Type 0} where
  compare_with-IsBalanced :
      (col op : Text) (v : V) (w : View V) (d : Dialect)
      → holes col ≡ 0
      → holes op ≡ 0
      → IsBalancedView d w
      → IsBalanced (compare_with col op v w d)
  unfolding compare_with
  compare_with-IsBalanced col op v (exp build) d h k b = omega (
    arith,
    count-append question col (codes " " ++ (op ++ (codes " (" ++ ((build d).0 ++ codes ")")))),
    count-append question op (codes " (" ++ ((build d).0 ++ codes ")")),
    count-append question (build d).0 (codes ")"),
  )
  compare_with-IsBalanced col op v _ d h k b = omega (
    arith,
    count-append question col (codes " " ++ (op ++ codes " ?")),
    count-append question op (codes " ?"),
  )

  compare_null-IsBalanced :
      (col op : Text) (v : V) (d : Dialect)
      → holes col ≡ 0
      → holes op ≡ 0
      → IsBalanced (compare_null col op v d)
  unfolding compare_null
  compare_null-IsBalanced col op v d h k = ground (
    arith,
    count-append question col (codes " IS NULL"),
    count-append question col (codes " IS NOT NULL"),
    compare_with-IsBalanced col op v nil d h k tt,
  )

  compare_view-IsBalanced :
      (col op : Text) (v : V) (w : View V) (d : Dialect)
      → holes col ≡ 0
      → holes op ≡ 0
      → IsBalancedView d w
      → IsBalanced (compare_view col op v w d)
  unfolding compare_view
  compare_view-IsBalanced col op v nil d h k b = compare_null-IsBalanced col op v d h k
  compare_view-IsBalanced col op v (exp build) d h k b =
      compare_with-IsBalanced col op v (exp build) d h k b
  compare_view-IsBalanced col op v (query build) d h k b =
      compare_with-IsBalanced col op v (query build) d h k b
  compare_view-IsBalanced col op v (text s) d h k b =
      compare_with-IsBalanced col op v (text s) d h k b
  compare_view-IsBalanced col op v (params p) d h k b =
      compare_with-IsBalanced col op v (params p) d h k b
  compare_view-IsBalanced col op v (slice vs) d h k b =
      compare_with-IsBalanced col op v (slice vs) d h k b
  compare_view-IsBalanced col op v other d h k b = compare_with-IsBalanced col op v other d h k b

-- A comparison has one `?` for each parameter, on every branch: the two NULL tests have neither,
-- a nested expression keeps its own. The column and the operator hold no `?`, and a nested
-- expression is balanced.
pub build_compare-IsBalanced :
    {V : Type 0} ⦃dyn : Dynamic V⦄ (e : CompareExp V) (d : Dialect)
    → holes e.col ≡ 0
    → holes e.operator ≡ 0
    → IsBalancedValue d e.value
    → IsBalanced (build_compare e d)
unfolding build_compare
build_compare-IsBalanced e d h k b =
    compare_view-IsBalanced (quote_column e.col d) e.operator e.value (view_of e.value) d
      (omega (arith, holes-quote_column d e.col)) k b
