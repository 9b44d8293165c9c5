-- ===== src/Exp/In.antt =====
-- `InExp` of internal/core/expression.go: value lists, single values and subqueries.
use relica.Prelude.{
  ◌+◌, ◌≡◌, refl, Bool, true, false, List, [], ◌∷◌, ◌++◌, if◌then◌else◌, arith, length,
  length-append, All,
}
use relica.Text.{Text, codes, is_empty, join, question}
use relica.Text.Counts.{count-append, count_all, count-join}
use relica.Dialect.{Dialect, quote_column}
use relica.Dialect.Holes.{holes, holes-quote_column}
use relica.Exp.{
  Expression, View, nil, exp, query, Dynamic, view_of, IsBalanced, IsBalancedView, IsBalancedValue,
}

pub record InExp (V : Type 0) : Type 0 where
  pub col : Text
  pub values : List V
  pub negated : Bool

abbrev pub always_false : Text
always_false = codes "0=1"

abbrev in_op : Bool → Text
in_op negated = if negated then codes "NOT IN" else codes "IN"

-- `fmt.Sprintf("%s %s (%s)", col, op, inner)`.
clause : Text → Bool → Text → Text
clause col negated inner =
    col ++ (codes " " ++ (in_op negated ++ (codes " (" ++ (inner ++ codes ")"))))

module _ {V : Type 0} where
  abbrev pub is_in : Text → List V → InExp V
  is_in col values = record { col = col; values = values; negated = false }

  abbrev pub not_in : Text → List V → InExp V
  not_in col values = record { col = col; values = values; negated = true }

  build_subquery_in : Text → Text × List V → Bool → Text × List V
  unfolding clause
  build_subquery_in col (sub, args) negated =
      if is_empty sub
      then if negated then ([], []) else (always_false, [])
      else (clause col negated sub, args)

  build_single : Text → V → View V → Bool → Dialect → Text × List V
  unfolding build_subquery_in
  build_single col v (query build) negated d = build_subquery_in col (build d) negated
  build_single col v (exp build) negated d = build_subquery_in col (build d) negated
  build_single col v nil negated d =
      (col ++ (if negated then codes " IS NOT NULL" else codes " IS NULL"), [])
  build_single col v other_view negated d =
      (col ++ (if negated then codes " <> ?" else codes " = ?"), v ∷ [])

  -- One round of the loop over several values: what is appended to the two slices.
  placeholder_of : View V → Text
  placeholder_of nil = codes "NULL"
  placeholder_of other_view = codes "?"

  args_of : V → View V → List V
  args_of v nil = []
  args_of v other_view = v ∷ []

module _ {V : Type 0} ⦃dyn : Dynamic V⦄ where
  placeholders_of : List V → List Text
  unfolding placeholder_of
  placeholders_of [] = []
  placeholders_of (v ∷ vs) = placeholder_of (view_of v) ∷ placeholders_of vs

  all_args_of : List V → List V
  unfolding args_of
  all_args_of [] = []
  all_args_of (v ∷ vs) = args_of v (view_of v) ++ all_args_of vs

  build_values : Text → List V → Bool → Dialect → Text × List V
  unfolding build_single placeholders_of all_args_of clause
  build_values col [] negated d = if negated then ([], []) else (always_false, [])
  build_values col (v ∷ []) negated d = build_single col v (view_of v) negated d
  build_values col (v ∷ w ∷ vs) negated d = (
    clause col negated (join (codes ", ") (placeholders_of (v ∷ w ∷ vs))),
    all_args_of (v ∷ w ∷ vs),
  )

  unfoldable pub build_in : InExp V → Expression V
  unfolding build_values
  build_in e d = build_values (quote_column e.col d) e.values e.negated d

holes-clause :
    (col : Text) (negated : Bool) (inner : Text)
    → holes (clause col negated inner) ≡ holes col + holes inner
unfolding clause
holes-clause col true inner = omega (
  arith,
  count-append question col (codes " NOT IN (" ++ (inner ++ codes ")")),
  count-append question inner (codes ")"),
)
holes-clause col false inner = omega (
  arith,
  count-append question col (codes " IN (" ++ (inner ++ codes ")")),
  count-append question inner (codes ")"),
)

module _ {V : Type 0} where
  build_subquery_in-IsBalanced :
      (col : Text) (sub : Text × List V) (negated : Bool)
      → holes col ≡ 0
      → IsBalanced sub
      → IsBalanced (build_subquery_in col sub negated)
  unfolding build_subquery_in
  build_subquery_in-IsBalanced col (sub, args) negated h b =
      ground (arith, holes-clause col negated sub)

  build_single-IsBalanced :
      (col : Text) (v : V) (w : View V) (negated : Bool) (d : Dialect)
      → holes col ≡ 0
      → IsBalancedView d w
      → IsBalanced (build_single col v w negated d)
  unfolding build_single
  build_single-IsBalanced col v (query build) negated d h b =
      build_subquery_in-IsBalanced col (build d) negated h b
  build_single-IsBalanced col v (exp build) negated d h b =
      build_subquery_in-IsBalanced col (build d) negated h b
  build_single-IsBalanced col v nil true d h b =
      omega (arith, count-append question col (codes " IS NOT NULL"))
  build_single-IsBalanced col v nil false d h b =
      omega (arith, count-append question col (codes " IS NULL"))
  build_single-IsBalanced col v _ true d h b =
      omega (arith, count-append question col (codes " <> ?"))
  build_single-IsBalanced col v _ false d h b =
      omega (arith, count-append question col (codes " = ?"))

  placeholder_of-args_of : (v : V) (w : View V) → holes (placeholder_of w) ≡ length (args_of v w)
  unfolding placeholder_of args_of
  placeholder_of-args_of v nil = refl
  placeholder_of-args_of v _ = refl

module _ {V : Type 0} ⦃dyn : Dynamic V⦄ where
  placeholders_of-all_args_of :
      (vs : List V) → count_all question (placeholders_of vs) ≡ length (all_args_of vs)
  unfolding placeholders_of all_args_of
  placeholders_of-all_args_of [] = refl
  placeholders_of-all_args_of (v ∷ vs) = omega (
    arith,
    placeholder_of-args_of v (view_of v),
    placeholders_of-all_args_of vs,
    length-append (args_of v (view_of v)) (all_args_of vs),
  )

  build_values-IsBalanced :
      (col : Text) (vs : List V) (negated : Bool) (d : Dialect)
      → holes col ≡ 0
      → All (IsBalancedValue d) vs
      → IsBalanced (build_values col vs negated d)
  unfolding build_values
  build_values-IsBalanced col [] negated d h b = ground arith
  build_values-IsBalanced col (v ∷ []) negated d h b =
      build_single-IsBalanced col v (view_of v) negated d h b.0
  build_values-IsBalanced col (v ∷ w ∷ vs) negated d h b = omega (
    arith,
    holes-clause col negated (join (codes ", ") (placeholders_of (v ∷ w ∷ vs))),
    count-join question (codes ", ") (placeholders_of (v ∷ w ∷ vs)) refl,
    placeholders_of-all_args_of (v ∷ w ∷ vs),
  )

  -- An IN or NOT IN has one `?` for each parameter, for any number of values, NULLs and
  -- subqueries among them, provided that the column holds no `?` and nested fragments are balanced.
  pub build_in-IsBalanced :
      (e : InExp V) (d : Dialect)
      → holes e.col ≡ 0
      → All (IsBalancedValue d) e.values
      → IsBalanced (build_in e d)
  unfolding build_in
  build_in-IsBalanced e d h b =
      build_values-IsBalanced (quote_column e.col d) e.values e.negated d
        (omega (arith, holes-quote_column d e.col)) b
