-- ===== src/Exp.antt =====
-- What internal/core/expression.go and func_expressions.go build on: dynamic values
-- (`interface{}`), the `Expression` interface, and the balance of a fragment.
mod Tests
pub mod Compare
pub mod Between
pub mod In
pub mod Like
pub mod Logic
pub mod Hash
pub mod Func
pub mod Values
use relica.Prelude.{ℕ, ◌+◌, ◌≡◌, List, [], ◌∷◌, ◌++◌, length, arith, length-append}
use relica.Text.{Text}
use relica.Text.Counts.{count_all}
use relica.Dialect.{Dialect}
use relica.Dialect.Holes.{holes}

-- `Build(dialect)`: a fragment with `?` for its parameters, and the parameters. A value of the
-- interface is used through this one method.
abbrev pub Expression : Type 0 → Type 0
Expression V = Dialect → Text × List V

-- What a type switch on an `interface{}` sees. `query` is a `*SelectQuery`, with its `buildSQL`.
pub data View (V : Type 0) : Type 0 where
  nil : View V
  text : Text → View V
  params : List (Text × V) → View V
  slice : List V → View V
  exp : Expression V → View V
  query : Expression V → View V
  other : View V

-- The language's dynamic values: the type switch, `fmt.Fprint`, the value `nil` and strings.
pub record Dynamic (V : Type 0) : Type 0 where
  pub view : V → View V
  pub print : V → Text
  pub null : V
  pub of_text : Text → V
  pub view-null : view null ≡ nil
  pub view-of_text : (s : Text) → view (of_text s) ≡ text s

abbrev pub view_of : {V : Type 0} ⦃dyn : Dynamic V⦄ → V → View V
view_of ⦃dyn⦄ v = dyn.view v

-- As many `?` as parameters: what `database/sql` and the renumbering loops rely on.
abbrev pub IsBalanced : {V : Type 0} → Text × List V → Type 0
IsBalanced (sql, args) = holes sql ≡ length args

-- A nested expression or subquery is balanced, if the value is one.
abbrev pub IsBalancedView : {V : Type 0} → Dialect → View V → Type 0
IsBalancedView d (exp build) = IsBalanced (build d)
IsBalancedView d (query build) = IsBalanced (build d)
IsBalancedView d nil = Unit
IsBalancedView d (text s) = Unit
IsBalancedView d (params p) = Unit
IsBalancedView d (slice vs) = Unit
IsBalancedView d other = Unit

abbrev pub IsBalancedValue : {V : Type 0} ⦃dyn : Dynamic V⦄ → Dialect → V → Type 0
IsBalancedValue d v = IsBalancedView d (view_of v)
