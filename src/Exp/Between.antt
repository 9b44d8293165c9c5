-- ===== src/Exp/Between.antt =====
-- `BetweenExp` of internal/core/expression.go.
use relica.Prelude.{◌≡◌, Bool, true, false, [], ◌∷◌, ◌++◌, if◌then◌else◌, arith}
use relica.Text.{Text, codes, question}
use relica.Text.Counts.{count-append}
use relica.Dialect.{Dialect, quote_column}
use relica.Dialect.Holes.{holes, holes-quote_column}
use relica.Exp.{Expression, IsBalanced}

pub record BetweenExp (V : Type 0) : Type 0 where
  pub col : Text
  pub from : V
  pub to : V
  pub negated : Bool

module _ {V : Type 0} where
  abbrev pub between : Text → V → V → BetweenExp V
  between col from to = record { col = col; from = from; to = to; negated = false }

  abbrev pub not_between : Text → V → V → BetweenExp V
  not_between col from to = record { col = col; from = from; to = to; negated = true }

  unfoldable pub build_between : BetweenExp V → Expression V
  build_between e d = (
    quote_column e.col d
        ++ (codes " "
            ++ ((if e.negated then codes "NOT BETWEEN" else codes "BETWEEN") ++ codes " ? AND ?")),
    e.from ∷ e.to ∷ [],
  )

  -- A BETWEEN has two `?` and two parameters.
  pub build_between-IsBalanced :
      (e : BetweenExp V) (d : Dialect) → holes e.col ≡ 0 → IsBalanced (build_between e d)
  unfolding build_between
  build_between-IsBalanced e d h = ground (
    arith,
    holes-quote_column d e.col,
    count-append question (quote_column e.col d) (codes " NOT BETWEEN ? AND ?"),
    count-append question (quote_column e.col d) (codes " BETWEEN ? AND ?"),
  )
