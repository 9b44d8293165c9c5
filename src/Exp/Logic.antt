-- ===== src/Exp/Logic.antt =====
-- `AndOrExp`, `NotExp` and `ExistsExp` of internal/core/expression.go. A nil `Expression` is `none`.
use relica.Prelude.{
  ◌≡◌, refl, Bool, true, false, List, [], ◌∷◌, ◌++◌, if◌then◌else◌, Option, none, some, arith,
  length, length-append, All,
}
use relica.Text.{Text, codes, is_empty, join, question}
use relica.Text.Counts.{count-append, count_all, count-join}
use relica.Dialect.{Dialect}
use relica.Dialect.Holes.{holes}
use relica.Exp.{Expression, IsBalanced}
use relica.Exp.In.{always_false}

pub record AndOrExp (V : Type 0) : Type 0 where
  pub exps : List (Option (Expression V))
  pub op : Text

pub record ExistsExp (V : Type 0) : Type 0 where
  pub subject : Option (Expression V)
  pub negated : Bool

module _ {V : Type 0} where
  abbrev pub all_of : List (Option (Expression V)) → AndOrExp V
  all_of exps = record { exps = exps; op = codes "AND" }

  abbrev pub any_of : List (Option (Expression V)) → AndOrExp V
  any_of exps = record { exps = exps; op = codes "OR" }

  -- What the loops over expressions and keys do with a fragment: an empty one is skipped, with
  -- its parameters.
  abbrev pub add_part : Text × List V → List Text × List V → List Text × List V
  add_part (sql, sub_args) (parts, args) =
      if is_empty sql then (parts, args) else (sql ∷ parts, sub_args ++ args)

  unfoldable pub collect : Dialect → List (Option (Expression V)) → List Text × List V
  collect d [] = ([], [])
  collect d (none ∷ es) = collect d es
  collect d (some build ∷ es) = add_part (build d) (collect d es)

  unfoldable pub combine : Text → List Text × List V → Text × List V
  combine op ([], args) = ([], [])
  combine op (p ∷ [], args) = (p, args)
  combine op (p ∷ q ∷ ps, args) =
      (codes "(" ++ (join (codes ") " ++ (op ++ codes " (")) (p ∷ q ∷ ps) ++ codes ")"), args)

  -- `len(e.Exps) == 0` gives what the empty collection gives.
  unfoldable pub build_and_or : AndOrExp V → Expression V
  unfolding collect combine
  build_and_or e d = combine e.op (collect d e.exps)

  wrap_not : Text × List V → Text × List V
  wrap_not (sql, args) =
      if is_empty sql then ([], []) else (codes "NOT (" ++ (sql ++ codes ")"), args)

  -- `Not(exp).Build`.
  unfoldable pub build_not : Option (Expression V) → Expression V
  unfolding wrap_not
  build_not none d = ([], [])
  build_not (some build) d = wrap_not (build d)

  abbrev pub exists_in : Option (Expression V) → ExistsExp V
  exists_in subject = record { subject = subject; negated = false }

  abbrev pub not_exists_in : Option (Expression V) → ExistsExp V
  not_exists_in subject = record { subject = subject; negated = true }

  no_subject : Bool → Text × List V
  no_subject negated = if negated then ([], []) else (always_false, [])

  wrap_exists : Bool → Text × List V → Text × List V
  unfolding no_subject
  wrap_exists negated (sql, args) = if is_empty sql then no_subject negated else (
    (if negated then codes "NOT EXISTS (" else codes "EXISTS (") ++ (sql ++ codes ")"),
    args,
  )

  exists_of : Option (Expression V) → Bool → Expression V
  unfolding wrap_exists no_subject
  exists_of none negated d = no_subject negated
  exists_of (some build) negated d = wrap_exists negated (build d)

  unfoldable pub build_exists : ExistsExp V → Expression V
  unfolding exists_of
  build_exists e d = exists_of e.subject e.negated d

  -- A given expression is balanced at a dialect.
  abbrev pub IsBalancedAt : Dialect → Option (Expression V) → Type 0
  IsBalancedAt d none = Unit
  IsBalancedAt d (some build) = IsBalanced (build d)

  -- The loops keep the pieces and the parameters in step.
  abbrev pub IsBalancedParts : List Text × List V → Type 0
  IsBalancedParts (parts, args) = count_all question parts ≡ length args

  pub add_part-IsBalanced :
      (f : Text × List V) (acc : List Text × List V)
      → IsBalanced f
      → IsBalancedParts acc
      → IsBalancedParts (add_part f acc)
  add_part-IsBalanced (sql, sub_args) (parts, args) b h =
      ground (arith, length-append sub_args args)

  collect-IsBalanced :
      (d : Dialect) (es : List (Option (Expression V)))
      → All (IsBalancedAt d) es
      → IsBalancedParts (collect d es)
  unfolding collect
  collect-IsBalanced d [] h = refl
  collect-IsBalanced d (none ∷ es) h = collect-IsBalanced d es h.1
  collect-IsBalanced d (some build ∷ es) h =
      add_part-IsBalanced (build d) (collect d es) h.0 (collect-IsBalanced d es h.1)

  combine-IsBalanced :
      (op : Text) (ps : List Text) (args : List V)
      → holes op ≡ 0
      → count_all question ps ≡ length args
      → IsBalanced (combine op (ps, args))
  unfolding combine
  combine-IsBalanced op [] args h b = refl
  combine-IsBalanced op (p ∷ []) args h b = omega arith
  combine-IsBalanced op (p ∷ q ∷ ps) args h b = omega (
    arith,
    count-append question (join (codes ") " ++ (op ++ codes " (")) (p ∷ q ∷ ps)) (codes ")"),
    count-join question (codes ") " ++ (op ++ codes " (")) (p ∷ q ∷ ps)
        (omega (arith, count-append question op (codes " ("))),
  )

  -- An AND or OR of balanced expressions, nil and empty ones among them, is balanced if its
  -- operator holds no `?`.
  pub build_and_or-IsBalanced :
      (e : AndOrExp V) (d : Dialect)
      → holes e.op ≡ 0
      → All (IsBalancedAt d) e.exps
      → IsBalanced (build_and_or e d)
  unfolding build_and_or
  build_and_or-IsBalanced e d h b =
      combine-IsBalanced e.op (collect d e.exps).0 (collect d e.exps).1 h
        (collect-IsBalanced d e.exps b)

  -- NOT keeps the balance.
  pub build_not-IsBalanced :
      (subject : Option (Expression V)) (d : Dialect)
      → IsBalancedAt d subject
      → IsBalanced (build_not subject d)
  unfolding build_not
  build_not-IsBalanced none d b = refl
  build_not-IsBalanced (some build) d b =
      ground (arith, count-append question (build d).0 (codes ")"))

  wrap_exists-IsBalanced :
      (negated : Bool) (f : Text × List V) → IsBalanced f → IsBalanced (wrap_exists negated f)
  unfolding wrap_exists
  wrap_exists-IsBalanced negated (sql, args) b =
      ground (arith, count-append question sql (codes ")"))

  -- EXISTS and NOT EXISTS keep the balance.
  pub build_exists-IsBalanced :
      (e : ExistsExp V) (d : Dialect) → IsBalancedAt d e.subject → IsBalanced (build_exists e d)
  unfolding build_exists
  build_exists-IsBalanced e d b = exists_of-IsBalanced e.subject e.negated d b
    where
      exists_of-IsBalanced :
          (s : Option (Expression V)) (negated : Bool) (d : Dialect)
          → IsBalancedAt d s
          → IsBalanced (exists_of s negated d)
      exists_of-IsBalanced none true d b = refl
      exists_of-IsBalanced none false d b = refl
      exists_of-IsBalanced (some build) negated d b = wrap_exists-IsBalanced negated (build d) b
