-- ===== src/Exp/Func/Balance.antt =====
-- Placeholders and parameters of the functional expressions.
use relica.Prelude.{
  ◌≡◌, refl, Bool, true, false, List, [], ◌∷◌, ◌++◌, arith, length, length-append, All,
}
use relica.Text.{Text, codes, question, join, is_empty}
use relica.Text.Counts.{count-append, count_all, count-join}
use relica.Dialect.{Dialect, postgres, mysql, sqlite}
use relica.Dialect.Holes.{holes, holes-quote_column, holes-quote_identifier}
use relica.Exp.{View, nil, text, params, slice, exp, query, other, Dynamic, view_of, IsBalanced}
use relica.Exp.Func.{
  WhenClause, CaseExp, ListExp, NullIfExp, GreatestLeastExp, Extremum, greatest, least, as_alias,
  extremum_name, append_fragment, when_clause, when_clauses, else_clause, case_head, case_with,
  build_case, expr_value, build_expr_value, expr_values, call_of, coalesce_values, build_coalesce,
  build_null_if, extremum_values, build_greatest_least, concat_parts, concat_values, build_concat,
}

holes-as_alias : (d : Dialect) (alias : Text) → holes alias ≡ 0 → holes (as_alias d alias) ≡ 0
unfolding as_alias
holes-as_alias d [] h = refl
holes-as_alias d (c ∷ s) h = omega (arith, holes-quote_identifier d (c ∷ s))

holes-extremum_name : (d : Dialect) (f : Extremum) → holes (extremum_name d f) ≡ 0
unfolding extremum_name
holes-extremum_name sqlite greatest = refl
holes-extremum_name sqlite least = refl
holes-extremum_name mysql greatest = refl
holes-extremum_name mysql least = refl
holes-extremum_name postgres greatest = refl
holes-extremum_name postgres least = refl

holes-case_head : (column : Text) (d : Dialect) → holes column ≡ 0 → holes (case_head column d) ≡ 0
unfolding case_head
holes-case_head column d h = ground (arith, holes-quote_column d column)

-- A string stands for a column or a literal and is written out, so it may hold no `?`.
abbrev pub IsPlainView : {V : Type 0} → Dialect → View V → Type 0
IsPlainView d (text s) = holes s ≡ 0
IsPlainView d (exp build) = IsBalanced (build d)
IsPlainView d nil = Unit
IsPlainView d (params p) = Unit
IsPlainView d (slice vs) = Unit
IsPlainView d (query build) = Unit
IsPlainView d other = Unit

abbrev pub IsPlain : {V : Type 0} ⦃dyn : Dynamic V⦄ → Dialect → V → Type 0
IsPlain d v = IsPlainView d (view_of v)

module _ {V : Type 0} ⦃dyn : Dynamic V⦄ where
  append_fragment-IsBalanced :
      (f g : Text × List V) → IsBalanced f → IsBalanced g → IsBalanced (append_fragment f g)
  append_fragment-IsBalanced (s, a) (t, b) h k =
      omega (arith, count-append question s t, length-append a b)

  when_clause-IsBalanced :
      (searched : Bool) (w : WhenClause V)
      → holes (dyn.print w.condition) ≡ 0
      → IsBalanced (when_clause searched w)
  unfolding when_clause
  when_clause-IsBalanced true w h =
      omega (arith, count-append question (dyn.print w.condition) (codes " THEN ?"))
  when_clause-IsBalanced false w h = refl

  when_clauses-IsBalanced :
      (searched : Bool) (ws : List (WhenClause V))
      → All (λ w. holes (dyn.print w.condition) ≡ 0) ws
      → IsBalanced (when_clauses searched ws)
  unfolding when_clauses
  when_clauses-IsBalanced searched [] h = refl
  when_clauses-IsBalanced searched (w ∷ ws) h =
      append_fragment-IsBalanced (when_clause searched w) (when_clauses searched ws)
        (when_clause-IsBalanced searched w h.0) (when_clauses-IsBalanced searched ws h.1)

  else_clause-IsBalanced : (v : V) (w : View V) → IsBalanced (else_clause v w)
  unfolding else_clause
  else_clause-IsBalanced v nil = refl
  else_clause-IsBalanced v _ = refl

  case_with-IsBalanced :
      (ws : List (WhenClause V)) (c : CaseExp V) (d : Dialect)
      → holes c.column ≡ 0
      → holes c.alias ≡ 0
      → All (λ w. holes (dyn.print w.condition) ≡ 0) ws
      → IsBalanced (case_with ws c d)
  unfolding case_with
  case_with-IsBalanced [] c d h k b = refl
  case_with-IsBalanced (w ∷ ws) c d h k b =
      append_fragment-IsBalanced (case_head c.column d, []) _ (holes-case_head c.column d h)
        (append_fragment-IsBalanced (when_clauses (is_empty c.column) (w ∷ ws)) _
          (when_clauses-IsBalanced (is_empty c.column) (w ∷ ws) b)
          (append_fragment-IsBalanced (else_clause c.else_value (view_of c.else_value))
            (codes " END" ++ as_alias d c.alias, [])
            (else_clause-IsBalanced c.else_value (view_of c.else_value))
            (omega (arith, holes-as_alias d c.alias k))))

  -- A CASE has one `?` for each parameter, in both forms, with or without ELSE and alias, if the
  -- column, the alias and the printed conditions hold no `?`.
  pub build_case-IsBalanced :
      (c : CaseExp V) (d : Dialect)
      → holes c.column ≡ 0
      → holes c.alias ≡ 0
      → All (λ w. holes (dyn.print w.condition) ≡ 0) c.whens
      → IsBalanced (build_case c d)
  unfolding build_case
  build_case-IsBalanced c d h k b = case_with-IsBalanced c.whens c d h k b

  expr_value-IsBalanced :
      (v : V) (w : View V) (d : Dialect) → IsPlainView d w → IsBalanced (expr_value v w d)
  unfolding expr_value
  expr_value-IsBalanced v (text s) d h = ground (arith, holes-quote_column d s)
  expr_value-IsBalanced v (exp build) d h = h
  expr_value-IsBalanced v _ d h = refl

  expr_values-IsBalanced :
      (vs : List V) (d : Dialect)
      → All (IsPlain d) vs
      → count_all question (expr_values vs d).0 ≡ length (expr_values vs d).1
  unfolding expr_values
  expr_values-IsBalanced [] d h = refl
  expr_values-IsBalanced (v ∷ vs) d h = omega (
    arith,
    expr_value-IsBalanced v (view_of v) d h.0,
    expr_values-IsBalanced vs d h.1,
    length-append (build_expr_value v d).1 (expr_values vs d).1,
  )

  -- The parts of an expression list keep their parameters in step.
  abbrev IsBalancedList : List Text × List V → Type 0
  IsBalancedList (parts, args) = count_all question parts ≡ length args

  call_of-IsBalanced :
      (name alias : Text) (d : Dialect) (r : List Text × List V)
      → holes name ≡ 0
      → holes alias ≡ 0
      → IsBalancedList r
      → IsBalanced (call_of name alias d r)
  unfolding call_of
  call_of-IsBalanced name alias d (parts, args) h k b = omega (
    arith,
    count-append question name
        (codes "(" ++ (join (codes ", ") parts ++ (codes ")" ++ as_alias d alias))),
    count-append question (join (codes ", ") parts) (codes ")" ++ as_alias d alias),
    count-join question (codes ", ") parts refl,
    holes-as_alias d alias k,
  )

  infix_of-IsBalanced :
      (alias : Text) (d : Dialect) (parts : List Text) (args : List V)
      → holes alias ≡ 0
      → count_all question parts ≡ length args
      → IsBalanced {V = V} (join (codes " || ") parts ++ as_alias d alias, args)
  infix_of-IsBalanced alias d parts args k b = omega (
    arith,
    count-append question (join (codes " || ") parts) (as_alias d alias),
    count-join question (codes " || ") parts refl,
    holes-as_alias d alias k,
  )

  concat_parts-IsBalanced :
      (alias : Text) (d : Dialect) (r : List Text × List V)
      → holes alias ≡ 0
      → IsBalancedList r
      → IsBalanced (concat_parts alias d r)
  unfolding concat_parts
  concat_parts-IsBalanced alias mysql r k b =
      call_of-IsBalanced (codes "CONCAT") alias mysql r refl k b
  concat_parts-IsBalanced alias postgres (parts, args) k b =
      infix_of-IsBalanced alias postgres parts args k b
  concat_parts-IsBalanced alias sqlite (parts, args) k b =
      infix_of-IsBalanced alias sqlite parts args k b

  -- COALESCE, NULLIF, GREATEST or LEAST, and CONCAT have one `?` for each parameter in every
  -- dialect, if the columns, literals and aliases hold no `?` and nested expressions are balanced.
  pub build_func-IsBalanced :
      (c : ListExp V) (n : NullIfExp V) (g : GreatestLeastExp V) (d : Dialect)
      → (holes c.alias ≡ 0) × All (IsPlain d) c.values
      → (holes n.alias ≡ 0) × IsPlain d n.expr1 × IsPlain d n.expr2
      → (holes g.alias ≡ 0) × All (IsPlain d) g.values
      → IsBalanced (build_coalesce c d)
        × IsBalanced (build_concat c d)
        × IsBalanced (build_null_if n d)
        × IsBalanced (build_greatest_least g d)
  unfolding build_coalesce build_concat build_null_if build_greatest_least
  build_func-IsBalanced c n g d hc hn hg = (
    coalesce_values-IsBalanced c.values hc.1,
    concat_values-IsBalanced c.values hc.1,
    call_of-IsBalanced (codes "NULLIF") n.alias d (expr_values (n.expr1 ∷ n.expr2 ∷ []) d) refl hn.0
        (expr_values-IsBalanced (n.expr1 ∷ n.expr2 ∷ []) d (hn.1, (hn.2, tt))),
    extremum_values-IsBalanced g.values hg.1,
  )
    where
      coalesce_values-IsBalanced :
          (vs : List V) → All (IsPlain d) vs → IsBalanced (coalesce_values vs c.alias d)
      coalesce_values-IsBalanced [] h = refl
      coalesce_values-IsBalanced (v ∷ vs) h =
          call_of-IsBalanced (codes "COALESCE") c.alias d (expr_values (v ∷ vs) d) refl hc.0
            (expr_values-IsBalanced (v ∷ vs) d h)

      concat_values-IsBalanced :
          (vs : List V) → All (IsPlain d) vs → IsBalanced (concat_values vs c.alias d)
      concat_values-IsBalanced [] h = refl
      concat_values-IsBalanced (v ∷ vs) h =
          concat_parts-IsBalanced c.alias d (expr_values (v ∷ vs) d) hc.0
            (expr_values-IsBalanced (v ∷ vs) d h)

      extremum_values-IsBalanced :
          (vs : List V) → All (IsPlain d) vs → IsBalanced (extremum_values vs g.func g.alias d)
      extremum_values-IsBalanced [] h = refl
      extremum_values-IsBalanced (v ∷ vs) h =
          call_of-IsBalanced (extremum_name d g.func) g.alias d (expr_values (v ∷ vs) d)
            (holes-extremum_name d g.func) hg.0 (expr_values-IsBalanced (v ∷ vs) d h)
