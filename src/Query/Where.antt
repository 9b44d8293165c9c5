-- ===== src/Query/Where.antt =====
-- WHERE conditions: every `?` has its parameter, and keeps it through the numbering.
use relica.Prelude.{
  ℕ, ◌≡◌, ◌≢◌, ◌⊎◌, inl, inr, subst, sym, append-nil, refl, ap, ◌∙◌, if◌then◌else◌, false, List, [],
  ◌∷◌, ◌++◌, arith, length, length-append, All, All-append,
}
use relica.Text.{Text, codes, question, join, is_empty}
use relica.Text.Counts.{count-append, count_all, count_all-append, count-join}
use relica.Dialect.{mysql, sqlite, Dialect, postgres, is_numbered}
use relica.Dialect.Holes.{holes}
use relica.Exp.{View, nil, text, params, slice, exp, query, other, Dynamic, view_of}
use relica.Params.{Resolved, ok, missing, resolve_named_params, names, scan, with_questions}
use relica.Params.Bind.{resolve-IsBalanced, resolve-text}
use relica.Query.{
  Conditions, and_sep, add_clause, or_clause, add_resolved, add_built, or_resolved, or_built,
  where_view, add_where, or_view, or_clauses, or_where, where_text, where_clause, renumber,
}
use relica.Query.Number.{renumber-number}
use relica.Query.Takes.{StartsClear, Takes, IsNumbered, renumber-IsNumbered}
use relica.Query.Slots.{is_digit_head-number, IsClear, IsClear-append, is_digit_head}

-- As many `?` as parameters, and no clause that numbering makes ambiguous.
pub record IsSound {V : Type 0} (c : Conditions V) : Type 0 where
  pub balanced : count_all question c.clauses ≡ length c.params
  pub clear : All IsClear c.clauses

abbrev pub IsSoundFragment : {V : Type 0} → Text × List V → Type 0
IsSoundFragment (sql, args) = (holes sql ≡ length args) × IsClear sql

abbrev pub IsSoundResolved : {V : Type 0} → Resolved V → Type 0
IsSoundResolved (ok sql args) = IsSoundFragment (sql, args)
IsSoundResolved (missing ns) = Unit

-- What the caller owes: a condition of its own is balanced and clear.
abbrev pub IsSoundView : {V : Type 0} ⦃dyn : Dynamic V⦄ → Dialect → View V → List V → Type 0
IsSoundView d (text s) args = IsSoundResolved (resolve_named_params s args)
IsSoundView d (exp build) args = IsSoundFragment (build d)
IsSoundView d nil args = Unit
IsSoundView d (params p) args = Unit
IsSoundView d (slice vs) args = Unit
IsSoundView d (query build) args = Unit
IsSoundView d other args = Unit

abbrev pub IsSoundCondition : {V : Type 0} ⦃dyn : Dynamic V⦄ → Dialect → V → List V → Type 0
IsSoundCondition d condition args = IsSoundView d (view_of condition) args

-- The joined clauses are clear, and do not lose their balance.
join-IsClear :
    (sep : Text) (ws : List Text)
    → ((t : Text) → is_digit_head (sep ++ t) ≡ false)
    → ((t : Text) → IsClear t → IsClear (sep ++ t))
    → All IsClear ws
    → IsClear (join sep ws)
join-IsClear sep [] e k all = tt
join-IsClear sep (w ∷ []) e k all = all.0
join-IsClear sep (w ∷ v ∷ ws) e k all =
    IsClear-append w (sep ++ join sep (v ∷ ws)) all.0
      (k (join sep (v ∷ ws)) (join-IsClear sep (v ∷ ws) e k all.1)) (e (join sep (v ∷ ws)))

and_join-IsClear : (ws : List Text) → All IsClear ws → IsClear (join and_sep ws)
and_join-IsClear ws all = join-IsClear and_sep ws (λ t. refl) (λ t h. ground arith) all

closed : (sql : Text) → IsClear sql → IsClear (codes ") OR (" ++ (sql ++ codes ")"))
closed sql h = let inner = IsClear-append sql (codes ")") h (ground arith) refl in ground arith

module _ {V : Type 0} where
  add_clause-IsSound :
      (sql : Text) (args : List V) (c : Conditions V)
      → IsSoundFragment (sql, args)
      → IsSound c
      → IsSound (add_clause sql args c)
  add_clause-IsSound sql args c f s = record {
    balanced = omega (
      arith,
      f.0,
      s.balanced,
      count_all-append question c.clauses (sql ∷ []),
      length-append c.params args,
    );
    clear = All-append IsClear c.clauses (sql ∷ []) s.clear (f.1, tt);
  }

  or_clause-IsSound :
      (sql : Text) (args : List V) (c : Conditions V)
      → IsSoundFragment (sql, args)
      → IsSound c
      → IsSound (or_clause sql args c)
  or_clause-IsSound sql args c f s =
      let old = join and_sep c.clauses in
      record {
        balanced = omega (
          arith,
          f.0,
          s.balanced,
          count-join question and_sep c.clauses refl,
          count-append question old (codes ") OR (" ++ (sql ++ codes ")")),
          count-append question sql (codes ")"),
          length-append c.params args,
        );
        clear = (
          (
            refl,
            refl,
            IsClear-append old (codes ") OR (" ++ (sql ++ codes ")"))
                (and_join-IsClear c.clauses s.clear) (closed sql f.1) refl,
          ),
          tt,
        );
      }

  add_resolved-IsSound :
      (r : Resolved V) (c : Conditions V)
      → IsSoundResolved r
      → IsSound c
      → IsSound (add_resolved r c) × IsSound (or_resolved r c)
  unfolding add_resolved or_resolved
  add_resolved-IsSound (ok sql args) c f s =
      (add_clause-IsSound sql args c f s, or_clause-IsSound sql args c f s)
  add_resolved-IsSound (missing ns) c f s = (
    record { balanced = s.balanced; clear = s.clear },
    record { balanced = s.balanced; clear = s.clear },
  )

  add_built-IsSound :
      (f : Text × List V) (c : Conditions V)
      → IsSoundFragment f
      → IsSound c
      → IsSound (add_built f c) × IsSound (or_built f c)
  unfolding add_built or_built
  add_built-IsSound ([], args) c f s = (s, s)
  add_built-IsSound (x ∷ sql, args) c f s =
      (add_clause-IsSound (x ∷ sql) args c f s, or_clause-IsSound (x ∷ sql) args c f s)

module _ {V : Type 0} ⦃dyn : Dynamic V⦄ where
  where_view-IsSound :
      (d : Dialect) (w : View V) (args : List V) (c : Conditions V)
      → IsSoundView d w args
      → IsSound c
      → IsSound (where_view d w args c) × IsSound (or_view d w args c)
  unfolding where_view or_view
  where_view-IsSound d (text t) args c f s =
      add_resolved-IsSound (resolve_named_params t args) c f s
  where_view-IsSound d (exp build) args c f s = add_built-IsSound (build d) c f s
  where_view-IsSound d _ args c f s = (
    record { balanced = s.balanced; clear = s.clear },
    record { balanced = s.balanced; clear = s.clear },
  )

  or_clauses-IsSound :
      (ws : List Text) (d : Dialect) (condition : V) (args : List V) (c : Conditions V)
      → IsSoundCondition d condition args
      → IsSound c
      → IsSound (or_clauses ws d condition args c)
  unfolding or_clauses add_where
  or_clauses-IsSound [] d condition args c f s =
      (where_view-IsSound d (view_of condition) args c f s).0
  or_clauses-IsSound (w ∷ ws) d condition args c f s =
      (where_view-IsSound d (view_of condition) args c f s).1

  -- The condition has names, and the arguments are one map of parameters.
  pub record IsNamed (s : Text) (args : List V) : Type 0 where
    pub value : V
    pub entries : List (Text × V)
    pub only : args ≡ value ∷ []
    pub is_map : view_of value ≡ params entries
    pub has_names : names (scan s) ≢ []

  -- What the caller of `Where` owes: a text with names holds no `?` of its own; any other text and
  -- an expression has one `?` for each argument; and no `?` stands in front of a digit.
  abbrev pub Owes : Dialect → View V → List V → Type 0
  Owes d (text s) args =
      (IsNamed s args × (holes s ≡ 0) × IsClear (with_questions (scan s)))
      ⊎ ((resolve_named_params s args ≡ ok s args) × IsSoundFragment (s, args))
  Owes d (exp build) args = IsSoundFragment (build d)
  Owes d nil args = Unit
  Owes d (params p) args = Unit
  Owes d (slice vs) args = Unit
  Owes d (query build) args = Unit
  Owes d other args = Unit

  resolved_cases :
      (r : Resolved V)
      → ((sql : Text) × (vs : List V) × (r ≡ ok sql vs)) ⊎ ((ns : List Text) × (r ≡ missing ns))
  resolved_cases (ok sql vs) = inl (sql, vs, refl)
  resolved_cases (missing ns) = inr (ns, refl)

  named-IsSoundResolved :
      (s : Text) (v : V) (p : List (Text × V))
      → view_of v ≡ params p
      → names (scan s) ≢ []
      → holes s ≡ 0
      → IsClear (with_questions (scan s))
      → IsSoundResolved (resolve_named_params s (v ∷ []))
  named-IsSoundResolved s v p e ne h c = elim (resolved_cases (resolve_named_params s (v ∷ []))) [
    | inr (ns, r) ↦ subst IsSoundResolved (sym r) tt
    | inl (sql, vs, r) ↦
        subst IsSoundResolved (sym r)
          (resolve-IsBalanced s v p e ne h r, subst IsClear (sym (resolve-text s v p e ne r)) c)
  ]

  Owes-IsSoundView :
      (d : Dialect) (w : View V) (args : List V) → Owes d w args → IsSoundView d w args
  Owes-IsSoundView d (text s) args (inl (n, h, c)) =
      subst (λ xs. IsSoundResolved (resolve_named_params s xs)) (sym n.only)
        (named-IsSoundResolved s n.value n.entries n.is_map n.has_names h c)
  Owes-IsSoundView d (text s) args (inr (e, f)) = subst IsSoundResolved (sym e) f
  Owes-IsSoundView d (exp build) args h = h
  Owes-IsSoundView d nil args h = tt
  Owes-IsSoundView d (params p) args h = tt
  Owes-IsSoundView d (slice vs) args h = tt
  Owes-IsSoundView d (query build) args h = tt
  Owes-IsSoundView d other args h = tt

  abbrev pub resolved_args : Resolved V → List V
  resolved_args (ok sql vs) = vs
  resolved_args (missing ns) = []

  abbrev pub built_args : Text × List V → List V
  built_args (sql, vs) = if is_empty sql then [] else vs

  -- The parameters that a condition brings: those of a text after its names are resolved, those of
  -- an expression that is not empty, and none for a condition that is refused.
  abbrev pub brings : Dialect → View V → List V → List V
  brings d (text s) args = resolved_args (resolve_named_params s args)
  brings d (exp build) args = built_args (build d)
  brings d nil args = []
  brings d (params p) args = []
  brings d (slice vs) args = []
  brings d (query build) args = []
  brings d other args = []

  add_resolved-params :
      (r : Resolved V) (c : Conditions V)
      → ((add_resolved r c).params ≡ c.params ++ resolved_args r)
        × ((or_resolved r c).params ≡ c.params ++ resolved_args r)
  unfolding add_resolved or_resolved
  add_resolved-params (ok sql vs) c = (refl, refl)
  add_resolved-params (missing ns) c = (sym (append-nil c.params), sym (append-nil c.params))

  add_built-params :
      (f : Text × List V) (c : Conditions V)
      → ((add_built f c).params ≡ c.params ++ built_args f)
        × ((or_built f c).params ≡ c.params ++ built_args f)
  unfolding add_built or_built
  add_built-params ([], vs) c = (sym (append-nil c.params), sym (append-nil c.params))
  add_built-params (x ∷ sql, vs) c = (refl, refl)

  where_view-params :
      (d : Dialect) (w : View V) (args : List V) (c : Conditions V)
      → ((where_view d w args c).params ≡ c.params ++ brings d w args)
        × ((or_view d w args c).params ≡ c.params ++ brings d w args)
  unfolding where_view or_view
  where_view-params d (text s) args c = add_resolved-params (resolve_named_params s args) c
  where_view-params d (exp build) args c = add_built-params (build d) c
  where_view-params d _ args c = (sym (append-nil c.params), sym (append-nil c.params))

  or_clauses-params :
      (ws : List Text) (d : Dialect) (condition : V) (args : List V) (c : Conditions V)
      → (or_clauses ws d condition args c).params ≡ c.params ++ brings d (view_of condition) args
  unfolding or_clauses add_where
  or_clauses-params [] d condition args c = (where_view-params d (view_of condition) args c).0
  or_clauses-params (w ∷ ws) d condition args c = (where_view-params d (view_of condition) args c).1

  -- `c'` is `c` with the parameters that the condition brings behind its own, and sound.
  pub record Adds (d : Dialect) (condition : V) (args : List V) (c c' : Conditions V) : Type 0 where
    pub appended : c'.params ≡ c.params ++ brings d (view_of condition) args
    pub sound : IsSound c'

  -- `Where`, `AndWhere` and `OrWhere` append the parameters of the new condition to those that are
  -- there, and keep the parameters in step with the `?` of the clauses, on every branch: strings,
  -- named parameters, expressions, empty expressions and refused conditions. A text whose names are
  -- resolved holds no `?` of its own, and another text or an expression has one `?` for each
  -- argument; and in neither does a `?` stand in front of a digit.
  pub where-IsSound :
      (d : Dialect) (condition : V) (args : List V) (c : Conditions V)
      → Owes d (view_of condition) args
      → IsSound c
      → Adds d condition args c (add_where d condition args c)
        × Adds d condition args c (or_where d condition args c)
  unfolding add_where or_where
  where-IsSound d condition args c h s =
      let f = Owes-IsSoundView d (view_of condition) args h in
      (
        record {
          appended = (where_view-params d (view_of condition) args c).0;
          sound = (where_view-IsSound d (view_of condition) args c f s).0;
        },
        record {
          appended = or_clauses-params c.clauses d condition args c;
          sound = or_clauses-IsSound c.clauses d condition args c f s;
        },
      )

holes-where : (ws : List Text) → holes (codes " WHERE " ++ join and_sep ws) ≡ count_all question ws
holes-where ws = omega (arith, count-join question and_sep ws refl)

module _ {V : Type 0} where
  where_text-postgres :
      (start : ℕ) (args : List V) (ws : List Text)
      → count_all question ws ≡ length args
      → All IsClear ws
      → IsNumbered start (length args) (where_text postgres start args ws)
  unfolding where_text is_numbered
  where_text-postgres start args [] b all = rw (← b) (refl, λ t h. refl)
  where_text-postgres start args (w ∷ ws) b all =
      let inner = and_join-IsClear (w ∷ ws) all in
      renumber-IsNumbered start (length args) (codes " WHERE " ++ join and_sep (w ∷ ws))
        (holes-where (w ∷ ws) ∙ b) (ground arith)

  where_text-plain :
      (d : Dialect) (start : ℕ) (args : List V) (ws : List Text)
      → is_numbered d ≡ false
      → count_all question ws ≡ length args
      → holes (where_text d start args ws) ≡ length args
  unfolding where_text
  where_text-plain d start args [] n b = b
  where_text-plain d start args (w ∷ ws) n b = rw n (holes-where (w ∷ ws) ∙ b)

  -- For PostgreSQL the WHERE clause has no `?` left, and its placeholders stand for the
  -- parameters from `start` on, in order.
  where_clause-IsNumbered :
      (start : ℕ) (c : Conditions V)
      → IsSound c
      → IsNumbered start (length c.params) (where_clause postgres start c)
  unfolding where_clause
  where_clause-IsNumbered start c s =
      where_text-postgres start c.params c.clauses s.balanced s.clear

  -- For the other two it has one `?` for each parameter.
  holes-where_clause :
      (d : Dialect) (start : ℕ) (c : Conditions V)
      → is_numbered d ≡ false
      → IsSound c
      → holes (where_clause d start c) ≡ length c.params
  unfolding where_clause
  holes-where_clause d start c n s = where_text-plain d start c.params c.clauses n s.balanced

  -- WHERE, with the clauses `ws` joined by AND, its `?` renumbered from `start` on if placeholders
  -- are numbered.
  abbrev pub where_of : Dialect → ℕ → List Text → List V → Text
  where_of d start ws args =
      let clause = codes " WHERE " ++ join and_sep ws in
      if is_numbered d then renumber d start (length args) clause else clause

  where_text-eq :
      (d : Dialect) (start : ℕ) (ws : List Text) (args : List V)
      → ws ≢ []
      → where_text d start args ws ≡ where_of d start ws args
  unfolding where_text
  where_text-eq d start [] args ne = absurd (ne refl)
  where_text-eq d start (w ∷ ws) args ne = refl

  pub where_clause-eq :
      (d : Dialect) (start : ℕ) (c : Conditions V) {ws : List Text} {args : List V}
      → c.clauses ≡ ws
      → c.params ≡ args
      → ws ≢ []
      → where_clause d start c ≡ where_of d start ws args
  unfolding where_clause
  where_clause-eq d start c {ws = ws} {args = args} hc ha ne =
      ap (where_text d start c.params) hc
      ∙ (ap (λ xs. where_text d start xs ws) ha ∙ where_text-eq d start ws args ne)

  where_text-StartsClear :
      (d : Dialect) (start : ℕ) (args : List V) (ws : List Text)
      → StartsClear (where_text d start args ws)
  unfolding where_text is_numbered
  where_text-StartsClear d start args [] u c = c
  where_text-StartsClear mysql start args (w ∷ ws) u c = refl
  where_text-StartsClear sqlite start args (w ∷ ws) u c = refl
  where_text-StartsClear postgres start args (w ∷ ws) u c =
      rw renumber-number (is_digit_head-number start (length args) _ u refl c)

  -- The clause is empty or begins with a space.
  pub where_clause-StartsClear :
      (d : Dialect) (start : ℕ) (c : Conditions V) → StartsClear (where_clause d start c)
  unfolding where_clause
  where_clause-StartsClear d start c = where_text-StartsClear d start c.params c.clauses

  -- The WHERE clause takes the parameters of the conditions from `start` on, in every dialect, if
  -- the conditions are sound.
  pub where_clause-Takes :
      (d : Dialect) (start : ℕ) (c : Conditions V)
      → IsSound c
      → Takes d start (length c.params) (where_clause d start c)
  unfolding is_numbered
  where_clause-Takes postgres start c s = where_clause-IsNumbered start c s
  where_clause-Takes mysql start c s = holes-where_clause mysql start c refl s
  where_clause-Takes sqlite start c s = holes-where_clause sqlite start c refl s
