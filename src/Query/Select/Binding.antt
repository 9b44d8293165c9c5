-- ===== src/Query/Select/Binding.antt =====
-- The parameters of a SELECT.
use relica.Prelude.{
  ℕ, suc, ◌+◌, ◌≡◌, refl, ap, sym, ◌∙◌, List, [], ◌∷◌, ◌++◌, arith, length, length-append, subst,
  All, append_assoc,
}
use relica.Text.{Text, codes, question}
use relica.Text.Counts.{count_all}
use relica.Dialect.{Dialect}
use relica.Exp.{Dynamic}
use relica.Query.{Conditions, where_clause}
use relica.Query.Where.{IsSound, where_clause-Takes, where_clause-StartsClear}
use relica.Query.Takes.{Takes, StartsClear, IsQuiet, append-IsQuiet}
use relica.Query.Select.{SelectQuery, CteInfo, UnionInfo}
use relica.Query.Select.Clauses.{
  build_select, build_group_by, build_order_by, build_limit_offset, raw_args, built_args,
  print_limit, print_offset,
}
use relica.Query.Select.Sources.{
  build_from, build_joins, build_having, having_args, with_clause, cte_args,
}
use relica.Query.Select.Build.{
  params_of, where_params, build_core, build_sql, render_subs, with_unions, prepend,
}
use relica.Query.Select.Chain.{
  StartsClear-append, print_limit-IsQuiet, print_offset-IsQuiet, print_limit-StartsClear,
  print_offset-StartsClear, headed-StartsClear, chain, IsSoundHaving, build_having-Takes,
  build_from-StartsClear, build_having-StartsClear, build_joins-StartsClear,
}

module _ {V : Type 0} ⦃dyn : Dynamic V⦄ where
  -- The indices behind the parameters of the select list, of FROM and of the joins.
  abbrev pub rendered : Dialect → SelectQuery V → List Text × List V
  rendered d q = render_subs d (length (cte_args d q.ctes ++ raw_args q.select_exprs)) q.sub_exprs

  abbrev pub list_size : Dialect → SelectQuery V → ℕ
  list_size d q = length (raw_args q.select_exprs) + length (rendered d q).1

  abbrev pub source_size : Dialect → SelectQuery V → ℕ
  source_size d q = length (build_from d q).1

  abbrev pub join_size : Dialect → SelectQuery V → ℕ
  join_size d q = length (build_joins d q.joins).args

  abbrev pub order_args : Dialect → SelectQuery V → List V
  order_args d q = raw_args q.order_by_exprs ++ built_args d q.sub_order_by_exprs

  -- A SELECT without CTEs, set operations and parameters of GROUP BY, whose other clauses take the
  -- parameters that they bring where they stand.
  pub record IsPlaced (d : Dialect) (q : SelectQuery V) : Type 0 where
    pub no_ctes : q.ctes ≡ []
    pub no_unions : q.unions ≡ []
    pub list_takes : Takes d 1 (list_size d q) (build_select d (rendered d q).0 q)
    pub source_takes : Takes d (1 + list_size d q) (source_size d q) (build_from d q).0
    pub joins_take :
        Takes d (1 + list_size d q + source_size d q) (join_size d q) (build_joins d q.joins).sql
    pub sound : IsSound q.conditions
    pub group_quiet : IsQuiet (build_group_by d q)
    pub no_group_args : raw_args q.group_by_exprs ++ built_args d q.sub_group_by_exprs ≡ []
    pub sound_having : IsSoundHaving q.having_clauses
    pub order_takes :
        Takes d
          (1
            + list_size d q
            + source_size d q
            + join_size d q
            + length q.conditions.params
            + length (having_args q.having_clauses))
          (length (order_args d q))
          (build_order_by d q)

  -- The parameters of `buildSQL` before WHERE, and before HAVING.
  abbrev before_where : Dialect → SelectQuery V → List V
  before_where d q =
      (cte_args d q.ctes ++ raw_args q.select_exprs)
      ++ ((rendered d q).1 ++ ((build_from d q).1 ++ (build_joins d q.joins).args))

  length-before_where :
      (d : Dialect) (q : SelectQuery V)
      → IsPlaced d q
      → length (before_where d q) ≡ list_size d q + source_size d q + join_size d q
  unfolding cte_args
  length-before_where d q h =
      let ctes : length (cte_args d q.ctes) ≡ 0 = rw (h.no_ctes, cte_args) refl in
      omega (
        arith,
        ctes,
        length-append (cte_args d q.ctes) (raw_args q.select_exprs),
        length-append (cte_args d q.ctes ++ raw_args q.select_exprs)
            ((rendered d q).1 ++ ((build_from d q).1 ++ (build_joins d q.joins).args)),
        length-append (rendered d q).1 ((build_from d q).1 ++ (build_joins d q.joins).args),
        length-append (build_from d q).1 (build_joins d q.joins).args,
      )

  length-core :
      (before params having group built order : List V)
      → group ++ built ≡ []
      → length ((before ++ params) ++ (having ++ (group ++ (built ++ order))))
        ≡ length before + length params + length having + length order
  length-core before params having group built order h = omega (
    arith,
    length-append (before ++ params) (having ++ (group ++ (built ++ order))),
    length-append before params,
    length-append having (group ++ (built ++ order)),
    length-append group (built ++ order),
    length-append built order,
    length-append group built,
    ap length h,
  )

  build_limit_offset-IsQuiet : (q : SelectQuery V) → IsQuiet (build_limit_offset q)
  unfolding build_limit_offset
  build_limit_offset-IsQuiet q =
      append-IsQuiet (print_limit q.limit_value q.offset_value) (print_offset q.offset_value)
        (print_limit-IsQuiet q.limit_value q.offset_value) (print_offset-IsQuiet q.offset_value)

  clauses-StartsClear :
      (d : Dialect) (q : SelectQuery V) (m n : ℕ)
      → All StartsClear (
          (build_from d q).0
          ∷ (build_joins d q.joins).sql
          ∷ where_clause d m q.conditions
          ∷ build_group_by d q
          ∷ build_having d n q
          ∷ build_order_by d q
          ∷ build_limit_offset q
          ∷ [])
  unfolding build_group_by build_order_by build_limit_offset
  clauses-StartsClear d q m n = (
    build_from-StartsClear d q,
    (
      build_joins-StartsClear d q.joins,
      (
        where_clause-StartsClear d m q.conditions,
        (
          headed-StartsClear (codes " GROUP BY ") _ (λ u. refl),
          (
            build_having-StartsClear d n q,
            (
              headed-StartsClear (codes " ORDER BY ") _ (λ u. refl),
              (
                StartsClear-append (print_limit q.limit_value q.offset_value)
                    (print_offset q.offset_value)
                    (print_limit-StartsClear q.limit_value q.offset_value)
                    (print_offset-StartsClear q.offset_value),
                tt,
              ),
            ),
          ),
        ),
      ),
    ),
  )

  params_of_sound :
      (ws : List Text) (args : List V)
      → count_all question ws ≡ length args
      → params_of ws args ≡ args
  params_of_sound [] [] h = refl
  params_of_sound [] (v ∷ vs) h = absurd (omega arith)
  params_of_sound (w ∷ ws) args h = refl

  where_params_sound : (c : Conditions V) → IsSound c → where_params c ≡ c.params
  unfolding where_params
  where_params_sound c s = params_of_sound c.clauses c.params s.balanced

  build_core-Takes :
      (d : Dialect) (q : SelectQuery V)
      → IsPlaced d q
      → Takes d 1 (length (build_core d q).1) (build_core d q).0
  unfolding build_core
  build_core-Takes d q h =
      let bw = before_where d q in
      let p = length q.conditions.params in
      let l = list_size d q in
      let s = source_size d q in
      let j = join_size d q in
      let v = length (having_args q.having_clauses) in
      let o = length (order_args d q) in
      let bh = bw ++ q.conditions.params in
      let size = length-before_where d q h in
      let at_where : length bw + 1 ≡ 1 + l + s + j = omega (arith, size) in
      let at_having : suc (length bh) ≡ 1 + l + s + j + p =
        omega (arith, size, length-append bw q.conditions.params) in
      let total =
        length-core bw q.conditions.params (having_args q.having_clauses)
          (raw_args q.group_by_exprs) (built_args d q.sub_group_by_exprs) (order_args d q)
          h.no_group_args in
      let split : length bw + p + v + o ≡ l + (s + (j + (p + (v + o)))) = omega (arith, size) in
      rw (build_core, where_params_sound q.conditions h.sound, total ∙ split)
        (chain d l s j p v o _ (build_from d q).0 (build_joins d q.joins).sql
          (where_clause d (length bw + 1) q.conditions) (build_group_by d q)
          (build_having d (length bh) q) (build_order_by d q) (build_limit_offset q) h.list_takes
          h.source_takes h.joins_take
          (subst (λ i. Takes d i p (where_clause d (length bw + 1) q.conditions)) at_where
            (where_clause-Takes d (length bw + 1) q.conditions h.sound))
          h.group_quiet
          (subst (λ i. Takes d i v (build_having d (length bh) q)) at_having
            (build_having-Takes d (length bh) q h.sound_having))
          h.order_takes (build_limit_offset-IsQuiet q)
          (clauses-StartsClear d q (length bw + 1) (length bh)))

  plain_sql :
      (d : Dialect) (ctes : List (CteInfo V)) (unions : List (UnionInfo V)) (main : Text × List V)
      → ctes ≡ []
      → unions ≡ []
      → prepend (with_clause d ctes) (with_unions d unions main) ≡ main
  unfolding prepend with_unions with_clause
  plain_sql d [] [] main h k = refl
  plain_sql d (c ∷ cs) us main h k = cc
  plain_sql d [] (u ∷ us) main h k = cc

  -- The parameters in the order of the clauses: the select list, FROM, the joins, WHERE, HAVING and
  -- ORDER BY.
  abbrev pub select_params : Dialect → SelectQuery V → List V
  select_params d q =
      raw_args q.select_exprs
      ++ ((rendered d q).1
          ++ ((build_from d q).1
              ++ ((build_joins d q.joins).args
                  ++ (q.conditions.params ++ (having_args q.having_clauses ++ order_args d q)))))

  regroup :
      (z a b c e p v g u o : List V)
      → z ≡ []
      → g ++ u ≡ []
      → (((z ++ a) ++ (b ++ (c ++ e))) ++ p) ++ (v ++ (g ++ (u ++ o)))
        ≡ a ++ (b ++ (c ++ (e ++ (p ++ (v ++ o)))))
  regroup z a b c e p v g u o h0 h =
      rw
        (
          h0,
          ← append_assoc g u o,
          h,
          append_assoc (a ++ (b ++ (c ++ e))) p (v ++ o),
          append_assoc a (b ++ (c ++ e)) (p ++ (v ++ o)),
          append_assoc b (c ++ e) (p ++ (v ++ o)),
          append_assoc c e (p ++ (v ++ o)),
        )
        refl

  params-build_core :
      (d : Dialect) (q : SelectQuery V) → IsPlaced d q → (build_core d q).1 ≡ select_params d q
  unfolding build_core cte_args
  params-build_core d q h =
      let no_args : cte_args d q.ctes ≡ [] = rw (h.no_ctes, cte_args) refl in
      rw (build_core, where_params_sound q.conditions h.sound)
        (regroup (cte_args d q.ctes) (raw_args q.select_exprs) (rendered d q).1 (build_from d q).1
          (build_joins d q.joins).args q.conditions.params (having_args q.having_clauses)
          (raw_args q.group_by_exprs) (built_args d q.sub_group_by_exprs) (order_args d q) no_args
          h.no_group_args)

  -- For a SELECT without CTEs, set operations and parameters of GROUP BY, whose select list, FROM,
  -- joins and ORDER BY take the parameters that they bring at the indices where they stand: its
  -- parameters are those of the select list, FROM, the joins, WHERE, HAVING and ORDER BY, in this
  -- order, and it takes exactly these in every dialect. For PostgreSQL this says that WHERE and
  -- HAVING are numbered behind the clauses in front of them; there the hypotheses exclude
  -- parameters in joins by ON and in ORDER BY, which `buildSQL` leaves as `?`. The conditions and
  -- those of HAVING are sound, and the text of GROUP BY holds neither `?` nor `$`.
  pub build_sql-Takes :
      (d : Dialect) (q : SelectQuery V)
      → IsPlaced d q
      → ((build_sql q d).1 ≡ select_params d q)
        × Takes d 1 (length (select_params d q)) (build_sql q d).0
  unfolding build_sql
  build_sql-Takes d q h =
      let same : build_sql q d ≡ build_core d q =
        plain_sql d q.ctes q.unions (build_core d q) h.no_ctes h.no_unions in
      let args = params-build_core d q h in
      (
        ap (λ r. r.1) same ∙ args,
        subst (λ n. Takes d 1 n (build_sql q d).0) (ap length args)
            (subst (λ r. Takes d 1 (length (build_core d q).1) r.0) (sym same)
              (build_core-Takes d q h)),
      )
