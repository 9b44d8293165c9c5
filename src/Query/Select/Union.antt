-- ===== src/Query/Select/Union.antt =====
-- Set operations where placeholders are not numbered.
use relica.Prelude.{
  ℕ, ◌≡◌, refl, Bool, true, false, ◌&&◌, List, [], ◌∷◌, ◌++◌, arith, length, length-append, All,
  if_elim, append_assoc, append-nil,
}
use relica.Prelude.Maps.{text_eq}
use relica.Text.{Text, codes, question}
use relica.Text.Counts.{count-append}
use relica.Dialect.{Dialect, is_numbered}
use relica.Dialect.Holes.{holes}
use relica.Exp.{IsBalanced}
use relica.Query.Select.{UnionInfo}
use relica.Query.Select.Build.{set_op, shift, set_operations}

holes-set_op : (op : Text) (all : Bool) → holes op ≡ 0 → holes (set_op op all) ≡ 0
unfolding set_op
holes-set_op [] false h = refl
holes-set_op [] true h = refl
holes-set_op (c ∷ op) all h =
    if_elim (λ s. holes s ≡ 0) (all && text_eq (c ∷ op) (codes "UNION")) (codes "UNION ALL")
      (c ∷ op) refl h

shift_plain :
    (d : Dialect) (before n : ℕ) (s : Text) → is_numbered d ≡ false → shift d before n s ≡ s
unfolding shift
shift_plain d before n s e = rw (e, shift) refl

module _ {V : Type 0} where
  -- The united query is balanced, and its keyword holds no `?`.
  abbrev pub IsBalancedUnion : Dialect → UnionInfo V → Type 0
  IsBalancedUnion d u = (holes u.op ≡ 0) × IsBalanced (u.subquery.build d)

  add_union :
      (d : Dialect) (op sql union : Text) (args union_args : List V)
      → holes op ≡ 0
      → IsBalanced (sql, args)
      → IsBalanced (union, union_args)
      → IsBalanced
          (sql ++ (codes " " ++ (op ++ (codes " (" ++ (union ++ codes ")")))), args ++ union_args)
  add_union d op sql union args union_args h b c = omega (
    arith,
    h,
    b,
    c,
    length-append args union_args,
    count-append question sql (codes " " ++ (op ++ (codes " (" ++ (union ++ codes ")")))),
    count-append question op (codes " (" ++ (union ++ codes ")")),
    count-append question union (codes ")"),
  )

  -- The united queries as they are, behind their keywords, and their parameters.
  abbrev pub union_texts : Dialect → List (UnionInfo V) → Text
  union_texts d [] = []
  union_texts d (u ∷ us) =
      (codes " " ++ (set_op u.op u.all ++ (codes " (" ++ ((u.subquery.build d).0 ++ codes ")"))))
      ++ union_texts d us

  abbrev pub union_params : Dialect → List (UnionInfo V) → List V
  union_params d [] = []
  union_params d (u ∷ us) = (u.subquery.build d).1 ++ union_params d us

  set_operations-eq :
      (d : Dialect) (us : List (UnionInfo V)) (sql : Text) (args : List V)
      → is_numbered d ≡ false
      → set_operations d us (sql, args) ≡ (sql ++ union_texts d us, args ++ union_params d us)
  unfolding set_operations
  set_operations-eq d [] sql args e = rw (append-nil sql, append-nil args) refl
  set_operations-eq d (u ∷ us) sql args e =
      let head =
        codes " " ++ (set_op u.op u.all ++ (codes " (" ++ ((u.subquery.build d).0 ++ codes ")"))) in
      rw
        (
          set_operations,
          shift_plain d (length args) (length (u.subquery.build d).1) (u.subquery.build d).0 e,
          set_operations-eq d us (sql ++ head) (args ++ (u.subquery.build d).1) e,
          append_assoc sql head (union_texts d us),
          append_assoc args (u.subquery.build d).1 (union_params d us),
        )
        refl

  add_unions :
      (d : Dialect) (us : List (UnionInfo V)) (sql : Text) (args : List V)
      → is_numbered d ≡ false
      → All (IsBalancedUnion d) us
      → IsBalanced (sql, args)
      → IsBalanced (set_operations d us (sql, args))
  unfolding set_operations
  add_unions d [] sql args e h b = b
  add_unions d (u ∷ us) sql args e h b =
      rw
        (
          set_operations,
          shift_plain d (length args) (length (u.subquery.build d).1) (u.subquery.build d).0 e,
        )
        (add_unions d us _ _ e h.1 (
          add_union d (set_op u.op u.all) sql (u.subquery.build d).0 args (u.subquery.build d).1
            (holes-set_op u.op u.all h.0.0) b h.0.1))

  -- In the dialects whose placeholders are not numbered, the main query is followed by the united
  -- ones, each as it was built, in brackets behind its keyword, and its parameters by theirs, in the
  -- same order; and the whole has one `?` for each parameter. The main query and the united ones
  -- are balanced and the keywords hold no `?`.
  pub set_operations-IsBalanced :
      (d : Dialect) (us : List (UnionInfo V)) (sql : Text) (args : List V)
      → is_numbered d ≡ false
      → All (IsBalancedUnion d) us
      → IsBalanced (sql, args)
      → (set_operations d us (sql, args) ≡ (sql ++ union_texts d us, args ++ union_params d us))
        × IsBalanced (set_operations d us (sql, args))
  set_operations-IsBalanced d us sql args e h b =
      (set_operations-eq d us sql args e, add_unions d us sql args e h b)
