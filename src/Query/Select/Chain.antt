-- ===== src/Query/Select/Chain.antt =====
-- The clauses of a SELECT one after the other.
use relica.Prelude.{
  ℕ, suc, ◌+◌, ◌≡◌, refl, false, List, [], ◌∷◌, ◌++◌, if_elim, Option, none, some, arith, length,
  append_assoc, All,
}
use relica.Prelude.Ints.{ℤ, pos, negsuc}
use relica.Text.{Text, codes, question, join}
use relica.Text.Decimal.{decimal, decimal-All, count_of_digits, count_below_digits}
use relica.Text.Fields.{print_int}
use relica.Dialect.{Dialect, postgres, mysql, sqlite, is_numbered, placeholder}
use relica.Dialect.Holes.{holes}
use relica.Exp.{Dynamic, view_of}
use relica.Query.Slots.{is_digit_head, is_digit_head-number, dollar, IsClear}
use relica.Query.Number.{renumber-number}
use relica.Query.Takes.{
  Takes, Takes-append, Takes-after, Takes-before, StartsClear, IsQuiet, append-IsQuiet,
  renumber-IsNumbered,
}
use relica.Query.Select.{SelectQuery, HavingClause, FromSource, from_table, from_subquery, JoinInfo}
use relica.Query.Select.Clauses.{print_limit, print_offset, headed}
use relica.Query.Select.Sources.{
  build_from, from_source, add_join, join_head, on_view, build_joins, build_having, having_args,
  having_text,
}

pub StartsClear-append : (s t : Text) → StartsClear s → StartsClear t → StartsClear (s ++ t)
StartsClear-append s t h k u e = rw (append_assoc s t u) (h (t ++ u) (k u e))

pub print_int-IsQuiet : (n : ℤ) → IsQuiet (print_int n)
unfolding print_int
print_int-IsQuiet (pos n) = (
  count_of_digits question (decimal n) (decimal-All n) (omega arith),
  count_below_digits dollar (decimal n) (decimal-All n) (omega arith),
)
print_int-IsQuiet (negsuc n) = (
  count_of_digits question (decimal (suc n)) (decimal-All (suc n)) (omega arith),
  count_below_digits dollar (decimal (suc n)) (decimal-All (suc n)) (omega arith),
)

pub print_limit-IsQuiet : (a b : Option ℤ) → IsQuiet (print_limit a b)
unfolding print_limit
print_limit-IsQuiet (some n) b =
    append-IsQuiet (codes " LIMIT ") (print_int n) (refl, refl) (print_int-IsQuiet n)
print_limit-IsQuiet none none = (refl, refl)
print_limit-IsQuiet none (some n) = (refl, refl)

pub print_offset-IsQuiet : (b : Option ℤ) → IsQuiet (print_offset b)
unfolding print_offset
print_offset-IsQuiet none = (refl, refl)
print_offset-IsQuiet (some n) =
    append-IsQuiet (codes " OFFSET ") (print_int n) (refl, refl) (print_int-IsQuiet n)

pub print_limit-StartsClear : (a b : Option ℤ) → StartsClear (print_limit a b)
unfolding print_limit
print_limit-StartsClear (some n) b = λ u e. refl
print_limit-StartsClear none none = λ u e. e
print_limit-StartsClear none (some n) = λ u e. refl

pub print_offset-StartsClear : (b : Option ℤ) → StartsClear (print_offset b)
unfolding print_offset
print_offset-StartsClear none = λ u e. e
print_offset-StartsClear (some n) = λ u e. refl

-- A text that begins with a blank.
abbrev pub Starts : Text → Type 0
Starts s = (u : Text) → is_digit_head (s ++ u) ≡ false

Starts-append : (s t : Text) → Starts s → StartsClear (s ++ t)
Starts-append s t h u e = rw (append_assoc s t u) (h (t ++ u))

pub headed-StartsClear : (head : Text) (ps : List Text) → Starts head → StartsClear (headed head ps)
unfolding headed
headed-StartsClear head [] h = λ u e. e
headed-StartsClear head (p ∷ ps) h = Starts-append head (join (codes ", ") (p ∷ ps)) h

-- The clauses one after the other.
pub chain :
    (d : Dialect) (n0 n1 n2 n3 n4 n5 : ℕ) (sel src joins wh grp hav ord lim : Text)
    → Takes d 1 n0 sel
    → Takes d (1 + n0) n1 src
    → Takes d (1 + n0 + n1) n2 joins
    → Takes d (1 + n0 + n1 + n2) n3 wh
    → IsQuiet grp
    → Takes d (1 + n0 + n1 + n2 + n3) n4 hav
    → Takes d (1 + n0 + n1 + n2 + n3 + n4) n5 ord
    → IsQuiet lim
    → All StartsClear (src ∷ joins ∷ wh ∷ grp ∷ hav ∷ ord ∷ lim ∷ [])
    → Takes d 1
        (n0 + (n1 + (n2 + (n3 + (n4 + n5)))))
        (codes "SELECT " ++ (sel ++ (src ++ (joins ++ (wh ++ (grp ++ (hav ++ (ord ++ lim))))))))
chain d n0 n1 n2 n3 n4 n5 sel src joins wh grp hav ord lim h0 h1 h2 h3 hg h4 h5 hl
      (c1, (c2, (c3, (cg, (c4, (c5, (cl, _))))))) =
    let t5 = Takes-before d (1 + n0 + n1 + n2 + n3 + n4) n5 ord lim h5 hl cl in
    let s5 = StartsClear-append ord lim c5 cl in
    let t4 = Takes-append d (1 + n0 + n1 + n2 + n3) n4 n5 hav (ord ++ lim) h4 t5 s5 in
    let s4 = StartsClear-append hav (ord ++ lim) c4 s5 in
    let tg = Takes-after d (1 + n0 + n1 + n2 + n3) (n4 + n5) grp (hav ++ (ord ++ lim)) hg t4 in
    let sg = StartsClear-append grp (hav ++ (ord ++ lim)) cg s4 in
    let t3 = Takes-append d (1 + n0 + n1 + n2) n3 (n4 + n5) wh _ h3 tg sg in
    let s3 = StartsClear-append wh (grp ++ (hav ++ (ord ++ lim))) c3 sg in
    let t2 = Takes-append d (1 + n0 + n1) n2 (n3 + (n4 + n5)) joins _ h2 t3 s3 in
    let s2 = StartsClear-append joins (wh ++ (grp ++ (hav ++ (ord ++ lim)))) c2 s3 in
    let t1 = Takes-append d (1 + n0) n1 (n2 + (n3 + (n4 + n5))) src _ h1 t2 s2 in
    let s1 = StartsClear-append src (joins ++ (wh ++ (grp ++ (hav ++ (ord ++ lim))))) c1 s2 in
    let t0 = Takes-append d 1 n0 (n1 + (n2 + (n3 + (n4 + n5)))) sel _ h0 t1 s1 in
    Takes-after d 1 (n0 + (n1 + (n2 + (n3 + (n4 + n5))))) (codes "SELECT ") _ (refl, refl) t0

module _ {V : Type 0} where
  -- The HAVING clauses are balanced and clear together.
  pub record IsSoundHaving (cs : List (HavingClause V)) : Type 0 where
    pub balanced : holes (having_text cs) ≡ length (having_args cs)
    pub clear : IsClear (having_text cs)

  pub build_having-Takes :
      (d : Dialect) (before : ℕ) (q : SelectQuery V)
      → IsSoundHaving q.having_clauses
      → Takes d (suc before) (length (having_args q.having_clauses)) (build_having d before q)
  unfolding build_having is_numbered placeholder
  build_having-Takes postgres before q h =
      renumber-IsNumbered (suc before) (length (having_args q.having_clauses))
        (having_text q.having_clauses) h.balanced h.clear
  build_having-Takes mysql before q h = h.balanced
  build_having-Takes sqlite before q h = h.balanced

  pub build_from-StartsClear : (d : Dialect) (q : SelectQuery V) → StartsClear (build_from d q).0
  unfolding build_from from_source
  build_from-StartsClear d q = go q.from_src
    where
      go : (src : Option (FromSource V)) → StartsClear (from_source d src).0
      go none = λ u e. e
      go (some (from_table table)) = λ u e. refl
      go (some (from_subquery sub alias)) = λ u e. refl

  having_text-StartsClear : (cs : List (HavingClause V)) → StartsClear (having_text cs)
  unfolding having_text
  having_text-StartsClear [] = λ u e. e
  having_text-StartsClear (c ∷ cs) = λ u e. refl

  having_text-head : (cs : List (HavingClause V)) → is_digit_head (having_text cs) ≡ false
  unfolding having_text
  having_text-head [] = refl
  having_text-head (c ∷ cs) = refl

  pub build_having-StartsClear :
      (d : Dialect) (before : ℕ) (q : SelectQuery V) → StartsClear (build_having d before q)
  unfolding build_having is_numbered placeholder
  build_having-StartsClear postgres before q = λ u e. rw renumber-number (
      is_digit_head-number (suc before) (length (having_args q.having_clauses))
        (having_text q.having_clauses) u (having_text-head q.having_clauses) e)
  build_having-StartsClear mysql before q = having_text-StartsClear q.having_clauses
  build_having-StartsClear sqlite before q = having_text-StartsClear q.having_clauses

module _ {V : Type 0} ⦃dyn : Dynamic V⦄ where
  pub build_joins-StartsClear :
      (d : Dialect) (js : List (JoinInfo V)) → StartsClear (build_joins d js).sql
  unfolding build_joins add_join join_head
  build_joins-StartsClear d [] = λ u e. e
  build_joins-StartsClear d (j ∷ js) = go (on_view d (view_of j.on))
    where
      go :
          (on : Option (Text × List V))
          → StartsClear (add_join (join_head d j) on (build_joins d js)).sql
      go none = λ u e. e
      go (some (sql, args)) =
          if_elim StartsClear (build_joins d js).bad []
            (join_head d j ++ (sql ++ (build_joins d js).sql)) (λ u e. e) (λ u e. refl)
