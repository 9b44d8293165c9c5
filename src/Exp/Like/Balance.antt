-- ===== src/Exp/Like/Balance.antt =====
-- The parameters of a LIKE expression.
use relica.Prelude.{ℕ, ◌≡◌, refl, List, [], ◌∷◌, ◌++◌, Option, none, some, arith, length}
use relica.Text.{Text, codes, question}
use relica.Text.Counts.{count-append, count_all, count-join}
use relica.Dialect.{Dialect, quote_column}
use relica.Dialect.Holes.{holes, holes-quote_column}
use relica.Exp.{Dynamic, IsBalanced}
use relica.Exp.Like.{LikeExp, like_parts, like_args, like_values, build_like}

module _ (V : Type 0) ⦃dyn : Dynamic V⦄ where
  like_parts-like_args :
      (col : Text) (e : LikeExp) (vals : List Text)
      → holes col ≡ 0
      → holes e.like ≡ 0
      → count_all question (like_parts col e vals) ≡ length (like_args {V = V} e vals)
  unfolding like_parts like_args
  like_parts-like_args col e [] h k = refl
  like_parts-like_args col e (val ∷ vals) h k = omega (
    arith,
    count-append question col (codes " " ++ (e.like ++ codes " ?")),
    count-append question e.like (codes " ?"),
    like_parts-like_args col e vals h k,
  )

  like_values-IsBalanced :
      (e : LikeExp) (vals : List Text) (err : Option ℕ) (d : Dialect)
      → holes e.col ≡ 0
      → holes e.like ≡ 0
      → IsBalanced {V = V} (like_values e vals err d)
  unfolding like_values
  like_values-IsBalanced e vals (some n) d h k = refl
  like_values-IsBalanced e [] none d h k = refl
  like_values-IsBalanced e (val ∷ vals) none d h k =
      let parts = like_parts (quote_column e.col d) e (val ∷ vals) in
      ground (
        arith,
        holes-quote_column d e.col,
        like_parts-like_args (quote_column e.col d) e (val ∷ vals),
        count-join question (codes " OR ") parts refl,
        count-join question (codes " AND ") parts refl,
      )

  -- A LIKE expression whose column and keyword hold no `?` is balanced, also after a refused
  -- `EscapeChars`.
  pub build_like-IsBalanced :
      (e : LikeExp) (d : Dialect)
      → holes e.col ≡ 0
      → holes e.like ≡ 0
      → IsBalanced {V = V} (build_like e d)
  unfolding build_like
  build_like-IsBalanced e d h k = like_values-IsBalanced e e.values e.err d h k
