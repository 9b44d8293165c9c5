-- ===== src/Exp/Hash.antt =====
-- `HashExp` of internal/core/expression.go: a map of column names to values.
use relica.Prelude.{◌≡◌, refl, List, [], ◌∷◌, ◌++◌, if◌then◌else◌, arith, All}
use relica.Prelude.Maps.{lookup_or, sorted_keys, SameMap, sorted_keys-eq, lookup_or-eq}
use relica.Text.{Text, codes, is_empty, join, question}
use relica.Text.Counts.{count-append, count-join}
use relica.Dialect.{Dialect, quote_column}
use relica.Dialect.Holes.{holes, holes-quote_column}
use relica.Exp.{
  Expression, View, nil, text, params, slice, exp, query, other, Dynamic, view_of, IsBalanced,
  IsBalancedValue,
}
use relica.Exp.In.{always_false, is_in, build_in, build_in-IsBalanced}
use relica.Exp.Logic.{add_part, add_part-IsBalanced, IsBalancedParts}

abbrev pub HashExp : Type 0 → Type 0
HashExp V = List (Text × V)

module _ {V : Type 0} ⦃dyn : Dynamic V⦄ where
  wrap : Text × List V → Text × List V
  wrap (sql, args) = if is_empty sql then ([], []) else (codes "(" ++ (sql ++ codes ")"), args)

  build_slice : Text → List V → Expression V
  build_slice key [] d = (always_false, [])
  build_slice key (v ∷ vs) d = build_in (is_in key (v ∷ vs)) d

  build_view : Text → V → View V → Expression V
  unfolding wrap build_slice
  build_view key v nil d = (quote_column key d ++ codes " IS NULL", [])
  build_view key v (exp build) d = wrap (build d)
  build_view key v (slice vs) d = build_slice key vs d
  build_view key v other_view d = (quote_column key d ++ codes " = ?", v ∷ [])

  unfoldable pub build_hash_exp_value : Text → V → Expression V
  unfolding build_view
  build_hash_exp_value key value d = build_view key value (view_of value) d

  -- The loop over the sorted keys.
  build_keys : HashExp V → Dialect → List Text → List Text × List V
  unfolding build_hash_exp_value
  build_keys m d [] = ([], [])
  build_keys m d (k ∷ ks) =
      add_part (build_hash_exp_value k (lookup_or dyn.null k m) d) (build_keys m d ks)

  conjoin : List Text × List V → Text × List V
  conjoin ([], args) = ([], [])
  conjoin (p ∷ [], args) = (p, args)
  conjoin (p ∷ q ∷ ps, args) = (join (codes " AND ") (p ∷ q ∷ ps), args)

  -- `len(e) == 0` gives what no part gives.
  unfoldable pub build_hash : HashExp V → Expression V
  unfolding build_keys conjoin
  build_hash m d = conjoin (build_keys m d (sorted_keys m))

  build_keys-eq :
      {m n : HashExp V} (d : Dialect) (ks : List Text)
      → SameMap m n
      → build_keys m d ks ≡ build_keys n d ks
  unfolding build_keys
  build_keys-eq d [] s = refl
  build_keys-eq d (k ∷ ks) s = rw (lookup_or-eq dyn.null k s, build_keys-eq d ks s)

  -- The SQL and the parameters of a hash expression do not depend on the order in which Go
  -- ranges over the map.
  pub build_hash_deterministic :
      {m n : HashExp V} (d : Dialect) → SameMap m n → build_hash m d ≡ build_hash n d
  unfolding build_hash
  build_hash_deterministic d s = rw (sorted_keys-eq s, build_keys-eq d _ s)

  wrap-IsBalanced : (f : Text × List V) → IsBalanced f → IsBalanced (wrap f)
  unfolding wrap
  wrap-IsBalanced (sql, args) b = ground (arith, count-append question sql (codes ")"))

  -- A slice in a hash expression holds balanced values too.
  abbrev pub IsBalancedEntry : Dialect → View V → Type 0
  IsBalancedEntry d (slice vs) = All (IsBalancedValue d) vs
  IsBalancedEntry d (exp build) = IsBalanced (build d)
  IsBalancedEntry d nil = Unit
  IsBalancedEntry d (text s) = Unit
  IsBalancedEntry d (params p) = Unit
  IsBalancedEntry d (query build) = Unit
  IsBalancedEntry d other = Unit

  build_view-IsBalanced :
      (key : Text) (v : V) (w : View V) (d : Dialect)
      → holes key ≡ 0
      → IsBalancedEntry d w
      → IsBalanced (build_view key v w d)
  unfolding build_view
  build_view-IsBalanced key v (exp build) d h b = wrap-IsBalanced (build d) b
  build_view-IsBalanced key v (slice []) d h b = refl
  build_view-IsBalanced key v (slice (x ∷ xs)) d h b =
      build_in-IsBalanced (is_in key (x ∷ xs)) d h b
  build_view-IsBalanced key v nil d h b = omega (
    arith,
    count-append question (quote_column key d) (codes " IS NULL"),
    holes-quote_column d key,
  )
  build_view-IsBalanced key v _ d h b =
      omega
        (arith, count-append question (quote_column key d) (codes " = ?"), holes-quote_column d key)

  build_keys-IsBalanced :
      (m : HashExp V) (d : Dialect) (ks : List Text)
      → All (λ k. (holes k ≡ 0) × IsBalancedEntry d (view_of (lookup_or dyn.null k m))) ks
      → IsBalancedParts (build_keys m d ks)
  unfolding build_keys
  build_keys-IsBalanced m d [] h = refl
  build_keys-IsBalanced m d (k ∷ ks) h =
      let v = lookup_or dyn.null k m in
      add_part-IsBalanced (build_hash_exp_value k v d) (build_keys m d ks)
        (build_view-IsBalanced k v (view_of v) d h.0.0 h.0.1) (build_keys-IsBalanced m d ks h.1)

  conjoin-IsBalanced : (acc : List Text × List V) → IsBalancedParts acc → IsBalanced (conjoin acc)
  unfolding conjoin
  conjoin-IsBalanced ([], args) b = refl
  conjoin-IsBalanced (p ∷ [], args) b = omega arith
  conjoin-IsBalanced (p ∷ q ∷ ps, args) b =
      omega (arith, count-join question (codes " AND ") (p ∷ q ∷ ps) refl)

  -- A hash expression whose columns hold no `?` and whose nested values are balanced is balanced.
  pub build_hash-IsBalanced :
      (m : HashExp V) (d : Dialect)
      → All
          (λ k. (holes k ≡ 0) × IsBalancedEntry d (view_of (lookup_or dyn.null k m)))
          (sorted_keys m)
      → IsBalanced (build_hash m d)
  unfolding build_hash
  build_hash-IsBalanced m d h =
      conjoin-IsBalanced (build_keys m d (sorted_keys m)) (build_keys-IsBalanced m d _ h)
