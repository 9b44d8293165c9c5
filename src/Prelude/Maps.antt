-- ===== src/Prelude/Maps.antt =====
-- Go maps with string keys, as association lists: the order of the list is one order in which
-- `range` may visit the keys.
use mathlib.Core.Bool.{Bool, true, false}
use mathlib.Core.List.{List, [], ◌∷◌, Perm}
use mathlib.Core.Option.{Option, none, some}
use mathlib.Core.Path.{◌≡◌, refl}
use native.Mathlib.Omega.{arith}
use relica.Prelude.Tests.{◌==◌, if◌then◌else◌}
use relica.Prelude.Sort.{sort_texts, sort_texts-eq_of_perm}
use Prim.Native.Nat.{ℕ}
use mathlib.Core.Bool.{◌&&◌}

-- `a == b` on strings.
abbrev pub text_eq : List ℕ → List ℕ → Bool
text_eq [] [] = true
text_eq [] (b ∷ t) = false
text_eq (a ∷ s) [] = false
text_eq (a ∷ s) (b ∷ t) = a == b && text_eq s t

pub text_eq→≡ : (s t : List ℕ) → text_eq s t ≡ true → s ≡ t
text_eq→≡ [] [] h = refl
text_eq→≡ [] (b ∷ t) h = cc
text_eq→≡ (a ∷ s) [] h = cc
text_eq→≡ (a ∷ s) (b ∷ t) h = ground (arith, text_eq→≡ s t)

pub text_eq_refl : (s : List ℕ) → text_eq s s ≡ true
text_eq_refl [] = refl
text_eq_refl (a ∷ s) = ground (arith, text_eq_refl s)

module _ {V : Type 0} where
  -- `v, ok := m[k]`.
  abbrev pub lookup : List ℕ → List (List ℕ × V) → Option V
  lookup k [] = none
  lookup k ((j, v) ∷ m) = if text_eq j k then some v else lookup k m

  -- `m[k]`, which is nil for a missing key.
  abbrev pub lookup_or : V → List ℕ → List (List ℕ × V) → V
  lookup_or null k m = elim (lookup k m) [ none ↦ null | some v ↦ v ]

  abbrev pub keys : List (List ℕ × V) → List (List ℕ)
  keys [] = []
  keys ((k, v) ∷ m) = k ∷ keys m

  -- `getKeys`, and the same lines at the head of `HashExp.Build`.
  unfoldable pub sorted_keys : List (List ℕ × V) → List (List ℕ)
  sorted_keys m = sort_texts (keys m)

  -- Two listings of one map: they differ in the order of the entries alone.
  pub record SameMap (m n : List (List ℕ × V)) : Type 0 where
    pub same_keys : Perm (keys m) (keys n)
    pub same_values : (k : List ℕ) → lookup k m ≡ lookup k n

  pub sorted_keys-eq : {m n : List (List ℕ × V)} → SameMap m n → sorted_keys m ≡ sorted_keys n
  unfolding sorted_keys
  sorted_keys-eq s = sort_texts-eq_of_perm s.same_keys

  pub lookup_or-eq :
      {m n : List (List ℕ × V)} (null : V) (k : List ℕ)
      → SameMap m n
      → lookup_or null k m ≡ lookup_or null k n
  lookup_or-eq null k s = rw (s.same_values k, lookup_or)
