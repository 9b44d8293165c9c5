-- ===== src/Prelude/Sort.antt =====
-- `sort.Strings`: the one sorted arrangement of the texts, computed here by insertion.
use Prim.Native.Nat.{ℕ}
use mathlib.Core.Bool.{Bool, true, false}
use mathlib.Core.List.{List, [], ◌∷◌, Perm, Permᴰ}
use mathlib.Core.List.Permᴰ
use mathlib.Core.Path.{◌≡◌, refl, ap₂, ◌∙◌}
use mathlib.Core.Logic.{∥∥₁_elim, inl, inr}
use native.Mathlib.Omega.{arith}
use relica.Prelude.Tests.{ltb, if◌then◌else◌, Bool-cases}

-- The byte-wise order of Go strings.
abbrev pub text_leb : List ℕ → List ℕ → Bool
text_leb [] t = true
text_leb (a ∷ s) [] = false
text_leb (a ∷ s) (b ∷ t) = if ltb a b then true else if ltb b a then false else text_leb s t

text_leb_total : (s t : List ℕ) → text_leb s t ≡ false → text_leb t s ≡ true
text_leb_total [] t h = cc
text_leb_total (a ∷ s) [] h = refl
text_leb_total (a ∷ s) (b ∷ t) h = ground (arith, text_leb_total s t)

text_leb_antisym : (s t : List ℕ) → text_leb s t ≡ true → text_leb t s ≡ true → s ≡ t
text_leb_antisym [] [] h k = refl
text_leb_antisym [] (b ∷ t) h k = cc
text_leb_antisym (a ∷ s) [] h k = cc
text_leb_antisym (a ∷ s) (b ∷ t) h k = ground (arith, text_leb_antisym s t)

text_leb_trans : (s t u : List ℕ) → text_leb s t ≡ true → text_leb t u ≡ true → text_leb s u ≡ true
text_leb_trans [] t u h k = refl
text_leb_trans (a ∷ s) [] u h k = cc
text_leb_trans (a ∷ s) (b ∷ t) [] h k = cc
text_leb_trans (a ∷ s) (b ∷ t) (c ∷ u) h k = ground (arith, text_leb_trans s t u)

insert : List ℕ → List (List ℕ) → List (List ℕ)
insert s [] = s ∷ []
insert s (t ∷ ts) = if text_leb s t then s ∷ t ∷ ts else t ∷ insert s ts

unfoldable pub sort_texts : List (List ℕ) → List (List ℕ)
unfolding insert
sort_texts [] = []
sort_texts (s ∷ ss) = insert s (sort_texts ss)

insert_comm : (s t : List ℕ) (us : List (List ℕ)) → insert s (insert t us) ≡ insert t (insert s us)
unfolding insert
insert_comm s t [] = ground (arith, text_leb_total s t, text_leb_antisym s t)
insert_comm s t (u ∷ us) = ground (
  arith,
  insert_comm s t us,
  text_leb_total s t,
  text_leb_antisym s t,
  text_leb_trans s t u,
  text_leb_trans t s u,
  text_leb_total s u,
  text_leb_total t u,
)

sort_texts-eq_of_permᴰ : {ss ts : List (List ℕ)} → Permᴰ ss ts → sort_texts ss ≡ sort_texts ts
unfolding sort_texts
sort_texts-eq_of_permᴰ Permᴰ.nil = refl
sort_texts-eq_of_permᴰ (Permᴰ.cons e p) = ap₂ insert e (sort_texts-eq_of_permᴰ p)
sort_texts-eq_of_permᴰ (Permᴰ.swap {a} {b} {a'} {b'} {l} e f) =
    rw (e, f) (insert_comm b' a' (sort_texts l))
sort_texts-eq_of_permᴰ (Permᴰ.trans p q) = sort_texts-eq_of_permᴰ p ∙ sort_texts-eq_of_permᴰ q

texts_set : IsSet (List (List ℕ))
texts_set = hlevel

-- The order in which the texts came does not matter.
pub sort_texts-eq_of_perm : {ss ts : List (List ℕ)} → Perm ss ts → sort_texts ss ≡ sort_texts ts
sort_texts-eq_of_perm p = ∥∥₁_elim p (texts_set _ _) sort_texts-eq_of_permᴰ

insert-perm : (s : List ℕ) (ts : List (List ℕ)) → Permᴰ (insert s ts) (s ∷ ts)
unfolding insert
insert-perm s [] = Permᴰ.refl _
insert-perm s (t ∷ ts) = elim (Bool-cases (text_leb s t)) [
  | inl e ↦ rw (e, insert) (Permᴰ.refl _)
  | inr e ↦ rw (e, insert) (Permᴰ.trans (Permᴰ.cons refl (insert-perm s ts)) (Permᴰ.swap refl refl))
]

-- Sorting drops and adds nothing.
pub sort_texts-perm : (ss : List (List ℕ)) → Permᴰ (sort_texts ss) ss
unfolding sort_texts
sort_texts-perm [] = Permᴰ.nil
sort_texts-perm (s ∷ ss) =
    Permᴰ.trans (insert-perm s (sort_texts ss)) (Permᴰ.cons refl (sort_texts-perm ss))
