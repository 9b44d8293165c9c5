-- ===== src/Model/Changed.antt =====
-- `UpdateChanged` of a model.
use relica.Prelude.{
  ◌≡◌, refl, Bool, true, false, ◌||◌, List, [], ◌∷◌, some, All, Option-cases, inl, inr,
}
use relica.Prelude.Maps.{keys}
use relica.Text.{Text, is_empty}
use relica.Dialect.{Dialect}
use relica.Exp.{Dynamic}
use relica.Query.{Query}
use relica.Model.{Field, find_primary_keys, column_of, contains}
use relica.Model.Statement.{
  nothing_to_do, ModelQuery, diff_from, note_change, update_diff, beside, update_changed,
}

module _ {V : Type 0} ⦃dyn : Dynamic V⦄ (same : V → V → Bool) where
  -- The field has the original's value.
  abbrev pub IsUnchanged : Field V × V → Type 0
  IsUnchanged (f, old) = same f.value old ≡ true

  or_true : (b c : Bool) → c ≡ true → (b || c) ≡ true
  or_true true c h = refl
  or_true false c h = h

  diff_from-unchanged :
      (pks : List Text) (m : List (Text × V)) (fs : List (Field V × V))
      → All IsUnchanged fs
      → diff_from same pks m fs ≡ m
  unfolding diff_from
  diff_from-unchanged pks m [] h = refl
  diff_from-unchanged pks m ((f, old) ∷ fs) h =
      let e : note_change same pks f old m ≡ m = elim (Option-cases (column_of f)) [
        | inl a ↦ rw (note_change, a) refl
        | inr (c, a) ↦ rw (note_change, a, or_true (contains c pks) (same f.value old) h.0) refl
      ] in
      rw e (diff_from-unchanged pks m fs h.1)

  abbrev AreIn : List Text → List Text → Type 0
  AreIn all ks = All (λ k. contains k all ≡ true) ks

  -- Where every field has the original's value, `UpdateChanged` builds no query.
  pub update_changed-unchanged :
      (d : Dialect) (q : ModelQuery V) (original : List V) (fs : List (Field V × V))
      → is_empty q.table ≡ false
      → beside q.fields original ≡ some fs
      → All IsUnchanged fs
      → update_changed same d q original ≡ nothing_to_do
  unfolding update_changed update_diff
  update_changed-unchanged d q original fs t e h =
      rw (update_changed, t, e, diff_from-unchanged (keys (find_primary_keys q.fields)) [] fs h)
        refl
