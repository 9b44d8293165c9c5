-- ===== src/Log/Masked.antt =====
-- The masking of parameters in internal/logger/sanitizer.go hides them, or leaves them as they are.
use relica.Prelude.{
  ℕ, zero, suc, ◌≤◌, ◌≡◌, refl, ap, true, List, [], ◌∷◌, map, arith, length, take, ltb,
  length-append, Bool-cases, inl, inr, if◌then◌else◌,
}
use relica.Text.{Text, codes}
use relica.Exp.{View, nil, text, params, slice, exp, query, other, Dynamic, view_of}
use relica.Log.{
  FieldRegexp, Sanitizer, any_field, lower_text, contains_sensitive_pattern, is_sensitive_param,
  mask_one, mask_params, truncate, format_view, format_value, format_params,
}

module _ {V : Type 0} ⦃dyn : Dynamic V⦄ (re : FieldRegexp) (s : Sanitizer) where
  -- The mask, once for each parameter.
  abbrev pub masks : List V → List V
  masks ps = map (λ v. dyn.of_text s.mask_value) ps

  is_sensitive_param-eq :
      (sql : Text) (v : V)
      → is_sensitive_param re s sql v ≡ any_field re s.sensitive_fields (lower_text sql)
  unfolding is_sensitive_param contains_sensitive_pattern
  is_sensitive_param-eq sql v = ground arith

  mask_all :
      (sql : Text) (ps : List V)
      → any_field re s.sensitive_fields (lower_text sql) ≡ true
      → map (mask_one re s sql) ps ≡ masks ps
  mask_all sql [] h = refl
  mask_all sql (p ∷ ps) h =
      rw (is_sensitive_param-eq sql p, h) (ap (◌∷◌ (dyn.of_text s.mask_value)) (mask_all sql ps h))

  -- MaskParams replaces every parameter by the mask if a sensitive field occurs in the query, and
  -- else returns the parameters as they are: the types and lengths of the values do not count.
  pub mask_params-cases :
      (sql : Text) (ps : List V)
      → mask_params re s sql ps
        ≡ (if contains_sensitive_pattern re s (lower_text sql) then masks ps else ps)
  unfolding mask_params contains_sensitive_pattern
  mask_params-cases sql [] = ground arith
  mask_params-cases sql (p ∷ ps) =
      elim (Bool-cases (any_field re s.sensitive_fields (lower_text sql))) [
        | inl e ↦ rw e (mask_all sql (p ∷ ps) e)
        | inr e ↦ rw e refl
      ]

  masks-eq : (ps qs : List V) → length ps ≡ length qs → masks ps ≡ masks qs
  masks-eq [] [] h = refl
  masks-eq [] (q ∷ qs) h = absurd (omega arith)
  masks-eq (p ∷ ps) [] h = absurd (omega arith)
  masks-eq (p ∷ ps) (q ∷ qs) h = ap (◌∷◌ (dyn.of_text s.mask_value)) (masks-eq ps qs (omega arith))

  -- Where a sensitive field occurs in the query, what is logged of the parameters depends on their
  -- number alone.
  pub format-mask :
      (print_bytes : V → List ℕ) (sql : Text) (ps qs : List V)
      → contains_sensitive_pattern re s (lower_text sql) ≡ true
      → length ps ≡ length qs
      → format_params print_bytes (mask_params re s sql ps)
        ≡ format_params print_bytes (mask_params re s sql qs)
  format-mask print_bytes sql ps qs h n =
      rw (mask_params-cases sql ps, mask_params-cases sql qs, h, masks-eq ps qs n) refl

length-take : (n : ℕ) (xs : List ℕ) → length (take n xs) ≤ n
length-take zero xs = omega arith
length-take (suc n) [] = omega arith
length-take (suc n) (x ∷ xs) = omega (arith, length-take n xs)

module _ {V : Type 0} ⦃dyn : Dynamic V⦄ (print_bytes : V → List ℕ) where
  length-truncate : (str : List ℕ) → length (truncate print_bytes str) ≤ 103
  length-truncate str = elim (Bool-cases (ltb 100 (length str))) [
    | inl e ↦
        rw (e, length-append (take 100 str) (codes "...")) (omega (arith, length-take 100 str))
    | inr e ↦ rw e (ground arith)
  ]

  length-format_view : (v : V) (w : View V) → length (format_view print_bytes v w) ≤ 103
  length-format_view v nil = omega arith
  length-format_view v (text t) = length-truncate (print_bytes v)
  length-format_view v (params p) = length-truncate (print_bytes v)
  length-format_view v (slice vs) = length-truncate (print_bytes v)
  length-format_view v (exp build) = length-truncate (print_bytes v)
  length-format_view v (query build) = length-truncate (print_bytes v)
  length-format_view v other = length-truncate (print_bytes v)

  -- A logged value has at most 103 bytes.
  pub length-format_value : (v : V) → length (format_value print_bytes v) ≤ 103
  unfolding format_value
  length-format_value v = length-format_view v (view_of v)
