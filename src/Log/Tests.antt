-- ===== src/Log/Tests.antt =====
-- Tests and examples of the sanitizer and of the sorting of errors.
use relica.Prelude.{ℕ, ◌≡◌, refl, true, List, [], ◌∷◌, some}
use relica.Text.{Text, codes, contains}
use relica.Exp.Values.{Val, dynamic_val, num, string}
use relica.Log.{
  FieldRegexp, new_sanitizer, mask_params, format_params, lower_text, contains_sensitive_pattern,
  is_sensitive_param,
}
use relica.Log.Masked.{format-mask}
use relica.Log.Errors.{
  outside, wrapped, check, is_kind, wrap_error, is_check_violation, wrap_error-is_kind,
}

abbrev substring : FieldRegexp
substring = λ f s. contains s f

abbrev printed : Val → List ℕ
printed v = dynamic_val.print v

abbrev update_password : Text
update_password = codes "UPDATE users SET Password = ?"

masked :
    mask_params substring (new_sanitizer []) update_password (num 3 ∷ [])
    ≡ string (codes "***REDACTED***") ∷ []
unfolding mask_params new_sanitizer lower_text contains_sensitive_pattern is_sensitive_param
    contains
masked = refl

format-mask_example :
    format_params printed
      (mask_params substring (new_sanitizer []) update_password (string (codes "hunter2") ∷ []))
    ≡ format_params printed (mask_params substring (new_sanitizer []) update_password (num 3 ∷ []))
unfolding contains_sensitive_pattern new_sanitizer lower_text contains
format-mask_example =
    format-mask substring (new_sanitizer []) printed update_password (string (codes "hunter2") ∷ [])
      (num 3 ∷ []) is_sensitive refl
  where
    is_sensitive :
        contains_sensitive_pattern substring (new_sanitizer []) (lower_text update_password) ≡ true
    is_sensitive = refl

wrap_error-is_kind_example :
    is_kind (λ e. e) check (some (wrapped (codes "insert") (outside (codes "Error 3819: no"))))
    ≡ true
unfolding wrap_error is_check_violation contains
wrap_error-is_kind_example =
    wrap_error-is_kind (λ e. e) check (some (outside (codes "Error 3819: no"))) (codes "insert")
      refl
