-- ===== src/Log.antt =====
-- internal/logger/sanitizer.go, which masks parameters in the log, and internal/core/errors.go,
-- which sorts errors by their messages.
mod Tests
pub mod Masked
pub mod Errors
use relica.Prelude.{
  ℕ, ◌+◌, ◌-◌, ◌==◌, ltb, leb, ◌&&◌, Bool, true, false, ◌||◌, List, [], ◌∷◌, ◌++◌, if◌then◌else◌,
  map, length, take,
}
use relica.Text.{Text, codes, join}
use relica.Exp.{View, nil, text, params, slice, exp, query, other, Dynamic, view_of}

-- `regexp`: `MustCompile` of `(?i)\b`, a quoted field and `\b`, and `MatchString` of it on a text.
abbrev pub FieldRegexp : Type 0
FieldRegexp = Text → Text → Bool

-- `strings.ToLower`, as far as the result is ASCII: besides the capital letters, U+0130 becomes i
-- and U+212A becomes k.
abbrev pub lower_char : ℕ → ℕ
lower_char c =
    if c == 304
    then b'i'
    else if c == 8490
    then b'k'
    else if leb b'A' c && leb c b'Z'
    then c + 32
    else c

unfoldable pub lower_text : Text → Text
lower_text s = map lower_char s

abbrev pub default_mask_value : Text
default_mask_value = codes "***REDACTED***"

-- `Sanitizer`: its patterns are given by their fields.
pub record Sanitizer : Type 0 where
  pub sensitive_fields : List Text
  pub mask_value : Text

abbrev pub default_fields : List Text
default_fields =
    codes "password"
    ∷ codes "passwd"
    ∷ codes "pwd"
    ∷ codes "token"
    ∷ codes "api_key"
    ∷ codes "apikey"
    ∷ codes "api_token"
    ∷ codes "secret"
    ∷ codes "auth"
    ∷ codes "authorization"
    ∷ codes "credit_card"
    ∷ codes "card_number"
    ∷ codes "cvv"
    ∷ codes "cvc"
    ∷ codes "ssn"
    ∷ codes "social_security"
    ∷ codes "private_key"
    ∷ codes "priv_key"
    ∷ []

abbrev pub or_default : List Text → List Text
or_default [] = default_fields
or_default (f ∷ fs) = f ∷ fs

-- `NewSanitizer`.
unfoldable pub new_sanitizer : List Text → Sanitizer
new_sanitizer fields = record {
  sensitive_fields = or_default fields;
  mask_value = default_mask_value;
}

abbrev pub any_field : FieldRegexp → List Text → Text → Bool
any_field re [] sql = false
any_field re (f ∷ fs) sql = if re f sql then true else any_field re fs sql

-- `containsSensitivePattern`.
unfoldable pub contains_sensitive_pattern : FieldRegexp → Sanitizer → Text → Bool
contains_sensitive_pattern re s sql = any_field re s.sensitive_fields sql

-- `v, ok := param.(string)` and `len(v) > 8`, where `len` counts bytes: `width` is the number of
-- bytes of a text.
abbrev pub is_long : {V : Type 0} → (Text → ℕ) → View V → Bool
is_long width (text v) = ltb 8 (width v)
is_long width nil = false
is_long width (params p) = false
is_long width (slice vs) = false
is_long width (exp build) = false
is_long width (query build) = false
is_long width other = false

-- The bytes of a text in UTF-8.
abbrev pub char_width : ℕ → ℕ
char_width c = if ltb c 128 then 1 else if ltb c 2048 then 2 else if ltb c 65536 then 3 else 4

abbrev pub byte_length : Text → ℕ
byte_length [] = 0
byte_length (c ∷ s) = char_width c + byte_length s

module _ {V : Type 0} ⦃dyn : Dynamic V⦄ (re : FieldRegexp) (s : Sanitizer) where
  -- `isSensitiveParam`.
  unfoldable pub is_sensitive_param : Text → V → Bool
  is_sensitive_param sql v =
      let sql_lower = lower_text sql in
      if is_long byte_length (view_of v) && contains_sensitive_pattern re s sql_lower
      then true
      else contains_sensitive_pattern re s sql_lower

  abbrev pub mask_one : Text → V → V
  mask_one sql v = if is_sensitive_param sql v then dyn.of_text s.mask_value else v

  -- `MaskParams`.
  unfoldable pub mask_params : Text → List V → List V
  mask_params sql [] = []
  mask_params sql (p ∷ ps) =
      if any_field re s.sensitive_fields (lower_text sql)
      then map (mask_one sql) (p ∷ ps)
      else p ∷ ps

-- Values for the log are byte strings; `print_bytes` is `fmt.Sprintf("%v", v)`.
module _ {V : Type 0} ⦃dyn : Dynamic V⦄ (print_bytes : V → List ℕ) where
  abbrev pub max_len : ℕ
  max_len = 100

  abbrev pub truncate : List ℕ → List ℕ
  truncate str = if ltb max_len (length str) then take max_len str ++ codes "..." else str

  abbrev pub format_view : V → View V → List ℕ
  format_view v nil = codes "NULL"
  format_view v (text t) = truncate (print_bytes v)
  format_view v (params p) = truncate (print_bytes v)
  format_view v (slice vs) = truncate (print_bytes v)
  format_view v (exp build) = truncate (print_bytes v)
  format_view v (query build) = truncate (print_bytes v)
  format_view v other = truncate (print_bytes v)

  -- `formatValue`.
  unfoldable pub format_value : V → List ℕ
  format_value v = format_view v (view_of v)

  -- `FormatParams`.
  unfoldable pub format_params : List V → List ℕ
  format_params [] = codes "[]"
  format_params (p ∷ ps) = codes "[" ++ (join (codes ", ") (map format_value (p ∷ ps)) ++ codes "]")
