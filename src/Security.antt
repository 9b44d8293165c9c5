-- ===== src/Security.antt =====
-- internal/security/validator.go: the validator of queries and parameters.
mod Tests
pub mod Guard
use relica.Prelude.{
  ℕ, suc, Bool, true, false, ◌||◌, List, [], ◌∷◌, ◌++◌, if◌then◌else◌, Option, none, some,
}
use relica.Text.{Text, codes, contains}
use relica.Text.Trim.{upper_text}
use relica.Exp.{View, nil, text, params, slice, exp, query, other, Dynamic, view_of}

-- Package `regexp`: whether a pattern compiles, and `MatchString`.
pub record Regexp : Type 0 where
  pub compiles : Text → Bool
  pub matches : Text → Text → Bool

-- `Validator`, its patterns by their sources.
pub record Validator : Type 0 where
  pub patterns : List Text
  pub strict : Bool

abbrev pub dangerous_patterns : List Text
dangerous_patterns =
    codes "--[\\s]"
    ∷ codes "/\\*.*\\*/"
    ∷ codes "#[\\s]"
    ∷ codes ";\\s*DROP\\s+"
    ∷ codes ";\\s*DELETE\\s+"
    ∷ codes ";\\s*TRUNCATE\\s+"
    ∷ codes ";\\s*ALTER\\s+"
    ∷ codes ";\\s*CREATE\\s+"
    ∷ codes "UNION\\s+ALL\\s+SELECT"
    ∷ codes "UNION\\s+SELECT"
    ∷ codes "XP_CMDSHELL"
    ∷ codes "\\bEXEC\\s*\\("
    ∷ codes "\\bEXECUTE\\s*\\("
    ∷ codes "SP_EXECUTESQL"
    ∷ codes "\\bEXEC\\s+XP_"
    ∷ codes "\\bEXEC\\s+SP_"
    ∷ codes "INFORMATION_SCHEMA"
    ∷ codes "PG_SLEEP\\s*\\("
    ∷ codes "BENCHMARK\\s*\\("
    ∷ codes "WAITFOR\\s+DELAY"
    ∷ codes "\\s+OR\\s+1\\s*=\\s*1\\b"
    ∷ codes "\\s+OR\\s+'1'\\s*=\\s*'1'"
    ∷ codes "\\s+AND\\s+1\\s*=\\s*0\\b"
    ∷ []

abbrev pub strict_patterns : List Text
strict_patterns =
    codes "\\bOR\\b"
    ∷ codes "\\bAND\\b"
    ∷ codes "\\bUNION\\b"
    ∷ codes "\\bEXEC\\b"
    ∷ codes "\\bEXECUTE\\b"
    ∷ []

-- `compilePatterns`: what does not compile is skipped.
unfoldable pub compile_patterns : Regexp → List Text → List Text
compile_patterns re [] = []
compile_patterns re (p ∷ ps) =
    if re.compiles p then p ∷ compile_patterns re ps else compile_patterns re ps

-- `NewValidator` with `WithStrict`.
unfoldable pub new_validator : Regexp → Bool → Validator
new_validator re strict = record {
  patterns =
      if strict
      then compile_patterns re dangerous_patterns ++ compile_patterns re strict_patterns
      else compile_patterns re dangerous_patterns;
  strict = strict;
}

abbrev pub any_matches : Regexp → List Text → Text → Bool
any_matches re [] s = false
any_matches re (p ∷ ps) s = if re.matches p s then true else any_matches re ps s

-- `ValidateQuery`: whether it returns an error.
unfoldable pub blocks_query : Regexp → Validator → Text → Bool
blocks_query re v sql = any_matches re v.patterns (upper_text sql)

abbrev pub indicators : List Text
indicators =
    codes "'--"
    ∷ codes "';"
    ∷ codes "' OR "
    ∷ codes "' AND "
    ∷ codes "/*"
    ∷ codes "*/"
    ∷ codes "' UNION "
    ∷ codes "' DROP "
    ∷ codes "xp_"
    ∷ []

abbrev pub contains_any : List Text → Text → Bool
contains_any [] s = false
contains_any (i ∷ is) s = if contains s (upper_text i) then true else contains_any is s

-- `containsSQLInjection`.
unfoldable pub contains_sql_injection : Text → Bool
contains_sql_injection value = contains_any indicators (upper_text value)

-- Whether `ValidateParams` refuses a value: only strings are looked at.
abbrev pub is_suspicious : {V : Type 0} → View V → Bool
is_suspicious (text s) = contains_sql_injection s
is_suspicious nil = false
is_suspicious (params p) = false
is_suspicious (slice vs) = false
is_suspicious (exp build) = false
is_suspicious (query build) = false
is_suspicious other = false

module _ {V : Type 0} ⦃dyn : Dynamic V⦄ where
  -- The loop from index `i` on.
  abbrev pub validate_from : ℕ → List V → Option ℕ
  validate_from i [] = none
  validate_from i (v ∷ vs) =
      let rest = validate_from (suc i) vs in if is_suspicious (view_of v) then some i else rest

  -- `ValidateParams`: the index in its error.
  unfoldable pub validate_params : List V → Option ℕ
  validate_params args = validate_from 0 args
