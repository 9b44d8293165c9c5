-- ===== src/Security/Tests.antt =====
-- Tests and examples of the validator.
use relica.Prelude.{◌≡◌, refl, true, false, [], ◌∷◌}
use relica.Text.{codes, contains}
use relica.Text.Trim.{upper_text}
use relica.Exp.Values.{dynamic_val, num, string}
use relica.Security.{
  Regexp, blocks_query, new_validator, compile_patterns, contains_sql_injection, validate_params,
}
use relica.Security.Guard.{
  here, there, FirstBad, strict_blocks, contains_sql_injection-indicator, validate_params-Verdict,
}

quote_or : contains_sql_injection (codes "x' or 1=1") ≡ true
unfolding contains_sql_injection contains upper_text
quote_or = refl

plain_name : contains_sql_injection (codes "O'Neil and sons") ≡ false
unfolding contains_sql_injection contains upper_text
plain_name = refl

abbrev substring : Regexp
substring = record { compiles = λ p. true; matches = λ p s. contains s p }

strict_blocks_example :
    blocks_query substring (new_validator substring true) (codes "exec xp_cmdshell") ≡ true
unfolding blocks_query new_validator compile_patterns contains upper_text
strict_blocks_example = strict_blocks substring (codes "exec xp_cmdshell") refl

contains_sql_injection-indicator_example : contains_sql_injection (codes "x' or 1=1") ≡ true
unfolding upper_text
contains_sql_injection-indicator_example =
    contains_sql_injection-indicator (codes "' OR ") (codes "x' or 1=1") (codes "X") (codes "1=1")
      (there _ _ (there _ _ (here _))) refl

validate_params-Verdict_example : FirstBad (num 3 ∷ string (codes "a'; x") ∷ []) 1
unfolding validate_params contains_sql_injection contains upper_text
validate_params-Verdict_example = validate_params-Verdict (num 3 ∷ string (codes "a'; x") ∷ [])
