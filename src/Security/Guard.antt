-- ===== src/Security/Guard.antt =====
-- What the validator of internal/security/validator.go refuses, and what it lets pass.
use relica.Prelude.{
  ℕ, suc, ◌+◌, ◌≡◌, refl, true, false, List, [], ◌∷◌, ◌++◌, Option, none, some, arith, All, length,
  subst, Bool-cases, inl, inr,
}
use relica.Text.{Text, contains, strip_prefix}
use relica.Text.Trim.{upper_text}
use relica.Exp.{Dynamic, view_of}
use relica.Security.{
  Regexp, compile_patterns, new_validator, any_matches, blocks_query, indicators, contains_any,
  contains_sql_injection, is_suspicious, validate_from, validate_params, dangerous_patterns,
  strict_patterns,
}

any_matches-append :
    (re : Regexp) (ps qs : List Text) (s : Text)
    → any_matches re ps s ≡ true
    → any_matches re (ps ++ qs) s ≡ true
any_matches-append re [] qs s h = cc
any_matches-append re (p ∷ ps) qs s h = ground (arith, any_matches-append re ps qs s)

-- Strict mode only adds patterns: what the default validator blocks, the strict one blocks.
pub strict_blocks :
    (re : Regexp) (sql : Text)
    → blocks_query re (new_validator re false) sql ≡ true
    → blocks_query re (new_validator re true) sql ≡ true
unfolding blocks_query new_validator
strict_blocks re sql h =
    any_matches-append re (compile_patterns re dangerous_patterns)
      (compile_patterns re strict_patterns) (upper_text sql) h

strip_prefix-append : (p s : Text) → strip_prefix p (p ++ s) ≡ some s
strip_prefix-append [] s = refl
strip_prefix-append (c ∷ p) s = ground (arith, strip_prefix-append p s)

contains-prefix : (p s : Text) → contains (p ++ s) p ≡ true
unfolding contains
contains-prefix [] [] = refl
contains-prefix [] (c ∷ s) = refl
contains-prefix (c ∷ p) s = ground (arith, strip_prefix-append p s)

contains-middle : (a p b : Text) → contains (a ++ (p ++ b)) p ≡ true
unfolding contains
contains-middle [] p b = contains-prefix p b
contains-middle (c ∷ a) p b = ground (arith, contains-middle a p b)

-- An element of a list, by its place.
pub data IsIn {ℓ} {A : Type ℓ} (x : A) : List A → Type ℓ where
  here : (xs : List A) → IsIn x (x ∷ xs)
  there : (y : A) (xs : List A) → IsIn x xs → IsIn x (y ∷ xs)

contains_any-of_in :
    (i : Text) (is : List Text) (s : Text)
    → IsIn i is
    → contains s (upper_text i) ≡ true
    → contains_any is s ≡ true
contains_any-of_in i is s (here rest) h = ground arith
contains_any-of_in i is s (there j rest m) h = ground (arith, contains_any-of_in i rest s m h)

-- A text that has one of the indicators anywhere, in whatever case, is refused.
pub contains_sql_injection-indicator :
    (i value a b : Text)
    → IsIn i indicators
    → upper_text value ≡ a ++ (upper_text i ++ b)
    → contains_sql_injection value ≡ true
unfolding contains_sql_injection
contains_sql_injection-indicator i value a b m e = rw e (
    contains_any-of_in i indicators (a ++ (upper_text i ++ b)) m
      (contains-middle a (upper_text i) b))

module _ {V : Type 0} ⦃dyn : Dynamic V⦄ where
  abbrev pub IsClean : V → Type 0
  IsClean v = is_suspicious (view_of v) ≡ false

  -- The parameters up to the first suspicious one, and its index.
  pub record FirstBad (args : List V) (i : ℕ) : Type 0 where
    pub before : List V
    pub bad : V
    pub after : List V
    pub whole : args ≡ before ++ bad ∷ after
    pub clean : All IsClean before
    pub refused : is_suspicious (view_of bad) ≡ true
    pub place : length before ≡ i

  -- What an answer of `ValidateParams` says of the parameters.
  abbrev pub Verdict : List V → Option ℕ → Type 0
  Verdict args none = All IsClean args
  Verdict args (some i) = FirstBad args i

  abbrev VerdictFrom : ℕ → List V → Option ℕ → Type 0
  VerdictFrom k args none = All IsClean args
  VerdictFrom k args (some i) = (n : ℕ) × (k + n ≡ i) × FirstBad args n

  verdict_next :
      (k : ℕ) (v : V) (vs : List V) (o : Option ℕ)
      → IsClean v
      → VerdictFrom (suc k) vs o
      → VerdictFrom k (v ∷ vs) o
  verdict_next k v vs none c h = (c, h)
  verdict_next k v vs (some i) c (n, e, f) = (
    suc n,
    omega arith,
    record {
      before = v ∷ f.before;
      bad = f.bad;
      after = f.after;
      whole = cc (f.whole);
      clean = (c, f.clean);
      refused = f.refused;
      place = omega (arith, f.place);
    },
  )

  validate_from-verdict : (k : ℕ) (args : List V) → VerdictFrom k args (validate_from k args)
  validate_from-verdict k [] = tt
  validate_from-verdict k (v ∷ vs) = elim (Bool-cases (is_suspicious (view_of v))) [
    | inl e ↦ rw e (
      0,
      omega arith,
      record {
        before = [];
        bad = v;
        after = vs;
        whole = refl;
        clean = tt;
        refused = e;
        place = refl;
      },
    )
    | inr e ↦
        rw e (verdict_next k v vs (validate_from (suc k) vs) e (validate_from-verdict (suc k) vs))
  ]

  drop_zero : (args : List V) (o : Option ℕ) → VerdictFrom 0 args o → Verdict args o
  drop_zero args none h = h
  drop_zero args (some i) (n, e, f) = subst (FirstBad args) (omega arith) f

  -- `ValidateParams` accepts parameters of which none is a suspicious string, and else its error
  -- names the index of the first that is.
  pub validate_params-Verdict : (args : List V) → Verdict args (validate_params args)
  unfolding validate_params
  validate_params-Verdict args =
      drop_zero args (validate_from 0 args) (validate_from-verdict 0 args)
