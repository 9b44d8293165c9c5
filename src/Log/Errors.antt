-- ===== src/Log/Errors.antt =====
-- internal/core/errors.go: errors sorted by their messages, and WrapError.
use relica.Prelude.{
  ◌≡◌, Bool, true, false, List, [], ◌∷◌, ◌++◌, Option, none, some, arith, if◌then◌else◌,
}
use relica.Text.{Text, codes, contains}

-- An `error`: one of another package, with what its `Error` returns, or a `wrappedError`.
pub data Error (E : Type 0) : Type 0 where
  outside : E → Error E
  wrapped : Text → Error E → Error E

-- `strings.Contains(msg, p) || ...`.
abbrev pub contains_one : List Text → Text → Bool
contains_one [] msg = false
contains_one (p ∷ ps) msg = if contains msg p then true else contains_one ps msg

abbrev unique_messages : List Text
unique_messages =
    codes "duplicate key value violates unique constraint"
    ∷ codes "Duplicate entry"
    ∷ codes "UNIQUE constraint failed"
    ∷ codes "Error 1062"
    ∷ []

abbrev foreign_key_messages : List Text
foreign_key_messages =
    codes "violates foreign key constraint"
    ∷ codes "a foreign key constraint fails"
    ∷ codes "FOREIGN KEY constraint failed"
    ∷ codes "Error 1451"
    ∷ codes "Error 1452"
    ∷ []

abbrev not_null_messages : List Text
not_null_messages =
    codes "violates not-null constraint"
    ∷ codes "cannot be null"
    ∷ codes "NOT NULL constraint failed"
    ∷ codes "Error 1048"
    ∷ []

abbrev check_messages : List Text
check_messages =
    codes "violates check constraint"
    ∷ codes "Check constraint"
    ∷ codes "CHECK constraint failed"
    ∷ codes "Error 3819"
    ∷ []

module _ {E : Type 0} (text_of : E → Text) where
  -- `Error()`.
  abbrev pub message : Error E → Text
  message (outside e) = text_of e
  message (wrapped msg e) = msg ++ (codes ": " ++ message e)

  abbrev pub is_violation : List Text → Option (Error E) → Bool
  is_violation ps none = false
  is_violation ps (some e) = contains_one ps (message e)

  -- `IsUniqueViolation`.
  unfoldable pub is_unique_violation : Option (Error E) → Bool
  is_unique_violation err = is_violation unique_messages err

  -- `IsForeignKeyViolation`.
  unfoldable pub is_foreign_key_violation : Option (Error E) → Bool
  is_foreign_key_violation err = is_violation foreign_key_messages err

  -- `IsNotNullViolation`.
  unfoldable pub is_not_null_violation : Option (Error E) → Bool
  is_not_null_violation err = is_violation not_null_messages err

  -- `IsCheckViolation`.
  unfoldable pub is_check_violation : Option (Error E) → Bool
  is_check_violation err = is_violation check_messages err

-- The four kinds, and the helper that tests each.
pub data Kind : Type 0 where
  unique : Kind
  foreign_key : Kind
  not_null : Kind
  check : Kind

abbrev pub is_kind : {E : Type 0} → (E → Text) → Kind → Option (Error E) → Bool
is_kind text_of unique = is_unique_violation text_of
is_kind text_of foreign_key = is_foreign_key_violation text_of
is_kind text_of not_null = is_not_null_violation text_of
is_kind text_of check = is_check_violation text_of

-- `WrapError`.
unfoldable pub wrap_error : {E : Type 0} → Option (Error E) → Text → Option (Error E)
wrap_error none msg = none
wrap_error (some e) msg = some (wrapped msg e)

contains-behind : (a s p : Text) → contains s p ≡ true → contains (a ++ s) p ≡ true
unfolding contains
contains-behind [] s p h = h
contains-behind (c ∷ a) s p h = ground (arith, contains-behind a s p)

module _ {E : Type 0} (text_of : E → Text) where
  contains_one-behind :
      (ps : List Text) (a s : Text) → contains_one ps s ≡ true → contains_one ps (a ++ s) ≡ true
  contains_one-behind [] a s h = cc
  contains_one-behind (p ∷ ps) a s h =
      ground (arith, contains-behind a s p, contains_one-behind ps a s)

  is_violation-wrapped :
      (ps : List Text) (msg : Text) (e : Error E)
      → is_violation text_of ps (some e) ≡ true
      → is_violation text_of ps (some (wrapped msg e)) ≡ true
  is_violation-wrapped ps msg e h =
      contains_one-behind ps msg (codes ": " ++ message text_of e)
        (contains_one-behind ps (codes ": ") (message text_of e) h)

  -- WrapError keeps an error a violation of each of the four kinds that it was of.
  pub wrap_error-is_kind :
      (k : Kind) (err : Option (Error E)) (msg : Text)
      → is_kind text_of k err ≡ true
      → is_kind text_of k (wrap_error err msg) ≡ true
  unfolding wrap_error is_unique_violation is_foreign_key_violation is_not_null_violation
      is_check_violation
  wrap_error-is_kind k none msg h = h
  wrap_error-is_kind unique (some e) msg h = is_violation-wrapped unique_messages msg e h
  wrap_error-is_kind foreign_key (some e) msg h = is_violation-wrapped foreign_key_messages msg e h
  wrap_error-is_kind not_null (some e) msg h = is_violation-wrapped not_null_messages msg e h
  wrap_error-is_kind check (some e) msg h = is_violation-wrapped check_messages msg e h
