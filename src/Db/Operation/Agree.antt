-- ===== src/Db/Operation/Agree.antt =====
-- The two detectors of db.go and hooks.go.
use relica.Prelude.{
  ℕ, ◌≡◌, ◌==◌, refl, ap, ◌∙◌, Bool, true, false, ◌||◌, ◌&&◌, List, Bool-cases, inl, inr, [], ◌∷◌,
  if◌then◌else◌, arith, map,
}
use relica.Prelude.Maps.{text_eq}
use relica.Text.{Text, codes, has_prefix}
use relica.Text.Fields.{is_space, to_upper}
use relica.Text.Trim.{trim_left, put_back, trim_right, trim_space, upper_text}
use relica.Db.Operation.{hook_kind, audit_words, hook_operation, first_prefix, detect_operation}

abbrev upper : ℕ → ℕ
upper c = if c == 305 then b'I' else to_upper c

is_space-upper : (c : ℕ) → is_space (upper c) ≡ is_space c
is_space-upper c = ground arith

trim_left-map : (s : Text) → trim_left (map upper s) ≡ map upper (trim_left s)
trim_left-map [] = refl
trim_left-map (c ∷ s) = ground (arith, is_space-upper c, trim_left-map s)

put_back-map : (c : ℕ) (s : Text) → put_back (upper c) (map upper s) ≡ map upper (put_back c s)
put_back-map c [] = ground (arith, is_space-upper c)
put_back-map c (d ∷ s) = refl

trim_right-map : (s : Text) → trim_right (map upper s) ≡ map upper (trim_right s)
trim_right-map [] = refl
trim_right-map (c ∷ s) = ap (put_back (upper c)) (trim_right-map s) ∙ put_back-map c (trim_right s)

-- Trimming and the capitals do not interfere.
pub trim_space-upper_text : (s : Text) → trim_space (upper_text s) ≡ upper_text (trim_space s)
unfolding trim_space upper_text
trim_space-upper_text s = ap trim_right (trim_left-map s) ∙ trim_right-map (trim_left s)

abbrev pub is_dml : Text → Bool
is_dml w =
    text_eq w (codes "SELECT")
    || (text_eq w (codes "INSERT") || (text_eq w (codes "UPDATE") || text_eq w (codes "DELETE")))

-- No text has two prefixes that begin differently.
apart :
    (c d : ℕ) (p q s : Text)
    → c == d ≡ false
    → has_prefix (c ∷ p) s ≡ true
    → has_prefix (d ∷ q) s ≡ false
apart c d p q [] e h = cc
apart c d p q (x ∷ s) e h = ground arith

abbrev pick : List (Bool × Text) → Text
pick [] = codes "UNKNOWN"
pick ((b, w) ∷ ws) = if b then w else pick ws

-- What the hook and the audit log say, by the tests.
abbrev hook_pick : Bool → Bool → Bool → Bool → Bool → Text
hook_pick sel wth ins upd del =
    if sel || wth
    then codes "SELECT"
    else pick ((ins, codes "INSERT") ∷ (upd, codes "UPDATE") ∷ (del, codes "DELETE") ∷ [])

abbrev audit_pick : Bool → Bool → Bool → Bool → List (Bool × Text) → Text
audit_pick sel ins upd del others = pick (
    (ins, codes "INSERT")
    ∷ (upd, codes "UPDATE")
    ∷ (del, codes "DELETE")
    ∷ (sel, codes "SELECT")
    ∷ others)

abbrev pub agreed : Bool → Text → Text
agreed wth w = if wth then codes "SELECT" else if is_dml w then w else codes "UNKNOWN"

-- The words that only the audit log knows are none of the four.
pick_other :
    (cre dro alt tru : Bool)
    → is_dml (
        pick (
          (cre, codes "CREATE")
          ∷ (dro, codes "DROP")
          ∷ (alt, codes "ALTER")
          ∷ (tru, codes "TRUNCATE")
          ∷ []))
      ≡ false
pick_other true dro alt tru = refl
pick_other false true alt tru = refl
pick_other false false true tru = refl
pick_other false false false true = refl
pick_other false false false false = refl

picks_agree :
    (sel wth ins upd del : Bool) (others : List (Bool × Text))
    → is_dml (pick others) ≡ false
    → (sel && (ins || (upd || del))) ≡ false
    → hook_pick sel wth ins upd del ≡ agreed wth (audit_pick sel ins upd del others)
picks_agree true true ins upd del others h k = refl
picks_agree false true ins upd del others h k = refl
picks_agree true false true upd del others h k = cc
picks_agree true false false true del others h k = cc
picks_agree true false false false true others h k = cc
picks_agree true false false false false others h k = refl
picks_agree false false true upd del others h k = refl
picks_agree false false false true del others h k = refl
picks_agree false false false false true others h k = refl
picks_agree false false false false false others h k = rw h refl

abbrev others : Text → Bool
others s =
    has_prefix (codes "INSERT") s
    || (has_prefix (codes "UPDATE") s || has_prefix (codes "DELETE") s)

and_false : (b : Bool) → (b && false) ≡ false
and_false true = refl
and_false false = refl

no_prefix_of_two :
    (s : Text)
    → (has_prefix (codes "SELECT") s
        && (has_prefix (codes "INSERT") s
            || (has_prefix (codes "UPDATE") s || has_prefix (codes "DELETE") s)))
      ≡ false
no_prefix_of_two s = elim (Bool-cases (has_prefix (codes "SELECT") s)) [
  | inr e ↦ ap (λ b. b && others s) e
  | inl e ↦
      ap
        (λ b.
          has_prefix (codes "SELECT") s
          && (b || (has_prefix (codes "UPDATE") s || has_prefix (codes "DELETE") s)))
        (apart b'S' b'I' (codes "ELECT") (codes "NSERT") s refl e)
      ∙ ap (λ b. has_prefix (codes "SELECT") s && (b || has_prefix (codes "DELETE") s))
          (apart b'S' b'U' (codes "ELECT") (codes "PDATE") s refl e)
      ∙ ap (λ b. has_prefix (codes "SELECT") s && b)
          (apart b'S' b'D' (codes "ELECT") (codes "ELETE") s refl e)
      ∙ and_false (has_prefix (codes "SELECT") s)
]

by_kind :
    (s : Text) → hook_kind s ≡ agreed (has_prefix (codes "WITH") s) (first_prefix audit_words s)
by_kind s =
    picks_agree (has_prefix (codes "SELECT") s) (has_prefix (codes "WITH") s)
      (has_prefix (codes "INSERT") s) (has_prefix (codes "UPDATE") s)
      (has_prefix (codes "DELETE") s)
      ((has_prefix (codes "CREATE") s, codes "CREATE")
        ∷ (has_prefix (codes "DROP") s, codes "DROP")
        ∷ (has_prefix (codes "ALTER") s, codes "ALTER")
        ∷ (has_prefix (codes "TRUNCATE") s, codes "TRUNCATE")
        ∷ [])
      (pick_other (has_prefix (codes "CREATE") s) (has_prefix (codes "DROP") s)
        (has_prefix (codes "ALTER") s) (has_prefix (codes "TRUNCATE") s))
      (no_prefix_of_two s)

-- The hook's kind of a statement is the audit log's, if that is one of the four that the hook
-- knows; a statement that begins with WITH is a SELECT for the hook, and all else is unknown.
pub hook_operation-detect_operation :
    (sql : Text)
    → hook_operation sql
      ≡ agreed (has_prefix (codes "WITH") (upper_text (trim_space sql))) (detect_operation sql)
unfolding hook_operation detect_operation
hook_operation-detect_operation sql =
    ap hook_kind (trim_space-upper_text sql) ∙ by_kind (upper_text (trim_space sql))
