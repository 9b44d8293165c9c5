-- ===== src/Cache/Ownership.antt =====
-- Who closes a statement.
use mathlib.Core.List.Perm
use mathlib.Core.List.{Perm, perm_middle, perm_append_singleton, perm_append_comm}
use relica.Prelude.{
  leb, ◌≡◌, refl, ap, sym, ◌∙◌, Bool, true, false, List, [], ◌∷◌, ◌++◌, some, append_assoc, arith,
  length, map, if_elim, Option-cases, inl, inr, append-nil, subst,
}
use relica.Text.{Text}
use relica.Prelude.Ints.{ℤ}
use relica.Cache.{
  Entry, StmtCache, find, remove, mark, mark_in, take_oldest, get, set, clear, pin, unpin,
  evict_oldest, push_front, Call, get_call, set_call, clear_call, pin_call, unpin_call, step, run,
  new_stmt_cache_with_capacity,
}
use relica.Cache.Entries.{Cut, find-Cut, find-key, take_oldest-Cut}

module _ {S : Type 0} where
  abbrev pub stmts : List (Entry S) → List S
  stmts es = map (λ e. e.stmt) es

  -- The statements that a call hands over to the cache.
  abbrev pub given : Call S → List S
  given (set_call k s) = s ∷ []
  given (get_call k) = []
  given clear_call = []
  given (pin_call k) = []
  given (unpin_call k) = []

  abbrev pub all_given : List (Call S) → List S
  all_given [] = []
  all_given (m ∷ ms) = all_given ms ++ given m

  -- The statements that the cache holds open, and those that it has closed.
  abbrev pub owned : StmtCache S → List S
  owned c = stmts c.entries ++ c.closed

  stmts-Cut :
      (es rest : List (Entry S)) (v : Entry S)
      → Cut S es rest v
      → Perm (stmts es) (v.stmt ∷ stmts rest)
  stmts-Cut es rest v c =
      rw (c.whole, c.left) (Perm.map (λ e. e.stmt) (perm_middle c.before c.after))

  -- Closing a statement that was in the list.
  closed-Perm :
      (xs ys cl : List S) (x : S) → Perm xs (x ∷ ys) → Perm (ys ++ (cl ++ x ∷ [])) (xs ++ cl)
  closed-Perm xs ys cl x p =
      rw (← append_assoc ys cl (x ∷ []))
        (Perm.trans (perm_append_singleton x (ys ++ cl)) (Perm.append_right cl (Perm.symm p)))

  pub stmts-moved :
      (k : Text) (e : Entry S) (es : List (Entry S))
      → find k es ≡ some e
      → Perm (stmts es) (e.stmt ∷ stmts (remove e.key es))
  stmts-moved k e es h =
      stmts-Cut es (remove e.key es) e
        (find-Cut e.key e es (ap (λ j. find j es) (sym (find-key k e es h)) ∙ h))

  pub get-Perm : (k : Text) (c : StmtCache S) → Perm (owned (get k c).1) (owned c)
  unfolding get
  get-Perm k c = elim (Option-cases (find k c.entries)) [
    | inl a ↦ rw (a, get) Perm.rfl
    | inr (e, a) ↦
        rw (a, get) (Perm.append_right c.closed (Perm.symm (stmts-moved k e c.entries a)))
  ]

  evict_oldest-Perm : (c : StmtCache S) → Perm (owned (evict_oldest c)) (owned c)
  unfolding evict_oldest
  evict_oldest-Perm c = elim (Option-cases (take_oldest c.entries)) [
    | inl a ↦ rw (a, evict_oldest) Perm.rfl
    | inr ((r, w), a) ↦
        rw (a, evict_oldest)
          (closed-Perm (stmts c.entries) (stmts r) c.closed w.stmt
            (stmts-Cut c.entries r w (take_oldest-Cut c.entries r w a).0))
  ]

  pub set-Perm : (k : Text) (s : S) (c : StmtCache S) → Perm (owned (set k s c)) (s ∷ owned c)
  unfolding set
  set-Perm k s c = elim (Option-cases (find k c.entries)) [
    | inl a ↦
        rw (a, set)
          (if_elim (λ d. Perm (owned (push_front k s d)) (s ∷ owned c))
            (leb c.capacity (length c.entries)) (evict_oldest c) c
            (Perm.cons s (evict_oldest-Perm c)) Perm.rfl)
    | inr (e, a) ↦
        rw (a, set)
          (Perm.cons s (
            closed-Perm (stmts c.entries) (stmts (remove e.key c.entries)) c.closed e.stmt
              (stmts-moved k e c.entries a)))
  ]

  stmts-mark : (b : Bool) (k : Text) (es : List (Entry S)) → stmts (mark b k es) ≡ stmts es
  stmts-mark b k [] = refl
  stmts-mark b k (e ∷ es) = ground (arith, stmts-mark b k es)

  mark_in-owned : (b : Bool) (k : Text) (c : StmtCache S) → owned (mark_in b k c).1 ≡ owned c
  mark_in-owned b k c = elim (Option-cases (find k c.entries)) [
    | inl a ↦ rw (mark_in, a) refl
    | inr (e, a) ↦ rw (mark_in, a, stmts-mark b k c.entries) refl
  ]

  step-Perm : (m : Call S) (c : StmtCache S) → Perm (owned (step m c)) (given m ++ owned c)
  unfolding clear pin unpin
  step-Perm (get_call k) c = get-Perm k c
  step-Perm (set_call k s) c = set-Perm k s c
  step-Perm clear_call c = perm_append_comm c.closed (stmts c.entries)
  step-Perm (pin_call k) c = rw (mark_in-owned true k c) Perm.rfl
  step-Perm (unpin_call k) c = rw (mark_in-owned false k c) Perm.rfl

  run-Perm :
      (ms : List (Call S)) (c : StmtCache S) → Perm (owned (run ms c)) (all_given ms ++ owned c)
  run-Perm [] c = Perm.rfl
  run-Perm (m ∷ ms) c =
      rw (append_assoc (all_given ms) (given m) (owned c))
        (Perm.trans (run-Perm ms (step m c)) (Perm.append_left (all_given ms) (step-Perm m c)))

  -- Every statement handed to the cache is, after whatever calls, in it or closed, as often as it
  -- was handed over: none leaks, and none is closed a second time, whether a replacement, an
  -- eviction or `Clear` closes it.
  pub run-owned :
      (n : ℤ) (ms : List (Call S))
      → Perm (owned (run ms (new_stmt_cache_with_capacity n))) (all_given ms)
  run-owned n ms =
      let c : StmtCache S = new_stmt_cache_with_capacity n in
      subst (λ l. Perm (owned (run ms c)) l) (append-nil (all_given ms)) (run-Perm ms c)
