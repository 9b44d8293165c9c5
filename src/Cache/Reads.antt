-- ===== src/Cache/Reads.antt =====
-- What `Get`, `Pin` and the counters answer.
use relica.Prelude.{
  ℕ, suc, ◌+◌, ◌%◌, ◌^◌, ◌<◌, leb, ◌≡◌, refl, ap, sym, ◌∙◌, Bool, true, false, ◌&&◌, List, [], ◌∷◌,
  Option, none, some, arith, length, if_elim, Bool-cases, Option-cases, inl, inr,
}
use relica.Prelude.Maps.{text_eq, text_eq_refl}
use relica.Text.{Text}
use relica.Prelude.Ints.{ℤ}
use relica.Cache.{
  Entry, StmtCache, find, take_oldest, mark, mark_in, get, set, clear, pin, unpin, is_pinned,
  evict_oldest, make_room, push_front, replace, Call, get_call, set_call, clear_call, pin_call,
  unpin_call, run, new_stmt_cache_with_capacity, stats,
}
use relica.Cache.Entries.{find-moved, find-moved_other, find-key, find-hit, find-miss, find-first}

module _ {S : Type 0} where
  get-of_find :
      (k : Text) (c : StmtCache S) (e : Entry S)
      → find k c.entries ≡ some e
      → (get k c).0 ≡ some e.stmt
  unfolding get
  get-of_find k c e a = rw (a, get) refl

  -- `Get` answers what `Set` has stored last, whether the key was there or not, and whatever was
  -- evicted for it.
  pub get-set : (k : Text) (s : S) (c : StmtCache S) → (get k (set k s c)).0 ≡ some s
  unfolding set
  get-set k s c = elim (Option-cases (find k c.entries)) [
    | inl a ↦
        rw (a, set)
          (get-of_find k (push_front k s (make_room c))
            (record { key = k; stmt = s; pinned = false }) (rw (find, text_eq_refl k) refl))
    | inr (e, a) ↦
        let hit : text_eq k e.key ≡ true =
          ap (text_eq k) (sym (find-key k e c.entries a)) ∙ text_eq_refl k in
        rw (a, set) (get-of_find k (replace s e c) (record e { stmt = s }) (rw (find, hit) refl))
  ]

  answer : Option (Entry S) → Option S
  answer none = none
  answer (some e) = some e.stmt

  get-answer : (k : Text) (c : StmtCache S) → (get k c).0 ≡ answer (find k c.entries)
  unfolding get answer
  get-answer k c = elim (Option-cases (find k c.entries)) [
    | inl a ↦ rw (a, get, answer) refl
    | inr (e, a) ↦ rw (a, get, answer) refl
  ]

  get-eq :
      (k : Text) (c d : StmtCache S)
      → find k c.entries ≡ find k d.entries
      → (get k c).0 ≡ (get k d).0
  get-eq k c d h = get-answer k c ∙ ap answer h ∙ sym (get-answer k d)

  -- `Get` changes no answer of a later `Get`.
  pub get-get : (j k : Text) (c : StmtCache S) → (get j (get k c).1).0 ≡ (get j c).0
  unfolding get
  get-get j k c = elim (Option-cases (find k c.entries)) [
    | inl a ↦ get-eq j (get k c).1 c (rw (a, get) refl)
    | inr (e, a) ↦ get-eq j (get k c).1 c (rw (a, get) (find-moved k j e c.entries a))
  ]

  -- `Set` changes no answer of `Get` for another key, as long as the cache is not full.
  pub get-set_other :
      (j k : Text) (s : S) (c : StmtCache S)
      → text_eq j k ≡ false
      → length c.entries < c.capacity
      → (get j (set k s c)).0 ≡ (get j c).0
  unfolding set
  get-set_other j k s c other room = elim (Option-cases (find k c.entries)) [
    | inl a ↦
        let not_full : leb c.capacity (length c.entries) ≡ false = ground arith in
        get-eq j (set k s c) c (
          rw (a, set, not_full)
            (find-miss j (record { key = k; stmt = s; pinned = false }) c.entries other))
    | inr (e, a) ↦
        get-eq j (set k s c) c
          (rw (a, set) (find-moved_other k j e (record e { stmt = s }) c.entries a refl other))
  ]

  abbrev marked : Bool → Entry S → Option (Entry S)
  marked b e = some (record e { pinned = b })

  find-mark :
      (b : Bool) (k : Text) (e : Entry S) (es : List (Entry S))
      → find k es ≡ some e
      → find k (mark b k es) ≡ some (record e { pinned = b })
  find-mark b k e [] h = cc
  find-mark b k e (x ∷ es) h = elim (Bool-cases (text_eq k x.key)) [
    | inl hit ↦
        rw (hit, mark)
          (find-hit k (record x { pinned = b }) es hit ∙ ap (marked b) (find-first k e x es hit h))
    | inr miss ↦
        rw (miss, mark)
          (find-miss k x (mark b k es) miss ∙ find-mark b k e es (sym (find-miss k x es miss) ∙ h))
  ]

  is_pinned-mark_in :
      (b : Bool) (k : Text) (c : StmtCache S)
      → is_pinned k (mark_in b k c).1 ≡ (mark_in b k c).0 && b
  unfolding is_pinned
  is_pinned-mark_in b k c = elim (Option-cases (find k c.entries)) [
    | inl a ↦ rw (mark_in, a, is_pinned) (rw a refl)
    | inr (e, a) ↦ rw (mark_in, a, is_pinned, find-mark b k e c.entries a) refl
  ]

  -- After `Pin`, `IsPinned` says what `Pin` has answered: the key is pinned if it was there. After
  -- `Unpin` it is not pinned, whatever the answer.
  pub is_pinned-pin :
      (k : Text) (c : StmtCache S)
      → (is_pinned k (pin k c).1 ≡ (pin k c).0) × (is_pinned k (unpin k c).1 ≡ false)
  unfolding pin unpin
  is_pinned-pin k c =
      (ground (arith, is_pinned-mark_in true k c), ground (arith, is_pinned-mark_in false k c))

  -- The calls of `Get`.
  abbrev pub gets : List (Call S) → ℕ
  gets [] = 0
  gets (get_call k ∷ ms) = suc (gets ms)
  gets (set_call k s ∷ ms) = gets ms
  gets (clear_call ∷ ms) = gets ms
  gets (pin_call k ∷ ms) = gets ms
  gets (unpin_call k ∷ ms) = gets ms

  -- All requests that the counters have seen, as a 64-bit number.
  abbrev pub requests : StmtCache S → ℕ
  requests c = ((stats c).hits + (stats c).misses) % 2 ^ 64

  get-requests : (k : Text) (c : StmtCache S) → requests (get k c).1 ≡ (requests c + 1) % 2 ^ 64
  unfolding get
  get-requests k c = elim (Option-cases (find k c.entries)) [
    | inl a ↦ rw (a, get) (omega arith)
    | inr (e, a) ↦ rw (a, get) (omega arith)
  ]

  set-requests : (k : Text) (s : S) (c : StmtCache S) → requests (set k s c) ≡ requests c
  unfolding set evict_oldest
  set-requests k s c = elim (Option-cases (find k c.entries)) [
    | inl a ↦
        rw (a, set)
          (if_elim (λ d. requests d ≡ requests c) (leb c.capacity (length c.entries))
            (evict_oldest c) c
            (elim (Option-cases (take_oldest c.entries)) [
              | inl b ↦ rw (b, evict_oldest) refl
              | inr (r, b) ↦ rw (b, evict_oldest) refl
            ])
            refl)
    | inr (e, a) ↦ rw (a, set) refl
  ]

  mark-requests : (b : Bool) (k : Text) (c : StmtCache S) → requests (mark_in b k c).1 ≡ requests c
  mark-requests b k c = ground arith

  run-requests :
      (ms : List (Call S)) (c : StmtCache S) → requests (run ms c) ≡ (requests c + gets ms) % 2 ^ 64
  unfolding clear pin unpin
  run-requests [] c = omega arith
  run-requests (get_call k ∷ ms) c = omega (arith, run-requests ms (get k c).1, get-requests k c)
  run-requests (set_call k s ∷ ms) c =
      omega (arith, run-requests ms (set k s c), set-requests k s c)
  run-requests (clear_call ∷ ms) c = omega (arith, run-requests ms (clear c))
  run-requests (pin_call k ∷ ms) c =
      omega (arith, run-requests ms (pin k c).1, mark-requests true k c)
  run-requests (unpin_call k ∷ ms) c =
      omega (arith, run-requests ms (unpin k c).1, mark-requests false k c)

  -- The hits and the misses together count the calls of `Get`, as 64-bit numbers.
  pub stats-requests :
      (n : ℤ) (ms : List (Call S))
      → requests (run ms (new_stmt_cache_with_capacity n)) ≡ gets ms % 2 ^ 64
  stats-requests n ms = omega (arith, run-requests ms (new_stmt_cache_with_capacity n))
