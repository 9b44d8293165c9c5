-- ===== src/Cache/Lru.antt =====
-- What the cache promises without pins: an LRU list of keys and statements.
use relica.Prelude.{
  ℕ, suc, ◌<◌, leb, ◌≡◌, refl, ap, sym, ◌∙◌, Bool, false, List, [], ◌∷◌, ◌++◌, Option, none, some,
  arith, append-nil, length, length-map, length-append, map, take, take_all, All, Bool-cases,
  Option-cases, inl, inr, if◌then◌else◌,
}
use relica.Prelude.Ints.{ℤ}
use relica.Prelude.Maps.{text_eq, lookup}
use relica.Text.{Text}
use relica.Cache.{
  Entry, StmtCache, find, remove, mark, mark_in, take_oldest, get, set, clear, pin, unpin,
  evict_oldest, Call, get_call, set_call, clear_call, pin_call, unpin_call, step, run,
  new_stmt_cache_with_capacity, clamp_capacity,
}
use relica.Cache.Entries.{IsPinned, find-key, take_oldest-Cut}
use relica.Cache.Invariant.{text_eq_comm, clamp_capacity-positive}
use relica.Cache.Size.{IsFree, IsSmall, IsNoPin, step-IsSmall, moved-IsSmall, take_oldest-IsFree}

-- The most recently used first.
abbrev pub Lru : Type 0 → Type 0
Lru S = List (Text × S)

module _ {S : Type 0} where
  abbrev pub drop_key : Text → Lru S → Lru S
  drop_key k [] = []
  drop_key k ((j, s) ∷ l) = if text_eq j k then l else (j, s) ∷ drop_key k l

  -- A read moves what it finds to the front.
  abbrev pub touch : Text → Lru S → Lru S
  touch k l = elim (lookup k l) [ none ↦ l | some s ↦ (k, s) ∷ drop_key k l ]

  -- A write puts it in front, and what exceeds the capacity is forgotten.
  abbrev pub put : ℕ → Text → S → Lru S → Lru S
  put n k s l = take n ((k, s) ∷ drop_key k l)

  abbrev pub lru_step : ℕ → Call S → Lru S → Lru S
  lru_step n (get_call k) l = touch k l
  lru_step n (set_call k s) l = put n k s l
  lru_step n clear_call l = []
  lru_step n (pin_call k) l = l
  lru_step n (unpin_call k) l = l

  abbrev pub lru_run : ℕ → List (Call S) → Lru S → Lru S
  lru_run n [] l = l
  lru_run n (m ∷ ms) l = lru_run n ms (lru_step n m l)

  abbrev pub view : List (Entry S) → Lru S
  view es = map (λ (e : Entry S). (e.key, e.stmt)) es

  abbrev stmt_of : Option (Entry S) → Option S
  stmt_of none = none
  stmt_of (some e) = some e.stmt

  lookup-view : (k : Text) (es : List (Entry S)) → lookup k (view es) ≡ stmt_of (find k es)
  lookup-view k [] = refl
  lookup-view k (e ∷ es) = ground (arith, lookup-view k es, text_eq_comm k e.key)

  drop_key-view : (k : Text) (es : List (Entry S)) → drop_key k (view es) ≡ view (remove k es)
  drop_key-view k [] = refl
  drop_key-view k (e ∷ es) = ground (arith, drop_key-view k es, text_eq_comm k e.key)

  remove-none : (k : Text) (es : List (Entry S)) → find k es ≡ none → remove k es ≡ es
  remove-none k [] h = refl
  remove-none k (e ∷ es) h = ground (arith, remove-none k es)

  view-mark : (b : Bool) (k : Text) (es : List (Entry S)) → view (mark b k es) ≡ view es
  view-mark b k [] = refl
  view-mark b k (e ∷ es) = ground (arith, view-mark b k es)

  get-lookup : (k : Text) (c : StmtCache S) → (get k c).0 ≡ lookup k (view c.entries)
  unfolding get
  get-lookup k c = elim (Option-cases (find k c.entries)) [
    | inl a ↦ rw (a, get, lookup-view k c.entries) (rw a refl)
    | inr (e, a) ↦ rw (a, get, lookup-view k c.entries) (rw a refl)
  ]

  get-touch : (k : Text) (c : StmtCache S) → view (get k c).1.entries ≡ touch k (view c.entries)
  unfolding get
  get-touch k c = elim (Option-cases (find k c.entries)) [
    | inl a ↦
        let l : lookup k (view c.entries) ≡ none = lookup-view k c.entries ∙ ap stmt_of a in
        rw (a, get, l, touch) refl
    | inr (e, a) ↦
        let l : lookup k (view c.entries) ≡ some e.stmt = lookup-view k c.entries ∙ ap stmt_of a in
        let key = find-key k e c.entries a in
        rw (a, get, l, touch, drop_key-view k c.entries)
          (ap (λ j. (j, e.stmt) ∷ view (remove j c.entries)) (sym key))
  ]

  -- Free entries behind which all are pinned are the last.
  last_free :
      (before after : List (Entry S)) (v : Entry S)
      → All IsFree (before ++ v ∷ after)
      → All IsPinned after
      → after ≡ []
  last_free [] [] v h k = refl
  last_free [] (x ∷ after) v h k = absurd (ground (arith, h.1.0, k.0))
  last_free (y ∷ before) after v h k = last_free before after v h.1 k

  -- Without pins the last entry is evicted: what is left is what a full list keeps behind a new
  -- element.
  evict_last :
      (es rest : List (Entry S)) (v : Entry S) (x : Text × S)
      → All IsFree es
      → take_oldest es ≡ some (rest, v)
      → take (length es) (x ∷ view es) ≡ x ∷ view rest
  evict_last es rest v x free h =
      let (cut, q, older) = take_oldest-Cut es rest v h in
      let last = last_free cut.before cut.after v (rw (← cut.whole) free) older in
      let whole : es ≡ cut.before ++ v ∷ [] = cut.whole ∙ ap (λ l. cut.before ++ v ∷ l) last in
      let left : rest ≡ cut.before = cut.left ∙ ap (◌++◌ cut.before) last ∙ append-nil cut.before in
      let size : length es ≡ suc (length cut.before) =
        ap length whole ∙ omega (arith, length-append cut.before (v ∷ [])) in
      rw (size, whole, left) (ap (◌∷◌ x) (kept cut.before v))
    where
      kept : (es : List (Entry S)) (v : Entry S) → take (length es) (view (es ++ v ∷ [])) ≡ view es
      kept [] v = refl
      kept (e ∷ es) v = ap (◌∷◌ (e.key, e.stmt)) (kept es v)

  viewed : (es : List (Entry S)) → length (view es) ≡ length es
  viewed es = length-map (λ (e : Entry S). (e.key, e.stmt)) es

  set-full :
      (k : Text) (s : S) (c : StmtCache S)
      → All IsFree c.entries
      → 0 < c.capacity
      → c.capacity ≡ length c.entries
      → (k, s) ∷ view (evict_oldest c).entries ≡ take c.capacity ((k, s) ∷ view c.entries)
  unfolding evict_oldest
  set-full k s c free some_room same = elim (Option-cases (take_oldest c.entries)) [
    | inl a ↦
        let empty : length c.entries ≡ 0 = ap length (take_oldest-IsFree c.entries free a) in
        absurd (omega arith)
    | inr ((r, w), a) ↦
        rw (a, evict_oldest)
          (sym (
            ap (λ n. take n ((k, s) ∷ view c.entries)) same
            ∙ evict_last c.entries r w (k, s) free a))
  ]

  set-put :
      (k : Text) (s : S) (c : StmtCache S)
      → IsSmall c
      → view (set k s c).entries ≡ put c.capacity k s (view c.entries)
  unfolding set evict_oldest
  set-put k s c (free, fits, some_room) = elim (Option-cases (find k c.entries)) [
    | inl a ↦
        let gone : drop_key k (view c.entries) ≡ view c.entries =
          drop_key-view k c.entries ∙ ap view (remove-none k c.entries a) in
        elim (Bool-cases (leb c.capacity (length c.entries))) [
          | inr room ↦
              let fit : length c.entries < c.capacity = ground arith in
              rw (a, set, room, gone)
                (sym
                  (take_all c.capacity ((k, s) ∷ view c.entries) (omega (arith, viewed c.entries))))
          | inl full ↦
              let same : c.capacity ≡ length c.entries = ground arith in
              rw (a, set, full, gone) (set-full k s c free some_room same)
        ]
    | inr (e, a) ↦
        let key = find-key k e c.entries a in
        let (rest, here, size) = moved-IsSmall k e c.entries a free in
        let dropped : drop_key k (view c.entries) ≡ view (remove e.key c.entries) =
          drop_key-view k c.entries ∙ ap (λ j. view (remove j c.entries)) key in
        rw (a, set, dropped)
          (ap (λ j. (j, s) ∷ view (remove e.key c.entries)) (sym key)
            ∙ sym (
                take_all c.capacity ((k, s) ∷ view (remove e.key c.entries))
                  (omega (arith, viewed (remove e.key c.entries)))))
  ]

  step-refines :
      (m : Call S) (c : StmtCache S)
      → IsNoPin m
      → IsSmall c
      → view (step m c).entries ≡ lru_step c.capacity m (view c.entries)
  unfolding clear unpin
  step-refines (get_call k) c h q = get-touch k c
  step-refines (set_call k s) c h q = set-put k s c q
  step-refines clear_call c h q = refl
  step-refines (pin_call k) c h q = absurd h
  step-refines (unpin_call k) c h q = elim (Option-cases (find k c.entries)) [
    | inl a ↦ rw (step, unpin, mark_in, a) refl
    | inr (e, a) ↦ rw (step, unpin, mark_in, a) (view-mark false k c.entries)
  ]

  step-capacity : (m : Call S) (c : StmtCache S) → (step m c).capacity ≡ c.capacity
  unfolding get set clear pin unpin evict_oldest
  step-capacity (get_call k) c = ground arith
  step-capacity (set_call k s) c = ground arith
  step-capacity clear_call c = refl
  step-capacity (pin_call k) c = ground arith
  step-capacity (unpin_call k) c = ground arith

  run-refines :
      (ms : List (Call S)) (c : StmtCache S)
      → All IsNoPin ms
      → IsSmall c
      → view (run ms c).entries ≡ lru_run c.capacity ms (view c.entries)
  run-refines [] c h q = refl
  run-refines (m ∷ ms) c h q =
      run-refines ms (step m c) h.1 (step-IsSmall m c h.0 q)
      ∙ ap (λ n. lru_run n ms (view (step m c).entries)) (step-capacity m c)
      ∙ ap (lru_run c.capacity ms) (step-refines m c h.0 q)

  -- Without a call of `Pin`, the cache is an LRU list of as many elements as its capacity: after
  -- any calls it holds the same keys and statements in the same order, where a read moves what it
  -- finds to the front, a write puts it in front and what exceeds the capacity is forgotten; and
  -- `Get` answers what stands in that list under the key.
  pub lru_refines :
      (n : ℤ) (ms : List (Call S)) (k : Text)
      → All IsNoPin ms
      → (view (run ms (new_stmt_cache_with_capacity n)).entries ≡ lru_run (clamp_capacity n) ms [])
        × ((get k (run ms (new_stmt_cache_with_capacity n))).0
            ≡ lookup k (lru_run (clamp_capacity n) ms []))
  lru_refines n ms k h =
      let e =
        run-refines ms (new_stmt_cache_with_capacity n) h
          (tt, omega arith, clamp_capacity-positive n) in
      (e, get-lookup k (run ms (new_stmt_cache_with_capacity n)) ∙ ap (lookup k) e)
