-- ===== src/Cache/Size.antt =====
-- What is evicted, and the size of the cache.
use relica.Prelude.{
  suc, ◌<◌, ◌≤◌, leb, ◌≡◌, refl, ap, sym, ◌∙◌, Bool, false, List, [], ◌∷◌, ◌++◌, none, some, arith,
  length, length-append, All, if_elim, Bool-cases, Option-cases, inl, inr, ◌⊎◌,
}
use relica.Prelude.Maps.{text_eq}
use relica.Text.{Text}
use relica.Prelude.Ints.{ℤ}
use relica.Cache.{
  Entry, StmtCache, find, remove, mark, mark_in, take_oldest, get, set, clear, unpin, evict_oldest,
  push_front, Call, get_call, set_call, clear_call, pin_call, unpin_call, step, run,
  new_stmt_cache_with_capacity,
}
use relica.Cache.Invariant.{clamp_capacity-positive}
use relica.Cache.Entries.{Cut, IsPinned, find-Cut, find-key, take_oldest-Cut, take_oldest-none}

module _ {S : Type 0} where
  -- Nothing is evicted where all entries are pinned; otherwise the least recently used entry that is
  -- not pinned is taken out, the others keep their order, and its statement is closed.
  pub evict_oldest-least_recent :
      (c : StmtCache S)
      → All IsPinned c.entries × (evict_oldest c ≡ c)
        ⊎ ((v : Entry S) × (before after : List (Entry S)) × (c.entries ≡ before ++ v ∷ after)
            × (v.pinned ≡ false)
            × All IsPinned after
            × ((evict_oldest c).entries ≡ before ++ after)
            × ((evict_oldest c).closed ≡ c.closed ++ v.stmt ∷ []))
  unfolding evict_oldest
  evict_oldest-least_recent c = elim (Option-cases (take_oldest c.entries)) [
    | inl a ↦ inl (take_oldest-none c.entries a, rw (a, evict_oldest) refl)
    | inr ((r, w), a) ↦
        let (cut, q, older) = take_oldest-Cut c.entries r w a in
        inr (
          w,
          cut.before,
          cut.after,
          cut.whole,
          q,
          older,
          rw (a, evict_oldest) cut.left,
          rw (a, evict_oldest) refl,
        )
  ]

  pub length-Cut :
      (es rest : List (Entry S)) (v : Entry S) → Cut S es rest v → length es ≡ suc (length rest)
  length-Cut es rest v c =
      rw (c.whole, c.left)
        (omega (arith, length-append c.before (v ∷ c.after), length-append c.before c.after))

  abbrev pub IsFree : Entry S → Type 0
  IsFree e = e.pinned ≡ false

  pub take_oldest-IsFree : (es : List (Entry S)) → All IsFree es → take_oldest es ≡ none → es ≡ []
  take_oldest-IsFree [] h a = refl
  take_oldest-IsFree (e ∷ es) h a = absurd (ground (arith, h.0, (take_oldest-none (e ∷ es) a).0))

  -- No entry is pinned, and there are not too many.
  abbrev pub IsSmall : StmtCache S → Type 0
  IsSmall c = All IsFree c.entries × (length c.entries ≤ c.capacity) × (0 < c.capacity)

  All-cut :
      (a b : List (Entry S)) (v : Entry S)
      → All IsFree (a ++ v ∷ b)
      → All IsFree (a ++ b) × IsFree v
  All-cut [] b v h = (h.1, h.0)
  All-cut (x ∷ a) b v h = let rest = All-cut a b v h.1 in ((h.0, rest.0), rest.1)

  All-Cut :
      (es rest : List (Entry S)) (v : Entry S)
      → Cut S es rest v
      → All IsFree es
      → All IsFree rest × IsFree v
  All-Cut es rest v c h = rw c.left (All-cut c.before c.after v (rw (← c.whole) h))

  -- A full cache without pins has room after an eviction.
  evict_oldest-IsSmall :
      (c : StmtCache S)
      → IsSmall c
      → All IsFree (evict_oldest c).entries
        × (suc (length (evict_oldest c).entries) ≤ c.capacity)
        × ((evict_oldest c).capacity ≡ c.capacity)
  unfolding evict_oldest
  evict_oldest-IsSmall c (free, fits, some_room) = elim (Option-cases (take_oldest c.entries)) [
    | inl a ↦
        let empty = take_oldest-IsFree c.entries free a in
        let size : length c.entries ≡ 0 = ap length empty in
        rw (a, evict_oldest) (free, omega arith, refl)
    | inr ((r, w), a) ↦
        let cut = (take_oldest-Cut c.entries r w a).0 in
        rw (a, evict_oldest)
          ((All-Cut c.entries r w cut free).0, omega (arith, length-Cut c.entries r w cut), refl)
  ]

  pub moved-IsSmall :
      (k : Text) (e : Entry S) (es : List (Entry S))
      → find k es ≡ some e
      → All IsFree es
      → All IsFree (remove e.key es) × IsFree e × (length es ≡ suc (length (remove e.key es)))
  moved-IsSmall k e es h free =
      let cut = find-Cut e.key e es (ap (λ j. find j es) (sym (find-key k e es h)) ∙ h) in
      let parts = All-Cut es (remove e.key es) e cut free in
      (parts.0, parts.1, length-Cut es (remove e.key es) e cut)

  get-IsSmall : (k : Text) (c : StmtCache S) → IsSmall c → IsSmall (get k c).1
  unfolding get
  get-IsSmall k c (free, fits, some_room) = elim (Option-cases (find k c.entries)) [
    | inl a ↦ rw (a, get) (free, fits, some_room)
    | inr (e, a) ↦
        let (rest, here, size) = moved-IsSmall k e c.entries a free in
        rw (a, get) ((here, rest), omega arith, some_room)
  ]

  push-IsSmall :
      (k : Text) (s : S) (c d : StmtCache S)
      → (d.capacity ≡ c.capacity)
      → 0 < c.capacity
      → All IsFree d.entries
      → suc (length d.entries) ≤ c.capacity
      → IsSmall (push_front k s d)
  push-IsSmall k s c d same some_room free fits = ((refl, free), omega arith, omega arith)

  set-IsSmall : (k : Text) (s : S) (c : StmtCache S) → IsSmall c → IsSmall (set k s c)
  unfolding set
  set-IsSmall k s c (free, fits, some_room) = elim (Option-cases (find k c.entries)) [
    | inl a ↦ elim (Bool-cases (leb c.capacity (length c.entries))) [
      | inl full ↦
          let (f, n, same) = evict_oldest-IsSmall c (free, fits, some_room) in
          rw (a, set, full) (push-IsSmall k s c (evict_oldest c) same some_room f n)
      | inr room ↦ rw (a, set, room) (push-IsSmall k s c c refl some_room free (ground arith))
    ]
    | inr (e, a) ↦
        let (rest, here, size) = moved-IsSmall k e c.entries a free in
        rw (a, set) ((here, rest), omega arith, some_room)
  ]

  mark-IsFree : (k : Text) (es : List (Entry S)) → All IsFree es → All IsFree (mark false k es)
  mark-IsFree k [] h = tt
  mark-IsFree k (e ∷ es) h = elim (Bool-cases (text_eq k e.key)) [
    | inl hit ↦ rw (hit, mark) (refl, h.1)
    | inr miss ↦ rw (miss, mark) (h.0, mark-IsFree k es h.1)
  ]

  length-mark : (b : Bool) (k : Text) (es : List (Entry S)) → length (mark b k es) ≡ length es
  length-mark b k [] = refl
  length-mark b k (e ∷ es) = ground (arith, length-mark b k es)

  unpin-IsSmall : (k : Text) (c : StmtCache S) → IsSmall c → IsSmall (unpin k c).1
  unfolding unpin
  unpin-IsSmall k c (free, fits, some_room) = elim (Option-cases (find k c.entries)) [
    | inl a ↦ rw (unpin, mark_in, a) (free, fits, some_room)
    | inr (e, a) ↦
        rw (unpin, mark_in, a)
          (mark-IsFree k c.entries free, omega (arith, length-mark false k c.entries), some_room)
  ]

  abbrev pub IsNoPin : Call S → Type 0
  IsNoPin (pin_call k) = ⊥
  IsNoPin (get_call k) = Unit
  IsNoPin (set_call k s) = Unit
  IsNoPin clear_call = Unit
  IsNoPin (unpin_call k) = Unit

  pub step-IsSmall : (m : Call S) (c : StmtCache S) → IsNoPin m → IsSmall c → IsSmall (step m c)
  unfolding clear
  step-IsSmall (get_call k) c h q = get-IsSmall k c q
  step-IsSmall (set_call k s) c h q = set-IsSmall k s c q
  step-IsSmall clear_call c h (free, fits, some_room) = (tt, omega arith, some_room)
  step-IsSmall (pin_call k) c h q = absurd h
  step-IsSmall (unpin_call k) c h q = unpin-IsSmall k c q

  run-IsSmall :
      (ms : List (Call S)) (c : StmtCache S) → All IsNoPin ms → IsSmall c → IsSmall (run ms c)
  run-IsSmall [] c h q = q
  run-IsSmall (m ∷ ms) c h q = run-IsSmall ms (step m c) h.1 (step-IsSmall m c h.0 q)

  -- Without a call of `Pin`, the cache never holds more statements than its capacity.
  pub size-run :
      (n : ℤ) (ms : List (Call S))
      → All IsNoPin ms
      → let c : StmtCache S = run ms (new_stmt_cache_with_capacity n) in
        length c.entries ≤ c.capacity
  size-run n ms h =
      (run-IsSmall ms (new_stmt_cache_with_capacity n) h
        (tt, omega arith, clamp_capacity-positive n)).1

  take_oldest-pinned : (es : List (Entry S)) → All IsPinned es → take_oldest es ≡ none
  take_oldest-pinned [] h = refl
  take_oldest-pinned (e ∷ es) h = rw (take_oldest, take_oldest-pinned es h.1, h.0) refl

  -- Where all entries are pinned, a new key makes the cache one larger, in a full cache as well:
  -- it then holds more statements than its capacity.
  pub set-overfull :
      (k : Text) (s : S) (c : StmtCache S)
      → find k c.entries ≡ none
      → All IsPinned c.entries
      → length (set k s c).entries ≡ suc (length c.entries)
  unfolding set evict_oldest
  set-overfull k s c a pins =
      rw (a, set)
        (if_elim (λ d. suc (length d.entries) ≡ suc (length c.entries))
          (leb c.capacity (length c.entries)) (evict_oldest c) c
          (rw (evict_oldest, take_oldest-pinned c.entries pins) refl) refl)
