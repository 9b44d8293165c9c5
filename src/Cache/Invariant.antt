-- ===== src/Cache/Invariant.antt =====
-- The keys are distinct, and the counters are 64-bit numbers.
use relica.Prelude.{
  ℕ, zero, suc, ◌^◌, ◌<◌, leb, ◌≡◌, refl, ap, sym, ◌∙◌, Bool, true, false, List, [], ◌∷◌, ◌++◌,
  none, some, arith, length, map, if_elim, Bool-cases, Option-cases, inl, inr,
}
use relica.Prelude.Maps.{text_eq}
use relica.Text.{Text}
use relica.Prelude.Ints.{ℤ, pos, negsuc}
use relica.Cache.{
  Entry, StmtCache, find, remove, mark, mark_in, take_oldest, get, set, clear, pin, unpin,
  evict_oldest, push_front, Call, get_call, set_call, clear_call, pin_call, unpin_call, step, run,
  new_stmt_cache_with_capacity, add_one, clamp_capacity,
}
use relica.Cache.Entries.{Cut, find-Cut, find-key, take_oldest-Cut, find-cut_none}

pub text_eq_comm : (s t : Text) → text_eq s t ≡ text_eq t s
text_eq_comm [] [] = refl
text_eq_comm [] (b ∷ t) = refl
text_eq_comm (a ∷ s) [] = refl
text_eq_comm (a ∷ s) (b ∷ t) = ground (arith, text_eq_comm s t)

add_one-bound : (n : ℕ) → add_one n < 2 ^ 64
add_one-bound n = omega arith

pub clamp_capacity-positive : (n : ℤ) → 0 < clamp_capacity n
clamp_capacity-positive (pos zero) = omega arith
clamp_capacity-positive (pos (suc n)) = omega arith
clamp_capacity-positive (negsuc n) = omega arith

module _ {S : Type 0} where
  abbrev pub IsUnique : List (Entry S) → Type 0
  IsUnique [] = Unit
  IsUnique (e ∷ es) = (find e.key es ≡ none) × IsUnique es

  IsUnique-cut :
      (v : Entry S) (a b : List (Entry S))
      → IsUnique (a ++ v ∷ b)
      → IsUnique (a ++ b) × (find v.key (a ++ b) ≡ none)
  IsUnique-cut v [] b h = (h.1, h.0)
  IsUnique-cut v (x ∷ a) b h =
      let rest = IsUnique-cut v a b h.1 in
      let apart = find-cut_none x.key v a b h.0 in
      ((apart.0, rest.0), ground (arith, rest.1, apart.1, text_eq_comm x.key v.key))

  pub IsUnique-Cut :
      (es rest : List (Entry S)) (v : Entry S)
      → Cut S es rest v
      → IsUnique es
      → IsUnique rest × (find v.key rest ≡ none)
  IsUnique-Cut es rest v c h = rw c.left (IsUnique-cut v c.before c.after (rw (← c.whole) h))

  pub find-Cut_none :
      (k : Text) (es rest : List (Entry S)) (v : Entry S)
      → Cut S es rest v
      → find k es ≡ none
      → find k rest ≡ none
  find-Cut_none k es rest v c h =
      rw c.left (find-cut_none k v c.before c.after (rw (← c.whole) h)).0

  find-mark-none :
      (b : Bool) (j k : Text) (es : List (Entry S)) → find j es ≡ none → find j (mark b k es) ≡ none
  find-mark-none b j k [] h = refl
  find-mark-none b j k (e ∷ es) h = ground (arith, find-mark-none b j k es)

  mark-IsUnique : (b : Bool) (k : Text) (es : List (Entry S)) → IsUnique es → IsUnique (mark b k es)
  mark-IsUnique b k [] h = tt
  mark-IsUnique b k (e ∷ es) h = elim (Bool-cases (text_eq k e.key)) [
    | inl hit ↦ rw (hit, mark) h
    | inr miss ↦ rw (miss, mark) (find-mark-none b e.key k es h.0, mark-IsUnique b k es h.1)
  ]

  -- A cache as the methods leave it.
  pub record IsValid (c : StmtCache S) : Type 0 where
    pub unique : IsUnique c.entries
    pub positive : 0 < c.capacity
    pub hits_fit : c.hits < 2 ^ 64
    pub misses_fit : c.misses < 2 ^ 64
    pub evictions_fit : c.evictions < 2 ^ 64

  -- A valid cache stays so with other entries, logged statements and counters.
  with_entries :
      (c : StmtCache S) (es : List (Entry S)) (cl : List S) (e : ℕ)
      → IsValid c
      → e < 2 ^ 64
      → IsUnique es
      → IsValid (record c { entries = es; closed = cl; evictions = e })
  with_entries c es cl e v h u = record {
    unique = u;
    positive = v.positive;
    hits_fit = v.hits_fit;
    misses_fit = v.misses_fit;
    evictions_fit = h;
  }

  moved-IsUnique :
      (k : Text) (e : Entry S) (es : List (Entry S))
      → find k es ≡ some e
      → IsUnique es
      → IsUnique (e ∷ remove e.key es)
  moved-IsUnique k e es h u =
      let at_key : find e.key es ≡ some e = ap (λ j. find j es) (sym (find-key k e es h)) ∙ h in
      let parts = IsUnique-Cut es (remove e.key es) e (find-Cut e.key e es at_key) u in
      (parts.1, parts.0)

  get-IsValid : (k : Text) (c : StmtCache S) → IsValid c → IsValid (get k c).1
  unfolding get
  get-IsValid k c v = elim (Option-cases (find k c.entries)) [
    | inl a ↦
        rw (a, get)
          (record {
            unique = v.unique;
            positive = v.positive;
            hits_fit = v.hits_fit;
            misses_fit = add_one-bound c.misses;
            evictions_fit = v.evictions_fit;
          })
    | inr (e, a) ↦
        rw (a, get)
          (record {
            unique = moved-IsUnique k e c.entries a v.unique;
            positive = v.positive;
            hits_fit = add_one-bound c.hits;
            misses_fit = v.misses_fit;
            evictions_fit = v.evictions_fit;
          })
  ]

  evict_oldest-IsValid : (c : StmtCache S) → IsValid c → IsValid (evict_oldest c)
  unfolding evict_oldest
  evict_oldest-IsValid c v = elim (Option-cases (take_oldest c.entries)) [
    | inl a ↦ rw (a, evict_oldest) v
    | inr ((r, w), a) ↦
        rw (a, evict_oldest)
          (with_entries c r (c.closed ++ w.stmt ∷ []) (add_one c.evictions) v
            (add_one-bound c.evictions)
            (IsUnique-Cut c.entries r w (take_oldest-Cut c.entries r w a).0 v.unique).0)
  ]

  evict_oldest-find-none :
      (k : Text) (c : StmtCache S)
      → find k c.entries ≡ none
      → find k (evict_oldest c).entries ≡ none
  unfolding evict_oldest
  evict_oldest-find-none k c h = elim (Option-cases (take_oldest c.entries)) [
    | inl a ↦ rw (a, evict_oldest) h
    | inr ((r, w), a) ↦
        rw (a, evict_oldest) (find-Cut_none k c.entries r w (take_oldest-Cut c.entries r w a).0 h)
  ]

  push-IsValid :
      (k : Text) (s : S) (c : StmtCache S)
      → find k c.entries ≡ none
      → IsValid c
      → IsValid (push_front k s c)
  push-IsValid k s c h v =
      with_entries c (record { key = k; stmt = s; pinned = false } ∷ c.entries) c.closed c.evictions
        v v.evictions_fit (h, v.unique)

  pub set-IsValid : (k : Text) (s : S) (c : StmtCache S) → IsValid c → IsValid (set k s c)
  unfolding set
  set-IsValid k s c v = elim (Option-cases (find k c.entries)) [
    | inl a ↦
        rw (a, set)
          (if_elim (λ d. IsValid (push_front k s d)) (leb c.capacity (length c.entries))
            (evict_oldest c) c
            (push-IsValid k s (evict_oldest c) (evict_oldest-find-none k c a)
              (evict_oldest-IsValid c v))
            (push-IsValid k s c a v))
    | inr (e, a) ↦
        rw (a, set)
          (with_entries c (record e { stmt = s } ∷ remove e.key c.entries) (c.closed ++ e.stmt ∷ [])
            c.evictions v v.evictions_fit (moved-IsUnique k e c.entries a v.unique))
  ]

  mark_in-IsValid : (b : Bool) (k : Text) (c : StmtCache S) → IsValid c → IsValid (mark_in b k c).1
  mark_in-IsValid b k c v = elim (Option-cases (find k c.entries)) [
    | inl a ↦ rw (mark_in, a) v
    | inr (e, a) ↦
        rw (mark_in, a)
          (with_entries c (mark b k c.entries) c.closed c.evictions v v.evictions_fit
            (mark-IsUnique b k c.entries v.unique))
  ]

  step-IsValid : (m : Call S) (c : StmtCache S) → IsValid c → IsValid (step m c)
  unfolding clear pin unpin
  step-IsValid (get_call k) c v = get-IsValid k c v
  step-IsValid (set_call k s) c v = set-IsValid k s c v
  step-IsValid clear_call c v =
      with_entries c [] (c.closed ++ map (λ e. e.stmt) c.entries) c.evictions v v.evictions_fit tt
  step-IsValid (pin_call k) c v = mark_in-IsValid true k c v
  step-IsValid (unpin_call k) c v = mark_in-IsValid false k c v

  run-IsValid : (ms : List (Call S)) (c : StmtCache S) → IsValid c → IsValid (run ms c)
  run-IsValid [] c v = v
  run-IsValid (m ∷ ms) c v = run-IsValid ms (step m c) (step-IsValid m c v)

  -- Whatever capacity is asked for and whatever is called in whatever order, no key stands twice in
  -- the cache, its capacity is positive, and its counters are 64-bit numbers.
  pub reachable-IsValid :
      (n : ℤ) (ms : List (Call S)) → IsValid (run ms (new_stmt_cache_with_capacity n))
  reachable-IsValid n ms = run-IsValid ms (new_stmt_cache_with_capacity n) (record {
    unique = tt;
    positive = clamp_capacity-positive n;
    hits_fit = omega arith;
    misses_fit = omega arith;
    evictions_fit = omega arith;
  })
