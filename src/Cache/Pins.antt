-- ===== src/Cache/Pins.antt =====
-- Pinned statements, eviction, and the size of the cache.
use relica.Prelude.{
  leb, ◌≡◌, refl, ap, sym, ◌∙◌, Bool, true, false, List, [], ◌∷◌, ◌++◌, some, arith, length, All,
  if_elim, Bool-cases, Option-cases, inl, inr,
}
use relica.Prelude.Maps.{text_eq, text_eq→≡}
use relica.Text.{Text}
use relica.Cache.{
  Entry, StmtCache, find, mark, mark_in, take_oldest, get, set, pin, unpin, evict_oldest,
  push_front, Call, get_call, set_call, clear_call, pin_call, unpin_call, step, run,
}
use relica.Cache.Entries.{
  take_oldest-Cut, find-moved, find-moved_other, find-first, find-hit, find-miss,
}

module _ {S : Type 0} where
  -- The statement of a key, if it is pinned.
  abbrev pub Holds : Text → S → List (Entry S) → Type 0
  Holds k s es = (e : Entry S) × (find k es ≡ some e) × (e.stmt ≡ s) × (e.pinned ≡ true)

  find-cut_pinned :
      (k : Text) (e v : Entry S) (a b : List (Entry S))
      → e.pinned ≡ true
      → v.pinned ≡ false
      → find k (a ++ v ∷ b) ≡ some e
      → find k (a ++ b) ≡ some e
  find-cut_pinned k e v [] b p q h = elim (Bool-cases (text_eq k v.key)) [
    | inl hit ↦
        let same = find-first k e v b hit h in absurd (ground (arith, ap (λ y. y.pinned) same))
    | inr miss ↦ ground arith
  ]
  find-cut_pinned k e v (x ∷ a) b p q h = ground (arith, find-cut_pinned k e v a b)

  evict_oldest-Holds :
      (k : Text) (s : S) (c : StmtCache S)
      → Holds k s c.entries
      → Holds k s (evict_oldest c).entries
  unfolding evict_oldest
  evict_oldest-Holds k s c (e, f, hs, p) = elim (Option-cases (take_oldest c.entries)) [
    | inl a ↦ rw (a, evict_oldest) (e, f, hs, p)
    | inr ((r, w), a) ↦
        let (cut, q, older) = take_oldest-Cut c.entries r w a in
        rw (a, evict_oldest)
          (
            e,
            rw cut.left (find-cut_pinned k e w cut.before cut.after p q (rw (← cut.whole) f)),
            hs,
            p,
          )
  ]

  -- Pinning another entry or this one.
  Holds-pinned :
      (k : Text) (s : S) (x : Entry S) (es : List (Entry S))
      → Holds k s (x ∷ es)
      → Holds k s (record x { pinned = true } ∷ es)
  Holds-pinned k s x es (e, f, hs, p) = elim (Bool-cases (text_eq k x.key)) [
    | inl hit ↦ (
      record x { pinned = true },
      find-hit k (record x { pinned = true }) es hit,
      ap (λ y. y.stmt) (find-first k e x es hit f) ∙ hs,
      refl,
    )
    | inr miss ↦ (
      e,
      find-miss k (record x { pinned = true }) es miss ∙ (sym (find-miss k x es miss) ∙ f),
      hs,
      p,
    )
  ]

  Holds-there :
      (k : Text) (s : S) (x : Entry S) (es rest : List (Entry S))
      → (Holds k s es → Holds k s rest)
      → Holds k s (x ∷ es)
      → Holds k s (x ∷ rest)
  Holds-there k s x es rest keep (e, f, hs, p) = elim (Bool-cases (text_eq k x.key)) [
    | inl hit ↦ (e, find-hit k x rest hit ∙ (sym (find-hit k x es hit) ∙ f), hs, p)
    | inr miss ↦
        let (e', f', hs', p') = keep (e, sym (find-miss k x es miss) ∙ f, hs, p) in
        (e', find-miss k x rest miss ∙ f', hs', p')
  ]

  mark-Holds :
      (j k : Text) (s : S) (es : List (Entry S)) → Holds k s es → Holds k s (mark true j es)
  mark-Holds j k s [] h = h
  mark-Holds j k s (x ∷ es) h = elim (Bool-cases (text_eq j x.key)) [
    | inl hit ↦ rw (hit, mark) (Holds-pinned k s x es h)
    | inr miss ↦ rw (miss, mark) (Holds-there k s x es (mark true j es) (mark-Holds j k s es) h)
  ]

  find-mark_other :
      (j k : Text) (b : Bool) (es : List (Entry S))
      → text_eq k j ≡ false
      → find k (mark b j es) ≡ find k es
  find-mark_other j k b [] h = refl
  find-mark_other j k b (x ∷ es) h = elim (Bool-cases (text_eq j x.key)) [
    | inl hit ↦
        let apart : text_eq k x.key ≡ false = ap (text_eq k) (sym (text_eq→≡ j x.key hit)) ∙ h in
        rw (hit, mark)
          (find-miss k (record x { pinned = b }) es apart ∙ sym (find-miss k x es apart))
    | inr miss ↦ rw (miss, mark) (ground (arith, find-mark_other j k b es))
  ]

  get-Holds :
      (j k : Text) (s : S) (c : StmtCache S) → Holds k s c.entries → Holds k s (get j c).1.entries
  unfolding get
  get-Holds j k s c (e, f, hs, p) = elim (Option-cases (find j c.entries)) [
    | inl a ↦ rw (a, get) (e, f, hs, p)
    | inr (x, a) ↦ rw (a, get) (e, find-moved j k x c.entries a ∙ f, hs, p)
  ]

  set-Holds :
      (j k : Text) (t s : S) (c : StmtCache S)
      → text_eq k j ≡ false
      → Holds k s c.entries
      → Holds k s (set j t c).entries
  unfolding set
  set-Holds j k t s c other h = elim (Option-cases (find j c.entries)) [
    | inl a ↦
        rw (a, set)
          (if_elim (λ d. Holds k s (push_front j t d).entries) (leb c.capacity (length c.entries))
            (evict_oldest c) c (push-Holds (evict_oldest c) (evict_oldest-Holds k s c h))
            (push-Holds c h))
    | inr (x, a) ↦
        let (e, f, hs, p) = h in
        rw (a, set)
          (e, find-moved_other j k x (record x { stmt = t }) c.entries a refl other ∙ f, hs, p)
  ]
    where
      push-Holds : (d : StmtCache S) → Holds k s d.entries → Holds k s (push_front j t d).entries
      push-Holds d (e, f, hs, p) =
          (e, find-miss k (record { key = j; stmt = t; pinned = false }) d.entries other ∙ f, hs, p)

  mark_in-Holds :
      (j k : Text) (s : S) (c : StmtCache S)
      → Holds k s c.entries
      → Holds k s (mark_in true j c).1.entries
  mark_in-Holds j k s c h = elim (Option-cases (find j c.entries)) [
    | inl a ↦ rw (mark_in, a) h
    | inr (x, a) ↦ rw (mark_in, a) (mark-Holds j k s c.entries h)
  ]

  unpin-Holds :
      (j k : Text) (s : S) (c : StmtCache S)
      → text_eq k j ≡ false
      → Holds k s c.entries
      → Holds k s (unpin j c).1.entries
  unfolding unpin
  unpin-Holds j k s c other (e, f, hs, p) = elim (Option-cases (find j c.entries)) [
    | inl a ↦ rw (unpin, mark_in, a) (e, f, hs, p)
    | inr (x, a) ↦ rw (unpin, mark_in, a) (e, find-mark_other j k false c.entries other ∙ f, hs, p)
  ]

  -- The calls that do not touch the key's statement or its pin, and are not `Clear`.
  abbrev pub Spares : Text → Call S → Type 0
  Spares k (get_call j) = Unit
  Spares k (set_call j t) = text_eq k j ≡ false
  Spares k clear_call = ⊥
  Spares k (pin_call j) = Unit
  Spares k (unpin_call j) = text_eq k j ≡ false

  step-Holds :
      (k : Text) (s : S) (m : Call S) (c : StmtCache S)
      → Spares k m
      → Holds k s c.entries
      → Holds k s (step m c).entries
  unfolding pin
  step-Holds k s (get_call j) c h q = get-Holds j k s c q
  step-Holds k s (set_call j t) c h q = set-Holds j k t s c h q
  step-Holds k s clear_call c h q = absurd h
  step-Holds k s (pin_call j) c h q = mark_in-Holds j k s c q
  step-Holds k s (unpin_call j) c h q = unpin-Holds j k s c h q

  -- A pinned statement stays in the cache, still pinned, through any calls but `Clear` and those of
  -- `Set` and `Unpin` for its own key, however many other statements are added.
  pub run-Holds :
      (k : Text) (s : S) (ms : List (Call S)) (c : StmtCache S)
      → All (Spares k) ms
      → Holds k s c.entries
      → Holds k s (run ms c).entries
  run-Holds k s [] c h q = q
  run-Holds k s (m ∷ ms) c h q = run-Holds k s ms (step m c) h.1 (step-Holds k s m c h.0 q)
