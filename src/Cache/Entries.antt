-- ===== src/Cache/Entries.antt =====
-- Looking an entry up, and taking it out of the list.
use relica.Prelude.{
  ◌≡◌, refl, ap, sym, ◌∙◌, true, false, List, [], ◌∷◌, ◌++◌, none, some, arith, All, Bool-cases,
  Option-cases, inl, inr,
}
use relica.Prelude.Maps.{text_eq, text_eq→≡}
use relica.Text.{Text}
use relica.Cache.{Entry, find, remove, take_oldest}

-- The entry that is taken stands between the two parts that stay.
pub record Cut (S : Type 0) (es rest : List (Entry S)) (v : Entry S) : Type 0 where
  pub before : List (Entry S)
  pub after : List (Entry S)
  pub whole : es ≡ before ++ v ∷ after
  pub left : rest ≡ before ++ after

module _ {S : Type 0} where
  abbrev Cut-there :
      (x v : Entry S) (es rest : List (Entry S)) → Cut S es rest v → Cut S (x ∷ es) (x ∷ rest) v
  Cut-there x v es rest c = record {
    before = x ∷ c.before;
    after = c.after;
    whole = ap (◌∷◌ x) c.whole;
    left = ap (◌∷◌ x) c.left;
  }

  -- What a failed and what a successful test for the first entry leave.
  pub find-first :
      (k : Text) (e x : Entry S) (es : List (Entry S))
      → text_eq k x.key ≡ true
      → find k (x ∷ es) ≡ some e
      → x ≡ e
  find-first k e x es hit h = ground arith

  pub find-hit :
      (k : Text) (x : Entry S) (es : List (Entry S))
      → text_eq k x.key ≡ true
      → find k (x ∷ es) ≡ some x
  find-hit k x es h = rw (h, find) refl

  pub find-miss :
      (k : Text) (x : Entry S) (es : List (Entry S))
      → text_eq k x.key ≡ false
      → find k (x ∷ es) ≡ find k es
  find-miss k x es h = rw (h, find) refl

  pub find-Cut :
      (k : Text) (e : Entry S) (es : List (Entry S)) → find k es ≡ some e → Cut S es (remove k es) e
  find-Cut k e [] h = cc
  find-Cut k e (x ∷ es) h = elim (Bool-cases (text_eq k x.key)) [
    | inl hit ↦ record {
      before = [];
      after = es;
      whole = ap (λ y. y ∷ es) (find-first k e x es hit h);
      left = rw (hit, remove) refl;
    }
    | inr miss ↦ rw (miss, remove) (Cut-there x e es (remove k es) (find-Cut k e es (ground arith)))
  ]

  pub find-key : (k : Text) (e : Entry S) (es : List (Entry S)) → find k es ≡ some e → k ≡ e.key
  find-key k e [] h = cc
  find-key k e (x ∷ es) h = elim (Bool-cases (text_eq k x.key)) [
    | inl hit ↦ text_eq→≡ k x.key hit ∙ ap (λ y. y.key) (find-first k e x es hit h)
    | inr miss ↦ find-key k e es (ground arith)
  ]

  abbrev pub IsPinned : Entry S → Type 0
  IsPinned e = e.pinned ≡ true

  -- Where nothing can be evicted, all entries are pinned.
  pub take_oldest-none : (es : List (Entry S)) → take_oldest es ≡ none → All IsPinned es
  take_oldest-none [] h = tt
  take_oldest-none (e ∷ es) h = (ground arith, take_oldest-none es (ground arith))

  take_oldest-last :
      (e : Entry S) (es rest : List (Entry S)) (v : Entry S)
      → take_oldest es ≡ none
      → take_oldest (e ∷ es) ≡ some (rest, v)
      → (e.pinned ≡ false) × (es ≡ rest) × (e ≡ v)
  take_oldest-last e es rest v a h = (ground arith, ground arith, ground arith)

  take_oldest-front :
      (e : Entry S) (es rest r : List (Entry S)) (v w : Entry S)
      → take_oldest es ≡ some (r, w)
      → take_oldest (e ∷ es) ≡ some (rest, v)
      → (e ∷ r ≡ rest) × (w ≡ v)
  take_oldest-front e es rest r v w a h = (ground arith, ground arith)

  -- The entry that is evicted is not pinned, and all that are less recent are.
  abbrev pub CutOldest : List (Entry S) → List (Entry S) → Entry S → Type 0
  CutOldest es rest v = (c : Cut S es rest v) × (v.pinned ≡ false) × All IsPinned c.after

  pub take_oldest-Cut :
      (es rest : List (Entry S)) (v : Entry S)
      → take_oldest es ≡ some (rest, v)
      → CutOldest es rest v
  take_oldest-Cut [] rest v h = cc
  take_oldest-Cut (e ∷ es) rest v h = elim (Option-cases (take_oldest es)) [
    | inl a ↦
        let l = take_oldest-last e es rest v a h in
        rw (← l.1, ← l.2)
          (
            record { before = []; after = es; whole = refl; left = refl },
            l.0,
            take_oldest-none es a,
          )
    | inr ((r, w), a) ↦
        let l = take_oldest-front e es rest r v w a h in
        let c = take_oldest-Cut es r w a in rw (← l.0, ← l.1) (Cut-there e w es r c.0, c.1, c.2)
  ]

  -- Looking up beside the entry that is taken.
  pub find-cut_none :
      (k : Text) (v : Entry S) (a b : List (Entry S))
      → find k (a ++ v ∷ b) ≡ none
      → (find k (a ++ b) ≡ none) × (text_eq k v.key ≡ false)
  find-cut_none k v [] b h = (ground arith, ground arith)
  find-cut_none k v (x ∷ a) b h =
      let rest = find-cut_none k v a b (ground arith) in (ground (arith, rest.0), rest.1)

  pub find-cut_other :
      (k : Text) (v : Entry S) (a b : List (Entry S))
      → text_eq k v.key ≡ false
      → find k (a ++ b) ≡ find k (a ++ v ∷ b)
  find-cut_other k v [] b h = ground arith
  find-cut_other k v (x ∷ a) b h = ground (arith, find-cut_other k v a b h)

  -- Moving an entry to the front, changed or not, is not seen under the other keys.
  pub find-moved_other :
      (j k : Text) (e x : Entry S) (es : List (Entry S))
      → find j es ≡ some e
      → x.key ≡ e.key
      → text_eq k j ≡ false
      → find k (x ∷ remove e.key es) ≡ find k es
  find-moved_other j k e x es h same other =
      let key : j ≡ e.key = find-key j e es h in
      let cut = find-Cut e.key e es (ap (λ i. find i es) (sym key) ∙ h) in
      let apart : text_eq k e.key ≡ false = ap (text_eq k) (sym key) ∙ other in
      let apart_x : text_eq k x.key ≡ false = ap (text_eq k) same ∙ apart in
      let rest : find k (remove e.key es) ≡ find k es =
        ap (find k) cut.left
        ∙ find-cut_other k e cut.before cut.after apart
        ∙ ap (find k) (sym cut.whole) in
      rw (apart_x, find) rest

  -- Moving an entry to the front is not seen at all.
  pub find-moved :
      (j k : Text) (e : Entry S) (es : List (Entry S))
      → find j es ≡ some e
      → find k (e ∷ remove e.key es) ≡ find k es
  find-moved j k e es h = elim (Bool-cases (text_eq k j)) [
    | inl hit ↦
        let same : k ≡ j = text_eq→≡ k j hit in
        let at_key : text_eq k e.key ≡ true = ap (text_eq k) (sym (find-key j e es h)) ∙ hit in
        let found : find k es ≡ some e = ap (λ i. find i es) same ∙ h in
        rw (at_key, find) (sym found)
    | inr miss ↦ find-moved_other j k e e es h refl miss
  ]
