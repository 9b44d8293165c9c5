-- ===== src/Db/Open.antt =====
-- Whether the statement that a query gets is still open.
use mathlib.Core.List.Perm
use mathlib.Core.List.{Mem, Nodup, Nodup-append, Nodup-cons, mem-cons_self}
use relica.Prelude.{
  ◌≡◌, refl, sym, ap, ◌∙◌, [], ◌∷◌, ◌++◌, none, some, arith, Option-cases, inl, inr, subst,
}
use relica.Prelude.Maps.{text_eq_refl}
use relica.Text.{Text}
use relica.Cache.{StmtCache, find, get, set, make_room, push_front}
use relica.Cache.Ownership.{stmts, owned, get-Perm, set-Perm, stmts-moved}
use relica.Db.{Config, State, ok}
use relica.Db.Client.Steps.{Result-cases}
use relica.Db.Statement.{cached_statement}
use relica.Db.Reuse.{cached_statement-get}

module _ {S : Type 0} where
  found_in : (k : Text) (c : StmtCache S) (s : S) → (get k c).0 ≡ some s → Mem s (stmts c.entries)
  unfolding get
  found_in k c s h = elim (Option-cases (find k c.entries)) [
    | inl e ↦ let bad = rw (get, e) at h in cc
    | inr (x, e) ↦
        let same : x.stmt ≡ s = ground (arith) in
        subst (λ t. Mem t (stmts c.entries)) same
          (Perm.subset (Perm.symm (stmts-moved k x c.entries e)) x.stmt mem-cons_self)
  ]

  -- What the cache answers is open, if no statement was handed to it twice.
  get-open :
      (k : Text) (c : StmtCache S) (s : S)
      → Nodup (owned c)
      → (get k c).0 ≡ some s
      → ¬ Mem s c.closed
  get-open k c s n h m = (Nodup-append.0 n).2 s (found_in k c s h) m

  get-miss :
      (k : Text) (c : StmtCache S) → find k c.entries ≡ none → (get k c).1.entries ≡ c.entries
  unfolding get
  get-miss k c h = rw (get, h) refl

  miss : (k : Text) (c : StmtCache S) → find k c.entries ≡ none → (get k c).0 ≡ none
  unfolding get
  miss k c h = rw (get, h) refl

  set-push_front :
      (k : Text) (s t : S) (c : StmtCache S)
      → (set k t (push_front k s c)).closed ≡ c.closed ++ s ∷ []
  unfolding set
  set-push_front k s t c = rw (set, text_eq_refl k) refl

  set-set :
      (k : Text) (s t : S) (c : StmtCache S)
      → find k c.entries ≡ none
      → (set k t (set k s c)).closed ≡ (set k s c).closed ++ s ∷ []
  unfolding set
  set-set k s t c h =
      let e : set k s c ≡ push_front k s (make_room c) = rw (set, h) refl in
      subst (λ d. (set k t d).closed ≡ d.closed ++ s ∷ []) (sym e)
        (set-push_front k s t (make_room c))

  -- Two goroutines that look for the same text, which is not in the cache, both miss; they prepare
  -- a statement each and put it into the cache, one after the other. The second `Set` closes the
  -- statement that the first goroutine is about to run.
  pub race_closes :
      (k : Text) (s t : S) (c : StmtCache S)
      → find k c.entries ≡ none
      → ((get k c).0 ≡ none)
        × ((get k (get k c).1).0 ≡ none)
        × ((set k t (set k s (get k (get k c).1).1)).closed
            ≡ (set k s (get k (get k c).1).1).closed ++ s ∷ [])
  race_closes k s t c h =
      let h' : find k (get k c).1.entries ≡ none = ap (find k) (get-miss k c h) ∙ h in
      let h'' : find k (get k (get k c).1).1.entries ≡ none =
        ap (find k) (get-miss k (get k c).1 h') ∙ h' in
      (miss k c h, miss k (get k c).1 h', set-set k s t (get k (get k c).1).1 h'')

module _ {W S X E V : Type 0} (cfg : Config W S X E V) (sql : Text) (st : State W S X E V) where
  -- The database never returns a statement that it has returned before.
  abbrev pub IsFresh : Type 0
  IsFresh = (x : S) → (cfg.driver.prepare none sql st.world).0 ≡ ok x → ¬ Mem x (owned st.cache)

  hit-Nodup :
      (s : S)
      → Nodup (owned st.cache)
      → (get sql st.cache).0 ≡ some s
      → Nodup (owned (cached_statement cfg sql st).1.cache)
  hit-Nodup s n e = rw (e, cached_statement) (Perm.nodup (Perm.symm (get-Perm sql st.cache)) n)

  set-Nodup :
      (x : S)
      → Nodup (owned st.cache)
      → ¬ Mem x (owned st.cache)
      → Nodup (owned (set sql x (get sql st.cache).1))
  set-Nodup x n h =
      let p = get-Perm sql st.cache in
      Perm.nodup (Perm.symm (set-Perm sql x (get sql st.cache).1))
        (Nodup-cons.1 (λ m. h (Perm.subset p x m), Perm.nodup (Perm.symm p) n))

  miss-Nodup :
      Nodup (owned st.cache)
      → IsFresh
      → (get sql st.cache).0 ≡ none
      → Nodup (owned (cached_statement cfg sql st).1.cache)
  miss-Nodup n fresh e = elim (Result-cases (cfg.driver.prepare none sql st.world).0) [
    | inl (x, f) ↦ rw (e, cached_statement, f) (set-Nodup x n (fresh x f))
    | inr (x, f) ↦ rw (e, cached_statement, f) (Perm.nodup (Perm.symm (get-Perm sql st.cache)) n)
  ]

  -- Where no statement was handed to the cache twice and the database prepares a new one, the
  -- statement that a query gets, from the cache or prepared for it, is not closed, and none was
  -- handed to the cache twice then.
  pub cached_statement-open :
      (s : S)
      → Nodup (owned st.cache)
      → IsFresh
      → (cached_statement cfg sql st).0 ≡ ok s
      → (¬ Mem s (cached_statement cfg sql st).1.cache.closed)
        × Nodup (owned (cached_statement cfg sql st).1.cache)
  cached_statement-open s n fresh h =
      let n' : Nodup (owned (cached_statement cfg sql st).1.cache) =
        elim (Option-cases (get sql st.cache).0) [
          | inl e ↦ miss-Nodup n fresh e
          | inr (x, e) ↦ hit-Nodup x n e
        ] in
      (
        get-open sql (cached_statement cfg sql st).1.cache s n'
            (cached_statement-get cfg sql s st h),
        n',
      )
