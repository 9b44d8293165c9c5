-- ===== src/Db/Commit.antt =====
-- When a transaction is committed.
use relica.Prelude.{
  suc, ◌+◌, ap, ◌∙◌, if◌then◌else◌, ◌⊎◌, ◌≡◌, ◌↔◌, refl, Bool, true, false, ◌∷◌, Option, none, some,
  arith, inl, inr,
}
use relica.Db.{Config, State, ok, TxOptions, committed, rolled_back}
use relica.Db.Client.{total, ends}
use relica.Db.Tx.{exited, Outcome, returned, panicked, begin_tx, finish_tx, transactional}

one_end :
    (S : Type 0) {X : Type 0} (b : Bool) (x : X)
    → ends {S = S} (if b then committed x else rolled_back x) ≡ 1
one_end S true x = refl
one_end S false x = refl

begun :
    {W S X E V : Type 0} (cfg : Config W S X E V) (options : Option TxOptions)
    (st : State W S X E V)
    → total ends (begin_tx cfg options st).1.calls ≡ total ends st.calls
unfolding begin_tx
begun cfg options st = omega arith

module _ {W S X E V P : Type 0} (cfg : Config W S X E V) where
  -- Whether the function returned nil or left by `runtime.Goexit`.
  abbrev pub is_nil : Outcome E P → Bool
  is_nil (returned none) = true
  is_nil (returned (some f)) = false
  is_nil (panicked p) = false
  is_nil exited = true

  -- How a transaction whose function came to `o` in state `u` ends in `t` with `o'`.
  pub record Ending (x : X) (o : Outcome E P) (u : State W S X E V) (o' : Outcome E P)
      (t : State W S X E V) : Type 0 where
    pub last_call : t.calls ≡ (if is_nil o then committed x else rolled_back x) ∷ u.calls
    pub kept : (o ≡ returned none) ⊎ (o' ≡ o)
    pub succeeds :
        (o' ≡ returned none) ↔ ((o ≡ returned none) × ((cfg.driver.commit x u.world).0 ≡ none))

  finish_tx-Ending :
      (x : X) (o : Outcome E P) (u : State W S X E V)
      → Ending x o u (finish_tx cfg x o u).0 (finish_tx cfg x o u).1
  finish_tx-Ending x (panicked p) u = record {
    last_call = refl;
    kept = inr refl;
    succeeds = (λ h. cc, λ h. cc (h.0));
  }
  finish_tx-Ending x (returned (some f)) u = record {
    last_call = refl;
    kept = inr refl;
    succeeds = (λ h. cc, λ h. cc (h.0));
  }
  finish_tx-Ending x exited u = record {
    last_call = refl;
    kept = inr refl;
    succeeds = (λ h. cc, λ h. cc (h.0));
  }
  finish_tx-Ending x (returned none) u = record {
    last_call = refl;
    kept = inl refl;
    succeeds = (λ h. (refl, ground (arith, h)), λ h. ground (arith, h.1));
  }

  -- If a transaction could be begun and the function neither commits nor rolls back one itself, then
  -- the transaction is ended exactly once, by the last call of all: by `Rollback` if the function
  -- returned an error or panicked, which is then how the whole ends; and by `Commit` if it returned
  -- nil or ended its goroutine by `runtime.Goexit`. The whole ends by nil exactly if the function
  -- returned nil and `Commit` did.
  pub transactional-Ending :
      (options : Option TxOptions) (f : X → State W S X E V → Outcome E P × State W S X E V) (x : X)
      (st : State W S X E V)
      → (begin_tx cfg options st).0 ≡ ok x
      → total ends (f x (begin_tx cfg options st).1).1.calls
        ≡ total ends (begin_tx cfg options st).1.calls
      → (total ends (transactional cfg options f st).1.calls ≡ suc (total ends st.calls))
        × Ending x
            (f x (begin_tx cfg options st).1).0
            (f x (begin_tx cfg options st).1).1
            (transactional cfg options f st).0
            (transactional cfg options f st).1
  unfolding transactional
  transactional-Ending options f x st h same =
      let (o, u) = f x (begin_tx cfg options st).1 in
      let e : Ending x o u (transactional cfg options f st).0 (transactional cfg options f st).1 =
        rw (h, transactional) (finish_tx-Ending x o u) in
      let count : total ends (transactional cfg options f st).1.calls ≡ 1 + total ends u.calls =
        ap (total ends) e.last_call ∙ ap (λ n. n + total ends u.calls) (one_end S (is_nil o) x) in
      (omega (arith, count, same, begun cfg options st), e)
