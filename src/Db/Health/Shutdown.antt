-- ===== src/Db/Health/Shutdown.antt =====
-- What the health checker of internal/core/health.go tells, and that it is still after `shutdown`.
use relica.Prelude.{
  ℕ, zero, suc, arith, ◌≡◌, refl, sym, ap, ◌∙◌, Bool, true, false, List, [], ◌∷◌, ◌++◌, Option,
  none, some,
}
use relica.Db.Health.{
  in_use, waiting, shut, HealthChecker, new_health_checker, ping, is_healthy, last_error, Step,
  start, tick, close_stop, leave, wait_returns, Run, stay, next, last_of,
}

in_use≢shut : in_use ≡ shut → ⊥
in_use≢shut e = cc

in_use≢waiting : in_use ≡ waiting → ⊥
in_use≢waiting e = cc

waiting≢shut : waiting ≡ shut → ⊥
waiting≢shut e = cc

module _ {E : Type 0} where
  last_of-append :
      (before : Option E) (ps qs : List (Option E × ℕ))
      → last_of before (ps ++ qs) ≡ last_of (last_of before ps) qs
  last_of-append before [] qs = refl
  last_of-append before ((err, now) ∷ ps) qs = last_of-append err ps qs

  pings_once :
      {g h : HealthChecker E} {ps : List (Option E × ℕ)}
      → Step g ps h
      → h.last_err ≡ last_of g.last_err ps
  unfolding ping
  pings_once (start h p) = refl
  pings_once (tick h n err now p) = refl
  pings_once (leave h n p q) = refl
  pings_once (close_stop h p) = refl
  pings_once (wait_returns h p q) = refl

  keeps_last :
      {g h : HealthChecker E} {ps : List (Option E × ℕ)}
      → Run g ps h
      → h.last_err ≡ last_of g.last_err ps
  keeps_last (stay h) = refl
  keeps_last (next g h k ps qs s r) =
      keeps_last r ∙ ap (λ b. last_of b qs) (pings_once s) ∙ sym (last_of-append g.last_err ps qs)

  -- When `shutdown` has returned no goroutine is left.
  abbrev IsDone : HealthChecker E → Type 0
  IsDone h = h.owner ≡ shut → h.working ≡ 0

  none_back : {g h : HealthChecker E} {ps : List (Option E × ℕ)} → Step g ps h → IsDone g → IsDone h
  unfolding ping
  none_back (start h p) w e = absurd (in_use≢shut (sym p ∙ e))
  none_back (tick h n err now p) w e = w e
  none_back (leave h n p q) w e = let none_left = w e in absurd (omega arith)
  none_back (close_stop h p) w e = absurd (waiting≢shut e)
  none_back (wait_returns h p q) w e = q

  none_left_later :
      {g h : HealthChecker E} {ps : List (Option E × ℕ)} → Run g ps h → IsDone g → IsDone h
  none_left_later (stay h) w = w
  none_left_later (next g h k ps qs s r) w = none_left_later r (none_back s w)

  -- No ping then, and it stays so.
  stays_still :
      {g h : HealthChecker E} {ps : List (Option E × ℕ)}
      → Step g ps h
      → g.owner ≡ shut
      → g.working ≡ 0
      → (ps ≡ []) × (h.owner ≡ shut) × (h.working ≡ 0)
  stays_still (start h p) e z = absurd (in_use≢shut (sym p ∙ e))
  stays_still (tick h n err now p) e z = absurd (omega arith)
  stays_still (leave h n p q) e z = absurd (omega arith)
  stays_still (close_stop h p) e z = absurd (in_use≢shut (sym p ∙ e))
  stays_still (wait_returns h p q) e z = absurd (waiting≢shut (sym p ∙ e))

  still_later :
      {g h : HealthChecker E} {ps : List (Option E × ℕ)}
      → Run g ps h
      → g.owner ≡ shut
      → g.working ≡ 0
      → ps ≡ []
  still_later (stay h) e z = refl
  still_later (next g h k ps qs s r) e z =
      let (p, e', z') = stays_still s e z in ap (λ xs. xs ++ qs) p ∙ still_later r e' z'

  abbrev pub is_ok : Option E → Bool
  is_ok none = true
  is_ok (some e) = false

  healthy-is_ok : (h : HealthChecker E) → is_healthy h ≡ is_ok h.last_err
  unfolding is_healthy
  healthy-is_ok h = refl

  -- What a new checker tells after so many pings: the answer of the last of them, and that all is
  -- well before the first.
  pub record Tells (ps : List (Option E × ℕ)) (h : HealthChecker E) : Type 0 where
    pub health : is_healthy h ≡ is_ok (last_of none ps)
    pub error : last_error h ≡ last_of none ps

  report :
      (h : HealthChecker E) (ps : List (Option E × ℕ)) → h.last_err ≡ last_of none ps → Tells ps h
  unfolding last_error
  report h ps e = record { health = healthy-is_ok h ∙ ap is_ok e; error = e }

  -- When `shutdown` of a checker has returned, no goroutine of it is left, though it may have been
  -- in the middle of a ping when `stop` was closed. Whatever happens later, it pings no more, and
  -- keeps telling the answer of the last ping before.
  pub shutdown_is_final :
      {h k : HealthChecker E} {ps qs : List (Option E × ℕ)}
      → Run new_health_checker ps h
      → h.owner ≡ shut
      → Run h qs k
      → (h.working ≡ 0) × (qs ≡ []) × Tells ps h × Tells ps k
  unfolding new_health_checker
  shutdown_is_final {h = h} {k = k} {ps = ps} {qs = qs} r e later =
      let done = none_left_later r (λ p. absurd (in_use≢shut p)) e in
      let still = still_later later e done in
      let last = keeps_last r in
      (
        done,
        still,
        report h ps last,
        report k ps (keeps_last later ∙ ap (last_of h.last_err) still ∙ last),
      )

  -- While `shutdown` waits, `stop` is closed.
  abbrev IsTold : HealthChecker E → Type 0
  IsTold h = h.owner ≡ waiting → h.stopping ≡ true

  stop_is_closed :
      {g h : HealthChecker E} {ps : List (Option E × ℕ)} → Step g ps h → IsTold g → IsTold h
  unfolding ping
  stop_is_closed (start h p) w e = absurd (in_use≢waiting (sym p ∙ e))
  stop_is_closed (tick h n err now p) w e = w e
  stop_is_closed (leave h n p q) w e = w e
  stop_is_closed (close_stop h p) w e = refl
  stop_is_closed (wait_returns h p q) w e = absurd (waiting≢shut (sym e))

  stop_stays_closed :
      {g h : HealthChecker E} {ps : List (Option E × ℕ)} → Run g ps h → IsTold g → IsTold h
  stop_stays_closed (stay h) w = w
  stop_stays_closed (next g h k ps qs s r) w = stop_stays_closed r (stop_is_closed s w)

  -- A run without pings, behind which `shutdown` has returned.
  abbrev pub CanReturn : HealthChecker E → Type 0
  CanReturn h = (k : HealthChecker E) × Run h [] k × (k.owner ≡ shut)

  all_leave :
      (n : ℕ) (h : HealthChecker E)
      → h.working ≡ n
      → h.owner ≡ waiting
      → h.stopping ≡ true
      → CanReturn h
  all_leave zero h z w t =
      let k : HealthChecker E = record h { owner = shut } in
      (k, next h k k [] [] (wait_returns h w z) (stay k), refl)
  all_leave (suc n) h z w t =
      let g : HealthChecker E = record h { working = n } in
      let (k, r, e) = all_leave n g refl w t in (k, next h g k [] [] (leave h n z t) r, e)

  -- A `shutdown` that waits cannot be stuck: from wherever it has come to, with however many
  -- goroutines in their loops, it returns after steps without a ping, by which they leave.
  pub shutdown-CanReturn :
      {h : HealthChecker E} {ps : List (Option E × ℕ)}
      → Run new_health_checker ps h
      → h.owner ≡ waiting
      → CanReturn h
  unfolding new_health_checker
  shutdown-CanReturn {h = h} r w =
      all_leave h.working h refl w (stop_stays_closed r (λ p. absurd (in_use≢waiting p)) w)
