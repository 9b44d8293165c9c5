-- ===== src/Db/Health.antt =====
-- internal/core/health.go: the health checker, as the steps of its goroutine and of its owner.
mod Tests
pub mod Shutdown
use relica.Prelude.{ℕ, suc, ◌≡◌, Bool, true, false, List, [], ◌∷◌, ◌++◌, Option, none, some}

-- What the owner has done: the checker is in use, `shutdown` has closed `stop` and is in
-- `wg.Wait()`, or `shutdown` has returned.
pub data Owner : Type 0 where
  in_use : Owner
  waiting : Owner
  shut : Owner

-- `healthChecker`: `working` is the counter of `wg`, the number of goroutines in the loop of `run`,
-- and `stopping` tells whether the channel `stop` is closed. `E` are the errors of `PingContext`. A
-- time is a number, and the zero time is none.
pub record HealthChecker (E : Type 0) : Type 0 where
  pub owner : Owner
  pub working : ℕ
  pub stopping : Bool
  pub last_err : Option E
  pub last_ping : Option ℕ

-- What `ping` logs.
pub data HealthLog (E : Type 0) : Type 0 where
  check_failed : E → HealthLog E
  check_passed : HealthLog E

module _ {E : Type 0} where
  -- `newHealthChecker`.
  unfoldable pub new_health_checker : HealthChecker E
  new_health_checker = record {
    owner = in_use;
    working = 0;
    stopping = false;
    last_err = none;
    last_ping = none;
  }

  -- `ping`, with the answer of `PingContext` and the time after it.
  unfoldable pub ping : Option E → ℕ → HealthChecker E → HealthChecker E × HealthLog E
  ping err now h = (
    record h { last_err = err; last_ping = some now },
    elim err [ none ↦ check_passed | some e ↦ check_failed e ],
  )

  -- `isHealthy`.
  unfoldable pub is_healthy : HealthChecker E → Bool
  is_healthy h = elim h.last_err [ none ↦ true | some e ↦ false ]

  -- `lastError`.
  unfoldable pub last_error : HealthChecker E → Option E
  last_error h = h.last_err

  -- `lastCheck`.
  unfoldable pub last_check : HealthChecker E → Option ℕ
  last_check h = h.last_ping

  -- One step, with the answers of the pings in it. Where both channels of the `select` are ready it
  -- may take either, so that a checker that is stopping may ping once more. The owner starts a
  -- checker while it is in use, as db.go does; a second `shutdown`, which panics, is no step.
  pub data Step : HealthChecker E → List (Option E × ℕ) → HealthChecker E → Type 0 where
    start :
        (h : HealthChecker E) → h.owner ≡ in_use → Step h [] (record h { working = suc h.working })
    tick :
        (h : HealthChecker E) (n : ℕ) (err : Option E) (now : ℕ)
        → h.working ≡ suc n
        → Step h ((err, now) ∷ []) (ping err now h).0
    leave :
        (h : HealthChecker E) (n : ℕ)
        → h.working ≡ suc n
        → h.stopping ≡ true
        → Step h [] (record h { working = n })
    close_stop :
        (h : HealthChecker E)
        → h.owner ≡ in_use
        → Step h [] (record h { owner = waiting; stopping = true })
    wait_returns :
        (h : HealthChecker E)
        → h.owner ≡ waiting
        → h.working ≡ 0
        → Step h [] (record h { owner = shut })

  -- Steps one after the other, with all pings in their order.
  pub data Run : HealthChecker E → List (Option E × ℕ) → HealthChecker E → Type 0 where
    stay : (h : HealthChecker E) → Run h [] h
    next :
        (g h k : HealthChecker E) (ps qs : List (Option E × ℕ))
        → Step g ps h
        → Run h qs k
        → Run g (ps ++ qs) k

  -- The answer of the last ping, or what was known before.
  abbrev pub last_of : Option E → List (Option E × ℕ) → Option E
  last_of before [] = before
  last_of before ((err, now) ∷ ps) = last_of err ps
