-- ===== src/Db/Health/Tests.antt =====
-- A test of the health checker: it starts, pings twice, is shut down while it pings once more.
use relica.Prelude.{ℕ, ◌≡◌, refl, Bool, true, false, [], ◌∷◌, List, Option, none, some}
use relica.Db.Health.{
  HealthChecker, Owner, in_use, waiting, shut, new_health_checker, ping, start, tick, close_stop,
  leave, wait_returns, Run, stay, next,
}
use relica.Db.Health.Shutdown.{Tells, CanReturn, shutdown_is_final, shutdown-CanReturn}

abbrev state : Owner → ℕ → Bool → Option ℕ → Option ℕ → HealthChecker ℕ
state o n b err last = record {
  owner = o;
  working = n;
  stopping = b;
  last_err = err;
  last_ping = last;
}

abbrev last_state : HealthChecker ℕ
last_state = state shut 0 true (some 7) (some 9)

pings : Run new_health_checker ((none, 4) ∷ (some 7, 9) ∷ []) last_state
unfolding new_health_checker ping
pings = next _ _ _ _ _ (start new_health_checker refl) (
    next _ _ _ _ _ (tick (state in_use 1 false none none) 0 none 4 refl) (
      next _ _ _ _ _ (close_stop (state in_use 1 false none (some 4)) refl) (
        next _ _ _ _ _ (tick (state waiting 1 true none (some 4)) 0 (some 7) 9 refl) (
          next _ _ _ _ _ (leave (state waiting 1 true (some 7) (some 9)) 0 refl refl) (
            next _ _ _ _ _ (wait_returns (state waiting 0 true (some 7) (some 9)) refl refl)
              (stay last_state))))))

abbrev no_pings : List (Option ℕ × ℕ)
no_pings = []

shutdown_is_final_example :
    (last_state.working ≡ 0)
    × (no_pings ≡ [])
    × Tells ((none, 4) ∷ (some 7, 9) ∷ []) last_state
    × Tells ((none, 4) ∷ (some 7, 9) ∷ []) last_state
shutdown_is_final_example = shutdown_is_final pings refl (stay last_state)

abbrev waiting_state : HealthChecker ℕ
waiting_state = state waiting 1 true none (some 4)

told_to_stop : Run new_health_checker ((none, 4) ∷ []) waiting_state
unfolding new_health_checker ping
told_to_stop = next _ _ _ _ _ (start new_health_checker refl) (
    next _ _ _ _ _ (tick (state in_use 1 false none none) 0 none 4 refl)
      (next _ _ _ _ _ (close_stop (state in_use 1 false none (some 4)) refl) (stay waiting_state)))

shutdown-CanReturn_example : CanReturn waiting_state
shutdown-CanReturn_example = shutdown-CanReturn told_to_stop refl
