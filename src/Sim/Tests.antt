-- ===== src/Sim/Tests.antt =====
-- The PIN manager at fixed inputs (internal/sim/manager.go).
use modem_service.Prelude.{ℕ, ◌≤◌, ◌≡◌, refl, ◌⊎◌, List, [], ◌∷◌, true, false, arith, str_eq, min}
use modem_service.Sim.{
  Input, send_pin, enable_pin, wrong, new, reconcile, act_unlock, log_observation,
  min_retries_before_attempt,
}
use modem_service.Sim.Safety.{Step, cycle, restart, tries_after, reconcile-calls, tries_kept}

abbrev locked : ℕ → Input
locked n = record {
  sim_path = "/sim/0";
  lock_status = "sim-pin";
  lock_status_known = true;
  pin_lock_enabled = true;
  pin_lock_known = true;
  unlock_retries = n;
  configured_pin = "1234";
}

reconcile-calls_example :
    ((reconcile (locked 3) wrong new).calls ≡ [])
    ⊎ ((((reconcile (locked 3) wrong new).calls ≡ send_pin "/sim/0" "1234" ∷ [])
            × (str_eq "sim-pin" "sim-pin" ≡ true)
          ⊎ ((reconcile (locked 3) wrong new).calls ≡ enable_pin "/sim/0" "1234" ∷ [])
            × ((str_eq "sim-pin" "" ≡ true) × (true ≡ true) × (true ≡ true) × (true ≡ false)))
        × (str_eq "1234" "" ≡ false)
        × ((str_eq "/sim/0" "" ≡ false)
            × (new.tried_this_run ≡ false)
            × (min_retries_before_attempt ≤ 3)))
reconcile-calls_example = reconcile-calls (locked 3) wrong new

-- A wrong PIN, another cycle, and a restart after which two tries are left.
abbrev life : List Step
life = cycle (locked 3) wrong 2 ∷ cycle (locked 2) wrong 2 ∷ restart ∷ cycle (locked 2) wrong 2 ∷ []

tries_kept_example : min 3 2 ≤ tries_after 3 life
unfolding reconcile act_unlock log_observation new
tries_kept_example =
    tries_kept new 3 life (refl, refl, (refl, omega arith, (refl, omega arith, tt)))
