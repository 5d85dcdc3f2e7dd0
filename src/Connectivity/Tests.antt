-- ===== src/Connectivity/Tests.antt =====
-- Runs of the classifier at fixed inputs (internal/modem/connectivity/classifier.go).
use modem_service.Prelude.{
  ℕ, ◌+◌, ◌*◌, ◌≤◌, ◌≡◌, refl, inl, inr, List, [], ◌∷◌, ◌++◌, true, false, arith,
}
use modem_service.Connectivity.{
  connected, disconnected, disabled, Inputs, Classifier, second, raw_state, commit_delay, classify,
  new, run, force, is_connected,
}
use modem_service.Connectivity.Trace.{run_flicker, run_sustained}
use modem_service.Connectivity.Streak.{
  Call, observes, forces, called, called_all, Streak, change_needs-Streak,
}

abbrev online : Inputs
online = record {
  modem_status = "connected";
  sim_state = "present";
  registration = "home";
  enabled = true;
  hard_failed = false;
}

abbrev lost : Inputs
lost = record online { modem_status = "disconnected" }

abbrev off : Inputs
off = record lost { enabled = false }

abbrev settled : Classifier
settled = record { committed = connected; pending = connected; pending_since = 0 }

abbrev losing : Classifier
losing = record { committed = connected; pending = disconnected; pending_since = 10 * second }

run_flicker_example :
    (run settled (
      (lost, 10 * second)
      ∷ (lost, 150 * second)
      ∷ (online, 170 * second)
      ∷ (lost, 340 * second)
      ∷ [])).committed
    ≡ connected
unfolding raw_state
run_flicker_example =
    run_flicker settled 0
      ((lost, 10 * second)
        ∷ (lost, 150 * second)
        ∷ (online, 170 * second)
        ∷ (lost, 340 * second)
        ∷ [])
      refl (inl refl)
      (inr (
        refl,
        omega arith,
        omega arith,
        inr (refl, omega arith, omega arith, inl (refl, inr (refl, omega arith, omega arith, tt))),
      ))

run_sustained_example :
    (run settled ((lost, 10 * second) ∷ [] ++ (lost, 190 * second) ∷ [])).committed ≡ disconnected
unfolding raw_state commit_delay
run_sustained_example =
    run_sustained settled disconnected lost (10 * second) [] lost (190 * second) (λ e. cc)
      (omega arith) (refl, (refl, tt)) (omega arith)

abbrev calls : List Call
calls =
    forces disabled 0
    ∷ observes online (5 * second)
    ∷ observes online (70 * second)
    ∷ observes lost (80 * second)
    ∷ []

change_needs-Streak_example :
    let c = called_all new calls in
    ((classify c lost (300 * second)).committed ≡ raw_state lost)
    × (from : ℕ) × Streak (raw_state lost) from (calls ++ observes lost (300 * second) ∷ [])
    × (from + commit_delay c.committed (raw_state lost) ≤ 300 * second)
unfolding classify called_all called force new
change_needs-Streak_example = change_needs-Streak calls lost (300 * second) (λ e. cc) (λ e. cc)

-- A forced state is reported at once, and a loss later than the window is committed.
force_then_resume : is_connected (force settled disabled 5) ≡ false
unfolding force is_connected
force_then_resume = refl
