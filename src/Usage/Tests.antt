-- ===== src/Usage/Tests.antt =====
-- The counter at fixed readings (internal/datausage/counter.go).
use modem_service.Prelude.{
  ℕ, ◌+◌, ◌≡◌, refl, List, [], ◌∷◌, true, false, none, some, arith, eq_iff, String,
}
use modem_service.Usage.{
  Sample, Counter, load, observe, observe_all, u64, flush, rebase, add_totals, delta_rx, delta_tx,
}
use modem_service.Usage.Sums.{readings, rx_of, readings_rx}
use modem_service.Usage.Persist.{Event, reads, flushes, run, step, restart_resumes}

abbrev reading : String → ℕ → ℕ → Sample
reading p rx tx = record { bearer_path = p; rx = rx; tx = tx; roaming = true }

abbrev blank : Counter
blank = record {
  path = "usage.json";
  totals = record { rx_bytes = 0; tx_bytes = 0; rx_roaming = 0; tx_roaming = 0; since = "2026" };
  have_last = false;
  last_path = "";
  last_rx = 0;
  last_tx = 0;
  dirty = false;
  last_flush = 0;
}

abbrev running : Counter
running = record blank {
  totals = record {
    rx_bytes = 100;
    tx_bytes = 50;
    rx_roaming = 10;
    tx_roaming = 5;
    since = "2026";
  };
  have_last = true;
  last_path = "/bearer/1";
  last_rx = 100;
  last_tx = 50;
}

abbrev next_session : List Sample
next_session = reading "/bearer/2" 30 20 ∷ reading "/bearer/2" 45 20 ∷ []

abbrev sessions : List (Sample × List Sample)
sessions = (reading "/bearer/2" 10 5, next_session) ∷ (reading "/bearer/3" 7 3, []) ∷ []

readings_rx_example :
    (observe_all running (readings sessions)).totals.rx_bytes ≡ u64 (100 + rx_of sessions)
readings_rx_example =
    readings_rx running (some "/bearer/1") sessions (omega arith) (omega arith) refl (
      λ e. ground (arith, (eq_iff "/bearer/1" "/bearer/2").1),
      (refl, omega arith, omega arith, (refl, omega arith, omega arith, tt)),
      (λ e. ground (arith, (eq_iff "/bearer/2" "/bearer/3").1), tt, tt),
    )

-- A flush that fails between two readings.
abbrev events : List Event
events = reads (reading "/bearer/1" 10 5) ∷ flushes false 3 ∷ reads (reading "/bearer/1" 40 9) ∷ []

restart_resumes_example :
    let x = run events (load "usage.json" 0 "2026" none, none) in
    let r = flush true 9 x.0 x.1 in
    (observe_all (load x.0.path 20 "2027" r.file) (reading "/bearer/1" 60 10 ∷ [])).totals
    ≡ (observe_all x.0 (reading "/bearer/1" 60 10 ∷ [])).totals
unfolding run step load observe rebase add_totals delta_rx delta_tx flush
restart_resumes_example =
    restart_resumes "usage.json" "2026" "2027" 0 9 20 events (reading "/bearer/1" 60 10 ∷ []) refl
      refl refl refl
