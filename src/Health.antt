-- ===== src/Health.antt =====
-- internal/health/health.go: the health record of the modem.
use modem_service.Prelude.{ℕ, ◌+◌, Bool, true, false, ltb, leb, if◌then◌else◌}

pub data State : Type 0 where
  normal recovering failed_wait permanent_failure : State

pub record Health : Type 0 where
  pub attempts : ℕ
  pub last_recovery : ℕ
  pub state : State

abbrev pub max_recovery_attempts : ℕ
max_recovery_attempts = 5

unfoldable pub new : Health
new = record { attempts = 0; last_recovery = 0; state = normal }

abbrev pub is_recovering_state : State → Bool
is_recovering_state recovering = true
is_recovering_state _ = false

unfoldable pub start_recovery : ℕ → Health → Health
start_recovery now h = record { state = recovering; attempts = h.attempts + 1; last_recovery = now }

unfoldable pub mark_normal : Health → Health
mark_normal h = record h { state = normal; attempts = 0 }

-- The new record, and whether an attempt was under way.
unfoldable pub finish_recovery_attempt : Health → Health × Bool
finish_recovery_attempt h =
    if is_recovering_state h.state then (record h { state = normal }, true) else (h, false)

unfoldable pub mark_recovery_failed : Health → Health
mark_recovery_failed h =
    if leb max_recovery_attempts h.attempts
    then record h { state = failed_wait }
    else record h { state = permanent_failure }

abbrev pub is_terminal_state : State → Bool
is_terminal_state failed_wait = true
is_terminal_state permanent_failure = true
is_terminal_state _ = false

unfoldable pub is_recovering : Health → Bool
is_recovering h = is_recovering_state h.state

unfoldable pub is_terminal : Health → Bool
is_terminal h = is_terminal_state h.state

unfoldable pub can_recover : Health → Bool
can_recover h = ltb h.attempts max_recovery_attempts
