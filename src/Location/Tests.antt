-- ===== src/Location/Tests.antt =====
-- The theorem on timestamps at a concrete input (internal/location/location.go).
use modem_service.Prelude.{ℕ, ◌*◌, ◌≡◌, refl, arith}
use modem_service.Location.{second, correct_gps_week_rollover, config_retry_delay, double_delay}
use modem_service.Location.Rollover.{IsCorrected, correct_gps_week_rollover-IsCorrected}

-- April 2006.
abbrev old : ℕ
old = 63280000000 * second

correct_gps_week_rollover-IsCorrected_example : IsCorrected old (correct_gps_week_rollover old).0
correct_gps_week_rollover-IsCorrected_example =
    correct_gps_week_rollover-IsCorrected old (omega arith)

fourth_delay : config_retry_delay 3 ≡ 40 * second
unfolding config_retry_delay double_delay
fourth_delay = refl
