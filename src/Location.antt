-- ===== src/Location.antt =====
-- internal/location/location.go: the timestamps of GPS reports, and the delays between attempts. Times are nanoseconds since the zero time of Go, which is 0. The
-- loop over the weeks runs on one unit of fuel for each rollover before the first valid date, and one
-- more.
pub mod Rollover
mod Tests
use modem_service.Prelude.{
  ℕ, zero, suc, ◌+◌, ◌*◌, ◌/◌, Bool, true, false, not, ◌||◌, ◌==◌, ltb, leb, if◌then◌else◌, List,
  [], ◌∷◌, Option, none, some,
}

abbrev pub second : ℕ
second = 1000000000

-- 2019-04-07, and 1024 weeks.
abbrev pub min_valid_gps_date : ℕ
min_valid_gps_date = 63690192000 * second

abbrev pub gps_week_rollover : ℕ
gps_week_rollover = 1024 * 7 * 24 * 3600 * second

abbrev pub rollover_fuel : ℕ
rollover_fuel = min_valid_gps_date / gps_week_rollover + 1

unfoldable pub advance : ℕ → ℕ → ℕ
advance zero t = t
advance (suc fuel) t =
    let next = advance fuel (t + gps_week_rollover) in if ltb t min_valid_gps_date then next else t

-- The timestamp, and whether it was corrected.
unfoldable pub correct_gps_week_rollover : ℕ → ℕ × Bool
correct_gps_week_rollover t =
    if t == 0
    then (t, false)
    else let corrected = advance rollover_fuel t in (corrected, not (corrected == t))

-- The timestamp, whether it is the receiver's, and whether it was corrected.
unfoldable pub gps_timestamp : ℕ → ℕ → ℕ × Bool × Bool
gps_timestamp report_time fallback =
    if report_time == 0
    then (fallback, false, false)
    else let r = correct_gps_week_rollover report_time in (r.0, true, r.1)

abbrev pub gps_retry_interval : ℕ
gps_retry_interval = 5 * second

abbrev pub max_gps_retry_interval : ℕ
max_gps_retry_interval = 60 * second

unfoldable pub double_delay : ℕ → ℕ → ℕ
double_delay zero delay = delay
double_delay (suc n) delay =
    let rest = double_delay n (delay * 2) in
    if leb max_gps_retry_interval (delay * 2) then max_gps_retry_interval else rest

unfoldable pub config_retry_delay : ℕ → ℕ
config_retry_delay attempt = double_delay attempt gps_retry_interval
