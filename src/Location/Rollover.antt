-- ===== src/Location/Rollover.antt =====
-- Timestamps of a receiver that counts its weeks in an old epoch (internal/location/location.go).
use modem_service.Prelude.{
  ℕ, zero, suc, ◌+◌, ◌*◌, ◌≤◌, ◌<◌, false, ◌==◌, ◌≡◌, ◌⊎◌, inl, inr, refl, arith, ltb, leb,
  Bool-cases, ltb→lt,
}
use modem_service.Location.{
  min_valid_gps_date, gps_week_rollover, rollover_fuel, advance, correct_gps_week_rollover,
  double_delay, config_retry_delay, gps_retry_interval, max_gps_retry_interval,
}

below : (d : ℕ) → leb max_gps_retry_interval d ≡ false → d ≤ max_gps_retry_interval
below d e = ground arith

at_least : (t m : ℕ) → ltb t m ≡ false → m ≤ t
at_least t m e = ground arith

-- The corrected time is valid, and is the given one or lies in the first epoch, whole epochs later.
abbrev pub IsCorrected : ℕ → ℕ → Type 0
IsCorrected t c =
    (min_valid_gps_date ≤ c)
    × ((k : ℕ) × (c ≡ t + k * gps_week_rollover))
    × ((c ≡ t) ⊎ (c < min_valid_gps_date + gps_week_rollover))

advance-IsCorrected :
    (fuel t : ℕ)
    → min_valid_gps_date ≤ t + fuel * gps_week_rollover
    → IsCorrected t (advance fuel t)
unfolding advance
advance-IsCorrected zero t h = (omega (arith, h), (0, omega arith), inl refl)
advance-IsCorrected (suc fuel) t h = elim (Bool-cases (ltb t min_valid_gps_date)) [
  | inr e ↦ rw e (at_least t _ e, (0, omega arith), inl refl)
  | inl e ↦
      let l = ltb→lt t min_valid_gps_date e in
      let (a, (k, b), c) = advance-IsCorrected fuel (t + gps_week_rollover) (omega (arith, h)) in
      let d : advance fuel (t + gps_week_rollover) < min_valid_gps_date + gps_week_rollover =
        elim c [ inl x ↦ omega (arith, x, l) | inr x ↦ x ] in
      rw e (a, (suc k, omega (arith, b)), inr d)
]

advance_ends : (t : ℕ) → IsCorrected t (advance rollover_fuel t)
advance_ends t = advance-IsCorrected rollover_fuel t (omega arith)

positive : (t : ℕ) → 0 < t → (t == 0) ≡ false
positive t h = ground arith

-- For every time but the zero time the loop over the rollovers ends, with a valid time that is a whole
-- number of rollovers of 1024 weeks after the given one: the given one itself, or one within a
-- rollover of the first valid date.
pub correct_gps_week_rollover-IsCorrected :
    (t : ℕ) → 0 < t → IsCorrected t (correct_gps_week_rollover t).0
unfolding correct_gps_week_rollover
correct_gps_week_rollover-IsCorrected t h = rw (positive t h) (advance_ends t)

bounded : (n d : ℕ) → d ≤ max_gps_retry_interval → double_delay n d ≤ max_gps_retry_interval
unfolding double_delay
bounded zero d h = h
bounded (suc n) d h = elim (Bool-cases (leb max_gps_retry_interval (d * 2))) [
  | inl e ↦ rw e (omega arith)
  | inr e ↦ rw e (bounded n (d * 2) (below (d * 2) e))
]

-- No delay between attempts is longer than a minute.
pub config_retry_delay-le : (n : ℕ) → config_retry_delay n ≤ max_gps_retry_interval
unfolding config_retry_delay
config_retry_delay-le n = bounded n gps_retry_interval (omega arith)
