-- ===== src/Policy/Interval.antt =====
-- The back-off of the remote probe (internal/service/service.go).
use native.Mathlib.Nat.{pow-suc}
use modem_service.Prelude.{ℕ, zero, suc, ◌+◌, ◌*◌, ◌^◌, ◌≤◌, ◌<◌, ◌≡◌, ◌∙◌, ap, true, arith, min}
use modem_service.Policy.{next_probe_interval, Schedule, probe_tick}

-- `n` probes in a row.
pub backed_off : ℕ → ℕ → ℕ → ℕ → ℕ
backed_off zero base max_interval cur = cur
backed_off (suc n) base max_interval cur =
    next_probe_interval (backed_off n base max_interval cur) base max_interval

next_min :
    (base m max_interval : ℕ)
    → base ≤ m
    → base ≤ max_interval
    → next_probe_interval (min m max_interval) base max_interval ≡ min (m * 2) max_interval
unfolding next_probe_interval
next_min base m max_interval h k = ground arith

mul_pow_suc : (b n : ℕ) → b * 2 ^ n * 2 ≡ b * 2 ^ suc n
mul_pow_suc b n = rw (pow-suc 2 n) (omega arith)

base-le-mul_pow : (b n : ℕ) → b ≤ b * 2 ^ n
base-le-mul_pow b zero = grind arith
base-le-mul_pow b (suc n) = omega (arith, base-le-mul_pow b n, mul_pow_suc b n)

-- After `n` probes from the base interval, the interval is the base times 2 ^ n, cut off at the
-- upper bound.
pub backed_off_lem :
    (n base max_interval : ℕ)
    → base ≤ max_interval
    → backed_off n base max_interval base ≡ min (base * 2 ^ n) max_interval
unfolding backed_off next_probe_interval
backed_off_lem zero base max_interval h = omega arith
backed_off_lem (suc n) base max_interval h = rw (backed_off_lem n base max_interval h) (
    next_min base (base * 2 ^ n) max_interval (base-le-mul_pow base n) h
    ∙ ap (λ k. min k max_interval) (mul_pow_suc base n))

-- A healthy assessment that differs from the last one is probed at once and sets the interval back
-- to the base. But where the old interval was above the base, the next probe is due later than one
-- base interval from now, so the change shortens only the wait after that.
pub changed_probe_late :
    (base max_interval now : ℕ) (s : Schedule)
    → base < s.interval
    → base < max_interval
    → let t = probe_tick base max_interval true true now s in
      (t.1 ≡ true) × (t.0.interval ≡ base) × (now + base < t.0.next_at)
unfolding probe_tick
changed_probe_late base max_interval now s h k = ground arith
