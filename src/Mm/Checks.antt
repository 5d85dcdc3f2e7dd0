-- ===== src/Mm/Checks.antt =====
-- What the numbers of ModemManager lead to (internal/mm/types.go, internal/modem/modem.go): the checks
-- of a link snapshot and the PIN manager read them through their names.
use modem_service.Prelude.{
  ℕ, String, Bool, true, false, not, ◌&&◌, ◌||◌, ◌==◌, ◌≡◌, ◌≢◌, ◌↔◌, ◌⊎◌, inl, inr, refl, sym, ◌∙◌,
  ap, arith, str_eq, if◌then◌else◌, Option, some, none, Bool-cases, ==_iff, if-elim,
}
use modem_service.Link.{Snapshot, hardware, modem_reset, check_local, filled, registration}
use modem_service.Link.Local.{broken, verdict, check_local_lowest}
use modem_service.Mm.{
  ℤ, pos, negsuc, power_state_to_string, registration_state_to_string, lock_reason_to_string,
  observe_lock, eqℤ,
}

true-ne-false : true ≢ false
true-ne-false = λ e. ground arith

not_on : (p : ℤ) → p ≢ pos 3 → eqℤ p (pos 3) ≡ false
not_on (pos x) n = elim (Bool-cases (x == 3)) [
  | inl e ↦ absurd (n (ap pos ((==_iff x 3).0 e)))
  | inr e ↦ e
]
not_on (negsuc x) n = refl

bad_name :
    (p : ℤ)
    → eqℤ p (pos 3) ≡ false
    → (filled (power_state_to_string p) && not (str_eq (power_state_to_string p) "on")) ≡ true
unfolding power_state_to_string
bad_name (pos x) n =
    let P : String → Type 0 = λ t. (filled t && not (str_eq t "on")) ≡ true in
    if-elim P (x == 1) _ _ (λ e. refl)
      (λ e.
        if-elim P (x == 2) _ _ (λ f. refl)
          (λ f. if-elim P (x == 3) _ _ (λ g. absurd (true-ne-false (sym g ∙ n))) (λ g. refl)))
bad_name (negsuc x) n = refl

power_bad :
    (s : Snapshot) (p : ℤ)
    → p ≢ pos 3
    → s.power ≡ power_state_to_string p
    → (filled s.power && not (str_eq s.power "on")) ≡ true
power_bad s p n e = rw e (bad_name p (not_on p n))

-- A modem whose power state is read as anything but on, the state unknown included, fails at the
-- hardware layer and is to be reset.
pub power_reset :
    (s : Snapshot) (p : ℤ)
    → p ≢ pos 3
    → s.power ≡ power_state_to_string p
    → verdict (check_local s) ≡ some (hardware, modem_reset)
power_reset s p n e = ground (arith, check_local_lowest s, power_bad s p n e)

passes : String → Bool
passes t = not (filled t && not (str_eq t "home") && not (str_eq t "roaming"))

registration_named : (n : ℕ) → passes (registration_state_to_string n) ≡ ((n == 1) || (n == 5))
unfolding registration_state_to_string passes
registration_named n =
    let P : String → Type 0 = λ t. passes t ≡ ((n == 1) || (n == 5)) in
    if-elim P (n == 0) _ _ (λ a. ground arith)
      (λ a.
        if-elim P (n == 1) _ _ (λ b. ground arith)
          (λ b.
            if-elim P (n == 2) _ _ (λ c. ground arith)
              (λ c.
                if-elim P (n == 3) _ _ (λ d. ground arith)
                  (λ d.
                    if-elim P (n == 4) _ _ (λ e. ground arith)
                      (λ e. if-elim P (n == 5) _ _ (λ f. ground arith) (λ f. ground arith))))))

-- A registration that is read passes the check of its layer exactly if it is home or roaming.
pub registration_passes_iff :
    (s : Snapshot) (n : ℕ)
    → s.registered ≡ registration_state_to_string n
    → (broken registration s ≡ false) ↔ ((n ≡ 1) ⊎ (n ≡ 5))
unfolding passes
registration_passes_iff s n e = let k = registration_named n in rw e (ground arith)

open_named :
    (n : ℕ)
    → (str_eq (lock_reason_to_string n) "unknown" ≡ false)
        × (str_eq (lock_reason_to_string n) "" ≡ false)
        × (str_eq (lock_reason_to_string n) "none" ≡ (n == 1))
      ⊎ ((str_eq (lock_reason_to_string n) "unknown" ≡ true) × ((n == 1) ≡ false))
unfolding lock_reason_to_string
open_named n =
    let P : String → Type 0 = λ t.
      (str_eq t "unknown" ≡ false) × (str_eq t "" ≡ false) × (str_eq t "none" ≡ (n == 1))
      ⊎ ((str_eq t "unknown" ≡ true) × ((n == 1) ≡ false)) in
    let go : (b : Bool) (x y : String)
        → (b ≡ true → P x)
        → (b ≡ false → P y)
        → P (if b then x else y) =
      if-elim P in
    go (n == 1) _ _ (λ a. ground arith)
      (λ a.
        go (n == 2) _ _ (λ e. ground arith)
          (λ e.
            go (n == 3) _ _ (λ e. ground arith)
              (λ e.
                go (n == 4) _ _ (λ e. ground arith)
                  (λ e.
                    go (n == 5) _ _ (λ e. ground arith)
                      (λ e.
                        go (n == 6) _ _ (λ e. ground arith)
                          (λ e.
                            go (n == 7) _ _ (λ e. ground arith)
                              (λ e.
                                go (n == 9) _ _ (λ e. ground arith)
                                  (λ e.
                                    go (n == 11) _ _ (λ e. ground arith)
                                      (λ e.
                                        go (n == 13) _ _ (λ e. ground arith)
                                          (λ e. ground arith))))))))))

-- The SIM is seen as open, and known to be, exactly if ModemManager says that it is not locked.
pub observe_lock_open_iff :
    (o : Option ℕ)
    → ((str_eq (observe_lock o).0 "" ≡ true) × ((observe_lock o).1 ≡ true)) ↔ (o ≡ some 1)
unfolding observe_lock
observe_lock_open_iff none = (λ h. ground arith, λ h. ground arith)
observe_lock_open_iff (some n) = elim (Bool-cases (str_eq (lock_reason_to_string n) "unknown")) [
  | inl u ↦ rw u (ground (arith, open_named n))
  | inr u ↦ elim (Bool-cases (str_eq (lock_reason_to_string n) "none")) [
    | inl k ↦ rw (u, k) (ground (arith, open_named n))
    | inr k ↦ rw (u, k) (ground (arith, open_named n))
  ]
]
