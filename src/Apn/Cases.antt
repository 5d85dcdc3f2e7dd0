-- ===== src/Apn/Cases.antt =====
-- How a call of `Reconcile` runs (internal/apn/manager.go).
use modem_service.Prelude.{
  String, Bool, true, false, ◌||◌, ◌≡◌, refl, inl, inr, if-elim, Bool-cases, str_eq, [],
}
use modem_service.Apn.{Input, Manager, equal, no_config, valid_config}
use modem_service.Apn.Calls.{World}
use modem_service.Apn.Reconcile.{
  Outcome, no_sim, unconfigured, fine, applied, iccid_changed_cleared, error, Reconciled, reconcile,
  choose, observe, note_input, is_new, sim_swapped,
}

pub note_input_pending : (req : Input) (m : Manager) → (note_input req m).pending ≡ m.pending
unfolding note_input
note_input_pending req m = elim (Bool-cases (is_new req m.retry_input)) [
  | inl e ↦ rw e refl
  | inr e ↦ rw e refl
]

pub note_input_swapped :
    (req : Input) (m : Manager) → sim_swapped req (note_input req m) ≡ sim_swapped req m
unfolding note_input sim_swapped
note_input_swapped req m = elim (Bool-cases (is_new req m.retry_input)) [
  | inl e ↦ rw e refl
  | inr e ↦ rw e refl
]

-- The outcomes of a call that asks for nothing.
abbrev pub IsQuiet : Outcome → Type 0
IsQuiet no_sim = Unit
IsQuiet unconfigured = Unit
IsQuiet fine = ⊥
IsQuiet applied = ⊥
IsQuiet iccid_changed_cleared = ⊥
IsQuiet error = Unit

module _ (w : World) (P : Reconciled → Type 0) (req : Input) where
  pub choose_cases :
      (m : Manager)
      → ((o : Outcome) → IsQuiet o → P (record { manager = m; outcome = o; trace = [] }))
      → (sim_swapped req m ≡ true → P (observe w true req no_config m))
      → (sim_swapped req m ≡ false
          → (b : String) → P (observe w false req req.desired (record m { blocked_iccid = b })))
      → P (choose w req m)
  unfolding choose
  choose_cases m q s k = if-elim P (sim_swapped req m) _ _ s (λ e.
      if-elim P (str_eq m.blocked_iccid req.iccid) _ _
        (λ f. if-elim P (equal m.blocked_config req.desired) _ _ (λ g. q _ tt) (λ g. k e ""))
        (λ f. k e m.blocked_iccid))

  pub reconcile_cases :
      (busy : Bool) (m : Manager)
      → ((o : Outcome) → IsQuiet o → P (record { manager = m; outcome = o; trace = [] }))
      → (valid_config req.desired ≡ true → P (choose w req (note_input req m)))
      → P (reconcile w busy req m)
  unfolding reconcile
  reconcile_cases busy m q k =
      if-elim P (str_eq req.iccid "") _ _ (λ e. q _ tt)
        (λ e.
          if-elim P busy _ _ (λ e. q _ tt)
            (λ e.
              if-elim P (w.cancelled [] || str_eq req.modem_path "") _ _ (λ e. q _ tt)
                (λ e. elim (Bool-cases (valid_config req.desired)) [
                  | inl v ↦ rw v (k v)
                  | inr v ↦ rw v (q _ tt)
                ])))
