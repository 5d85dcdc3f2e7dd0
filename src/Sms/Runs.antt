-- ===== src/Sms/Runs.antt =====
-- Runs of the message manager, and what every message keeps (internal/sms/manager.go).
use mathlib.Core.List.{append-nil, append_assoc}
use modem_service.Prelude.{
  String, Bool, Option, none, some, List, [], ◌∷◌, ◌++◌, ◌≡◌, refl, sym, subst, ◌||◌, str_eq,
  Bool-cases, ◌⊎◌, inl, inr, All,
}
use modem_service.Sms.{
  Manager, Event, Answers, Request, process_one, handle_added, process_all, drain_received, send,
}

pub data Operation : Type 0 where
  adds : (modem path : String) → Answers → Operation
  drains : (modem : String) → Option (List (String × Answers)) → Operation
  transmits : (modem : String) → Request → Option String → (sent deleted : Bool) → Operation

unfoldable pub step : Operation → Manager → Manager × List Event
step (adds modem path a) m = handle_added modem path a m
step (drains modem listed) m = (drain_received modem listed m).0
step (transmits modem r created sent deleted) m = (m, (send modem r created sent deleted).1)

-- The manager and the history after some operations, from those before them.
unfoldable pub run : List Operation → Manager × List Event → Manager × List Event
run [] x = x
run (o ∷ os) (m, h) = let (n, l) = step o m in run os (n, h ++ l)

-- A condition on every message that an operation handles.
unfoldable pub Every : (String → Answers → Type 0) → Operation → Type 0
Every C (adds modem path a) = C path a
Every C (drains modem none) = Unit
Every C (drains modem (some l)) = All (λ x. C x.0 x.1) l
Every C (transmits modem r created sent deleted) = Unit

process_all-cons :
    (modem path : String) (a : Answers) (l : List (String × Answers)) (m : Manager)
    → let one = process_one modem path a m in
      let rest = process_all modem l one.0 in
      process_all modem ((path, a) ∷ l) m ≡ (rest.0, one.1 ++ rest.1)
unfolding process_all
process_all-cons modem path a l m = refl

handle_added_cases :
    (modem path : String) (a : Answers) (m : Manager)
    → (handle_added modem path a m ≡ (m, []))
      ⊎ (handle_added modem path a m ≡ process_one modem path a m)
unfolding handle_added
handle_added_cases modem path a m = elim (Bool-cases (str_eq modem "" || str_eq path "")) [
  | inl e ↦ inl (rw e refl)
  | inr e ↦ inr (rw e refl)
]

drain_received_cases :
    (modem : String) (l : List (String × Answers)) (m : Manager)
    → ((drain_received modem (some l) m).0 ≡ (m, []))
      ⊎ ((drain_received modem (some l) m).0 ≡ process_all modem l m)
unfolding drain_received
drain_received_cases modem l m = elim (Bool-cases (str_eq modem "")) [
  | inl e ↦ inl (rw e refl)
  | inr e ↦ inr (rw e refl)
]

drain_received-none : (modem : String) (m : Manager) → (drain_received modem none m).0 ≡ (m, [])
unfolding drain_received
drain_received-none modem m = elim (Bool-cases (str_eq modem "")) [
  | inl e ↦ rw e refl
  | inr e ↦ rw e refl
]

module _ (C : String → Answers → Type 0) (P : Manager → List Event → Type 0)
    (one : (modem path : String) (a : Answers) (m : Manager) (h : List Event)
      → C path a
      → P m h
      → P (process_one modem path a m).0 (h ++ (process_one modem path a m).1))
    (sending : (modem : String) (r : Request) (created : Option String) (sent deleted : Bool)
        (m : Manager) (h : List Event)
      → P m h
      → P m (h ++ (send modem r created sent deleted).1)) where
  nothing : (m : Manager) (h : List Event) → P m h → P m (h ++ [])
  nothing m h p = subst (P m) (sym (append-nil h)) p

  abbrev Kept : List Event → Manager × List Event → Type 0
  Kept h r = P r.0 (h ++ r.1)

  process_all_keeps :
      (modem : String) (l : List (String × Answers)) (m : Manager) (h : List Event)
      → All (λ x. C x.0 x.1) l
      → P m h
      → P (process_all modem l m).0 (h ++ (process_all modem l m).1)
  unfolding process_all
  process_all_keeps modem [] m h c p = nothing m h p
  process_all_keeps modem ((path, a) ∷ l) m h (c, cs) p =
      subst (Kept h) (sym (process_all-cons modem path a l m)) (
        subst (P (process_all modem l (process_one modem path a m).0).0)
          (append_assoc h (process_one modem path a m).1 _)
          (process_all_keeps modem l _ _ cs (one modem path a m h c p)))

  step_keeps :
      (o : Operation) (m : Manager) (h : List Event)
      → Every C o
      → P m h
      → P (step o m).0 (h ++ (step o m).1)
  unfolding step Every
  step_keeps (adds modem path a) m h c p = elim (handle_added_cases modem path a m) [
    | inl e ↦ subst (Kept h) (sym e) (nothing m h p)
    | inr e ↦ subst (Kept h) (sym e) (one modem path a m h c p)
  ]
  step_keeps (drains modem none) m h c p =
      subst (Kept h) (sym (drain_received-none modem m)) (nothing m h p)
  step_keeps (drains modem (some l)) m h c p = elim (drain_received_cases modem l m) [
    | inl e ↦ subst (Kept h) (sym e) (nothing m h p)
    | inr e ↦ subst (Kept h) (sym e) (process_all_keeps modem l m h c p)
  ]
  step_keeps (transmits modem r created sent deleted) m h c p =
      sending modem r created sent deleted m h p

  pub run_keeps :
      (os : List Operation) (m : Manager) (h : List Event)
      → All (Every C) os
      → P m h
      → P (run os (m, h)).0 (run os (m, h)).1
  unfolding run
  run_keeps [] m h c p = p
  run_keeps (o ∷ os) m h (c, cs) p =
      run_keeps os (step o m).0 (h ++ (step o m).1) cs (step_keeps o m h c p)
