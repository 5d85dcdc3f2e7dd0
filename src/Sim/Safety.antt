-- ===== src/Sim/Safety.antt =====
-- The manager never brings a SIM to its PUK lock (internal/sim/manager.go).
use modem_service.Prelude.{
  ℕ, suc, ◌≤◌, ◌≡◌, ap, sym, ◌∙◌, subst, ◌⊎◌, inl, inr, Bool, true, false, List, [], ◌∷◌, arith,
  str_eq, min, if◌then◌else◌,
}
use modem_service.Sim.{
  Input, Manager, Call, send_pin, enable_pin, Answer, wrong, new, act_unlock, act_enable_lock,
  log_observation, reconcile, min_retries_before_attempt,
}

log_observation-tried :
    (i : Input) (m : Manager) → (log_observation i m).0.tried_this_run ≡ m.tried_this_run
unfolding log_observation
log_observation-tried i m = ground arith

-- What a call of `Reconcile` needs, whichever call it is.
abbrev Guarded : Input → Manager → Type 0
Guarded i m =
    (str_eq i.sim_path "" ≡ false)
    × (m.tried_this_run ≡ false)
    × (min_retries_before_attempt ≤ i.unlock_retries)

act_unlock-calls :
    (i : Input) (a : Answer) (m : Manager)
    → ((act_unlock i a m).calls ≡ [])
      ⊎ (((act_unlock i a m).calls ≡ send_pin i.sim_path i.configured_pin ∷ []) × Guarded i m)
unfolding act_unlock
act_unlock-calls i a m = ground arith

act_enable_lock-calls :
    (i : Input) (a : Answer) (m : Manager)
    → ((act_enable_lock i a m).calls ≡ [])
      ⊎ (((act_enable_lock i a m).calls ≡ enable_pin i.sim_path i.configured_pin ∷ [])
          × Guarded i m)
unfolding act_enable_lock
act_enable_lock-calls i a m = ground arith

-- The SIM is locked by its PIN.
abbrev Locked : Input → Type 0
Locked i = str_eq i.lock_status "sim-pin" ≡ true

-- The SIM is known to be open, and known to have no PIN lock.
abbrev Open : Input → Type 0
Open i =
    (str_eq i.lock_status "" ≡ true)
    × (i.lock_status_known ≡ true)
    × (i.pin_lock_known ≡ true)
    × (i.pin_lock_enabled ≡ false)

-- `Reconcile` does nothing on D-Bus, or does what one of the two actions does.
reconcile-act :
    (i : Input) (a : Answer) (m : Manager)
    → let n = (log_observation i m).0 in
      (((reconcile i a m).calls ≡ []) × ((reconcile i a m).manager ≡ n))
      ⊎ ((str_eq i.configured_pin "" ≡ false) × Locked i × (reconcile i a m ≡ act_unlock i a n))
      ⊎ ((str_eq i.configured_pin "" ≡ false) × Open i × (reconcile i a m ≡ act_enable_lock i a n))
unfolding reconcile
reconcile-act i a m = ground arith

-- A call of `Reconcile` makes no D-Bus call, or exactly one: the configured PIN, sent to the SIM if
-- that is locked by its PIN and to the PIN lock if the SIM is known to be open without one. Then the
-- PIN and the path are not empty, no PIN has been rejected in this process, and at least three
-- tries were left.
pub reconcile-calls :
    (i : Input) (a : Answer) (m : Manager)
    → ((reconcile i a m).calls ≡ [])
      ⊎ ((((reconcile i a m).calls ≡ send_pin i.sim_path i.configured_pin ∷ []) × Locked i
            ⊎ ((reconcile i a m).calls ≡ enable_pin i.sim_path i.configured_pin ∷ []) × Open i)
          × (str_eq i.configured_pin "" ≡ false)
          × Guarded i m)
reconcile-calls i a m =
    let n = (log_observation i m).0 in
    let tried = log_observation-tried i m in
    elim (reconcile-act i a m) [
      | inl (none, _) ↦ inl none
      | inr (inl (pin, locked, e)) ↦ elim (act_unlock-calls i a n) [
        | inl none ↦ inl (ap (λ d. d.calls) e ∙ none)
        | inr (sends, g) ↦
            inr (inl (ap (λ d. d.calls) e ∙ sends, locked), pin, (g.0, sym tried ∙ g.1, g.2))
      ]
      | inr (inr (pin, free, e)) ↦ elim (act_enable_lock-calls i a n) [
        | inl none ↦ inl (ap (λ d. d.calls) e ∙ none)
        | inr (sends, g) ↦
            inr (inr (ap (λ d. d.calls) e ∙ sends, free), pin, (g.0, sym tried ∙ g.1, g.2))
      ]
    ]

-- A step of the program's life: a cycle, with the number of tries that the SIM counts after it, or
-- a restart.
pub data Step : Type 0 where
  cycle : Input → Answer → ℕ → Step
  restart : Step

abbrev pub after : Step → Manager → Manager
after (cycle i a r) m = (reconcile i a m).manager
after restart m = new

abbrev pub is_wrong : Answer → Bool
is_wrong wrong = true
is_wrong _ = false

-- How the SIM counts: a call that it answers with a wrong PIN costs one try, anything else none.
abbrev pub Counts : List Call → Answer → (before now : ℕ) → Type 0
Counts [] a before now = before ≤ now
Counts (c ∷ cs) a before now = if is_wrong a then suc now ≡ before else before ≤ now

-- Every cycle reads the number of tries that the SIM has, and the SIM counts on from there.
abbrev pub Tracks : Manager → ℕ → List Step → Type 0
Tracks m r [] = Unit
Tracks m r (cycle i a s ∷ l) =
    (i.unlock_retries ≡ r)
    × Counts (reconcile i a m).calls a r s
    × Tracks (reconcile i a m).manager s l
Tracks m r (restart ∷ l) = Tracks new r l

pub tries_after : ℕ → List Step → ℕ
tries_after r [] = r
tries_after r (cycle i a s ∷ l) = tries_after s l
tries_after r (restart ∷ l) = tries_after r l

Counts-le : (l : List Call) (a : Answer) (r s : ℕ) → Counts l a r s → r ≤ suc s
Counts-le [] a r s h = omega arith
Counts-le (c ∷ cs) a r s h = ground arith

Counts-none : (l : List Call) (a : Answer) (r s : ℕ) → l ≡ [] → Counts l a r s → r ≤ s
Counts-none l a r s e h = subst (λ l. Counts l a r s) e h

cycle_tries :
    (i : Input) (a : Answer) (m : Manager) (r s : ℕ)
    → i.unlock_retries ≡ r
    → Counts (reconcile i a m).calls a r s
    → min r 2 ≤ s
cycle_tries i a m r s e h = elim (reconcile-calls i a m) [
  | inl none ↦ omega (arith, Counts-none (reconcile i a m).calls a r s none h)
  | inr (_, _, g) ↦ omega (arith, Counts-le (reconcile i a m).calls a r s h, g.2)
]

-- However often the program runs, restarts and is answered that its PIN is wrong, a SIM that had at
-- least two tries at the start keeps two, and any other keeps all it had, if each cycle reads the
-- number of tries that the SIM has, and only a call that is answered with a wrong PIN costs a try.
pub tries_kept : (m : Manager) (r : ℕ) (l : List Step) → Tracks m r l → min r 2 ≤ tries_after r l
unfolding tries_after
tries_kept m r [] h = omega arith
tries_kept m r (cycle i a s ∷ l) (e, c, t) =
    omega (arith, cycle_tries i a m r s e c, tries_kept (reconcile i a m).manager s l t)
tries_kept m r (restart ∷ l) t = tries_kept new r l t
