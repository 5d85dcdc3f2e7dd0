-- ===== src/Policy/Cooldown.antt =====
-- When a remedy is applied (internal/service/service.go).
use modem_service.Prelude.{
  ℕ, ◌+◌, ◌≤◌, ◌≡◌, sym, ap, ◌∙◌, inl, inr, true, false, if◌then◌else◌, arith, Option, some, none,
  List, [], ◌∷◌, Bool-cases, All,
}
use modem_service.Link.{
  Layer, Remedy, Assessment, liveness, is_no_remedy, bearer_bounce, note_remedy_applied,
}
use modem_service.Policy.{
  Env, Policy, remedy_cooldown_for, layer_eq, remedy_eq, apply_remedy, cooling, handle_assessment,
}

layer_eq→eq : (l k : Layer) → layer_eq l k ≡ true → l ≡ k
layer_eq→eq l k h = ground arith

remedy_eq→eq : (r x : Remedy) → remedy_eq r x ≡ true → r ≡ x
remedy_eq→eq r x h = ground arith

remedy_eq_refl : (r : Remedy) → remedy_eq r r ≡ true
remedy_eq_refl r = ground arith

applied_inv :
    (e : Env) (now : ℕ) (p : Policy) (b : Assessment) (r : Remedy)
    → (handle_assessment e now p b).applied ≡ some r
    → (b.healthy ≡ false)
      × (b.remedy ≡ r)
      × (1 ≤ p.pending_repeat)
      × (layer_eq b.failed_layer p.pending_layer ≡ true)
      × (cooling (p.cooldown r) now ≡ false)
unfolding handle_assessment
applied_inv e now p b r h = ground arith

pending_inv :
    (d : Env) (t : ℕ) (p : Policy) (a : Assessment)
    → 1 ≤ (handle_assessment d t p a).policy.pending_repeat
    → (a.healthy ≡ false)
      × (is_no_remedy a.remedy ≡ false)
      × ((handle_assessment d t p a).policy.pending_layer ≡ a.failed_layer)
unfolding handle_assessment
pending_inv d t p a h = ground (arith, layer_eq→eq a.failed_layer p.pending_layer)

-- A remedy is applied only to the second of two successive assessments that are both unhealthy at
-- the same layer, the first asking for a remedy too, and it is the remedy of the second.
pub applied_twice :
    (d e : Env) (t now : ℕ) (p : Policy) (a b : Assessment) (r : Remedy)
    → (handle_assessment e now (handle_assessment d t p a).policy b).applied ≡ some r
    → (a.healthy ≡ false)
      × (is_no_remedy a.remedy ≡ false)
      × (b.healthy ≡ false)
      × (a.failed_layer ≡ b.failed_layer)
      × (b.remedy ≡ r)
applied_twice d e t now p a b r h =
    let q = (handle_assessment d t p a).policy in
    let (bad, same, some_pending, layer, _) = applied_inv e now q b r h in
    let (ill, asks, pending) = pending_inv d t p a some_pending in
    (ill, asks, bad, sym pending ∙ sym (layer_eq→eq _ _ layer), same)

asks_pending :
    (d : Env) (t : ℕ) (p : Policy) (a : Assessment)
    → a.healthy ≡ false
    → is_no_remedy a.remedy ≡ false
    → (1 ≤ (handle_assessment d t p a).policy.pending_repeat)
      × ((handle_assessment d t p a).policy.pending_layer ≡ a.failed_layer)
unfolding handle_assessment
asks_pending d t p a h k = ground (arith, layer_eq→eq a.failed_layer p.pending_layer)

pending_applied :
    (e : Env) (now : ℕ) (p : Policy) (b : Assessment)
    → b.healthy ≡ false
    → is_no_remedy b.remedy ≡ false
    → 1 ≤ p.pending_repeat
    → layer_eq b.failed_layer p.pending_layer ≡ true
    → cooling (p.cooldown b.remedy) now ≡ false
    → (handle_assessment e now p b).applied ≡ some b.remedy
unfolding handle_assessment
pending_applied e now p b h k l m c = ground arith

layer_eq_refl : (l : Layer) → layer_eq l l ≡ true
layer_eq_refl l = ground arith

-- Two successive assessments that are unhealthy at the same layer and ask for a remedy are acted
-- on, unless the remedy is cooling down.
pub confirmed_applied :
    (d e : Env) (t now : ℕ) (p : Policy) (a b : Assessment)
    → a.healthy ≡ false
    → is_no_remedy a.remedy ≡ false
    → b.healthy ≡ false
    → is_no_remedy b.remedy ≡ false
    → a.failed_layer ≡ b.failed_layer
    → cooling ((handle_assessment d t p a).policy.cooldown b.remedy) now ≡ false
    → (handle_assessment e now (handle_assessment d t p a).policy b).applied ≡ some b.remedy
confirmed_applied d e t now p a b h k i j l c =
    let (pending, layer) = asks_pending d t p a h k in
    pending_applied e now (handle_assessment d t p a).policy b i j pending
      (rw (layer, l) (layer_eq_refl b.failed_layer)) c

pub record Call : Type 0 where
  pub env : Env
  pub time : ℕ
  pub seen : Assessment

abbrev note_time : Option Remedy → Remedy → ℕ → List ℕ → List ℕ
note_time none r t ts = ts
note_time (some x) r t ts = if remedy_eq x r then t ∷ ts else ts

-- The times at which a run of calls applies `r`.
pub times_of : Remedy → Policy → List Call → List ℕ
times_of r p [] = []
times_of r p (c ∷ cs) =
    let o = handle_assessment c.env c.time p c.seen in
    note_time o.applied r c.time (times_of r o.policy cs)

-- The remedy may not be applied before `until`.
abbrev Blocked : Option ℕ → ℕ → Type 0
Blocked none until = ⊥
Blocked (some u) until = until ≤ u

step-Blocked :
    (e : Env) (now : ℕ) (p : Policy) (a : Assessment) (r : Remedy) (until : ℕ)
    → Blocked (p.cooldown r) until
    → Blocked ((handle_assessment e now p a).policy.cooldown r) until
unfolding handle_assessment
step-Blocked e now p a r until h = ground (arith, remedy_eq→eq a.remedy r)

Blocked-time :
    (o : Option ℕ) (until now : ℕ) → Blocked o until → cooling o now ≡ false → until ≤ now
Blocked-time none until now h c = absurd h
Blocked-time (some u) until now h c = ground arith

All-note_time :
    (o : Option Remedy) (r : Remedy) (until t : ℕ) (ts : List ℕ)
    → (o ≡ some r → until ≤ t)
    → All (λ u. until ≤ u) ts
    → All (λ u. until ≤ u) (note_time o r t ts)
All-note_time none r until t ts h k = k
All-note_time (some x) r until t ts h k = elim (Bool-cases (remedy_eq x r)) [
  | inl e ↦ rw e (h (ap some (remedy_eq→eq x r e)), k)
  | inr e ↦ rw e k
]

times_of-Blocked :
    (r : Remedy) (p : Policy) (cs : List Call) (until : ℕ)
    → Blocked (p.cooldown r) until
    → All (λ t. until ≤ t) (times_of r p cs)
unfolding times_of
times_of-Blocked r p [] until h = tt
times_of-Blocked r p (c ∷ cs) until h =
    let o = handle_assessment c.env c.time p c.seen in
    All-note_time o.applied r until c.time (times_of r o.policy cs)
      (λ e. Blocked-time (p.cooldown r) until c.time h (applied_inv c.env c.time p c.seen r e).4)
      (times_of-Blocked r o.policy cs until (step-Blocked c.env c.time p c.seen r until h))

applied_blocks :
    (e : Env) (now : ℕ) (p : Policy) (a : Assessment) (r : Remedy)
    → (handle_assessment e now p a).applied ≡ some r
    → Blocked ((handle_assessment e now p a).policy.cooldown r) (now + remedy_cooldown_for r)
unfolding handle_assessment
applied_blocks e now p a r h = ground (arith, remedy_eq_refl r)

-- A remedy is applied at most once in its window: after a call that applies `r` at the time `now`,
-- every later call of a run that applies `r` does so at `now` plus the cooldown of `r` at the
-- earliest.
pub cooldown_spaces :
    (e : Env) (now : ℕ) (p : Policy) (a : Assessment) (r : Remedy) (cs : List Call)
    → (handle_assessment e now p a).applied ≡ some r
    → All
        (λ t. now + remedy_cooldown_for r ≤ t)
        (times_of r (handle_assessment e now p a).policy cs)
cooldown_spaces e now p a r cs h =
    times_of-Blocked r (handle_assessment e now p a).policy cs (now + remedy_cooldown_for r)
      (applied_blocks e now p a r h)

-- While the recovery lock is taken, a confirmed bearer bounce for a flapping session sets nothing
-- off, and yet starts the cooldown of the remedy and moves the ladder on.
pub blocked_remedy_advances :
    (e : Env) (now : ℕ) (p : Policy) (a : Assessment)
    → e.recovery_free ≡ false
    → a.failed_layer ≡ liveness
    → a.remedy ≡ bearer_bounce
    → (handle_assessment e now p a).applied ≡ some bearer_bounce
    → ((handle_assessment e now p a).actions ≡ [])
      × ((handle_assessment e now p a).policy.link.escalation ≡ p.link.escalation + 1)
      × ((handle_assessment e now p a).policy.cooldown bearer_bounce
          ≡ some (now + remedy_cooldown_for bearer_bounce))
unfolding handle_assessment apply_remedy note_remedy_applied
blocked_remedy_advances e now p a h l r k = ground arith
