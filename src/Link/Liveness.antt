-- ===== src/Link/Liveness.antt =====
-- What sequences of assessments do: flapping sessions and the ladder of remedies
-- (internal/modem/link/link.go).
use modem_service.Prelude.{
  ℕ, suc, ◌+◌, ◌≤◌, ◌≡◌, refl, ◌∙◌, inl, inr, Bool, true, false, if◌then◌else◌, arith, Option, some,
  none, List, [], ◌∷◌, ◌++◌, Option-cases,
}
use modem_service.Link.Local.{remedy_for, check_local-remedy, check_local-layer}
use modem_service.Link.{
  Layer, Snapshot, Assessor, hardware, liveness, modem_reset, check_local, session_flapped,
  count_session, conclude, assess, ladder, new,
}

remedy_for-reset : (l : Layer) → remedy_for l ≡ modem_reset → l ≡ hardware
remedy_for-reset l h = ground arith

-- A modem reset is only ever the remedy for the hardware layer: neither the other layers nor a
-- flapping session ask for one.
pub assess_reset :
    (a : Assessor) (c : Snapshot)
    → (assess a c).1.remedy ≡ modem_reset
    → (assess a c).1.failed_layer ≡ hardware
unfolding assess conclude
assess_reset a c h = elim (Option-cases (check_local c)) [
  | inl e ↦ ground arith
  | inr (f, e) ↦ ground (arith, check_local-remedy c f e, remedy_for-reset f.failed_layer)
]

-- The assessor after a sequence of snapshots.
unfoldable pub watch : Assessor → List Snapshot → Assessor
watch a [] = a
watch a (c ∷ cs) = watch (assess a c).0 cs

-- How many of the snapshots show a short-lived session that is newer than the one of the
-- snapshot before.
abbrev bump : Bool → ℕ → ℕ
bump b n = if b then suc n else n

pub count_flaps : Option Snapshot → List Snapshot → ℕ
count_flaps p [] = 0
count_flaps none (c ∷ cs) = count_flaps (some c) cs
count_flaps (some p) (c ∷ cs) = bump (session_flapped p c) (count_flaps (some c) cs)

count_session-flaps :
    (a : Assessor) (c : Snapshot) (cs : List Snapshot)
    → (count_session a c).flaps + count_flaps (some c) cs ≤ a.flaps + count_flaps a.prev (c ∷ cs)
unfolding count_session count_flaps
count_session-flaps a c cs = elim (Option-cases a.prev) [
  | inl e ↦ rw (e, count_session) (omega arith)
  | inr (p, e) ↦ rw (e, count_session) (ground arith)
]

count_flaps-cons :
    (o : Option Snapshot) (c : Snapshot) (cs : List Snapshot)
    → count_flaps (some c) cs ≤ count_flaps o (c ∷ cs)
unfolding count_flaps
count_flaps-cons none c cs = omega arith
count_flaps-cons (some p) c cs = ground arith

step_flaps :
    (a : Assessor) (c : Snapshot) (cs : List Snapshot)
    → ((assess a c).0.prev ≡ some c)
      × ((assess a c).0.flaps + count_flaps (some c) cs ≤ a.flaps + count_flaps a.prev (c ∷ cs))
unfolding assess
step_flaps a c cs = ground (arith, count_session-flaps a c cs, count_flaps-cons a.prev c cs)

watch_flaps :
    (a : Assessor) (cs : List Snapshot) → (watch a cs).flaps ≤ a.flaps + count_flaps a.prev cs
unfolding watch
watch_flaps a [] = omega arith
watch_flaps a (c ∷ cs) = ground (arith, step_flaps a c cs, watch_flaps (assess a c).0 cs)

watch-append : (a : Assessor) (cs ds : List Snapshot) → watch a (cs ++ ds) ≡ watch (watch a cs) ds
unfolding watch
watch-append a [] ds = refl
watch-append a (c ∷ cs) ds = watch-append (assess a c).0 cs ds

reported_flaps :
    (a : Assessor) (c : Snapshot)
    → (assess a c).1.failed_layer ≡ liveness
    → 3 ≤ (assess a c).0.flaps
unfolding assess conclude
reported_flaps a c h = elim (Option-cases (check_local c)) [
  | inl e ↦ ground arith
  | inr (f, e) ↦ ground (arith, check_local-layer c f e)
]

-- A flapping session is reported only if, since the assessor was made, at least three snapshots
-- showed a short-lived session that was newer than that of the snapshot before.
pub liveness_needs_flaps :
    (cs : List Snapshot) (c : Snapshot)
    → (assess (watch new cs) c).1.failed_layer ≡ liveness
    → 3 ≤ count_flaps none (cs ++ c ∷ [])
unfolding new watch
liveness_needs_flaps cs c h =
    omega (
      arith,
      reported_flaps (watch new cs) c h,
      rw watch-append at (watch_flaps new (cs ++ c ∷ [])),
    )

-- The snapshot passes the local checks and shows a new short-lived session.
abbrev pub Flaps : Snapshot → Snapshot → Type 0
Flaps p c = (check_local c ≡ none) × (session_flapped p c ≡ true)

step_flap :
    (a : Assessor) (p c : Snapshot)
    → a.prev ≡ some p
    → Flaps p c
    → ((assess a c).0.prev ≡ some c)
      × ((assess a c).0.flaps ≡ suc a.flaps)
      × ((assess a c).0.escalation ≡ a.escalation)
unfolding assess count_session
step_flap a p c e h = ground arith

third_flap :
    (a : Assessor) (p c : Snapshot) {n : ℕ}
    → a.prev ≡ some p
    → Flaps p c
    → 2 ≤ a.flaps
    → a.escalation ≡ n
    → let v = (assess a c).1 in
      (v.healthy ≡ false) × (v.failed_layer ≡ liveness) × (v.remedy ≡ ladder n)
unfolding assess count_session conclude
third_flap a p c e h f r = ground arith

-- Three flaps in a row, each in a snapshot that passes the local checks, are reported after any
-- history that ends in a snapshot, with the remedy of the rung that the ladder is on.
pub three-Flaps_reported :
    (a : Assessor) (p x y z : Snapshot)
    → a.prev ≡ some p
    → Flaps p x
    → Flaps x y
    → Flaps y z
    → let v = (assess (watch a (x ∷ y ∷ [])) z).1 in
      (v.healthy ≡ false) × (v.failed_layer ≡ liveness) × (v.remedy ≡ ladder a.escalation)
unfolding watch
three-Flaps_reported a p x y z e hx hy hz =
    let b = (assess a x).0 in
    let c = (assess b y).0 in
    let (px, fx, ex) = step_flap a p x e hx in
    let (py, fy, ey) = step_flap b x y px hy in third_flap c y z py hz (omega arith) (ey ∙ ex)
