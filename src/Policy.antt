-- ===== src/Policy.antt =====
-- internal/service/service.go: which remedy a link assessment leads to, and the interval of the
-- remote probe. Times and durations are nanoseconds. `Env` is what a call of `applyRemedy` finds:
-- whether the recovery lock is free, the modem enabled, and a modem on D-Bus.
pub mod Cooldown
pub mod Interval
mod Tests
use modem_service.Prelude.{
  ℕ, ◌+◌, ◌*◌, Bool, true, false, not, ◌&&◌, ◌||◌, ltb, if◌then◌else◌, Option, none, some, List, [],
  ◌∷◌,
}
use modem_service.Link.{
  Layer, Remedy, Assessment, Assessor, hardware, sim, registration, packet_service, apn, bearer,
  netdev, liveness, no_remedy, reattach, bearer_bounce, modem_reset, is_no_remedy,
  note_remedy_applied,
}

pub record Env : Type 0 where
  pub recovery_free : Bool
  pub modem_enabled : Bool
  pub modem_found : Bool

-- What `applyRemedy` sets off: `Apn.Reattach`, `NMCli.Reapply`, `handleModemFailure`.
pub data Action : Type 0 where
  reattach_modem reapply_connection recover_modem : Action

-- `cooldown` is the map `remedyCooldown`; `link` the assessor that the service keeps.
pub record Policy : Type 0 where
  pub pending_layer : Layer
  pub pending_repeat : ℕ
  pub cooldown : Remedy → Option ℕ
  pub link : Assessor

pub record Outcome : Type 0 where
  pub policy : Policy
  pub applied : Option Remedy
  pub actions : List Action

abbrev pub minute : ℕ
minute = 60 * 1000000000

abbrev pub remedy_confirmations : ℕ
remedy_confirmations = 2

abbrev pub remedy_cooldown_for : Remedy → ℕ
remedy_cooldown_for reattach = 5 * minute
remedy_cooldown_for bearer_bounce = 5 * minute
remedy_cooldown_for modem_reset = 30 * minute
remedy_cooldown_for no_remedy = 0

abbrev pub layer_eq : Layer → Layer → Bool
layer_eq hardware hardware = true
layer_eq sim sim = true
layer_eq registration registration = true
layer_eq packet_service packet_service = true
layer_eq apn apn = true
layer_eq bearer bearer = true
layer_eq netdev netdev = true
layer_eq liveness liveness = true
layer_eq _ _ = false

abbrev pub remedy_eq : Remedy → Remedy → Bool
remedy_eq no_remedy no_remedy = true
remedy_eq reattach reattach = true
remedy_eq bearer_bounce bearer_bounce = true
remedy_eq modem_reset modem_reset = true
remedy_eq _ _ = false

-- `applyRemedy`; `recover_modem` takes the recovery lock itself.
unfoldable pub apply_remedy : Env → Remedy → List Action
apply_remedy e modem_reset = recover_modem ∷ []
apply_remedy e no_remedy = []
apply_remedy e reattach =
    if not e.recovery_free
    then []
    else if not e.modem_enabled
    then []
    else if not e.modem_found
    then []
    else reattach_modem ∷ []
apply_remedy e bearer_bounce =
    if not e.recovery_free then [] else if not e.modem_enabled then [] else reapply_connection ∷ []

-- `remedyCooldown[r] = now + cooldown`
abbrev pub set_cooldown : (Remedy → Option ℕ) → Remedy → ℕ → Remedy → Option ℕ
set_cooldown m r until x = if remedy_eq r x then some until else m x

abbrev pub cooling : Option ℕ → ℕ → Bool
cooling none now = false
cooling (some until) now = ltb now until

-- The pending layer and its count after an assessment that asks for a remedy.
unfoldable pub confirm : Policy → Layer → Policy
confirm p l =
    if layer_eq l p.pending_layer
    then record p { pending_repeat = p.pending_repeat + 1 }
    else record p { pending_layer = l; pending_repeat = 1 }

-- The part of `handleAssessment` behind the confirmation and the cooldown.
unfoldable pub act : Env → ℕ → Policy → Assessment → Outcome
act e now p a = record {
  policy = record p {
    cooldown = set_cooldown p.cooldown a.remedy (now + remedy_cooldown_for a.remedy);
    link = note_remedy_applied p.link a.failed_layer a.remedy;
  };
  applied = some a.remedy;
  actions = apply_remedy e a.remedy;
}

abbrev pub idle : Policy → Outcome
idle p = record { policy = p; applied = none; actions = [] }

unfoldable pub handle_assessment : Env → ℕ → Policy → Assessment → Outcome
unfolding confirm act
handle_assessment e now p a =
    if a.healthy || is_no_remedy a.remedy
    then idle (record p { pending_repeat = 0 })
    else let q = confirm p a.failed_layer in
      if ltb q.pending_repeat remedy_confirmations
      then idle q
      else if cooling (q.cooldown a.remedy) now
      then idle q
      else act e now q a

-- `nextProbeInterval`
unfoldable pub next_probe_interval : ℕ → ℕ → ℕ → ℕ
next_probe_interval cur base max_interval =
    let next = cur * 2 in
    if ltb max_interval next then max_interval else if ltb next base then base else next

-- The schedule of the remote probe in `checkAndPublishModemStatus`; `changed` is
-- `assessmentChanged`.
pub record Schedule : Type 0 where
  pub interval : ℕ
  pub next_at : ℕ

-- The new schedule, and whether the probe runs now.
unfoldable pub probe_tick : ℕ → ℕ → (healthy changed : Bool) → ℕ → Schedule → Schedule × Bool
unfolding next_probe_interval
probe_tick base max_interval healthy changed now s =
    let due = healthy && (ltb s.next_at now || changed) in
    let probed : Schedule =
      let i = next_probe_interval s.interval base max_interval in
      if due then record { interval = i; next_at = now + i } else s in
    (if changed then record probed { interval = base } else probed, due)
