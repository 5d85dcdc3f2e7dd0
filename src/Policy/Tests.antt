-- ===== src/Policy/Tests.antt =====
-- The policy at fixed assessments (internal/service/service.go).
use modem_service.Prelude.{
  ◌+◌, ◌*◌, ◌≤◌, ◌<◌, ◌≡◌, refl, List, [], ◌∷◌, true, false, none, some, arith, All,
}
use modem_service.Link.{
  Assessment, hardware, packet_service, liveness, service_detached, flapping, reattach,
  bearer_bounce, new,
}
use modem_service.Policy.{
  Env, Policy, Schedule, minute, handle_assessment, remedy_cooldown_for, probe_tick,
}
use modem_service.Policy.Cooldown.{Call, times_of, cooldown_spaces, blocked_remedy_advances}
use modem_service.Policy.Interval.{changed_probe_late}

abbrev able : Env
able = record { recovery_free = true; modem_enabled = true; modem_found = true }

abbrev busy : Env
busy = record able { recovery_free = false }

abbrev idle_policy : Policy
idle_policy = record {
  pending_layer = hardware;
  pending_repeat = 0;
  cooldown = λ r. none;
  link = new;
}

abbrev detached : Assessment
detached = record {
  healthy = false;
  failed_layer = packet_service;
  reason = service_detached;
  remedy = reattach;
  want_at_check = false;
}

abbrev flaps : Assessment
flaps = record {
  healthy = false;
  failed_layer = liveness;
  reason = flapping 3 10;
  remedy = bearer_bounce;
  want_at_check = true;
}

abbrev pending : Policy
pending = record idle_policy { pending_layer = packet_service; pending_repeat = 1 }

-- Two more assessments: one in the window, one behind it.
abbrev later : List Call
later =
    record { env = able; time = 2 * minute; seen = detached }
    ∷ record { env = able; time = 7 * minute; seen = detached }
    ∷ []

cooldown_spaces_example :
    All
      (λ t. minute + remedy_cooldown_for reattach ≤ t)
      (times_of reattach (handle_assessment able minute pending detached).policy later)
unfolding handle_assessment
cooldown_spaces_example = cooldown_spaces able minute pending detached reattach later refl

abbrev pending_flaps : Policy
pending_flaps = record idle_policy { pending_layer = liveness; pending_repeat = 1 }

blocked_remedy_advances_example :
    ((handle_assessment busy minute pending_flaps flaps).actions ≡ [])
    × ((handle_assessment busy minute pending_flaps flaps).policy.link.escalation ≡ 0 + 1)
    × ((handle_assessment busy minute pending_flaps flaps).policy.cooldown bearer_bounce
        ≡ some (minute + remedy_cooldown_for bearer_bounce))
unfolding handle_assessment new
blocked_remedy_advances_example =
    blocked_remedy_advances busy minute pending_flaps flaps refl refl refl refl

abbrev slow : Schedule
slow = record { interval = 120; next_at = 500 }

changed_probe_late_example :
    let t = probe_tick 30 600 true true 100 slow in
    (t.1 ≡ true) × (t.0.interval ≡ 30) × (100 + 30 < t.0.next_at)
changed_probe_late_example = changed_probe_late 30 600 100 slow (omega arith) (omega arith)
