-- ===== src/Link/Tests.antt =====
-- The assessor at fixed snapshots (internal/modem/link/link.go).
use modem_service.Prelude.{ℕ, ◌≤◌, ◌≡◌, refl, List, [], ◌∷◌, ◌++◌, true, false, none, some}
use modem_service.Link.{
  Snapshot, Assessor, check_local, check_bearer, assess, new, session_flapped, count_session,
  conclude,
}
use modem_service.Link.Local.{verdict, first_broken, check_local_lowest}
use modem_service.Link.Liveness.{watch, count_flaps, liveness_needs_flaps}

-- A session that runs since `since` seconds, the `n`th of its bearer.
abbrev session : (n since : ℕ) → Snapshot
session n since = record {
  modem_present = true;
  primary_port_known = true;
  primary_port_ok = true;
  power = "on";
  sim_lock = "";
  registered = "home";
  service = "attached";
  bearer_known = true;
  bearer_connected = true;
  bearer_connected_known = true;
  suspended = false;
  suspended_known = true;
  interface = "wwan0";
  bearer_ip_known = true;
  bearer_ip = "10.0.0.2";
  session_known = true;
  attempts = n;
  duration = since;
  at_checked = false;
  cgact_active = false;
  cgpaddr = "";
  carrier_known = true;
  carrier = true;
  netdev_ip = "10.0.0.2";
  route_known = true;
  has_route = true;
}

-- Two faults: the modem is off and the service detached.
abbrev off : Snapshot
off = record (session 1 300) { power = "off"; service = "detached" }

abbrev detached : Snapshot
detached = record (session 1 300) { service = "detached" }

abbrev flaps : List Snapshot
flaps = session 1 300 ∷ session 2 30 ∷ session 3 20 ∷ []

check_local_lowest_example : verdict (check_local off) ≡ first_broken off
check_local_lowest_example = check_local_lowest off

liveness_needs_flaps_example : 3 ≤ count_flaps none (flaps ++ session 4 10 ∷ [])
unfolding assess check_local check_bearer watch new count_session conclude session_flapped
liveness_needs_flaps_example = liveness_needs_flaps flaps (session 4 10) refl

abbrev watching : Assessor
watching = record { prev = some (session 1 300); flaps = 0; escalation = 1 }
