-- ===== src/Mm/Tests.antt =====
-- Names at fixed numbers (internal/mm/types.go, internal/modem/modem.go).
use modem_service.Prelude.{ℕ, ◌≡◌, refl, true, false, Option, some, arith}
use modem_service.Link.{Snapshot, hardware, modem_reset, check_local}
use modem_service.Link.Local.{verdict}
use modem_service.Mm.{
  pos, negsuc, power_state_to_string, modem_state_to_string, access_technology_to_string,
  sms_state_to_string, sms_pdu_type_to_string, sms_pdu_type_is_incoming, packet_service_string,
}
use modem_service.Mm.Checks.{power_reset}

-- A snapshot of a modem of which nothing is known but its power state and its registration.
abbrev bare : Snapshot
bare = record {
  modem_present = true;
  primary_port_known = false;
  primary_port_ok = false;
  power = "unknown";
  sim_lock = "";
  registered = "roaming";
  service = "";
  bearer_known = false;
  bearer_connected = false;
  bearer_connected_known = false;
  suspended = false;
  suspended_known = false;
  interface = "";
  bearer_ip_known = false;
  bearer_ip = "";
  session_known = false;
  attempts = 0;
  duration = 0;
  at_checked = false;
  cgact_active = false;
  cgpaddr = "";
  carrier_known = false;
  carrier = false;
  netdev_ip = "";
  route_known = false;
  has_route = false;
}

power_reset_example : verdict (check_local bare) ≡ some (hardware, modem_reset)
unfolding power_state_to_string
power_reset_example = power_reset bare (pos 0) (λ e. ground arith) refl

abbrev roaming : ℕ
roaming = 5

abbrev not_locked : Option ℕ
not_locked = some 1

-- The names of the other numbers.
names :
    (modem_state_to_string (negsuc 0) ≡ "failed")
    × (access_technology_to_string 16416 ≡ "4G")
    × (sms_state_to_string 2 ≡ "receiving")
    × (sms_pdu_type_to_string 3 ≡ "status-report")
    × (sms_pdu_type_is_incoming 1 ≡ true)
    × (packet_service_string (pos 1) ≡ "detached")
unfolding modem_state_to_string access_technology_to_string sms_state_to_string
    sms_pdu_type_to_string sms_pdu_type_is_incoming packet_service_string
names = (refl, refl, refl, refl, refl, refl)
