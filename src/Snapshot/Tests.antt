-- ===== src/Snapshot/Tests.antt =====
-- Tests of the link snapshot (internal/modem/snapshot.go), and its theorem at a concrete input.
use modem_service.Prelude.{String, true, false, ◌≡◌, refl, none, some, [], ◌∷◌}
use modem_service.Link.{check_local, check_bearer, check_at, check_netdev}
use modem_service.Link.Local.{verdict}
use modem_service.Link.{bearer, bearer_bounce}
use modem_service.Bearer.{Properties, data_bearer, select_data_bearer, get_bearer_info}
use modem_service.Mm.{pos, power_state_to_string, packet_service_string}
use modem_service.Apn.{after_prefix, trim_left, trim_right, trim_space, split_lines}
use modem_service.Snapshot.{
  Reads, link_snapshot, snapshot_with, after, context_state, parse_states, parse_cgact,
  context_address, parse_addresses, parse_cgpaddr, normalize_addr, equal_fold, trim_quotes_left,
  trim_quotes_right, split_fields, any_default, parse_default_route,
}
use modem_service.Snapshot.Lost.{
  power_lost, addresses_lost, property_lost, connected_property, lose_all, lost_answers_pass,
}

abbrev over : String → Properties
over iface = record {
  connected = some true;
  suspended = some false;
  interface = some iface;
  ip4 = none;
  stats = none;
}

abbrev closed : Properties
closed = record (over "wwan1") { connected = some false }

abbrev healthy : Reads
healthy = record {
  primary_port = some "cdc-wdm0";
  power_state = some (pos 3);
  sim_lock = some "sim-pin2";
  registered = some "home";
  if_addr = some "UNKNOWN";
  service_state = some (pos 2);
  bearers = some (("/Bearer/0", over "wwan0") ∷ ("/Bearer/1", closed) ∷ []);
  cgact = some "+CGACT: 1,1\r\nOK";
  cgpaddr = some "+CGPADDR: 1,\"10.0.0.2\"";
  carrier = some "1\n";
  routes = some "Iface\tDestination\nwwan0\t00000000\t0\n";
}

lost_answers_pass_example :
    check_local (
      link_snapshot true "wwan0"
        (lose_all (power_lost ∷ property_lost 0 connected_property ∷ addresses_lost ∷ []) healthy))
    ≡ none
unfolding check_local check_bearer check_at check_netdev link_snapshot snapshot_with data_bearer
    select_data_bearer get_bearer_info power_state_to_string packet_service_string after
    context_state parse_states parse_cgact context_address parse_addresses parse_cgpaddr
    normalize_addr equal_fold trim_quotes_left trim_quotes_right split_fields any_default
    parse_default_route after_prefix trim_left trim_right trim_space split_lines
lost_answers_pass_example =
    lost_answers_pass true "wwan0"
      (power_lost ∷ property_lost 0 connected_property ∷ addresses_lost ∷ []) healthy refl

-- With the interface of the first bearer lost, the second one is judged.
lost_interface :
    verdict (
      check_local (
        link_snapshot true "wwan0" (record healthy {
          bearers = some (
              ("/Bearer/0", record (over "wwan0") { interface = none })
              ∷ ("/Bearer/1", closed)
              ∷ []);
        })))
    ≡ some (bearer, bearer_bounce)
unfolding check_local check_bearer check_at check_netdev link_snapshot snapshot_with data_bearer
    select_data_bearer get_bearer_info power_state_to_string packet_service_string after
    context_state parse_states parse_cgact context_address parse_addresses parse_cgpaddr
    normalize_addr equal_fold trim_quotes_left trim_quotes_right split_fields any_default
    parse_default_route after_prefix trim_left trim_right trim_space split_lines
lost_interface = refl

active_context : parse_cgact "+CGACT: 1,0\r\n+CGACT: 2,1\r\nOK" ≡ (true, true)
unfolding parse_cgact parse_states context_state after after_prefix split_lines trim_space trim_left
    trim_right
active_context = refl

unreadable_reply : parse_cgact "ERROR" ≡ (false, false)
unfolding parse_cgact parse_states context_state after after_prefix split_lines trim_space trim_left
    trim_right
unreadable_reply = refl

quoted_address : parse_cgpaddr "+CGPADDR: 1,\"10.0.0.2\"\r\n" ≡ "10.0.0.2"
unfolding parse_cgpaddr parse_addresses context_address after after_prefix split_lines trim_space
    trim_left trim_right normalize_addr equal_fold trim_quotes_left trim_quotes_right
quoted_address = refl

default_route : parse_default_route "Iface\tDestination\nwwan0\t00000000\t0\n" "wwan0" ≡ true
unfolding parse_default_route any_default split_fields split_lines
default_route = refl
