-- ===== src/Snapshot.antt =====
-- internal/modem/snapshot.go: the snapshot that the link assessor judges (`Link`), from what
-- ModemManager, the modem and the kernel answer. An answer that fails, or has another type than the
-- source asks for, is `none`. The bearer is read as in `Bearer`.
pub mod Lost
mod Tests
use Prim.Native.Char.{code}
use Prim.Native.String.{◌++◌ as append}
use modem_service.Prelude.{
  ℕ, ◌+◌, String, Bool, true, false, not, ◌&&◌, ◌||◌, ◌==◌, leb, if◌then◌else◌, str_eq, Option,
  none, some, List, [], ◌∷◌,
}
use modem_service.Link
use modem_service.Bearer.{
  BearerInfo, Result, found, failed, list_failed, observation_unavailable, no_data_bearer,
  data_bearer, Properties,
}
use modem_service.Mm.{ℤ, power_state_to_string, packet_service_string}
use modem_service.Apn.{after_prefix, trim_space, split_lines, is_space}

-- What stands behind the first occurrence of a text, as `strings.Cut` gives it.
unfoldable pub after : String → String → Option String
after t String.[] = after_prefix t String.[]
after t (String.◌∷◌ c s) =
    let rest = after t s in elim (after_prefix t (String.◌∷◌ c s)) [ some r ↦ some r | none ↦ rest ]

-- The state in a line of the reply.
unfoldable pub context_state : String → Option String
context_state line = elim (after "+CGACT:" line) [ none ↦ none | some rest ↦ after "," rest ]

abbrev pub note_state : Option String → Bool × Bool → Bool × Bool
note_state none r = r
note_state (some state) r = if str_eq (trim_space state) "1" then (true, true) else (r.0, true)

unfoldable pub parse_states : List String → Bool × Bool
parse_states [] = (false, false)
parse_states (l ∷ ls) = note_state (context_state l) (parse_states ls)

-- Whether a context is active, and whether the reply could be read.
unfoldable pub parse_cgact : String → Bool × Bool
parse_cgact out = parse_states (split_lines out)

-- Simple case folding, as far as it leads to ASCII: the Kelvin sign and the long s have places in it.
abbrev pub fold : ℕ → ℕ
fold c =
    if leb 65 c && leb c 90 then c + 32 else if c == 8490 then 107 else if c == 383 then 115 else c

unfoldable pub equal_fold : String → String → Bool
equal_fold String.[] String.[] = true
equal_fold String.[] (String.◌∷◌ d t) = false
equal_fold (String.◌∷◌ c s) String.[] = false
equal_fold (String.◌∷◌ c s) (String.◌∷◌ d t) = (fold (code c) == fold (code d)) && equal_fold s t

unfoldable pub normalize_addr : String → String
normalize_addr s =
    let t = trim_space s in
    if str_eq t "" || equal_fold t "UNKNOWN" || str_eq t "0.0.0.0" then "" else t

unfoldable pub trim_quotes_left : String → String
trim_quotes_left String.[] = ""
trim_quotes_left (String.◌∷◌ c s) = if code c == 34 then trim_quotes_left s else String.◌∷◌ c s

unfoldable pub trim_quotes_right : String → String
trim_quotes_right String.[] = ""
trim_quotes_right (String.◌∷◌ c s) =
    let rest = trim_quotes_right s in
    if (code c == 34) && str_eq rest "" then "" else String.◌∷◌ c rest

unfoldable pub context_address : String → Option String
context_address line = elim (after "+CGPADDR:" line) [ none ↦ none | some rest ↦ after "," rest ]

abbrev pub first_address : Option String → String → String
first_address none rest = rest
first_address (some a) rest = normalize_addr (trim_quotes_right (trim_quotes_left (trim_space a)))

unfoldable pub parse_addresses : List String → String
parse_addresses [] = ""
parse_addresses (l ∷ ls) = first_address (context_address l) (parse_addresses ls)

unfoldable pub parse_cgpaddr : String → String
parse_cgpaddr out = parse_addresses (split_lines out)

abbrev pub join : String → List String → List String
join t [] = t ∷ []
join t (w ∷ ws) = append t w ∷ ws

-- `strings.Fields`: `pending` is whether the first word is not ended.
abbrev pub push : ℕ → String → (words : List String) → (pending : Bool) → List String × Bool
push c t words pending =
    if is_space c
    then (words, false)
    else if pending
    then (join t words, true)
    else (t ∷ words, true)

unfoldable pub split_fields : String → List String × Bool
split_fields String.[] = ([], false)
split_fields (String.◌∷◌ c s) =
    let r = split_fields s in push (code c) (String.◌∷◌ c String.[]) r.0 r.1

abbrev pub is_default : List String → String → Bool
is_default [] iface = false
is_default (i ∷ []) iface = false
is_default (i ∷ d ∷ rest) iface = str_eq i iface && str_eq d "00000000"

unfoldable pub any_default : List String → String → Bool
any_default [] iface = false
any_default (l ∷ ls) iface = is_default (split_fields l).0 iface || any_default ls iface

abbrev pub without_first : List String → List String
without_first [] = []
without_first (l ∷ ls) = ls

unfoldable pub parse_default_route : String → String → Bool
parse_default_route content iface = any_default (without_first (split_lines content)) iface

-- What is answered. `registered`, `sim_lock` and `if_addr` are of the state that was read before, or
-- `none` without one, and `cgact` and `cgpaddr` are the replies to the two commands.
pub record Reads : Type 0 where
  pub primary_port : Option String
  pub power_state : Option ℤ
  pub sim_lock : Option String
  pub registered : Option String
  pub if_addr : Option String
  pub service_state : Option ℤ
  pub bearers : Option (List (String × Properties))
  pub cgact : Option String
  pub cgpaddr : Option String
  pub carrier : Option String
  pub routes : Option String

module _ {A : Type 0} where
  -- A field of the bearer: without one, and where there is none that carries data.
  abbrev pub of_bearer : A → A → (BearerInfo → A) → Result → A
  of_bearer a b f (found i) = f i
  of_bearer a b f (failed list_failed) = a
  of_bearer a b f (failed observation_unavailable) = a
  of_bearer a b f (failed no_data_bearer) = b

  abbrev pub of_option : A → (String → A) → Option String → A
  of_option a f none = a
  of_option a f (some s) = f s

abbrev pub name_of : (ℤ → String) → Option ℤ → String
name_of f none = ""
name_of f (some n) = f n

-- `readATCrossCheck`: whether a context is active and its address, if both replies can be read.
abbrev pub cross_check : Bool → Option String → Option String → Option (Bool × String)
cross_check with_at none address = none
cross_check with_at (some out) none = none
cross_check with_at (some out) (some address) =
    if with_at && (parse_cgact out).1
    then some ((parse_cgact out).0, parse_cgpaddr address)
    else none

abbrev pub is_checked : Option (Bool × String) → Bool
is_checked none = false
is_checked (some x) = true

abbrev pub is_active : Option (Bool × String) → Bool
is_active none = false
is_active (some x) = x.0

abbrev pub address_of : Option (Bool × String) → String
address_of none = ""
address_of (some x) = x.1

-- With what `DataBearer` answers.
unfoldable pub snapshot_with : Bool → String → Reads → Result → Link.Snapshot
snapshot_with with_at iface r b =
    let x = cross_check with_at r.cgact r.cgpaddr in
    record {
      modem_present = true;
      primary_port_known = of_option false (λ p. true) r.primary_port;
      primary_port_ok = of_option false (λ p. str_eq p "cdc-wdm0") r.primary_port;
      power = name_of power_state_to_string r.power_state;
      sim_lock = of_option "" (λ s. s) r.sim_lock;
      registered = of_option "" (λ s. s) r.registered;
      service = name_of packet_service_string r.service_state;
      bearer_known = of_bearer false true (λ i. true) b;
      bearer_connected = of_bearer false false (λ i. i.connected) b;
      bearer_connected_known = of_bearer false true (λ i. i.connected_known) b;
      suspended = of_bearer false false (λ i. i.suspended) b;
      suspended_known = of_bearer false false (λ i. i.suspended_known) b;
      interface = of_bearer "" "" (λ i. i.interface) b;
      bearer_ip_known = of_bearer false false (λ i. i.ip4_known) b;
      bearer_ip = of_bearer "" "" (λ i. normalize_addr i.ip4.address) b;
      session_known = of_bearer false false (λ i. i.session_stats_known) b;
      attempts = of_bearer 0 0 (λ i. i.stats.attempts) b;
      duration = of_bearer 0 0 (λ i. i.stats.duration) b;
      at_checked = is_checked x;
      cgact_active = is_active x;
      cgpaddr = address_of x;
      carrier_known = of_option false (λ c. true) r.carrier;
      carrier = of_option false (λ c. str_eq (trim_space c) "1") r.carrier;
      netdev_ip = of_option "" normalize_addr r.if_addr;
      route_known = of_option false (λ c. true) r.routes;
      has_route = of_option false (λ c. parse_default_route c iface) r.routes;
    }

-- With a modem that is found.
unfoldable pub link_snapshot : Bool → String → Reads → Link.Snapshot
link_snapshot with_at iface r = snapshot_with with_at iface r (data_bearer r.bearers)

pub record BearerUsage : Type 0 where
  pub valid : Bool
  pub path : String
  pub rx_bytes : ℕ
  pub tx_bytes : ℕ

abbrev pub no_usage : BearerUsage
no_usage = record { valid = false; path = ""; rx_bytes = 0; tx_bytes = 0 }

unfoldable pub bearer_usage : BearerInfo → BearerUsage
bearer_usage b = record {
  valid = b.stats_known;
  path = b.path;
  rx_bytes = if b.stats.have_totals then b.stats.total_rx_bytes else b.stats.rx_bytes;
  tx_bytes = if b.stats.have_totals then b.stats.total_tx_bytes else b.stats.tx_bytes;
}

unfoldable pub link_usage : Reads → BearerUsage
link_usage r = of_bearer no_usage no_usage bearer_usage (data_bearer r.bearers)
