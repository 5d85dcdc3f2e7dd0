-- ===== src/Link/Local.antt =====
-- The checks of one snapshot, layer by layer (internal/modem/link/link.go).
use modem_service.Prelude.{
  ◌≡◌, refl, sym, ap, ◌∙◌, ◌≢◌, ◌↔◌, Bool, false, not, ◌&&◌, ◌||◌, if◌then◌else◌, arith, Option,
  some, none, str_eq, List, [], ◌∷◌,
}
use modem_service.Link.{
  Layer, Remedy, Snapshot, Assessment, hardware, sim, registration, packet_service, apn, bearer,
  netdev, liveness, no_remedy, reattach, bearer_bounce, modem_reset, filled, check_netdev, check_at,
  check_bearer, check_local,
}

-- The faults of each layer, in no order of checking.
abbrev pub broken : Layer → Snapshot → Bool
broken hardware s =
    not s.modem_present
    || (s.primary_port_known && not s.primary_port_ok)
    || (filled s.power && not (str_eq s.power "on"))
broken sim s =
    filled s.sim_lock && not (str_eq s.sim_lock "sim-pin2") && not (str_eq s.sim_lock "sim-puk2")
broken registration s =
    filled s.registered && not (str_eq s.registered "home") && not (str_eq s.registered "roaming")
broken packet_service s = str_eq s.service "detached"
broken apn s = false
broken bearer s =
    (s.bearer_known && s.bearer_connected_known && not s.bearer_connected)
    || (s.bearer_known && s.suspended_known && s.suspended)
    || (s.bearer_known && s.bearer_connected && s.bearer_ip_known && str_eq s.bearer_ip "")
    || (s.at_checked && not s.cgact_active)
    || (s.at_checked && s.bearer_ip_known && filled s.cgpaddr && not (str_eq s.cgpaddr s.bearer_ip))
broken netdev s =
    (s.carrier_known && not s.carrier)
    || (s.route_known && not s.has_route)
    || (s.bearer_ip_known && filled s.netdev_ip && not (str_eq s.netdev_ip s.bearer_ip))
broken liveness s = false

-- What `checkLocal` reports for a layer, whatever the reason.
abbrev pub remedy_for : Layer → Remedy
remedy_for hardware = modem_reset
remedy_for packet_service = reattach
remedy_for bearer = bearer_bounce
remedy_for netdev = bearer_bounce
remedy_for _ = no_remedy

abbrev pub verdict : Option Assessment → Option (Layer × Remedy)
verdict none = none
verdict (some a) = some (a.failed_layer, a.remedy)

abbrev pub lowest : (h s r p b n : Bool) → Option (Layer × Remedy)
lowest h s r p b n =
    if h
    then some (hardware, remedy_for hardware)
    else if s
    then some (sim, remedy_for sim)
    else if r
    then some (registration, remedy_for registration)
    else if p
    then some (packet_service, remedy_for packet_service)
    else if b
    then some (bearer, remedy_for bearer)
    else if n
    then some (netdev, remedy_for netdev)
    else none

abbrev pub first_broken : Snapshot → Option (Layer × Remedy)
first_broken s =
    lowest (broken hardware s) (broken sim s) (broken registration s) (broken packet_service s)
      (broken bearer s) (broken netdev s)

lowest-eq-none :
    (h s r p b n : Bool)
    → lowest h s r p b n ≡ none
    → (h ≡ false) × (s ≡ false) × (r ≡ false) × (p ≡ false) × (b ≡ false) × (n ≡ false)
lowest-eq-none h s r p b n e = ground arith

lowest-eq-some :
    (h s r p b n : Bool) (l : Layer) (x : Remedy)
    → lowest h s r p b n ≡ some (l, x)
    → x ≡ remedy_for l
lowest-eq-some h s r p b n l x e = ground arith

verdict-check_netdev :
    (s : Snapshot)
    → verdict (check_netdev s) ≡ (if broken netdev s then some (netdev, bearer_bounce) else none)
unfolding check_netdev
verdict-check_netdev s = ground arith

verdict-check_bearer :
    (s : Snapshot)
    → verdict (check_bearer s)
      ≡ (if broken bearer s then some (bearer, bearer_bounce) else verdict (check_netdev s))
unfolding check_bearer check_at
verdict-check_bearer s = ground arith

-- `checkLocal` reports the lowest layer with a fault, with the remedy of that layer, and nothing
-- if no layer has one.
pub check_local_lowest : (s : Snapshot) → verdict (check_local s) ≡ first_broken s
unfolding check_local
check_local_lowest s = ground (arith, verdict-check_bearer s, verdict-check_netdev s)

lowest-ne-liveness : (h s r p b n : Bool) (x : Remedy) → lowest h s r p b n ≢ some (liveness, x)
lowest-ne-liveness h s r p b n x = λ e. ground arith

-- No check of one snapshot reports the liveness layer.
pub check_local-layer :
    (s : Snapshot) (a : Assessment) → check_local s ≡ some a → a.failed_layer ≢ liveness
check_local-layer s a e = λ p.
    lowest-ne-liveness (broken hardware s) (broken sim s) (broken registration s)
      (broken packet_service s) (broken bearer s) (broken netdev s) a.remedy
      (sym (check_local_lowest s) ∙ ap verdict e ∙ ap (λ l. some (l, a.remedy)) p)

-- The reads behind a snapshot, each of which can fail.
pub data Read : Type 0 where
  port power_read lock_read registration_read service_read bearer_read at_read carrier_read
        route_read address_read connected_read suspended_read ip_read stats_read :
      Read

-- The snapshot had the read failed: the fields keep the zero values that `LinkSnapshot` starts with.
unfoldable pub forget : Read → Snapshot → Snapshot
forget port s = record s { primary_port_known = false; primary_port_ok = false }
forget power_read s = record s { power = "" }
forget lock_read s = record s { sim_lock = "" }
forget registration_read s = record s { registered = "" }
forget service_read s = record s { service = "" }
forget bearer_read s = record s {
  bearer_known = false;
  bearer_connected = false;
  bearer_connected_known = false;
  suspended = false;
  suspended_known = false;
  interface = "";
  bearer_ip_known = false;
  bearer_ip = "";
  session_known = false;
  attempts = 0;
  duration = 0;
}
forget at_read s = record s { at_checked = false; cgact_active = false; cgpaddr = "" }
forget carrier_read s = record s { carrier_known = false; carrier = false }
forget route_read s = record s { route_known = false; has_route = false }
forget address_read s = record s { netdev_ip = "" }
forget connected_read s = record s { bearer_connected = false; bearer_connected_known = false }
forget suspended_read s = record s { suspended = false; suspended_known = false }
forget ip_read s = record s { bearer_ip_known = false; bearer_ip = "" }
forget stats_read s = record s { session_known = false; attempts = 0; duration = 0 }

unfoldable pub forget_all : List Read → Snapshot → Snapshot
forget_all [] s = s
forget_all (r ∷ rs) s = forget_all rs (forget r s)

-- No layer has a fault.
pub IsSound : Snapshot → Type 0
IsSound s = (l : Layer) → broken l s ≡ false

forget-IsSound : (r : Read) (s : Snapshot) → IsSound s → IsSound (forget r s)
unfolding forget IsSound
forget-IsSound port s h hardware = ground (arith, h hardware)
forget-IsSound _ s h hardware = ground (arith, h hardware)
forget-IsSound port s h sim = ground (arith, h sim)
forget-IsSound _ s h sim = ground (arith, h sim)
forget-IsSound port s h registration = ground (arith, h registration)
forget-IsSound _ s h registration = ground (arith, h registration)
forget-IsSound port s h packet_service = ground (arith, h packet_service)
forget-IsSound _ s h packet_service = ground (arith, h packet_service)
forget-IsSound port s h apn = ground (arith, h apn)
forget-IsSound _ s h apn = ground (arith, h apn)
forget-IsSound port s h bearer = ground (arith, h bearer)
forget-IsSound _ s h bearer = ground (arith, h bearer)
forget-IsSound port s h netdev = ground (arith, h netdev)
forget-IsSound _ s h netdev = ground (arith, h netdev)
forget-IsSound port s h liveness = ground (arith, h liveness)
forget-IsSound _ s h liveness = ground (arith, h liveness)

verdict-none : (o : Option Assessment) → o ≡ none → verdict o ≡ none
verdict-none o h = ground arith

sound_layers :
    (s : Snapshot)
    → check_local s ≡ none
    → (broken hardware s ≡ false)
      × (broken sim s ≡ false)
      × (broken registration s ≡ false)
      × (broken packet_service s ≡ false)
      × (broken bearer s ≡ false)
      × (broken netdev s ≡ false)
sound_layers s e =
    lowest-eq-none (broken hardware s) (broken sim s) (broken registration s)
      (broken packet_service s) (broken bearer s) (broken netdev s)
      (sym (check_local_lowest s) ∙ verdict-none (check_local s) e)

sound_layer : (l : Layer) (s : Snapshot) → check_local s ≡ none → broken l s ≡ false
sound_layer hardware s e = (sound_layers s e).0
sound_layer sim s e = (sound_layers s e).1
sound_layer registration s e = (sound_layers s e).2
sound_layer packet_service s e = (sound_layers s e).3
sound_layer apn s e = refl
sound_layer bearer s e = (sound_layers s e).4
sound_layer netdev s e = (sound_layers s e).5
sound_layer liveness s e = refl

-- The remedy of a local fault is that of its layer.
pub check_local-remedy :
    (s : Snapshot) (a : Assessment) → check_local s ≡ some a → a.remedy ≡ remedy_for a.failed_layer
check_local-remedy s a e =
    lowest-eq-some (broken hardware s) (broken sim s) (broken registration s)
      (broken packet_service s) (broken bearer s) (broken netdev s) a.failed_layer a.remedy
      (sym (check_local_lowest s) ∙ ap verdict e)

IsSound-check_local : (s : Snapshot) → IsSound s ↔ (check_local s ≡ none)
unfolding IsSound
IsSound-check_local s = (
  λ h. ground (
    arith,
    check_local_lowest s,
    h hardware,
    h sim,
    h registration,
    h packet_service,
    h bearer,
    h netdev,
  ),
  λ e l. sound_layer l s e,
)

-- Failed reads never make a healthy snapshot fail: whatever reads are lost, in whatever order,
-- a snapshot in which `checkLocal` finds no fault stays one.
pub check_local-forget_all :
    (rs : List Read) (s : Snapshot) → check_local s ≡ none → check_local (forget_all rs s) ≡ none
unfolding forget_all
check_local-forget_all [] s h = h
check_local-forget_all (r ∷ rs) s h =
    check_local-forget_all rs (forget r s)
      ((IsSound-check_local (forget r s)).0 (forget-IsSound r s ((IsSound-check_local s).1 h)))
