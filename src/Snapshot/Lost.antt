-- ===== src/Snapshot/Lost.antt =====
-- Answers that are lost on the way to the link assessor (internal/modem/snapshot.go,
-- internal/modem/link/link.go). An answer is one that the source asks for by itself: a property of the
-- modem, the list of the bearers, one of the properties of a bearer, a reply to a command, a file.
use modem_service.Prelude.{
  ℕ, zero, suc, String, Bool, Option, none, some, List, [], ◌∷◌, ◌≡◌, ◌⊎◌, inl, inr, refl, ap, ◌∙◌,
  str_eq, Bool-cases, Option-cases,
}
use modem_service.Link.{check_local}
use modem_service.Link
use modem_service.Link.Local.{
  Read, port, power_read, lock_read, registration_read, service_read, bearer_read, at_read,
  carrier_read, route_read, address_read, connected_read, suspended_read, ip_read, stats_read,
  forget, forget_all, check_local-forget_all,
}
use modem_service.Bearer.{
  Properties, BearerInfo, get_bearer_info, infos, select_data_bearer, complete, selected, found,
  data_bearer,
}
use modem_service.Apn.{trim_space, trim_left, trim_right}
use modem_service.Snapshot.{Reads, snapshot_with, link_snapshot, normalize_addr}

-- The properties of a bearer but its interface, which `selectDataBearer` chooses by.
pub data Property : Type 0 where
  connected_property suspended_property ip4_property stats_property : Property

-- `contexts` is the reply to `AT+CGACT?`, and `addresses` that to `AT+CGPADDR=1`.
pub data Loss : Type 0 where
  port_lost power_lost lock_lost registration_lost service_lost bearers_lost contexts_lost : Loss
  addresses_lost carrier_lost routes_lost if_addr_lost : Loss
  property_lost : ℕ → Property → Loss

unfoldable pub lose_property : Property → Properties → Properties
lose_property connected_property p = record p { connected = none }
lose_property suspended_property p = record p { suspended = none }
lose_property ip4_property p = record p { ip4 = none }
lose_property stats_property p = record p { stats = none }

-- A property of the bearer with a number, where there is one.
abbrev pub lose_at : ℕ → Property → List (String × Properties) → List (String × Properties)
lose_at n x [] = []
lose_at zero x ((path, p) ∷ ps) = (path, lose_property x p) ∷ ps
lose_at (suc n) x (b ∷ ps) = b ∷ lose_at n x ps

abbrev pub lose_of :
    ℕ → Property → Option (List (String × Properties)) → Option (List (String × Properties))
lose_of n x none = none
lose_of n x (some ps) = some (lose_at n x ps)

-- The answers, had one of them failed.
unfoldable pub lose : Loss → Reads → Reads
lose port_lost r = record r { primary_port = none }
lose power_lost r = record r { power_state = none }
lose lock_lost r = record r { sim_lock = none }
lose registration_lost r = record r { registered = none }
lose service_lost r = record r { service_state = none }
lose bearers_lost r = record r { bearers = none }
lose contexts_lost r = record r { cgact = none }
lose addresses_lost r = record r { cgpaddr = none }
lose carrier_lost r = record r { carrier = none }
lose routes_lost r = record r { routes = none }
lose if_addr_lost r = record r { if_addr = none }
lose (property_lost n x) r = record r { bearers = lose_of n x r.bearers }

unfoldable pub lose_all : List Loss → Reads → Reads
lose_all [] r = r
lose_all (x ∷ xs) r = lose_all xs (lose x r)

-- What the snapshot lacks without a property of the bearer that it shows.
abbrev read_of : Property → Read
read_of connected_property = connected_read
read_of suspended_property = suspended_read
read_of ip4_property = ip_read
read_of stats_property = stats_read

same_interface :
    (x : Property) (path : String) (p : Properties)
    → ((get_bearer_info path (lose_property x p)).interface ≡ (get_bearer_info path p).interface)
      × ((get_bearer_info path (lose_property x p)).interface_known
          ≡ (get_bearer_info path p).interface_known)
unfolding get_bearer_info lose_property
same_interface connected_property path p = (refl, refl)
same_interface suspended_property path p = (refl, refl)
same_interface ip4_property path p = (refl, refl)
same_interface stats_property path p = (refl, refl)

complete-lose :
    (n : ℕ) (x : Property) (ps : List (String × Properties))
    → complete (infos (lose_at n x ps)) ≡ complete (infos ps)
complete-lose n x [] = refl
complete-lose zero x ((path, p) ∷ ps) = rw (same_interface x path p).1 refl
complete-lose (suc n) x ((path, p) ∷ ps) = rw (complete-lose n x ps) refl

-- The bearer is the same, or it is the one that has lost the property.
Chosen : Property → Option BearerInfo → Option BearerInfo → Type 0
Chosen x o o' =
    (o' ≡ o)
    ⊎ ((path : String) × (p : Properties) × (o ≡ some (get_bearer_info path p))
        × (o' ≡ some (get_bearer_info path (lose_property x p))))

select-lose :
    (n : ℕ) (x : Property) (ps : List (String × Properties))
    → Chosen x (select_data_bearer (infos ps)) (select_data_bearer (infos (lose_at n x ps)))
unfolding select_data_bearer Chosen
select-lose n x [] = inl refl
select-lose zero x ((path, p) ∷ ps) =
    let e = (same_interface x path p).0 in
    elim (Bool-cases (str_eq (get_bearer_info path p).interface "")) [
      | inl k ↦ rw (ap (λ t. str_eq t "") e ∙ k, k) (inl refl)
      | inr k ↦ rw (ap (λ t. str_eq t "") e ∙ k, k) (inr (path, p, refl, refl))
    ]
select-lose (suc n) x ((path, p) ∷ ps) =
    elim (Bool-cases (str_eq (get_bearer_info path p).interface "")) [
      | inl k ↦ rw k (select-lose n x ps)
      | inr k ↦ rw k (inl refl)
    ]

snapshot-lose_property :
    (with_at : Bool) (iface : String) (r : Reads) (x : Property) (path : String) (p : Properties)
    → snapshot_with with_at iface r (found (get_bearer_info path (lose_property x p)))
      ≡ forget (read_of x) (snapshot_with with_at iface r (found (get_bearer_info path p)))
unfolding snapshot_with get_bearer_info lose_property forget normalize_addr trim_space trim_left
    trim_right
snapshot-lose_property with_at iface r connected_property path p = refl
snapshot-lose_property with_at iface r suspended_property path p = refl
snapshot-lose_property with_at iface r ip4_property path p = refl
snapshot-lose_property with_at iface r stats_property path p = refl

-- A snapshot that is the same, or lacks a read.
Lacks : Link.Snapshot → Link.Snapshot → Type 0
Lacks s s' = (s' ≡ s) ⊎ ((y : Read) × (s' ≡ forget y s))

Lacks-property :
    (with_at : Bool) (iface : String) (r : Reads) (x : Property) (c : Bool)
    (o o' : Option BearerInfo)
    → Chosen x o o'
    → Lacks
        (snapshot_with with_at iface r (selected o c))
        (snapshot_with with_at iface r (selected o' c))
unfolding Chosen Lacks
Lacks-property with_at iface r x c o o' (inl e) = rw e (inl refl)
Lacks-property with_at iface r x c o o' (inr (path, p, e, e')) =
    rw (e, e') (inr (read_of x, snapshot-lose_property with_at iface r x path p))

link_snapshot-lose_at :
    (with_at : Bool) (iface : String) (n : ℕ) (x : Property) (r : Reads)
    (b : Option (List (String × Properties)))
    → Lacks
        (snapshot_with with_at iface r (data_bearer b))
        (snapshot_with with_at iface r (data_bearer (lose_of n x b)))
unfolding Lacks data_bearer
link_snapshot-lose_at with_at iface n x r none = inl refl
link_snapshot-lose_at with_at iface n x r (some ps) =
    rw (complete-lose n x ps)
      (Lacks-property with_at iface r x (complete (infos ps)) _ _ (select-lose n x ps))

link_snapshot-lose :
    (with_at : Bool) (iface : String) (x : Loss) (r : Reads)
    → Lacks (link_snapshot with_at iface r) (link_snapshot with_at iface (lose x r))
unfolding Lacks link_snapshot snapshot_with lose forget data_bearer
link_snapshot-lose with_at iface port_lost r = inr (port, refl)
link_snapshot-lose with_at iface power_lost r = inr (power_read, refl)
link_snapshot-lose with_at iface lock_lost r = inr (lock_read, refl)
link_snapshot-lose with_at iface registration_lost r = inr (registration_read, refl)
link_snapshot-lose with_at iface service_lost r = inr (service_read, refl)
link_snapshot-lose with_at iface bearers_lost r = inr (bearer_read, refl)
link_snapshot-lose with_at iface contexts_lost r = inr (at_read, refl)
link_snapshot-lose with_at iface addresses_lost r = elim (Option-cases r.cgact) [
  | inl e ↦ inr (at_read, rw e refl)
  | inr (a, e) ↦ inr (at_read, rw e refl)
]
link_snapshot-lose with_at iface carrier_lost r = inr (carrier_read, refl)
link_snapshot-lose with_at iface routes_lost r = inr (route_read, refl)
link_snapshot-lose with_at iface if_addr_lost r = inr (address_read, refl)
link_snapshot-lose with_at iface (property_lost n x) r =
    link_snapshot-lose_at with_at iface n x r r.bearers

Lacks-check_local :
    (s s' : Link.Snapshot) → Lacks s s' → check_local s ≡ none → check_local s' ≡ none
unfolding Lacks forget_all
Lacks-check_local s s' (inl e) h = ap check_local e ∙ h
Lacks-check_local s s' (inr (y, e)) h = ap check_local e ∙ check_local-forget_all (y ∷ []) s h

-- Where the snapshot of some answers, with a modem that is found, passes the local checks, so does
-- that of the same answers of which any have failed: the properties of the modem, the fields of the
-- state that was read before, the list of the bearers, the properties of each bearer but its
-- interface, the replies to the two commands, the carrier and the routes.
pub lost_answers_pass :
    (with_at : Bool) (iface : String) (xs : List Loss) (r : Reads)
    → check_local (link_snapshot with_at iface r) ≡ none
    → check_local (link_snapshot with_at iface (lose_all xs r)) ≡ none
unfolding lose_all
lost_answers_pass with_at iface [] r h = h
lost_answers_pass with_at iface (x ∷ xs) r h =
    lost_answers_pass with_at iface xs (lose x r)
      (Lacks-check_local _ _ (link_snapshot-lose with_at iface x r) h)
