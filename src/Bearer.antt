-- ===== src/Bearer.antt =====
-- internal/mm/bearer.go: the bearers of a modem. A D-Bus variant is a number of one of the widths, a
-- string, or something else, a dictionary a function from its keys, and a property that cannot be
-- read, or is of another type, is `none`.
pub mod Selection
mod Tests
use modem_service.Prelude.{
  ℕ, ◌+◌, ◌^◌, ◌%◌, String, Bool, true, false, not, ◌&&◌, ◌||◌, if◌then◌else◌, str_eq, Option, none,
  some, List, [], ◌∷◌, ◌++◌,
}
use modem_service.Mm.{ℤ, pos, negsuc}

pub data Variant : Type 0 where
  uint64 uint32 uint16 : ℕ → Variant
  int64 int32 : ℤ → Variant
  text : String → Variant
  other : Variant

abbrev pub Dictionary : Type 0
Dictionary = String → Option Variant

abbrev pub natural : ℤ → Option ℕ
natural (pos n) = some n
natural (negsuc n) = none

unfoldable pub variant_uint_ok : Option Variant → Option ℕ
variant_uint_ok (some (uint64 n)) = some n
variant_uint_ok (some (uint32 n)) = some n
variant_uint_ok (some (uint16 n)) = some n
variant_uint_ok (some (int64 z)) = natural z
variant_uint_ok (some (int32 z)) = natural z
variant_uint_ok _ = none

abbrev pub or_zero : Option ℕ → ℕ
or_zero none = 0
or_zero (some n) = n

unfoldable pub variant_uint : Option Variant → ℕ
variant_uint v = or_zero (variant_uint_ok v)

abbrev pub variant_string : Option Variant → String
variant_string (some (text s)) = s
variant_string _ = ""

abbrev pub is_some : Option ℕ → Bool
is_some none = false
is_some (some n) = true

pub record Ip4Config : Type 0 where
  pub address : String
  pub prefix : ℕ
  pub gateway : String
  pub dns : List String
  pub mtu : ℕ

abbrev pub filled_one : String → List String
filled_one s = if str_eq s "" then [] else s ∷ []

unfoldable pub parse_ip4_config : Dictionary → Ip4Config
parse_ip4_config m = record {
  address = variant_string (m "address");
  prefix = variant_uint (m "prefix") % 2 ^ 32;
  gateway = variant_string (m "gateway");
  dns =
      filled_one (variant_string (m "dns1"))
      ++ (filled_one (variant_string (m "dns2")) ++ filled_one (variant_string (m "dns3")));
  mtu = variant_uint (m "mtu") % 2 ^ 32;
}

pub record BearerStats : Type 0 where
  pub rx_bytes : ℕ
  pub tx_bytes : ℕ
  pub total_rx_bytes : ℕ
  pub total_tx_bytes : ℕ
  pub have_totals : Bool
  pub duration : ℕ
  pub attempts : ℕ

abbrev pub no_stats : BearerStats
no_stats = record {
  rx_bytes = 0;
  tx_bytes = 0;
  total_rx_bytes = 0;
  total_tx_bytes = 0;
  have_totals = false;
  duration = 0;
  attempts = 0;
}

abbrev pub present : Option Variant → Bool
present none = false
present (some v) = true

unfoldable pub bearer_stats_known : Dictionary → Bool
bearer_stats_known m =
    (is_some (variant_uint_ok (m "rx-bytes")) && is_some (variant_uint_ok (m "tx-bytes")))
    || (is_some (variant_uint_ok (m "total-rx-bytes"))
        && is_some (variant_uint_ok (m "total-tx-bytes")))

unfoldable pub parse_bearer_stats : Dictionary → BearerStats
parse_bearer_stats m =
    let totals = present (m "total-rx-bytes") && present (m "total-tx-bytes") in
    record {
      rx_bytes = variant_uint (m "rx-bytes");
      tx_bytes = variant_uint (m "tx-bytes");
      total_rx_bytes = if totals then variant_uint (m "total-rx-bytes") else 0;
      total_tx_bytes = if totals then variant_uint (m "total-tx-bytes") else 0;
      have_totals = totals;
      duration = variant_uint (m "duration");
      attempts = variant_uint (m "attempts") % 2 ^ 32;
    }

-- What `GetProperty` reads of a bearer.
pub record Properties : Type 0 where
  pub connected : Option Bool
  pub suspended : Option Bool
  pub interface : Option String
  pub ip4 : Option Dictionary
  pub stats : Option Dictionary

pub record BearerInfo : Type 0 where
  pub path : String
  pub connected : Bool
  pub connected_known : Bool
  pub suspended : Bool
  pub suspended_known : Bool
  pub interface : String
  pub interface_known : Bool
  pub ip4 : Ip4Config
  pub ip4_known : Bool
  pub stats : BearerStats
  pub stats_known : Bool
  pub session_stats_known : Bool

abbrev pub read_bool : Option Bool → Bool × Bool
read_bool none = (false, false)
read_bool (some b) = (b, true)

abbrev pub read_string : Option String → String × Bool
read_string none = ("", false)
read_string (some s) = (s, true)

abbrev pub read_ip4 : Option Dictionary → Ip4Config × Bool
read_ip4 none = (record { address = ""; prefix = 0; gateway = ""; dns = []; mtu = 0 }, false)
read_ip4 (some m) = (parse_ip4_config m, true)

-- The statistics, whether they are known, and whether those of the session are.
abbrev pub read_stats : Option Dictionary → BearerStats × Bool × Bool
read_stats none = (no_stats, false, false)
read_stats (some m) = (
  parse_bearer_stats m,
  bearer_stats_known m,
  is_some (variant_uint_ok (m "attempts")) && is_some (variant_uint_ok (m "duration")),
)

unfoldable pub get_bearer_info : String → Properties → BearerInfo
get_bearer_info path p = record {
  path = path;
  connected = (read_bool p.connected).0;
  connected_known = (read_bool p.connected).1;
  suspended = (read_bool p.suspended).0;
  suspended_known = (read_bool p.suspended).1;
  interface = (read_string p.interface).0;
  interface_known = (read_string p.interface).1;
  ip4 = (read_ip4 p.ip4).0;
  ip4_known = (read_ip4 p.ip4).1;
  stats = (read_stats p.stats).0;
  stats_known = (read_stats p.stats).1;
  session_stats_known = (read_stats p.stats).2;
}

unfoldable pub select_data_bearer : List BearerInfo → Option BearerInfo
select_data_bearer [] = none
select_data_bearer (i ∷ is) = if str_eq i.interface "" then select_data_bearer is else some i

pub data Error : Type 0 where
  list_failed observation_unavailable no_data_bearer : Error

pub data Result : Type 0 where
  found : BearerInfo → Result
  failed : Error → Result

abbrev pub infos : List (String × Properties) → List BearerInfo
infos [] = []
infos ((path, p) ∷ ps) = get_bearer_info path p ∷ infos ps

abbrev pub complete : List BearerInfo → Bool
complete [] = true
complete (i ∷ is) = i.interface_known && complete is

abbrev pub selected : Option BearerInfo → Bool → Result
selected (some i) c = found i
selected none true = failed no_data_bearer
selected none false = failed observation_unavailable

-- `DataBearer`; `none` where `ListBearers` fails. `GetBearerInfo` returns no error.
unfoldable pub data_bearer : Option (List (String × Properties)) → Result
data_bearer none = failed list_failed
data_bearer (some ps) = selected (select_data_bearer (infos ps)) (complete (infos ps))
