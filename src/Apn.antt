-- ===== src/Apn.antt =====
-- internal/apn/manager.go: what the APN manager works on. A configuration, the attach context of CID1
-- and the settings that ModemManager keeps, a D-Bus dictionary as an association list, with what
-- reads, writes and checks them. `encoding/csv` and `strings.ToUpper` are arguments; an error is
-- `none`, as only its text tells it from another.
pub mod Calls
pub mod Transaction
pub mod Reconcile
pub mod Rules
pub mod Events
pub mod Phases
pub mod Applied
pub mod Cases
pub mod Swap
pub mod Settings
pub mod Verified
pub mod Success
pub mod Attempts
pub mod Rollback
pub mod Undo
pub mod Nmcli
pub mod Shown
pub mod Pending
pub mod Safety
mod Tests
use Prim.Native.String.{◌++◌ as append}
use Prim.Native.Char.{code}
use modem_service.Prelude.{
  ℕ, ◌/◌, ◌%◌, String, Bool, true, false, not, ◌&&◌, ◌||◌, ◌==◌, ltb, if◌then◌else◌, str_eq, Option,
  none, some, List, [], ◌∷◌, length,
}

pub record Config : Type 0 where
  pub apn : String
  pub username : String
  pub password : String
  pub auth : String

unfoldable pub is_empty : Config → Bool
is_empty c =
    str_eq c.apn ""
    && str_eq c.username ""
    && str_eq c.password ""
    && (str_eq c.auth "" || str_eq c.auth "none")

unfoldable pub equal_nm : Config → Config → Bool
equal_nm c o = str_eq c.apn o.apn && str_eq c.username o.username && str_eq c.password o.password

unfoldable pub auth_name : String → String
auth_name a = if str_eq a "" then "none" else a

unfoldable pub equal : Config → Config → Bool
equal c o = equal_nm c o && str_eq (auth_name c.auth) (auth_name o.auth)

-- `Config{}`
abbrev pub no_config : Config
no_config = record { apn = ""; username = ""; password = ""; auth = "" }

pub record AttachContext : Type 0 where
  pub present : Bool
  pub pdp_type : String
  pub apn : String

abbrev pub no_context : AttachContext
no_context = record { present = false; pdp_type = ""; apn = "" }

abbrev pub bool_eq : Bool → Bool → Bool
bool_eq true b = b
bool_eq false b = not b

-- `==` on the struct
unfoldable pub context_eq : AttachContext → AttachContext → Bool
context_eq a b = bool_eq a.present b.present && str_eq a.pdp_type b.pdp_type && str_eq a.apn b.apn

unfoldable pub desired_context : Config → AttachContext
desired_context c = record {
  present = true;
  pdp_type = if str_eq c.apn "" then "IPV4V6" else "IP";
  apn = c.apn;
}

-- Values that end or divide the arguments of an AT command: `"`, CR, LF, a comma and NUL.
abbrev pub is_delimiter : ℕ → Bool
is_delimiter c = (c == 34) || (c == 13) || (c == 10) || (c == 44) || (c == 0)

unfoldable pub valid_at_value : String → Bool
valid_at_value String.[] = true
valid_at_value (String.◌∷◌ c s) = not (is_delimiter (code c)) && valid_at_value s

unfoldable pub valid_auth : String → Bool
valid_auth a = str_eq a "" || str_eq a "none" || str_eq a "pap" || str_eq a "chap"

unfoldable pub valid_config : Config → Bool
valid_config c =
    valid_at_value c.apn
    && valid_at_value c.username
    && valid_at_value c.password
    && valid_auth c.auth

-- A D-Bus variant: a string, a `uint32`, or another type, whose value nothing here reads.
pub data Variant : Type 0 where
  text : String → Variant
  uint : ℕ → Variant
  other : Variant

abbrev pub Settings : Type 0
Settings = List (String × Variant)

unfoldable pub lookup : String → Settings → Option Variant
lookup k [] = none
lookup k ((j, v) ∷ s) = if str_eq j k then some v else lookup k s

-- `v.Value().(string)`, whose zero value stands for a missing key and another type.
abbrev pub as_text : Option Variant → String
as_text none = ""
as_text (some (text s)) = s
as_text (some (uint n)) = ""
as_text (some other) = ""

abbrev pub bearer_auth_none : ℕ
bearer_auth_none = 1

abbrev pub bearer_auth_pap : ℕ
bearer_auth_pap = 2

abbrev pub bearer_auth_chap : ℕ
bearer_auth_chap = 4

abbrev pub bearer_ipv4 : ℕ
bearer_ipv4 = 1

unfoldable pub encode_auth : String → ℕ
encode_auth s =
    if str_eq s "pap"
    then bearer_auth_pap
    else if str_eq s "chap"
    then bearer_auth_chap
    else bearer_auth_none

-- The bits are tested as remainders.
unfoldable pub decode_auth : ℕ → String
decode_auth u =
    if not ((u / bearer_auth_pap) % 2 == 0)
    then "pap"
    else if not ((u / bearer_auth_chap) % 2 == 0)
    then "chap"
    else "none"

abbrev pub as_auth : Option Variant → String
as_auth none = ""
as_auth (some (text s)) = ""
as_auth (some (uint n)) = decode_auth n
as_auth (some other) = ""

unfoldable pub parse_mm_settings : Settings → Config
parse_mm_settings s = record {
  apn = as_text (lookup "apn" s);
  username = as_text (lookup "user" s);
  password = as_text (lookup "password" s);
  auth = as_auth (lookup "allowed-auth" s);
}

unfoldable pub encode_mm_settings : Config → Settings
encode_mm_settings c =
    ("apn", text c.apn)
    ∷ ("user", text c.username)
    ∷ ("password", text c.password)
    ∷ ("allowed-auth", uint (encode_auth c.auth))
    ∷ ("ip-type", uint bearer_ipv4)
    ∷ []

pub record Snapshot : Type 0 where
  pub nm : Config
  pub mm : Settings
  pub cid : AttachContext

pub record ConnectionState : Type 0 where
  pub autoconnect : Bool
  pub active : Bool

pub record PendingRollback : Type 0 where
  pub before : Snapshot
  pub state : ConnectionState
  pub iccid : String

pub record Input : Type 0 where
  pub iccid : String
  pub modem_path : String
  pub desired : Config

-- Times are seconds, and the zero time is 0.
pub record Manager : Type 0 where
  pub pending : Option PendingRollback
  pub last_applied_iccid : String
  pub last_applied_path : String
  pub last_applied_config : Config
  pub last_applied_cid : AttachContext
  pub blocked_iccid : String
  pub blocked_config : Config
  pub retry_input : Input
  pub attempts : ℕ
  pub retry_at : ℕ

unfoldable pub new : Manager
new = record {
  pending = none;
  last_applied_iccid = "";
  last_applied_path = "";
  last_applied_config = no_config;
  last_applied_cid = no_context;
  blocked_iccid = "";
  blocked_config = no_config;
  retry_input = record { iccid = ""; modem_path = ""; desired = no_config };
  attempts = 0;
  retry_at = 0;
}

unfoldable pub reset_retry : Manager → Manager
reset_retry m = record m { attempts = 0; retry_at = 0; last_applied_path = "" }

-- The white space that `strings.TrimSpace` cuts off, as far as it is ASCII.
abbrev pub is_space : ℕ → Bool
is_space c = (c == 32) || ((c == 9) || (c == 10) || (c == 11) || (c == 12) || (c == 13))

unfoldable pub trim_left : String → String
trim_left String.[] = ""
trim_left (String.◌∷◌ c s) = if is_space (code c) then trim_left s else String.◌∷◌ c s

unfoldable pub trim_right : String → String
trim_right String.[] = ""
trim_right (String.◌∷◌ c s) =
    let rest = trim_right s in if is_space (code c) && str_eq rest "" then "" else String.◌∷◌ c rest

unfoldable pub trim_space : String → String
trim_space s = trim_right (trim_left s)

-- What stands behind a prefix.
unfoldable pub after_prefix : String → String → Option String
after_prefix String.[] s = some s
after_prefix (String.◌∷◌ p ps) String.[] = none
after_prefix (String.◌∷◌ p ps) (String.◌∷◌ c s) =
    let rest = after_prefix ps s in if code p == code c then rest else none

abbrev pub cons_first : Bool → String → List String → List String
cons_first true c ls = "" ∷ ls
cons_first false c [] = c ∷ []
cons_first false c (l ∷ ls) = append c l ∷ ls

-- `strings.Split(s, "\n")`
unfoldable pub split_lines : String → List String
split_lines String.[] = "" ∷ []
split_lines (String.◌∷◌ c s) = cons_first (code c == 10) (String.◌∷◌ c String.[]) (split_lines s)

-- `csv.Reader.Read` with `TrimLeadingSpace` on one line, and `strings.ToUpper`.
pub record Library : Type 0 where
  pub csv : String → Option (List String)
  pub to_upper : String → String

abbrev pub supported_pdp : String → Bool
supported_pdp t = str_eq t "IP" || str_eq t "IPV6" || str_eq t "IPV4V6" || str_eq t "PPP"

-- A line's record, with what the lines before it gave.
unfoldable pub parse_record : Library → AttachContext → Option (List String) → Option AttachContext
parse_record l result none = none
parse_record l result (some []) = none
parse_record l result (some (i ∷ [])) = none
parse_record l result (some (i ∷ t ∷ [])) = none
parse_record l result (some (i ∷ t ∷ a ∷ rest)) =
    if not (str_eq (trim_space i) "1")
    then some result
    else if result.present
    then none
    else if not (valid_at_value a)
    then none
    else if supported_pdp (l.to_upper t)
    then some (record { present = true; pdp_type = l.to_upper t; apn = a })
    else none

unfoldable pub parse_line : Library → AttachContext → String → Option AttachContext
parse_line l result line = elim (after_prefix "+CGDCONT:" (trim_space line)) [
  | none ↦ some result
  | some rest ↦ parse_record l result (l.csv (trim_space rest))
]

unfoldable pub parse_lines : Library → AttachContext → List String → Option AttachContext
parse_lines l result [] = some result
parse_lines l result (line ∷ lines) = elim (parse_line l result line) [
  | none ↦ none
  | some next ↦ parse_lines l next lines
]

unfoldable pub parse_cid1 : Library → String → Option AttachContext
parse_cid1 l response = parse_lines l no_context (split_lines response)
