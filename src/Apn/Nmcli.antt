-- ===== src/Apn/Nmcli.antt =====
-- internal/apn/nm.go: the commands of nmcli and what is read from their output. What a command prints,
-- or `none` for one that fails, is an argument, as a timeout of the command is.
use Prim.Native.Char.{Char, code}
use modem_service.Prelude.{
  contains, not, String, Bool, true, false, ◌&&◌, ◌||◌, ◌==◌, if◌then◌else◌, str_eq, Option, none,
  some, List, [], ◌∷◌,
}
use modem_service.Apn.{Config, ConnectionState, no_config, trim_space, split_lines}

-- The lists of arguments.
unfoldable pub get_gsm_args : String → List String
get_gsm_args connection =
    "--show-secrets" ∷ "-t" ∷ "-e" ∷ "no" ∷ "-f" ∷ "gsm.apn,gsm.username,gsm.password"
    ∷ "connection" ∷ "show" ∷ connection ∷ []

unfoldable pub set_gsm_args : String → Config → List String
set_gsm_args connection c =
    "connection" ∷ "modify" ∷ "--temporary" ∷ connection ∷ "gsm.apn" ∷ c.apn ∷ "gsm.username"
    ∷ c.username ∷ "gsm.password" ∷ c.password ∷ "gsm.password-flags" ∷ "0" ∷ []

abbrev pub yes_no : Bool → String
yes_no b = if b then "yes" else "no"

unfoldable pub set_autoconnect_args : String → Bool → List String
set_autoconnect_args connection enabled =
    "connection"
    ∷ "modify"
    ∷ "--temporary"
    ∷ connection
    ∷ "connection.autoconnect"
    ∷ yes_no enabled
    ∷ []

unfoldable pub commit_args : String → Bool → List String
commit_args connection autoconnect =
    "connection" ∷ "modify" ∷ connection ∷ "connection.autoconnect" ∷ yes_no autoconnect ∷ []

unfoldable pub autoconnect_args : String → List String
autoconnect_args connection =
    "-g" ∷ "connection.autoconnect" ∷ "connection" ∷ "show" ∷ connection ∷ []

unfoldable pub state_args : String → List String
state_args connection = "-g" ∷ "GENERAL.STATE" ∷ "connection" ∷ "show" ∷ connection ∷ []

unfoldable pub disconnect_args : String → List String
disconnect_args connection = "connection" ∷ "down" ∷ connection ∷ []

unfoldable pub connect_args : String → List String
connect_args connection = "--wait" ∷ "55" ∷ "connection" ∷ "up" ∷ connection ∷ []

abbrev pub cut_first : Bool → Char → String → Option (String × String) → Option (String × String)
cut_first true c s rest = some ("", s)
cut_first false c s none = none
cut_first false c s (some (key, value)) = some (String.◌∷◌ c key, value)

-- `strings.Cut(line, ":")`
unfoldable pub cut : String → Option (String × String)
cut String.[] = none
cut (String.◌∷◌ c s) = cut_first (code c == 58) c s (cut s)

-- An unset value is printed as two dashes.
abbrev pub value_of : String → String
value_of s = if str_eq s "--" then "" else s

unfoldable pub read_line : Config → Option (String × String) → Config
read_line c none = c
read_line c (some (key, value)) =
    if str_eq key "gsm.apn"
    then record c { apn = value_of value }
    else if str_eq key "gsm.username"
    then record c { username = value_of value }
    else if str_eq key "gsm.password"
    then record c { password = value_of value }
    else c

unfoldable pub read_lines : Config → List String → Config
read_lines c [] = c
read_lines c (l ∷ ls) = read_lines (read_line c (cut l)) ls

abbrev pub only_newlines : String → Bool
only_newlines String.[] = true
only_newlines (String.◌∷◌ c s) = (code c == 10) && only_newlines s

-- `strings.TrimRight(s, "\n")`
unfoldable pub trim_newlines : String → String
trim_newlines String.[] = ""
trim_newlines (String.◌∷◌ c s) =
    let rest = trim_newlines s in
    if (code c == 10) && only_newlines s then "" else String.◌∷◌ c rest

unfoldable pub read_gsm : Option String → Option Config
read_gsm none = none
read_gsm (some out) = some (read_lines no_config (split_lines (trim_newlines out)))

unfoldable pub read_autoconnect : String → Option Bool
read_autoconnect out =
    let s = trim_space out in
    if str_eq s "yes" then some true else if str_eq s "no" then some false else none

unfoldable pub read_active : String → Option Bool
read_active out =
    let s = trim_space out in
    if str_eq s "activated" || str_eq s "activating" || str_eq s "deactivating"
    then some true
    else if str_eq s "" || str_eq s "--" || str_eq s "deactivated" || str_eq s "unknown"
    then some false
    else none

-- The outputs of the two commands of `State`.
unfoldable pub read_state : Option String → Option String → Option ConnectionState
read_state none active = none
read_state (some out) active = elim (read_autoconnect out) [
  | none ↦ none
  | some b ↦ elim active [
    | none ↦ none
    | some out' ↦ elim (read_active out') [
      | none ↦ none
      | some a ↦ some (record { autoconnect = b; active = a })
    ]
  ]
]

-- Whether `Disconnect` succeeds, from how its command ended, with what it printed: a connection that
-- is not active counts as disconnected, unless the operation has ended.
unfoldable pub disconnect_succeeds : (ended accepted : Bool) → String → Bool
disconnect_succeeds ended accepted out =
    accepted || (not ended && contains out "is not an active connection")
