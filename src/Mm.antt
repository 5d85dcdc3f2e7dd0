-- ===== src/Mm.antt =====
-- internal/mm/types.go: what the numbers of ModemManager are called. A `uint32` is a number, an
-- `int32` an integer.
pub mod Checks
mod Tests
use modem_service.Prelude.{
  ℕ, ◌/◌, ◌%◌, ◌^◌, String, Bool, true, false, not, ◌||◌, ◌==◌, if◌then◌else◌, str_eq, Option, none,
  some,
}

pub data ℤ : Type 0 where
  pos negsuc : ℕ → ℤ

abbrev pub eqℤ : ℤ → ℤ → Bool
eqℤ (pos m) (pos n) = m == n
eqℤ (negsuc m) (negsuc n) = m == n
eqℤ _ _ = false

unfoldable pub modem_state_to_string : ℤ → String
modem_state_to_string s =
    if eqℤ s (negsuc 0)
    then "failed"
    else if eqℤ s (pos 0)
    then "unknown"
    else if eqℤ s (pos 1)
    then "initializing"
    else if eqℤ s (pos 2)
    then "locked"
    else if eqℤ s (pos 3)
    then "disabled"
    else if eqℤ s (pos 4)
    then "disabling"
    else if eqℤ s (pos 5)
    then "enabling"
    else if eqℤ s (pos 6)
    then "enabled"
    else if eqℤ s (pos 7)
    then "searching"
    else if eqℤ s (pos 8)
    then "registered"
    else if eqℤ s (pos 9)
    then "disconnecting"
    else if eqℤ s (pos 10)
    then "connecting"
    else if eqℤ s (pos 11)
    then "connected"
    else "unknown"

unfoldable pub power_state_to_string : ℤ → String
power_state_to_string s =
    if eqℤ s (pos 1)
    then "off"
    else if eqℤ s (pos 2)
    then "low-power"
    else if eqℤ s (pos 3)
    then "on"
    else "unknown"

unfoldable pub registration_state_to_string : ℕ → String
registration_state_to_string s =
    if s == 0
    then "idle"
    else if s == 1
    then "home"
    else if s == 2
    then "searching"
    else if s == 3
    then "denied"
    else if s == 4
    then "unknown"
    else if s == 5
    then "roaming"
    else "unknown"

-- `tech & (1 << k) != 0`
abbrev pub has_bit : ℕ → ℕ → Bool
has_bit tech k = not ((tech / 2 ^ k) % 2 == 0)

unfoldable pub access_technology_to_string : ℕ → String
access_technology_to_string tech =
    if tech == 0
    then "UNKNOWN"
    else if has_bit tech 15
    then "5G"
    else if has_bit tech 14
    then "4G"
    else if has_bit tech 9
    then "HSPA+"
    else if has_bit tech 8
    then "HSPA"
    else if has_bit tech 6 || has_bit tech 7
    then "3G"
    else if has_bit tech 5
    then "UMTS"
    else if has_bit tech 4 || has_bit tech 3
    then "EDGE"
    else if has_bit tech 1
    then "GSM"
    else "UNKNOWN"

unfoldable pub lock_reason_to_string : ℕ → String
lock_reason_to_string n =
    if n == 1
    then "none"
    else if n == 2
    then "sim-pin"
    else if n == 3
    then "sim-pin2"
    else if n == 4
    then "sim-puk"
    else if n == 5
    then "sim-puk2"
    else if n == 6
    then "ph-sim-pin"
    else if n == 7
    then "ph-fsim-pin"
    else if n == 9
    then "ph-net-pin"
    else if n == 11
    then "ph-sp-pin"
    else if n == 13
    then "ph-corp-pin"
    else "unknown"

unfoldable pub sms_state_to_string : ℕ → String
sms_state_to_string s =
    if s == 1
    then "stored"
    else if s == 2
    then "receiving"
    else if s == 3
    then "received"
    else if s == 4
    then "sending"
    else if s == 5
    then "sent"
    else "unknown"

unfoldable pub sms_pdu_type_is_incoming : ℕ → Bool
sms_pdu_type_is_incoming t = t == 1

unfoldable pub sms_pdu_type_to_string : ℕ → String
sms_pdu_type_to_string t =
    if t == 1
    then "deliver"
    else if t == 2
    then "submit"
    else if t == 3
    then "status-report"
    else "unknown"

-- `packetServiceString` of internal/modem/snapshot.go, for a variant that holds an `int32` or, as a
-- number, a `uint32`.
unfoldable pub packet_service_string : ℤ → String
packet_service_string (negsuc n) = ""
packet_service_string (pos n) = if n == 1 then "detached" else if n == 2 then "attached" else ""

-- The SIM lock in `GetModemInfo` of internal/modem/modem.go, from the `UnlockRequired` that is read, or
-- `none`: the status, and whether it is known.
unfoldable pub observe_lock : Option ℕ → String × Bool
observe_lock none = ("", false)
observe_lock (some n) =
    let s = lock_reason_to_string n in
    if str_eq s "unknown" then ("", false) else if str_eq s "none" then ("", true) else (s, true)
