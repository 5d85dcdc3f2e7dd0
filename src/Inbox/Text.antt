-- ===== src/Inbox/Text.antt =====
-- internal/sms/forward.go: the text of a forwarded message and its length in messages of the network.
-- `valid` is what the phone number library answers in `ValidForwardDestination`, and `timestamp` is the
-- time of the message as RFC 3339 writes it.
use Prim.Native.Char.{code}
use Prim.Native.String.{◌++◌ as append}
use modem_service.Prelude.{
  contains, ℕ, ◌+◌, ◌-◌, ◌/◌, String, Bool, true, false, not, ◌&&◌, ◌||◌, ◌==◌, ltb, leb,
  if◌then◌else◌, str_eq, Option, none, some,
}

abbrev pub forward_marker : String
forward_marker = "[Librescoot SMS]"

unfoldable pub contains_rune : String → ℕ → Bool
contains_rune String.[] r = false
contains_rune (String.◌∷◌ c s) r = (code c == r) || contains_rune s r

-- The line feed and the carriage return of the source's constant stand at the end.
abbrev pub basic : String
basic =
    "@£$¥èéùìòÇØøÅåΔ_ΦΓΛΩΠΨΣΘΞÆæßÉ !#¤%&'()*+,-./0123456789:;<=>?¡ABCDEFGHIJKLMNOPQRSTUVWXYZÄÖÑÜ§¿abcdefghijklmnopqrstuvwxyzäöñüà"

abbrev pub is_basic : ℕ → Bool
is_basic r = contains_rune basic r || (r == 10) || (r == 13) || (r == 34)

abbrev pub is_extension : ℕ → Bool
is_extension r = contains_rune "^{}[~]|€" r || (r == 12) || (r == 92)

-- Whether every character has a place in the GSM alphabet.
unfoldable pub is_gsm : String → Bool
is_gsm String.[] = true
is_gsm (String.◌∷◌ c s) = (is_basic (code c) || is_extension (code c)) && is_gsm s

unfoldable pub septets_of : ℕ → ℕ
septets_of r = if is_basic r then 1 else if is_extension r then 2 else 0

unfoldable pub septets : String → ℕ
septets String.[] = 0
septets (String.◌∷◌ c s) = septets_of (code c) + septets s

-- The length of `utf16.Encode`: a character beyond the basic plane takes two units.
unfoldable pub utf16_length : String → ℕ
utf16_length String.[] = 0
utf16_length (String.◌∷◌ c s) = (if ltb (code c) 65536 then 1 else 2) + utf16_length s

unfoldable pub parts : (units single multi : ℕ) → ℕ
parts units single multi = if leb units single then 1 else (units + (multi - 1)) / multi

unfoldable pub sms_segments : String → ℕ
sms_segments text =
    if is_gsm text then parts (septets text) 160 153 else parts (utf16_length text) 70 67

pub record Incoming : Type 0 where
  pub number : String
  pub text : String
  pub timestamp : String

unfoldable pub forward_body : Incoming → String
forward_body m =
    append forward_marker
      (append " From: " (append m.number (append "\n" (append m.timestamp (append "\n" m.text)))))

-- The body and its segments, or `none` if the message is not to be forwarded.
unfoldable pub forward_text : (valid : Bool) → Incoming → String → Option (String × ℕ)
forward_text valid m destination =
    if not valid
      || str_eq destination "off"
      || str_eq m.number destination
      || contains m.text forward_marker
    then none
    else let segments = sms_segments (forward_body m) in
      if ltb 10 segments then none else some (forward_body m, segments)
