-- ===== src/Apn/Settings.antt =====
-- The settings that ModemManager keeps for a configuration (internal/apn/manager.go).
use text.Mathlib.TextPositions.{eq_refl}
use modem_service.Prelude.{
  String, true, ◌≡◌, ◌⊎◌, inl, inr, refl, subst, sym, str_eq, eq_iff, arith,
}
use modem_service.Apn.{
  Config, equal, equal_nm, auth_name, valid_auth, lookup, encode_auth, decode_auth,
  parse_mm_settings, encode_mm_settings,
}

valid_auth_cases :
    (a : String) → valid_auth a ≡ true → (a ≡ "") ⊎ (a ≡ "none") ⊎ (a ≡ "pap") ⊎ (a ≡ "chap")
unfolding valid_auth
valid_auth_cases a v = ground (arith, eq_iff a "", eq_iff a "none", eq_iff a "pap", eq_iff a "chap")

abbrev pub IsSameAuth : String → Type 0
IsSameAuth a = str_eq (auth_name (decode_auth (encode_auth a))) (auth_name a) ≡ true

decode_auth-encode_auth : (a : String) → valid_auth a ≡ true → IsSameAuth a
unfolding auth_name decode_auth encode_auth
decode_auth-encode_auth a v = elim (valid_auth_cases a v) [
  | inl e ↦ subst IsSameAuth (sym e) refl
  | inr (inl e) ↦ subst IsSameAuth (sym e) refl
  | inr (inr (inl e)) ↦ subst IsSameAuth (sym e) refl
  | inr (inr (inr e)) ↦ subst IsSameAuth (sym e) refl
]

-- The settings that a configuration with a supported authentication is written as are read as an
-- equal configuration.
pub parse_mm_settings-encode_mm_settings :
    (c : Config)
    → valid_auth c.auth ≡ true
    → equal (parse_mm_settings (encode_mm_settings c)) c ≡ true
unfolding equal equal_nm parse_mm_settings encode_mm_settings lookup
parse_mm_settings-encode_mm_settings c v =
    rw (eq_refl c.apn, eq_refl c.username, eq_refl c.password, decode_auth-encode_auth c.auth v)
      refl
