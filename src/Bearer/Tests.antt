-- ===== src/Bearer/Tests.antt =====
-- Bearers at fixed properties (internal/mm/bearer.go).
use modem_service.Prelude.{◌≡◌, ◌↔◌, refl, [], ◌∷◌, some, none, true, All}
use modem_service.Mm.{negsuc}
use modem_service.Bearer.{
  Properties, uint32, int64, failed, no_data_bearer, data_bearer, variant_uint, variant_uint_ok,
}
use modem_service.Bearer.Selection.{Bare, data_bearer_none_iff}

-- The attach bearer, which has no interface.
abbrev attach : Properties
attach = record {
  connected = some true;
  suspended = none;
  interface = some "";
  ip4 = none;
  stats = none;
}

abbrev unread : Properties
unread = record attach { interface = none }

data_bearer_none_iff_example :
    (data_bearer (some (("/b/0", attach) ∷ ("/b/1", unread) ∷ [])) ≡ failed no_data_bearer)
    ↔ All Bare (("/b/0", attach) ∷ ("/b/1", unread) ∷ [])
data_bearer_none_iff_example = data_bearer_none_iff (("/b/0", attach) ∷ ("/b/1", unread) ∷ [])

numbers : (variant_uint (some (uint32 7)) ≡ 7) × (variant_uint_ok (some (int64 (negsuc 0))) ≡ none)
unfolding variant_uint variant_uint_ok
numbers = (refl, refl)
