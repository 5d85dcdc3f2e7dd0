-- ===== src/Dns/Tests.antt =====
-- DNS messages at fixed bytes (internal/health/probe.go).
use modem_service.Prelude.{ℕ, ◌+◌, ◌≤◌, ◌<◌, ◌≡◌, ◌≢◌, refl, List, [], ◌∷◌, ◌++◌, length}
use modem_service.Dns.{
  build_dns_query_type, encode_labels, skip_dns_name, skip_from, skip_byte, at, failed, out_of_fuel,
  truncated_label, header, be16,
}
use modem_service.Dns.Names.{skip_dns_name_bounds, skip-build}

-- The name "ab.c", which is cut short in its second label.
abbrev cut : List ℕ
cut = 2 ∷ 97 ∷ 98 ∷ 4 ∷ 99 ∷ []

skip_dns_name_bounds_example :
    (skip_dns_name cut 0 ≢ failed out_of_fuel)
    × ((end : ℕ) → skip_dns_name cut 0 ≡ at end → (0 < end) × (end ≤ length cut))
skip_dns_name_bounds_example = skip_dns_name_bounds cut 0

cut_fails : skip_dns_name cut 0 ≡ failed truncated_label
unfolding skip_dns_name skip_from skip_byte
cut_fails = refl

abbrev labels : List (List ℕ)
labels = (97 ∷ 98 ∷ []) ∷ (99 ∷ []) ∷ []

abbrev query : List ℕ
query = header 513 ++ ((2 ∷ 97 ∷ 98 ∷ 1 ∷ 99 ∷ 0 ∷ []) ++ (be16 16 ++ be16 1))

skip-build_example : (end : ℕ) × (skip_dns_name query 12 ≡ at end) × (end + 4 ≡ length query)
unfolding build_dns_query_type encode_labels
skip-build_example = skip-build 513 16 labels query refl
