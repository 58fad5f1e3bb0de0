-- ===== src/Model/Records/PolicyKey.antt =====
-- The tuple key of a policy (`policyKey` of `internal/dkim2model/generation.go`).
use opendkim_manage_go.Prelude.{◌≡◌, Text, ok, ◌++◌, ◌∷◌}
use opendkim_manage_go.Model.Names.{validate_identifier, validate_canonical_dns_name}
use opendkim_manage_go.Model.Names.Keys.{
  append_nul-injective, validate_identifier-NulFree, validate_canonical_dns_name-NulFree,
}
use opendkim_manage_go.Model.Records.{policy_key}

-- The key that joins tenant, domain and use by NUL bytes identifies the tuple: where the tenants are
-- valid identifiers and the domains valid canonical names, equal keys have equal parts, whatever the
-- uses are. So no two bindings collide in the maps that are keyed by it.
pub policy_key-injective :
    (tenant tenant' domain domain' profile_use profile_use' : Text)
    → validate_identifier tenant ≡ ok tt
    → validate_identifier tenant' ≡ ok tt
    → validate_canonical_dns_name domain ≡ ok tt
    → validate_canonical_dns_name domain' ≡ ok tt
    → policy_key tenant domain profile_use ≡ policy_key tenant' domain' profile_use'
    → (tenant ≡ tenant') × (domain ≡ domain') × (profile_use ≡ profile_use')
unfolding policy_key
policy_key-injective tenant tenant' domain domain' profile_use profile_use' t t' d d' e =
    let (same_tenant, rest) =
      append_nul-injective tenant tenant' (domain ++ (0 ∷ profile_use))
        (domain' ++ (0 ∷ profile_use')) (validate_identifier-NulFree tenant t).2
        (validate_identifier-NulFree tenant' t').2 e in
    let (same_domain, same_use) =
      append_nul-injective domain domain' profile_use profile_use'
        (validate_canonical_dns_name-NulFree domain d)
        (validate_canonical_dns_name-NulFree domain' d') rest in
    (same_tenant, same_domain, same_use)
