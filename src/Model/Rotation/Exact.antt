-- ===== src/Model/Rotation/Exact.antt =====
-- What `exactActiveBinding` of `internal/dkim2model/rotation.go` returns.
use opendkim_manage_go.Prelude.{
  ◌≡◌, ◌≢◌, refl, true, ◌&&◌, List, [], ◌∷◌, Option, none, some, Text, length, keep, ok,
  fail_if->>-eq-ok, ◌==◌, ◌!=◌, nat_eq, text_eq, eq_of_beq, Bool-cases, Option-cases, inl, inr,
  arith,
}
use opendkim_manage_go.Model.Error.{invalid}
use opendkim_manage_go.Model.Values.{ProfileUse, status_active}
use opendkim_manage_go.Model.Records.{Profile, Credential, Policy}
use opendkim_manage_go.Model.Generation.{Generation, profile_by_id, of_profile}
use opendkim_manage_go.Model.Generation.Reads.{only_match}
use opendkim_manage_go.Model.Generation.Reads.Lookup.{only_match-passes, only_match-alone}
use opendkim_manage_go.Model.Rotation.{exact_active_binding, binding_of_profile}

module _ (g : Generation) where
  -- An active policy, its active profile, which no other policy has, and the credentials of that.
  pub record IsBound (policy : Policy) (profile : Profile) (credentials : List Credential)
      : Type 0 where
    pub found : profile_by_id g.profiles policy.profile_id ≡ some profile
    pub active_profile : profile.status ≡ status_active
    pub exclusive : length (keep (λ q. q.profile_id == profile.id) g.policies) ≡ 1
    pub all_credentials : credentials ≡ of_profile profile.id g.credentials
    pub some_credential : length credentials ≢ 0

  binding_of_profile-IsBound :
      (policy : Policy) (found : Option Profile) (b : Policy × Profile × List Credential)
      → profile_by_id g.profiles policy.profile_id ≡ found
      → binding_of_profile g policy found ≡ ok b
      → (b.0 ≡ policy) × IsBound b.0 b.1 b.2
  unfolding binding_of_profile
  binding_of_profile-IsBound policy none b e h = cc
  binding_of_profile-IsBound policy (some profile) b e h =
      let (s, h1) = fail_if->>-eq-ok (profile.status != status_active) invalid _ h in
      let (n, h2) =
        fail_if->>-eq-ok (length (keep (λ q. q.profile_id == profile.id) g.policies) != 1) invalid _
          h1 in
      let (z, h3) =
        fail_if->>-eq-ok (length (of_profile profile.id g.credentials) == 0) invalid _ h2 in
      let p0 : policy ≡ b.0 = ground (arith, h3) in
      let p1 : profile ≡ b.1 = ground (arith, h3) in
      let p2 : of_profile profile.id g.credentials ≡ b.2 = ground (arith, h3) in
      rw (← p0, ← p1, ← p2)
        (
          refl,
          record {
            found = e;
            active_profile = eq_of_beq profile.status status_active (ground (arith, s));
            exclusive = ground (arith, n);
            all_credentials = refl;
            some_credential = ground (arith, z);
          },
        )

  -- The binding is that of the one policy for the tenant, domain and use.
  pub exact_active_binding-IsBound :
      (tenant domain : Text) (profile_use : ProfileUse) (b : Policy × Profile × List Credential)
      → exact_active_binding g tenant domain profile_use ≡ ok b
      → (b.0.status ≡ status_active)
        × ((b.0.tenant_id == tenant && (b.0.domain == domain && b.0.profile_use == profile_use))
            ≡ true)
        × (keep
              (λ q. q.tenant_id == tenant && (q.domain == domain && q.profile_use == profile_use))
              g.policies
            ≡ b.0 ∷ [])
        × IsBound b.0 b.1 b.2
  unfolding exact_active_binding
  exact_active_binding-IsBound tenant domain profile_use b h =
      let p = λ (q : Policy).
        q.tenant_id == tenant && (q.domain == domain && q.profile_use == profile_use) in
      elim (Option-cases (only_match p g.policies)) [
        | inl n ↦ cc (rw (n, exact_active_binding) at h)
        | inr (policy, e) ↦ elim (Bool-cases (policy.status != status_active)) [
          | inl t ↦ cc (rw (e, exact_active_binding, t) at h)
          | inr f ↦
              let found = profile_by_id g.profiles policy.profile_id in
              let (same, bound) =
                binding_of_profile-IsBound policy found b refl
                  (rw (e, exact_active_binding, f) at h) in
              (
                rw same (eq_of_beq policy.status status_active (ground (arith, f))),
                rw same (only_match-passes p g.policies policy e),
                rw same (only_match-alone p g.policies policy e),
                bound,
              )
        ]
      ]
