-- ===== src/Model/Create/Additions.antt =====
-- The bindings that the loop of `ValidateCreateCandidateIntent` of `internal/dkim2model/create.go` adds to
-- a builder.
use opendkim_manage_go.Prelude.{
  ℕ, ◌≡◌, refl, sym, ap, ◌∙◌, true, false, not, ◌||◌, List, [], ◌∷◌, ◌++◌, map, Option, none, some,
  Text, length, is_empty, ltb, all, all→All, contains, All, All-map, ok, or_fail, or_fail-eq_ok,
  is_err, >>=-eq-ok, fail_if->>-eq-ok, ◌==◌, ◌!=◌, nat_eq, text_eq, arith,
}
use opendkim_manage_go.Prelude.Lists.Keep.{append-nil, append_assoc}
use opendkim_manage_go.Prelude.Maps.{append_one}
use opendkim_manage_go.Model.Error.{Error, invalid}
use opendkim_manage_go.Model.Instant.{zero_time}
use opendkim_manage_go.Model.Values.{status_disabled, rollout_off, compatibility_strict}
use opendkim_manage_go.Model.Crypto.{Codecs}
use opendkim_manage_go.Model.KeyMaterial.{KeyMaterial}
use opendkim_manage_go.Model.Records.{Profile, Credential, Policy, new_profile, new_policy}
use opendkim_manage_go.Model.Generation.{Generation, profile_by_id, of_profile}
use opendkim_manage_go.Model.Builder.{Builder, add_profile_with_keys}
use opendkim_manage_go.Model.Builder.Added.{IsAdded, add_profile_with_keys-IsAdded}
use opendkim_manage_go.Model.Lifecycle.Difference.{is_found}
use opendkim_manage_go.Model.Generation.Reads.{key_material_by_handle}
use opendkim_manage_go.Model.Values.{RecordStatus, is_known_status}
use opendkim_manage_go.Model.Names.{validate_identifier, validate_canonical_dns_name}
use opendkim_manage_go.Model.Lifecycle.Lineage.{LineageFact, reuses_fact}
use opendkim_manage_go.Model.Lifecycle.Lineage.Fresh.{IsApart, reuses_fact-IsApart}
use opendkim_manage_go.Model.Create.{
  CreateCandidateIntent, names_binding, stored_profile, admits_stored, stored_materials, added,
  append_stored_binding, append_all, create_credential_size_matches, key_identity,
}

-- A new binding: an inactive profile with the stored credentials and an inactive policy.
pub record Addition : Type 0 where
  pub domain : Text
  pub profile : Profile
  pub credentials : List Credential
  pub policy : Policy

-- The credentials of some additions, in order.
abbrev pub all_credentials : List Addition → List Credential
all_credentials [] = []
all_credentials (a ∷ rest) = a.credentials ++ all_credentials rest

new_profile-id :
    (n : ℕ) (id domain : Text) (status : RecordStatus) (p : Profile)
    → new_profile n id domain status zero_time zero_time ≡ ok p
    → p.id ≡ id
unfolding new_profile
new_profile-id n id domain status p h =
    let refused =
      n == 0
      || (is_err (validate_identifier id)
          || (is_err (validate_canonical_dns_name domain) || not (is_known_status status))) in
    let (_, h1) = fail_if->>-eq-ok refused invalid _ h in ground (arith, h1)

module _ (codecs : Codecs) (i : CreateCandidateIntent) (source candidate : Generation)
    (facts : List LineageFact) where
  -- The addition for a domain: neither its binding nor its profile is in the source, and its
  -- credentials, one for each requested algorithm, are the candidate's and no reuse of earlier facts.
  pub record IsNew (a : Addition) : Type 0 where
    pub unbound : All (λ p. names_binding i a.domain p ≡ false) source.policies
    pub made_profile :
        new_profile candidate.number a.profile.id a.domain status_disabled zero_time zero_time
        ≡ ok a.profile
    pub made_policy :
        new_policy candidate.number i.tenant_id a.domain i.profile_use a.profile.id status_disabled
          rollout_off compatibility_strict i.feedback_route_id
        ≡ ok a.policy
    pub stored : a.credentials ≡ of_profile a.profile.id candidate.credentials
    pub count : length a.credentials ≡ length i.algorithms
    pub requested : All (λ c. contains i.algorithms c.algorithm ≡ true) a.credentials
    pub sized : All (λ c. create_credential_size_matches codecs c i.rsa_bits ≡ true) a.credentials
    pub apart : All (λ c. All (IsApart candidate.number c) facts) a.credentials

  added-none :
      (r : Builder × Option Error) (allocated : List Text) (one : Builder × List Text)
      → added codecs i source candidate facts r allocated ≡ ok one
      → r ≡ (one.0, none)
  unfolding added
  added-none (b, none) allocated one h = ground (arith, h)
  added-none (b, some e) allocated one h = cc

  -- What the loop over the stored credentials checks of each.
  abbrev IsStored : Credential → Type 0
  IsStored c =
      (contains i.algorithms c.algorithm ≡ true)
      × (create_credential_size_matches codecs c i.rsa_bits ≡ true)
      × All (IsApart candidate.number c) facts

  admits_stored-IsStored :
      (allocated : List Text) (c : Credential)
      → admits_stored codecs i source candidate facts allocated c ≡ true
      → IsStored c
  unfolding admits_stored
  admits_stored-IsStored allocated c h = (
    ground (arith, h),
    ground (arith, h),
    All-map _ _ facts (λ f k. reuses_fact-IsApart candidate.number c f k)
        (all→All (λ f. not (ltb f.generation candidate.number) || not (reuses_fact c f)) facts
          (ground (arith, h))),
  )

  stored_materials-IsStored :
      (allocated : List Text) (cs : List Credential) (found : List (Option KeyMaterial) × List Text)
      → stored_materials codecs i source candidate facts allocated cs ≡ ok found
      → All IsStored cs
  unfolding stored_materials
  stored_materials-IsStored allocated [] found h = tt
  stored_materials-IsStored allocated (c ∷ rest) found h =
      let (a, h1) =
        fail_if->>-eq-ok (not (admits_stored codecs i source candidate facts allocated c)) invalid _
          h in
      let (_, h2) =
        fail_if->>-eq-ok (not (is_found (key_material_by_handle candidate c.handle_id))) invalid _
          h1 in
      let later = key_identity c ∷ allocated in
      let (others, e, _) =
        >>=-eq-ok (stored_materials codecs i source candidate facts later rest) _ h2 in
      (
        admits_stored-IsStored allocated c (ground (arith, a)),
        stored_materials-IsStored later rest others e,
      )

  -- One more addition behind a builder.
  append_stored_binding-IsNew :
      (b : Builder) (domain : Text) (allocated : List Text) (one : Builder × List Text)
      → append_stored_binding codecs i source candidate facts b domain allocated ≡ ok one
      → (a : Addition) × (a.domain ≡ domain)
        × IsNew a
        × (ms : List (Option KeyMaterial)) × IsAdded b a.profile a.credentials a.policy ms one.0
  unfolding append_stored_binding
  append_stored_binding-IsNew b domain allocated one h =
      let (u, h1) =
        fail_if->>-eq-ok (not (all (λ p. not (names_binding i domain p)) source.policies)) invalid _
          h in
      let (id, e_id, h2) = >>=-eq-ok (stored_profile i domain [] candidate.policies) _ h1 in
      let (_, h3) = fail_if->>-eq-ok (is_empty id) invalid _ h2 in
      let (_, h4) = fail_if->>-eq-ok (is_found (profile_by_id source.profiles id)) invalid _ h3 in
      let made = new_profile candidate.number id domain status_disabled zero_time zero_time in
      let (profile, e_p, h5) = >>=-eq-ok (or_fail made invalid) _ h4 in
      let ruled =
        new_policy candidate.number i.tenant_id domain i.profile_use id status_disabled rollout_off
          compatibility_strict i.feedback_route_id in
      let (policy, e_q, h6) = >>=-eq-ok (or_fail ruled invalid) _ h5 in
      let cs = of_profile id candidate.credentials in
      let (n, h7) = fail_if->>-eq-ok (length cs != length i.algorithms) invalid _ h6 in
      let (ms, e_m, h8) =
        >>=-eq-ok (stored_materials codecs i source candidate facts allocated cs) _ h7 in
      let k = stored_materials-IsStored allocated cs ms e_m in
      let e_profile = or_fail-eq_ok made invalid e_p in
      let same_id : profile.id ≡ id =
        new_profile-id candidate.number id domain status_disabled profile e_profile in
      (
        record { domain = domain; profile = profile; credentials = cs; policy = policy },
        refl,
        record {
          unbound =
              All-map _ (λ p. names_binding i domain p ≡ false) source.policies
                (λ p x. ground (arith, x))
                (all→All (λ p. not (names_binding i domain p)) source.policies (ground (arith, u)));
          made_profile = rw (same_id) e_profile;
          made_policy = rw (same_id) (or_fail-eq_ok ruled invalid e_q);
          stored = rw (same_id) refl;
          count = ground (arith, n);
          requested = All-map _ _ cs (λ c (x, y, z). x) k;
          sized = All-map _ _ cs (λ c (x, y, z). y) k;
          apart = All-map _ _ cs (λ c (x, y, z). z) k;
        },
        ms.0,
        add_profile_with_keys-IsAdded b profile cs policy ms.0 one.0
            (added-none (add_profile_with_keys b profile cs policy ms.0) ms.1 one h8),
      )

  -- The additions behind a builder, in order.
  pub record IsAddedAll (b : Builder) (domains : List Text) (last : Builder) : Type 0 where
    pub additions : List Addition
    pub for_domains : map (λ a. a.domain) additions ≡ domains
    pub new : All IsNew additions
    pub profiles : last.profiles ≡ b.profiles ++ map (λ a. a.profile) additions
    pub credentials : last.credentials ≡ b.credentials ++ all_credentials additions
    pub policies : last.policies ≡ b.policies ++ map (λ a. a.policy) additions
    pub same_number : last.number ≡ b.number
    pub same_state : last.state ≡ b.state

  IsAddedAll-cons :
      (b mid last : Builder) (domain : Text) (rest : List Text) (a : Addition)
      (ms : List (Option KeyMaterial))
      → a.domain ≡ domain
      → IsNew a
      → IsAdded b a.profile a.credentials a.policy ms mid
      → IsAddedAll mid rest last
      → IsAddedAll b (domain ∷ rest) last
  IsAddedAll-cons b mid last domain rest a ms e n x r = record {
    additions = a ∷ r.additions;
    for_domains = rw (e, r.for_domains) refl;
    new = (n, r.new);
    profiles =
        r.profiles
        ∙ ap (λ t. t ++ map (λ a. a.profile) r.additions) x.profiles
        ∙ append_one b.profiles a.profile (map (λ a. a.profile) r.additions);
    credentials =
        r.credentials
        ∙ ap (λ t. t ++ all_credentials r.additions) x.credentials
        ∙ append_assoc b.credentials a.credentials (all_credentials r.additions);
    policies =
        r.policies
        ∙ ap (λ t. t ++ map (λ a. a.policy) r.additions) x.policies
        ∙ append_one b.policies a.policy (map (λ a. a.policy) r.additions);
    same_number = r.same_number ∙ x.same_number;
    same_state = r.same_state ∙ x.same_state;
  }

  pub append_all-IsAddedAll :
      (b : Builder) (allocated domains : List Text) (last : Builder)
      → append_all codecs i source candidate facts b allocated domains ≡ ok last
      → IsAddedAll b domains last
  unfolding append_all
  append_all-IsAddedAll b allocated [] last h =
      let e : b ≡ last = ground (arith, h) in
      rw (← e) (record {
        additions = [];
        for_domains = refl;
        new = tt;
        profiles = sym (append-nil b.profiles);
        credentials = sym (append-nil b.credentials);
        policies = sym (append-nil b.policies);
        same_number = refl;
        same_state = refl;
      })
  append_all-IsAddedAll b allocated (domain ∷ rest) last h =
      let step = append_stored_binding codecs i source candidate facts b domain allocated in
      let (one, e, h1) = >>=-eq-ok (or_fail step invalid) _ h in
      let (a, same, new, ms, x) =
        append_stored_binding-IsNew b domain allocated one (or_fail-eq_ok step invalid e) in
      IsAddedAll-cons b one.0 last domain rest a ms same new x
        (append_all-IsAddedAll one.0 one.1 rest last h1)
