-- ===== src/Model/Campaign/Changed.antt =====
-- What `ChangedActiveBindings` of `internal/dkim2model/campaign.go` proves of two generations.
use opendkim_manage_go.Prelude.{
  ◌+◌, ◌≡◌, ◌≢◌, refl, ap, ◌∙◌, Bool, true, not, ◌||◌, List, [], ◌∷◌, ◌++◌, Option, none, some,
  length, all, all→All, All, All-map, ok, >>=-eq-ok, fail_if->>-eq-ok, ltb, ◌==◌, ◌!=◌, nat_eq,
  text_eq, eq_of_beq, ne_of_beq, Bool-cases, inl, inr, arith,
}
use opendkim_manage_go.Prelude.Int.{ℤ, pos, ltb_ℤ}
use opendkim_manage_go.Prelude.Lists.Keep.{append-nil}
use opendkim_manage_go.Prelude.Maps.{append_one, get}
use opendkim_manage_go.Prelude.Sort.{sort_func}
use opendkim_manage_go.Model.Error.{invalid}
use opendkim_manage_go.Model.Values.{
  status_active, supports_native_key_custody, max_credentials_per_profile,
}
use opendkim_manage_go.Model.Records.{Profile, Credential, Policy, rebase_credential}
use opendkim_manage_go.Model.Generation.{Generation, profile_by_id, of_profile}
use opendkim_manage_go.Model.Generation.Reads.{only_match, all_same, key_material_by_handle}
use opendkim_manage_go.Model.Lifecycle.Difference.{is_found, validate_extended_credentials}
use opendkim_manage_go.Model.Campaign.{
  BindingIdentity, identity_of, compare_identities, compare_credential_algorithm,
  same_profile_facts, same_policy_facts, same_materials, same_credential_and_material,
  unchanged_loop, extended_profile, campaign_profile_unchanged, is_disjoint, changed_identity,
  changed_loop, is_successor, changed_active_bindings, by_algorithm,
}

module _ (source candidate : Generation) where
  -- The two credentials agree but for the generation number, and so do their private keys.
  abbrev pub IsSameKey : Credential → Credential → Type 0
  IsSameKey s c =
      (rebase_credential 0 s ≡ rebase_credential 0 c)
      × (same_materials (key_material_by_handle source s.handle_id)
            (key_material_by_handle candidate c.handle_id)
          ≡ true)

  -- Credentials that agree one by one.
  pub data SameKeys : List Credential → List Credential → Type 0 where
    same_none : SameKeys [] []
    same_next :
        (s : Credential) (ss : List Credential) (c : Credential) (cs : List Credential)
        → IsSameKey s c
        → SameKeys ss cs
        → SameKeys (s ∷ ss) (c ∷ cs)

  -- A profile with the same credentials and private keys, in the order of their algorithms.
  abbrev pub IsKept : Profile → Type 0
  IsKept p =
      SameKeys (sort_func compare_credential_algorithm (of_profile p.id source.credentials))
        (sort_func compare_credential_algorithm (of_profile p.id candidate.credentials))

  -- No selector, no handle and no public key of one is that of the other.
  abbrev pub IsApart : Credential → Credential → Type 0
  IsApart s c =
      (s.selector ≢ c.selector) × (s.handle_id ≢ c.handle_id) × (s.public_spki ≢ c.public_spki)

  -- A profile of one active policy, none of whose credentials is left.
  pub record IsReplaced (p : Profile) (b : BindingIdentity) : Type 0 where
    pub policy : Policy
    pub exclusive : only_match (λ q. q.profile_id == p.id) source.policies ≡ some policy
    pub identity : b ≡ identity_of policy
    pub active_policy : policy.status ≡ status_active
    pub active_profile : p.status ≡ status_active
    pub native : supports_native_key_custody policy.profile_use ≡ true
    pub apart :
        All
          (λ s. All (IsApart s) (of_profile p.id candidate.credentials))
          (of_profile p.id source.credentials)

  -- Each profile is kept, or replaced and its binding listed.
  pub data Changes : List Profile → List BindingIdentity → Type 0 where
    changes_none : Changes [] []
    changes_kept :
        (p : Profile) (ps : List Profile) (bs : List BindingIdentity)
        → IsKept p
        → Changes ps bs
        → Changes (p ∷ ps) bs
    changes_replaced :
        (p : Profile) (ps : List Profile) (b : BindingIdentity) (bs : List BindingIdentity)
        → IsReplaced p b
        → Changes ps bs
        → Changes (p ∷ ps) (b ∷ bs)

  same_credential_and_material-IsSameKey :
      (s c : Credential) → same_credential_and_material source s candidate c ≡ true → IsSameKey s c
  unfolding same_credential_and_material rebase_credential
  same_credential_and_material-IsSameKey s c h =
      let e1 = eq_of_beq s.profile_id c.profile_id (ground (arith, h)) in
      let e2 = eq_of_beq s.selector c.selector (ground (arith, h)) in
      let e3 = eq_of_beq s.algorithm c.algorithm (ground (arith, h)) in
      let e4 = eq_of_beq s.handle_id c.handle_id (ground (arith, h)) in
      let e5 = eq_of_beq s.public_spki c.public_spki (ground (arith, h)) in
      (ground (arith, e1, e2, e3, e4, e5), ground (arith, h))

  unchanged_loop-SameKeys :
      (ss cs : List Credential)
      → (length cs == length ss) ≡ true
      → unchanged_loop source candidate ss cs ≡ ok true
      → SameKeys ss cs
  unfolding unchanged_loop
  unchanged_loop-SameKeys [] [] n h = same_none
  unchanged_loop-SameKeys [] (c ∷ cs) n h = absurd (ground (arith, n))
  unchanged_loop-SameKeys (s ∷ ss) [] n h = absurd (ground (arith, n))
  unchanged_loop-SameKeys (s ∷ ss) (c ∷ cs) n h =
      let (_, h1) = fail_if->>-eq-ok (s.algorithm != c.algorithm) invalid _ h in
      let (rest, e, h2) = >>=-eq-ok (unchanged_loop source candidate ss cs) _ h1 in
      let t : rest ≡ true = ground (arith, h2) in
      same_next s ss c cs (same_credential_and_material-IsSameKey s c (ground (arith, h2)))
        (unchanged_loop-SameKeys ss cs (ground (arith, n)) (e ∙ ap ok t))

  extended_profile-changed :
      (ss cs : List Credential) → extended_profile source ss candidate cs ≢ ok true
  unfolding extended_profile
  extended_profile-changed ss cs h =
      let before = by_algorithm ss in
      let after = by_algorithm cs in
      let (_, h1) =
        fail_if->>-eq-ok (length before != length ss || length after != length cs) invalid _ h in
      let (_, h2) =
        fail_if->>-eq-ok (not (all (λ e. is_found (get e.0 after)) before)) invalid _ h1 in
      let (_, _, h3) =
        >>=-eq-ok (validate_extended_credentials source candidate before after) _ h2 in
      ground (arith, h3)

  campaign_profile_unchanged-IsKept :
      (p : Profile)
      → campaign_profile_unchanged source
          (of_profile p.id source.credentials)
          candidate
          (of_profile p.id candidate.credentials)
        ≡ ok true
      → IsKept p
  unfolding campaign_profile_unchanged
  campaign_profile_unchanged-IsKept p h =
      let ss = of_profile p.id source.credentials in
      let cs = of_profile p.id candidate.credentials in
      let ss' = sort_func compare_credential_algorithm ss in
      let cs' = sort_func compare_credential_algorithm cs in
      let (_, h1) =
        fail_if->>-eq-ok
          (ltb (length cs) (length ss) || ltb max_credentials_per_profile (length cs)) invalid _
          h in
      elim (Bool-cases (length cs' == length ss')) [
        | inl t ↦ unchanged_loop-SameKeys ss' cs' t (rw t at h1)
        | inr f ↦ absurd (extended_profile-changed ss' cs' (rw f at h1))
      ]

  changed_identity-IsReplaced :
      (p : Profile) (found : Option Policy) (b : BindingIdentity)
      → only_match (λ q. q.profile_id == p.id) source.policies ≡ found
      → changed_identity p found
          (of_profile p.id source.credentials)
          (of_profile p.id candidate.credentials)
        ≡ ok b
      → IsReplaced p b
  unfolding changed_identity is_disjoint
  changed_identity-IsReplaced p none b e h = cc
  changed_identity-IsReplaced p (some policy) b e h =
      let ss = of_profile p.id source.credentials in
      let cs = of_profile p.id candidate.credentials in
      let (n, h1) =
        fail_if->>-eq-ok
          (policy.status != status_active
            || (p.status != status_active || not (supports_native_key_custody policy.profile_use)))
          invalid _ h in
      let (d, h2) = fail_if->>-eq-ok (not (is_disjoint ss cs)) invalid _ h1 in
      let apart : Credential → Credential → Bool = λ s c. not (
        s.selector == c.selector
        || (s.handle_id == c.handle_id || s.public_spki == c.public_spki)) in
      record {
        policy = policy;
        exclusive = e;
        identity = ground (arith, h2);
        active_policy = eq_of_beq policy.status status_active (ground (arith, n));
        active_profile = eq_of_beq p.status status_active (ground (arith, n));
        native = ground (arith, n);
        apart =
            All-map _ _ ss
              (λ s k.
                All-map _ _ cs
                  (λ c m. (
                    ne_of_beq s.selector c.selector (ground (arith, m)),
                    ne_of_beq s.handle_id c.handle_id (ground (arith, m)),
                    ne_of_beq s.public_spki c.public_spki (ground (arith, m)),
                  ))
                  (all→All (apart s) cs k))
              (all→All (λ s. all (apart s) cs) ss (ground (arith, d)));
      }

  changed_loop-Changes :
      (maximum : ℤ) (changed : List BindingIdentity) (ps : List Profile)
      (last : List BindingIdentity)
      → changed_loop source candidate maximum changed ps ≡ ok last
      → (bs : List BindingIdentity) × (last ≡ changed ++ bs) × Changes ps bs
  unfolding changed_loop
  changed_loop-Changes maximum changed [] last h =
      ([], rw (append-nil changed) (ground (arith, h)), changes_none)
  changed_loop-Changes maximum changed (p ∷ ps) last h =
      let ss = of_profile p.id source.credentials in
      let cs = of_profile p.id candidate.credentials in
      let (_, h1) =
        fail_if->>-eq-ok (not (is_found (profile_by_id candidate.profiles p.id))) invalid _ h in
      let (unchanged, e, h2) = >>=-eq-ok (campaign_profile_unchanged source ss candidate cs) _ h1 in
      elim (Bool-cases unchanged) [
        | inl t ↦
            let (bs, same, rest) = changed_loop-Changes maximum changed ps last (rw t at h2) in
            (
              bs,
              same,
              changes_kept p ps bs (campaign_profile_unchanged-IsKept p (e ∙ ap ok t)) rest,
            )
        | inr f ↦
            let found = only_match (λ q. q.profile_id == p.id) source.policies in
            let (b, e1, h3) = >>=-eq-ok (changed_identity p found ss cs) _ (rw f at h2) in
            let (_, h4) =
              fail_if->>-eq-ok (ltb_ℤ maximum (pos (length changed + 1))) invalid _ h3 in
            let (bs, same, rest) = changed_loop-Changes maximum (changed ++ (b ∷ [])) ps last h4 in
            (
              b ∷ bs,
              same ∙ append_one changed b bs,
              changes_replaced p ps b bs (changed_identity-IsReplaced p found b refl e1) rest,
            )
      ]

  -- The candidate is the next generation with the same profiles and policies, in which the listed
  -- bindings have new keys.
  pub record IsCampaign (bindings : List BindingIdentity) : Type 0 where
    pub next : candidate.number ≡ source.number + 1
    pub profiles : all_same same_profile_facts source.profiles candidate.profiles ≡ true
    pub profile_count : length source.profiles ≡ length candidate.profiles
    pub policies : all_same same_policy_facts source.policies candidate.policies ≡ true
    pub policy_count : length source.policies ≡ length candidate.policies
    pub changed : List BindingIdentity
    pub sorted : bindings ≡ sort_func compare_identities changed
    pub changes : Changes source.profiles changed

  -- Bindings that `ChangedActiveBindings` returns are, in the order of their keys, those of just the
  -- profiles whose keys the candidate replaces, which is the next generation with the same profiles
  -- and policies. A listed profile has one policy, an active one, and shares no selector, handle or
  -- public key with its new credentials; every other profile has the same credentials and private keys.
  pub changed_active_bindings-IsCampaign :
      (maximum : ℤ) (bindings : List BindingIdentity)
      → changed_active_bindings source candidate maximum ≡ ok bindings
      → IsCampaign bindings
  unfolding changed_active_bindings is_successor
  changed_active_bindings-IsCampaign maximum bindings h =
      let (n, h1) = fail_if->>-eq-ok (not (is_successor source candidate maximum)) invalid _ h in
      let (last, e, h2) =
        >>=-eq-ok (changed_loop source candidate maximum [] source.profiles) _ h1 in
      let (bs, same, changes) = changed_loop-Changes maximum [] source.profiles last e in
      record {
        next = ground (arith, n);
        profiles = ground (arith, n);
        profile_count = ground (arith, n);
        policies = ground (arith, n);
        policy_count = ground (arith, n);
        changed = bs;
        sorted = ground (arith, h2, same);
        changes = changes;
      }
