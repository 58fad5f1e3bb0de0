-- ===== src/Model/Lifecycle/Difference/Meaning.antt =====
-- The difference of two generations that `validate` accepts, as `uniqueRotatedBinding`
-- (`internal/dkim2model/lifecycle.go`) finds it.
use opendkim_manage_go.Prelude.{
  ◌≡◌, ◌⊎◌, inl, inr, refl, sym, ap, ◌∙◌, true, false, not, List, [], map, Option, none, some,
  length, length-map, is_empty, contains, find_first, all→All, All, All-map, ok, >>=-eq-ok,
  fail_if->>-eq-ok, nat_eq, text_eq, eq_of_beq, Bool-cases, Option-cases, arith,
}
use opendkim_manage_go.Prelude.Maps.{get, get-map, store_all}
use opendkim_manage_go.Prelude.Lists.Mapped.{map-map}
use opendkim_manage_go.Model.Error.{invalid}
use opendkim_manage_go.Model.Values.{status_active, rollout_enforce, supports_native_key_custody}
use opendkim_manage_go.Model.Records.{Profile, Credential, Policy}
use opendkim_manage_go.Model.Generation.{
  Generation, of_profile, profile_by_id, policy_by_key, key_of_policy,
}
use opendkim_manage_go.Model.Generation.WellFormed.{IsWellFormed}
use opendkim_manage_go.Model.Lifecycle.{
  lifecycle_binding, LifecycleBinding, LifecycleCredential, lifecycle_credentials,
}
use opendkim_manage_go.Model.Lifecycle.Logical.{
  profiles_by_id, policies_logical_equal, policies_logical_record_equal, profiles_logical_equal,
  exclusive_policy_for_profile, has_equal,
}
use opendkim_manage_go.Model.Lifecycle.Difference.{
  Difference, unique_rotated_binding, same_logical_records, difference_loop, no_difference,
  refuses_totals, bind_difference, admits_policies, has_successor,
}
use opendkim_manage_go.Model.Lifecycle.Difference.Compared.{
  IsSame, IsChanged, difference_loop-cases,
}
use opendkim_manage_go.Model.Lifecycle.Difference.Pairs.{
  All_of_map, of_its_profile, under_algorithm, credentials_by_algorithm_lem, profiles_by_id_lem,
  policies_by_key_lem, HasSameKey, HasNewKey, HasSameKey-of_kept, HasNewKey-of_replaced,
}

module _ (current predecessor : Generation) where
  -- A profile with the same credentials and keys in both generations.
  abbrev pub IsUntouched : Profile → Type 0
  IsUntouched p =
      All (HasSameKey current predecessor p.id) (of_profile p.id predecessor.credentials)
      × (length (of_profile p.id current.credentials)
          ≡ length (of_profile p.id predecessor.credentials))

  -- The predecessor's profile and policy as the current generation has them.
  abbrev pub HasSameProfile : Profile → Type 0
  HasSameProfile p =
      (next : Profile) × (profile_by_id current.profiles p.id ≡ some next)
      × (profiles_logical_equal p next ≡ true)

  abbrev pub HasSamePolicy : Policy → Type 0
  HasSamePolicy p =
      (previous : Policy) × (policy_by_key predecessor.policies (key_of_policy p) ≡ some previous)
      × (policies_logical_record_equal p previous ≡ true)

  -- The current generation is the predecessor but for the keys of one active enforced binding, each
  -- of which is replaced.
  pub record IsRotationOf (binding : LifecycleBinding) (retiring active : List LifecycleCredential)
      : Type 0 where
    pub profiles : All HasSameProfile predecessor.profiles
    pub profile_count : length current.profiles ≡ length predecessor.profiles
    pub policies : All HasSamePolicy current.policies
    pub policy_count : length current.policies ≡ length predecessor.policies
    pub changed : contains (map (λ p. p.id) predecessor.profiles) binding.profile_id ≡ true
    pub replaced :
        All
          (HasNewKey current predecessor binding.profile_id)
          (of_profile binding.profile_id predecessor.credentials)
    pub untouched : All (λ p. (p.id ≡ binding.profile_id) ⊎ IsUntouched p) predecessor.profiles
    pub retiring_old :
        retiring ≡ lifecycle_credentials (under_algorithm predecessor binding.profile_id)
    pub active_new : active ≡ lifecycle_credentials (under_algorithm current binding.profile_id)
    pub policy : Policy
    pub exclusive : exclusive_policy_for_profile current binding.profile_id ≡ some policy
    pub bound : binding ≡ lifecycle_binding policy
    pub is_active : policy.status ≡ status_active
    pub is_enforced : policy.rollout ≡ rollout_enforce
    pub is_native : supports_native_key_custody policy.profile_use ≡ true

  -- The checks of the profiles and the policies.
  record SameRecords : Type 0 where
    profiles : All HasSameProfile predecessor.profiles
    profile_count : length current.profiles ≡ length predecessor.profiles
    policies : All HasSamePolicy current.policies
    policy_count : length current.policies ≡ length predecessor.policies

  HasSameProfile-of_found :
      (p : Profile)
      → has_successor (profile_by_id current.profiles p.id) p ≡ true
      → HasSameProfile p
  unfolding has_successor
  HasSameProfile-of_found p h = elim (Option-cases (profile_by_id current.profiles p.id)) [
    | inl n ↦ cc (rw n at h)
    | inr (next, e) ↦ (next, e, rw e at h)
  ]

  HasSamePolicy-of_found :
      (p : Policy)
      → has_equal (policy_by_key predecessor.policies (key_of_policy p)) p ≡ true
      → HasSamePolicy p
  unfolding has_equal
  HasSamePolicy-of_found p h =
      elim (Option-cases (policy_by_key predecessor.policies (key_of_policy p))) [
        | inl n ↦ cc (rw n at h)
        | inr (previous, e) ↦ (previous, e, rw e at h)
      ]

  module _ (wc : IsWellFormed current) (wp : IsWellFormed predecessor) where
    same_logical_records-SameRecords : same_logical_records current predecessor ≡ true → SameRecords
    unfolding same_logical_records policies_logical_equal profile_by_id find_first
    same_logical_records-SameRecords h =
        let found =
          all→All (λ e. has_successor (get e.0 (profiles_by_id current)) e.1)
            (profiles_by_id predecessor) (ground (arith, h)) in
        let equal =
          all→All
            (λ p.
              has_equal
                (get (key_of_policy p)
                  (store_all (λ _. true) key_of_policy (λ p. p) [] predecessor.policies))
                p)
            current.policies (ground (arith, h)) in
        record {
          profiles =
              All-map _ _ predecessor.profiles
                (λ p e. HasSameProfile-of_found p (
                  rw
                    (
                      profiles_by_id_lem current wc,
                      get-map (λ (x : Profile). x.id) p.id current.profiles,
                    )
                    at e))
                (All_of_map _ _ predecessor.profiles
                  (rw (profiles_by_id_lem predecessor wp) at found));
          profile_count = ground (arith, h);
          policies =
              All-map _ _ current.policies
                (λ p e.
                  HasSamePolicy-of_found p
                    (rw (policies_by_key_lem predecessor wp (key_of_policy p)) at e))
                equal;
          policy_count = ground (arith, h);
        }

    IsUntouched-of_same : (p : Profile) → IsSame current predecessor p.id → IsUntouched p
    IsUntouched-of_same p s =
        let ec = credentials_by_algorithm_lem current wc p.id in
        let ep = credentials_by_algorithm_lem predecessor wp p.id in
        (
          HasSameKey-of_kept current predecessor p.id (of_profile p.id predecessor.credentials)
              (rw (ec, ep) at s.kept),
          sym (
                length-map (λ (c : Credential). (c.algorithm, c))
                  (of_profile p.id current.credentials))
              ∙ rw (ec, ep) at s.count
              ∙ length-map (λ (c : Credential). (c.algorithm, c))
                  (of_profile p.id predecessor.credentials),
        )

    bind_difference-cases :
        (previous now : Option Policy) (d : Difference) (b : LifecycleBinding)
        (retiring active : List LifecycleCredential)
        → bind_difference previous now d ≡ ok (b, retiring, active)
        → (policy : Policy) × (now ≡ some policy)
          × (b ≡ lifecycle_binding policy)
          × (policy.status ≡ status_active)
          × (policy.rollout ≡ rollout_enforce)
          × (supports_native_key_custody policy.profile_use ≡ true)
          × (retiring ≡ d.retiring)
          × (active ≡ d.active)
    unfolding bind_difference admits_policies policies_logical_record_equal
    bind_difference-cases previous none d b retiring active h = cc
    bind_difference-cases none (some now) d b retiring active h = cc
    bind_difference-cases (some previous) (some now) d b retiring active h =
        elim (Bool-cases (admits_policies (some previous) (some now))) [
          | inr f ↦ cc (rw f at h)
          | inl t ↦
              let h1 = rw t at h in
              (
                now,
                refl,
                ground (arith, h1),
                sym (eq_of_beq previous.status now.status (ground (arith, t)))
                    ∙ eq_of_beq previous.status status_active (ground (arith, t)),
                sym (eq_of_beq previous.rollout now.rollout (ground (arith, t)))
                    ∙ eq_of_beq previous.rollout rollout_enforce (ground (arith, t)),
                rw (← eq_of_beq previous.profile_use now.profile_use (ground (arith, t)))
                    (ground (arith, t)),
                ground (arith, h1),
                ground (arith, h1),
              )
        ]

    -- The checks behind the loop, on what the loop found.
    bind_difference-IsRotationOf :
        (d : Difference) (b : LifecycleBinding) (retiring active : List LifecycleCredential)
        → SameRecords
        → IsChanged current predecessor d.changed_profile d
        → contains (map (λ p. p.id) predecessor.profiles) d.changed_profile ≡ true
        → All
            (λ p. (p.id ≡ d.changed_profile) ⊎ IsSame current predecessor p.id)
            predecessor.profiles
        → bind_difference
            (exclusive_policy_for_profile predecessor d.changed_profile)
            (exclusive_policy_for_profile current d.changed_profile)
            d
          ≡ ok (b, retiring, active)
        → IsRotationOf b retiring active
    unfolding lifecycle_binding
    bind_difference-IsRotationOf d b retiring active same changed inside others h =
        let (policy, found, bound, is_active, is_enforced, is_native, r, a) =
          bind_difference-cases (exclusive_policy_for_profile predecessor d.changed_profile)
            (exclusive_policy_for_profile current d.changed_profile) d b retiring active h in
        let id : b.profile_id ≡ d.changed_profile =
          ap (λ x. x.profile_id) bound ∙ of_its_profile current d.changed_profile policy found in
        let ec = credentials_by_algorithm_lem current wc d.changed_profile in
        let ep = credentials_by_algorithm_lem predecessor wp d.changed_profile in
        record {
          profiles = same.profiles;
          profile_count = same.profile_count;
          policies = same.policies;
          policy_count = same.policy_count;
          changed = rw id inside;
          replaced = rw id (
              HasNewKey-of_replaced current predecessor d.changed_profile
                (of_profile d.changed_profile predecessor.credentials)
                (rw (ec, ep) at changed.replaced));
          untouched =
              All-map _ _ predecessor.profiles
                (λ p o. elim o [ inl e ↦ inl (e ∙ sym id) | inr s ↦ inr (IsUntouched-of_same p s) ])
                others;
          retiring_old =
              rw id (r ∙ ap (λ x. x.retiring) changed.difference ∙ ap lifecycle_credentials ep);
          active_new =
              rw id (a ∙ ap (λ x. x.active) changed.difference ∙ ap lifecycle_credentials ec);
          policy = policy;
          exclusive = rw id found;
          bound = bound;
          is_active = is_active;
          is_enforced = is_enforced;
          is_native = is_native;
        }

    pub unique_rotated_binding-IsRotationOf :
        (b : LifecycleBinding) (retiring active : List LifecycleCredential)
        → contains (map (λ p. p.id) predecessor.profiles) [] ≡ false
        → unique_rotated_binding current predecessor ≡ ok (b, retiring, active)
        → IsRotationOf b retiring active
    unfolding unique_rotated_binding refuses_totals
    unique_rotated_binding-IsRotationOf b retiring active named h =
        let ids = map (λ e. e.0) (profiles_by_id predecessor) in
        let e_ids : ids ≡ map (λ p. p.id) predecessor.profiles =
          rw (profiles_by_id_lem predecessor wp) (
            map-map (λ (p : Profile). (p.id, p)) (λ e. e.0) (λ p. p.id) predecessor.profiles
              (λ p. refl)) in
        let (t, h1) =
          fail_if->>-eq-ok (not (same_logical_records current predecessor)) invalid _ h in
        let same = same_logical_records-SameRecords (ground (arith, t)) in
        let (d, e, h2) = >>=-eq-ok (difference_loop current predecessor ids no_difference) _ h1 in
        let (u, h3) = fail_if->>-eq-ok (refuses_totals current predecessor d) invalid _ h2 in
        elim (difference_loop-cases current predecessor ids no_difference d (rw e_ids named) e) [
          | inl (_, none_found) ↦ absurd (
              let z : is_empty d.changed_profile ≡ true = rw none_found refl in
              ground (arith, z, u))
          | inr (changed, _, inside, others) ↦
              bind_difference-IsRotationOf d b retiring active same changed (rw e_ids at inside)
                (All_of_map _ (λ (p : Profile). p.id) predecessor.profiles (rw e_ids at others)) h3
        ]
