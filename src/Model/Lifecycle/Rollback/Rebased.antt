-- ===== src/Model/Lifecycle/Rollback/Rebased.antt =====
-- What `PlanForwardRollback` of `internal/dkim2model/lifecycle.go` plans.
use opendkim_manage_go.Prelude.{
  ◌+◌, ◌<◌, ◌≡◌, ap, false, not, List, [], ◌∷◌, ◌++◌, map, some, ◌&&◌, keep, contains, ok, or_fail,
  or_fail-eq_ok, >>=-eq-ok, fail_if->>-eq-ok, ◌==◌, nat_eq, text_eq, eq_of_beq, arith,
}
use opendkim_manage_go.Prelude.Sort.{sort_func}
use opendkim_manage_go.Model.Error.{invalid}
use opendkim_manage_go.Model.Values.{status_active, state_staging, state_committed}
use opendkim_manage_go.Model.KeyMaterial.{material_handle}
use opendkim_manage_go.Model.Records.{
  Profile, Credential, Policy, rebase_profile, rebase_credential, rebase_policy,
}
use opendkim_manage_go.Model.Generation.{Generation, key_of_policy, of_profile, sort_records}
use opendkim_manage_go.Model.Generation.Order.{
  compare_profiles, compare_credentials, compare_policies,
}
use opendkim_manage_go.Model.Generation.WellFormed.{IsWellFormed}
use opendkim_manage_go.Model.Generation.Validate.{
  new_generation_with_state-IsBuilt, new_generation_with_state-IsWellFormed,
}
use opendkim_manage_go.Model.Builder.{rebase_materials}
use opendkim_manage_go.Model.Rotation.{exact_active_binding}
use opendkim_manage_go.Model.Rotation.Exact.{IsBound, exact_active_binding-IsBound}
use opendkim_manage_go.Model.Lifecycle.{intent_forward_rollback, lifecycle_binding}
use opendkim_manage_go.Model.Lifecycle.Rollback.{
  ForwardRollbackPlan, ForwardRollbackTransition, bindings_equal, rebase_source, removed_handles,
  rebase_source_binding, refuses_rollback, plan_forward_rollback,
}

module _ (plan : ForwardRollbackPlan) where
  -- A generation that has the source's binding in place of the current one.
  pub record IsRebased (now_policy : Policy) (now_profile : Profile) (past_policy : Policy)
      (past_profile : Profile) (g : Generation) : Type 0 where
    pub well_formed : IsWellFormed g
    pub number : g.number ≡ plan.next_generation
    pub state : g.state ≡ state_staging
    pub profiles :
        g.profiles
        ≡ sort_func compare_profiles (
            map
              (rebase_profile plan.next_generation)
              (keep (λ p. not (p.id == now_profile.id)) plan.current.profiles)
            ++ (rebase_profile plan.next_generation past_profile ∷ []))
    pub credentials :
        g.credentials
        ≡ sort_func compare_credentials (
            map
              (rebase_credential plan.next_generation)
              (keep (λ c. not (c.profile_id == now_profile.id)) plan.current.credentials)
            ++ map
                (rebase_credential plan.next_generation)
                (of_profile past_profile.id plan.source.credentials))
    pub policies :
        g.policies
        ≡ sort_func compare_policies (
            map
              (rebase_policy plan.next_generation)
              (keep (λ p. not (key_of_policy p == key_of_policy now_policy)) plan.current.policies)
            ++ (rebase_policy plan.next_generation past_policy ∷ []))

  rebase_source_binding-IsRebased :
      (now_policy : Policy) (now_profile : Profile) (past_policy : Policy) (past_profile : Profile)
      (g : Generation)
      → rebase_source_binding plan now_policy now_profile past_policy past_profile ≡ ok g
      → IsRebased now_policy now_profile past_policy past_profile g
  unfolding rebase_source_binding sort_records
  rebase_source_binding-IsRebased now_policy now_profile past_policy past_profile g h =
      let n = plan.next_generation in
      let removed = removed_handles plan.current now_profile.id in
      let taken = of_profile past_profile.id plan.source.credentials in
      let (kept, _, h1) =
        >>=-eq-ok
          (rebase_materials n
            (keep (λ m. not (contains removed (material_handle m))) plan.current.materials))
          _ h in
      let (rebased, _, h2) = >>=-eq-ok (rebase_source n plan.source.materials taken) _ h1 in
      let i = new_generation_with_state-IsBuilt _ _ _ _ _ _ _ g h2 in
      record {
        well_formed = new_generation_with_state-IsWellFormed _ _ _ _ _ _ _ g h2;
        number = ap (λ x. x.number) i.sorted;
        state = ap (λ x. x.state) i.sorted;
        profiles = ap (λ x. x.profiles) i.sorted;
        credentials = ap (λ x. x.credentials) i.sorted;
        policies = ap (λ x. x.policies) i.sorted;
      }

  -- The one policy of a generation for the plan's tenant, domain and use, which is active.
  pub record IsSought (g : Generation) (policy : Policy) : Type 0 where
    pub active : policy.status ≡ status_active
    pub tenant : policy.tenant_id ≡ plan.tenant_id
    pub domain : policy.domain ≡ plan.domain
    pub profile_use : policy.profile_use ≡ plan.profile_use
    pub alone :
        keep
          (λ q.
            q.tenant_id == plan.tenant_id
            && (q.domain == plan.domain && q.profile_use == plan.profile_use))
          g.policies
        ≡ policy ∷ []

  exact_active_binding-IsSought :
      (g : Generation) (b : Policy × Profile × List Credential)
      → exact_active_binding g plan.tenant_id plan.domain plan.profile_use ≡ ok b
      → IsSought g b.0 × IsBound g b.0 b.1 b.2
  exact_active_binding-IsSought g b h =
      let (active, named, alone, bound) =
        exact_active_binding-IsBound g plan.tenant_id plan.domain plan.profile_use b h in
      let policy = b.0 in
      (
        record {
          active = active;
          tenant = eq_of_beq policy.tenant_id plan.tenant_id (ground (arith, named));
          domain = eq_of_beq policy.domain plan.domain (ground (arith, named));
          profile_use = eq_of_beq policy.profile_use plan.profile_use (ground (arith, named));
          alone = alone;
        },
        bound,
      )

module _ (plan : ForwardRollbackPlan) (t : ForwardRollbackTransition) where
  -- An open transition to the next staged generation, in which one binding is a retained one's.
  pub record IsRollback : Type 0 where
    pub intent : t.intent ≡ intent_forward_rollback
    pub now_open : t.is_closed ≡ false
    pub expected : t.expected_current ≡ plan.current.number
    pub from : t.source ≡ plan.source.number
    pub older : plan.source.number < plan.current.number
    pub next : plan.next_generation ≡ plan.current.number + 1
    pub committed : plan.current.state ≡ state_committed
    pub committed_source : plan.source.state ≡ state_committed
    -- The binding in the current generation and in the source, which differ.
    pub now : Policy × Profile × List Credential
    pub sought_now : IsSought plan plan.current now.0
    pub bound_now : IsBound plan.current now.0 now.1 now.2
    pub past : Policy × Profile × List Credential
    pub sought_past : IsSought plan plan.source past.0
    pub bound_past : IsBound plan.source past.0 past.1 past.2
    pub differ : bindings_equal plan.current now plan.source past ≡ false
    pub binding : t.binding ≡ lifecycle_binding past.0
    pub candidate : Generation
    pub owned : t.candidate ≡ some candidate
    pub rebased : IsRebased plan now.0 now.1 past.0 past.1 candidate

  -- A forward rollback that `PlanForwardRollback` plans goes from a committed generation to the next
  -- number, never back: its candidate is staged, complete and consistent. The source is an earlier
  -- committed generation; in it and in the current one just one policy has the plan's tenant, domain
  -- and use, which is active, and the two bindings differ. The candidate's profiles, credentials and policies are the current ones, renumbered, but for
  -- those of the binding, which are the source's, renumbered.
  pub plan_forward_rollback-IsRollback : plan_forward_rollback plan ≡ ok t → IsRollback
  unfolding plan_forward_rollback refuses_rollback
  plan_forward_rollback-IsRollback h =
      let (n, h1) = fail_if->>-eq-ok (refuses_rollback plan) invalid _ h in
      let (now, e_now, h2) =
        >>=-eq-ok (exact_active_binding plan.current plan.tenant_id plan.domain plan.profile_use) _
          h1 in
      let source = exact_active_binding plan.source plan.tenant_id plan.domain plan.profile_use in
      let (past, e_past, h3) = >>=-eq-ok (or_fail source invalid) _ h2 in
      let (differ, h4) =
        fail_if->>-eq-ok (bindings_equal plan.current now plan.source past) invalid _ h3 in
      let (g, e, h5) = >>=-eq-ok (rebase_source_binding plan now.0 now.1 past.0 past.1) _ h4 in
      let (sought_now, bound_now) = exact_active_binding-IsSought plan plan.current now e_now in
      let (sought_past, bound_past) =
        exact_active_binding-IsSought plan plan.source past (or_fail-eq_ok source invalid e_past) in
      record {
        intent = ground (arith, h5);
        now_open = ground (arith, h5);
        expected = ground (arith, h5);
        from = ground (arith, h5);
        older = ground (arith, n);
        next = ground (arith, n);
        committed = eq_of_beq plan.current.state state_committed (ground (arith, n));
        committed_source = eq_of_beq plan.source.state state_committed (ground (arith, n));
        now = now;
        sought_now = sought_now;
        bound_now = bound_now;
        past = past;
        sought_past = sought_past;
        bound_past = bound_past;
        differ = differ;
        binding = ground (arith, h5);
        candidate = g;
        owned = ground (arith, h5);
        rebased = rebase_source_binding-IsRebased plan now.0 now.1 past.0 past.1 g e;
      }
