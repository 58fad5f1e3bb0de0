-- ===== src/Model/Lifecycle/Rollback.antt =====
-- `PlanForwardRollback`, `rebaseSourceBinding`, `bindingsEqual` and `ForwardRollbackTransition` of
-- `internal/dkim2model/lifecycle.go`. A method of a transition takes `none` for a nil receiver.
pub mod Rebased
use opendkim_manage_go.Prelude.{
  ℕ, ◌+◌, Bool, true, false, not, ◌&&◌, ◌||◌, List, [], ◌∷◌, ◌++◌, map, Option, none, some, Text,
  length, leb, keep, contains, all, Result, ok, err, or_fail, fail_if, is_err, ◌>>=◌, ◌>>◌, ◌==◌,
  ◌!=◌, nat_eq, text_eq, if◌then◌else◌,
}
use opendkim_manage_go.Prelude.Maps.{get}
use opendkim_manage_go.Model.Error.{Error, invalid, closed}
use opendkim_manage_go.Model.Names.{validate_identifier, validate_canonical_dns_name}
use opendkim_manage_go.Model.Values.{
  ProfileUse, supports_native_key_custody, state_staging, state_committed,
}
use opendkim_manage_go.Model.KeyMaterial.{KeyMaterial, material_handle, rebase_key_material}
use opendkim_manage_go.Model.Records.{
  Handle, Profile, Credential, Policy, rebase_handle, rebase_profile, rebase_credential,
  rebase_policy,
}
use opendkim_manage_go.Model.Generation.{
  Generation, key_of_policy, material_by_handle, of_profile, new_generation_with_state,
}
use opendkim_manage_go.Model.Generation.Reads.{close_generation}
use opendkim_manage_go.Model.Builder.{rebase_materials, clone_generation}
use opendkim_manage_go.Model.Rotation.{max_number, exact_active_binding}
use opendkim_manage_go.Model.Lifecycle.{
  TransitionIntent, intent_forward_rollback, LifecycleBinding, no_binding, lifecycle_binding,
}
use opendkim_manage_go.Model.Lifecycle.Logical.{
  profiles_logical_equal, policies_logical_record_equal, credentials_logical_equal,
  materials_logical_equal, credentials_by_algorithm,
}

pub record ForwardRollbackPlan : Type 0 where
  pub current : Generation
  pub source : Generation
  pub next_generation : ℕ
  pub tenant_id : Text
  pub domain : Text
  pub profile_use : ProfileUse

pub record ForwardRollbackTransition : Type 0 where
  pub intent : TransitionIntent
  pub expected_current : ℕ
  pub source : ℕ
  pub binding : LifecycleBinding
  pub candidate : Option Generation
  pub is_closed : Bool

-- `!leftFound || !rightFound || !materialsLogicalEqual(…)`, negated.
unfoldable pub found_equal : Option KeyMaterial → Option KeyMaterial → Bool
found_equal (some left) (some right) = materials_logical_equal left right
found_equal _ _ = false

-- One round of the loop of `bindingsEqual`.
unfoldable pub equal_by_algorithm : Generation → Generation → Credential → Option Credential → Bool
equal_by_algorithm left right c none = false
equal_by_algorithm left right c (some other) =
    credentials_logical_equal c other
    && found_equal (material_by_handle left.materials c.handle_id)
        (material_by_handle right.materials other.handle_id)

-- `bindingsEqual`
unfoldable pub bindings_equal :
    Generation
    → Policy × Profile × List Credential
    → Generation
    → Policy × Profile × List Credential
    → Bool
bindings_equal left (left_policy, left_profile, left_credentials) right
      (right_policy, right_profile, right_credentials) =
    not (
      not (profiles_logical_equal left_profile right_profile)
      || (not (policies_logical_record_equal left_policy right_policy)
          || length left_credentials != length right_credentials))
    && all
        (λ c.
          equal_by_algorithm left right c
            (get c.algorithm (credentials_by_algorithm right right_profile.id)))
        left_credentials

-- The materials of the source's credentials, in the loop over the source.
unfoldable pub rebase_source :
    ℕ → List KeyMaterial → List Credential → Result Error (List KeyMaterial)
rebase_source number materials [] = ok []
rebase_source number materials (c ∷ rest) = elim (material_by_handle materials c.handle_id) [
  | none ↦ err invalid
  | some material ↦ do
    rebased ← rebase_key_material material number
    others ← rebase_source number materials rest
    ok (rebased ∷ others)
]

-- `removedHandles`
unfoldable pub removed_handles : Generation → Text → List Text
removed_handles current profile_id =
    map (λ c. c.handle_id) (of_profile profile_id current.credentials)

-- `rebaseSourceBinding`
unfoldable pub rebase_source_binding :
    ForwardRollbackPlan → Policy → Profile → Policy → Profile → Result Error Generation
rebase_source_binding plan current_policy current_profile source_policy source_profile = do
  let number = plan.next_generation
  let removed = removed_handles plan.current current_profile.id
  let taken = of_profile source_profile.id plan.source.credentials
  kept ←
      rebase_materials number
        (keep (λ m. not (contains removed (material_handle m))) plan.current.materials)
  rebased ← rebase_source number plan.source.materials taken
  new_generation_with_state number state_staging
      (map (rebase_handle number) (keep (λ h. not (contains removed h.id)) plan.current.handles)
        ++ map (λ c. record { generation = number; id = c.handle_id }) taken)
      (map (rebase_profile number)
          (keep (λ p. not (p.id == current_profile.id)) plan.current.profiles)
        ++ (rebase_profile number source_profile ∷ []))
      (map (rebase_credential number)
          (keep (λ c. not (c.profile_id == current_profile.id)) plan.current.credentials)
        ++ map (rebase_credential number) taken)
      (map (rebase_policy number)
          (keep (λ p. not (key_of_policy p == key_of_policy current_policy)) plan.current.policies)
        ++ (rebase_policy number source_policy ∷ []))
      (map some (kept ++ rebased))

-- The test of `PlanForwardRollback`.
unfoldable pub refuses_rollback : ForwardRollbackPlan → Bool
refuses_rollback plan =
    plan.current.state != state_committed
    || (plan.source.state != state_committed
        || (plan.current.number == max_number
            || (leb plan.current.number plan.source.number
                || (plan.next_generation != plan.current.number + 1
                    || (is_err (validate_identifier plan.tenant_id)
                        || (is_err (validate_canonical_dns_name plan.domain)
                            || not (supports_native_key_custody plan.profile_use)))))))

-- `PlanForwardRollback`
unfoldable pub plan_forward_rollback : ForwardRollbackPlan → Result Error ForwardRollbackTransition
plan_forward_rollback plan = do
  fail_if (refuses_rollback plan) invalid
  now ← exact_active_binding plan.current plan.tenant_id plan.domain plan.profile_use
  past ←
      or_fail (exact_active_binding plan.source plan.tenant_id plan.domain plan.profile_use) invalid
  fail_if (bindings_equal plan.current now plan.source past) invalid
  candidate ← rebase_source_binding plan now.0 now.1 past.0 past.1
  ok (record {
    intent = intent_forward_rollback;
    expected_current = plan.current.number;
    source = plan.source.number;
    binding = lifecycle_binding past.0;
    candidate = some candidate;
    is_closed = false;
  })

-- A read of an owner, with the value for a nil or closed one.
abbrev pub read_rollback {ℓ} :
    {A : Type ℓ} → A → (ForwardRollbackTransition → A) → Option ForwardRollbackTransition → A
read_rollback closed_value read none = closed_value
read_rollback closed_value read (some t) = if t.is_closed then closed_value else read t

-- `Intent`, `ExpectedCurrent`, `SourceGeneration` and `Binding`
unfoldable pub rollback_intent : Option ForwardRollbackTransition → TransitionIntent
rollback_intent = read_rollback 0 (λ t. t.intent)

unfoldable pub expected_current : Option ForwardRollbackTransition → ℕ
expected_current = read_rollback 0 (λ t. t.expected_current)

unfoldable pub source_generation : Option ForwardRollbackTransition → ℕ
source_generation = read_rollback 0 (λ t. t.source)

unfoldable pub rollback_binding : Option ForwardRollbackTransition → LifecycleBinding
rollback_binding = read_rollback no_binding (λ t. t.binding)

-- `CandidateNumber`
unfoldable pub candidate_number : Option ForwardRollbackTransition → ℕ
candidate_number =
    read_rollback 0 (λ t. elim t.candidate [ none ↦ 0 | some candidate ↦ candidate.number ])

-- `ForwardRollbackTransition.Generation`
unfoldable pub rollback_generation : Option ForwardRollbackTransition → Result Error Generation
rollback_generation =
    read_rollback (err closed)
      (λ t. elim t.candidate [ none ↦ err closed | some candidate ↦ clone_generation candidate ])

-- `t.candidate.Close()`: what it leaves of the owners that the candidate held.
abbrev pub close_candidate : Option Generation → List KeyMaterial
unfolding close_generation
close_candidate none = []
close_candidate (some candidate) = (close_generation candidate).1

-- `ForwardRollbackTransition.Close`: the transition, and what it leaves of its key material.
unfoldable pub close_rollback :
    ForwardRollbackTransition → ForwardRollbackTransition × List KeyMaterial
close_rollback t = if t.is_closed then (t, []) else (
  record {
    intent = 0;
    expected_current = 0;
    source = 0;
    binding = no_binding;
    candidate = none;
    is_closed = true;
  },
  close_candidate t.candidate,
)
