-- ===== src/Model/Lifecycle/Retirement.antt =====
-- `PlanRetirement` and `RetirementTransition` of `internal/dkim2model/lifecycle.go`. A method of a
-- transition takes `none` for a nil receiver; copies of credentials are the same values.
pub mod Proven
use opendkim_manage_go.Prelude.{
  ℕ, ◌+◌, Bool, true, false, not, ◌&&◌, ◌||◌, List, [], ◌∷◌, Option, none, some, Result, ok, err,
  fail_if, ◌>>=◌, ◌>>◌, ◌==◌, ◌!=◌, nat_eq, text_eq, if◌then◌else◌,
}
use opendkim_manage_go.Model.Error.{Error, invalid}
use opendkim_manage_go.Model.Values.{state_committed}
use opendkim_manage_go.Model.Generation.{Generation}
use opendkim_manage_go.Model.Rotation.{max_number}
use opendkim_manage_go.Model.Lifecycle.{
  TransitionIntent, intent_retirement, LifecycleBinding, LifecycleCredential, no_binding,
  clear_lifecycle_credentials,
}
use opendkim_manage_go.Model.Lifecycle.Difference.{unique_rotated_binding}

pub record RetirementTransition : Type 0 where
  pub intent : TransitionIntent
  pub predecessor : ℕ
  pub current : ℕ
  pub binding : LifecycleBinding
  pub retiring : List LifecycleCredential
  pub active : List LifecycleCredential
  pub is_closed : Bool

-- The test of `PlanRetirement`.
unfoldable pub refuses_retirement : Generation → Generation → Bool
refuses_retirement current predecessor =
    current.state != state_committed
    || (predecessor.state != state_committed
        || (predecessor.number == max_number || predecessor.number + 1 != current.number))

-- `PlanRetirement`
unfoldable pub plan_retirement : Generation → Generation → Result Error RetirementTransition
plan_retirement current predecessor = do
  fail_if (refuses_retirement current predecessor) invalid
  difference ← unique_rotated_binding current predecessor
  ok (record {
    intent = intent_retirement;
    predecessor = predecessor.number;
    current = current.number;
    binding = difference.0;
    retiring = difference.1;
    active = difference.2;
    is_closed = false;
  })

-- A read of an owner, with the value for a nil or closed one.
abbrev pub read_open {ℓ} :
    {A : Type ℓ} → A → (RetirementTransition → A) → Option RetirementTransition → A
read_open closed_value read none = closed_value
read_open closed_value read (some t) = if t.is_closed then closed_value else read t

-- `Intent`, `PredecessorGeneration`, `CurrentGeneration`, `Binding`, `RetiringCredentials` and
-- `ActiveCredentials`
unfoldable pub retirement_intent : Option RetirementTransition → TransitionIntent
retirement_intent = read_open 0 (λ t. t.intent)

unfoldable pub predecessor_generation : Option RetirementTransition → ℕ
predecessor_generation = read_open 0 (λ t. t.predecessor)

unfoldable pub current_generation : Option RetirementTransition → ℕ
current_generation = read_open 0 (λ t. t.current)

unfoldable pub retirement_binding : Option RetirementTransition → LifecycleBinding
retirement_binding = read_open no_binding (λ t. t.binding)

unfoldable pub retiring_credentials : Option RetirementTransition → List LifecycleCredential
retiring_credentials = read_open [] (λ t. t.retiring)

unfoldable pub active_credentials : Option RetirementTransition → List LifecycleCredential
active_credentials = read_open [] (λ t. t.active)

-- `RetirementTransition.Close`: the transition, and what it leaves in the two slices it held.
unfoldable pub close_retirement :
    RetirementTransition
    → RetirementTransition × List LifecycleCredential × List LifecycleCredential
close_retirement t = if t.is_closed then (t, [], []) else (
  record {
    intent = 0;
    predecessor = 0;
    current = 0;
    binding = no_binding;
    retiring = [];
    active = [];
    is_closed = true;
  },
  clear_lifecycle_credentials t.retiring,
  clear_lifecycle_credentials t.active,
)
