-- ===== src/Model/Lifecycle/Retirement/Proven.antt =====
-- What a retirement plan of `internal/dkim2model/lifecycle.go` proves.
use opendkim_manage_go.Prelude.{
  ◌+◌, ◌≡◌, true, false, [], map, contains, ok, fail_if->>-eq-ok, >>=-eq-ok, nat_eq, text_eq,
  eq_of_beq, arith,
}
use opendkim_manage_go.Model.Error.{invalid}
use opendkim_manage_go.Model.Values.{state_committed}
use opendkim_manage_go.Model.Generation.{Generation, validate}
use opendkim_manage_go.Model.Generation.Validate.{validate-IsWellFormed}
use opendkim_manage_go.Model.Lifecycle.{intent_retirement}
use opendkim_manage_go.Model.Lifecycle.Difference.{unique_rotated_binding}
use opendkim_manage_go.Model.Lifecycle.Difference.Meaning.{
  IsRotationOf, unique_rotated_binding-IsRotationOf,
}
use opendkim_manage_go.Model.Lifecycle.Retirement.{
  RetirementTransition, plan_retirement, refuses_retirement,
}

module _ (current predecessor : Generation) (t : RetirementTransition) where
  -- An open transition between two consecutive committed generations, the later of which is a rotation
  -- of the earlier.
  pub record IsRetirement : Type 0 where
    pub intent : t.intent ≡ intent_retirement
    pub now_open : t.is_closed ≡ false
    pub from : t.predecessor ≡ predecessor.number
    pub to : t.current ≡ current.number
    pub next : current.number ≡ predecessor.number + 1
    pub committed : current.state ≡ state_committed
    pub committed_before : predecessor.state ≡ state_committed
    pub rotation : IsRotationOf current predecessor t.binding t.retiring t.active

  -- A retirement that `PlanRetirement` plans for two generations that `validate` accepts, the earlier
  -- without an empty profile identifier, is between consecutive committed generations. All profiles
  -- and policies are the same but for the generation number; every profile but one has the same
  -- credentials and keys; every credential of that one, which an active enforced policy binds alone,
  -- has another selector, handle and key of the same algorithm in the later generation. The credentials
  -- to retire are its old ones, those to keep its new ones.
  pub plan_retirement-IsRetirement :
      validate current ≡ true
      → validate predecessor ≡ true
      → contains (map (λ p. p.id) predecessor.profiles) [] ≡ false
      → plan_retirement current predecessor ≡ ok t
      → IsRetirement
  unfolding plan_retirement refuses_retirement
  plan_retirement-IsRetirement vc vp named h =
      let (n, h1) = fail_if->>-eq-ok (refuses_retirement current predecessor) invalid _ h in
      let (d, e, h2) = >>=-eq-ok (unique_rotated_binding current predecessor) _ h1 in
      let rotation =
        unique_rotated_binding-IsRotationOf current predecessor (validate-IsWellFormed current vc)
          (validate-IsWellFormed predecessor vp) d.0 d.1 d.2 named e in
      let eb : d.0 ≡ t.binding = ground (arith, h2) in
      let er : d.1 ≡ t.retiring = ground (arith, h2) in
      let ea : d.2 ≡ t.active = ground (arith, h2) in
      record {
        intent = ground (arith, h2);
        now_open = ground (arith, h2);
        from = ground (arith, h2);
        to = ground (arith, h2);
        next = ground (arith, n);
        committed = eq_of_beq current.state state_committed (ground (arith, n));
        committed_before = eq_of_beq predecessor.state state_committed (ground (arith, n));
        rotation = rw (← eb, ← er, ← ea) rotation;
      }
