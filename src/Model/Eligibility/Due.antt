-- ===== src/Model/Eligibility/Due.antt =====
-- Which bindings `EligibleBindings` of `internal/dkim2model/rotation.go` lists.
use opendkim_manage_go.Prelude.{
  ℕ, ◌+◌, ◌≡◌, ◌≢◌, refl, ◌∙◌, true, false, not, ◌||◌, List, [], ◌∷◌, ◌++◌, ok, is_err, >>=-eq-ok,
  fail_if->>-eq-ok, ◌==◌, nat_eq, text_eq, ne_of_beq, Bool-cases, inl, inr, arith,
}
use opendkim_manage_go.Prelude.Int.{pos, ltb_ℤ}
use opendkim_manage_go.Prelude.Lists.Keep.{append-nil}
use opendkim_manage_go.Prelude.Maps.{append_one}
use opendkim_manage_go.Prelude.Sort.{sort_func}
use opendkim_manage_go.Model.Error.{invalid}
use opendkim_manage_go.Model.Instant.{Time, after, add}
use opendkim_manage_go.Model.Values.{status_active}
use opendkim_manage_go.Model.Records.{Policy}
use opendkim_manage_go.Model.Generation.{Generation, profile_by_id}
use opendkim_manage_go.Model.Lifecycle.Lineage.{Clock, LineageFact, LineageHistory}
use opendkim_manage_go.Model.Eligibility.{
  RotationLimits, validate_rotation_limits, EligibilityDecision, binding_since, decision_of,
  policy_loop, compare_decisions, eligible_bindings,
}
use opendkim_manage_go.Model.Eligibility.Since.{HasSince, binding_since-HasSince}

module _ (clock : Clock) (now : Time) (limits : RotationLimits) where
  -- Each active policy is due, and listed, or has newer keys.
  pub data Decides (g : Generation) (facts : List LineageFact)
      : List Policy → List EligibilityDecision → Type 0 where
    decides_none : Decides g facts [] []
    decides_inactive :
        (p : Policy) (ps : List Policy) (ds : List EligibilityDecision)
        → p.status ≢ status_active
        → Decides g facts ps ds
        → Decides g facts (p ∷ ps) ds
    decides_later :
        (p : Policy) (ps : List Policy) (ds : List EligibilityDecision) (t : Time)
        → HasSince clock now limits g facts p t
        → after (add t limits.rotate_after) now ≡ true
        → Decides g facts ps ds
        → Decides g facts (p ∷ ps) ds
    decides_due :
        (p : Policy) (ps : List Policy) (ds : List EligibilityDecision) (t : Time)
        → HasSince clock now limits g facts p t
        → after (add t limits.rotate_after) now ≡ false
        → Decides g facts ps ds
        → Decides g facts (p ∷ ps) (decision_of clock now limits p t ∷ ds)

  policy_loop-Decides :
      (g : Generation) (facts : List LineageFact) (active : ℕ) (due : List EligibilityDecision)
      (ps : List Policy) (last : List EligibilityDecision)
      → policy_loop clock now limits g facts active due ps ≡ ok last
      → (ds : List EligibilityDecision) × (last ≡ due ++ ds) × Decides g facts ps ds
  unfolding policy_loop
  policy_loop-Decides g facts active due [] last h =
      ([], rw (append-nil due) (ground (arith, h)), decides_none)
  policy_loop-Decides g facts active due (p ∷ ps) last h =
      elim (Bool-cases (p.status == status_active)) [
        | inr f ↦
            let (ds, same, rest) = policy_loop-Decides g facts active due ps last (rw f at h) in
            (ds, same, decides_inactive p ps ds (ne_of_beq p.status status_active f) rest)
        | inl t ↦
            let (_, h1) =
              fail_if->>-eq-ok (ltb_ℤ limits.maximum_bindings (pos (active + 1))) invalid _
                (rw t at h) in
            let found = profile_by_id g.profiles p.profile_id in
            let (since, e, h2) = >>=-eq-ok (binding_since clock now limits g facts p found) _ h1 in
            let has = binding_since-HasSince clock now limits g facts p found since refl e in
            elim (Bool-cases (after (add since limits.rotate_after) now)) [
              | inl y ↦
                  let (ds, same, rest) =
                    policy_loop-Decides g facts (active + 1) due ps last (rw y at h2) in
                  (ds, same, decides_later p ps ds since has y rest)
              | inr y ↦
                  let d = decision_of clock now limits p since in
                  let (ds, same, rest) =
                    policy_loop-Decides g facts (active + 1) (due ++ (d ∷ [])) ps last
                      (rw y at h2) in
                  (d ∷ ds, same ∙ append_one due d ds, decides_due p ps ds since has y rest)
            ]
      ]

  -- The decisions that `EligibleBindings` returns are those of the active policies whose keys are old
  -- enough, in the order of their bindings: each active policy has an active profile with credentials
  -- and a time since which it has them, which is that of a fact of one of them and of no later than any
  -- such fact; it is listed with that time just where the time plus the rotation interval is not after
  -- now.
  pub eligible_bindings-Decides :
      (g : Generation) (history : LineageHistory) (decisions : List EligibilityDecision)
      → eligible_bindings clock now limits g history ≡ ok decisions
      → (ds : List EligibilityDecision) × (decisions
          ≡ sort_func (compare_decisions clock now limits) ds)
        × Decides g history.facts g.policies ds
  unfolding eligible_bindings
  eligible_bindings-Decides g history decisions h =
      let (_, h1) =
        fail_if->>-eq-ok
          (not now.utc || (not history.is_whole || is_err (validate_rotation_limits limits)))
          invalid _ h in
      let (due, e, h2) =
        >>=-eq-ok (policy_loop clock now limits g history.facts 0 [] g.policies) _ h1 in
      let (ds, same, decides) = policy_loop-Decides g history.facts 0 [] g.policies due e in
      (ds, ground (arith, h2, same), decides)
