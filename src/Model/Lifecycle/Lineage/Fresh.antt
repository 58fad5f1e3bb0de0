-- ===== src/Model/Lifecycle/Lineage/Fresh.antt =====
-- What `ValidateRotationCandidateIntent` of `internal/dkim2model/lifecycle.go` proves of a rotation.
use opendkim_manage_go.Prelude.{
  ℕ, ◌+◌, ◌≤◌, ◌≡◌, ◌≢◌, ◌⊎◌, inl, inr, ap, ◌∙◌, subst, true, false, not, ◌||◌, List, [], ◌∷◌, map,
  some, length, keep, contains, all, all→All, All, All-map, ok, or_fail, or_fail-eq_ok, >>=-eq-ok,
  fail_if->>-eq-ok, ltb, ◌==◌, ◌!=◌, nat_eq, text_eq, eq_of_beq, ne_of_beq, Bool-cases,
  Option-cases, arith,
}
use opendkim_manage_go.Model.Error.{invalid}
use opendkim_manage_go.Model.Crypto.{Codecs, canonical_dns_public_bytes}
use opendkim_manage_go.Model.Records.{Profile, Credential, Policy}
use opendkim_manage_go.Model.Generation.{Generation, validate, profile_by_id, of_profile}
use opendkim_manage_go.Model.Generation.Validate.{validate-IsWellFormed}
use opendkim_manage_go.Model.Rotation.{exact_active_binding}
use opendkim_manage_go.Model.Rotation.Exact.{exact_active_binding-IsBound}
use opendkim_manage_go.Model.Lifecycle.{LifecycleBinding, LifecycleCredential}
use opendkim_manage_go.Model.Lifecycle.Logical.{exclusive_policy_for_profile}
use opendkim_manage_go.Model.Lifecycle.Difference.{unique_rotated_binding}
use opendkim_manage_go.Model.Lifecycle.Difference.Meaning.{
  IsRotationOf, unique_rotated_binding-IsRotationOf,
}
use opendkim_manage_go.Model.Lifecycle.Lineage.{
  Clock, LineageFact, LineageHistory, refuses_fact, new_lineage_fact, clone_facts, clone_history,
  records_credential, projects_credential, validate_generation_lineage_projection, reuses_fact,
  all_new, refuses_candidate, validate_rotation_candidate_intent,
}

module _ (clock : Clock) (codecs : Codecs) where
  new_lineage_fact-same : (f f' : LineageFact) → new_lineage_fact clock codecs f ≡ ok f' → f' ≡ f
  unfolding new_lineage_fact
  new_lineage_fact-same f f' h =
      let (_, h1) = fail_if->>-eq-ok (refuses_fact clock codecs f) invalid _ h in
      let (_, _, h2) =
        >>=-eq-ok (or_fail (canonical_dns_public_bytes codecs f.algorithm f.public_spki) invalid) _
          h1 in
      ground (arith, h2)

  clone_facts-same :
      (facts clones : List LineageFact)
      → clone_facts clock codecs facts ≡ ok clones
      → clones ≡ facts
  unfolding clone_facts
  clone_facts-same [] clones h = ground (arith, h)
  clone_facts-same (f ∷ rest) clones h =
      let (f', e, h1) = >>=-eq-ok (or_fail (new_lineage_fact clock codecs f) invalid) _ h in
      let (others, e', h2) = >>=-eq-ok (clone_facts clock codecs rest) _ h1 in
      let head =
        new_lineage_fact-same f f' (or_fail-eq_ok (new_lineage_fact clock codecs f) invalid e) in
      let tail = clone_facts-same rest others e' in ground (arith, h2, head, tail)

  -- A validated history is the given one.
  pub clone_history-same : (h h' : LineageHistory) → clone_history clock codecs h ≡ ok h' → h' ≡ h
  unfolding clone_history
  clone_history-same h h' e =
      let (facts, k, e1) = >>=-eq-ok (clone_facts clock codecs h.facts) _ e in
      let same = clone_facts-same h.facts facts k in ground (arith, e1, same)

-- The history has, of the generation, just one fact for each credential, under the tenant and use of
-- its profile's one policy and the domain of its profile.
abbrev pub IsRecorded : Generation → List LineageFact → Credential → Type 0
IsRecorded g facts c =
    (profile : Profile) × (policy : Policy) × (profile_by_id g.profiles c.profile_id ≡ some profile)
    × (exclusive_policy_for_profile g c.profile_id ≡ some policy)
    × (length (keep (records_credential g.number policy profile c) facts) ≡ 1)

pub record IsProjected (g : Generation) (facts : List LineageFact) : Type 0 where
  pub recorded : All (IsRecorded g facts) g.credentials
  pub count : length (keep (λ f. f.generation == g.number) facts) ≡ length g.credentials

projects_credential-IsRecorded :
    (g : Generation) (facts : List LineageFact) (c : Credential)
    → projects_credential g.number facts
        (profile_by_id g.profiles c.profile_id)
        (exclusive_policy_for_profile g c.profile_id)
        c
      ≡ true
    → IsRecorded g facts c
unfolding projects_credential
projects_credential-IsRecorded g facts c h =
    elim (Option-cases (profile_by_id g.profiles c.profile_id)) [
      | inl n ↦ cc (rw (n, projects_credential) at h)
      | inr (profile, e) ↦ elim (Option-cases (exclusive_policy_for_profile g c.profile_id)) [
        | inl n ↦ cc (rw (e, n, projects_credential) at h)
        | inr (policy, e') ↦
            let h1 = rw (e, e', projects_credential) at h in
            (profile, policy, e, e', ground (arith, h1))
      ]
    ]

validate_generation_lineage_projection-IsProjected :
    (g : Generation) (history : LineageHistory)
    → validate_generation_lineage_projection g history g.number ≡ ok tt
    → IsProjected g history.facts
unfolding validate_generation_lineage_projection
validate_generation_lineage_projection-IsProjected g history h =
    let (_, h1) = fail_if->>-eq-ok (g.number != g.number) invalid _ h in
    let (n, h2) =
      fail_if->>-eq-ok
        (length (keep (λ f. f.generation == g.number) history.facts) != length g.credentials)
        invalid _ h1 in
    let one = λ (c : Credential).
      projects_credential g.number history.facts (profile_by_id g.profiles c.profile_id)
        (exclusive_policy_for_profile g c.profile_id) c in
    record {
      recorded =
          All-map _ _ g.credentials (λ c e. projects_credential-IsRecorded g history.facts c e)
            (all→All one g.credentials (ground (arith, h2)));
      count = ground (arith, n);
    }

-- An earlier fact shares no selector, no handle and no public key of one algorithm with a credential.
abbrev pub IsApart : ℕ → Credential → LineageFact → Type 0
IsApart number c f =
    (number ≤ f.generation)
    ⊎ ((f.selector ≢ c.selector)
        × (f.handle ≢ c.handle_id)
        × ((f.algorithm ≢ c.algorithm) ⊎ (f.public_spki ≢ c.public_spki)))

pub reuses_fact-IsApart :
    (number : ℕ) (c : Credential) (f : LineageFact)
    → (not (ltb f.generation number) || not (reuses_fact c f)) ≡ true
    → IsApart number c f
unfolding reuses_fact
reuses_fact-IsApart number c f h = elim (Bool-cases (ltb f.generation number)) [
  | inr later ↦ inl (ground (arith, later))
  | inl t ↦
      let k : reuses_fact c f ≡ false = ground (arith, h, t) in
      inr (
        ne_of_beq f.selector c.selector (ground (arith, k)),
        ne_of_beq f.handle c.handle_id (ground (arith, k)),
        elim (Bool-cases (f.algorithm == c.algorithm)) [
          | inr a ↦ inl (ne_of_beq f.algorithm c.algorithm a)
          | inl a ↦ inr (ne_of_beq f.public_spki c.public_spki (ground (arith, k, a)))
        ],
      )
]

all_new-IsApart :
    (number : ℕ) (facts : List LineageFact) (cs : List Credential)
    → all_new number facts cs ≡ true
    → All (λ c. All (IsApart number c) facts) cs
unfolding all_new
all_new-IsApart number facts cs h =
    All-map _ _ cs
      (λ c k.
        All-map _ _ facts (λ f e. reuses_fact-IsApart number c f e)
          (all→All (λ f. not (ltb f.generation number) || not (reuses_fact c f)) facts k))
      (all→All (λ c. all (λ f. not (ltb f.generation number) || not (reuses_fact c f)) facts) cs h)

module _ (clock : Clock) (codecs : Codecs) (current candidate : Generation)
    (history : LineageHistory) where
  -- A rotation of the current generation whose new credentials no earlier generation had.
  pub record IsFreshRotation (b : LifecycleBinding) : Type 0 where
    pub whole : history.is_whole ≡ true
    pub next : candidate.number ≡ current.number + 1
    pub retiring : List LifecycleCredential
    pub active : List LifecycleCredential
    pub rotation : IsRotationOf candidate current b retiring active
    pub no_later : All (λ f. f.generation ≤ candidate.number) history.facts
    pub current_projected : IsProjected current history.facts
    pub candidate_projected : IsProjected candidate history.facts
    pub apart :
        All
          (λ c. All (IsApart candidate.number c) history.facts)
          (of_profile b.profile_id candidate.credentials)

  -- A rotation candidate that `ValidateRotationCandidateIntent` accepts, both generations accepted by
  -- `validate` and the current one without an empty profile identifier, is the next generation and a
  -- rotation of the current one; the history is complete, has no later fact and just one fact for each
  -- credential of the two; and no fact of a generation before the candidate's shares a selector, a
  -- handle, or the public key of an algorithm with the changed profile's new credentials.
  pub validate_rotation_candidate_intent-IsFreshRotation :
      (b : LifecycleBinding)
      → validate current ≡ true
      → validate candidate ≡ true
      → contains (map (λ p. p.id) current.profiles) [] ≡ false
      → validate_rotation_candidate_intent clock codecs current candidate history ≡ ok b
      → IsFreshRotation b
  unfolding validate_rotation_candidate_intent refuses_candidate
  validate_rotation_candidate_intent-IsFreshRotation b vc vn named h =
      let (n, h1) = fail_if->>-eq-ok (refuses_candidate current candidate history) invalid _ h in
      let (cloned, e, h2) = >>=-eq-ok (or_fail (clone_history clock codecs history) invalid) _ h1 in
      let same =
        clone_history-same clock codecs history cloned
          (or_fail-eq_ok (clone_history clock codecs history) invalid e) in
      let (_, h3) = fail_if->>-eq-ok (not cloned.is_whole) invalid _ h2 in
      let (late, h4) =
        fail_if->>-eq-ok (not (all (λ f. not (ltb candidate.number f.generation)) cloned.facts))
          invalid _ h3 in
      let (d, e1, h5) = >>=-eq-ok (unique_rotated_binding candidate current) _ h4 in
      let (_, c1, h6) =
        >>=-eq-ok (validate_generation_lineage_projection current cloned current.number) _ h5 in
      let (_, c2, h7) =
        >>=-eq-ok (validate_generation_lineage_projection candidate cloned candidate.number) _ h6 in
      let (bound, e2, h8) =
        >>=-eq-ok
          (or_fail (exact_active_binding candidate d.0.tenant d.0.domain d.0.profile_use) invalid) _
          h7 in
      let (id, h9) = fail_if->>-eq-ok (bound.1.id != d.0.profile_id) invalid _ h8 in
      let (new, h10) =
        fail_if->>-eq-ok (not (all_new candidate.number cloned.facts bound.2)) invalid _ h9 in
      let facts_same : cloned.facts ≡ history.facts = ap (λ x. x.facts) same in
      let eb : d.0 ≡ b = ground (arith, h10) in
      let (_, _, _, its) =
        exact_active_binding-IsBound candidate d.0.tenant d.0.domain d.0.profile_use bound (
          or_fail-eq_ok (exact_active_binding candidate d.0.tenant d.0.domain d.0.profile_use)
            invalid e2) in
      let taken : bound.2 ≡ of_profile b.profile_id candidate.credentials =
        its.all_credentials
        ∙ ap (λ x. of_profile x candidate.credentials)
            (eq_of_beq bound.1.id d.0.profile_id (ground (arith, id))
              ∙ ap (λ x. x.profile_id) eb) in
      record {
        whole = ground (arith, n);
        next = ground (arith, n);
        retiring = d.1;
        active = d.2;
        rotation =
            subst (λ x. IsRotationOf candidate current x d.1 d.2) eb
              (unique_rotated_binding-IsRotationOf candidate current
                (validate-IsWellFormed candidate vn) (validate-IsWellFormed current vc) d.0 d.1 d.2
                named e1);
        no_later = rw facts_same at (
            All-map _ (λ f. f.generation ≤ candidate.number) cloned.facts (λ f k. ground (arith, k))
              (all→All (λ f. not (ltb candidate.number f.generation)) cloned.facts
                (ground (arith, late))));
        current_projected =
            rw facts_same at (validate_generation_lineage_projection-IsProjected current cloned c1);
        candidate_projected =
            rw facts_same at
              (validate_generation_lineage_projection-IsProjected candidate cloned c2);
        apart =
            subst (λ cs. All (λ c. All (IsApart candidate.number c) history.facts) cs) taken
              (subst (λ fs. All (λ c. All (IsApart candidate.number c) fs) bound.2) facts_same
                (all_new-IsApart candidate.number cloned.facts bound.2 (ground (arith, new))));
      }
