-- ===== src/Model/Builder/Upsert.antt =====
-- The lookups behind `UpsertPolicy` of the `Builder` (`internal/dkim2model/generation.go`).
use opendkim_manage_go.Prelude.{
  ◌≡◌, ◌≢◌, refl, sym, false, List, [], ◌∷◌, none, some, Text, find_first, ◌==◌, ◌!=◌, nat_eq,
  text_eq, eq_of_beq, beq_self, Bool-cases, inl, inr, arith,
}
use opendkim_manage_go.Model.Records.{Policy}
use opendkim_manage_go.Model.Generation.{key_of_policy, policy_by_key}
use opendkim_manage_go.Model.Builder.{Builder, upsert_in, upsert_policy}

module _ (policy : Policy) where
  upsert_in-same :
      (ps : List Policy)
      → find_first (λ p. key_of_policy p == key_of_policy policy) (upsert_in policy ps)
        ≡ some policy
  unfolding upsert_in find_first
  upsert_in-same [] = rw (beq_self (key_of_policy policy)) refl
  upsert_in-same (p ∷ ps) = elim (Bool-cases (key_of_policy p == key_of_policy policy)) [
    | inl t ↦ rw (t, beq_self (key_of_policy policy)) refl
    | inr f ↦ rw (f, upsert_in-same ps, f) refl
  ]

  upsert_in-other :
      (key : Text) (ps : List Policy)
      → (key_of_policy policy == key) ≡ false
      → find_first (λ p. key_of_policy p == key) (upsert_in policy ps)
        ≡ find_first (λ p. key_of_policy p == key) ps
  unfolding upsert_in find_first
  upsert_in-other key [] n = rw (n) refl
  upsert_in-other key (p ∷ ps) n = elim (Bool-cases (key_of_policy p == key_of_policy policy)) [
    | inl t ↦ rw (t, n, eq_of_beq (key_of_policy p) (key_of_policy policy) t, n) refl
    | inr f ↦ rw (f, upsert_in-other key ps n) refl
  ]

  not-same : (key : Text) → key ≢ key_of_policy policy → (key_of_policy policy == key) ≡ false
  not-same key n = elim (Bool-cases (key_of_policy policy == key)) [
    | inl t ↦ absurd (n (sym (eq_of_beq (key_of_policy policy) key t)))
    | inr f ↦ f
  ]

  -- A call of `UpsertPolicy` that succeeds was given a policy of the builder's generation. Behind it the policy is found under its own key, and under any other key what was found before.
  pub upsert_policy-lookup :
      (b b' : Builder)
      → upsert_policy b policy ≡ (b', none)
      → (policy.generation ≡ b.number)
        × (policy_by_key b'.policies (key_of_policy policy) ≡ some policy)
        × ((key : Text)
            → key ≢ key_of_policy policy
            → policy_by_key b'.policies key ≡ policy_by_key b.policies key)
  unfolding upsert_policy policy_by_key
  upsert_policy-lookup b b' h = elim (Bool-cases (policy.generation != b.number)) [
    | inl t ↦ absurd (ground (arith, h, t))
    | inr f ↦
        let e : b'.policies ≡ upsert_in policy b.policies = ground (arith, h, f) in
        (
          ground (arith, f),
          rw (e) (upsert_in-same b.policies),
          λ key n. rw (e) (upsert_in-other key b.policies (not-same key n)),
        )
  ]
