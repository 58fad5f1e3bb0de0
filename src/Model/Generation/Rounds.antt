-- ===== src/Model/Generation/Rounds.antt =====
-- What each round of the loops of `validate` (`internal/dkim2model/generation.go`) has checked.
use opendkim_manage_go.Prelude.{
  ℕ, ◌≡◌, refl, subst, Bool, true, false, List, map, Option, none, some, Text, contains, keep, ◌==◌,
  nat_eq, text_eq, text_beq_iff, eq_of_beq, arith, ok,
}
use opendkim_manage_go.Model.Names.{validate_identifier, validate_domain_selector}
use opendkim_manage_go.Model.Values.{status_active, rollout_enforce}
use opendkim_manage_go.Model.KeyMaterial.{
  KeyMaterial, material_handle, material_algorithm, material_public,
}
use opendkim_manage_go.Model.Records.{Handle, Profile, Credential, Policy}
use opendkim_manage_go.Model.Generation.{
  Generation, handle_round, profile_round, credential_round, policy_round, material_round,
  profile_by_id, policy_by_key, credential_by_handle, of_profile, selector_fits, policy_fits,
  material_fits, key_of_policy, key_of_material, selection_key,
}
use opendkim_manage_go.Model.Generation.WellFormed.{
  ok_of_is_err, OwnsHandle, OwnsCredential, OwnsPolicy, OwnsMaterial,
}

pub handle_round-owns :
    (number : ℕ) (s : List Handle) (h : Handle)
    → handle_round number s h ≡ true
    → OwnsHandle number h
unfolding handle_round
handle_round-owns number s h r = record {
  generation = ground (arith, r);
  identifier = ok_of_is_err (validate_identifier h.id) (ground (arith, r));
}

pub handle_round-fresh :
    (number : ℕ) (s : List Handle) (h : Handle)
    → handle_round number s h ≡ true
    → contains (map (λ x. x.id) s) h.id ≡ false
unfolding handle_round
handle_round-fresh number s h r = ground (arith, r)

pub profile_round-owns :
    (number : ℕ) (s : List Profile) (p : Profile)
    → profile_round number s p ≡ true
    → p.generation ≡ number
unfolding profile_round
profile_round-owns number s p r = ground (arith, r)

pub profile_round-fresh :
    (number : ℕ) (s : List Profile) (p : Profile)
    → profile_round number s p ≡ true
    → contains (map (λ x. x.id) s) p.id ≡ false
unfolding profile_round
profile_round-fresh number s p r = ground (arith, r)

selector_fits-found :
    (o : Option Profile) (c : Credential)
    → selector_fits o c ≡ true
    → (p : Profile) × (o ≡ some p) × (validate_domain_selector p.domain c.selector ≡ ok tt)
unfolding selector_fits
selector_fits-found none c h = cc
selector_fits-found (some p) c h =
    (p, refl, ok_of_is_err (validate_domain_selector p.domain c.selector) (ground arith))

module _ (g : Generation) where
  abbrev pub credential_round_of : List Credential → Credential → Bool
  credential_round_of = credential_round g.number (map (λ h. h.id) g.handles) g.profiles

  pub credential_round-owns :
      (s : List Credential) (c : Credential) → credential_round_of s c ≡ true → OwnsCredential g c
  unfolding credential_round
  credential_round-owns s c r =
      let (p, e, v) =
        selector_fits-found (profile_by_id g.profiles c.profile_id) c (ground (arith, r)) in
      record {
        generation = ground (arith, r);
        known = ground (arith, r);
        profile = p;
        found = e;
        owner = v;
        handle = ground (arith, r);
      }

  pub credential_round-fresh_handle :
      (s : List Credential) (c : Credential)
      → credential_round_of s c ≡ true
      → contains (map (λ x. x.handle_id) s) c.handle_id ≡ false
  unfolding credential_round
  credential_round-fresh_handle s c r = ground (arith, r)

  pub credential_round-fresh_selector :
      (s : List Credential) (c : Credential)
      → credential_round_of s c ≡ true
      → contains (map (λ x. x.selector) s) c.selector ≡ false
  unfolding credential_round
  credential_round-fresh_selector s c r = ground (arith, r)

  credential_round-fresh_algorithm_own :
      (s : List Credential) (c : Credential)
      → credential_round_of s c ≡ true
      → contains (map (λ x. x.algorithm) (of_profile c.profile_id s)) c.algorithm ≡ false
  unfolding credential_round
  credential_round-fresh_algorithm_own s c r = ground (arith, r)

  pub credential_round-fresh_algorithm :
      (id : Text) (s : List Credential) (c : Credential)
      → credential_round_of s c ≡ true
      → (c.profile_id == id) ≡ true
      → contains (map (λ x. x.algorithm) (keep (λ x. x.profile_id == id) s)) c.algorithm ≡ false
  unfolding of_profile
  credential_round-fresh_algorithm id s c r e =
      subst
        (λ t.
          contains (map (λ x. x.algorithm) (keep (λ x. x.profile_id == t) s)) c.algorithm ≡ false)
        (eq_of_beq c.profile_id id e) (credential_round-fresh_algorithm_own s c r)

  policy_fits-owns :
      (o : Option Profile) (p : Policy)
      → profile_by_id g.profiles p.profile_id ≡ o
      → policy_fits g.number o p ≡ true
      → OwnsPolicy g p
  unfolding policy_fits
  policy_fits-owns none p e h = cc
  policy_fits-owns (some q) p e h = record {
    generation = ground (arith, h);
    profile = q;
    found = e;
    domain = ground (arith, h, text_beq_iff q.domain p.domain);
    active = λ a.
        ground
          (arith, h, a, text_beq_iff p.status status_active, text_beq_iff q.status status_active);
    enforced = λ a. ground (
      arith,
      h,
      a,
      text_beq_iff p.status status_active,
      text_beq_iff q.status status_active,
      text_beq_iff p.rollout rollout_enforce,
    );
  }

  abbrev pub policy_round_of : List Policy → Policy → Bool
  policy_round_of = policy_round g.number g.profiles

  pub policy_round-owns :
      (s : List Policy) (p : Policy) → policy_round_of s p ≡ true → OwnsPolicy g p
  unfolding policy_round
  policy_round-owns s p r =
      policy_fits-owns (profile_by_id g.profiles p.profile_id) p refl (ground (arith, r))

  pub policy_round-fresh :
      (s : List Policy) (p : Policy)
      → policy_round_of s p ≡ true
      → contains (map key_of_policy s) (key_of_policy p) ≡ false
  unfolding policy_round
  policy_round-fresh s p r = ground (arith, r)

  abbrev pub material_round_of : List KeyMaterial → KeyMaterial → Bool
  material_round_of = material_round g.number (map (λ h. h.id) g.handles) g.policies g.credentials

  material_fits-found :
      (o : Option Policy) (q : Option Credential) (m : KeyMaterial)
      → material_fits o q m ≡ true
      → (p : Policy) × (c : Credential) × (o ≡ some p)
        × (q ≡ some c)
        × (p.profile_id ≡ c.profile_id)
        × (material_algorithm m ≡ c.algorithm)
        × (material_public m ≡ c.public_spki)
  unfolding material_fits
  material_fits-found none q m h = cc
  material_fits-found (some p) none m h = cc
  material_fits-found (some p) (some c) m h = (
    p,
    c,
    refl,
    refl,
    ground (arith, h, text_beq_iff p.profile_id c.profile_id),
    ground (arith, h, text_beq_iff (material_algorithm m) c.algorithm),
    ground (arith, h, text_beq_iff (material_public m) c.public_spki),
  )

  pub material_round-owns :
      (s : List KeyMaterial) (m : KeyMaterial) → material_round_of s m ≡ true → OwnsMaterial g m
  unfolding material_round
  material_round-owns s m r =
      let (p, c, fp, fc, sp, sa, sk) =
        material_fits-found (policy_by_key g.policies (key_of_material m))
          (credential_by_handle g.credentials (material_handle m)) m (ground (arith, r)) in
      record {
        generation = ground (arith, r);
        handle = ground (arith, r);
        policy = p;
        credential = c;
        found_policy = fp;
        found_credential = fc;
        same_profile = sp;
        same_algorithm = sa;
        same_public = sk;
      }

  pub material_round-fresh_handle :
      (s : List KeyMaterial) (m : KeyMaterial)
      → material_round_of s m ≡ true
      → contains (map material_handle s) (material_handle m) ≡ false
  unfolding material_round
  material_round-fresh_handle s m r = ground (arith, r)

  pub material_round-fresh_selection :
      (s : List KeyMaterial) (m : KeyMaterial)
      → material_round_of s m ≡ true
      → contains (map selection_key s) (selection_key m) ≡ false
  unfolding material_round
  material_round-fresh_selection s m r = ground (arith, r)
