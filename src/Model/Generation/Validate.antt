-- ===== src/Model/Generation/Validate.antt =====
-- `validate` of `internal/dkim2model/generation.go` accepts only well-formed generations.
use opendkim_manage_go.Prelude.{
  ℕ, ◌≡◌, ◌≢◌, true, not, ◌||◌, List, [], map, Option, Text, length, distinct, all, all→All,
  All-map, arith, ◌==◌, ◌!=◌, nat_eq, text_eq, ok, fail_if->>-eq-ok, sym, Bool-cases, inl, inr,
  >>=-eq-ok,
}
use opendkim_manage_go.Model.Error.{invalid}
use opendkim_manage_go.Model.Values.{is_known_state, DatasetState}
use opendkim_manage_go.Model.KeyMaterial.{KeyMaterial, material_handle}
use opendkim_manage_go.Model.Records.{Handle, Profile, Credential, Policy}
use opendkim_manage_go.Model.Generation.{
  Generation, validate, handle_round, profile_round, has_credential, of_profile, key_of_policy,
  selection_key, new_generation_with_state, sort_records, clone_materials, validated, is_incomplete,
}
use opendkim_manage_go.Model.Generation.Loops.{
  admit_all, admit_all-All, admit_all-distinct, admit_all-distinct-keep,
}
use opendkim_manage_go.Model.Generation.WellFormed.{IsWellFormed}
use opendkim_manage_go.Model.Generation.Rounds.{
  handle_round-owns, handle_round-fresh, profile_round-owns, profile_round-fresh,
  credential_round_of, credential_round-owns, credential_round-fresh_handle,
  credential_round-fresh_selector, credential_round-fresh_algorithm, policy_round_of,
  policy_round-owns, policy_round-fresh, material_round_of, material_round-owns,
  material_round-fresh_handle, material_round-fresh_selection,
}

-- The parts of `validate`, one for each loop.
record Parts (g : Generation) : Type 0 where
  head : not (g.number == 0 || not (is_known_state g.state)) ≡ true
  handles : admit_all (handle_round g.number) [] g.handles ≡ true
  profiles : admit_all (profile_round g.number) [] g.profiles ≡ true
  credentials : admit_all (credential_round_of g) [] g.credentials ≡ true
  covered : all (has_credential g.credentials) g.profiles ≡ true
  policies : admit_all (policy_round_of g) [] g.policies ≡ true
  materials : admit_all (material_round_of g) [] g.materials ≡ true
  counts :
      not (length g.materials != length g.credentials || length g.handles != length g.credentials)
      ≡ true

parts : (g : Generation) → validate g ≡ true → Parts g
unfolding validate
parts g h = record {
  head = ground (arith, h);
  handles = ground (arith, h);
  profiles = ground (arith, h);
  credentials = ground (arith, h);
  covered = ground (arith, h);
  policies = ground (arith, h);
  materials = ground (arith, h);
  counts = ground (arith, h);
}

has_credential-ne_zero :
    (cs : List Credential) (p : Profile)
    → has_credential cs p ≡ true
    → length (of_profile p.id cs) ≢ 0
unfolding has_credential
has_credential-ne_zero cs p h = ground (arith, h)

unique_algorithms :
    (g : Generation) (id : Text)
    → admit_all (credential_round_of g) [] g.credentials ≡ true
    → distinct (map (λ c. c.algorithm) (of_profile id g.credentials)) ≡ true
unfolding of_profile
unique_algorithms g id h =
    (admit_all-distinct-keep (λ (c : Credential). c.algorithm) (λ c. c.profile_id == id)
      (credential_round_of g) [] g.credentials (credential_round-fresh_algorithm g id) h).0

-- Every generation that `validate` accepts is complete and consistent.
pub validate-IsWellFormed : (g : Generation) → validate g ≡ true → IsWellFormed g
validate-IsWellFormed g h =
    let p = parts g h in
    record {
      numbered = ground (arith, p.head);
      known_state = ground (arith, p.head);
      handles =
          admit_all-All _ (handle_round g.number) [] g.handles (handle_round-owns g.number)
            p.handles;
      unique_handles =
          (admit_all-distinct (λ (x : Handle). x.id) (handle_round g.number) [] g.handles
            (handle_round-fresh g.number) p.handles).0;
      profiles =
          admit_all-All _ (profile_round g.number) [] g.profiles (profile_round-owns g.number)
            p.profiles;
      unique_profiles =
          (admit_all-distinct (λ (x : Profile). x.id) (profile_round g.number) [] g.profiles
            (profile_round-fresh g.number) p.profiles).0;
      credentials =
          admit_all-All _ (credential_round_of g) [] g.credentials (credential_round-owns g)
            p.credentials;
      unique_credential_handles =
          (admit_all-distinct (λ (c : Credential). c.handle_id) (credential_round_of g) []
            g.credentials (credential_round-fresh_handle g) p.credentials).0;
      unique_selectors =
          (admit_all-distinct (λ (c : Credential). c.selector) (credential_round_of g) []
            g.credentials (credential_round-fresh_selector g) p.credentials).0;
      unique_algorithms = λ id. unique_algorithms g id p.credentials;
      covered =
          All-map _ _ g.profiles (has_credential-ne_zero g.credentials)
            (all→All (has_credential g.credentials) g.profiles p.covered);
      policies = admit_all-All _ (policy_round_of g) [] g.policies (policy_round-owns g) p.policies;
      unique_policies =
          (admit_all-distinct key_of_policy (policy_round_of g) [] g.policies (policy_round-fresh g)
            p.policies).0;
      materials =
          admit_all-All _ (material_round_of g) [] g.materials (material_round-owns g) p.materials;
      unique_material_handles =
          (admit_all-distinct material_handle (material_round_of g) [] g.materials
            (material_round-fresh_handle g) p.materials).0;
      unique_selections =
          (admit_all-distinct selection_key (material_round_of g) [] g.materials
            (material_round-fresh_selection g) p.materials).0;
      material_count = ground (arith, p.counts);
      handle_count = ground (arith, p.counts);
    }

-- What a successful construction has done: cloned the materials, sorted, and validated.
pub record IsBuilt (number : ℕ) (state : DatasetState) (hs : List Handle) (ps : List Profile)
    (cs : List Credential) (qs : List Policy) (ms : List (Option KeyMaterial)) (g : Generation)
    : Type 0 where
  pub clones : List KeyMaterial
  pub cloned : clone_materials ms ≡ ok clones
  pub sorted :
      g
      ≡ sort_records (record {
        number = number;
        state = state;
        handles = hs;
        profiles = ps;
        credentials = cs;
        policies = qs;
        materials = clones;
      })
  pub valid : validate g ≡ true

abbrev built :
    ℕ
    → DatasetState
    → List Handle
    → List Profile
    → List Credential
    → List Policy
    → List KeyMaterial
    → Generation
built number state hs ps cs qs clones = sort_records (record {
  number = number;
  state = state;
  handles = hs;
  profiles = ps;
  credentials = cs;
  policies = qs;
  materials = clones;
})

validated-eq_ok : (r g : Generation) → validated r ≡ ok g → (g ≡ r) × (validate g ≡ true)
unfolding validated
validated-eq_ok r g h = elim (Bool-cases (validate r)) [
  | inl t ↦ let e : r ≡ g = ground (arith, h, t) in (sym e, rw (← e) t)
  | inr f ↦ absurd (ground (arith, h, f))
]

module _ (number : ℕ) (state : DatasetState) (hs : List Handle) (ps : List Profile)
    (cs : List Credential) (qs : List Policy) (ms : List (Option KeyMaterial))
    (g : Generation) where
  pub new_generation_with_state-IsBuilt :
      new_generation_with_state number state hs ps cs qs ms ≡ ok g
      → IsBuilt number state hs ps cs qs ms g
  unfolding new_generation_with_state
  new_generation_with_state-IsBuilt h =
      let (_, rest) = fail_if->>-eq-ok (is_incomplete number state hs ps cs qs ms) invalid _ h in
      let (clones, cloned, v) =
        >>=-eq-ok (clone_materials ms) (λ x. validated (built number state hs ps cs qs x)) rest in
      let (sorted, valid) = validated-eq_ok (built number state hs ps cs qs clones) g v in
      record { clones = clones; cloned = cloned; sorted = sorted; valid = valid }

  -- A generation that `NewGenerationWithState` returns is complete and consistent, whatever records
  -- it was given.
  pub new_generation_with_state-IsWellFormed :
      new_generation_with_state number state hs ps cs qs ms ≡ ok g → IsWellFormed g
  new_generation_with_state-IsWellFormed h =
      validate-IsWellFormed g (new_generation_with_state-IsBuilt h).valid
