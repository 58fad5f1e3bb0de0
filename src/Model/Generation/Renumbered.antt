-- ===== src/Model/Generation/Renumbered.antt =====
-- A generation under another number (`validate` and the `rebase` functions of
-- `internal/dkim2model`) is as complete and consistent as before.
use opendkim_manage_go.Prelude.{
  ℕ, ◌≡◌, ◌≢◌, refl, ap, ◌∙◌, true, List, [], ◌∷◌, map, Option, none, some, Text, length,
  length-map, all, ◌==◌, nat_eq, text_eq, arith,
}
use opendkim_manage_go.Prelude.Lists.Mapped.{map-map, map_option, find_first-map, keep-map}
use opendkim_manage_go.Model.Values.{DatasetState, is_known_state}
use opendkim_manage_go.Model.KeyMaterial.{
  KeyMaterial, material_generation, material_handle, material_algorithm, material_public,
}
use opendkim_manage_go.Model.Records.{
  Handle, Profile, Credential, Policy, rebase_handle, rebase_profile, rebase_credential,
  rebase_policy,
}
use opendkim_manage_go.Model.Generation.{
  Generation, validate, handle_round, profile_round, credential_round, policy_round, material_round,
  selector_fits, policy_fits, material_fits, has_credential, profile_by_id, policy_by_key,
  credential_by_handle, of_profile, key_of_policy, key_of_material, selection_key,
}
use opendkim_manage_go.Model.Generation.Loops.{admit_all_of_rounds}

module _ (g : Generation) (n : ℕ) where
  handle_round_of_old :
      (s : List Handle) (h : Handle)
      → handle_round g.number s h ≡ true
      → handle_round n (map (rebase_handle n) s) (rebase_handle n h) ≡ true
  unfolding handle_round rebase_handle
  handle_round_of_old s h r =
      rw (map-map (rebase_handle n) (λ (x : Handle). x.id) (λ x. x.id) s (λ x. refl))
        (ground (arith, r))

  profile_round_of_old :
      (s : List Profile) (p : Profile)
      → profile_round g.number s p ≡ true
      → profile_round n (map (rebase_profile n) s) (rebase_profile n p) ≡ true
  unfolding profile_round rebase_profile
  profile_round_of_old s p r =
      rw (map-map (rebase_profile n) (λ (x : Profile). x.id) (λ x. x.id) s (λ x. refl))
        (ground (arith, r))

  selector_fits-map :
      (o : Option Profile) (c : Credential)
      → selector_fits (map_option (rebase_profile n) o) (rebase_credential n c) ≡ selector_fits o c
  unfolding selector_fits rebase_profile rebase_credential
  selector_fits-map none c = refl
  selector_fits-map (some p) c = refl

  profile_by_id-map :
      (ps : List Profile) (id : Text)
      → profile_by_id (map (rebase_profile n) ps) id
        ≡ map_option (rebase_profile n) (profile_by_id ps id)
  unfolding profile_by_id rebase_profile
  profile_by_id-map ps id = find_first-map (rebase_profile n) (λ p. p.id == id) (λ p. refl) ps

  of_profile-map :
      (id : Text) (cs : List Credential)
      → of_profile id (map (rebase_credential n) cs) ≡ map (rebase_credential n) (of_profile id cs)
  unfolding of_profile rebase_credential
  of_profile-map id cs = keep-map (rebase_credential n) (λ c. c.profile_id == id) (λ c. refl) cs

  length-of_profile-map :
      (id : Text) (cs : List Credential)
      → length (of_profile id (map (rebase_credential n) cs)) ≡ length (of_profile id cs)
  length-of_profile-map id cs =
      ap length (of_profile-map id cs) ∙ length-map (rebase_credential n) (of_profile id cs)

  handle_ids-map :
      (hs : List Handle) → map (λ h. h.id) (map (rebase_handle n) hs) ≡ map (λ h. h.id) hs
  unfolding rebase_handle
  handle_ids-map hs = map-map (rebase_handle n) (λ (h : Handle). h.id) (λ h. h.id) hs (λ h. refl)

  credential_map :
      (key : Credential → Text)
      → ((c : Credential) → key (rebase_credential n c) ≡ key c)
      → (cs : List Credential) → map key (map (rebase_credential n) cs) ≡ map key cs
  credential_map key e cs = map-map (rebase_credential n) key key cs e

  credential_round_of_old :
      (s : List Credential) (c : Credential)
      → credential_round g.number (map (λ h. h.id) g.handles) g.profiles s c ≡ true
      → credential_round n
          (map (λ h. h.id) (map (rebase_handle n) g.handles))
          (map (rebase_profile n) g.profiles)
          (map (rebase_credential n) s)
          (rebase_credential n c)
        ≡ true
  unfolding credential_round rebase_credential
  credential_round_of_old s c r =
      rw
        (
          handle_ids-map g.handles,
          profile_by_id-map g.profiles c.profile_id,
          selector_fits-map (profile_by_id g.profiles c.profile_id) c,
          credential_map (λ x. x.handle_id) (λ x. refl) s,
          credential_map (λ x. x.selector) (λ x. refl) s,
          of_profile-map c.profile_id s,
          credential_map (λ x. x.algorithm) (λ x. refl) (of_profile c.profile_id s),
          length-of_profile-map c.profile_id (c ∷ s),
        )
        (ground (arith, r))

  has_credential-map :
      (cs : List Credential) (p : Profile)
      → has_credential (map (rebase_credential n) cs) (rebase_profile n p) ≡ has_credential cs p
  unfolding has_credential rebase_profile
  has_credential-map cs p = rw (length-of_profile-map p.id cs) refl

  all-has_credential-map :
      (cs : List Credential) (ps : List Profile)
      → all (has_credential (map (rebase_credential n) cs)) (map (rebase_profile n) ps)
        ≡ all (has_credential cs) ps
  unfolding all
  all-has_credential-map cs [] = refl
  all-has_credential-map cs (p ∷ ps) =
      rw (has_credential-map cs p, all-has_credential-map cs ps) refl

  policy_fits_of_old :
      (o : Option Profile) (p : Policy)
      → policy_fits g.number o p ≡ true
      → policy_fits n (map_option (rebase_profile n) o) (rebase_policy n p) ≡ true
  unfolding policy_fits rebase_profile rebase_policy
  policy_fits_of_old none p h = cc
  policy_fits_of_old (some q) p h = ground (arith, h)

  policy_key_rebased : (p : Policy) → key_of_policy (rebase_policy n p) ≡ key_of_policy p
  unfolding rebase_policy key_of_policy
  policy_key_rebased p = refl

  policy_keys-map :
      (ps : List Policy) → map key_of_policy (map (rebase_policy n) ps) ≡ map key_of_policy ps
  unfolding rebase_policy
  policy_keys-map ps = map-map (rebase_policy n) key_of_policy key_of_policy ps policy_key_rebased

  policy_round_of_old :
      (s : List Policy) (p : Policy)
      → policy_round g.number g.profiles s p ≡ true
      → policy_round n
          (map (rebase_profile n) g.profiles)
          (map (rebase_policy n) s)
          (rebase_policy n p)
        ≡ true
  unfolding policy_round rebase_policy
  policy_round_of_old s p r =
      let f = policy_fits_of_old (profile_by_id g.profiles p.profile_id) p (ground (arith, r)) in
      rw (profile_by_id-map g.profiles p.profile_id, policy_keys-map s, f, policy_key_rebased p)
        (ground (arith, r))

  -- A key owner under another number.
  abbrev pub renumbered_material : KeyMaterial → KeyMaterial
  renumbered_material m = record m { generation = n }

  material_generation-renumbered :
      (m : KeyMaterial)
      → material_generation m ≡ g.number
      → g.number ≢ 0
      → material_generation (renumbered_material m) ≡ n
  unfolding material_generation
  material_generation-renumbered m e h = ground (arith, e, h)

  material_handle-renumbered :
      (m : KeyMaterial) → material_handle (renumbered_material m) ≡ material_handle m
  unfolding material_handle
  material_handle-renumbered m = refl

  material_algorithm-renumbered :
      (m : KeyMaterial) → material_algorithm (renumbered_material m) ≡ material_algorithm m
  unfolding material_algorithm
  material_algorithm-renumbered m = refl

  material_public-renumbered :
      (m : KeyMaterial) → material_public (renumbered_material m) ≡ material_public m
  unfolding material_public
  material_public-renumbered m = refl

  key_of_material-renumbered :
      (m : KeyMaterial) → key_of_material (renumbered_material m) ≡ key_of_material m
  unfolding key_of_material
  key_of_material-renumbered m = refl

  selection_key-renumbered :
      (m : KeyMaterial) → selection_key (renumbered_material m) ≡ selection_key m
  unfolding selection_key
  selection_key-renumbered m = refl

  policy_by_key-map :
      (ps : List Policy) (key : Text)
      → policy_by_key (map (rebase_policy n) ps) key
        ≡ map_option (rebase_policy n) (policy_by_key ps key)
  unfolding policy_by_key
  policy_by_key-map ps key =
      find_first-map (rebase_policy n) (λ p. key_of_policy p == key)
        (λ p. rw (policy_key_rebased p) refl) ps

  credential_by_handle-map :
      (cs : List Credential) (handle : Text)
      → credential_by_handle (map (rebase_credential n) cs) handle
        ≡ map_option (rebase_credential n) (credential_by_handle cs handle)
  unfolding credential_by_handle rebase_credential
  credential_by_handle-map cs handle =
      find_first-map (rebase_credential n) (λ c. c.handle_id == handle) (λ c. refl) cs

  material_fits-map :
      (p : Option Policy) (c : Option Credential) (m : KeyMaterial)
      → material_fits
          (map_option (rebase_policy n) p)
          (map_option (rebase_credential n) c)
          (renumbered_material m)
        ≡ material_fits p c m
  unfolding material_fits rebase_policy rebase_credential
  material_fits-map none c m = refl
  material_fits-map (some p) none m = refl
  material_fits-map (some p) (some c) m =
      rw (material_algorithm-renumbered m, material_public-renumbered m) refl

  material_round_of_old :
      (s : List KeyMaterial) (m : KeyMaterial)
      → g.number ≢ 0
      → material_round g.number (map (λ h. h.id) g.handles) g.policies g.credentials s m ≡ true
      → material_round n
          (map (λ h. h.id) (map (rebase_handle n) g.handles))
          (map (rebase_policy n) g.policies)
          (map (rebase_credential n) g.credentials)
          (map renumbered_material s)
          (renumbered_material m)
        ≡ true
  unfolding material_round
  material_round_of_old s m z r =
      let e = material_generation-renumbered m (ground (arith, r)) z in
      rw
        (
          e,
          handle_ids-map g.handles,
          material_algorithm-renumbered m,
          material_handle-renumbered m,
          map-map renumbered_material material_handle material_handle s material_handle-renumbered,
          map-map renumbered_material selection_key selection_key s selection_key-renumbered,
          selection_key-renumbered m,
          key_of_material-renumbered m,
          policy_by_key-map g.policies (key_of_material m),
          credential_by_handle-map g.credentials (material_handle m),
          material_fits-map (policy_by_key g.policies (key_of_material m))
              (credential_by_handle g.credentials (material_handle m)) m,
        )
        (ground (arith, r))

  -- The generation under the number `n`, in a state.
  abbrev pub renumbered : DatasetState → Generation
  renumbered state = record {
    number = n;
    state = state;
    handles = map (rebase_handle n) g.handles;
    profiles = map (rebase_profile n) g.profiles;
    credentials = map (rebase_credential n) g.credentials;
    policies = map (rebase_policy n) g.policies;
    materials = map renumbered_material g.materials;
  }

  pub validate-renumbered :
      (state : DatasetState)
      → n ≢ 0
      → is_known_state state ≡ true
      → validate g ≡ true
      → validate (renumbered state) ≡ true
  unfolding validate
  validate-renumbered state nz k v =
      let z : g.number ≢ 0 = ground (arith, v) in
      let hs =
        admit_all_of_rounds (rebase_handle n) (handle_round g.number) (handle_round n) [] g.handles
          handle_round_of_old (ground (arith, v)) in
      let ps =
        admit_all_of_rounds (rebase_profile n) (profile_round g.number) (profile_round n) []
          g.profiles profile_round_of_old (ground (arith, v)) in
      let cs =
        admit_all_of_rounds (rebase_credential n)
          (credential_round g.number (map (λ h. h.id) g.handles) g.profiles)
          (credential_round n (map (λ h. h.id) (map (rebase_handle n) g.handles))
            (map (rebase_profile n) g.profiles))
          [] g.credentials credential_round_of_old (ground (arith, v)) in
      let hc = all-has_credential-map g.credentials g.profiles in
      let qs =
        admit_all_of_rounds (rebase_policy n) (policy_round g.number g.profiles)
          (policy_round n (map (rebase_profile n) g.profiles)) [] g.policies policy_round_of_old
          (ground (arith, v)) in
      let ms =
        admit_all_of_rounds renumbered_material
          (material_round g.number (map (λ h. h.id) g.handles) g.policies g.credentials)
          (material_round n (map (λ h. h.id) (map (rebase_handle n) g.handles))
            (map (rebase_policy n) g.policies) (map (rebase_credential n) g.credentials))
          [] g.materials (λ s m. material_round_of_old s m z) (ground (arith, v)) in
      rw
        (
          hs,
          ps,
          cs,
          hc,
          qs,
          ms,
          length-map (rebase_handle n) g.handles,
          length-map (rebase_credential n) g.credentials,
          length-map renumbered_material g.materials,
          k,
        )
        (ground (arith, v, nz))
