-- ===== src/Model/Builder.antt =====
-- The mutable owner of a next generation, `Builder` of `internal/dkim2model/generation.go`, with
-- `NextBuilder` and `Clone` of a generation. A method returns the builder after the
-- call and the error; a nil builder has none of these. Copies of byte slices are the same values.
pub mod Pairs
pub mod Replacement
pub mod Upsert
pub mod Cloned
pub mod Succession
pub mod Added
use opendkim_manage_go.Prelude.{
  ℕ, Bool, true, false, not, ◌&&◌, ◌||◌, List, [], ◌∷◌, ◌++◌, map, Option, none, some, Text, length,
  is_empty, leb, contains, find_first, keep, all, Result, ok, err, is_err, fail_if, ◌>>=◌, ◌>>◌,
  ◌==◌, ◌!=◌, nat_eq, text_eq, if◌then◌else◌,
}
use opendkim_manage_go.Model.Error.{Error, invalid}
use opendkim_manage_go.Model.Names.{validate_identifier}
use opendkim_manage_go.Model.Values.{DatasetState, is_known_state}
use opendkim_manage_go.Model.KeyMaterial.{
  KeyMaterial, clone_material, rebase_key_material, material_generation, material_handle,
  material_algorithm, material_public,
}
use opendkim_manage_go.Model.Records.{
  Handle, Profile, Credential, Policy, new_handle, rebase_handle, rebase_profile, rebase_credential,
  rebase_policy, policy_key,
}
use opendkim_manage_go.Model.Generation.{Generation, new_generation_with_state, key_of_policy}

pub record Builder : Type 0 where
  pub number : ℕ
  pub state : DatasetState
  pub handles : List Handle
  pub profiles : List Profile
  pub credentials : List Credential
  pub policies : List Policy
  pub materials : List KeyMaterial

-- `NewBuilder`
unfoldable pub new_builder : ℕ → DatasetState → Result Error Builder
new_builder number state = do
  fail_if (number == 0 || not (is_known_state state)) invalid
  ok (record {
    number = number;
    state = state;
    handles = [];
    profiles = [];
    credentials = [];
    policies = [];
    materials = [];
  })

-- The loop of `NextBuilder` over the materials.
unfoldable pub rebase_materials : ℕ → List KeyMaterial → Result Error (List KeyMaterial)
rebase_materials number [] = ok []
rebase_materials number (m ∷ rest) = do
  rebased ← rebase_key_material m number
  others ← rebase_materials number rest
  ok (rebased ∷ others)

-- `Generation.NextBuilder`
unfoldable pub next_builder : Generation → ℕ → DatasetState → Result Error Builder
next_builder g number state = do
  fail_if (leb number g.number || not (is_known_state state)) invalid
  materials ← rebase_materials number g.materials
  ok (record {
    number = number;
    state = state;
    handles = map (rebase_handle number) g.handles;
    profiles = map (rebase_profile number) g.profiles;
    credentials = map (rebase_credential number) g.credentials;
    policies = map (rebase_policy number) g.policies;
    materials = materials;
  })

-- `Builder.Build`
unfoldable pub build : Builder → Result Error Generation
build b =
    new_generation_with_state b.number b.state b.handles b.profiles b.credentials b.policies
      (map some b.materials)

-- `Generation.Clone`
unfoldable pub clone_generation : Generation → Result Error Generation
clone_generation g =
    new_generation_with_state g.number g.state g.handles g.profiles g.credentials g.policies
      (map some g.materials)

-- The loop of `AddProfile` over the materials, nil pointers among them.
unfoldable pub clone_owned : ℕ → List (Option KeyMaterial) → Result Error (List KeyMaterial)
clone_owned number [] = ok []
clone_owned number (none ∷ rest) = err invalid
clone_owned number (some m ∷ rest) = do
  fail_if (material_generation m != number) invalid
  clone ← clone_material m
  clones ← clone_owned number rest
  ok (clone ∷ clones)

-- The loop of `AddProfile` that appends a handle for each clone: the handles behind those of the
-- builder, up to the first refusal, and that refusal.
unfoldable pub add_handles : ℕ → List Handle → List KeyMaterial → List Handle × Option Error
add_handles number handles [] = (handles, none)
add_handles number handles (m ∷ rest) = elim (new_handle number (material_handle m)) [
  | err e ↦ (handles, some e)
  | ok h ↦ add_handles number (handles ++ (h ∷ [])) rest
]

-- The checks of `AddProfile` before it changes the builder.
unfoldable pub admits_profile :
    Builder → Profile → List Credential → List (Option KeyMaterial) → Bool
admits_profile b profile credentials materials =
    not (
      b.number == 0
      || (profile.generation != b.number
          || (length credentials == 0 || length credentials != length materials)))
    && all (λ c. not (c.generation != b.number || c.profile_id != profile.id)) credentials

-- The part of `AddProfile` that changes the builder.
unfoldable pub append_profile :
    Builder → Profile → List Credential → List KeyMaterial → Builder × Option Error
append_profile b profile credentials clones =
    let (handles, refused) = add_handles b.number b.handles clones in
    let b' = record b {
      profiles = b.profiles ++ (profile ∷ []);
      credentials = b.credentials ++ credentials;
      handles = handles;
    } in
    elim refused [
      | some e ↦ (b', some e)
      | none ↦ (record b' { materials = b.materials ++ clones }, none)
    ]

-- `Builder.AddProfile`
unfoldable pub add_profile :
    Builder → Profile → List Credential → List (Option KeyMaterial) → Builder × Option Error
add_profile b profile credentials materials =
    if not (admits_profile b profile credentials materials)
    then (b, some invalid)
    else elim (clone_owned b.number materials) [
      | err e ↦ (b, some e)
      | ok clones ↦ append_profile b profile credentials clones
    ]

-- The part of `AddProfileWithKeys` behind `AddProfile`.
unfoldable pub append_policy : Builder × Option Error → Profile → Policy → Builder × Option Error
append_policy (b, some e) profile policy = (b, some e)
append_policy (b, none) profile policy =
    if policy.generation != b.number || policy.profile_id != profile.id
    then (b, some invalid)
    else (record b { policies = b.policies ++ (policy ∷ []) }, none)

-- `Builder.AddProfileWithKeys`
unfoldable pub add_profile_with_keys :
    Builder
    → Profile
    → List Credential
    → Policy
    → List (Option KeyMaterial)
    → Builder × Option Error
add_profile_with_keys b profile credentials policy materials =
    append_policy (add_profile b profile credentials materials) profile policy

-- The loop of `ReplaceProfile`; `none` where no profile has the identifier.
unfoldable pub replace_in : Profile → List Profile → Option (List Profile)
replace_in profile [] = none
replace_in profile (p ∷ rest) =
    let others = replace_in profile rest in
    if p.id == profile.id
    then some (profile ∷ rest)
    else elim others [ none ↦ none | some ps ↦ some (p ∷ ps) ]

-- `Builder.ReplaceProfile`
unfoldable pub replace_profile : Builder → Profile → Builder × Option Error
replace_profile b profile =
    if profile.generation != b.number
    then (b, some invalid)
    else elim (replace_in profile b.profiles) [
      | none ↦ (b, some invalid)
      | some profiles ↦ (record b { profiles = profiles }, none)
    ]

-- The checks of one round of `ReplaceProfileKeys` on a credential and its material.
unfoldable pub pairs_with : ℕ → Text → Credential → Option KeyMaterial → Bool
pairs_with number profile_id c none = false
pairs_with number profile_id c (some m) = not (
    c.generation != number
    || (c.profile_id != profile_id
        || (material_generation m != number
            || (c.handle_id != material_handle m
                || (c.algorithm != material_algorithm m || c.public_spki != material_public m)))))

-- `clone, err := material.Clone()` and `NewHandle`, behind those checks.
unfoldable pub take_material : ℕ → Option KeyMaterial → Result Error (KeyMaterial × Handle)
take_material number none = err invalid
take_material number (some m) = do
  clone ← clone_material m
  handle ← new_handle number (material_handle m)
  ok (clone, handle)

-- The loop of `ReplaceProfileKeys` over credentials and materials of equal number.
unfoldable pub pair_keys :
    ℕ
    → Text
    → List Credential
    → List (Option KeyMaterial)
    → Result Error (List KeyMaterial × List Handle)
pair_keys number profile_id [] materials = ok ([], [])
pair_keys number profile_id (c ∷ cs) [] = err invalid
pair_keys number profile_id (c ∷ cs) (material ∷ materials) = do
  fail_if (not (pairs_with number profile_id c material)) invalid
  one ← take_material number material
  rest ← pair_keys number profile_id cs materials
  ok (one.0 ∷ rest.0, one.1 ∷ rest.1)

-- The part of `ReplaceProfileKeys` that changes the builder; `removed` is `removedHandles`.
unfoldable pub swap_keys :
    Builder → Text → List Credential → List KeyMaterial → List Handle → Builder × Option Error
swap_keys b profile_id credentials owned handles =
    let removed = map (λ c. c.handle_id) (keep (λ c. c.profile_id == profile_id) b.credentials) in
    if is_empty removed then (b, some invalid) else (
      record b {
        credentials = keep (λ c. not (c.profile_id == profile_id)) b.credentials ++ credentials;
        handles = keep (λ h. not (contains removed h.id)) b.handles ++ handles;
        materials = keep (λ m. not (contains removed (material_handle m))) b.materials ++ owned;
      },
      none,
    )

-- The first checks of `ReplaceProfileKeys`.
unfoldable pub admits_replacement :
    Builder → Text → List Credential → List (Option KeyMaterial) → Bool
admits_replacement b profile_id credentials materials =
    not (
      b.number == 0
      || (is_err (validate_identifier profile_id)
          || (length credentials == 0 || length credentials != length materials)))
    && contains (map (λ p. p.id) b.profiles) profile_id

-- `Builder.ReplaceProfileKeys`
unfoldable pub replace_profile_keys :
    Builder → Text → List Credential → List (Option KeyMaterial) → Builder × Option Error
replace_profile_keys b profile_id credentials materials =
    if not (admits_replacement b profile_id credentials materials)
    then (b, some invalid)
    else elim (pair_keys b.number profile_id credentials materials) [
      | err e ↦ (b, some e)
      | ok (owned, handles) ↦ swap_keys b profile_id credentials owned handles
    ]

-- The loop of `UpsertPolicy`.
unfoldable pub upsert_in : Policy → List Policy → List Policy
upsert_in policy [] = policy ∷ []
upsert_in policy (current ∷ rest) =
    let others = upsert_in policy rest in
    if key_of_policy current == key_of_policy policy then policy ∷ rest else current ∷ others

-- `Builder.UpsertPolicy`
unfoldable pub upsert_policy : Builder → Policy → Builder × Option Error
upsert_policy b policy =
    if policy.generation != b.number
    then (b, some invalid)
    else (record b { policies = upsert_in policy b.policies }, none)
