-- ===== src/Model/Builder/Added.antt =====
-- What a successful `AddProfileWithKeys` of `internal/dkim2model/generation.go` adds.
use opendkim_manage_go.Prelude.{
  ℕ, sym, map, Text, is_err, ◌==◌, >>=-eq-ok, fail_if->>-eq-ok, ◌≡◌, refl, ap, ◌∙◌, ◌||◌, List, [],
  ◌∷◌, ◌++◌, Option, none, some, Bool-cases, Option-cases, Result-cases, inl, inr, Result, ok, err,
  ◌!=◌, nat_eq, text_eq, arith,
}
use opendkim_manage_go.Prelude.Maps.{append_one}
use opendkim_manage_go.Prelude.Lists.Keep.{append-nil}
use opendkim_manage_go.Model.Error.{Error, invalid}
use opendkim_manage_go.Model.Names.{validate_identifier}
use opendkim_manage_go.Model.KeyMaterial.Ownership.{clone_material-is_readable}
use opendkim_manage_go.Model.KeyMaterial.{
  KeyMaterial, clone_material, material_handle, material_generation,
}
use opendkim_manage_go.Model.Records.{Handle, new_handle, Profile, Credential, Policy}
use opendkim_manage_go.Model.Builder.{
  Builder, clone_owned, add_handles, admits_profile, append_profile, add_profile, append_policy,
  add_profile_with_keys,
}

-- The profile, its credentials with their handles and key material, and its policy stand behind those
-- that were there.
pub record IsAdded (b : Builder) (profile : Profile) (cs : List Credential) (policy : Policy)
    (ms : List (Option KeyMaterial)) (b' : Builder) : Type 0 where
  pub owned : List KeyMaterial
  pub given : ms ≡ map some owned
  pub handles :
      b'.handles
      ≡ b.handles ++ map (λ m. record { generation = b.number; id = material_handle m }) owned
  pub materials : b'.materials ≡ b.materials ++ owned
  pub profiles : b'.profiles ≡ b.profiles ++ (profile ∷ [])
  pub credentials : b'.credentials ≡ b.credentials ++ cs
  pub policies : b'.policies ≡ b.policies ++ (policy ∷ [])
  pub same_number : b'.number ≡ b.number
  pub same_state : b'.state ≡ b.state

-- The builder that `AddProfile` leaves.
abbrev grown : Builder → Profile → List Credential → List KeyMaterial → Builder
grown b profile cs owned = record b {
  handles = b.handles ++ map (λ m. record { generation = b.number; id = material_handle m }) owned;
  profiles = b.profiles ++ (profile ∷ []);
  credentials = b.credentials ++ cs;
  materials = b.materials ++ owned;
}

new_handle-eq_ok :
    (number : ℕ) (id : Text) (h : Handle)
    → new_handle number id ≡ ok h
    → record { generation = number; id = id } ≡ h
unfolding new_handle
new_handle-eq_ok number id h e =
    let (_, made) =
      fail_if->>-eq-ok (number == 0 || is_err (validate_identifier id)) invalid
        (ok (record { generation = number; id = id })) e in
    ground (arith, made)

add_handles-none :
    (number : ℕ) (handles : List Handle) (owned : List KeyMaterial)
    → (add_handles number handles owned).1 ≡ none
    → (add_handles number handles owned).0
      ≡ handles ++ map (λ m. record { generation = number; id = material_handle m }) owned
unfolding add_handles
add_handles-none number handles [] h = sym (append-nil handles)
add_handles-none number handles (m ∷ rest) h =
    elim (Result-cases (new_handle number (material_handle m))) [
      | inl (e, n) ↦ cc (rw (n, add_handles) at h)
      | inr (one, n) ↦
          let same = new_handle-eq_ok number (material_handle m) one n in
          rw
            (
              n,
              add_handles,
              add_handles-none number (handles ++ (one ∷ [])) rest (rw (n, add_handles) at h),
              ← same,
            )
            (append_one handles (record { generation = number; id = material_handle m })
              (map (λ m. record { generation = number; id = material_handle m }) rest))
    ]

append_profile-grown :
    (b : Builder) (profile : Profile) (cs : List Credential) (owned : List KeyMaterial)
    (b' : Builder)
    → append_profile b profile cs owned ≡ (b', none)
    → grown b profile cs owned ≡ b'
unfolding append_profile
append_profile-grown b profile cs owned b' h =
    elim (Option-cases (add_handles b.number b.handles owned).1) [
      | inr (e, n) ↦ cc (rw (n, append_profile) at h)
      | inl n ↦
          let done = rw (n, append_profile) at h in
          let e = add_handles-none b.number b.handles owned n in
          ap
            (λ hs. record b {
              handles = hs;
              profiles = b.profiles ++ (profile ∷ []);
              credentials = b.credentials ++ cs;
              materials = b.materials ++ owned;
            })
            (sym e)
          ∙ ap (λ p. p.0) done
    ]

clone_owned-given :
    (number : ℕ) (ms : List (Option KeyMaterial)) (owned : List KeyMaterial)
    → clone_owned number ms ≡ ok owned
    → ms ≡ map some owned
unfolding clone_owned
clone_owned-given number [] owned h = let e : [] ≡ owned = ground (arith, h) in rw (← e) refl
clone_owned-given number (none ∷ rest) owned h = cc
clone_owned-given number (some m ∷ rest) owned h =
    let (_, h1) = fail_if->>-eq-ok (material_generation m != number) invalid _ h in
    let (clone, e, h2) = >>=-eq-ok (clone_material m) _ h1 in
    let (others, e1, h3) = >>=-eq-ok (clone_owned number rest) _ h2 in
    let (_, same) = clone_material-is_readable m clone e in
    let made : clone ∷ others ≡ owned = ground (arith, h3) in
    rw (← made, same) (ap (λ xs. some m ∷ xs) (clone_owned-given number rest others e1))

-- What a successful `AddProfile` has made of its arguments.
abbrev HasGrown : Builder → Profile → List Credential → List (Option KeyMaterial) → Builder → Type 0
HasGrown b profile cs ms b' =
    (owned : List KeyMaterial) × (ms ≡ map some owned) × (grown b profile cs owned ≡ b')

add_profile-HasGrown :
    (b : Builder) (profile : Profile) (cs : List Credential) (ms : List (Option KeyMaterial))
    (b' : Builder)
    → add_profile b profile cs ms ≡ (b', none)
    → HasGrown b profile cs ms b'
unfolding add_profile
add_profile-HasGrown b profile cs ms b' h = elim (Bool-cases (admits_profile b profile cs ms)) [
  | inr f ↦ cc (rw f at h)
  | inl t ↦ of_clones (clone_owned b.number ms) refl (rw t at h)
]
  where
    of_clones :
        (r : Result Error (List KeyMaterial))
        → clone_owned b.number ms ≡ r
        → (elim r [ err e ↦ (b, some e) | ok clones ↦ append_profile b profile cs clones ])
          ≡ (b', none)
        → HasGrown b profile cs ms b'
    of_clones (err e) n k = cc
    of_clones (ok clones) n k = (
      clones,
      clone_owned-given b.number ms clones n,
      append_profile-grown b profile cs clones b' k,
    )

append_policy-none :
    (r : Builder × Option Error) (profile : Profile) (policy : Policy) (b' : Builder)
    → append_policy r profile policy ≡ (b', none)
    → (r ≡ (r.0, none)) × (b' ≡ record r.0 { policies = r.0.policies ++ (policy ∷ []) })
unfolding append_policy
append_policy-none (b, some e) profile policy b' h = cc
append_policy-none (b, none) profile policy b' h =
    elim (Bool-cases (policy.generation != b.number || policy.profile_id != profile.id)) [
      | inl t ↦ cc (rw t at h)
      | inr f ↦ let done = rw f at h in (refl, ground (arith, done))
    ]

-- A successful `AddProfileWithKeys` puts the profile, its credentials, a handle for each given key
-- material, that material, and its policy behind the records of the builder, all of which stay, and
-- leaves the number and the state.
pub add_profile_with_keys-IsAdded :
    (b : Builder) (profile : Profile) (cs : List Credential) (policy : Policy)
    (ms : List (Option KeyMaterial)) (b' : Builder)
    → add_profile_with_keys b profile cs policy ms ≡ (b', none)
    → IsAdded b profile cs policy ms b'
unfolding add_profile_with_keys
add_profile_with_keys-IsAdded b profile cs policy ms b' h =
    let (e, now) = append_policy-none (add_profile b profile cs ms) profile policy b' h in
    let mid = (add_profile b profile cs ms).0 in
    let (owned, given, made) = add_profile-HasGrown b profile cs ms mid e in
    let last =
      now ∙ ap (λ (x : Builder). record x { policies = x.policies ++ (policy ∷ []) }) (sym made) in
    record {
      owned = owned;
      given = given;
      handles = ap (λ x. x.handles) last;
      materials = ap (λ x. x.materials) last;
      profiles = ap (λ x. x.profiles) last;
      credentials = ap (λ x. x.credentials) last;
      policies = ap (λ x. x.policies) last;
      same_number = ap (λ x. x.number) last;
      same_state = ap (λ x. x.state) last;
    }
