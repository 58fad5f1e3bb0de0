-- ===== src/Model/Builder/Succession.antt =====
-- The successor of a complete generation: `NextBuilder` and `Build` of
-- `internal/dkim2model/generation.go`.
use opendkim_manage_go.Prelude.{
  ℕ, ◌≡◌, ◌≢◌, ◌<◌, refl, ap, ◌∙◌, true, false, List, [], ◌∷◌, map, Option, some, length-map, leb,
  ok, fail_if->>-eq-ok, arith, Bool-cases, inl, inr,
}
use opendkim_manage_go.Prelude.Int.{ℤ, pos, ltb_ℤ}
use opendkim_manage_go.Prelude.Sort.{insert_by, sort_func}
use opendkim_manage_go.Model.Error.{invalid}
use opendkim_manage_go.Model.Values.{DatasetState, is_known_state}
use opendkim_manage_go.Model.KeyMaterial.{KeyMaterial, rebase_key_material, material_handle}
use opendkim_manage_go.Model.KeyMaterial.Ownership.{is_readable, clone_material-ok}
use opendkim_manage_go.Model.Records.{
  Handle, Profile, Credential, Policy, rebase_handle, rebase_profile, rebase_credential,
  rebase_policy,
}
use opendkim_manage_go.Model.Generation.{
  Generation, sort_records, is_incomplete, new_generation_with_state,
}
use opendkim_manage_go.Model.Generation.Order.{
  compare_handles, compare_profiles, compare_credentials, compare_policies, compare_materials,
}
use opendkim_manage_go.Model.Generation.Renumbered.{
  renumbered, renumbered_material, validate-renumbered,
}
use opendkim_manage_go.Model.Generation.Validate.{new_generation_with_state-IsBuilt}
use opendkim_manage_go.Model.Builder.{
  Builder, rebase_materials, next_builder, build, clone_generation,
}
use opendkim_manage_go.Model.Builder.Cloned.{
  AllReadable, IsComplete, clone_materials-readable, is_incomplete-IsComplete,
  sort_records-IsComplete, sorted-readable, sorted_again, clone_of_parts,
}

module _ {A : Type 0} (f : A → A) (cmp : A → A → ℤ)
    (e : (x y : A) → cmp (f x) (f y) ≡ cmp x y) where
  insert_by-map :
      (x : A) (ys : List A) → insert_by cmp (f x) (map f ys) ≡ map f (insert_by cmp x ys)
  unfolding insert_by
  insert_by-map x [] = refl
  insert_by-map x (y ∷ ys) = elim (Bool-cases (ltb_ℤ (pos 0) (cmp x y))) [
    | inl t ↦ rw (e x y, t, insert_by-map x ys) refl
    | inr n ↦ rw (e x y, n) refl
  ]

  sort_func-map : (xs : List A) → sort_func cmp (map f xs) ≡ map f (sort_func cmp xs)
  unfolding sort_func
  sort_func-map [] = refl
  sort_func-map (x ∷ xs) = rw (sort_func-map xs) (insert_by-map x (sort_func cmp xs))

rebase_materials_of_readable :
    (g : Generation) (n : ℕ) (ms : List KeyMaterial)
    → AllReadable ms
    → rebase_materials n ms ≡ ok (map (renumbered_material g n) ms)
unfolding rebase_materials rebase_key_material
rebase_materials_of_readable g n [] h = refl
rebase_materials_of_readable g n (m ∷ ms) h =
    rw (rebase_materials, clone_material-ok m h.0, rebase_materials_of_readable g n ms h.1) refl

sort_records-renumbered :
    (g : Generation) (n : ℕ) (state : DatasetState)
    → sort_records (renumbered g n state) ≡ renumbered (sort_records g) n state
unfolding sort_records compare_handles compare_profiles compare_credentials compare_policies
    compare_materials rebase_handle rebase_profile rebase_credential rebase_policy material_handle
sort_records-renumbered g n state =
    rw
      (
        sort_func-map (rebase_handle n) compare_handles (λ x y. refl) g.handles,
        sort_func-map (rebase_profile n) compare_profiles (λ x y. refl) g.profiles,
        sort_func-map (rebase_credential n) compare_credentials (λ x y. refl) g.credentials,
        sort_func-map (rebase_policy n) compare_policies (λ x y. refl) g.policies,
        sort_func-map (renumbered_material g n) compare_materials (λ x y. refl) g.materials,
      )
      refl

readable-renumbered :
    (g : Generation) (n : ℕ) (ms : List KeyMaterial)
    → AllReadable ms
    → AllReadable (map (renumbered_material g n) ms)
unfolding is_readable
readable-renumbered g n [] h = tt
readable-renumbered g n (m ∷ ms) h = (h.0, readable-renumbered g n ms h.1)

complete-renumbered :
    (g : Generation) (n : ℕ) (state : DatasetState)
    → n ≢ 0
    → is_known_state state ≡ true
    → IsComplete g.number g.state g.handles g.profiles g.credentials g.policies
        (map some g.materials)
    → let r = renumbered g n state in
      IsComplete n state r.handles r.profiles r.credentials r.policies (map some r.materials)
complete-renumbered g n state nz k c =
    let l = length-map (λ (m : KeyMaterial). some m) g.materials in
    let d = c.2 in
    let e = c.7 in
    rw
      (
        length-map (rebase_handle n) g.handles,
        length-map (rebase_profile n) g.profiles,
        length-map (rebase_credential n) g.credentials,
        length-map (rebase_policy n) g.policies,
        length-map (λ (m : KeyMaterial). some m) (map (renumbered_material g n) g.materials),
        length-map (renumbered_material g n) g.materials,
      )
      (nz, k, c.2, c.3, c.4, c.5, rw (← l) c.6, rw (← l) c.7)

-- The builder of the successor.
abbrev next_of : Generation → ℕ → DatasetState → Builder
next_of g n state =
    let r = renumbered g n state in
    record {
      number = n;
      state = state;
      handles = r.handles;
      profiles = r.profiles;
      credentials = r.credentials;
      policies = r.policies;
      materials = r.materials;
    }

next_builder_of_readable :
    (g : Generation) (n : ℕ) (state : DatasetState)
    → g.number < n
    → is_known_state state ≡ true
    → AllReadable g.materials
    → next_builder g n state ≡ ok (next_of g n state)
unfolding next_builder
next_builder_of_readable g n state lt k h =
    let e : leb n g.number ≡ false = ground arith in
    rw (e, k, rebase_materials_of_readable g n g.materials h) refl

build-next_of :
    (g : Generation) (n : ℕ) (state : DatasetState)
    → clone_generation (renumbered g n state) ≡ ok (renumbered g n state)
    → build (next_of g n state) ≡ ok (renumbered g n state)
unfolding build clone_generation
build-next_of g n state h = h

module _ (number : ℕ) (state : DatasetState) (hs : List Handle) (ps : List Profile)
    (cs : List Credential) (qs : List Policy) (ms : List (Option KeyMaterial))
    (g : Generation) where
  -- From a generation that `NewGenerationWithState` has returned, `NextBuilder` with a higher number and
  -- a known state succeeds, and its builder, left as it is, builds the same records under the new number
  -- and in the new state.
  pub build-next_builder :
      (n : ℕ) (state' : DatasetState)
      → new_generation_with_state number state hs ps cs qs ms ≡ ok g
      → g.number < n
      → is_known_state state' ≡ true
      → (b : Builder) × (next_builder g n state' ≡ ok b) × (build b ≡ ok (renumbered g n state'))
  unfolding new_generation_with_state
  build-next_builder n state' h lt k =
      let b = new_generation_with_state-IsBuilt number state hs ps cs qs ms g h in
      let (complete, _) =
        fail_if->>-eq-ok (is_incomplete number state hs ps cs qs ms) invalid _ h in
      let (readable, l) = clone_materials-readable ms b.clones b.cloned in
      let r = sorted-readable number state hs ps cs qs ms g b readable in
      let nz : n ≢ 0 = omega (arith, lt) in
      let c =
        sort_records-IsComplete number state hs ps cs qs ms g b l
          (is_incomplete-IsComplete number state hs ps cs qs ms complete) in
      (
        next_of g n state',
        next_builder_of_readable g n state' lt k r,
        build-next_of g n state' (
            clone_of_parts (renumbered g n state') (complete-renumbered g n state' nz k c)
              (readable-renumbered g n g.materials r)
              (sort_records-renumbered g n state'
                ∙ ap (λ x. renumbered x n state') (sorted_again number state hs ps cs qs ms g b))
              (validate-renumbered g n state' nz k b.valid)),
      )
