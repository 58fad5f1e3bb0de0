-- ===== src/Model/Builder/Cloned.antt =====
-- `Clone` of a complete generation (`internal/dkim2model/generation.go`).
use opendkim_manage_go.Prelude.{
  ℕ, suc, ◌≡◌, ◌≢◌, ◌≤◌, refl, ap, true, false, List, [], ◌∷◌, map, Option, none, some, length,
  length-map, All, Result, ok, err, ◌>>=◌, >>=-eq-ok, fail_if->>-eq-ok, nat_eq, arith,
}
use opendkim_manage_go.Prelude.Sort.{sort_func, length-sort_func, All-sort_func}
use opendkim_manage_go.Model.Error.{Error, invalid}
use opendkim_manage_go.Model.Values.{DatasetState, is_known_state}
use opendkim_manage_go.Model.KeyMaterial.{KeyMaterial, clone_material}
use opendkim_manage_go.Model.KeyMaterial.Ownership.{
  is_readable, clone_material-ok, clone_material-is_readable,
}
use opendkim_manage_go.Model.Records.{Handle, Profile, Credential, Policy}
use opendkim_manage_go.Model.Generation.{
  Generation, validate, validated, is_incomplete, clone_materials, sort_records,
  new_generation_with_state,
}
use opendkim_manage_go.Model.Generation.Order.{
  compare_handles, compare_profiles, compare_credentials, compare_policies, compare_materials,
}
use opendkim_manage_go.Model.Generation.Sorted.{sort_records_idem}
use opendkim_manage_go.Model.Generation.Validate.{IsBuilt, new_generation_with_state-IsBuilt}
use opendkim_manage_go.Model.Builder.{clone_generation}

abbrev pub AllReadable : List KeyMaterial → Type 0
AllReadable = All (λ m. is_readable m ≡ true)

pub clone_materials-readable :
    (ms : List (Option KeyMaterial)) (clones : List KeyMaterial)
    → clone_materials ms ≡ ok clones
    → AllReadable clones × (length clones ≡ length ms)
unfolding clone_materials
clone_materials-readable [] clones h = let e : clones ≡ [] = ground (arith, h) in rw (e) (tt, refl)
clone_materials-readable (none ∷ ms) clones h = cc
clone_materials-readable (some m ∷ ms) clones h =
    go (clone_materials-readable ms) (clone_material m) refl h
  where
    go :
        ((rest : List KeyMaterial)
          → clone_materials ms ≡ ok rest
          → AllReadable rest × (length rest ≡ length ms))
        → (r : Result Error KeyMaterial) → clone_material m ≡ r
        → ◌≡◌ {A = Result Error (List KeyMaterial)}
            (elim r [
              | err _ ↦ err invalid
              | ok clone ↦ clone_materials ms >>= λ clones'. ok (clone ∷ clones')
            ])
            (ok clones)
        → AllReadable clones × (length clones ≡ length (some m ∷ ms))
    go ih (err _) e k = cc
    go ih (ok n) e k =
        let (rest, e1, k1) = >>=-eq-ok (clone_materials ms) (λ clones'. ok (n ∷ clones')) k in
        let (all_rest, l) = ih rest e1 in
        let (readable, same) = clone_material-is_readable m n e in
        let c : clones ≡ n ∷ rest = ground (arith, k1) in
        rw (c) ((rw (same) readable, all_rest), ap suc l)

clone_materials_of_readable :
    (ms : List KeyMaterial) → AllReadable ms → clone_materials (map some ms) ≡ ok ms
unfolding clone_materials
clone_materials_of_readable [] h = refl
clone_materials_of_readable (m ∷ ms) h =
    rw (clone_materials, clone_material-ok m h.0, clone_materials_of_readable ms h.1) refl

-- What the first test of `NewGenerationWithState` lets pass.
module _ (number : ℕ) (state : DatasetState) (hs : List Handle) (ps : List Profile)
    (cs : List Credential) (qs : List Policy) (ms : List (Option KeyMaterial)) where
  abbrev pub IsComplete : Type 0
  IsComplete =
      (number ≢ 0)
      × (is_known_state state ≡ true)
      × (1 ≤ length hs)
      × (1 ≤ length ps)
      × (1 ≤ length cs)
      × (1 ≤ length qs)
      × (1 ≤ length ms)
      × (length ms ≡ length hs)

  pub is_incomplete-IsComplete : is_incomplete number state hs ps cs qs ms ≡ false → IsComplete
  unfolding is_incomplete
  is_incomplete-IsComplete h = ground (arith, h)

  is_incomplete_of_IsComplete : IsComplete → is_incomplete number state hs ps cs qs ms ≡ false
  unfolding is_incomplete
  is_incomplete_of_IsComplete h = ground (arith, h)

validated_of_valid : (g : Generation) → validate g ≡ true → validated g ≡ ok g
unfolding validated
validated_of_valid g h = rw (h) refl

pub sort_records-IsComplete :
    (number : ℕ) (state : DatasetState) (hs : List Handle) (ps : List Profile)
    (cs : List Credential) (qs : List Policy) (ms : List (Option KeyMaterial)) (g : Generation)
    → (b : IsBuilt number state hs ps cs qs ms g) → length b.clones ≡ length ms
    → IsComplete number state hs ps cs qs ms
    → IsComplete g.number g.state g.handles g.profiles g.credentials g.policies
        (map some g.materials)
unfolding sort_records
sort_records-IsComplete number state hs ps cs qs ms g b l c =
    rw
      (
        b.sorted,
        length-sort_func compare_handles hs,
        length-sort_func compare_profiles ps,
        length-sort_func compare_credentials cs,
        length-sort_func compare_policies qs,
        length-map some (sort_func compare_materials b.clones),
        length-sort_func compare_materials b.clones,
        l,
      )
      c

pub sorted-readable :
    (number : ℕ) (state : DatasetState) (hs : List Handle) (ps : List Profile)
    (cs : List Credential) (qs : List Policy) (ms : List (Option KeyMaterial)) (g : Generation)
    → (b : IsBuilt number state hs ps cs qs ms g) → AllReadable b.clones
    → AllReadable g.materials
unfolding sort_records
sorted-readable number state hs ps cs qs ms g b h =
    rw (b.sorted) (All-sort_func (λ m. is_readable m ≡ true) compare_materials b.clones h)

pub sorted_again :
    (number : ℕ) (state : DatasetState) (hs : List Handle) (ps : List Profile)
    (cs : List Credential) (qs : List Policy) (ms : List (Option KeyMaterial)) (g : Generation)
    → IsBuilt number state hs ps cs qs ms g
    → sort_records g ≡ g
sorted_again number state hs ps cs qs ms g b = rw (b.sorted) (sort_records_idem _)

pub clone_of_parts :
    (g : Generation)
    → IsComplete g.number g.state g.handles g.profiles g.credentials g.policies
        (map some g.materials)
    → AllReadable g.materials
    → sort_records g ≡ g
    → validate g ≡ true
    → clone_generation g ≡ ok g
unfolding clone_generation new_generation_with_state
clone_of_parts g c r s v =
    rw
      (
        is_incomplete_of_IsComplete g.number g.state g.handles g.profiles g.credentials g.policies
            (map some g.materials) c,
        clone_materials_of_readable g.materials r,
        s,
        validated_of_valid g v,
      )
      refl

module _ (number : ℕ) (state : DatasetState) (hs : List Handle) (ps : List Profile)
    (cs : List Credential) (qs : List Policy) (ms : List (Option KeyMaterial))
    (g : Generation) where
  -- `Clone` of a generation that `NewGenerationWithState` has returned succeeds and returns the same
  -- generation: its records are complete, already in canonical order, and its keys can be read.
  pub clone_generation_of_built :
      new_generation_with_state number state hs ps cs qs ms ≡ ok g → clone_generation g ≡ ok g
  unfolding new_generation_with_state
  clone_generation_of_built h =
      let b = new_generation_with_state-IsBuilt number state hs ps cs qs ms g h in
      let (complete, _) =
        fail_if->>-eq-ok (is_incomplete number state hs ps cs qs ms) invalid _ h in
      let (readable, l) = clone_materials-readable ms b.clones b.cloned in
      clone_of_parts g
        (sort_records-IsComplete number state hs ps cs qs ms g b l
          (is_incomplete-IsComplete number state hs ps cs qs ms complete))
        (sorted-readable number state hs ps cs qs ms g b readable)
        (sorted_again number state hs ps cs qs ms g b) b.valid
