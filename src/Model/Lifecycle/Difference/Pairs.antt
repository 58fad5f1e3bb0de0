-- ===== src/Model/Lifecycle/Difference/Pairs.antt =====
-- The maps of a generation that `validate` accepts, in `internal/dkim2model/lifecycle.go`, and the
-- credentials of one algorithm in two generations.
use opendkim_manage_go.Prelude.{
  ◌≡◌, ◌≢◌, refl, sym, ap, ◌∙◌, true, List, [], ◌∷◌, map, Option, some, Text, find_first, All,
  All-map, ◌==◌, nat_eq, text_eq, eq_of_beq,
}
use opendkim_manage_go.Prelude.Maps.{get, get-map, store_all, store_all_of_distinct}
use opendkim_manage_go.Prelude.Lists.Keep.{keep-all}
use opendkim_manage_go.Model.Values.{Algorithm}
use opendkim_manage_go.Model.KeyMaterial.{KeyMaterial}
use opendkim_manage_go.Model.Records.{Profile, Credential, Policy}
use opendkim_manage_go.Model.Generation.{
  Generation, of_profile, material_by_handle, policy_by_key, key_of_policy,
}
use opendkim_manage_go.Model.Generation.WellFormed.{IsWellFormed}
use opendkim_manage_go.Model.Generation.Reads.Lookup.{only_match-passes}
use opendkim_manage_go.Model.Lifecycle.Logical.{
  credentials_logical_equal, material_bindings_equal, materials_logical_equal,
  credentials_by_algorithm, profiles_by_id, exclusive_policy_for_profile,
}
use opendkim_manage_go.Model.Lifecycle.Difference.Compared.{IsMatched, IsKept, IsReplaced}

pub All_of_map {ℓ κ μ} :
    {A : Type ℓ} {B : Type κ} (P : B → Type μ) (f : A → B) (xs : List A)
    → All P (map f xs)
    → All (λ x. P (f x)) xs
All_of_map P f [] h = tt
All_of_map P f (x ∷ xs) h = (h.0, All_of_map P f xs h.1)

all_true {ℓ} : {A : Type ℓ} (xs : List A) → All (λ (_ : A). true ≡ true) xs
all_true [] = tt
all_true (x ∷ xs) = (refl, all_true xs)

-- The credentials of a profile under their algorithms.
abbrev pub under_algorithm : Generation → Text → List (Algorithm × Credential)
under_algorithm g id = map (λ c. (c.algorithm, c)) (of_profile id g.credentials)

module _ (g : Generation) (w : IsWellFormed g) where
  pub credentials_by_algorithm_lem :
      (id : Text) → credentials_by_algorithm g id ≡ under_algorithm g id
  unfolding credentials_by_algorithm of_profile
  credentials_by_algorithm_lem id =
      store_all_of_distinct (λ c. c.profile_id == id) (λ c. c.algorithm) (λ c. c) g.credentials
        (w.unique_algorithms id)

  pub profiles_by_id_lem : profiles_by_id g ≡ map (λ p. (p.id, p)) g.profiles
  unfolding profiles_by_id
  profiles_by_id_lem =
      let whole = keep-all (λ (p : Profile). true) g.profiles (all_true g.profiles) in
      store_all_of_distinct (λ p. true) (λ p. p.id) (λ p. p) g.profiles (rw whole w.unique_profiles)
      ∙ ap (map (λ p. (p.id, p))) whole

  pub policies_by_key_lem :
      (key : Text)
      → get key (store_all (λ _. true) key_of_policy (λ p. p) [] g.policies)
        ≡ policy_by_key g.policies key
  unfolding policy_by_key
  policies_by_key_lem key =
      let whole = keep-all (λ (p : Policy). true) g.policies (all_true g.policies) in
      ap (get key) (
        store_all_of_distinct (λ p. true) key_of_policy (λ p. p) g.policies
          (rw whole w.unique_policies)
        ∙ ap (map (λ p. (key_of_policy p, p))) whole)
      ∙ get-map key_of_policy key g.policies

pub of_its_profile :
    (g : Generation) (id : Text) (policy : Policy)
    → exclusive_policy_for_profile g id ≡ some policy
    → policy.profile_id ≡ id
unfolding exclusive_policy_for_profile
of_its_profile g id policy h =
    eq_of_beq policy.profile_id id (only_match-passes (λ p. p.profile_id == id) g.policies policy h)

module _ (current predecessor : Generation) where
  -- The credential of the current generation under the algorithm of an old one.
  abbrev pub counterpart : Credential → Text → Option Credential
  counterpart old id =
      find_first (λ c. c.algorithm == old.algorithm) (of_profile id current.credentials)

  -- The old credential and the new one of its algorithm, with the key material of both.
  pub record Pair (id : Text) (old : Credential) : Type 0 where
    pub next : Credential
    pub found : counterpart old id ≡ some next
    pub old_material : KeyMaterial
    pub found_old : material_by_handle predecessor.materials old.handle_id ≡ some old_material
    pub new_material : KeyMaterial
    pub found_new : material_by_handle current.materials next.handle_id ≡ some new_material

  -- The current generation has the credential with its key.
  abbrev pub HasSameKey : Text → Credential → Type 0
  HasSameKey id old =
      (p : Pair id old) × (credentials_logical_equal old p.next ≡ true)
      × (materials_logical_equal p.old_material p.new_material ≡ true)

  -- The current generation has another selector, handle and key in its place, with material for the
  -- same tenant, domain, use and algorithm.
  abbrev pub HasNewKey : Text → Credential → Type 0
  HasNewKey id old =
      (p : Pair id old) × (old.selector ≢ p.next.selector)
      × (old.handle_id ≢ p.next.handle_id)
      × (old.public_spki ≢ p.next.public_spki)
      × (material_bindings_equal p.old_material p.new_material ≡ true)

  abbrev pair_of_match :
      (id : Text) (old : Credential)
      → IsMatched current predecessor (under_algorithm current id) (old.algorithm, old)
      → Pair id old
  pair_of_match id old m = record {
    next = m.next;
    found =
        sym (get-map (λ c. c.algorithm) old.algorithm (of_profile id current.credentials))
        ∙ m.found;
    old_material = m.old_material;
    found_old = m.found_old;
    new_material = m.new_material;
    found_new = m.found_new;
  }

  pub HasSameKey-of_kept :
      (id : Text) (cs : List Credential)
      → All
          (IsKept current predecessor (under_algorithm current id))
          (map (λ c. (c.algorithm, c)) cs)
      → All (HasSameKey id) cs
  HasSameKey-of_kept id cs h =
      All-map _ _ cs (λ c (m, a, b). (pair_of_match id c m, a, b)) (All_of_map _ _ cs h)

  pub HasNewKey-of_replaced :
      (id : Text) (cs : List Credential)
      → All
          (IsReplaced current predecessor (under_algorithm current id))
          (map (λ c. (c.algorithm, c)) cs)
      → All (HasNewKey id) cs
  HasNewKey-of_replaced id cs h =
      All-map _ _ cs (λ c (m, a, b, k, d). (pair_of_match id c m, a, b, k, d)) (All_of_map _ _ cs h)
