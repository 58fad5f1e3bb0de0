-- ===== src/Model/Builder/Pairs.antt =====
-- The loop of `ReplaceProfileKeys` of the `Builder` (`internal/dkim2model/generation.go`) over
-- credentials and materials.
use opendkim_manage_go.Prelude.{
  ℕ, ◌≡◌, ◌≢◌, refl, ap, ◌∙◌, true, false, not, ◌||◌, List, [], ◌∷◌, map, Option, none, some, Text,
  length, All, ok, >>=-eq-ok, fail_if->>-eq-ok, ◌==◌, nat_eq, text_eq, eq_of_beq, beq_self, arith,
  is_err,
}
use opendkim_manage_go.Model.Error.{invalid}
use opendkim_manage_go.Model.Names.{validate_identifier}
use opendkim_manage_go.Model.KeyMaterial.{
  KeyMaterial, clone_material, material_handle, material_algorithm, material_public,
}
use opendkim_manage_go.Model.KeyMaterial.Ownership.{clone_material-is_readable}
use opendkim_manage_go.Model.Records.{new_handle, Handle, Credential}
use opendkim_manage_go.Model.Builder.{pairs_with, take_material, pair_keys}

-- A credential and its material as `ReplaceProfileKeys` takes them for a profile.
pub record IsPaired (number : ℕ) (profile_id : Text) (c : Credential) (m : KeyMaterial)
    : Type 0 where
  pub generation : c.generation ≡ number
  pub profile : c.profile_id ≡ profile_id
  pub same_handle : c.handle_id ≡ material_handle m
  pub same_algorithm : c.algorithm ≡ material_algorithm m
  pub same_public : c.public_spki ≡ material_public m

-- The credentials and the materials, pair by pair.
pub data ArePaired (number : ℕ) (profile_id : Text)
    : List Credential → List KeyMaterial → Type 0 where
  no_pair : ArePaired number profile_id [] []
  pair :
      {c : Credential} {m : KeyMaterial} {cs : List Credential} {ms : List KeyMaterial}
      → IsPaired number profile_id c m
      → ArePaired number profile_id cs ms
      → ArePaired number profile_id (c ∷ cs) (m ∷ ms)

pairs_with-IsPaired :
    (number : ℕ) (id : Text) (c : Credential) (m : KeyMaterial)
    → pairs_with number id c (some m) ≡ true
    → IsPaired number id c m
unfolding pairs_with
pairs_with-IsPaired number id c m h = record {
  generation = ground (arith, h);
  profile = eq_of_beq c.profile_id id (ground (arith, h));
  same_handle = eq_of_beq c.handle_id (material_handle m) (ground (arith, h));
  same_algorithm = eq_of_beq c.algorithm (material_algorithm m) (ground (arith, h));
  same_public = eq_of_beq c.public_spki (material_public m) (ground (arith, h));
}

new_handle-id :
    (generation : ℕ) (id : Text) (h : Handle) → new_handle generation id ≡ ok h → h.id ≡ id
unfolding new_handle
new_handle-id generation id h e =
    let (_, made) =
      fail_if->>-eq-ok (generation == 0 || is_err (validate_identifier id)) invalid
        (ok (record { generation = generation; id = id })) e in
    ground (arith, made)

take_material-eq_ok :
    (number : ℕ) (m n : KeyMaterial) (h : Handle)
    → take_material number (some m) ≡ ok (n, h)
    → (n ≡ m) × (h.id ≡ material_handle m)
unfolding take_material
take_material-eq_ok number m n h e =
    let (clone, cloned, rest) = >>=-eq-ok (clone_material m) _ e in
    let (handle, made, last) = >>=-eq-ok (new_handle number (material_handle m)) _ rest in
    let (_, same) = clone_material-is_readable m clone cloned in
    let eh : h ≡ handle = ground (arith, last) in
    let en : n ≡ clone = ground (arith, last) in
    (en ∙ same, ap (λ x. x.id) eh ∙ new_handle-id number (material_handle m) handle made)

no_pair_of_none :
    (number : ℕ) (id : Text) (c : Credential) → not (pairs_with number id c none) ≢ false
unfolding pairs_with
no_pair_of_none number id c h = cc

-- What the loop of `ReplaceProfileKeys` has made of its arguments.
pub record ArePairedBy (number : ℕ) (id : Text) (cs : List Credential)
    (ms : List (Option KeyMaterial)) (owned : List KeyMaterial) (handles : List Handle)
    : Type 0 where
  pub given : ms ≡ map some owned
  pub paired : ArePaired number id cs owned
  pub named : map (λ h. h.id) handles ≡ map (λ c. c.handle_id) cs

ArePairedBy-cons :
    (number : ℕ) (id : Text) (c : Credential) (cs : List Credential) (m : KeyMaterial)
    (ms : List (Option KeyMaterial)) (one : KeyMaterial × Handle)
    (rest : List KeyMaterial × List Handle) (owned : List KeyMaterial) (handles : List Handle)
    → IsPaired number id c m
    → (one.0 ≡ m) × (one.1.id ≡ material_handle m)
    → ArePairedBy number id cs ms rest.0 rest.1
    → owned ≡ one.0 ∷ rest.0
    → handles ≡ one.1 ∷ rest.1
    → ArePairedBy number id (c ∷ cs) (some m ∷ ms) owned handles
ArePairedBy-cons number id c cs m ms one rest owned handles p t r eo eh = record {
  given = rw (eo, t.0, r.given) refl;
  paired = rw (eo, t.0) (ArePaired.pair p r.paired);
  named = rw (eh, t.1, r.named, p.same_handle) refl;
}

pub pair_keys-ArePairedBy :
    (number : ℕ) (id : Text) (cs : List Credential) (ms : List (Option KeyMaterial))
    (owned : List KeyMaterial) (handles : List Handle)
    → length cs ≡ length ms
    → pair_keys number id cs ms ≡ ok (owned, handles)
    → ArePairedBy number id cs ms owned handles
unfolding pair_keys
pair_keys-ArePairedBy number id [] [] owned handles l h =
    let eo : owned ≡ [] = ground (arith, h) in
    let eh : handles ≡ [] = ground (arith, h) in
    record { given = rw (eo) refl; paired = rw (eo) ArePaired.no_pair; named = rw (eh) refl }
pair_keys-ArePairedBy number id [] (m ∷ ms) owned handles l h = absurd (omega (arith, l))
pair_keys-ArePairedBy number id (c ∷ cs) [] owned handles l h = cc
pair_keys-ArePairedBy number id (c ∷ cs) (none ∷ ms) owned handles l h =
    let (refused, _) = fail_if->>-eq-ok (not (pairs_with number id c none)) invalid _ h in
    absurd (no_pair_of_none number id c refused)
pair_keys-ArePairedBy number id (c ∷ cs) (some m ∷ ms) owned handles l h =
    let (fits, more) = fail_if->>-eq-ok (not (pairs_with number id c (some m))) invalid _ h in
    let (one, taken, others) = >>=-eq-ok (take_material number (some m)) _ more in
    let (rest, made, last) = >>=-eq-ok (pair_keys number id cs ms) _ others in
    ArePairedBy-cons number id c cs m ms one rest owned handles
      (pairs_with-IsPaired number id c m (ground (arith, fits)))
      (take_material-eq_ok number m one.0 one.1 taken)
      (pair_keys-ArePairedBy number id cs ms rest.0 rest.1 (omega (arith, l)) made)
      (ground (arith, last)) (ground (arith, last))

pub paired-of_profile :
    (number : ℕ) (id : Text) (cs : List Credential) (ms : List KeyMaterial)
    → ArePaired number id cs ms
    → All (λ c. (c.profile_id == id) ≡ true) cs
paired-of_profile number id _ _ ArePaired.no_pair = tt
paired-of_profile number id (c ∷ cs) _ (ArePaired.pair p rest) =
    (rw (p.profile) (beq_self id), paired-of_profile number id cs _ rest)
