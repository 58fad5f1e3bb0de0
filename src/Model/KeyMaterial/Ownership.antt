-- ===== src/Model/KeyMaterial/Ownership.antt =====
-- Copies and closed owners (`internal/dkim2model/keymaterial.go`).
use opendkim_manage_go.Prelude.{
  ℕ, ◌≡◌, refl, ◌∙◌, Bool, true, false, not, ◌&&◌, [], Option, none, some, Text, ok, err, arith,
  if◌then◌else◌, text_eq,
}
use opendkim_manage_go.Model.Error.{closed}
use opendkim_manage_go.Model.KeyPair.{KeyPair}
use opendkim_manage_go.Model.KeyMaterial.{
  KeyMaterial, clone_material, close_material, rebase_key_material, material_generation,
  material_tenant, material_domain, material_use, material_handle, material_algorithm,
  material_private, material_public, material_dns_public,
}

abbrev is_open_pair : Option KeyPair → Bool
is_open_pair none = false
is_open_pair (some k) = not k.is_closed

-- The owner is open and holds an open pair.
unfoldable pub is_readable : KeyMaterial → Bool
is_readable m = not m.is_closed && is_open_pair m.pair

clone_of_parts :
    (m : KeyMaterial) (p : Option KeyPair)
    → clone_material (record m { pair = p })
      ≡ (if is_readable (record m { pair = p }) then ok (record m { pair = p }) else err closed)
unfolding clone_material is_readable
clone_of_parts m none = ground arith
clone_of_parts m (some k) = ground arith

-- A clone is made exactly of a readable owner, and holds the same values; of any other the error says
-- that it is closed.
pub clone_material-eq :
    (m : KeyMaterial) → clone_material m ≡ (if is_readable m then ok m else err closed)
clone_material-eq m = clone_of_parts m m.pair

pub clone_material-ok : (m : KeyMaterial) → is_readable m ≡ true → clone_material m ≡ ok m
clone_material-ok m h = rw (clone_material-eq m, h)

pub clone_material-is_readable :
    (m n : KeyMaterial) → clone_material m ≡ ok n → (is_readable m ≡ true) × (n ≡ m)
clone_material-is_readable m n h = ground (arith, clone_material-eq m)

-- What a reader sees of an owner, but its generation.
pub record Facts : Type 0 where
  pub tenant : Text
  pub domain : Text
  pub profile_use : Text
  pub handle : Text
  pub algorithm : Text
  pub private : Text
  pub public : Text
  pub dns_public : Text

pub facts : KeyMaterial → Facts
facts m = record {
  tenant = material_tenant m;
  domain = material_domain m;
  profile_use = material_use m;
  handle = material_handle m;
  algorithm = material_algorithm m;
  private = material_private m;
  public = material_public m;
  dns_public = material_dns_public m;
}

abbrev pub no_facts : Facts
no_facts = record {
  tenant = [];
  domain = [];
  profile_use = [];
  handle = [];
  algorithm = [];
  private = [];
  public = [];
  dns_public = [];
}

-- After `Close` nothing can be read of an owner any more, by any accessor, and it cannot be cloned.
pub close_material-no_facts :
    (m : KeyMaterial)
    → m.is_closed ≡ false
    → (facts (close_material m) ≡ no_facts)
      × (material_generation (close_material m) ≡ 0)
      × (clone_material (close_material m) ≡ err closed)
unfolding facts close_material material_generation material_tenant material_domain material_use
    material_handle material_algorithm material_private material_public material_dns_public
    clone_material
close_material-no_facts m h = rw h (refl, refl, refl)

rebase-readable :
    (m : KeyMaterial) (g : ℕ) → is_readable (record m { generation = g }) ≡ is_readable m
unfolding is_readable
rebase-readable m g = refl

-- Rebasing a readable owner into another generation changes the generation and nothing else.
pub rebase_key_material-facts :
    (m : KeyMaterial) (g : ℕ)
    → is_readable m ≡ true
    → (n : KeyMaterial) × (rebase_key_material m g ≡ ok n)
      × (n ≡ record m { generation = g })
      × (facts n ≡ facts m)
      × (is_readable n ≡ true)
unfolding rebase_key_material facts material_tenant material_domain material_use material_handle
    material_algorithm material_private material_public material_dns_public
rebase_key_material-facts m g h =
    (record m { generation = g }, rw (clone_material-ok m h), refl, refl, rebase-readable m g ∙ h)
