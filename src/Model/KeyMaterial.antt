-- ===== src/Model/KeyMaterial.antt =====
-- The owner of one private key and its policy binding, `KeyMaterial` of
-- `internal/dkim2model/keymaterial.go`.
pub mod Ownership
use opendkim_manage_go.Prelude.{
  ℕ, ◌≡◌, refl, Bool, true, false, not, ◌&&◌, ◌||◌, [], Option, none, some, Text, Result, ok, err,
  fail_if, is_err, ◌>>=◌, ◌>>◌, ◌==◌, ◌!=◌, nat_eq, text_eq, if◌then◌else◌,
}
use opendkim_manage_go.Model.Error.{Error, invalid, closed}
use opendkim_manage_go.Model.Names.{validate_identifier, validate_canonical_dns_name}
use opendkim_manage_go.Model.Values.{
  Algorithm, ProfileUse, is_known_algorithm, supports_native_key_custody,
}
use opendkim_manage_go.Model.KeyPair.{
  KeyPair, pair_algorithm, pair_private, pair_public, pair_dns_public, clone_pair, close_pair,
}

pub record KeyMaterial : Type 0 where
  pub generation : ℕ
  pub tenant_id : Text
  pub domain : Text
  pub profile_use : ProfileUse
  pub handle_id : Text
  pub pair : Option KeyPair
  pub is_closed : Bool

-- `if pair == nil { true } else { !pair.Algorithm().Known() }`
abbrev pub lacks_known_algorithm : Option KeyPair → Bool
unfolding pair_algorithm is_known_algorithm
lacks_known_algorithm none = true
lacks_known_algorithm (some k) = not (is_known_algorithm (pair_algorithm k))

-- `NewKeyMaterial`
unfoldable pub new_key_material :
    ℕ → Text → Text → ProfileUse → Text → Option KeyPair → Result Error KeyMaterial
unfolding validate_identifier validate_canonical_dns_name supports_native_key_custody clone_pair
    lacks_known_algorithm
new_key_material generation tenant_id domain profile_use handle_id pair = do
  fail_if
      (generation == 0
        || (is_err (validate_identifier tenant_id)
            || (is_err (validate_canonical_dns_name domain)
                || (not (supports_native_key_custody profile_use)
                    || (is_err (validate_identifier handle_id) || lacks_known_algorithm pair)))))
      invalid
  owned ← clone_pair pair
  ok (record {
    generation = generation;
    tenant_id = tenant_id;
    domain = domain;
    profile_use = profile_use;
    handle_id = handle_id;
    pair = some owned;
    is_closed = false;
  })

-- `KeyMaterial.Generation`
unfoldable pub material_generation : KeyMaterial → ℕ
material_generation m = if m.is_closed then 0 else m.generation

-- `readString`, behind `TenantID`, `SigningDomain`, `HandleID` and `Use`.
unfoldable pub read_string : KeyMaterial → Text → Text
read_string m value = if m.is_closed then [] else value

-- `pairSnapshot`
unfoldable pub pair_snapshot : KeyMaterial → Option KeyPair
pair_snapshot m = if m.is_closed then none else m.pair

-- A fact of the pair, or its zero value without one.
abbrev pub of_pair : Option KeyPair → (KeyPair → Text) → Text
of_pair none read = []
of_pair (some k) read = read k

-- `KeyMaterial.TenantID`
unfoldable pub material_tenant : KeyMaterial → Text
unfolding read_string
material_tenant m = read_string m m.tenant_id

-- `KeyMaterial.SigningDomain`
unfoldable pub material_domain : KeyMaterial → Text
unfolding read_string
material_domain m = read_string m m.domain

-- `KeyMaterial.Use`
unfoldable pub material_use : KeyMaterial → ProfileUse
unfolding read_string
material_use m = read_string m m.profile_use

-- `KeyMaterial.HandleID`
unfoldable pub material_handle : KeyMaterial → Text
unfolding read_string
material_handle m = read_string m m.handle_id

-- `KeyMaterial.Algorithm`
unfoldable pub material_algorithm : KeyMaterial → Algorithm
unfolding pair_snapshot pair_algorithm
material_algorithm m = of_pair (pair_snapshot m) pair_algorithm

-- `KeyMaterial.PrivatePKCS8DER`
unfoldable pub material_private : KeyMaterial → Text
unfolding pair_snapshot pair_private
material_private m = of_pair (pair_snapshot m) pair_private

-- `KeyMaterial.PublicSPKIDER`
unfoldable pub material_public : KeyMaterial → Text
unfolding pair_snapshot pair_public
material_public m = of_pair (pair_snapshot m) pair_public

-- `KeyMaterial.DNSPublicKeyBytes`
unfoldable pub material_dns_public : KeyMaterial → Text
unfolding pair_snapshot pair_dns_public
material_dns_public m = of_pair (pair_snapshot m) pair_dns_public

abbrev pub is_nil {ℓ} : {A : Type ℓ} → Option A → Bool
is_nil none = true
is_nil (some _) = false

-- `KeyMaterial.Clone` of an owner.
unfoldable pub clone_material : KeyMaterial → Result Error KeyMaterial
unfolding clone_pair
clone_material m = do
  fail_if (m.is_closed || is_nil m.pair) closed
  pair ← clone_pair m.pair
  ok (record {
    generation = m.generation;
    tenant_id = m.tenant_id;
    domain = m.domain;
    profile_use = m.profile_use;
    handle_id = m.handle_id;
    pair = some pair;
    is_closed = false;
  })

-- `KeyMaterial.Equivalent` of two owners.
unfoldable pub equivalent_materials : KeyMaterial → KeyMaterial → Bool
unfolding material_generation material_tenant material_domain material_use material_handle
    material_algorithm material_private material_public
equivalent_materials m other =
    material_generation m != 0
    && (material_generation m == material_generation other
        && (material_tenant m == material_tenant other
            && (material_domain m == material_domain other
                && (material_use m == material_use other
                    && (material_handle m == material_handle other
                        && (material_algorithm m == material_algorithm other
                            && (material_private m == material_private other
                                && material_public m == material_public other)))))))

-- `rebaseKeyMaterial`
unfoldable pub rebase_key_material : KeyMaterial → ℕ → Result Error KeyMaterial
unfolding clone_material
rebase_key_material input generation = do
  clone ← clone_material input
  ok (record clone { generation = generation })

-- `KeyMaterial.Close`
unfoldable pub close_material : KeyMaterial → KeyMaterial
close_material m = if m.is_closed then m else record {
  generation = 0;
  tenant_id = [];
  domain = [];
  profile_use = [];
  handle_id = [];
  pair = none;
  is_closed = true;
}
