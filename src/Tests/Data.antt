-- ===== src/Tests/Data.antt =====
-- A small generation of `internal/dkim2model`: one tenant, one profile with one key, one policy.
use opendkim_manage_go.Prelude.{
  ℕ, zero, suc, ◌+◌, ◌==◌, text_eq, text_beq, if◌then◌else◌, true, false, List, [], ◌∷◌, ◌++◌, none,
  some, Text, codes,
}
use opendkim_manage_go.Model.Crypto.{PublicKey, Codecs, composite_spki_prefix}
use opendkim_manage_go.Model.Allocation.{candidate_of}
use opendkim_manage_go.Model.Rotation.{RotationSources}
use opendkim_manage_go.Model.Instant.{zero_time}
use opendkim_manage_go.Model.Values.{
  Algorithm, rsa_sha256, ed25519_sha256, mldsa44_ed25519_sha512, originator, status_active,
  rollout_enforce, compatibility_strict, state_committed,
}
use opendkim_manage_go.Model.KeyPair.{KeyPair}
use opendkim_manage_go.Model.KeyMaterial.{KeyMaterial}
use opendkim_manage_go.Model.Records.{Handle, Profile, Credential, Policy}
use opendkim_manage_go.Model.Generation.{Generation}

abbrev pub key_pair : Algorithm → KeyPair
key_pair algorithm = record {
  algorithm = algorithm;
  private_pkcs8 = codes "private";
  public_spki = codes "public";
  dns_public = codes "dns";
  is_closed = false;
}

abbrev pub handle_of : ℕ → Text → Handle
handle_of number id = record { generation = number; id = id }

abbrev pub profile_of : ℕ → Profile
profile_of number = record {
  generation = number;
  id = codes "p1";
  domain = codes "example.org";
  status = status_active;
  not_before = zero_time;
  not_after = zero_time;
}

abbrev pub credential_of : ℕ → Text → Text → Algorithm → Credential
credential_of number selector handle algorithm = record {
  generation = number;
  profile_id = codes "p1";
  selector = selector;
  algorithm = algorithm;
  public_spki = codes "public";
  handle_id = handle;
}

abbrev pub policy_of : ℕ → Policy
policy_of number = record {
  generation = number;
  tenant_id = codes "t1";
  domain = codes "example.org";
  profile_use = originator;
  profile_id = codes "p1";
  status = status_active;
  rollout = rollout_enforce;
  compatibility = compatibility_strict;
  feedback_route_id = [];
}

abbrev pub material_of : ℕ → Text → Algorithm → KeyMaterial
material_of number handle algorithm = record {
  generation = number;
  tenant_id = codes "t1";
  domain = codes "example.org";
  profile_use = originator;
  handle_id = handle;
  pair = some (key_pair algorithm);
  is_closed = false;
}

abbrev pub handles : List Handle
handles = handle_of 1 (codes "h1") ∷ handle_of 1 (codes "h2") ∷ []

abbrev pub profiles : List Profile
profiles = profile_of 1 ∷ []

abbrev pub credentials : List Credential
credentials =
    credential_of 1 (codes "s1") (codes "h1") rsa_sha256
    ∷ credential_of 1 (codes "s2") (codes "h2") ed25519_sha256
    ∷ []

abbrev pub policies : List Policy
policies = policy_of 1 ∷ []

abbrev pub materials : List KeyMaterial
materials = material_of 1 (codes "h1") rsa_sha256 ∷ material_of 1 (codes "h2") ed25519_sha256 ∷ []

abbrev pub generation : Generation
generation = record {
  number = 1;
  state = state_committed;
  handles = handles;
  profiles = profiles;
  credentials = credentials;
  policies = policies;
  materials = materials;
}

-- Twelve times, or 32 times, one byte.
abbrev pub copies_12 : ℕ → Text
copies_12 c = c ∷ c ∷ c ∷ c ∷ c ∷ c ∷ c ∷ c ∷ c ∷ c ∷ c ∷ c ∷ []

abbrev pub copies_32 : ℕ → Text
copies_32 c = copies_12 c ++ (copies_12 c ++ (c ∷ c ∷ c ∷ c ∷ c ∷ c ∷ c ∷ c ∷ []))

abbrev pub key_of : ℕ → KeyPair
key_of c = record {
  algorithm = ed25519_sha256;
  private_pkcs8 = codes "private";
  public_spki = copies_32 c;
  dns_public = copies_32 c;
  is_closed = false;
}

abbrev pub codecs : Codecs
codecs = record {
  parse_pkix = λ spki. some (PublicKey.ed25519_public spki);
  marshal_pkix = λ k. elim k [ PublicKey.ed25519_public p ↦ some p | _ ↦ none ];
  marshal_pkcs1 = λ n e. [];
  accepts_mldsa44 = λ b. false;
}

abbrev pub credential_at : ℕ → Text → Text → ℕ → Credential
credential_at number selector handle key = record {
  generation = number;
  profile_id = codes "p1";
  selector = selector;
  algorithm = ed25519_sha256;
  public_spki = copies_32 key;
  handle_id = handle;
}

abbrev pub material_at : ℕ → Text → ℕ → KeyMaterial
material_at number handle key = record {
  generation = number;
  tenant_id = codes "t1";
  domain = codes "example.org";
  profile_use = originator;
  handle_id = handle;
  pair = some (key_of key);
  is_closed = false;
}

-- A generation whose one key has the given number.
abbrev pub generation_at : ℕ → Text → Text → Text → ℕ → Generation
generation_at number state selector handle key = record {
  number = number;
  state = state;
  handles = handle_of number handle ∷ [];
  profiles = profile_of number ∷ [];
  credentials = credential_at number selector handle key ∷ [];
  policies = policy_of number ∷ [];
  materials = material_at number handle key ∷ [];
}

-- A reader that counts, a history that has one selector, and a generator of numbered keys.
abbrev pub sources : RotationSources ℕ
sources = record {
  read_full = λ n c. some (copies_12 c, c + 1);
  selector_used = λ s. some (text_beq s (candidate_of (codes "dkim2") (copies_12 1)));
  handle_used = λ s. some false;
  generate = λ a bits c. (some (key_of c), c + 1);
  codecs = codecs;
}

-- One byte, many times.
abbrev pub copies : ℕ → ℕ → Text
copies zero c = []
copies (suc n) c = c ∷ copies n c

-- The same reader with a generator that also makes composite keys.
abbrev pub composite_key : ℕ → KeyPair
composite_key c = record {
  algorithm = mldsa44_ed25519_sha512;
  private_pkcs8 = codes "private";
  public_spki = composite_spki_prefix ++ copies 1344 c;
  dns_public = copies 1344 c;
  is_closed = false;
}

abbrev pub both_sources : RotationSources ℕ
both_sources = record sources {
  generate =
      λ a bits c. (some (if a == mldsa44_ed25519_sha512 then composite_key c else key_of c), c + 1);
  codecs = record codecs { accepts_mldsa44 = λ b. true };
}
