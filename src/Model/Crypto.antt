-- ===== src/Model/Crypto.antt =====
-- Canonical DNS key bytes: `canonicalDNSPublicBytes` and `DNSPublicKeyMatchesSPKI` of
-- `internal/dkim2model/records.go`, and `compositeDNSPublicBytes` of `composite.go`. The key codecs
-- of the Go standard library are a parameter.
use opendkim_manage_go.Prelude.{
  ℕ, zero, suc, ◌+◌, ◌/◌, ◌%◌, Bool, true, false, not, ◌&&◌, ◌||◌, [], ◌∷◌, Option, none, some,
  Text, length, ltb, Result, ok, err, fail_if, ◌>>◌, ◌==◌, ◌!=◌, nat_eq, text_eq, if◌then◌else◌,
}
use opendkim_manage_go.Model.Error.{Error, invalid}
use opendkim_manage_go.Model.Values.{Algorithm, rsa_sha256, ed25519_sha256, mldsa44_ed25519_sha512}

-- What `x509.ParsePKIXPublicKey` yields: an RSA modulus and exponent, the bytes of an Ed25519 key,
-- or a key of another type.
pub data PublicKey : Type 0 where
  rsa_public : ℕ → ℕ → PublicKey
  ed25519_public : Text → PublicKey
  other_public : PublicKey

-- `x509.ParsePKIXPublicKey`, `MarshalPKIXPublicKey`, `MarshalPKCS1PublicKey`, and whether
-- `mldsa.NewPublicKey` accepts the bytes.
pub record Codecs : Type 0 where
  pub parse_pkix : Text → Option PublicKey
  pub marshal_pkix : PublicKey → Option Text
  pub marshal_pkcs1 : ℕ → ℕ → Text
  pub accepts_mldsa44 : Text → Bool

-- `big.Int.BitLen`, on fuel: a number has fewer bits than it counts.
unfoldable pub bit_len_loop : ℕ → ℕ → ℕ
bit_len_loop zero n = 0
bit_len_loop (suc fuel) n = let rest = bit_len_loop fuel (n / 2) in if n == 0 then 0 else suc rest

unfoldable pub bit_len : ℕ → ℕ
unfolding bit_len_loop
bit_len n = bit_len_loop n n

abbrev pub min_rsa_bits : ℕ
min_rsa_bits = 2048

abbrev pub max_rsa_bits : ℕ
max_rsa_bits = 8192

abbrev pub required_rsa_exponent : ℕ
required_rsa_exponent = 65537

-- `compositeSPKIPrefix`
abbrev pub composite_spki_prefix : Text
composite_spki_prefix =
    0x30 ∷ 0x82 ∷ 0x05 ∷ 0x51 ∷ 0x30 ∷ 0x0a ∷ 0x06 ∷ 0x08 ∷ 0x2b ∷ 0x06 ∷ 0x01 ∷ 0x05 ∷ 0x05 ∷ 0x07
    ∷ 0x06 ∷ 0x27 ∷ 0x03 ∷ 0x82 ∷ 0x05 ∷ 0x41 ∷ 0x00 ∷ []

abbrev pub mldsa44_public_key_bytes : ℕ
mldsa44_public_key_bytes = 1312

-- `CompositePublicKeyBytes`
abbrev pub composite_public_key_bytes : ℕ
composite_public_key_bytes = 1344

-- The bytes before and behind an index.
unfoldable pub take : ℕ → Text → Text
take zero xs = []
take (suc n) [] = []
take (suc n) (x ∷ xs) = x ∷ take n xs

unfoldable pub drop : ℕ → Text → Text
drop zero xs = xs
drop (suc n) [] = []
drop (suc n) (x ∷ xs) = drop n xs

-- `bytes.HasPrefix`
unfoldable pub has_prefix : Text → Text → Bool
has_prefix value [] = true
has_prefix [] (_ ∷ _) = false
has_prefix (x ∷ value) (y ∷ prefix) = x == y && has_prefix value prefix

module _ (codecs : Codecs) where
  -- `compositeDNSPublicBytes`
  unfoldable pub composite_dns_public_bytes : Text → Result Error Text
  unfolding take drop has_prefix
  composite_dns_public_bytes public_spki = do
    fail_if
        (length public_spki != length composite_spki_prefix + composite_public_key_bytes
          || not (has_prefix public_spki composite_spki_prefix))
        invalid
    let raw = drop (length composite_spki_prefix) public_spki
    fail_if (not (codecs.accepts_mldsa44 (take mldsa44_public_key_bytes raw))) invalid
    ok raw

  -- The `switch` on the parsed key.
  unfoldable pub dns_bytes_of_key : Algorithm → Text → PublicKey → Result Error Text
  unfolding bit_len
  dns_bytes_of_key algorithm public_spki (rsa_public modulus exponent) = do
    fail_if
        (algorithm != rsa_sha256
          || (modulus == 0
              || (modulus % 2 != 1
                  || (ltb (bit_len modulus) min_rsa_bits
                      || (ltb max_rsa_bits (bit_len modulus)
                          || exponent != required_rsa_exponent)))))
        invalid
    ok public_spki
  dns_bytes_of_key algorithm public_spki (ed25519_public public) = do
    fail_if (algorithm != ed25519_sha256 || length public != 32) invalid
    ok public
  dns_bytes_of_key algorithm public_spki other_public = err invalid

  -- `err != nil || !bytes.Equal(canonical, publicSPKI)`
  unfoldable pub is_canonical_key : Option Text → Text → Bool
  is_canonical_key none public_spki = false
  is_canonical_key (some canonical) public_spki = canonical == public_spki

  unfoldable pub dns_bytes_of_parsed : Algorithm → Text → Option PublicKey → Result Error Text
  unfolding is_canonical_key dns_bytes_of_key
  dns_bytes_of_parsed algorithm public_spki none = err invalid
  dns_bytes_of_parsed algorithm public_spki (some parsed) = do
    fail_if (not (is_canonical_key (codecs.marshal_pkix parsed) public_spki)) invalid
    dns_bytes_of_key algorithm public_spki parsed

  -- `canonicalDNSPublicBytes`
  unfoldable pub canonical_dns_public_bytes : Algorithm → Text → Result Error Text
  unfolding composite_dns_public_bytes dns_bytes_of_parsed
  canonical_dns_public_bytes algorithm public_spki =
      if algorithm == mldsa44_ed25519_sha512
      then composite_dns_public_bytes public_spki
      else dns_bytes_of_parsed algorithm public_spki (codecs.parse_pkix public_spki)

  -- The part of `DNSPublicKeyMatchesSPKI` for the PKCS #1 form of an RSA key.
  unfoldable pub matches_pkcs1 : Option PublicKey → Text → Bool
  matches_pkcs1 (some (rsa_public modulus exponent)) candidate =
      codecs.marshal_pkcs1 modulus exponent == candidate
  matches_pkcs1 _ candidate = false

  unfoldable pub matches_bytes : Algorithm → Text → Text → Result Error Text → Bool
  unfolding matches_pkcs1
  matches_bytes algorithm public_spki candidate (err _) = false
  matches_bytes algorithm public_spki candidate (ok primary) =
      if primary == candidate
      then true
      else if algorithm != rsa_sha256
      then false
      else matches_pkcs1 (codecs.parse_pkix public_spki) candidate

  -- `DNSPublicKeyMatchesSPKI`
  unfoldable pub dns_public_key_matches_spki : Algorithm → Text → Text → Bool
  unfolding matches_bytes canonical_dns_public_bytes
  dns_public_key_matches_spki algorithm public_spki candidate =
      matches_bytes algorithm public_spki candidate
        (canonical_dns_public_bytes algorithm public_spki)
