-- ===== src/Model/KeyPair.antt =====
-- The owner of one native key, `KeyPair` of `internal/dkim2model/keypair.go`. A method runs under
-- the owner's lock; one that changes the owner returns the new one.
use opendkim_manage_go.Prelude.{
  Bool, true, false, ◌&&◌, [], Option, none, some, Text, Result, ok, err, ◌==◌, text_eq,
  if◌then◌else◌,
}
use opendkim_manage_go.Model.Error.{Error, invalid, closed}
use opendkim_manage_go.Model.Values.{Algorithm, is_known_algorithm}

pub record KeyPair : Type 0 where
  pub algorithm : Algorithm
  pub private_pkcs8 : Text
  pub public_spki : Text
  pub dns_public : Text
  pub is_closed : Bool

-- `KeyPair.Algorithm`
unfoldable pub pair_algorithm : KeyPair → Algorithm
pair_algorithm k = if k.is_closed then [] else k.algorithm

-- `KeyPair.PrivatePKCS8DER`
unfoldable pub pair_private : KeyPair → Text
pair_private k = if k.is_closed then [] else k.private_pkcs8

-- `KeyPair.PublicSPKIDER`
unfoldable pub pair_public : KeyPair → Text
pair_public k = if k.is_closed then [] else k.public_spki

-- `KeyPair.DNSPublicKeyBytes`
unfoldable pub pair_dns_public : KeyPair → Text
pair_dns_public k = if k.is_closed then [] else k.dns_public

-- `KeyPair.Clone` of a pointer.
unfoldable pub clone_pair : Option KeyPair → Result Error KeyPair
clone_pair none = err invalid
clone_pair (some k) =
    if k.is_closed
    then err closed
    else ok (record {
      algorithm = k.algorithm;
      private_pkcs8 = k.private_pkcs8;
      public_spki = k.public_spki;
      dns_public = k.dns_public;
      is_closed = false;
    })

-- `KeyPair.Equivalent` of two owners.
unfoldable pub equivalent_pairs : KeyPair → KeyPair → Bool
unfolding pair_algorithm pair_private pair_public pair_dns_public is_known_algorithm
equivalent_pairs k other =
    is_known_algorithm (pair_algorithm k)
    && (pair_algorithm k == pair_algorithm other
        && (pair_private k == pair_private other
            && (pair_public k == pair_public other && pair_dns_public k == pair_dns_public other)))

-- `KeyPair.Close`: the cleared buffers are dropped.
unfoldable pub close_pair : KeyPair → KeyPair
close_pair k = if k.is_closed then k else record {
  algorithm = [];
  private_pkcs8 = [];
  public_spki = [];
  dns_public = [];
  is_closed = true;
}
