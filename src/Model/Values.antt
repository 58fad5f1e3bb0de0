-- ===== src/Model/Values.antt =====
-- The closed vocabularies of `internal/dkim2model/values.go`. As in the source each is a string
-- type, whose known values are constants.
pub mod Base64
use opendkim_manage_go.Prelude.{
  ℕ, suc, ◌+◌, ◌≡◌, Bool, true, false, not, ◌&&◌, ◌||◌, List, [], ◌∷◌, ◌++◌, Option, none, some,
  Text, codes, length, contains, find_first, is_empty, Result, ok, err, fail_if, ◌>>=◌, ◌>>◌, ◌==◌,
  nat_eq, text_eq, if◌then◌else◌,
}
use opendkim_manage_go.Prelude.Int.{ℤ, sub_ℕ}
use opendkim_manage_go.Model.Error.{Error, invalid}
use opendkim_manage_go.Model.Values.Base64.{encode}

abbrev pub Algorithm : Type 0
Algorithm = Text

abbrev pub rsa_sha256 : Algorithm
rsa_sha256 = codes "rsa-sha256"

abbrev pub ed25519_sha256 : Algorithm
ed25519_sha256 = codes "ed25519-sha256"

abbrev pub mldsa44_ed25519_sha512 : Algorithm
mldsa44_ed25519_sha512 = codes "mldsa44-ed25519-sha512"

abbrev pub signing_algorithm_order : List Algorithm
signing_algorithm_order = rsa_sha256 ∷ ed25519_sha256 ∷ mldsa44_ed25519_sha512 ∷ []

abbrev pub max_credentials_per_profile : ℕ
max_credentials_per_profile = length signing_algorithm_order

-- `Algorithm.Known`
unfoldable pub is_known_algorithm : Algorithm → Bool
unfolding contains
is_known_algorithm a = contains signing_algorithm_order a

-- `ParseAlgorithm`
unfoldable pub parse_algorithm : Text → Result Error Algorithm
unfolding is_known_algorithm
parse_algorithm value = do fail_if (not (is_known_algorithm value)) invalid; ok value

-- The loop of `algorithmRank`, over what is left of the order.
unfoldable pub rank_in : List Algorithm → Algorithm → ℕ
rank_in [] algorithm = 0
rank_in (known ∷ rest) algorithm =
    let r = rank_in rest algorithm in if algorithm == known then 0 else suc r

-- `algorithmRank`, in `generation.go`
unfoldable pub algorithm_rank : Algorithm → ℕ
unfolding rank_in
algorithm_rank algorithm = rank_in signing_algorithm_order algorithm

-- `CompareAlgorithms`
unfoldable pub compare_algorithms : Algorithm → Algorithm → ℤ
unfolding algorithm_rank
compare_algorithms left right = sub_ℕ (algorithm_rank left) (algorithm_rank right)

abbrev pub ProfileUse : Type 0
ProfileUse = Text

abbrev pub originator : ProfileUse
originator = codes "originator"

abbrev pub ordinary_transit : ProfileUse
ordinary_transit = codes "ordinary_transit"

abbrev pub next_domain_transit : ProfileUse
next_domain_transit = codes "next_domain_transit"

abbrev pub delivery_status : ProfileUse
delivery_status = codes "delivery_status"

-- `ProfileUse.Known`
unfoldable pub is_known_use : ProfileUse → Bool
is_known_use u =
    u == originator || (u == ordinary_transit || (u == next_domain_transit || u == delivery_status))

-- `ParseProfileUse`
unfoldable pub parse_profile_use : Text → Result Error ProfileUse
unfolding is_known_use
parse_profile_use value = do fail_if (not (is_known_use value)) invalid; ok value

-- `ProfileUse.SupportsNativeKeyCustody`
unfoldable pub supports_native_key_custody : ProfileUse → Bool
supports_native_key_custody u = u == originator || (u == ordinary_transit || u == delivery_status)

abbrev pub RecordStatus : Type 0
RecordStatus = Text

abbrev pub status_active : RecordStatus
status_active = codes "active"

abbrev pub status_disabled : RecordStatus
status_disabled = codes "disabled"

-- `RecordStatus.Known`
unfoldable pub is_known_status : RecordStatus → Bool
is_known_status s = s == status_active || s == status_disabled

abbrev pub Rollout : Type 0
Rollout = Text

abbrev pub rollout_enforce : Rollout
rollout_enforce = codes "enforce"

abbrev pub rollout_observe : Rollout
rollout_observe = codes "observe"

abbrev pub rollout_off : Rollout
rollout_off = codes "off"

-- `Rollout.Known`
unfoldable pub is_known_rollout : Rollout → Bool
is_known_rollout r = r == rollout_enforce || (r == rollout_observe || r == rollout_off)

abbrev pub Compatibility : Type 0
Compatibility = Text

abbrev pub compatibility_strict : Compatibility
compatibility_strict = codes "strict"

abbrev pub DatasetState : Type 0
DatasetState = Text

abbrev pub state_staging : DatasetState
state_staging = codes "staging"

abbrev pub state_committed : DatasetState
state_committed = codes "committed"

-- `DatasetState.Known`
unfoldable pub is_known_state : DatasetState → Bool
is_known_state s = s == state_staging || s == state_committed

-- `Algorithm.DNSKeyType`; `none` is the second result `false`.
unfoldable pub dns_key_type : Algorithm → Option Text
dns_key_type a =
    if a == rsa_sha256
    then some (codes "rsa")
    else if a == ed25519_sha256
    then some (codes "ed25519")
    else if a == mldsa44_ed25519_sha512
    then some mldsa44_ed25519_sha512
    else none

-- `token, _ := algorithm.DNSKeyType()`
abbrev pub token_or_empty : Option Text → Text
token_or_empty none = []
token_or_empty (some token) = token

-- `AlgorithmForDNSKeyType`
unfoldable pub algorithm_for_dns_key_type : Text → Bool → Option Algorithm
unfolding dns_key_type find_first
algorithm_for_dns_key_type key_type is_present =
    if not is_present
    then some rsa_sha256
    else find_first (λ a. token_or_empty (dns_key_type a) == key_type) signing_algorithm_order

-- `Algorithm.DNSHashAllowed`
unfoldable pub dns_hash_allowed : Algorithm → Text → Bool → Bool
dns_hash_allowed a hash is_present =
    if a == rsa_sha256 || a == ed25519_sha256
    then not is_present || hash == codes "sha256"
    else if a == mldsa44_ed25519_sha512
    then not is_present
    else false

-- The record text that `DNSKeyRecord` renders for a known key type.
unfoldable pub key_record_text : Algorithm → Text → Text → Text
unfolding encode
key_record_text algorithm key_type public =
    let hash = if algorithm == mldsa44_ed25519_sha512 then [] else codes "; h=sha256" in
    codes "v=DKIM1; k=" ++ (key_type ++ (hash ++ (codes "; p=" ++ encode public)))

-- `DNSKeyRecord`
unfoldable pub dns_key_record : Algorithm → Text → Result Error Text
unfolding dns_key_type key_record_text
dns_key_record algorithm public = elim (dns_key_type algorithm) [
  | none ↦ err invalid
  | some key_type ↦
      if is_empty public then err invalid else ok (key_record_text algorithm key_type public)
]
