-- ===== src/Model/Lifecycle.antt =====
-- The words of `internal/dkim2model/lifecycle.go`: intents, phases, bindings and credentials of an
-- explicit lifecycle transition. Its children are the observation, the retirement evidence, the
-- difference of two generations, and the plans. Formatting that hides secrets and nil generations are
-- not modelled. A loop over a Go map visits the entries in the order of their first insertion.
pub mod Observation
pub mod Evidence
pub mod Logical
pub mod Difference
pub mod Retirement
pub mod Lineage
pub mod Rollback
use opendkim_manage_go.Prelude.{
  ℕ, Bool, ◌&&◌, ◌||◌, List, [], ◌∷◌, map, Text, codes, leb, Result, ok, err, ◌==◌, nat_eq,
  if◌then◌else◌,
}
use opendkim_manage_go.Prelude.Int.{ℤ, sub_ℕ}
use opendkim_manage_go.Prelude.Sort.{sort_func}
use opendkim_manage_go.Model.Values.{Algorithm, ProfileUse, algorithm_rank}
use opendkim_manage_go.Model.Crypto.{Codecs, canonical_dns_public_bytes}
use opendkim_manage_go.Model.Records.{Credential, Policy}

-- `TransitionIntent`, with its two constants
abbrev pub TransitionIntent : Type 0
TransitionIntent = ℕ

abbrev pub intent_retirement : TransitionIntent
intent_retirement = 1

abbrev pub intent_forward_rollback : TransitionIntent
intent_forward_rollback = 2

-- `TransitionIntent.Known`
unfoldable pub is_known_intent : TransitionIntent → Bool
is_known_intent i = i == intent_retirement || i == intent_forward_rollback

-- `LifecyclePhase`, with its first and last constants
abbrev pub LifecyclePhase : Type 0
LifecyclePhase = ℕ

abbrev pub phase_idle : LifecyclePhase
phase_idle = 1

abbrev pub phase_retired : LifecyclePhase
phase_retired = 9

-- `LifecyclePhase.Known`
unfoldable pub is_known_phase : LifecyclePhase → Bool
is_known_phase p = leb phase_idle p && leb p phase_retired

-- `LifecyclePhase.Name`
unfoldable pub phase_name : LifecyclePhase → Text
phase_name p =
    if p == 1
    then codes "idle"
    else if p == 2
    then codes "staged"
    else if p == 3
    then codes "dns-pending"
    else if p == 4
    then codes "dns-conflict"
    else if p == 5
    then codes "committed-unreachable"
    else if p == 6
    then codes "activated"
    else if p == 7
    then codes "observing"
    else if p == 8
    then codes "retire-eligible"
    else if p == 9
    then codes "retired"
    else []

pub record LifecycleBinding : Type 0 where
  pub tenant : Text
  pub domain : Text
  pub profile_use : ProfileUse
  pub profile_id : Text

-- `LifecycleBinding{}`
abbrev pub no_binding : LifecycleBinding
no_binding = record { tenant = []; domain = []; profile_use = []; profile_id = [] }

-- `lifecycleBinding`
unfoldable pub lifecycle_binding : Policy → LifecycleBinding
lifecycle_binding p = record {
  tenant = p.tenant_id;
  domain = p.domain;
  profile_use = p.profile_use;
  profile_id = p.profile_id;
}

pub record LifecycleCredential : Type 0 where
  pub selector : Text
  pub algorithm : Algorithm
  pub public_spki : Text

-- `LifecycleCredential.DNSPublicKeyBytes`
unfoldable pub lifecycle_dns_public : Codecs → LifecycleCredential → Text
lifecycle_dns_public codecs c = elim (canonical_dns_public_bytes codecs c.algorithm c.public_spki) [
  | ok bytes ↦ bytes
  | err _ ↦ []
]

-- The order of `slices.SortFunc` in `lifecycleCredentials`.
unfoldable pub compare_lifecycle : LifecycleCredential → LifecycleCredential → ℤ
compare_lifecycle left right =
    sub_ℕ (algorithm_rank left.algorithm) (algorithm_rank right.algorithm)

-- `lifecycleCredentials`
unfoldable pub lifecycle_credentials : List (Algorithm × Credential) → List LifecycleCredential
lifecycle_credentials input = sort_func compare_lifecycle (
    map
      (λ e. record {
        selector = e.1.selector;
        algorithm = e.1.algorithm;
        public_spki = e.1.public_spki;
      })
      input)

-- `clearLifecycleCredentials`
unfoldable pub clear_lifecycle_credentials : List LifecycleCredential → List LifecycleCredential
clear_lifecycle_credentials input =
    map (λ _. record { selector = []; algorithm = []; public_spki = [] }) input
