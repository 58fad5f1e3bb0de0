-- ===== src/Model/Lifecycle/Observation.antt =====
-- `ObservationCredential` and `LifecycleObservation` of `internal/dkim2model/lifecycle.go`.
use opendkim_manage_go.Prelude.{
  ℕ, Bool, true, not, ◌&&◌, ◌||◌, List, [], ◌∷◌, map, Text, length, ltb, contains, distinct, all,
  leb, arith, ◌≡◌, refl, if◌then◌else◌, Result, ok, err, fail_if, is_err, ◌>>◌, ◌==◌, nat_eq,
  text_eq,
}
use opendkim_manage_go.Prelude.Lists.Seen.{new_among, new_among-nil}
use opendkim_manage_go.Model.Error.{Error, invalid}
use opendkim_manage_go.Model.Names.{validate_canonical_dns_name}
use opendkim_manage_go.Model.Values.{Algorithm, is_known_algorithm, max_credentials_per_profile}
use opendkim_manage_go.Model.Lifecycle.{LifecyclePhase, is_known_phase}

pub record ObservationCredential : Type 0 where
  pub selector : Text
  pub algorithm : Algorithm

-- `NewObservationCredential`
unfoldable pub new_observation_credential : Text → Algorithm → Result Error ObservationCredential
new_observation_credential selector algorithm = do
  fail_if (is_err (validate_canonical_dns_name selector) || not (is_known_algorithm algorithm))
      invalid
  ok (record { selector = selector; algorithm = algorithm })

pub record LifecycleObservation : Type 0 where
  pub generation : ℕ
  pub phase : LifecyclePhase
  pub domain : Text
  pub credentials : List ObservationCredential

-- The loop over the credentials, with `seenAlgorithms` and `seenSelectors`.
unfoldable pub admits_observed : List Algorithm → List Text → List ObservationCredential → Bool
admits_observed algorithms selectors [] = true
admits_observed algorithms selectors (c ∷ rest) =
    not (not (is_known_algorithm c.algorithm) || is_err (validate_canonical_dns_name c.selector))
    && (not (contains algorithms c.algorithm)
        && (not (contains selectors c.selector)
            && admits_observed (c.algorithm ∷ algorithms) (c.selector ∷ selectors) rest))

-- `NewLifecycleObservation`
unfoldable pub new_lifecycle_observation :
    ℕ → LifecyclePhase → Text → List ObservationCredential → Result Error LifecycleObservation
new_lifecycle_observation generation phase domain credentials = do
  fail_if
      (generation == 0
        || (not (is_known_phase phase)
            || (is_err (validate_canonical_dns_name domain)
                || ltb max_credentials_per_profile (length credentials))))
      invalid
  fail_if (not (admits_observed [] [] credentials)) invalid
  ok (record { generation = generation; phase = phase; domain = domain; credentials = credentials })

-- The conditions on the facts of an observation.
abbrev pub observation_fits : ObservationCredential → Bool
observation_fits c =
    is_known_algorithm c.algorithm && not (is_err (validate_canonical_dns_name c.selector))

abbrev pub describes_observation : ℕ → LifecyclePhase → Text → List ObservationCredential → Bool
describes_observation generation phase domain credentials =
    not (generation == 0)
    && (is_known_phase phase
        && (not (is_err (validate_canonical_dns_name domain))
            && (leb (length credentials) max_credentials_per_profile
                && (all observation_fits credentials
                    && (distinct (map (λ c. c.algorithm) credentials)
                        && distinct (map (λ c. c.selector) credentials))))))

admits_observed_lem :
    (algorithms selectors : List Text) (cs : List ObservationCredential)
    → admits_observed algorithms selectors cs ≡ (
        all observation_fits cs
        && (new_among algorithms (map (λ c. c.algorithm) cs)
            && new_among selectors (map (λ c. c.selector) cs)))
unfolding admits_observed all new_among
admits_observed_lem algorithms selectors [] = refl
admits_observed_lem algorithms selectors (c ∷ cs) =
    let rest = admits_observed_lem (c.algorithm ∷ algorithms) (c.selector ∷ selectors) cs in
    ground (arith, rest)

-- `NewLifecycleObservation` returns the observation of the given facts where the generation is not 0,
-- the phase is known, the domain is canonical, the credentials are at most the bound, each has a known
-- algorithm and a canonical selector, and no two have one algorithm or one selector; it returns
-- ErrInvalid on all other facts.
pub new_lifecycle_observation_lem :
    (generation : ℕ) (phase : LifecyclePhase) (domain : Text)
    (credentials : List ObservationCredential)
    → new_lifecycle_observation generation phase domain credentials ≡ (
        if describes_observation generation phase domain credentials
        then ok (record {
          generation = generation;
          phase = phase;
          domain = domain;
          credentials = credentials;
        })
        else err invalid)
unfolding new_lifecycle_observation
new_lifecycle_observation_lem generation phase domain credentials =
    let loop = admits_observed_lem [] [] credentials in
    let algorithms = new_among-nil (map (λ c. c.algorithm) credentials) in
    let selectors = new_among-nil (map (λ c. c.selector) credentials) in
    ground (arith, loop, algorithms, selectors)
