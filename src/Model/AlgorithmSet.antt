-- ===== src/Model/AlgorithmSet.antt =====
-- `canonicalAlgorithmSet` and `containsEveryAlgorithm` of `internal/dkim2model/rotation.go`.
pub mod Laws
use opendkim_manage_go.Prelude.{
  Bool, true, not, ◌&&◌, ◌||◌, false, List, [], ◌∷◌, Option, none, some, length, contains, all, ltb,
  Result, ok, err, fail_if, ◌>>=◌, ◌>>◌, ◌==◌, nat_eq, text_eq, if◌then◌else◌,
}
use opendkim_manage_go.Prelude.Sort.{sort_func}
use opendkim_manage_go.Model.Error.{Error, invalid}
use opendkim_manage_go.Model.Values.{
  Algorithm, is_known_algorithm, compare_algorithms, max_credentials_per_profile,
}

-- `index > 0 && algorithm == result[index-1]`
abbrev pub repeats : Option Algorithm → Algorithm → Bool
repeats none algorithm = false
repeats (some previous) algorithm = algorithm == previous

-- The loop over the sorted copy, with the element before.
unfoldable pub all_fresh : Option Algorithm → List Algorithm → Bool
all_fresh previous [] = true
all_fresh previous (algorithm ∷ rest) =
    not (not (is_known_algorithm algorithm) || repeats previous algorithm)
    && all_fresh (some algorithm) rest

-- `canonicalAlgorithmSet`
unfoldable pub canonical_algorithm_set : List Algorithm → Result Error (List Algorithm)
unfolding all_fresh sort_func compare_algorithms is_known_algorithm
canonical_algorithm_set algorithms = do
  fail_if (length algorithms == 0 || ltb max_credentials_per_profile (length algorithms)) invalid
  let result = sort_func compare_algorithms algorithms
  fail_if (not (all_fresh none result)) invalid
  ok result

-- `containsEveryAlgorithm`
unfoldable pub contains_every_algorithm : List Algorithm → List Algorithm → Bool
unfolding all contains
contains_every_algorithm requested current = all (contains requested) current
