-- ===== src/Model/AlgorithmSet/Laws.antt =====
-- Canonical algorithm sets (`canonicalAlgorithmSet` of `internal/dkim2model/rotation.go`).
use opendkim_manage_go.Prelude.{
  ◌≡◌, ◌≢◌, ◌≤◌, ◌<◌, ◌↔◌, refl, sym, ap, true, false, List, [], ◌∷◌, Option, none, some, length,
  contains, distinct, All, ok, Bool-cases, inl, inr, ◌==◌, text_eq, nat_eq, eq_of_beq, beq_self,
  arith, text_beq_iff, All-map, All_of_contains, contains-All, ◌∙◌, map-id,
}
use opendkim_manage_go.Prelude.Sort.{sort_func, length-sort_func, contains-sort_func, All-sort_func}
use opendkim_manage_go.Prelude.Sort.Order.{
  NotAfter, IsOrdered, IsComparison, sort_func-IsOrdered, distinct-sort_func,
}
use opendkim_manage_go.Model.Values.{
  Algorithm, is_known_algorithm, compare_algorithms, algorithm_rank, rank_in, rsa_sha256,
  ed25519_sha256, mldsa44_ed25519_sha512,
}
use opendkim_manage_go.Model.AlgorithmSet.{all_fresh, canonical_algorithm_set}

-- Known algorithms have different ranks.
pub algorithm_rank-injective :
    (a b : Algorithm) → is_known_algorithm a ≡ true → algorithm_rank a ≡ algorithm_rank b → a ≡ b
unfolding algorithm_rank is_known_algorithm rank_in contains
algorithm_rank-injective a b h e = ground (
  arith,
  text_beq_iff a rsa_sha256,
  text_beq_iff a ed25519_sha256,
  text_beq_iff a mldsa44_ed25519_sha512,
  text_beq_iff rsa_sha256 a,
  text_beq_iff ed25519_sha256 a,
  text_beq_iff mldsa44_ed25519_sha512 a,
  text_beq_iff b rsa_sha256,
  text_beq_iff b ed25519_sha256,
  text_beq_iff b mldsa44_ed25519_sha512,
)

compare_algorithms-IsComparison : IsComparison compare_algorithms
unfolding compare_algorithms
compare_algorithms-IsComparison = record {
  total = λ x y h. ground arith;
  trans = λ x y z h k. ground arith;
}

abbrev IsKnown : Algorithm → Type 0
IsKnown a = is_known_algorithm a ≡ true

rank-le : (a b : Algorithm) → NotAfter compare_algorithms a b → algorithm_rank a ≤ algorithm_rank b
unfolding compare_algorithms
rank-le a b h = ground arith

all_fresh-IsKnown :
    (p : Option Algorithm) (xs : List Algorithm) → all_fresh p xs ≡ true → All IsKnown xs
unfolding all_fresh
all_fresh-IsKnown p [] h = tt
all_fresh-IsKnown p (x ∷ xs) h = (ground arith, all_fresh-IsKnown (some x) xs (ground arith))

not-contains_of_rank :
    (a : Algorithm) (xs : List Algorithm)
    → All (λ z. algorithm_rank a < algorithm_rank z) xs
    → contains xs a ≡ false
unfolding contains
not-contains_of_rank a [] h = refl
not-contains_of_rank a (x ∷ xs) h = elim (Bool-cases (x == a)) [
  | inl t ↦ let e = ap algorithm_rank (eq_of_beq x a t) in let lt = h.0 in absurd (omega arith)
  | inr f ↦ rw (f, not-contains_of_rank a xs h.1)
]

-- In an ordered list whose neighbours differ, each element ranks below all that follow.
all_fresh-not-contains :
    (a : Algorithm) (xs : List Algorithm)
    → all_fresh (some a) xs ≡ true
    → IsOrdered compare_algorithms (a ∷ xs)
    → contains xs a ≡ false
all_fresh-not-contains a [] h o = unfold contains in refl
all_fresh-not-contains a (b ∷ xs) h o = not-contains_of_rank a (b ∷ xs) (
  below,
  All-map (NotAfter compare_algorithms b) (λ z. algorithm_rank a < algorithm_rank z) xs
      (λ z k. let le = rank-le b z k in let lt = below in omega arith) o.1.0,
)
  where
    differ : b ≢ a
    differ e = let t : (b == a) ≡ true = rw e (beq_self a) in unfold all_fresh in ground (arith, t)

    known : IsKnown b
    known = (all_fresh-IsKnown (some a) (b ∷ xs) h).0

    ne : algorithm_rank b ≢ algorithm_rank a
    ne e = differ (algorithm_rank-injective b a known e)

    below : algorithm_rank a < algorithm_rank b
    below = let le = rank-le a b o.0.0 in omega (arith, ne)

distinct_of_all_fresh :
    (p : Option Algorithm) (xs : List Algorithm)
    → all_fresh p xs ≡ true
    → IsOrdered compare_algorithms xs
    → distinct xs ≡ true
unfolding distinct all_fresh
distinct_of_all_fresh p [] h o = refl
distinct_of_all_fresh p (x ∷ xs) h o = rw (
  all_fresh-not-contains x xs (ground arith) o,
  distinct_of_all_fresh (some x) xs (ground arith) o.1,
)

not-repeats :
    (a x : Algorithm) (xs : List Algorithm) → contains (x ∷ xs) a ≡ false → (x == a) ≡ false
unfolding contains
not-repeats a x xs h = ground arith

all_fresh_of_distinct :
    (a : Algorithm) (xs : List Algorithm)
    → All IsKnown xs
    → distinct (a ∷ xs) ≡ true
    → all_fresh (some a) xs ≡ true
unfolding all_fresh distinct
all_fresh_of_distinct a [] k d = refl
all_fresh_of_distinct a (x ∷ xs) k d =
    rw (k.0, not-repeats a x xs (ground arith), all_fresh_of_distinct x xs k.1 (ground arith))

all_fresh-none :
    (xs : List Algorithm) → All IsKnown xs → distinct xs ≡ true → all_fresh none xs ≡ true
unfolding all_fresh
all_fresh-none [] k d = refl
all_fresh-none (x ∷ xs) k d = rw (k.0, all_fresh_of_distinct x xs k.1 d)

-- What `canonicalAlgorithmSet` returns: the requested algorithms, each known and none twice, in the
-- canonical signing order.
pub record IsCanonical (algorithms result : List Algorithm) : Type 0 where
  pub members : (a : Algorithm) → contains result a ≡ contains algorithms a
  pub cardinality : length result ≡ length algorithms
  pub known : All IsKnown result
  pub distinct_lem : distinct result ≡ true
  pub ordered : IsOrdered compare_algorithms result

sorted : List Algorithm → List Algorithm
sorted = sort_func compare_algorithms

accepted_parts :
    (algorithms : List Algorithm) {result : List Algorithm}
    → canonical_algorithm_set algorithms ≡ ok result
    → (1 ≤ length algorithms)
      × (length algorithms ≤ 3)
      × (all_fresh none (sorted algorithms) ≡ true)
      × (result ≡ sorted algorithms)
unfolding canonical_algorithm_set sorted
accepted_parts algorithms h = ground arith

contains-sorted : (xs : List Algorithm) (a : Algorithm) → contains (sorted xs) a ≡ contains xs a
unfolding sorted
contains-sorted xs a = rw (
  ← map-id (sort_func compare_algorithms xs),
  contains-sort_func (λ x. x) compare_algorithms xs a,
  map-id xs,
)

distinct-sorted : (xs : List Algorithm) → distinct (sorted xs) ≡ distinct xs
unfolding sorted
distinct-sorted xs = rw (
  ← map-id (sort_func compare_algorithms xs),
  distinct-sort_func (λ x. x) compare_algorithms xs,
  map-id xs,
)

-- An accepted request comes back as the same set of algorithms: each is known, none stands twice,
-- and they are in the canonical signing order. Comparing sorted neighbours finds every duplicate.
pub canonical_algorithm_set-IsCanonical :
    (algorithms result : List Algorithm)
    → canonical_algorithm_set algorithms ≡ ok result
    → IsCanonical algorithms result
canonical_algorithm_set-IsCanonical algorithms result h =
    let (lo, hi, fresh, e) = accepted_parts algorithms h in
    let o = sort_func-IsOrdered compare_algorithms compare_algorithms-IsComparison algorithms in
    rw e (record {
      members = contains-sorted algorithms;
      cardinality = unfold sorted in length-sort_func compare_algorithms algorithms;
      known = all_fresh-IsKnown none (sorted algorithms) fresh;
      distinct_lem = distinct_of_all_fresh none (sorted algorithms) fresh (unfold sorted in o);
      ordered = unfold sorted in o;
    })

All-sorted : (xs : List Algorithm) → All IsKnown xs → All IsKnown (sorted xs)
unfolding sorted
All-sorted xs h = All-sort_func IsKnown compare_algorithms xs h

canonical_of_fresh :
    (algorithms : List Algorithm)
    → 1 ≤ length algorithms
    → length algorithms ≤ 3
    → all_fresh none (sorted algorithms) ≡ true
    → canonical_algorithm_set algorithms ≡ ok (sorted algorithms)
unfolding canonical_algorithm_set sorted
canonical_of_fresh algorithms lo hi fresh = ground arith

-- A request is accepted exactly if it names from one to three algorithms, all known and none twice.
pub canonical_algorithm_set_iff :
    (algorithms : List Algorithm)
    → ((result : List Algorithm) × (canonical_algorithm_set algorithms ≡ ok result)) ↔ (
        (1 ≤ length algorithms)
        × (length algorithms ≤ 3)
        × All (λ a. is_known_algorithm a ≡ true) algorithms
        × (distinct algorithms ≡ true))
canonical_algorithm_set_iff algorithms =
    (λ h. from h.0 h.1, λ h. (sorted algorithms, to h.0 h.1 h.2 h.3))
  where
    from :
        (result : List Algorithm)
        → canonical_algorithm_set algorithms ≡ ok result
        → (1 ≤ length algorithms)
          × (length algorithms ≤ 3)
          × All IsKnown algorithms
          × (distinct algorithms ≡ true)
    from result h =
        let (lo, hi, _, e) = accepted_parts algorithms h in
        let c = canonical_algorithm_set-IsCanonical algorithms result h in
        (
          lo,
          hi,
          All_of_contains IsKnown algorithms
              (λ a m. contains-All IsKnown result a c.known (c.members a ∙ m)),
          sym (distinct-sorted algorithms) ∙ ap distinct (sym e) ∙ c.distinct_lem,
        )

    to :
        1 ≤ length algorithms
        → length algorithms ≤ 3
        → All IsKnown algorithms
        → distinct algorithms ≡ true
        → canonical_algorithm_set algorithms ≡ ok (sorted algorithms)
    to lo hi k d = canonical_of_fresh algorithms lo hi (
        all_fresh-none (sorted algorithms) (All-sorted algorithms k)
          (distinct-sorted algorithms ∙ d))
