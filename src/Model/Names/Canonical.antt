-- ===== src/Model/Names/Canonical.antt =====
-- What lowering does to the labels of a DNS name (`internal/dkim2model/values.go`).
use opendkim_manage_go.Prelude.{
  ℕ, ◌≡◌, refl, ap, true, false, not, ◌||◌, List, [], ◌∷◌, map, Text, length, ◌≤◌, ◌<◌, ◌↔◌,
  is_empty, head_or, last_or, all, Result, ok, err, Bool-cases, inl, inr, ◌==◌, nat_eq, eq_of_beq,
  beq_self, text_eq, arith, length-map, fail_if,
}
use opendkim_manage_go.Model.Error.{Error, invalid}
use opendkim_manage_go.Model.Names.{
  dns_edge, lower, drop_last, valid_label, split_on, canonical_dns_name, tail_list, is_canonical,
  validate_canonical_dns_name,
}

lower_idem : (c : ℕ) → lower (lower c) ≡ lower c
unfolding lower
lower_idem c = ground arith

dns_edge-lower : (c : ℕ) → dns_edge (lower c) ≡ dns_edge c
unfolding dns_edge lower
dns_edge-lower c = ground arith

lower_dot : (c : ℕ) → (lower c == b'.') ≡ (c == b'.')
unfolding lower
lower_dot c = ground arith

lower_dash : (c : ℕ) → (lower c == b'-') ≡ (c == b'-')
unfolding lower
lower_dash c = ground arith

drop_last-map : (t : Text) → drop_last (map lower t) ≡ map lower (drop_last t)
unfolding drop_last
drop_last-map [] = refl
drop_last-map (c ∷ []) = refl
drop_last-map (c ∷ d ∷ rest) = ap (◌∷◌ (lower c)) (drop_last-map (d ∷ rest))

last_or-map : (d : ℕ) (t : Text) → last_or (lower d) (map lower t) ≡ lower (last_or d t)
last_or-map d [] = refl
last_or-map d (c ∷ rest) = last_or-map c rest

all-map :
    (t : Text)
    → all (λ c. dns_edge c || c == b'-') (map lower t) ≡ all (λ c. dns_edge c || c == b'-') t
unfolding all
all-map [] = refl
all-map (c ∷ rest) = rw (dns_edge-lower c, lower_dash c, all-map rest)

pub valid_label-map : (label : Text) → valid_label (map lower label) ≡ valid_label label
unfolding valid_label
valid_label-map [] = refl
valid_label-map (c ∷ rest) = rw (
  length-map lower rest,
  dns_edge-lower c,
  last_or-map c rest,
  dns_edge-lower (last_or c rest),
  drop_last-map rest,
  all-map (drop_last rest),
)

split_on-head : (ps : List Text) → head_or [] (map (map lower) ps) ≡ map lower (head_or [] ps)
split_on-head [] = refl
split_on-head (p ∷ ps) = refl

tail_list-map : (ps : List Text) → tail_list (map (map lower) ps) ≡ map (map lower) (tail_list ps)
tail_list-map [] = refl
tail_list-map (p ∷ ps) = refl

pub split_on-map : (v : Text) → split_on b'.' (map lower v) ≡ map (map lower) (split_on b'.' v)
unfolding split_on
split_on-map [] = refl
split_on-map (c ∷ rest) = elim (Bool-cases (c == b'.')) [
  | inl t ↦ rw (lower_dot c, t, split_on-map rest)
  | inr f ↦ rw (
    lower_dot c,
    f,
    split_on-map rest,
    split_on-head (split_on b'.' rest),
    tail_list-map (split_on b'.' rest),
  )
]

all-valid_label-map : (ps : List Text) → all valid_label (map (map lower) ps) ≡ all valid_label ps
unfolding all
all-valid_label-map [] = refl
all-valid_label-map (p ∷ ps) = rw (valid_label-map p, all-valid_label-map ps)

map-lower_idem : (v : Text) → map lower (map lower v) ≡ map lower v
map-lower_idem [] = refl
map-lower_idem (c ∷ v) = cc (lower_idem c, map-lower_idem v)

-- The checks that `canonicalDNSName` makes.
pub record IsDnsName (v : Text) : Type 0 where
  pub nonempty : is_empty v ≡ false
  pub bounded : length v ≤ 253
  pub label_count : length (split_on b'.' v) ≤ 127
  pub labels : all valid_label (split_on b'.' v) ≡ true

split_on-nonempty : (v : Text) → 0 < length (split_on b'.' v)
unfolding split_on
split_on-nonempty [] = omega arith
split_on-nonempty (c ∷ rest) = ground (arith, split_on-nonempty rest)

pub IsDnsName-of_ok : (v : Text) {w : Text} → canonical_dns_name v ≡ ok w → IsDnsName v
unfolding canonical_dns_name
IsDnsName-of_ok v h = ground arith

pub canonical_dns_name-eq : (v : Text) {w : Text} → canonical_dns_name v ≡ ok w → w ≡ map lower v
unfolding canonical_dns_name
canonical_dns_name-eq v h = ground arith

pub canonical_dns_name_of_IsDnsName :
    (v : Text) → IsDnsName v → canonical_dns_name v ≡ ok (map lower v)
unfolding canonical_dns_name
canonical_dns_name_of_IsDnsName v h = ground (arith, split_on-nonempty v)

is_empty-map : (v : Text) → is_empty (map lower v) ≡ is_empty v
is_empty-map [] = refl
is_empty-map (c ∷ v) = refl

pub map-lower-IsDnsName : (v : Text) → IsDnsName v → IsDnsName (map lower v)
map-lower-IsDnsName v h = record {
  nonempty = rw (is_empty-map v) h.nonempty;
  bounded = omega (arith, length-map lower v);
  label_count =
      rw (split_on-map v) (omega (arith, h.label_count, length-map (map lower) (split_on b'.' v)));
  labels = rw (split_on-map v, all-valid_label-map (split_on b'.' v)) h.labels;
}

-- The canonical form of a DNS name is canonical: to canonicalise it again changes nothing.
pub canonical_dns_name_idem :
    (v w : Text) → canonical_dns_name v ≡ ok w → canonical_dns_name w ≡ ok w
canonical_dns_name_idem v w h =
    let e = canonical_dns_name-eq v h in
    let n = map-lower-IsDnsName v (IsDnsName-of_ok v h) in
    rw (e, canonical_dns_name_of_IsDnsName (map lower v) n, map-lower_idem v)

-- `ValidateCanonicalDNSName` accepts exactly the results of `CanonicalDomain`: the texts that are
-- their own canonical form.
pub validate_canonical_dns_name_iff :
    (v : Text) → (validate_canonical_dns_name v ≡ ok tt) ↔ (canonical_dns_name v ≡ ok v)
unfolding validate_canonical_dns_name
validate_canonical_dns_name_iff v = (λ h. from (canonical_dns_name v) (ground arith), λ h. to h)
  where
    from : (r : Result Error Text) → is_canonical r v ≡ true → r ≡ ok v
    from (err e) h = cc
    from (ok c) h = ap ok (eq_of_beq c v h)

    to :
        canonical_dns_name v ≡ ok v
        → fail_if (not (is_canonical (canonical_dns_name v) v)) invalid ≡ ok tt
    to h = rw (h, beq_self v)
