-- ===== src/Model/Names/Owner.antt =====
-- The owner name `selector._domainkey.domain` behind `ValidateDomainSelector`, label by label.
use opendkim_manage_go.Prelude.{
  ℕ, ◌+◌, ◌≡◌, ◌≤◌, ◌<◌, refl, true, List, [], ◌∷◌, ◌++◌, Text, length, codes, head_or, All,
  All-map, ok, Bool-cases, inl, inr, ◌==◌, nat_eq, beq_self, arith, all→All, All-append,
  length-append,
}
use opendkim_manage_go.Model.Names.{
  valid_label, split_on, tail_list, count_byte, presentation, validate_domain_selector,
  validate_canonical_dns_name,
}
use opendkim_manage_go.Model.Names.Canonical.{IsDnsName-of_ok, validate_canonical_dns_name_iff}

pub split_on-ne-nil : (sep : ℕ) (v : Text) → 0 < length (split_on sep v)
unfolding split_on
split_on-ne-nil sep [] = omega arith
split_on-ne-nil sep (c ∷ rest) = ground (arith, split_on-ne-nil sep rest)

pub length-tail_list : (ps : List Text) → 0 < length ps → length (tail_list ps) + 1 ≡ length ps
length-tail_list [] h = absurd (omega arith)
length-tail_list (p ∷ ps) h = omega arith

-- Splitting counts the separators.
pub length-split_on : (sep : ℕ) (v : Text) → length (split_on sep v) ≡ count_byte sep v + 1
unfolding split_on count_byte
length-split_on sep [] = omega arith
length-split_on sep (c ∷ rest) = ground (
  arith,
  length-split_on sep rest,
  split_on-ne-nil sep rest,
  length-tail_list (split_on sep rest) (split_on-ne-nil sep rest),
)

head_or-append : (ps qs : List Text) → 0 < length ps → head_or [] (ps ++ qs) ≡ head_or [] ps
head_or-append [] qs h = absurd (omega arith)
head_or-append (p ∷ ps) qs h = refl

tail_list-append : (ps qs : List Text) → 0 < length ps → tail_list (ps ++ qs) ≡ tail_list ps ++ qs
tail_list-append [] qs h = absurd (omega arith)
tail_list-append (p ∷ ps) qs h = refl

-- A separator between two texts separates their parts.
pub split_on-append :
    (sep : ℕ) (a b : Text) → split_on sep (a ++ (sep ∷ b)) ≡ split_on sep a ++ split_on sep b
unfolding split_on
split_on-append sep [] b = rw (beq_self sep)
split_on-append sep (c ∷ a) b = elim (Bool-cases (c == sep)) [
  | inl t ↦ rw (t, split_on-append sep a b)
  | inr f ↦ rw (
    f,
    split_on-append sep a b,
    head_or-append (split_on sep a) (split_on sep b) (split_on-ne-nil sep a),
    tail_list-append (split_on sep a) (split_on sep b) (split_on-ne-nil sep a),
  )
]

-- The labels of the owner name are the selector's, `_domainkey` and the domain's.
pub split_on-presentation :
    (domain selector : Text)
    → split_on b'.' (presentation domain selector)
      ≡ split_on b'.' selector ++ (codes "_domainkey" ∷ split_on b'.' domain)
unfolding split_on
split_on-presentation domain selector =
    split_on-append b'.' selector (codes "_domainkey." ++ domain)

IsShort_of_valid_label : (l : Text) → valid_label l ≡ true → (1 ≤ length l) × (length l ≤ 63)
unfolding valid_label
IsShort_of_valid_label l h = ground arith

pub labels_of_canonical :
    (v : Text)
    → validate_canonical_dns_name v ≡ ok tt
    → All (λ l. (1 ≤ length l) × (length l ≤ 63)) (split_on b'.' v)
labels_of_canonical v h =
    let n = IsDnsName-of_ok v ((validate_canonical_dns_name_iff v).0 h) in
    All-map _ _ (split_on b'.' v) IsShort_of_valid_label (all→All valid_label _ n.labels)

-- What `ValidateDomainSelector` promises of the DNS owner name.
pub record IsOwner (owner : Text) : Type 0 where
  pub bounded : length owner ≤ 253
  pub label_count : length (split_on b'.' owner) ≤ 127
  pub labels : All (λ l. (1 ≤ length l) × (length l ≤ 63)) (split_on b'.' owner)

pub canonical_of_domain_selector :
    (domain selector : Text)
    → validate_domain_selector domain selector ≡ ok tt
    → (validate_canonical_dns_name domain ≡ ok tt) × (validate_canonical_dns_name selector ≡ ok tt)
unfolding validate_domain_selector
canonical_of_domain_selector domain selector h = ground arith

domain_selector_bounds :
    (domain selector : Text)
    → validate_domain_selector domain selector ≡ ok tt
    → (length (presentation domain selector) ≤ 253)
      × (count_byte b'.' selector + 1 + (count_byte b'.' domain + 1) + 1 ≤ 127)
unfolding validate_domain_selector
domain_selector_bounds domain selector h = ground arith

-- Where `ValidateDomainSelector` accepts, the owner name `selector._domainkey.domain` is a DNS name
-- within the protocol's bounds: at most 253 bytes and 127 labels, each of 1 to 63 bytes.
pub validate_domain_selector-IsOwner :
    (domain selector : Text)
    → validate_domain_selector domain selector ≡ ok tt
    → IsOwner (presentation domain selector)
validate_domain_selector-IsOwner domain selector h =
    let names = canonical_of_domain_selector domain selector h in
    let bounds = domain_selector_bounds domain selector h in
    record {
      bounded = bounds.0;
      label_count = rw (split_on-presentation domain selector) (
          omega (
            arith,
            bounds.1,
            length-split_on b'.' selector,
            length-split_on b'.' domain,
            length-append (split_on b'.' selector) (codes "_domainkey" ∷ split_on b'.' domain),
          ));
      labels = rw (split_on-presentation domain selector) (
          All-append _ (split_on b'.' selector) (codes "_domainkey" ∷ split_on b'.' domain)
            (labels_of_canonical selector names.1)
            ((omega arith, omega arith), labels_of_canonical domain names.0));
    }
