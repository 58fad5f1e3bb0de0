-- ===== src/Selector/RecordName.antt =====
-- What `ValidateRecordName` of `internal/selector/selector.go` accepts, and how the DKIM2 check of
-- the same owner name relates to it.
use opendkim_manage_go.Prelude.{
  ℕ, ◌+◌, ◌≡◌, ◌≤◌, ◌<◌, ◌↔◌, refl, ap, List, [], ◌∷◌, Text, length, head_or, All, All-map, ok,
  >>=-eq-ok, ltb, Bool-cases, inl, inr, nat_eq, arith,
}
use opendkim_manage_go.Model.Names.{split_on, tail_list, presentation, validate_domain_selector}
use opendkim_manage_go.Model.Names.Owner.{
  split_on-ne-nil, validate_domain_selector-IsOwner, length-tail_list,
}
use opendkim_manage_go.Selector.{sum_labels, validate_record_name}

-- The bytes of the parts.
abbrev sum_length : List Text → ℕ
sum_length [] = 0
sum_length (l ∷ ls) = length l + sum_length ls

sum_labels-ok :
    (t : ℕ) (ls : List Text)
    → All (λ l. length l ≤ 63) ls
    → sum_labels t ls ≡ ok (t + sum_length ls)
unfolding sum_labels
sum_labels-ok t [] h = ap ok (omega arith)
sum_labels-ok t (l ∷ ls) h = ground (arith, h.0, sum_labels-ok (t + length l) ls h.1)

sum_labels-All :
    (t : ℕ) (ls : List Text) {n : ℕ} → sum_labels t ls ≡ ok n → All (λ l. length l ≤ 63) ls
unfolding sum_labels
sum_labels-All t [] {n} h = tt
sum_labels-All t (l ∷ ls) {n} h = elim (Bool-cases (ltb 63 (length l))) [
  | inl long ↦ absurd (ground (arith, long))
  | inr short ↦
      (ground (arith, short), sum_labels-All (t + length l) ls {n = n} (ground (arith, short)))
]

sum_length-parts :
    (ps : List Text)
    → 0 < length ps
    → length (head_or [] ps) + sum_length (tail_list ps) ≡ sum_length ps
sum_length-parts [] h = absurd (omega arith)
sum_length-parts (p ∷ ps) h = refl

-- The parts and the separators between them make up the text.
split_on-length :
    (sep : ℕ) (v : Text) → sum_length (split_on sep v) + length (split_on sep v) ≡ length v + 1
unfolding split_on
split_on-length sep [] = omega arith
split_on-length sep (c ∷ rest) = ground (
  arith,
  split_on-length sep rest,
  split_on-ne-nil sep rest,
  sum_length-parts (split_on sep rest) (split_on-ne-nil sep rest),
  length-tail_list (split_on sep rest) (split_on-ne-nil sep rest),
)

-- `ValidateRecordName` accepts a selector and a domain exactly if each label of the record name
-- `selector._domainkey.domain` has at most 63 bytes and the whole name at most 253: its running
-- total, with the dots added, is the length of the name.
pub validate_record_name_iff :
    (selector domain : Text)
    → (validate_record_name selector domain ≡ ok tt) ↔ (
        All (λ l. length l ≤ 63) (split_on b'.' (presentation domain selector))
        × (length (presentation domain selector) ≤ 253))
unfolding validate_record_name
validate_record_name_iff selector domain = (λ h. from h, λ h. to h.0 h.1)
  where
    name : Text
    name = presentation domain selector

    from :
        validate_record_name selector domain ≡ ok tt
        → All (λ l. length l ≤ 63) (split_on b'.' name) × (length name ≤ 253)
    from h =
        let (n, e, k) = >>=-eq-ok (sum_labels 0 (split_on b'.' name)) _ h in
        let short = sum_labels-All 0 (split_on b'.' name) e in
        (
          short,
          ground (
            arith,
            e,
            k,
            sum_labels-ok 0 (split_on b'.' name) short,
            split_on-length b'.' name,
            split_on-ne-nil b'.' name,
          ),
        )

    to :
        All (λ l. length l ≤ 63) (split_on b'.' name)
        → length name ≤ 253
        → validate_record_name selector domain ≡ ok tt
    to a b =
        rw (sum_labels-ok 0 (split_on b'.' name) a)
          (ground (arith, split_on-length b'.' name, split_on-ne-nil b'.' name, b))

-- Wherever the DKIM2 model accepts a domain and selector, the record-name check of the classic
-- selector path accepts them too.
pub validate_record_name_of_domain_selector :
    (domain selector : Text)
    → validate_domain_selector domain selector ≡ ok tt
    → validate_record_name selector domain ≡ ok tt
validate_record_name_of_domain_selector domain selector h =
    let o = validate_domain_selector-IsOwner domain selector h in
    (validate_record_name_iff selector domain).1
      (All-map _ _ (split_on b'.' (presentation domain selector)) (λ l k. k.1) o.labels, o.bounded)
