-- ===== src/Model/Names/Keys.antt =====
-- What a validated identifier or name is made of, and why a tuple key joined by NUL is injective
-- (`policyKey` of `internal/dkim2model/generation.go`).
use opendkim_manage_go.Prelude.{
  ℕ, ◌≡◌, ◌≢◌, ◌≤◌, refl, true, ◌||◌, List, [], ◌∷◌, ◌++◌, Text, length, head_or, last_or, All,
  All-map, ok, Bool-cases, inl, inr, ◌==◌, nat_eq, arith, all→All, ap₂,
}
use opendkim_manage_go.Model.Names.{
  dns_edge, identifier_edge, identifier_byte, drop_last, valid_label, split_on, tail_list,
  validate_identifier, validate_canonical_dns_name,
}
use opendkim_manage_go.Model.Names.Canonical.{IsDnsName-of_ok, validate_canonical_dns_name_iff}

-- No byte of the text is NUL.
abbrev pub NulFree : Text → Type 0
NulFree = All (λ c. c ≢ 0)

identifier_byte-ne-zero : (c : ℕ) → identifier_byte c ≡ true → c ≢ 0
unfolding identifier_byte identifier_edge
identifier_byte-ne-zero c h = ground arith

identifier_edge-ne-zero : (c : ℕ) → identifier_edge c ≡ true → c ≢ 0
unfolding identifier_edge
identifier_edge-ne-zero c h = ground arith

dns_edge-ne-zero : (c : ℕ) → dns_edge c ≡ true → c ≢ 0
unfolding dns_edge
dns_edge-ne-zero c h = ground arith

inner-ne-zero : (c : ℕ) → (dns_edge c || c == b'-') ≡ true → c ≢ 0
unfolding dns_edge
inner-ne-zero c h = ground arith

-- A valid identifier has from 1 to 128 bytes, and none of them is NUL.
pub validate_identifier-NulFree :
    (v : Text) → validate_identifier v ≡ ok tt → (1 ≤ length v) × (length v ≤ 128) × NulFree v
unfolding validate_identifier
validate_identifier-NulFree [] h = cc
validate_identifier-NulFree (c ∷ rest) h = (
  omega arith,
  ground arith,
  (
    identifier_edge-ne-zero c (ground arith),
    All-map _ _ rest identifier_byte-ne-zero (all→All identifier_byte rest (ground arith)),
  ),
)

All-ends : (c : ℕ) (l : Text) → NulFree (drop_last (c ∷ l)) → last_or c l ≢ 0 → NulFree (c ∷ l)
unfolding drop_last
All-ends c [] h k = (k, tt)
All-ends c (d ∷ l) h k = (h.0, All-ends d l h.1 k)

valid_label-NulFree : (l : Text) → valid_label l ≡ true → NulFree l
unfolding valid_label
valid_label-NulFree [] h = tt
valid_label-NulFree (c ∷ []) h = (dns_edge-ne-zero c (ground arith), tt)
valid_label-NulFree (c ∷ d ∷ rest) h = (
  dns_edge-ne-zero c (ground arith),
  All-ends d rest (All-map _ _ (drop_last (d ∷ rest)) inner-ne-zero (all→All _ _ (ground arith)))
      (dns_edge-ne-zero (last_or d rest) (ground arith)),
)

All-parts : (ps : List Text) → NulFree (head_or [] ps) → All NulFree (tail_list ps) → All NulFree ps
All-parts [] h k = tt
All-parts (p ∷ ps) h k = (h, k)

split_on-NulFree : (v : Text) → All NulFree (split_on b'.' v) → NulFree v
unfolding split_on
split_on-NulFree [] h = tt
split_on-NulFree (c ∷ rest) h = elim (Bool-cases (c == b'.')) [
  | inl t ↦ let k = rw t at h in (ground arith, split_on-NulFree rest k.1)
  | inr f ↦
      let k = rw f at h in (k.0.0, split_on-NulFree rest (All-parts (split_on b'.' rest) k.0.1 k.1))
]

-- A valid canonical DNS name holds no NUL.
pub validate_canonical_dns_name-NulFree :
    (v : Text) → validate_canonical_dns_name v ≡ ok tt → NulFree v
validate_canonical_dns_name-NulFree v h =
    let n = IsDnsName-of_ok v ((validate_canonical_dns_name_iff v).0 h) in
    split_on-NulFree v
      (All-map _ _ (split_on b'.' v) valid_label-NulFree (all→All valid_label _ n.labels))

-- A NUL ends a NUL-free prefix at one place only.
pub append_nul-injective :
    (a b x y : Text) → NulFree a → NulFree b → a ++ (0 ∷ x) ≡ b ++ (0 ∷ y) → (a ≡ b) × (x ≡ y)
append_nul-injective [] [] x y ha hb e = (refl, cc)
append_nul-injective [] (d ∷ b) x y ha hb e = absurd (hb.0 (cc))
append_nul-injective (c ∷ a) [] x y ha hb e = absurd (ha.0 (cc))
append_nul-injective (c ∷ a) (d ∷ b) x y ha hb e =
    let r = append_nul-injective a b x y ha.1 hb.1 (cc) in
    let h : c ≡ d = cc in (ap₂ ◌∷◌ h r.0, r.1)
