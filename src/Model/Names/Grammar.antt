-- ===== src/Model/Names/Grammar.antt =====
-- The texts that `ValidateCanonicalDNSName` of `internal/dkim2model/values.go` accepts, by a grammar.
use opendkim_manage_go.Prelude.{
  ℕ, ◌≡◌, ◌≤◌, ◌<◌, ◌↔◌, refl, sym, subst, ap, ap₂, ◌∙◌, false, List, [], ◌∷◌, ◌++◌, map, Text,
  length, is_empty, head_or, All, all→All, ok, Bool-cases, inl, inr, ◌==◌, nat_eq, arith,
}
use opendkim_manage_go.Model.Names.{
  lower, valid_label, split_on, tail_list, canonical_dns_name, validate_canonical_dns_name,
}
use opendkim_manage_go.Model.Names.Canonical.{
  IsDnsName-of_ok, canonical_dns_name-eq, canonical_dns_name_of_IsDnsName, split_on-map,
  validate_canonical_dns_name_iff,
}
use opendkim_manage_go.Model.Names.Owner.{split_on-append, split_on-ne-nil}
use opendkim_manage_go.Model.Names.Labels.{
  IsNameByte, IsLabel, labels-IsLabel, labels_fixed, labels_valid,
}

-- Labels with dots between them.
abbrev pub join_dots : List Text → Text
join_dots [] = []
join_dots (l ∷ []) = l
join_dots (l ∷ m ∷ rest) = l ++ (b'.' ∷ join_dots (m ∷ rest))

-- At most 127 labels, at least one, in at most 253 bytes.
pub record IsCanonicalName (v : Text) : Type 0 where
  pub labels : List Text
  pub joined : v ≡ join_dots labels
  pub some_label : 1 ≤ length labels
  pub label_count : length labels ≤ 127
  pub each : All IsLabel labels
  pub bounded : length v ≤ 253

join_dots-cons :
    (c : ℕ) (p : Text) (ps : List Text) → join_dots ((c ∷ p) ∷ ps) ≡ c ∷ join_dots (p ∷ ps)
join_dots-cons c p [] = refl
join_dots-cons c p (q ∷ ps) = refl

join_dots-nil : (ps : List Text) → 0 < length ps → join_dots ([] ∷ ps) ≡ b'.' ∷ join_dots ps
join_dots-nil [] h = absurd (omega (arith, h))
join_dots-nil (p ∷ ps) h = refl

join_dots-parts :
    (c : ℕ) (ps : List Text)
    → 0 < length ps
    → join_dots ((c ∷ head_or [] ps) ∷ tail_list ps) ≡ c ∷ join_dots ps
join_dots-parts c [] h = absurd (omega (arith, h))
join_dots-parts c (p ∷ ps) h = join_dots-cons c p ps

join_dots-split_on : (v : Text) → join_dots (split_on b'.' v) ≡ v
unfolding split_on
join_dots-split_on [] = refl
join_dots-split_on (c ∷ rest) = elim (Bool-cases (c == b'.')) [
  | inl t ↦
      let e : c ≡ b'.' = ground (arith, t) in
      rw (
        t,
        join_dots-nil (split_on b'.' rest) (split_on-ne-nil b'.' rest),
        join_dots-split_on rest,
        e,
      )
  | inr f ↦ rw (
    f,
    join_dots-parts c (split_on b'.' rest) (split_on-ne-nil b'.' rest),
    join_dots-split_on rest,
  )
]

-- A text without dots is its own only part.
split_on-name : (l : Text) → All IsNameByte l → split_on b'.' l ≡ l ∷ []
unfolding split_on
split_on-name [] h = refl
split_on-name (c ∷ rest) (b, bs) =
    let f : (c == b'.') ≡ false = ground (arith, b) in rw (f, split_on-name rest bs)

split_on-join_dots :
    (labels : List Text)
    → 1 ≤ length labels
    → All IsLabel labels
    → split_on b'.' (join_dots labels) ≡ labels
split_on-join_dots [] n h = absurd (omega (arith, n))
split_on-join_dots (l ∷ []) n h = let i = h.0 in split_on-name l i.bytes
split_on-join_dots (l ∷ m ∷ rest) n h =
    let i = h.0 in
    split_on-append b'.' l (join_dots (m ∷ rest))
    ∙ ap₂ (λ ps qs. ps ++ qs) (split_on-name l i.bytes)
        (split_on-join_dots (m ∷ rest) (omega arith) h.1)

name_of_canonical : (v : Text) → canonical_dns_name v ≡ ok v → IsCanonicalName v
name_of_canonical v h =
    let n = IsDnsName-of_ok v h in
    let fixed = sym (canonical_dns_name-eq v h) in
    record {
      labels = split_on b'.' v;
      joined = sym (join_dots-split_on v);
      some_label = split_on-ne-nil b'.' v;
      label_count = n.label_count;
      each =
          labels-IsLabel (split_on b'.' v) (all→All valid_label (split_on b'.' v) n.labels)
            (sym (split_on-map v) ∙ ap (split_on b'.') fixed);
      bounded = n.bounded;
    }

name_nonempty :
    (v : Text) (labels : List Text)
    → split_on b'.' v ≡ labels
    → All IsLabel labels
    → is_empty v ≡ false
unfolding split_on
name_nonempty [] labels e h =
    let k : All IsLabel ([] ∷ []) = subst (All IsLabel) (sym e) h in
    let i = k.0 in let n = i.nonempty in absurd (omega (arith, n))
name_nonempty (c ∷ v) labels e h = refl

canonical_of_name : (v : Text) → IsCanonicalName v → canonical_dns_name v ≡ ok v
canonical_of_name v n =
    let parts : split_on b'.' v ≡ n.labels =
      ap (split_on b'.') n.joined ∙ split_on-join_dots n.labels n.some_label n.each in
    let fixed : map lower v ≡ v =
      sym (join_dots-split_on (map lower v))
      ∙ (ap join_dots (
            split_on-map v
            ∙ (ap (map (map lower)) parts ∙ (labels_fixed n.labels n.each ∙ sym parts)))
          ∙ join_dots-split_on v) in
    canonical_dns_name_of_IsDnsName v (record {
      nonempty = name_nonempty v n.labels parts n.each;
      bounded = n.bounded;
      label_count = rw parts n.label_count;
      labels = rw parts (labels_valid n.labels n.each);
    })
    ∙ ap ok fixed

-- `ValidateCanonicalDNSName` accepts exactly the texts of at most 253 bytes that are from one to 127
-- labels with dots between them, each of one to 63 lower-case letters, digits and hyphens, with no
-- hyphen first or last.
pub validate_canonical_dns_name-IsCanonicalName :
    (v : Text) → (validate_canonical_dns_name v ≡ ok tt) ↔ IsCanonicalName v
validate_canonical_dns_name-IsCanonicalName v =
    let e = validate_canonical_dns_name_iff v in
    (λ h. name_of_canonical v (e.0 h), λ n. e.1 (canonical_of_name v n))
