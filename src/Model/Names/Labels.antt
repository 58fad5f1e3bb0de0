-- ===== src/Model/Names/Labels.antt =====
-- The labels that the loop of `canonicalDNSName` of `internal/dkim2model/values.go` lets pass and leaves
-- as they are.
use opendkim_manage_go.Prelude.{
  ℕ, ◌≡◌, ◌≢◌, ◌≤◌, ◌⊎◌, refl, ap₂, true, Bool, ◌||◌, List, [], ◌∷◌, map, Text, length, head_or,
  last_or, all, All, All-map, all→All, ◌==◌, nat_eq, arith,
}
use opendkim_manage_go.Model.Names.{dns_edge, lower, drop_last, valid_label}

-- A lower-case letter, a digit or a hyphen.
abbrev pub IsNameByte : ℕ → Type 0
IsNameByte c = ((b'a' ≤ c) × (c ≤ b'z')) ⊎ (((b'0' ≤ c) × (c ≤ b'9')) ⊎ (c ≡ b'-'))

-- One to 63 such bytes, no hyphen first or last.
pub record IsLabel (l : Text) : Type 0 where
  pub nonempty : 1 ≤ length l
  pub bounded : length l ≤ 63
  pub bytes : All IsNameByte l
  pub first : head_or 0 l ≢ b'-'
  pub last : last_or 0 l ≢ b'-'

lower-IsNameByte : (c : ℕ) → IsNameByte c → lower c ≡ c
unfolding lower
lower-IsNameByte c b = ground (arith, b)

map-lower-All : (l : Text) → All IsNameByte l → map lower l ≡ l
map-lower-All [] h = refl
map-lower-All (c ∷ l) (b, bs) = ap₂ (λ x y. x ∷ y) (lower-IsNameByte c b) (map-lower-All l bs)

IsNameByte-of_fixed : (c : ℕ) → (dns_edge c || c == b'-') ≡ true → lower c ≡ c → IsNameByte c
unfolding dns_edge lower
IsNameByte-of_fixed c t e = ground (arith, t, e)

dns_edge-IsNameByte : (c : ℕ) → IsNameByte c → c ≢ b'-' → dns_edge c ≡ true
unfolding dns_edge
dns_edge-IsNameByte c b n = ground (arith, b, n)

no_dash_of_edge : (c : ℕ) → dns_edge c ≡ true → c ≢ b'-'
unfolding dns_edge
no_dash_of_edge c t = ground (arith, t)

All-of_ends :
    (P : ℕ → Type 0) (c : ℕ) (l : Text)
    → All P (drop_last l)
    → P c
    → P (last_or c l)
    → All P (c ∷ l)
unfolding drop_last
All-of_ends P c [] h p k = (p, tt)
All-of_ends P c (d ∷ []) h p k = (p, (k, tt))
All-of_ends P c (d ∷ e ∷ l) h p k = (p, All-of_ends P d (e ∷ l) h.1 h.0 k)

All-inner : (P : ℕ → Type 0) (l : Text) → All P l → All P (drop_last l)
unfolding drop_last
All-inner P [] h = tt
All-inner P (c ∷ []) h = tt
All-inner P (c ∷ d ∷ l) h = (h.0, All-inner P (d ∷ l) h.1)

All-last : (P : ℕ → Type 0) (c : ℕ) (l : Text) → All P (c ∷ l) → P (last_or c l)
All-last P c [] h = h.0
All-last P c (d ∷ l) h = All-last P d l h.1

All-fixed :
    (l : Text) → All (λ c. (dns_edge c || c == b'-') ≡ true) l → map lower l ≡ l → All IsNameByte l
All-fixed [] h e = tt
All-fixed (c ∷ l) h e =
    let same : lower c ≡ c = ground (arith, e) in
    let rest : map lower l ≡ l = ground (arith, e) in
    (IsNameByte-of_fixed c h.0 same, All-fixed l h.1 rest)

All→all : (p : ℕ → Bool) (l : Text) → All (λ c. p c ≡ true) l → all p l ≡ true
unfolding all
All→all p [] h = refl
All→all p (c ∷ l) h = rw (h.0, All→all p l h.1) refl

valid_label-IsLabel : (l : Text) → valid_label l ≡ true → map lower l ≡ l → IsLabel l
unfolding valid_label
valid_label-IsLabel [] h e = cc
valid_label-IsLabel (c ∷ rest) h e =
    let first : dns_edge c ≡ true = ground (arith, h) in
    let last : dns_edge (last_or c rest) ≡ true = ground (arith, h) in
    let inner : all (λ x. dns_edge x || x == b'-') (drop_last rest) ≡ true = ground (arith, h) in
    record {
      nonempty = omega arith;
      bounded = ground (arith, h);
      bytes =
          All-fixed (c ∷ rest)
            (All-of_ends (λ x. (dns_edge x || x == b'-') ≡ true) c rest
              (all→All (λ x. dns_edge x || x == b'-') (drop_last rest) inner) (rw first refl)
              (rw last refl))
            e;
      first = no_dash_of_edge c first;
      last = no_dash_of_edge (last_or c rest) last;
    }

edge_or_dash : (x : ℕ) → IsNameByte x → (dns_edge x || x == b'-') ≡ true
unfolding dns_edge
edge_or_dash x b = ground (arith, b)

valid_label_of_IsLabel : (l : Text) → IsLabel l → valid_label l ≡ true
unfolding valid_label
valid_label_of_IsLabel [] i = let n = i.nonempty in absurd (omega (arith, n))
valid_label_of_IsLabel (c ∷ rest) i =
    let bound = i.bounded in
    let bytes = i.bytes in
    let first = dns_edge-IsNameByte c bytes.0 i.first in
    let last = dns_edge-IsNameByte (last_or c rest) (All-last IsNameByte c rest bytes) i.last in
    let inner =
      All→all (λ x. dns_edge x || x == b'-') (drop_last rest)
        (All-map IsNameByte _ (drop_last rest) edge_or_dash (All-inner IsNameByte rest bytes.1)) in
    ground (arith, bound, first, last, inner)

pub labels-IsLabel :
    (ps : List Text) → All (λ l. valid_label l ≡ true) ps → map (map lower) ps ≡ ps → All IsLabel ps
labels-IsLabel [] h e = tt
labels-IsLabel (l ∷ ps) h e =
    let same : map lower l ≡ l = ground (arith, e) in
    let rest : map (map lower) ps ≡ ps = ground (arith, e) in
    (valid_label-IsLabel l h.0 same, labels-IsLabel ps h.1 rest)

pub labels_fixed : (ps : List Text) → All IsLabel ps → map (map lower) ps ≡ ps
labels_fixed [] h = refl
labels_fixed (l ∷ ps) (i, is) = ap₂ (λ x y. x ∷ y) (map-lower-All l i.bytes) (labels_fixed ps is)

pub labels_valid : (ps : List Text) → All IsLabel ps → all valid_label ps ≡ true
unfolding all
labels_valid [] h = refl
labels_valid (l ∷ ps) (i, is) = rw (valid_label_of_IsLabel l i, labels_valid ps is) refl
