-- ===== src/Store/RetainedRoots/Lineage.antt =====
-- The shape of an accepted lineage (`ValidRetainedRoots` of `internal/dkim2store/retained_roots.go`).
use opendkim_manage_go.Prelude.{
  ℕ, suc, ◌≡◌, ◌≢◌, ◌≤◌, ◌<◌, ◌↔◌, ◌⊎◌, inl, inr, refl, sym, ◌∙◌, subst, Bool, true, ◌&&◌, List, [],
  ◌∷◌, Text, nat_eq, text_eq, arith, text_beq, text_beq_iff, ne_of_beq,
}
use opendkim_manage_go.Prelude.Sort.{sort_func}
use opendkim_manage_go.Store.RetainedRoots.{
  GenerationRoot, valid_root, follows, valid_after, valid_ordered, valid_retained_roots,
  compare_number, legacy_schema_version, schema_version, schema_version_v3,
}

-- Once a root is of schema v3, all that follow are, and their numbers run on without a gap.
abbrev IsSuffixFrom : ℕ → List GenerationRoot → Type 0
IsSuffixFrom n [] = Unit
IsSuffixFrom n (r ∷ rs) =
    (r.number ≡ suc n) × (r.schema ≡ schema_version_v3) × IsSuffixFrom (suc n) rs

-- Behind a root of an older schema: more of schema v2 without a gap, or the v3 suffix, which may
-- begin at any later number.
abbrev IsLegacyFrom : ℕ → List GenerationRoot → Type 0
IsLegacyFrom n [] = Unit
IsLegacyFrom n (r ∷ rs) =
    ((r.schema ≡ schema_version_v3) × (n < r.number) × IsSuffixFrom r.number rs)
    ⊎ ((r.schema ≡ schema_version) × (r.number ≡ suc n) × IsLegacyFrom (suc n) rs)

-- A lineage, oldest first: only generation 1 may have the oldest schema.
abbrev pub IsLineage : List GenerationRoot → Type 0
IsLineage [] = ⊥
IsLineage (r ∷ rs) =
    ((r.schema ≡ schema_version_v3) × (1 ≤ r.number) × IsSuffixFrom r.number rs)
    ⊎ ((r.schema ≡ schema_version) × (1 ≤ r.number) × IsLegacyFrom r.number rs)
    ⊎ ((r.schema ≡ legacy_schema_version) × (r.number ≡ 1) × IsLegacyFrom 1 rs)

abbrev step : GenerationRoot → GenerationRoot → Bool
step p r = valid_root r && follows p r

v3_step :
    (p r : GenerationRoot)
    → p.schema ≡ schema_version_v3
    → (step p r ≡ true) ↔ ((r.number ≡ suc p.number) × (r.schema ≡ schema_version_v3))
unfolding valid_root follows
v3_step p r e = (
  λ h.
      ground (arith, e, h, text_beq_iff p.schema schema_version_v3, text_beq_iff r.schema p.schema),
  λ h. ground (
    arith,
    e,
    h.0,
    h.1,
    text_beq_iff p.schema schema_version_v3,
    text_beq_iff r.schema p.schema,
    text_beq_iff r.schema schema_version_v3,
    text_beq_iff r.schema legacy_schema_version,
  ),
)

legacy_step :
    (p r : GenerationRoot)
    → p.schema ≢ schema_version_v3
    → 1 ≤ p.number
    → (step p r ≡ true) ↔ (
        ((r.schema ≡ schema_version_v3) × (p.number < r.number))
        ⊎ ((r.schema ≡ schema_version) × (r.number ≡ suc p.number)))
unfolding valid_root follows
legacy_step p r n l = (
  λ h. ground (
    arith,
    n,
    h,
    text_beq_iff p.schema schema_version_v3,
    text_beq_iff r.schema schema_version_v3,
    text_beq_iff r.schema schema_version,
    text_beq_iff r.schema legacy_schema_version,
  ),
  λ h. ground (
    arith,
    n,
    h,
    text_beq_iff p.schema schema_version_v3,
    text_beq_iff r.schema schema_version_v3,
    text_beq_iff r.schema schema_version,
    text_beq_iff r.schema legacy_schema_version,
  ),
)

valid_after-cons :
    (p r : GenerationRoot) (rs : List GenerationRoot)
    → (valid_after p (r ∷ rs) ≡ true) ↔ ((step p r ≡ true) × (valid_after r rs ≡ true))
unfolding valid_after
valid_after-cons p r rs = (λ h. ground (arith, h), λ h. ground (arith, h.0, h.1))

v3_after :
    (p : GenerationRoot) (rs : List GenerationRoot)
    → p.schema ≡ schema_version_v3
    → (valid_after p rs ≡ true) ↔ IsSuffixFrom p.number rs
v3_after p [] e = (λ h. tt, λ h. unfold valid_after in refl)
v3_after p (r ∷ rs) e = (
  λ h.
      let (s, t) = (valid_after-cons p r rs).0 h in
      let (n, v) = (v3_step p r e).0 s in
      (n, v, subst (λ k. IsSuffixFrom k rs) n ((v3_after r rs v).0 t)),
  λ h. (valid_after-cons p r rs).1 (
    (v3_step p r e).1 (h.0, h.1),
    (v3_after r rs h.1).1 (subst (λ k. IsSuffixFrom k rs) (sym h.0) h.2),
  ),
)

v2-ne-v3 : (s : Text) → s ≡ schema_version → s ≢ schema_version_v3
unfolding text_beq
v2-ne-v3 s p q = ne_of_beq schema_version schema_version_v3 refl (sym p ∙ q)

v1-ne-v3 : (s : Text) → s ≡ legacy_schema_version → s ≢ schema_version_v3
unfolding text_beq
v1-ne-v3 s p q = ne_of_beq legacy_schema_version schema_version_v3 refl (sym p ∙ q)

legacy_after_cons :
    (p r : GenerationRoot) (rs : List GenerationRoot)
    → p.schema ≢ schema_version_v3
    → 1 ≤ p.number
    → (r.schema ≢ schema_version_v3
        → 1 ≤ r.number
        → (valid_after r rs ≡ true) ↔ IsLegacyFrom r.number rs)
    → (valid_after p (r ∷ rs) ≡ true) ↔ IsLegacyFrom p.number (r ∷ rs)
legacy_after_cons p r rs n l ih = (λ h. from h, λ h. to h)
  where
    from : valid_after p (r ∷ rs) ≡ true → IsLegacyFrom p.number (r ∷ rs)
    from h =
        let (s, t) = (valid_after-cons p r rs).0 h in
        elim ((legacy_step p r n l).0 s) [
          | inl v ↦ inl (v.0, v.1, (v3_after r rs v.0).0 t)
          | inr v ↦ inr (
            v.0,
            v.1,
            subst (λ k. IsLegacyFrom k rs) v.1
                ((ih (v2-ne-v3 r.schema v.0) (let e = v.1 in omega arith)).0 t),
          )
        ]

    to : IsLegacyFrom p.number (r ∷ rs) → valid_after p (r ∷ rs) ≡ true
    to h = elim h [
      | inl v ↦
          (valid_after-cons p r rs).1
            ((legacy_step p r n l).1 (inl (v.0, v.1)), (v3_after r rs v.0).1 v.2)
      | inr v ↦ (valid_after-cons p r rs).1 (
        (legacy_step p r n l).1 (inr (v.0, v.1)),
        (ih (v2-ne-v3 r.schema v.0) (let e = v.1 in omega arith)).1
            (subst (λ k. IsLegacyFrom k rs) (sym v.1) v.2),
      )
    ]

legacy_after :
    (p : GenerationRoot) (rs : List GenerationRoot)
    → p.schema ≢ schema_version_v3
    → 1 ≤ p.number
    → (valid_after p rs ≡ true) ↔ IsLegacyFrom p.number rs
legacy_after p [] n l = (λ h. tt, λ h. unfold valid_after in refl)
legacy_after p (r ∷ rs) n l = legacy_after_cons p r rs n l (λ m k. legacy_after r rs m k)

valid_root_iff :
    (r : GenerationRoot)
    → (valid_root r ≡ true) ↔ (
        ((r.schema ≡ schema_version_v3) × (1 ≤ r.number))
        ⊎ ((r.schema ≡ schema_version) × (1 ≤ r.number))
        ⊎ ((r.schema ≡ legacy_schema_version) × (r.number ≡ 1)))
unfolding valid_root
valid_root_iff r = (
  λ h. ground (
    arith,
    h,
    text_beq_iff r.schema schema_version_v3,
    text_beq_iff r.schema schema_version,
    text_beq_iff r.schema legacy_schema_version,
  ),
  λ h. ground (
    arith,
    h,
    text_beq_iff r.schema schema_version_v3,
    text_beq_iff r.schema schema_version,
    text_beq_iff r.schema legacy_schema_version,
  ),
)

valid_ordered-cons :
    (r : GenerationRoot) (rs : List GenerationRoot)
    → (valid_ordered (r ∷ rs) ≡ true) ↔ ((valid_root r ≡ true) × (valid_after r rs ≡ true))
unfolding valid_ordered
valid_ordered-cons r rs = (λ h. ground (arith, h), λ h. ground (arith, h.0, h.1))

valid_ordered_iff : (rs : List GenerationRoot) → (valid_ordered rs ≡ true) ↔ IsLineage rs
valid_ordered_iff [] = (λ h. unfold valid_ordered in cc, λ h. elim h [ ])
valid_ordered_iff (r ∷ rs) = (λ h. from h, λ h. to h)
  where
    from : valid_ordered (r ∷ rs) ≡ true → IsLineage (r ∷ rs)
    from h =
        let (s, t) = (valid_ordered-cons r rs).0 h in
        elim ((valid_root_iff r).0 s) [
          | inl v ↦ inl (v.0, v.1, (v3_after r rs v.0).0 t)
          | inr (inl v) ↦ inr (inl (v.0, v.1, (legacy_after r rs (v2-ne-v3 r.schema v.0) v.1).0 t))
          | inr (inr v) ↦
              let e = v.1 in
              inr (
                inr (
                  v.0,
                  v.1,
                  subst (λ k. IsLegacyFrom k rs) v.1
                      ((legacy_after r rs (v1-ne-v3 r.schema v.0) (omega arith)).0 t),
                ))
        ]

    to : IsLineage (r ∷ rs) → valid_ordered (r ∷ rs) ≡ true
    to h = elim h [
      | inl v ↦
          (valid_ordered-cons r rs).1
            ((valid_root_iff r).1 (inl (v.0, v.1)), (v3_after r rs v.0).1 v.2)
      | inr (inl v) ↦ (valid_ordered-cons r rs).1 (
        (valid_root_iff r).1 (inr (inl (v.0, v.1))),
        (legacy_after r rs (v2-ne-v3 r.schema v.0) v.1).1 v.2,
      )
      | inr (inr v) ↦
          let e = v.1 in
          (valid_ordered-cons r rs).1 (
            (valid_root_iff r).1 (inr (inr (v.0, v.1))),
            (legacy_after r rs (v1-ne-v3 r.schema v.0) (omega arith)).1
                (subst (λ k. IsLegacyFrom k rs) (sym v.1) v.2),
          )
    ]

-- `ValidRetainedRoots` accepts a set of roots exactly if, in the order of their numbers, they are a
-- lineage: at least one root, generation 0 nowhere, the oldest schema at generation 1 at most, then
-- schema v2 without a gap, then schema v3 without a gap to the end; only the change to v3 may skip
-- numbers.
pub valid_retained_roots_iff :
    (roots : List GenerationRoot)
    → (valid_retained_roots roots ≡ true) ↔ IsLineage (sort_func compare_number roots)
unfolding valid_retained_roots
valid_retained_roots_iff roots = valid_ordered_iff (sort_func compare_number roots)
