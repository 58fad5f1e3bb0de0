-- ===== src/Model/Generation/Sorted.antt =====
-- The comparisons of `sortRecords` (`internal/dkim2model/generation.go`) are total preorders, so
-- sorted records are in order and sorting them again changes nothing.
use opendkim_manage_go.Prelude.{
  ◌<◌, ◌≡◌, ◌⊎◌, inl, inr, refl, sym, ◌∙◌, true, false, Text, text_ltb, text_eq, arith,
}
use opendkim_manage_go.Prelude.Int.{pos, negsuc, ltb_ℤ}
use opendkim_manage_go.Prelude.Sort.Order.{NotAfter, IsComparison, sort_func_idem}
use opendkim_manage_go.Prelude.Texts.Order.{text_ltb_irrefl, text_ltb_trans, text_ltb-cases}
use opendkim_manage_go.Model.Values.{algorithm_rank}
use opendkim_manage_go.Model.KeyMaterial.{material_handle}
use opendkim_manage_go.Model.Records.{Handle, Profile, Credential, Policy, policy_key}
use opendkim_manage_go.Model.Generation.{Generation, sort_records}
use opendkim_manage_go.Model.Generation.Order.{
  strings_compare, compare_handles, compare_profiles, compare_credentials, compare_policies,
  compare_materials,
}

strings_compare_self : (a : Text) → strings_compare a a ≡ pos 0
unfolding strings_compare
strings_compare_self a = rw (text_ltb_irrefl a) refl

strings_compare-lt : (a b : Text) → text_ltb a b ≡ true → strings_compare a b ≡ negsuc 0
unfolding strings_compare
strings_compare-lt a b h = rw (h) refl

strings_compare-cases :
    (a b : Text)
    → ((text_ltb a b ≡ true) × (strings_compare a b ≡ negsuc 0))
      ⊎ ((a ≡ b) × (strings_compare a b ≡ pos 0))
      ⊎ ((text_ltb b a ≡ true) × (strings_compare a b ≡ pos 1))
unfolding strings_compare
strings_compare-cases a b = elim (text_ltb-cases a b) [
  | inl h ↦ inl (ground (arith, h))
  | inr (inl e) ↦ inr (inl (e, rw (e) (strings_compare_self b)))
  | inr (inr h) ↦ inr (inr (ground (arith, h)))
]

abbrev AtMost : Text → Text → Type 0
AtMost a b = (text_ltb a b ≡ true) ⊎ (a ≡ b)

AtMost-trans : (a b c : Text) → AtMost a b → AtMost b c → AtMost a c
AtMost-trans a b c (inl h) (inl k) = inl (text_ltb_trans a b c h k)
AtMost-trans a b c (inl h) (inr e) = inl (rw (← e) h)
AtMost-trans a b c (inr e) k = rw (e) k

AtMost-of_compare : (a b : Text) → ltb_ℤ (pos 0) (strings_compare a b) ≡ false → AtMost a b
AtMost-of_compare a b h = elim (strings_compare-cases a b) [
  | inl c ↦ inl c.0
  | inr (inl c) ↦ inr c.0
  | inr (inr c) ↦ absurd (ground (arith, h, c.1))
]

compare_of_AtMost : (a b : Text) → AtMost a b → ltb_ℤ (pos 0) (strings_compare a b) ≡ false
compare_of_AtMost a b (inl h) = rw (strings_compare-lt a b h) refl
compare_of_AtMost a b (inr e) = rw (e, strings_compare_self b) refl

-- An order by one string.
by_key-IsComparison :
    {A : Type 0} (key : A → Text) → IsComparison (λ (x : A) y. strings_compare (key x) (key y))
by_key-IsComparison key = record {
  total = λ x y h. elim (strings_compare-cases (key x) (key y)) [
    | inl c ↦ absurd (ground (arith, h, c.1))
    | inr (inl c) ↦ absurd (ground (arith, h, c.1))
    | inr (inr c) ↦ compare_of_AtMost (key y) (key x) (inl c.0)
  ];
  trans = λ x y z h k. compare_of_AtMost (key x) (key z) (
      AtMost-trans (key x) (key y) (key z) (AtMost-of_compare (key x) (key y) h)
        (AtMost-of_compare (key y) (key z) k));
}

-- The order of credentials: by profile, then algorithm, then selector.
abbrev Precedes : Credential → Credential → Type 0
Precedes x y =
    (text_ltb x.profile_id y.profile_id ≡ true)
    ⊎ ((x.profile_id ≡ y.profile_id)
        × ((algorithm_rank x.algorithm < algorithm_rank y.algorithm)
            ⊎ ((algorithm_rank x.algorithm ≡ algorithm_rank y.algorithm)
                × AtMost x.selector y.selector)))

ranked_of_compare :
    (x y : Credential)
    → strings_compare x.profile_id y.profile_id ≡ pos 0
    → ltb_ℤ (pos 0) (compare_credentials x y) ≡ false
    → (algorithm_rank x.algorithm < algorithm_rank y.algorithm)
      ⊎ ((algorithm_rank x.algorithm ≡ algorithm_rank y.algorithm) × AtMost x.selector y.selector)
unfolding compare_credentials
ranked_of_compare x y p h = elim (strings_compare-cases x.selector y.selector) [
  | inl c ↦ ground (arith, h, p, c)
  | inr (inl c) ↦ ground (arith, h, p, c)
  | inr (inr c) ↦ inl (ground (arith, h, p, c.1))
]

Precedes-of_compare :
    (x y : Credential) → ltb_ℤ (pos 0) (compare_credentials x y) ≡ false → Precedes x y
unfolding compare_credentials
Precedes-of_compare x y h = elim (strings_compare-cases x.profile_id y.profile_id) [
  | inl c ↦ inl c.0
  | inr (inl c) ↦ inr (c.0, ranked_of_compare x y c.1 h)
  | inr (inr c) ↦ absurd (ground (arith, h, c.1))
]

compare_of_Precedes :
    (x y : Credential) → Precedes x y → ltb_ℤ (pos 0) (compare_credentials x y) ≡ false
unfolding compare_credentials
compare_of_Precedes x y (inl h) = rw (strings_compare-lt x.profile_id y.profile_id h) refl
compare_of_Precedes x y (inr (e, inl r)) =
    let s : strings_compare x.profile_id y.profile_id ≡ pos 0 =
      rw (e) (strings_compare_self y.profile_id) in
    ground (arith, s, r)
compare_of_Precedes x y (inr (e, inr (r, s))) =
    let p : strings_compare x.profile_id y.profile_id ≡ pos 0 =
      rw (e) (strings_compare_self y.profile_id) in
    let q = compare_of_AtMost x.selector y.selector s in ground (arith, p, q, r)

Precedes-trans : (x y z : Credential) → Precedes x y → Precedes y z → Precedes x z
Precedes-trans x y z (inl h) (inl k) =
    inl (text_ltb_trans x.profile_id y.profile_id z.profile_id h k)
Precedes-trans x y z (inl h) (inr (e, k)) = inl (rw (← e) h)
Precedes-trans x y z (inr (e, h)) (inl k) = inl (rw (e) k)
Precedes-trans x y z (inr (e, inl h)) (inr (f, inl k)) = inr (e ∙ f, inl (omega (arith, h, k)))
Precedes-trans x y z (inr (e, inl h)) (inr (f, inr k)) =
    let r = k.0 in inr (e ∙ f, inl (omega (arith, h, r)))
Precedes-trans x y z (inr (e, inr h)) (inr (f, inl k)) =
    let r = h.0 in inr (e ∙ f, inl (omega (arith, k, r)))
Precedes-trans x y z (inr (e, inr (r, h))) (inr (f, inr (q, k))) =
    inr (e ∙ f, inr (r ∙ q, AtMost-trans x.selector y.selector z.selector h k))

ranked_reverse :
    (x y : Credential)
    → strings_compare x.profile_id y.profile_id ≡ pos 0
    → ltb_ℤ (pos 0) (compare_credentials x y) ≡ true
    → (algorithm_rank y.algorithm < algorithm_rank x.algorithm)
      ⊎ ((algorithm_rank y.algorithm ≡ algorithm_rank x.algorithm) × AtMost y.selector x.selector)
unfolding compare_credentials
ranked_reverse x y p h = elim (strings_compare-cases x.selector y.selector) [
  | inl c ↦ inl (ground (arith, h, p, c.1))
  | inr (inl c) ↦ inl (ground (arith, h, p, c.1))
  | inr (inr c) ↦ ground (arith, h, p, c)
]

compare_credentials-total :
    (x y : Credential)
    → ltb_ℤ (pos 0) (compare_credentials x y) ≡ true
    → NotAfter compare_credentials y x
unfolding compare_credentials
compare_credentials-total x y h =
    compare_of_Precedes y x (elim (strings_compare-cases x.profile_id y.profile_id) [
      | inl c ↦ absurd (ground (arith, h, c.1))
      | inr (inl c) ↦ inr (sym c.0, ranked_reverse x y c.1 h)
      | inr (inr c) ↦ inl c.0
    ])

compare_credentials-IsComparison : IsComparison compare_credentials
compare_credentials-IsComparison = record {
  total = λ x y h. compare_credentials-total x y h;
  trans = λ x y z h k.
      compare_of_Precedes x z
        (Precedes-trans x y z (Precedes-of_compare x y h) (Precedes-of_compare y z k));
}

-- Sorting the records of a generation twice is sorting them once.
pub sort_records_idem : (g : Generation) → sort_records (sort_records g) ≡ sort_records g
unfolding sort_records compare_handles compare_profiles compare_policies compare_materials
sort_records_idem g =
    rw
      (
        sort_func_idem compare_handles (by_key-IsComparison (λ (h : Handle). h.id)) g.handles,
        sort_func_idem compare_profiles (by_key-IsComparison (λ (p : Profile). p.id)) g.profiles,
        sort_func_idem compare_credentials compare_credentials-IsComparison g.credentials,
        sort_func_idem compare_policies
            (by_key-IsComparison (λ (p : Policy). policy_key p.tenant_id p.domain p.profile_use))
            g.policies,
        sort_func_idem compare_materials (by_key-IsComparison material_handle) g.materials,
      )
      refl
