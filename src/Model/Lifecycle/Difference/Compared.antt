-- ===== src/Model/Lifecycle/Difference/Compared.antt =====
-- What the loops of `uniqueRotatedBinding` (`internal/dkim2model/lifecycle.go`) find out.
use opendkim_manage_go.Prelude.{
  ◌-◌, ◌≤◌, ◌≡◌, ◌≢◌, ◌⊎◌, inl, inr, refl, sym, ap, subst, ◌∙◌, Bool, true, false, List, [], ◌∷◌,
  Option, some, Text, length, is_empty, contains, all→All, All, All-map, ok, >>=-eq-ok,
  fail_if->>-eq-ok, ◌==◌, nat_eq, text_eq, beq_self, ne_of_beq, Option-cases, arith,
}
use opendkim_manage_go.Prelude.Maps.{get}
use opendkim_manage_go.Model.Error.{invalid}
use opendkim_manage_go.Model.Values.{Algorithm}
use opendkim_manage_go.Model.KeyMaterial.{KeyMaterial}
use opendkim_manage_go.Model.Records.{Credential}
use opendkim_manage_go.Model.Generation.{Generation, material_by_handle}
use opendkim_manage_go.Model.Lifecycle.{lifecycle_credentials}
use opendkim_manage_go.Model.Lifecycle.Logical.{
  credentials_logical_equal, material_bindings_equal, materials_logical_equal,
  credentials_by_algorithm,
}
use opendkim_manage_go.Model.Lifecycle.Difference.{
  compare_keys, compare_entry, compare_all, refuses_numbers, validate_extended_credentials,
  reference_material, extension_round, Difference, decide_difference, difference_round,
  difference_loop,
}

is_empty-nil : (t : Text) → is_empty t ≡ true → t ≡ []
is_empty-nil [] h = refl
is_empty-nil (c ∷ t) h = cc

module _ (current predecessor : Generation) where
  -- The credential that stands for an old one, and the key material of both.
  pub record IsMatched (new : List (Algorithm × Credential)) (old : Algorithm × Credential)
      : Type 0 where
    pub next : Credential
    pub found : get old.0 new ≡ some next
    pub old_material : KeyMaterial
    pub found_old : material_by_handle predecessor.materials old.1.handle_id ≡ some old_material
    pub new_material : KeyMaterial
    pub found_new : material_by_handle current.materials next.handle_id ≡ some new_material

  -- A credential that the current generation still has, with its key.
  abbrev pub IsKept : List (Algorithm × Credential) → Algorithm × Credential → Type 0
  IsKept new old =
      (m : IsMatched new old) × (credentials_logical_equal old.1 m.next ≡ true)
      × (materials_logical_equal m.old_material m.new_material ≡ true)

  -- A credential in whose place the current generation has a new selector, handle and key.
  abbrev pub IsReplaced : List (Algorithm × Credential) → Algorithm × Credential → Type 0
  IsReplaced new old =
      (m : IsMatched new old) × (old.1.selector ≢ m.next.selector)
      × (old.1.handle_id ≢ m.next.handle_id)
      × (old.1.public_spki ≢ m.next.public_spki)
      × (material_bindings_equal m.old_material m.new_material ≡ true)

  compare_entry-IsMatched :
      (new : List (Algorithm × Credential)) (old : Algorithm × Credential) (both : Bool × Bool)
      → compare_entry current predecessor old.1 (get old.0 new) ≡ ok both
      → (m : IsMatched new old) × (compare_keys old.1 m.next
            (some m.old_material)
            (some m.new_material)
          ≡ ok both)
  unfolding compare_entry compare_keys
  compare_entry-IsMatched new old both h = elim (Option-cases (get old.0 new)) [
    | inl n ↦ cc (rw n at h)
    | inr (next, e) ↦
        let h1 : compare_entry current predecessor old.1 (some next) ≡ ok both = rw e at h in
        elim (Option-cases (material_by_handle predecessor.materials old.1.handle_id)) [
          | inl n ↦ cc (rw n at h1)
          | inr (om, eo) ↦
              elim (Option-cases (material_by_handle current.materials next.handle_id)) [
                | inl n ↦ cc (rw (eo, n) at h1)
                | inr (nm, en) ↦ (
                  record {
                    next = next;
                    found = e;
                    old_material = om;
                    found_old = eo;
                    new_material = nm;
                    found_new = en;
                  },
                  rw (eo, en) at h1,
                )
              ]
        ]
  ]

  compare_keys-equal :
      (old new : Credential) (om nm : KeyMaterial) (both : Bool × Bool)
      → compare_keys old new (some om) (some nm) ≡ ok both
      → both.0 ≡ true
      → (credentials_logical_equal old new ≡ true) × (materials_logical_equal om nm ≡ true)
  unfolding compare_keys
  compare_keys-equal old new om nm both h t = ground (arith, h, t)

  compare_keys-replaced :
      (old new : Credential) (om nm : KeyMaterial) (both : Bool × Bool)
      → compare_keys old new (some om) (some nm) ≡ ok both
      → both.1 ≡ true
      → (old.selector ≢ new.selector)
        × (old.handle_id ≢ new.handle_id)
        × (old.public_spki ≢ new.public_spki)
        × (material_bindings_equal om nm ≡ true)
  unfolding compare_keys
  compare_keys-replaced old new om nm both h t = (
    ne_of_beq _ _ (ground (arith, h, t)),
    ne_of_beq _ _ (ground (arith, h, t)),
    ne_of_beq _ _ (ground (arith, h, t)),
    ground (arith, h, t),
  )

  -- The two results of the loop over the old credentials.
  compare_all-both :
      (new old : List (Algorithm × Credential)) (both : Bool × Bool)
      → compare_all current predecessor new old ≡ ok both
      → (both.0 ≡ true → All (IsKept new) old) × (both.1 ≡ true → All (IsReplaced new) old)
  unfolding compare_all
  compare_all-both new [] both h = (λ _. tt, λ _. tt)
  compare_all-both new (entry ∷ rest) both h =
      let (one, e, h1) =
        >>=-eq-ok (compare_entry current predecessor entry.1 (get entry.0 new)) _ h in
      let (others, e', h2) = >>=-eq-ok (compare_all current predecessor new rest) _ h1 in
      let (m, k) = compare_entry-IsMatched new entry one e in
      let (kept, replaced) = compare_all-both new rest others e' in
      let om = m.old_material in
      let nm = m.new_material in
      (
        λ t.
            let (c, k') = compare_keys-equal entry.1 m.next om nm one k (ground (arith, h2, t)) in
            ((m, c, k'), kept (ground (arith, h2, t))),
        λ t.
            let (a, b, c, d) =
              compare_keys-replaced entry.1 m.next om nm one k (ground (arith, h2, t)) in
            ((m, a, b, c, d), replaced (ground (arith, h2, t))),
      )

  -- The numbers of old and new credentials, and the new algorithms among the latter.
  pub record IsExtended (old new : List (Algorithm × Credential)) : Type 0 where
    pub some_old : length old ≢ 0
    pub no_fewer : length old ≤ length new
    pub reference : Option KeyMaterial
    pub extended : All (λ e. extension_round predecessor current old reference e ≡ true) new

  -- A profile whose credentials and keys are the same in both generations.
  pub record IsSame (id : Text) : Type 0 where
    pub kept :
        All (IsKept (credentials_by_algorithm current id)) (credentials_by_algorithm predecessor id)
    pub count :
        length (credentials_by_algorithm current id)
        ≡ length (credentials_by_algorithm predecessor id)

  -- A profile all of whose credentials and keys are replaced.
  pub record IsChanged (id : Text) (d : Difference) : Type 0 where
    pub replaced :
        All
          (IsReplaced (credentials_by_algorithm current id))
          (credentials_by_algorithm predecessor id)
    pub extended :
        IsExtended (credentials_by_algorithm predecessor id) (credentials_by_algorithm current id)
    pub difference : d ≡ record {
      changed_profile = id;
      added =
          length (credentials_by_algorithm current id)
          - length (credentials_by_algorithm predecessor id);
      retiring = lifecycle_credentials (credentials_by_algorithm predecessor id);
      active = lifecycle_credentials (credentials_by_algorithm current id);
    }

  decide_difference-cases :
      (id : Text) (old new : List (Algorithm × Credential)) (both : Bool × Bool)
      (found next : Difference)
      → decide_difference id old new both found ≡ ok next
      → ((both.0 ≡ true) × (length new - length old ≡ 0) × (next ≡ found))
        ⊎ ((both.1 ≡ true)
            × (is_empty found.changed_profile ≡ true)
            × (next ≡ record {
              changed_profile = id;
              added = length new - length old;
              retiring = lifecycle_credentials old;
              active = lifecycle_credentials new;
            }))
  unfolding decide_difference
  decide_difference-cases id old new (true, r) found next h = ground (arith, h)
  decide_difference-cases id old new (false, true) found next h = ground (arith, h)
  decide_difference-cases id old new (false, false) found next h = cc

  validate_extended_credentials-IsExtended :
      (old new : List (Algorithm × Credential))
      → refuses_numbers old new ≡ false
      → validate_extended_credentials predecessor current old new ≡ ok tt
      → IsExtended old new
  unfolding refuses_numbers validate_extended_credentials
  validate_extended_credentials-IsExtended old new n h =
      let (reference, _, h1) = >>=-eq-ok (reference_material predecessor old) _ h in
      record {
        some_old = ground (arith, n);
        no_fewer = ground (arith, n);
        reference = reference;
        extended =
            all→All (extension_round predecessor current old reference) new (ground (arith, h1));
      }

  difference_round-cases :
      (id : Text) (found next : Difference)
      → difference_round current predecessor id found ≡ ok next
      → (IsSame id × (next ≡ found)) ⊎ (IsChanged id next × (is_empty found.changed_profile ≡ true))
  unfolding difference_round
  difference_round-cases id found next h =
      let old = credentials_by_algorithm predecessor id in
      let new = credentials_by_algorithm current id in
      let (n, h1) = fail_if->>-eq-ok (refuses_numbers old new) invalid _ h in
      let (both, e, h2) = >>=-eq-ok (compare_all current predecessor new old) _ h1 in
      let (u, x, h3) = >>=-eq-ok (validate_extended_credentials predecessor current old new) _ h2 in
      let (kept, replaced) = compare_all-both new old both e in
      let extended = validate_extended_credentials-IsExtended old new n x in
      elim (decide_difference-cases id old new both found next h3) [
        | inl (t, z, same) ↦
            inl (record { kept = kept t; count = let k = extended.no_fewer in omega arith }, same)
        | inr (t, z, now) ↦
            inr (record { replaced = replaced t; extended = extended; difference = now }, z)
      ]

  -- The loop over the profiles: all are the same, or one is changed and the others are the same.
  pub difference_loop-cases :
      (ids : List Text) (found last : Difference)
      → contains ids [] ≡ false
      → difference_loop current predecessor ids found ≡ ok last
      → (All IsSame ids × (last ≡ found))
        ⊎ (IsChanged last.changed_profile last
            × (is_empty found.changed_profile ≡ true)
            × (contains ids last.changed_profile ≡ true)
            × All (λ id. (id ≡ last.changed_profile) ⊎ IsSame id) ids)
  unfolding difference_loop contains
  difference_loop-cases [] found last n h = inl (tt, ground (arith, h))
  difference_loop-cases (id ∷ rest) found last n h =
      let (next, e, h1) = >>=-eq-ok (difference_round current predecessor id found) _ h in
      elim (difference_round-cases id found next e) [
        | inl (same, now) ↦ elim (difference_loop-cases rest next last (ground (arith, n)) h1) [
          | inl (others, last_now) ↦ inl ((same, others), last_now ∙ now)
          | inr (changed, z, inside, others) ↦
              inr (changed, rw (← now) z, ground (arith, inside), (inr same, others))
        ]
        | inr (changed, z) ↦
            let id_now : next.changed_profile ≡ id =
              ap (λ d. d.changed_profile) changed.difference in
            elim (difference_loop-cases rest next last (ground (arith, n)) h1) [
              | inl (others, last_now) ↦
                  let id_last : last.changed_profile ≡ id =
                    ap (λ d. d.changed_profile) last_now ∙ id_now in
                  inr (
                    subst (λ i. IsChanged i last) (sym id_last)
                        (subst (λ d. IsChanged id d) (sym last_now) changed),
                    z,
                    ground (arith, id_last, beq_self id),
                    (inl (sym id_last), All-map _ _ rest (λ x s. inr s) others),
                  )
              | inr (other, empty, _, _) ↦
                  let nil : id ≡ [] = is_empty-nil id (rw (id_now) at empty) in
                  absurd (
                    let q : (id == []) ≡ true = rw nil (beq_self {A = Text} []) in
                    ground (arith, n, q))
            ]
      ]
