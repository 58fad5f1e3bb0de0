-- ===== src/Model/Campaign/Active.antt =====
-- What `ActiveBindings` of `internal/dkim2model/campaign.go` accepts and returns.
use opendkim_manage_go.Prelude.{
  ◌+◌, ◌≡◌, Bool, true, false, refl, Option, none, some, not, ◌&&◌, ◌||◌, List, [], ◌∷◌, ◌++◌, map,
  Text, length, length-append, length-map, distinct, all, keep, Result, ok, err, ◌==◌, ◌!=◌, nat_eq,
  text_eq, if◌then◌else◌, Bool-cases, inl, inr, arith,
}
use opendkim_manage_go.Prelude.Int.{ℤ, pos, leb_ℤ, ltb_ℤ}
use opendkim_manage_go.Prelude.Lists.Keep.{append-nil}
use opendkim_manage_go.Prelude.Lists.Seen.{new_among, new_among-nil}
use opendkim_manage_go.Prelude.Maps.{append_one}
use opendkim_manage_go.Prelude.Sort.{sort_func}
use opendkim_manage_go.Model.Error.{Error, invalid}
use opendkim_manage_go.Model.Values.{status_active, state_committed, supports_native_key_custody}
use opendkim_manage_go.Model.Records.{Profile, Policy}
use opendkim_manage_go.Model.Generation.{Generation, profile_by_id}
use opendkim_manage_go.Model.Campaign.{
  BindingIdentity, identity_key, identity_of, compare_identities, is_usable, active_loop,
  active_bindings,
}

-- The active policies of a generation.
abbrev pub active_policies : List Policy → List Policy
active_policies policies = keep (λ p. p.status == status_active) policies

abbrev key_of : Policy → Text
key_of p = identity_key (identity_of p)

-- The profile is there and active, of the policy's domain, and the use has native keys.
abbrev pub has_profile : Option Profile → Policy → Bool
has_profile none p = false
has_profile (some profile) p =
    profile.status == status_active
    && (profile.domain == p.domain && supports_native_key_custody p.profile_use)

is_usable_lem : (found : Option Profile) (p : Policy) → is_usable found p ≡ has_profile found p
unfolding is_usable
is_usable_lem none p = refl
is_usable_lem (some profile) p = ground arith

module _ (g : Generation) (maximum : ℤ) where
  abbrev pub usable : Policy → Bool
  usable p = has_profile (profile_by_id g.profiles p.profile_id) p

  -- What the loop makes of active policies behind the bindings found before.
  abbrev loop_result :
      List Text → List BindingIdentity → List Policy → Result Error (List BindingIdentity)
  loop_result seen found ps =
      if all usable ps
        && (new_among seen (map key_of ps) && leb_ℤ (pos (length found + length ps)) maximum)
      then ok (found ++ map identity_of ps)
      else err invalid

  active_loop_lem :
      (seen : List Text) (found : List BindingIdentity) (ps : List Policy)
      → leb_ℤ (pos (length found)) maximum ≡ true
      → active_loop g maximum seen found ps ≡ loop_result seen found (active_policies ps)
  unfolding active_loop keep all new_among
  active_loop_lem seen found [] h = rw (append-nil found) (ground (arith, h))
  active_loop_lem seen found (p ∷ ps) h = elim (Bool-cases (p.status == status_active)) [
    | inr f ↦ rw f (active_loop_lem seen found ps h)
    | inl t ↦
        let act = active_policies ps in
        let one = identity_of p in
        let total = length-append found (one ∷ []) in
        elim (Bool-cases (ltb_ℤ maximum (pos (length found + 1)))) [
          | inl over ↦
              let big : leb_ℤ (pos (length found + (length act + 1))) maximum ≡ false =
                ground (arith, over) in
              rw (t, is_usable_lem (profile_by_id g.profiles p.profile_id) p, over)
                (ground (arith, big))
          | inr within ↦
              let h' : leb_ℤ (pos (length (found ++ (one ∷ [])))) maximum ≡ true =
                ground (arith, within, total) in
              let rest = active_loop_lem (key_of p ∷ seen) (found ++ (one ∷ [])) ps h' in
              rw
                (
                  t,
                  is_usable_lem (profile_by_id g.profiles p.profile_id) p,
                  within,
                  rest,
                  total,
                  append_one found one (map identity_of act),
                )
                (ground (arith))
        ]
  ]

  -- A committed generation whose active policies are at least one and at most the bound, each with an
  -- active profile of its domain and a use with native keys, and no two with one binding.
  abbrev pub lists_bindings : Bool
  lists_bindings =
      let ps = active_policies g.policies in
      g.state == state_committed
      && (not (leb_ℤ maximum (pos 0))
          && (all usable ps
              && (distinct (map key_of ps)
                  && (leb_ℤ (pos (length ps)) maximum && not (length ps == 0)))))

  -- `ActiveBindings` returns the bindings of all active policies in the order of their keys where the
  -- generation is committed, the bound is positive, the active policies are at least one and at most
  -- the bound, each has an active profile of its domain and a use with native keys, and no two have
  -- one binding; it returns ErrInvalid on all other generations and bounds.
  pub active_bindings_lem : active_bindings g maximum ≡ (
      if lists_bindings
      then ok (sort_func compare_identities (map identity_of (active_policies g.policies)))
      else err invalid)
  unfolding active_bindings
  active_bindings_lem =
      let ps = active_policies g.policies in
      let fresh = new_among-nil (map key_of ps) in
      let total = length-map identity_of ps in
      elim (Bool-cases (g.state != state_committed || leb_ℤ maximum (pos 0))) [
        | inl t ↦ ground (arith, t)
        | inr f ↦
            let h : leb_ℤ (pos 0) maximum ≡ true = ground (arith, f) in
            let loop = active_loop_lem [] [] g.policies h in ground (arith, f, loop, fresh, total)
      ]
