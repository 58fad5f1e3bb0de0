-- ===== src/Model/Builder/Replacement.antt =====
-- What `ReplaceProfileKeys` of the `Builder` (`internal/dkim2model/generation.go`) changes, and what
-- it keeps.
use opendkim_manage_go.Prelude.{
  ◌≡◌, ◌≢◌, refl, ap, ◌∙◌, Bool, true, false, not, List, [], ◌++◌, map, Option, none, some, Text,
  length, contains, keep, All, All-map, Result, ok, err, ◌==◌, nat_eq, text_eq, Bool-cases, inl,
  inr, arith, if◌then◌else◌, is_empty,
}
use opendkim_manage_go.Model.Error.{Error, invalid}
use opendkim_manage_go.Model.KeyMaterial.{KeyMaterial, material_handle}
use opendkim_manage_go.Model.Records.{Handle, Credential}
use opendkim_manage_go.Model.Generation.{of_profile}
use opendkim_manage_go.Model.Builder.{
  Builder, pair_keys, swap_keys, admits_replacement, replace_profile_keys,
}
use opendkim_manage_go.Prelude.Lists.Keep.{
  keep-append, keep-all, keep-none, keep-not, keep-keep, append-nil,
}
use opendkim_manage_go.Model.Builder.Pairs.{ArePairedBy, pair_keys-ArePairedBy, paired-of_profile}

-- What a replacement of the keys of a profile has done.
pub record IsReplaced (b : Builder) (id : Text) (cs : List Credential)
    (ms : List (Option KeyMaterial)) (b' : Builder) : Type 0 where
  pub owned : List KeyMaterial
  pub handles : List Handle
  pub pairs : ArePairedBy b.number id cs ms owned handles
  -- The credentials of the profile are the new ones, those of the other profiles the old ones.
  pub own : of_profile id b'.credentials ≡ cs
  pub others :
      keep (λ c. not (c.profile_id == id)) b'.credentials
      ≡ keep (λ c. not (c.profile_id == id)) b.credentials
  pub now_credentials : b'.credentials ≡ keep (λ c. not (c.profile_id == id)) b.credentials ++ cs
  -- The profile had credentials: just their handles and materials are removed.
  pub had : of_profile id b.credentials ≢ []
  pub kept_handles :
      b'.handles
      ≡ keep
          (λ h. not (contains (map (λ c. c.handle_id) (of_profile id b.credentials)) h.id))
          b.handles
        ++ handles
  pub kept_materials :
      b'.materials
      ≡ keep
          (λ m.
            not
              (contains (map (λ c. c.handle_id) (of_profile id b.credentials)) (material_handle m)))
          b.materials
        ++ owned
  pub same_profiles : b'.profiles ≡ b.profiles
  pub same_policies : b'.policies ≡ b.policies
  pub same_number : b'.number ≡ b.number
  pub same_state : b'.state ≡ b.state

swap_keys-own :
    (id : Text) (old cs : List Credential)
    → All (λ c. (c.profile_id == id) ≡ true) cs
    → of_profile id (keep (λ c. not (c.profile_id == id)) old ++ cs) ≡ cs
unfolding of_profile
swap_keys-own id old cs h = rw (
  keep-append (λ c. c.profile_id == id) (keep (λ c. not (c.profile_id == id)) old) cs,
  keep-not (λ (c : Credential). c.profile_id == id) old,
  keep-all (λ (c : Credential). c.profile_id == id) cs h,
)

swap_keys-others :
    (id : Text) (old cs : List Credential)
    → All (λ c. (c.profile_id == id) ≡ true) cs
    → keep (λ c. not (c.profile_id == id)) (keep (λ c. not (c.profile_id == id)) old ++ cs)
      ≡ keep (λ c. not (c.profile_id == id)) old
swap_keys-others id old cs h = rw (
  keep-append (λ c. not (c.profile_id == id)) (keep (λ c. not (c.profile_id == id)) old) cs,
  keep-keep (λ (c : Credential). not (c.profile_id == id)) old,
  keep-none (λ (c : Credential). not (c.profile_id == id)) cs
      (All-map _ _ cs (λ c e. rw (e) refl) h),
  append-nil (keep (λ (c : Credential). not (c.profile_id == id)) old),
)

-- The builder that `ReplaceProfileKeys` leaves.
abbrev swapped : Builder → Text → List Credential → List KeyMaterial → List Handle → Builder
swapped b id cs owned handles =
    let removed = map (λ c. c.handle_id) (of_profile id b.credentials) in
    record b {
      credentials = keep (λ c. not (c.profile_id == id)) b.credentials ++ cs;
      handles = keep (λ h. not (contains removed h.id)) b.handles ++ handles;
      materials = keep (λ m. not (contains removed (material_handle m))) b.materials ++ owned;
    }

-- The builder as it was with a refusal, or the changed one.
abbrev refused_or : Bool → Builder → Builder → Builder × Option Error
refused_or refused b r = if refused then (b, some invalid) else (r, none)

module _ (b r b' : Builder) where
  refused_or-none :
      (refused : Bool) → refused_or refused b r ≡ (b', none) → (refused ≡ false) × (b' ≡ r)
  refused_or-none true h = absurd (ground (arith, h))
  refused_or-none false h = (refl, ground (arith, h))

  refused_or-some : (refused : Bool) (e : Error) → refused_or refused b r ≡ (b', some e) → b' ≡ b
  refused_or-some true e h = ground (arith, h)
  refused_or-some false e h = absurd (ground (arith, h))

swap_keys-swapped :
    (b : Builder) (id : Text) (cs : List Credential) (owned : List KeyMaterial)
    (handles : List Handle) (b' : Builder)
    → swap_keys b id cs owned handles ≡ (b', none)
    → (of_profile id b.credentials ≢ []) × (b' ≡ swapped b id cs owned handles)
unfolding swap_keys of_profile
swap_keys-swapped b id cs owned handles b' h =
    let (some_removed, e) =
      refused_or-none b (swapped b id cs owned handles) b'
        (is_empty (map (λ c. c.handle_id) (of_profile id b.credentials))) h in
    (
      λ none_removed. absurd (
          ground (
            arith,
            some_removed,
            ap (λ l. is_empty (map (λ (c : Credential). c.handle_id) l)) none_removed,
          )),
      e,
    )

swap_keys-unchanged :
    (b : Builder) (id : Text) (cs : List Credential) (owned : List KeyMaterial)
    (handles : List Handle) (b' : Builder) (e : Error)
    → swap_keys b id cs owned handles ≡ (b', some e)
    → b' ≡ b
unfolding swap_keys of_profile
swap_keys-unchanged b id cs owned handles b' e h =
    refused_or-some b (swapped b id cs owned handles) b'
      (is_empty (map (λ c. c.handle_id) (of_profile id b.credentials))) e h

-- The end of `ReplaceProfileKeys`, behind the loop.
abbrev after_pairs :
    Builder
    → Text
    → List Credential
    → Result Error (List KeyMaterial × List Handle)
    → Builder × Option Error
after_pairs b id cs (err e) = (b, some e)
after_pairs b id cs (ok (owned, handles)) = swap_keys b id cs owned handles

module _ (b : Builder) (id : Text) (cs : List Credential) (ms : List (Option KeyMaterial))
    (b' : Builder) where
  after_pairs-unchanged :
      (r : Result Error (List KeyMaterial × List Handle)) (e : Error)
      → after_pairs b id cs r ≡ (b', some e)
      → b' ≡ b
  after_pairs-unchanged (err _) e h = ground (arith, h)
  after_pairs-unchanged (ok (owned, handles)) e h = swap_keys-unchanged b id cs owned handles b' e h

  after_pairs-none :
      (r : Result Error (List KeyMaterial × List Handle))
      → after_pairs b id cs r ≡ (b', none)
      → (owned : List KeyMaterial) × (handles : List Handle) × (r ≡ ok (owned, handles))
        × (swap_keys b id cs owned handles ≡ (b', none))
  after_pairs-none (err _) h = absurd (ground (arith, h))
  after_pairs-none (ok (owned, handles)) h = (owned, handles, refl, h)

  swap_keys-IsReplaced :
      (owned : List KeyMaterial) (handles : List Handle)
      → ArePairedBy b.number id cs ms owned handles
      → swap_keys b id cs owned handles ≡ (b', none)
      → IsReplaced b id cs ms b'
  swap_keys-IsReplaced owned handles p h =
      let (had, e) = swap_keys-swapped b id cs owned handles b' h in
      let all_own = paired-of_profile b.number id cs owned p.paired in
      record {
        owned = owned;
        handles = handles;
        pairs = p;
        own = ap (λ x. of_profile id x.credentials) e ∙ swap_keys-own id b.credentials cs all_own;
        others =
            ap (λ x. keep (λ c. not (c.profile_id == id)) x.credentials) e
            ∙ swap_keys-others id b.credentials cs all_own;
        now_credentials = ap (λ x. x.credentials) e;
        had = had;
        kept_handles = ap (λ x. x.handles) e;
        kept_materials = ap (λ x. x.materials) e;
        same_profiles = ap (λ x. x.profiles) e;
        same_policies = ap (λ x. x.policies) e;
        same_number = ap (λ x. x.number) e;
        same_state = ap (λ x. x.state) e;
      }

  admits_replacement-length : admits_replacement b id cs ms ≡ true → length cs ≡ length ms
  unfolding admits_replacement
  admits_replacement-length h = ground (arith, h)

  -- A call of `ReplaceProfileKeys` that succeeds was given credentials and materials that agree pair
  -- by pair; the profile then has just the new credentials, with handles and materials of their own,
  -- every other profile keeps its credentials, and only handles and materials of the profile are gone.
  pub replace_profile_keys-IsReplaced :
      replace_profile_keys b id cs ms ≡ (b', none) → IsReplaced b id cs ms b'
  unfolding replace_profile_keys
  replace_profile_keys-IsReplaced h = elim (Bool-cases (admits_replacement b id cs ms)) [
    | inr f ↦ absurd (ground (arith, h, f))
    | inl t ↦
        let (owned, handles, made, swap) =
          after_pairs-none (pair_keys b.number id cs ms) (rw (t) at h) in
        swap_keys-IsReplaced owned handles
          (pair_keys-ArePairedBy b.number id cs ms owned handles (admits_replacement-length t) made)
          swap
  ]

  -- A call of `ReplaceProfileKeys` that fails leaves the builder as it was.
  pub replace_profile_keys-unchanged :
      (e : Error) → replace_profile_keys b id cs ms ≡ (b', some e) → b' ≡ b
  unfolding replace_profile_keys swap_keys
  replace_profile_keys-unchanged e h = elim (Bool-cases (admits_replacement b id cs ms)) [
    | inr f ↦ ground (arith, h, f)
    | inl t ↦ after_pairs-unchanged (pair_keys b.number id cs ms) e (rw (t) at h)
  ]
