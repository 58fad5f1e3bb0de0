-- ===== src/Model/Eligibility/Since.antt =====
-- Since when a binding has its keys (`EligibleBindings` of `internal/dkim2model/rotation.go`).
use opendkim_manage_go.Prelude.{
  ℕ, ◌≤◌, ◌≡◌, ◌≢◌, ◌⊎◌, refl, sym, ap, subst, ◌∙◌, true, false, ◌||◌, List, [], ◌∷◌, Option, none,
  some, contains, length, All, All-map, ok, >>=-eq-ok, fail_if->>-eq-ok, ◌==◌, ◌!=◌, nat_eq,
  text_eq, eq_of_beq, beq_self, Bool-cases, inl, inr, arith,
}
use opendkim_manage_go.Model.Error.{invalid}
use opendkim_manage_go.Model.Instant.{Time, zero_time, is_zero, before}
use opendkim_manage_go.Model.Values.{status_active}
use opendkim_manage_go.Model.Records.{Profile, Credential, Policy}
use opendkim_manage_go.Model.Generation.{Generation, profile_by_id, of_profile}
use opendkim_manage_go.Model.Lifecycle.Lineage.{Clock, parse_generalized_time, LineageFact}
use opendkim_manage_go.Model.Eligibility.{
  RotationLimits, concerns, refuses_created, earlier, fact_loop, credential_loop, binding_since,
}

-- One of the elements satisfies the predicate.
abbrev pub Any {ℓ} : {A : Type ℓ} → (A → Type 0) → List A → Type 0
Any P [] = ⊥
Any P (x ∷ xs) = P x ⊎ Any P xs

module _ (clock : Clock) (now : Time) (limits : RotationLimits) where
  abbrev pub created_at : LineageFact → Time
  created_at f = parse_generalized_time clock f.created

  -- A fact of the policy's credential: of its binding, and with its selector, algorithm, handle and key.
  pub record IsFactOf (policy : Policy) (c : Credential) (f : LineageFact) : Type 0 where
    pub tenant : f.tenant ≡ policy.tenant_id
    pub domain : f.domain ≡ policy.domain
    pub profile_use : f.profile_use ≡ policy.profile_use
    pub selector : f.selector ≡ c.selector
    pub algorithm : f.algorithm ≡ c.algorithm
    pub handle : f.handle ≡ c.handle_id
    pub key : f.public_spki ≡ c.public_spki

  concerns-IsFactOf :
      (policy : Policy) (c : Credential) (f : LineageFact)
      → concerns policy c f ≡ true
      → IsFactOf policy c f
  unfolding concerns
  concerns-IsFactOf policy c f h = record {
    tenant = eq_of_beq f.tenant policy.tenant_id (ground (arith, h));
    domain = eq_of_beq f.domain policy.domain (ground (arith, h));
    profile_use = eq_of_beq f.profile_use policy.profile_use (ground (arith, h));
    selector = eq_of_beq f.selector c.selector (ground (arith, h));
    algorithm = eq_of_beq f.algorithm c.algorithm (ground (arith, h));
    handle = eq_of_beq f.handle c.handle_id (ground (arith, h));
    key = eq_of_beq f.public_spki c.public_spki (ground (arith, h));
  }

  concerns_of_fact :
      (policy : Policy) (c : Credential) (f : LineageFact)
      → IsFactOf policy c f
      → concerns policy c f ≡ true
  unfolding concerns
  concerns_of_fact policy c f i = rw (
    i.tenant,
    i.domain,
    i.profile_use,
    i.selector,
    i.algorithm,
    i.handle,
    i.key,
    beq_self policy.tenant_id,
    beq_self policy.domain,
    beq_self policy.profile_use,
    beq_self c.selector,
    beq_self c.algorithm,
    beq_self c.handle_id,
    beq_self c.public_spki,
  )

  -- No fact of the credential is earlier.
  abbrev pub IsEarliest : Policy → Credential → Time → LineageFact → Type 0
  IsEarliest policy c t f = (¬ IsFactOf policy c f) ⊎ (t.instant ≤ (created_at f).instant)

  -- A fact of the credential of just that time.
  abbrev pub IsAt : Policy → Credential → Time → LineageFact → Type 0
  IsAt policy c t f = IsFactOf policy c f × (t ≡ created_at f)

  -- The earlier of two times, where a zero time stands for none.
  record IsEarlier (e t m : Time) : Type 0 where
    set_time : is_zero m ≡ false
    below : m.instant ≤ t.instant
    below_old : (is_zero e ≡ true) ⊎ (m.instant ≤ e.instant)
    which : (m ≡ t) ⊎ (m ≡ e)

  earlier-IsEarlier :
      (e t : Time) → is_zero t ≡ false → IsEarlier e t (earlier clock now limits e t)
  unfolding earlier before is_zero
  earlier-IsEarlier e t z = elim (Bool-cases (is_zero e || before t e)) [
    | inl h ↦ rw h (record {
      set_time = z;
      below = omega arith;
      below_old = elim (Bool-cases (is_zero e)) [
        | inl y ↦ inl y
        | inr n ↦ inr (ground (arith, h, n))
      ];
      which = inl refl;
    })
    | inr h ↦ rw h (record {
      set_time = ground (arith, h);
      below = ground (arith, h);
      below_old = inr (omega arith);
      which = inr refl;
    })
  ]

  -- What the loop over the facts returns.
  record IsOldest (policy : Policy) (c : Credential) (e r : Time) (facts : List LineageFact)
      : Type 0 where
    bounded : All (IsEarliest policy c r) facts
    below_old : (is_zero e ≡ true) ⊎ (r.instant ≤ e.instant)
    attained : (r ≡ e) ⊎ Any (IsAt policy c r) facts

  le_through :
      (e m r : Time)
      → (is_zero m ≡ true) ⊎ (r.instant ≤ m.instant)
      → is_zero m ≡ false
      → r.instant ≤ m.instant
  le_through e m r (inl z) n = cc (z, n)
  le_through e m r (inr l) n = l

  IsOldest-cons :
      (policy : Policy) (c : Credential) (e m r : Time) (f : LineageFact) (rest : List LineageFact)
      → IsFactOf policy c f
      → IsEarlier e (created_at f) m
      → IsOldest policy c m r rest
      → IsOldest policy c e r (f ∷ rest)
  IsOldest-cons policy c e m r f rest t x i =
      let l : r.instant ≤ m.instant = le_through e m r i.below_old x.set_time in
      let b = x.below in
      record {
        bounded = (inr (omega (arith, l, b)), i.bounded);
        below_old = elim x.below_old [ inl z ↦ inl z | inr o ↦ inr (omega (arith, l, o)) ];
        attained = elim i.attained [
          | inr a ↦ inr (inr a)
          | inl same ↦ elim x.which [
            | inl now_created ↦ inr (inl (t, same ∙ now_created))
            | inr old ↦ inl (same ∙ old)
          ]
        ];
      }

  fact_loop-IsOldest :
      (policy : Policy) (c : Credential) (e : Time) (seen : List ℕ) (facts : List LineageFact)
      (r : Time)
      → fact_loop clock now limits policy c e seen facts ≡ ok r
      → IsOldest policy c e r facts
  unfolding fact_loop refuses_created
  fact_loop-IsOldest policy c e seen [] r h =
      let same : e ≡ r = ground (arith, h) in
      rw (← same) (record { bounded = tt; below_old = inr (omega arith); attained = inl refl })
  fact_loop-IsOldest policy c e seen (f ∷ rest) r h = elim (Bool-cases (concerns policy c f)) [
    | inr n ↦
        let i = fact_loop-IsOldest policy c e seen rest r (rw n at h) in
        record {
          bounded = (inl (λ k. cc (concerns_of_fact policy c f k, n)), i.bounded);
          below_old = i.below_old;
          attained = elim i.attained [ inl same ↦ inl same | inr a ↦ inr (inr a) ];
        }
    | inl t ↦ elim (Bool-cases (contains seen f.generation)) [
      | inl d ↦ cc (rw (t, d) at h)
      | inr d ↦ elim (Bool-cases (refuses_created clock now limits (created_at f))) [
        | inl y ↦ cc (rw (t, d, y) at h)
        | inr y ↦
            let m = earlier clock now limits e (created_at f) in
            IsOldest-cons policy c e m r f rest (concerns-IsFactOf policy c f t)
              (earlier-IsEarlier e (created_at f) (ground (arith, y)))
              (fact_loop-IsOldest policy c m (f.generation ∷ seen) rest r (rw (t, d, y) at h))
      ]
    ]
  ]

  -- The time since which a binding has its keys: no fact of one of its credentials is earlier, and one
  -- of them is of that time.
  pub record IsSince (facts : List LineageFact) (policy : Policy) (cs : List Credential) (t : Time)
      : Type 0 where
    pub bounded : All (λ c. All (IsEarliest policy c t) facts) cs
    pub attained : Any (λ c. Any (IsAt policy c t) facts) cs

  -- The same of the loop over the credentials, behind a time that it begins with.
  record IsSinceFrom (facts : List LineageFact) (policy : Policy) (e : Time) (cs : List Credential)
      (t : Time) : Type 0 where
    bounded : All (λ c. All (IsEarliest policy c t) facts) cs
    below_old : (is_zero e ≡ true) ⊎ (t.instant ≤ e.instant)
    attained : (t ≡ e) ⊎ Any (λ c. Any (IsAt policy c t) facts) cs
    set_time : ((cs ≡ []) × (t ≡ e)) ⊎ (is_zero t ≡ false)

  IsEarliest-below :
      (policy : Policy) (c : Credential) (t m : Time) (facts : List LineageFact)
      → t.instant ≤ m.instant
      → All (IsEarliest policy c m) facts
      → All (IsEarliest policy c t) facts
  IsEarliest-below policy c t m facts l h =
      All-map _ _ facts (λ f x. elim x [ inl n ↦ inl n | inr k ↦ inr (omega (arith, l, k)) ]) h

  of_fact :
      (facts : List LineageFact) (policy : Policy) (c : Credential) (m : Time)
      → is_zero m ≡ false
      → (m ≡ zero_time) ⊎ Any (IsAt policy c m) facts
      → Any (IsAt policy c m) facts
  unfolding is_zero
  of_fact facts policy c m z (inl e) = cc (rw e at z)
  of_fact facts policy c m z (inr a) = a

  credential_loop-IsSinceFrom :
      (facts : List LineageFact) (policy : Policy) (e : Time) (cs : List Credential) (t : Time)
      → credential_loop clock now limits policy facts e cs ≡ ok t
      → IsSinceFrom facts policy e cs t
  unfolding credential_loop
  credential_loop-IsSinceFrom facts policy e [] t h =
      let same : e ≡ t = ground (arith, h) in
      rw (← same) (record {
        bounded = tt;
        below_old = inr (omega arith);
        attained = inl refl;
        set_time = inl (refl, refl);
      })
  credential_loop-IsSinceFrom facts policy e (c ∷ rest) t h =
      let (m, em, h1) = >>=-eq-ok (fact_loop clock now limits policy c zero_time [] facts) _ h in
      let (z, h2) = fail_if->>-eq-ok (is_zero m) invalid _ h1 in
      let x = fact_loop-IsOldest policy c zero_time [] facts m em in
      let k = earlier clock now limits e m in
      let y = earlier-IsEarlier e m z in
      let i = credential_loop-IsSinceFrom facts policy k rest t h2 in
      let l : t.instant ≤ k.instant = le_through e k t i.below_old y.set_time in
      let b = y.below in
      record {
        bounded = (IsEarliest-below policy c t m facts (omega (arith, l, b)) x.bounded, i.bounded);
        below_old = elim y.below_old [ inl n ↦ inl n | inr o ↦ inr (omega (arith, l, o)) ];
        attained = elim i.attained [
          | inr a ↦ inr (inr a)
          | inl same ↦ elim y.which [
            | inr old ↦ inl (same ∙ old)
            | inl its ↦ inr (
                inl (
                  subst (λ w. Any (IsAt policy c w) facts) (sym (same ∙ its))
                    (of_fact facts policy c m z x.attained)))
          ]
        ];
        set_time = inr (elim i.set_time [ inl (_, same) ↦ rw same y.set_time | inr n ↦ n ]);
      }

  -- An active policy's active profile with its credentials, and the time since which it has them.
  pub record HasSince (g : Generation) (facts : List LineageFact) (policy : Policy) (t : Time)
      : Type 0 where
    pub profile : Profile
    pub found : profile_by_id g.profiles policy.profile_id ≡ some profile
    pub active : profile.status ≡ status_active
    pub some_credential : length (of_profile profile.id g.credentials) ≢ 0
    pub since : IsSince facts policy (of_profile profile.id g.credentials) t

  IsSince_of_from :
      (facts : List LineageFact) (policy : Policy) (cs : List Credential) (t : Time)
      → length cs ≢ 0
      → credential_loop clock now limits policy facts zero_time cs ≡ ok t
      → IsSince facts policy cs t
  unfolding is_zero
  IsSince_of_from facts policy cs t n h =
      let i = credential_loop-IsSinceFrom facts policy zero_time cs t h in
      record {
        bounded = i.bounded;
        attained = elim i.attained [
          | inr a ↦ a
          | inl same ↦ elim i.set_time [
            | inl (none_left, _) ↦ absurd (n (ap length none_left))
            | inr z ↦ cc (rw same at z)
          ]
        ];
      }

  pub binding_since-HasSince :
      (g : Generation) (facts : List LineageFact) (policy : Policy) (found : Option Profile)
      (t : Time)
      → profile_by_id g.profiles policy.profile_id ≡ found
      → binding_since clock now limits g facts policy found ≡ ok t
      → HasSince g facts policy t
  unfolding binding_since
  binding_since-HasSince g facts policy none t e h = cc
  binding_since-HasSince g facts policy (some profile) t e h =
      let (s, h1) = fail_if->>-eq-ok (profile.status != status_active) invalid _ h in
      let cs = of_profile profile.id g.credentials in
      let (n, h2) = fail_if->>-eq-ok (length cs == 0) invalid _ h1 in
      let some_one : length cs ≢ 0 = ground (arith, n) in
      record {
        profile = profile;
        found = e;
        active = eq_of_beq profile.status status_active (ground (arith, s));
        some_credential = some_one;
        since = IsSince_of_from facts policy cs t some_one h2;
      }
