-- ===== src/Model/GlobalRotation/Planned.antt =====
-- What `PlanGlobalRotation` and `PlanGlobalExtension` of `internal/dkim2model/rotation.go` plan.
use opendkim_manage_go.Prelude.{
  ℕ, ◌+◌, ◌≡◌, ◌≢◌, refl, ap, ◌∙◌, true, false, not, ◌||◌, Bool, List, [], ◌∷◌, map, some, Text,
  contains, length, ltb, All, All-map, ok, >>=-eq-ok, fail_if->>-eq-ok, nat_eq, text_eq, arith,
}
use opendkim_manage_go.Prelude.Sort.{sort_func}
use opendkim_manage_go.Model.Error.{invalid}
use opendkim_manage_go.Model.Instant.{Time}
use opendkim_manage_go.Model.Values.{Algorithm, state_staging, compare_algorithms}
use opendkim_manage_go.Model.AlgorithmSet.{canonical_algorithm_set, contains_every_algorithm}
use opendkim_manage_go.Model.Records.{
  Profile, Credential, Policy, rebase_profile, rebase_credential, rebase_policy,
}
use opendkim_manage_go.Model.Generation.{Generation, of_profile}
use opendkim_manage_go.Model.Generation.Order.{
  compare_profiles, compare_credentials, compare_policies,
}
use opendkim_manage_go.Model.Generation.WellFormed.{IsWellFormed}
use opendkim_manage_go.Model.Builder.{Builder, next_builder, build}
use opendkim_manage_go.Model.Rotation.{RotationSources, exact_active_binding}
use opendkim_manage_go.Model.Rotation.Exact.{exact_active_binding-IsBound}
use opendkim_manage_go.Model.Rotation.Planned.{build-IsBuiltFrom, next_builder-IsNext}
use opendkim_manage_go.Model.Lifecycle.Lineage.{Clock, LineageHistory}
use opendkim_manage_go.Model.Campaign.{BindingIdentity, active_bindings}
use opendkim_manage_go.Model.Eligibility.{RotationLimits, EligibilityDecision, eligible_bindings}
use opendkim_manage_go.Model.GlobalRotation.{
  Replacer, Replacement, new_campaign_key_replacer, replace, replace_all, rotation_of,
  rotation_loop, extensions, refuses_global, rotate_due, plan_global_rotation, extend_all,
  plan_global_extension,
}
use opendkim_manage_go.Model.GlobalRotation.Replaced.{
  IsFreshFor, IsLater, IsMade, IsReplacedAll, nothing_replaced, replace-IsStep, IsStep-all,
  replace_all-IsReplacedAll,
}

module _ {S : Type 0} (sources : RotationSources S) (current : Generation) (next : ℕ)
    (limits : RotationLimits) (reader : S) where
  -- The state in which the current selectors and handles are used.
  abbrev pub start : Replacer S
  start = new_campaign_key_replacer sources next limits current reader

  -- A staged successor whose listed profiles have new credentials; the rest is as it was, renumbered.
  pub record IsSuccessor (P : Text → List Credential → Type 0) (ids : List Text) (g : Generation)
      : Type 0 where
    pub well_formed : IsWellFormed g
    pub number : g.number ≡ next
    pub state : g.state ≡ state_staging
    pub profiles :
        g.profiles ≡ sort_func compare_profiles (map (rebase_profile next) current.profiles)
    pub policies :
        g.policies ≡ sort_func compare_policies (map (rebase_policy next) current.policies)
    -- The credentials before they are sorted.
    pub credentials : List Credential
    pub sorted : g.credentials ≡ sort_func compare_credentials credentials
    pub listed : All (λ id. P id (of_profile id credentials)) ids
    pub others :
        (id : Text)
        → contains ids id ≡ false
        → of_profile id credentials
          ≡ of_profile id (map (rebase_credential next) current.credentials)

  IsSuccessor-of_replaced :
      (P : Text → List Credential → Type 0) (ids : List Text) (b last : Builder) (g : Generation)
      → next_builder current next state_staging ≡ ok b
      → IsReplacedAll sources next limits P start ids b last
      → build last ≡ ok g
      → IsSuccessor P ids g
  IsSuccessor-of_replaced P ids b last g e r h =
      let n = next_builder-IsNext current next state_staging b e in
      let f = build-IsBuiltFrom last g h in
      record {
        well_formed = f.well_formed;
        number = f.number ∙ r.same_number ∙ n.same_number;
        state = f.state ∙ r.same_state ∙ n.same_state;
        profiles = f.profiles ∙ ap (sort_func compare_profiles) (r.same_profiles ∙ n.profiles);
        policies = f.policies ∙ ap (sort_func compare_policies) (r.same_policies ∙ n.policies);
        credentials = last.credentials;
        sorted = f.credentials;
        listed = r.listed;
        others = λ id m. r.others id m ∙ ap (of_profile id) n.credentials;
      }

  -- New credentials of a profile.
  abbrev pub AreNew : Text → List Credential → Type 0
  AreNew id cs = All (IsFreshFor sources next limits id start) cs

  -- New credentials of a profile, one for each algorithm of those that it has.
  abbrev pub AreRenewed : Text → List Credential → Type 0
  AreRenewed id cs =
      (map (λ c. c.algorithm) cs
        ≡ sort_func compare_algorithms (map (λ c. c.algorithm) (of_profile id current.credentials)))
      × AreNew id cs

  -- The binding for a tenant, domain and use is active and has the profile.
  abbrev pub IsProfileOf : BindingIdentity → Text → Type 0
  IsProfileOf b id =
      (bound : Policy × Profile × List Credential) × (exact_active_binding current b.tenant b.domain
          b.profile_use
        ≡ ok bound)
      × (bound.1.id ≡ id)

  -- The profiles of just these bindings, one for each, in order.
  abbrev pub AreProfilesOf : List BindingIdentity → List Text → Type 0
  AreProfilesOf [] [] = Unit {0}
  AreProfilesOf [] (id ∷ ids) = ⊥
  AreProfilesOf (b ∷ bs) [] = ⊥
  AreProfilesOf (b ∷ bs) (id ∷ ids) = IsProfileOf b id × AreProfilesOf bs ids

  -- The binding that a decision names.
  abbrev pub decided : EligibilityDecision → BindingIdentity
  decided d = record { tenant = d.tenant; domain = d.domain; profile_use = d.profile_use }

  rotation_loop-IsReplacedAll :
      (decisions : List EligibilityDecision) (state : Replacer S) (b last : Builder)
      → IsLater sources next limits start state
      → rotation_loop sources next limits current decisions state b ≡ ok last
      → (ids : List Text) × IsReplacedAll sources next limits AreRenewed start ids b last
        × AreProfilesOf (map decided decisions) ids
  unfolding rotation_loop rotation_of
  rotation_loop-IsReplacedAll [] state b last later h =
      ([], nothing_replaced sources next limits AreRenewed start b last (ground (arith, h)), tt)
  rotation_loop-IsReplacedAll (d ∷ rest) state b last later h =
      let (bound, e, h1) =
        >>=-eq-ok (exact_active_binding current d.tenant d.domain d.profile_use) _ h in
      let (_, _, _, its) =
        exact_active_binding-IsBound current d.tenant d.domain d.profile_use bound e in
      let r = rotation_of sources next limits d bound in
      let (one, e1, h2) = >>=-eq-ok (replace sources next limits r state b) _ h1 in
      let s = replace-IsStep sources next limits r state b one e1 in
      let (ids, replaced, listed) =
        rotation_loop-IsReplacedAll rest one.1 one.0 last (λ x y n. later x y (s.later x y n)) h2 in
      let same =
        ap (λ cs. sort_func compare_algorithms (map (λ (c : Credential). c.algorithm) cs))
          its.all_credentials in
      (
        bound.1.id ∷ ids,
        IsStep-all sources next limits AreRenewed start r ids state one.1 b one.0 last
            (λ cs a f. (a ∙ same, f)) later s replaced,
        ((bound, e, refl), listed),
      )

  -- The candidate of a global rotation with its decisions.
  pub record IsGlobalRotation (clock : Clock) (now : Time) (history : LineageHistory)
      (decisions : List EligibilityDecision) (g : Generation) : Type 0 where
    pub due : eligible_bindings clock now limits current history ≡ ok decisions
    pub some_due : length decisions ≢ 0
    pub next_number : next ≡ current.number + 1
    -- The profiles of the due bindings, and no other.
    pub ids : List Text
    pub listed : AreProfilesOf (map decided decisions) ids
    pub successor : IsSuccessor AreRenewed ids g

  rotate_due-IsSuccessor :
      (due decisions : List EligibilityDecision) (g : Generation)
      → rotate_due sources current next limits reader due ≡ ok (some (g, decisions))
      → (due ≡ decisions)
        × (length decisions ≢ 0)
        × (ids : List Text) × AreProfilesOf (map decided decisions) ids
        × IsSuccessor AreRenewed ids g
  unfolding rotate_due
  rotate_due-IsSuccessor [] decisions g h = cc
  rotate_due-IsSuccessor (d ∷ rest) decisions g h =
      let (b, e, h1) = >>=-eq-ok (next_builder current next state_staging) _ h in
      let (last, e1, h2) =
        >>=-eq-ok (rotation_loop sources next limits current (d ∷ rest) start b) _ h1 in
      let (built, e2, h3) = >>=-eq-ok (build last) _ h2 in
      let (ids, replaced, listed) =
        rotation_loop-IsReplacedAll (d ∷ rest) start b last (λ x y n. n) e1 in
      let same : d ∷ rest ≡ decisions = ground (arith, h3) in
      let same_g : built ≡ g = ground (arith, h3) in
      (
        same,
        rw (← same) (omega arith),
        ids,
        rw (← same) listed,
        rw (← same_g) (IsSuccessor-of_replaced AreRenewed ids b last built e replaced e2),
      )

  -- A candidate that `PlanGlobalRotation` returns comes with all due bindings, at least one, and is
  -- the staged, complete and consistent successor of the current generation. The profile of each due
  -- binding has one credential for each algorithm that it has in the current generation, all with
  -- selectors and handles that neither the current generation nor the history has; the profiles, the
  -- policies and the credentials of all profiles but those of due bindings are the current ones,
  -- renumbered.
  pub plan_global_rotation-IsGlobalRotation :
      (clock : Clock) (now : Time) (history : LineageHistory) (decisions : List EligibilityDecision)
      (g : Generation)
      → plan_global_rotation sources current next limits reader clock now history
        ≡ ok (some (g, decisions))
      → IsGlobalRotation clock now history decisions g
  unfolding plan_global_rotation refuses_global
  plan_global_rotation-IsGlobalRotation clock now history decisions g h =
      let (n, h1) =
        fail_if->>-eq-ok
          (refuses_global sources current next limits reader
            || (not now.utc || not history.is_whole))
          invalid _ h in
      let (due, e, h2) = >>=-eq-ok (eligible_bindings clock now limits current history) _ h1 in
      let (same, several, ids, listed, successor) = rotate_due-IsSuccessor due decisions g h2 in
      record {
        due = e ∙ ap ok same;
        some_due = several;
        next_number = ground (arith, n);
        ids = ids;
        listed = listed;
        successor = successor;
      }

  -- New credentials of a profile, one for each algorithm of a set.
  abbrev pub AreNewFor : List Algorithm → Text → List Credential → Type 0
  AreNewFor requested id cs = (map (λ c. c.algorithm) cs ≡ requested) × AreNew id cs

  extensions-AreProfilesOf :
      (requested : List Algorithm) (bs : List BindingIdentity) (found : List Replacement × Bool)
      → extensions current requested bs ≡ ok found
      → AreProfilesOf bs (map (λ r. r.profile.id) found.0)
        × All (λ r. r.algorithms ≡ requested) found.0
  unfolding extensions
  extensions-AreProfilesOf requested [] found h =
      let e : ([], false) ≡ found = ground (arith, h) in rw (← e) (tt, tt)
  extensions-AreProfilesOf requested (b ∷ rest) found h =
      let (bound, e, h1) =
        >>=-eq-ok (exact_active_binding current b.tenant b.domain b.profile_use) _ h in
      let (_, h2) =
        fail_if->>-eq-ok (not (contains_every_algorithm requested (map (λ c. c.algorithm) bound.2)))
          invalid _ h1 in
      let (others, e1, h3) = >>=-eq-ok (extensions current requested rest) _ h2 in
      let (listed, asked) = extensions-AreProfilesOf requested rest others e1 in
      let r : Replacement = record {
        profile = bound.1;
        tenant = b.tenant;
        domain = b.domain;
        profile_use = b.profile_use;
        algorithms = requested;
      } in
      let same : (r ∷ others.0, ltb (length bound.2) (length requested) || others.1) ≡ found =
        ground (arith, h3) in
      rw (← same) (((bound, e, refl), listed), (refl, asked))

  -- The candidate of a global extension with its bindings.
  pub record IsGlobalExtension (algorithms : List Algorithm) (bindings : List BindingIdentity)
      (g : Generation) : Type 0 where
    pub requested : List Algorithm
    pub canonical : canonical_algorithm_set algorithms ≡ ok requested
    pub all_active : active_bindings current limits.maximum_bindings ≡ ok bindings
    pub next_number : next ≡ current.number + 1
    -- The profiles of the active bindings, and no other.
    pub ids : List Text
    pub listed : AreProfilesOf bindings ids
    pub successor : IsSuccessor (AreNewFor requested) ids g

  extend_all-IsSuccessor :
      (requested : List Algorithm) (active bindings : List BindingIdentity)
      (found : List Replacement × Bool) (g : Generation)
      → All (λ r. r.algorithms ≡ requested) found.0
      → extend_all sources current next limits reader active found ≡ ok (some (g, bindings))
      → (active ≡ bindings) × IsSuccessor (AreNewFor requested) (map (λ r. r.profile.id) found.0) g
  unfolding extend_all
  extend_all-IsSuccessor requested active bindings (rs, false) g asked h = cc
  extend_all-IsSuccessor requested active bindings (rs, true) g asked h =
      let (b, e, h1) = >>=-eq-ok (next_builder current next state_staging) _ h in
      let (last, e1, h2) = >>=-eq-ok (replace_all sources next limits rs start b) _ h1 in
      let (built, e2, h3) = >>=-eq-ok (build last) _ h2 in
      let replaced =
        replace_all-IsReplacedAll sources next limits (AreNewFor requested) start rs start b last
          (All-map _ (IsMade sources next limits (AreNewFor requested) start) rs
            (λ r a cs m f. (m ∙ a, f)) asked)
          (λ x y n. n) e1 in
      let same_g : built ≡ g = ground (arith, h3) in
      (
        ground (arith, h3),
        rw (← same_g) (
            IsSuccessor-of_replaced (AreNewFor requested) (map (λ r. r.profile.id) rs) b last built
              e replaced e2),
      )

  -- A candidate that `PlanGlobalExtension` returns comes with all active bindings and is the staged,
  -- complete and consistent successor of the current generation. The profile of each active binding
  -- has one credential for each requested algorithm and no other, all with selectors and handles that
  -- neither the current generation nor the history has; the profiles, the policies and the credentials
  -- of all profiles but those of active bindings are the current ones, renumbered.
  pub plan_global_extension-IsGlobalExtension :
      (algorithms : List Algorithm) (bindings : List BindingIdentity) (g : Generation)
      → plan_global_extension sources current next limits reader algorithms
        ≡ ok (some (g, bindings))
      → IsGlobalExtension algorithms bindings g
  unfolding plan_global_extension refuses_global
  plan_global_extension-IsGlobalExtension algorithms bindings g h =
      let (n, h1) =
        fail_if->>-eq-ok (refuses_global sources current next limits reader) invalid _ h in
      let (requested, canonical, h2) = >>=-eq-ok (canonical_algorithm_set algorithms) _ h1 in
      let (active, e, h3) = >>=-eq-ok (active_bindings current limits.maximum_bindings) _ h2 in
      let (found, e1, h4) = >>=-eq-ok (extensions current requested active) _ h3 in
      let (listed, asked) = extensions-AreProfilesOf requested active found e1 in
      let (same, successor) = extend_all-IsSuccessor requested active bindings found g asked h4 in
      record {
        requested = requested;
        canonical = canonical;
        all_active = e ∙ ap ok same;
        next_number = ground (arith, n);
        ids = map (λ r. r.profile.id) found.0;
        listed = rw (← same) listed;
        successor = successor;
      }
