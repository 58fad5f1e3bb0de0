-- ===== src/Store/WorkBudget/Accounting.antt =====
-- The work budget of `internal/dkim2store/work_budget.go` keeps its bounds and counts exactly.
use opendkim_manage_go.Prelude.{
  ◌≡◌, ◌≢◌, ◌↔◌, ◌||◌, refl, ◌∙◌, subst, List, [], ◌∷◌, none, some, arith, Bool, false, Bool-cases,
  inl, inr,
}
use opendkim_manage_go.Prelude.Int.{
  ℤ, pos, ◌+ℤ◌, ◌-ℤ◌, ◌≤ℤ◌, ltb_ℤ, +ℤ_parts, -ℤ_parts, ltb_ℤ-false_iff,
}
use opendkim_manage_go.Store.WorkBudget.{
  Limits, WorkBudget, new_work_budget, Charge, exceeds, consume, consume_all,
}

-- Each counter lies between 0 and its maximum.
pub record IsWithin (b : WorkBudget) : Type 0 where
  pub requests_low : pos 0 ≤ℤ b.requests
  pub requests_high : b.requests ≤ℤ b.maximum_requests
  pub bytes_low : pos 0 ≤ℤ b.bytes
  pub bytes_high : b.bytes ≤ℤ b.maximum_bytes
  pub histories_low : pos 0 ≤ℤ b.history_roots
  pub histories_high : b.history_roots ≤ℤ b.maximum_histories

-- A budget made from accepted limits starts within its bounds.
new_work_budget-IsWithin : (l : Limits) (b : WorkBudget) → new_work_budget l ≡ some b → IsWithin b
unfolding new_work_budget
new_work_budget-IsWithin l b h = ground arith

-- One counter of `consume`.
counter_lem :
    (used maximum n : ℤ)
    → pos 0 ≤ℤ used
    → ltb_ℤ n (pos 0) ≡ false
    → ltb_ℤ (maximum -ℤ n) used ≡ false
    → (pos 0 ≤ℤ used +ℤ n) × (used +ℤ n ≤ℤ maximum)
counter_lem used maximum n lo p q =
    let p' = (ltb_ℤ-false_iff n (pos 0)).0 p in
    let q' = (ltb_ℤ-false_iff (maximum -ℤ n) used).0 q in
    let e = +ℤ_parts used n in let f = -ℤ_parts maximum n in (omega arith, omega arith)

-- What `consume` has tested when it accepts.
pub record IsAcceptable (b : WorkBudget) (c : Charge) : Type 0 where
  pub requests : (pos 0 ≤ℤ c.requests) × (b.requests +ℤ c.requests ≤ℤ b.maximum_requests)
  pub bytes : (pos 0 ≤ℤ c.bytes) × (b.bytes +ℤ c.bytes ≤ℤ b.maximum_bytes)
  pub histories : (pos 0 ≤ℤ c.histories) × (b.history_roots +ℤ c.histories ≤ℤ b.maximum_histories)

counter_iff :
    (used maximum n : ℤ)
    → ((ltb_ℤ n (pos 0) ≡ false) × (ltb_ℤ (maximum -ℤ n) used ≡ false))
      ↔ ((pos 0 ≤ℤ n) × (used +ℤ n ≤ℤ maximum))
counter_iff used maximum n = (
  λ h.
      let p = (ltb_ℤ-false_iff n (pos 0)).0 h.0 in
      let q = (ltb_ℤ-false_iff (maximum -ℤ n) used).0 h.1 in
      let e = +ℤ_parts used n in let f = -ℤ_parts maximum n in (omega arith, omega arith),
  λ h.
      let p = h.0 in
      let q = h.1 in
      let e = +ℤ_parts used n in
      let f = -ℤ_parts maximum n in
      (
        (ltb_ℤ-false_iff n (pos 0)).1 (omega arith),
        (ltb_ℤ-false_iff (maximum -ℤ n) used).1 (omega arith),
      ),
)

six_tests :
    (a b c d e f : Bool)
    → (a || (b || (c || (d || (e || f))))) ≡ false
    → (a ≡ false) × (b ≡ false) × (c ≡ false) × (d ≡ false) × (e ≡ false) × (f ≡ false)
six_tests a b c d e f h = ground arith

exceeds_iff : (b : WorkBudget) (c : Charge) → (exceeds b c ≡ false) ↔ IsAcceptable b c
unfolding exceeds
exceeds_iff b c = (
  λ h.
      let (p, q, r, s, t, u) = six_tests _ _ _ _ _ _ h in
      record {
        requests = (counter_iff b.requests b.maximum_requests c.requests).0 (p, s);
        bytes = (counter_iff b.bytes b.maximum_bytes c.bytes).0 (q, t);
        histories = (counter_iff b.history_roots b.maximum_histories c.histories).0 (r, u);
      },
  λ h.
      let r = (counter_iff b.requests b.maximum_requests c.requests).1 h.requests in
      let s = (counter_iff b.bytes b.maximum_bytes c.bytes).1 h.bytes in
      let t = (counter_iff b.history_roots b.maximum_histories c.histories).1 h.histories in
      rw (r.0, s.0, t.0, r.1, s.1, t.1),
)

-- A charge is accepted exactly if none of its three amounts is negative and each counter stays at or
-- below its maximum with it; a refused charge leaves the budget as it was.
pub consume_iff :
    (b : WorkBudget) (c : Charge)
    → (((consume b c).1 ≡ none) ↔ IsAcceptable b c) × ((consume b c).1 ≢ none → (consume b c).0 ≡ b)
unfolding consume
consume_iff b c = (
  (λ h. (exceeds_iff b c).0 (ground (arith, h)), λ h. let e = (exceeds_iff b c).1 h in rw e),
  λ h. ground (arith, h),
)

consume-IsWithin : (b : WorkBudget) (c : Charge) → IsWithin b → IsWithin (consume b c).0
consume-IsWithin b c w = elim (Bool-cases (exceeds b c)) [
  | inl t ↦ unfold consume in rw t w
  | inr f ↦
      let a = (exceeds_iff b c).0 f in
      unfold consume in
      rw f (
        let r = +ℤ_parts b.requests c.requests in
        let s = +ℤ_parts b.bytes c.bytes in
        let t = +ℤ_parts b.history_roots c.histories in omega (arith, a, w))
]

consume_all-IsWithin :
    (b : WorkBudget) (cs : List Charge) → IsWithin b → IsWithin (consume_all b cs)
unfolding consume_all
consume_all-IsWithin b [] w = w
consume_all-IsWithin b (c ∷ cs) w = consume_all-IsWithin (consume b c).0 cs (consume-IsWithin b c w)

-- The maxima are never written.
abbrev SameMaxima : WorkBudget → WorkBudget → Type 0
SameMaxima a b =
    (a.maximum_requests ≡ b.maximum_requests)
    × (a.maximum_bytes ≡ b.maximum_bytes)
    × (a.maximum_histories ≡ b.maximum_histories)

consume-SameMaxima : (b : WorkBudget) (c : Charge) → SameMaxima (consume b c).0 b
unfolding consume
consume-SameMaxima b c = ground arith

consume_all-SameMaxima : (b : WorkBudget) (cs : List Charge) → SameMaxima (consume_all b cs) b
unfolding consume_all
consume_all-SameMaxima b [] = (refl, refl, refl)
consume_all-SameMaxima b (c ∷ cs) =
    let r = consume_all-SameMaxima (consume b c).0 cs in
    let s = consume-SameMaxima b c in (r.0 ∙ s.0, r.1 ∙ s.1, r.2 ∙ s.2)

new_work_budget-maxima :
    (l : Limits) (b : WorkBudget)
    → new_work_budget l ≡ some b
    → (b.maximum_requests ≡ l.max_ldap_requests)
      × (b.maximum_bytes ≡ l.max_ldap_bytes)
      × (b.maximum_histories ≡ l.max_retained_root_visits)
unfolding new_work_budget
new_work_budget-maxima l b h = ground arith

-- Whatever calls one lifecycle run makes, in whatever order and however many are refused, a budget
-- made from accepted limits never counts more requests, bytes or visits than those limits allow,
-- and never a negative number.
pub consume_all-bounds :
    (l : Limits) (b : WorkBudget) (cs : List Charge)
    → new_work_budget l ≡ some b
    → let used = consume_all b cs in
      ((pos 0 ≤ℤ used.requests) × (used.requests ≤ℤ l.max_ldap_requests))
      × ((pos 0 ≤ℤ used.bytes) × (used.bytes ≤ℤ l.max_ldap_bytes))
      × ((pos 0 ≤ℤ used.history_roots) × (used.history_roots ≤ℤ l.max_retained_root_visits))
consume_all-bounds l b cs h =
    let w = consume_all-IsWithin b cs (new_work_budget-IsWithin l b h) in
    let m = consume_all-SameMaxima b cs in
    let n = new_work_budget-maxima l b h in
    (
      (w.requests_low, subst (λ t. (consume_all b cs).requests ≤ℤ t) (m.0 ∙ n.0) w.requests_high),
      (w.bytes_low, subst (λ t. (consume_all b cs).bytes ≤ℤ t) (m.1 ∙ n.1) w.bytes_high),
      (
        w.histories_low,
        subst (λ t. (consume_all b cs).history_roots ≤ℤ t) (m.2 ∙ n.2) w.histories_high,
      ),
    )
