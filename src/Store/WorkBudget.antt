-- ===== src/Store/WorkBudget.antt =====
-- `internal/dkim2store/limits.go` and the counter of `internal/dkim2store/work_budget.go`. A method
-- on the shared counter runs under its lock, so concurrent calls are some sequence of calls.
pub mod Accounting
use opendkim_manage_go.Prelude.{
  ℕ, Bool, true, false, not, ◌&&◌, ◌||◌, List, [], ◌∷◌, Option, none, some, Result, ok, err,
  fail_if, ◌>>=◌, ◌>>◌, if◌then◌else◌,
}
use opendkim_manage_go.Prelude.Int.{ℤ, pos, ◌+ℤ◌, ◌-ℤ◌, ltb_ℤ, leb_ℤ}
use opendkim_manage_go.Store.Error.{StoreError, unavailable, malformed}

-- `Limits`; the durations are in nanoseconds.
pub record Limits : Type 0 where
  pub history_limit : ℤ
  pub max_generation_entries : ℤ
  pub max_attribute_bytes : ℤ
  pub max_dataset_bytes : ℤ
  pub max_ldap_requests : ℤ
  pub max_ldap_bytes : ℤ
  pub max_retained_root_visits : ℤ
  pub publication_readback_attempts : ℤ
  pub publication_readback_interval : ℤ
  pub search_time_limit_seconds : ℤ

-- `Limits.Validate`
unfoldable pub validate_limits : Limits → Result StoreError (Unit {0})
validate_limits l =
    fail_if
      (ltb_ℤ l.history_limit (pos 2)
        || (ltb_ℤ l.max_generation_entries (pos 6)
            || (leb_ℤ l.max_attribute_bytes (pos 0)
                || (ltb_ℤ l.max_dataset_bytes l.max_attribute_bytes
                    || (leb_ℤ l.max_ldap_requests (pos 0)
                        || (ltb_ℤ l.max_ldap_bytes l.max_dataset_bytes
                            || (ltb_ℤ l.max_retained_root_visits l.history_limit
                                || (leb_ℤ l.publication_readback_attempts (pos 0)
                                    || (leb_ℤ l.publication_readback_interval (pos 0)
                                        || leb_ℤ l.search_time_limit_seconds (pos 0))))))))))
      malformed

-- `ldapWorkBudget`
pub record WorkBudget : Type 0 where
  pub requests : ℤ
  pub bytes : ℤ
  pub history_roots : ℤ
  pub maximum_requests : ℤ
  pub maximum_bytes : ℤ
  pub maximum_histories : ℤ

-- `WithLifecycleWorkBudget`, as the budget that the new context carries; `none` if it carries none.
unfoldable pub new_work_budget : Limits → Option WorkBudget
unfolding validate_limits
new_work_budget limits = elim (validate_limits limits) [
  | err _ ↦ none
  | ok _ ↦ some (record {
    requests = pos 0;
    bytes = pos 0;
    history_roots = pos 0;
    maximum_requests = limits.max_ldap_requests;
    maximum_bytes = limits.max_ldap_bytes;
    maximum_histories = limits.max_retained_root_visits;
  })
]

-- One call's arguments of `consume`.
pub record Charge : Type 0 where
  pub requests : ℤ
  pub bytes : ℤ
  pub histories : ℤ

-- The test of `consume`.
unfoldable pub exceeds : WorkBudget → Charge → Bool
exceeds b c =
    ltb_ℤ c.requests (pos 0)
    || (ltb_ℤ c.bytes (pos 0)
        || (ltb_ℤ c.histories (pos 0)
            || (ltb_ℤ (b.maximum_requests -ℤ c.requests) b.requests
                || (ltb_ℤ (b.maximum_bytes -ℤ c.bytes) b.bytes
                    || ltb_ℤ (b.maximum_histories -ℤ c.histories) b.history_roots))))

-- `ldapWorkBudget.consume` on a budget that is not nil: the budget after the call, and the error.
unfoldable pub consume : WorkBudget → Charge → WorkBudget × Option StoreError
unfolding exceeds
consume b c = if exceeds b c then (b, some unavailable) else (
  record b {
    requests = b.requests +ℤ c.requests;
    bytes = b.bytes +ℤ c.bytes;
    history_roots = b.history_roots +ℤ c.histories;
  },
  none,
)

-- The calls of one lifecycle run, in the order in which they take the lock.
unfoldable pub consume_all : WorkBudget → List Charge → WorkBudget
unfolding consume
consume_all b [] = b
consume_all b (c ∷ cs) = consume_all (consume b c).0 cs
