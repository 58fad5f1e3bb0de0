-- ===== src/Tests/Store.antt =====
-- The theorems on recovery, work budgets and retained roots of `internal/dkim2store`, at concrete
-- inputs.
use opendkim_manage_go.Prelude.{◌≡◌, ◌≢◌, ◌↔◌, refl, arith, true, false, List, [], ◌∷◌, none, some}
use opendkim_manage_go.Prelude.Int.{pos, ◌≤ℤ◌}
use opendkim_manage_go.Prelude.Sort.{sort_func}
use opendkim_manage_go.Model.Values.{state_staging, state_committed}
use opendkim_manage_go.Store.Recovery.{RecoveryFacts}
use opendkim_manage_go.Store.Recovery.Decisions.{IsDecided, classify_recovery-IsDecided}
use opendkim_manage_go.Store.WorkBudget.{
  Limits, validate_limits, WorkBudget, new_work_budget, Charge, consume, consume_all,
}
use opendkim_manage_go.Store.WorkBudget.Accounting.{IsAcceptable, consume_iff, consume_all-bounds}
use opendkim_manage_go.Store.RetainedRoots.{
  GenerationRoot, compare_number, valid_retained_roots, legacy_schema_version, schema_version_v3,
}
use opendkim_manage_go.Store.RetainedRoots.Lineage.{IsLineage, valid_retained_roots_iff}

abbrev interrupted : RecoveryFacts
interrupted = record {
  expected_base = 6;
  candidate = 7;
  candidate_present = true;
  candidate_complete = true;
  candidate_state = state_staging;
  history_complete = true;
  multiple_candidates = false;
  current_present = true;
  current = 6;
  outcome_certain = true;
}

classify_recovery-IsDecided_example : IsDecided interrupted
classify_recovery-IsDecided_example = classify_recovery-IsDecided interrupted (omega arith)

abbrev small_limits : Limits
small_limits = record {
  history_limit = pos 2;
  max_generation_entries = pos 6;
  max_attribute_bytes = pos 100;
  max_dataset_bytes = pos 200;
  max_ldap_requests = pos 3;
  max_ldap_bytes = pos 1000;
  max_retained_root_visits = pos 5;
  publication_readback_attempts = pos 1;
  publication_readback_interval = pos 1;
  search_time_limit_seconds = pos 1;
}

abbrev small_budget : WorkBudget
small_budget = record {
  requests = pos 0;
  bytes = pos 0;
  history_roots = pos 0;
  maximum_requests = pos 3;
  maximum_bytes = pos 1000;
  maximum_histories = pos 5;
}

abbrev one_search : Charge
one_search = record { requests = pos 1; bytes = pos 700; histories = pos 2 }

consume_example :
    (((consume small_budget one_search).1 ≡ none) ↔ IsAcceptable small_budget one_search)
    × ((consume small_budget one_search).1 ≢ none
        → (consume small_budget one_search).0 ≡ small_budget)
consume_example = consume_iff small_budget one_search

small_budget-new : new_work_budget small_limits ≡ some small_budget
unfolding new_work_budget validate_limits
small_budget-new = refl

consume_all-bounds_example :
    let used = consume_all small_budget (one_search ∷ one_search ∷ []) in
    ((pos 0 ≤ℤ used.requests) × (used.requests ≤ℤ pos 3))
    × ((pos 0 ≤ℤ used.bytes) × (used.bytes ≤ℤ pos 1000))
    × ((pos 0 ≤ℤ used.history_roots) × (used.history_roots ≤ℤ pos 5))
consume_all-bounds_example =
    consume_all-bounds small_limits small_budget (one_search ∷ one_search ∷ []) small_budget-new

abbrev roots : List GenerationRoot
roots =
    record { number = 4; schema = schema_version_v3; state = state_committed }
    ∷ record { number = 1; schema = legacy_schema_version; state = state_committed }
    ∷ []

valid_retained_roots_example :
    (valid_retained_roots roots ≡ true) ↔ IsLineage (sort_func compare_number roots)
valid_retained_roots_example = valid_retained_roots_iff roots
