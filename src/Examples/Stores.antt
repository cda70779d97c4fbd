-- ===== src/Examples/Stores.antt =====
-- A journal of one runtime, and calls put to a new journal.
use agent_runtime_sdk.Prelude.{
  ℕ, ◌≡◌, refl, text_eq, nat_eq, List, [], ◌∷◌, none, arith, list_beq, list_beq_iff, length, ◌≤◌,
}
use agent_runtime_sdk.Prelude.Map.{get, Each}
use agent_runtime_sdk.Journal.Types.{EventEnvelope, EventJournalLimits}
use agent_runtime_sdk.Journal.Store.{EventJournal, with_limits, append}
use agent_runtime_sdk.Journal.Store.Runs.{Call, appends, removes, run, WithinLimits, run_bounds}
use agent_runtime_sdk.Journal.Store.Rejected.{admission-evicts}
use agent_runtime_sdk.Examples.Journals.{same_number, runtime_one, event_at, one_invocation}

abbrev small : EventJournalLimits
small = record {
  max_runtimes = 1;
  max_invocations_per_runtime = 2;
  max_events_per_invocation = 2;
  max_replay_events = 2;
}

abbrev calls : List (Call ℕ)
calls =
    appends (event_at 1 10)
    ∷ appends (event_at 2 20)
    ∷ removes (50 ∷ [])
    ∷ appends (event_at 3 30)
    ∷ []

run_bounds_example :
    (length (run (with_limits {P = ℕ} small) calls).runtimes ≤ 1)
    × Each (λ _. WithinLimits small) (run (with_limits {P = ℕ} small) calls).runtimes
run_bounds_example = run_bounds small calls (omega arith, (omega arith, (tt, (omega arith, tt))))

abbrev full : EventJournal ℕ
full = record {
  limits = small;
  runtimes = (runtime_one, one_invocation) ∷ [];
  runtime_order = runtime_one ∷ [];
}

-- A first event of another runtime, with a sequence that is refused.
abbrev refused : EventEnvelope ℕ
refused = record (event_at 5 50) { runtime_id = 114 ∷ 50 ∷ [] }

admission-evicts_example : get runtime_one (append full refused).0.runtimes ≡ none
unfolding get list_beq
admission-evicts_example =
    admission-evicts full refused runtime_one [] refl refl refl refl
      (λ e. let same = (list_beq_iff refused.runtime_id runtime_one).1 e in cc)
