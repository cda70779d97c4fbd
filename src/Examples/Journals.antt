-- ===== src/Examples/Journals.antt =====
-- A journal of one runtime with one invocation of two events.
use agent_runtime_sdk.Prelude.{ℕ, ◌≡◌, refl, Text, text_eq, [], ◌∷◌, none, some, eqb, arith, false}
use agent_runtime_sdk.Prelude.Map.{get, contains}
use agent_runtime_sdk.Prelude.Result.{ok, err}
use agent_runtime_sdk.Journal.Types.{
  EventEnvelope, PartialEq, EventReplayRequest, appended, already_present, sequence_gap,
}
use agent_runtime_sdk.Journal.Invocation
use agent_runtime_sdk.Journal.Invocation.{InvocationJournal}
use agent_runtime_sdk.Journal.Invocation.Contiguous.{IsContiguous}
use agent_runtime_sdk.Journal.Invocation.Tail.{
  append_all, append_all-refines, log_append_all, log_append,
}
use agent_runtime_sdk.Journal.Invocation.Idempotence.{append_twice}
use agent_runtime_sdk.Journal.Runtime
use agent_runtime_sdk.Journal.Runtime.{RuntimeJournal}
use agent_runtime_sdk.Journal.Runtime.Invariant.{append-IsWellFormed}
use agent_runtime_sdk.Journal.Runtime.Eviction.{IsWellFormed}
use agent_runtime_sdk.Journal.Runtime.Disjoint.{Disjoint, append-Disjoint}
use agent_runtime_sdk.Journal.Replay.{pending, flat_events, advance, is_after}
use agent_runtime_sdk.Journal.Replay.Pages.{pending_resumes}
use agent_runtime_sdk.Journal.Replay.Drain.{drain, drain-pending}
use agent_runtime_sdk.Journal.Replay.Skew.{skew-skips}
use agent_runtime_sdk.Prelude.{take, drop, list_beq}
use agent_runtime_sdk.Prelude.Sorting.{sort_by, insert_sorted}

instance abbrev pub same_number : PartialEq ℕ
same_number = record { eq = eqb }

abbrev pub runtime_one : Text
runtime_one = 114 ∷ 49 ∷ []

abbrev pub invocation_one : Text
invocation_one = 105 ∷ 49 ∷ []

-- The event of a sequence, observed at a time.
abbrev pub event_at : ℕ → ℕ → EventEnvelope ℕ
event_at sequence time = record {
  schema_version = 1;
  runtime_id = runtime_one;
  invocation_id = invocation_one;
  sequence = sequence;
  observed_at_unix_ms = time;
  event = 7;
}

abbrev pub two_events : InvocationJournal ℕ
two_events = record {
  events = event_at 1 10 ∷ event_at 2 20 ∷ [];
  evicted_through = 0;
  maximum = 2;
}

abbrev pub two_events-IsContiguous : IsContiguous two_events
two_events-IsContiguous = record {
  run = (refl, (refl, tt));
  bounded = omega arith;
  representable = omega arith;
}

append_all-refines_example :
    append_all (Invocation.new 1) (event_at 1 10 ∷ event_at 3 30 ∷ event_at 2 20 ∷ []) ≡ (
      record { events = event_at 2 20 ∷ []; evicted_through = 1; maximum = 1 },
      ok appended ∷ err (sequence_gap runtime_one invocation_one 2 3) ∷ ok appended ∷ [],
    )
unfolding log_append_all log_append
append_all-refines_example =
    append_all-refines 1 (event_at 1 10 ∷ event_at 3 30 ∷ event_at 2 20 ∷ []) (omega arith)

append_twice_example :
    Invocation.append (Invocation.append two_events (event_at 3 30)).0 (event_at 3 30)
    ≡ ((Invocation.append two_events (event_at 3 30)).0, ok already_present)
unfolding Invocation.append Invocation.expected
append_twice_example =
    append_twice two_events (event_at 3 30) two_events-IsContiguous (omega arith) (omega arith) refl
      refl

abbrev pub one_invocation : RuntimeJournal ℕ
one_invocation = record {
  invocations = (invocation_one, two_events) ∷ [];
  invocation_order = invocation_one ∷ [];
  evicted_invocations = [];
  evicted_order = [];
  max_invocations = 2;
}

abbrev pub one_invocation-IsWellFormed : IsWellFormed 2 one_invocation
unfolding contains
one_invocation-IsWellFormed = record {
  live = record {
    synced = refl;
    distinct = (refl, tt);
    filed = (
      record { contiguous = two_events-IsContiguous; limit = refl; own = (refl, (refl, tt)) },
      tt,
    );
  };
  live_bounded = omega arith;
  gone = record { synced = refl; distinct = tt };
  gone_bounded = omega arith;
}

one_invocation-Disjoint : Disjoint one_invocation
unfolding contains
one_invocation-Disjoint id h = cc

append-IsWellFormed_example : IsWellFormed 2 (Runtime.append one_invocation (event_at 3 30) 2).0
append-IsWellFormed_example =
    append-IsWellFormed 2 one_invocation (event_at 3 30) one_invocation-IsWellFormed (omega arith)

append-Disjoint_example : Disjoint (Runtime.append one_invocation (event_at 3 30) 2).0
append-Disjoint_example = append-Disjoint one_invocation (event_at 3 30) 2 one_invocation-Disjoint

pending_resumes_example :
    pending one_invocation none (advance [] (take 1 (pending one_invocation none [])))
    ≡ drop 1 (pending one_invocation none [])
pending_resumes_example =
    pending_resumes 2 1 one_invocation none [] one_invocation-IsWellFormed
      (((omega arith, tt), (tt, tt)), tt)

abbrev pub one_by_one : EventReplayRequest
one_by_one = record { runtime_id = runtime_one; after = []; only_invocations = none; limit = 1 }

drain-pending_example : drain 3 one_invocation one_by_one 2 ≡ some (pending one_invocation none [])
unfolding pending flat_events sort_by insert_sorted get list_beq
drain-pending_example =
    drain-pending 3 2 2 one_invocation one_by_one one_invocation-IsWellFormed
      one_invocation-Disjoint (((omega arith, tt), (tt, tt)), tt) (omega arith) (omega arith) tt
      (omega arith)

-- The second event was observed before the first.
abbrev skewed : RuntimeJournal ℕ
skewed = record one_invocation {
  invocations =
      (invocation_one, record two_events { events = event_at 1 20 ∷ event_at 2 10 ∷ [] }) ∷ [];
}

skew-skips_example : is_after (advance [] (take 1 (pending skewed none []))) (event_at 1 20) ≡ false
unfolding pending flat_events sort_by insert_sorted get list_beq
skew-skips_example =
    skew-skips skewed none [] (event_at 2 10) (event_at 1 20) [] [] refl refl (omega arith)
