-- ===== src/Examples/Runtimes.antt =====
-- A runtime with one turn handed over to the next, and a turn that compacts.
use agent_runtime_sdk.Prelude.{
  ℕ, ◌<◌, ◌≤◌, ◌≡◌, refl, List, [], ◌∷◌, map, none, some, Text, text_eq, nat_eq, length, Bool, true,
  false, get_last?, arith, list_beq,
}
use agent_runtime_sdk.Prelude.{All}
use agent_runtime_sdk.Prelude.Map.{contains, get}
use agent_runtime_sdk.Prelude.Result.{Result, ok}
use agent_runtime_sdk.Journal.Types.{EventEnvelope, PartialEq, appended}
use agent_runtime_sdk.Journal.Invocation.{new}
use agent_runtime_sdk.Journal.Invocation.Contiguous.{Run}
use agent_runtime_sdk.Journal.Invocation.Tail.{append_all, tail_of}
use agent_runtime_sdk.Retained.Types.{RuntimeFailure, turn, token_threshold}
use agent_runtime_sdk.Retained.Input.{TurnInput, deny}
use agent_runtime_sdk.Retained.Sink.{
  RuntimeEvent, Activity, emits, compaction_started, compaction_completed, automatic, other_event,
  task, new_sink,
}
use agent_runtime_sdk.Retained.Numbering.{open_after, IsReceived}
use agent_runtime_sdk.Retained.Delivery.{task-orderly, task-append_all}
use agent_runtime_sdk.Retained.TaskEvents.{last_event}
use agent_runtime_sdk.Retained.Skipped.{gap}
use agent_runtime_sdk.Retained.Abandoned.{task-abandoned}
use agent_runtime_sdk.Retained.Sink.{abandons}
use agent_runtime_sdk.Prelude.{◌++◌}
use agent_runtime_sdk.Retained.Entry.{
  RuntimeEntry, ActiveTurn, Task, admit, admitted, with_turn, accept, accept_start, refuse, release,
  finish, owns, completion_kind, forget_invocations, mark_disposed,
}
use agent_runtime_sdk.Retained.Entry
use agent_runtime_sdk.Retained.Client.{
  InProcessRuntimeClient, RuntimeSpec, from_executor_with_limits,
}
use agent_runtime_sdk.Retained.Capacity.{Call, acquires, disposes, apply_all, client_bounds}
use agent_runtime_sdk.Retained.Turns.{
  Started, Step, start, releases, finishes, step, run, start_turn,
}
use agent_runtime_sdk.Retained.Invariant.{AllFresh, is_working, is_some}
use agent_runtime_sdk.Retained.Exclusive.{IsActive, run_exclusive}
use agent_runtime_sdk.Retained.Admission.{start_turn-terminates, run-disposed, admit-finish}

abbrev runtime : Text
runtime = 114 ∷ []

abbrev input : ℕ → TurnInput
input n = record {
  invocation_id = n ∷ [];
  invocation_kind = turn;
  prompt = 104 ∷ [];
  attachments = [];
  auto_compaction = none;
  interaction_policy = deny;
}

abbrev idle : RuntimeEntry
idle = Entry.new none

-- The first turn's task has released the process and still delivers its last event.
abbrev handing_over : RuntimeEntry
handing_over =
    release (record { invocation_id = 1 ∷ []; signal = 0 }) (some (115 ∷ []))
      (with_turn (input 1) idle)

-- The second turn is admitted by a hand-off before the first one ends; both end.
abbrev handover : List Step
handover =
    start false false (input 1)
    ∷ start false false (input 2)
    ∷ releases 0 (some (115 ∷ []))
    ∷ start true true (input 2)
    ∷ finishes 0 (ok tt)
    ∷ releases 1 none
    ∷ finishes 1 (ok tt)
    ∷ []

handover-AllFresh : AllFresh runtime handover idle
unfolding step admit accept_start refuse with_turn accept release finish owns forget_invocations
    contains list_beq Entry.new
handover-AllFresh = (tt, (tt, (tt, (ground arith, (tt, (tt, (tt, tt)))))))

handing_over-disposed : (mark_disposed handing_over).disposed ≡ true
unfolding mark_disposed
handing_over-disposed = refl

handing_over-recent : contains (1 ∷ []) handing_over.state.recent_invocations ≡ true
unfolding with_turn accept release owns forget_invocations contains list_beq Entry.new
handing_over-recent = refl

handing_over-admits :
    admit runtime true true (input 2) handing_over
    ≡ admitted (with_turn (input 2) handing_over) (some (115 ∷ []))
unfolding admit accept_start with_turn accept release owns forget_invocations contains list_beq
    Entry.new
handing_over-admits = refl

run_exclusive_example :
    let e = run runtime handover idle in
    (length e.executing ≤ 1)
    × All (IsActive e.state.active e.released) e.executing
    × (is_working e.state.status ≡ is_some e.state.active)
run_exclusive_example = run_exclusive runtime none handover handover-AllFresh

-- The executor refuses the hand-off.
abbrev refuses : ℕ → RuntimeEntry → Bool × RuntimeEntry
refuses previous e = (false, e)

start_turn-terminates_example :
    (out : Started) × (start_turn runtime refuses true true 2 (input 2) handing_over ≡ some out)
start_turn-terminates_example =
    start_turn-terminates runtime refuses true true 2 (input 2) handing_over (omega arith)

run-disposed_example :
    let after = run runtime handover (mark_disposed handing_over) in
    (after.disposed ≡ true)
    × (after.next_signal ≡ (mark_disposed handing_over).next_signal)
    × (length after.executing ≤ length (mark_disposed handing_over).executing)
    × (after.state.recent_invocation_order
        ≡ (mark_disposed handing_over).state.recent_invocation_order)
run-disposed_example =
    run-disposed runtime handover (mark_disposed handing_over) handing_over-disposed

admit-finish_example :
    let next = with_turn (input 2) handing_over in
    let previous : Task = record { invocation_id = 1 ∷ []; signal = 0 } in
    ((finish previous (ok tt) next).state ≡ next.state)
    × (get previous.signal (finish previous (ok tt) next).terminal ≡ some (completion_kind (ok tt)))
admit-finish_example =
    admit-finish runtime true true (input 2) handing_over (with_turn (input 2) handing_over)
      (some (115 ∷ [])) (record { invocation_id = 1 ∷ []; signal = 0 }) (ok tt) handing_over-recent
      handing_over-admits

abbrev activities : List (Activity ℕ)
activities =
    emits (compaction_started automatic)
    ∷ emits (other_event 7)
    ∷ emits (compaction_completed automatic)
    ∷ []

abbrev answer : Result RuntimeFailure ℕ
answer = ok 5

abbrev ticks : ℕ → ℕ
ticks n = n

instance abbrev event_eq : PartialEq (RuntimeEvent ℕ ℕ)
event_eq = record { eq = λ a b. false }

task-orderly_example :
    let s = (task ticks true activities answer (new_sink runtime (1 ∷ []) none)).0 in
    Run 0 s.sent
    × ((later : Bool) × (open_after false s.sent ≡ some later) × (IsReceived s → later ≡ false))
    × (IsReceived s
        → (e : EventEnvelope (RuntimeEvent ℕ ℕ)) × (get_last? s.sent ≡ some e)
          × (e.event ≡ last_event answer))
task-orderly_example =
    task-orderly ticks true activities answer runtime (1 ∷ []) none (omega arith)
      (tt, (tt, (tt, tt)))

task-append_all_example :
    let s = (task ticks true activities answer (new_sink runtime (1 ∷ []) none)).0 in
    append_all (new 3) s.sent
    ≡ (tail_of (record { history = s.sent; maximum = 3 }), map (λ _. ok appended) s.sent)
task-append_all_example =
    task-append_all ticks 3 true activities answer runtime (1 ∷ []) none (omega arith)
      (tt, (tt, (tt, tt)))

-- The executor awaits three sends, and the wait of the fourth is dropped.
task-abandoned_example :
    let s =
      (task ticks true
        (activities ++ abandons (other_event 8) ∷ [])
        answer
        (new_sink runtime (1 ∷ []) none)).0 in
    (before : List (EventEnvelope (RuntimeEvent ℕ ℕ))) × (late : List
      (EventEnvelope (RuntimeEvent ℕ ℕ)))
    × (s.sent ≡ before ++ late)
    × Run 0 before
    × ((append_all (new 3) s.sent).1
        ≡ map (λ _. ok appended) before ++ map (gap (length before)) late)
    × ((e : EventEnvelope (RuntimeEvent ℕ ℕ)) × (get_last? late ≡ some e)
        × (e.event ≡ last_event answer))
task-abandoned_example =
    task-abandoned ticks 3 true activities 8 answer runtime (1 ∷ []) (omega arith)
      (tt, (tt, (tt, tt)))

abbrev client : InProcessRuntimeClient
client = record { runtimes = []; max_runtimes = 1 }

abbrev spec : ℕ → RuntimeSpec
spec n = record {
  runtime_id = n ∷ [];
  provider_session_id = none;
  auto_compaction = token_threshold 200000;
}

-- The second runtime is refused until the first is disposed.
abbrev calls : List Call
calls =
    acquires true (spec 1)
    ∷ acquires true (spec 2)
    ∷ disposes (1 ∷ []) true (ok tt)
    ∷ acquires true (spec 2)
    ∷ []

client-made : from_executor_with_limits 1 ≡ ok client
unfolding from_executor_with_limits
client-made = refl

client_bounds_example : (length (apply_all calls client).runtimes ≤ 1) × (0 < 1)
client_bounds_example = client_bounds 1 calls client client-made
