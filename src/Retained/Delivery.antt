-- ===== src/Retained/Delivery.antt =====
-- src/retained.rs: the events of a whole turn, and src/journal.rs: their journal.
use mathlib.Core.List.{append_assoc, append-nil}
use agent_runtime_sdk.Prelude.{
  length-snoc, ℕ, ◌+◌, ◌≤◌, ◌≡◌, refl, ap, ◌∙◌, List, [], ◌∷◌, ◌++◌, map, Bool, false, some, All,
  Option, Text, length, get_last?, arith, text_eq,
}
use agent_runtime_sdk.Prelude.Result.{Result, ok}
use agent_runtime_sdk.Prelude.Words.{u64_max}
use agent_runtime_sdk.Journal.Types.{
  EventEnvelope, EventJournalError, EventAppendOutcome, appended, PartialEq,
}
use agent_runtime_sdk.Journal.Invocation.{new}
use agent_runtime_sdk.Journal.Invocation.Contiguous.{Run}
use agent_runtime_sdk.Journal.Invocation.Tail.{
  Log, log_append, log_append_all, append_all, tail_of, append_all-refines,
}
use agent_runtime_sdk.Retained.Types.{RuntimeFailure}
use agent_runtime_sdk.Retained.Sink.{RuntimeEvent, Activity, task, new_sink}
use agent_runtime_sdk.Retained.Numbering.{open_after, IsReceived}
use agent_runtime_sdk.Retained.TaskEvents.{last_event, IsEmitted, new_sink-Tracked, task-Closes}

module _ {P : Type 0} where
  -- Appends of a run to a history that ends where the run starts are all accepted.
  log_append_all-Run :
      ⦃q : PartialEq P⦄ (log : Log P) (events : List (EventEnvelope P))
      → Run (length log.history) events
      → log_append_all log events
        ≡ (record log { history = log.history ++ events }, map (λ _. ok appended) events)
  unfolding log_append_all log_append
  log_append_all-Run log [] run = rw (append-nil log.history) refl
  log_append_all-Run log (e ∷ events) run =
      let log' : Log P = record log { history = log.history ++ e ∷ [] } in
      let added : log_append log e ≡ (log', ok appended) = ground (arith, run.0) in
      let rest = log_append_all-Run log' events (rw (length-snoc log.history e) run.1) in
      rw (added, rest) (rw (append_assoc log.history (e ∷ []) events) refl)

module _ {O R : Type 0} (clock : ℕ → ℕ) where
  -- The events that a turn's task sends, for any events of an executor that awaits each of its sends to the end, any result, and any
  -- event at which the receiver is found dropped, those of the announcement and of the end included, with fewer events
  -- than a u64 can number: they are numbered from one with no gap; no compaction starts while another is
  -- open; and if the receiver is there for the last number, no compaction is left open and the
  -- last event is the result of the turn.
  pub task-orderly :
      (manual_compaction : Bool) (activities : List (Activity O)) (result : Result RuntimeFailure R)
      (runtime_id invocation_id : Text) (dropped_at : Option ℕ)
      → length activities + 4 ≤ u64_max
      → All IsEmitted activities
      → let s =
          (task clock manual_compaction activities result
            (new_sink runtime_id invocation_id dropped_at)).0 in
        Run 0 s.sent
        × ((later : Bool) × (open_after false s.sent ≡ some later) × (IsReceived s → later ≡ false))
        × (IsReceived s
            → (e : EventEnvelope (RuntimeEvent O R)) × (get_last? s.sent ≡ some e)
              × (e.event ≡ last_event result))
  unfolding new_sink
  task-orderly manual_compaction activities result runtime_id invocation_id dropped_at few awaited =
      let start = new_sink {O = O} {R = R} runtime_id invocation_id dropped_at in
      let (orderly, small, last) =
        task-Closes clock manual_compaction activities result start
          (new_sink-Tracked runtime_id invocation_id dropped_at) (omega (arith, few)) awaited in
      (orderly.numbered, orderly.balanced, last)

  -- A new journal of an invocation takes every event that the task of the invocation's turn sends, in the order sent, when the
  -- executor awaits each of its sends to the end: it answers each time that the event was appended, and ends
  -- as the tail of all of them.
  pub task-append_all :
      ⦃q : PartialEq (RuntimeEvent O R)⦄ (maximum : ℕ) (manual_compaction : Bool)
      (activities : List (Activity O)) (result : Result RuntimeFailure R)
      (runtime_id invocation_id : Text) (dropped_at : Option ℕ)
      → length activities + 4 ≤ u64_max
      → All IsEmitted activities
      → let s =
          (task clock manual_compaction activities result
            (new_sink runtime_id invocation_id dropped_at)).0 in
        append_all (new maximum) s.sent
        ≡ (tail_of (record { history = s.sent; maximum = maximum }), map (λ _. ok appended) s.sent)
  unfolding new_sink
  task-append_all maximum manual_compaction activities result runtime_id invocation_id dropped_at
        few awaited =
      let start = new_sink {O = O} {R = R} runtime_id invocation_id dropped_at in
      let s = (task clock manual_compaction activities result start).0 in
      let (orderly, small, last) =
        task-Closes clock manual_compaction activities result start
          (new_sink-Tracked runtime_id invocation_id dropped_at) (omega (arith, few)) awaited in
      let log : Log (RuntimeEvent O R) = record { history = []; maximum = maximum } in
      append_all-refines maximum s.sent (omega (arith, orderly.within, small))
      ∙ ap
          (λ (spec : Log (RuntimeEvent O R) × List (Result EventJournalError EventAppendOutcome)).
            (tail_of spec.0, spec.1))
          (log_append_all-Run log s.sent orderly.numbered)
