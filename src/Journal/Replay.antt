-- ===== src/Journal/Replay.antt =====
-- src/journal.rs: `RuntimeJournal::replay`, the events of one runtime after a set of cursors.
pub mod Order
pub mod Cursors
pub mod Pages
pub mod Drain
pub mod Skew
use Prim.Native.Nat.{compare, Ordering}
use agent_runtime_sdk.Prelude.{
  ℕ, ◌≡◌, Bool, true, false, List, [], ◌∷◌, ◌++◌, Option, none, some, Text, text_eq, if◌then◌else◌,
  ltb, length, take, select, min,
}
use agent_runtime_sdk.Prelude.Map.{Map, get, contains}
use agent_runtime_sdk.Prelude.Order.{then_with, text_cmp, btree_insert}
use agent_runtime_sdk.Prelude.Result.{Result, ok, err}
use agent_runtime_sdk.Prelude.Sorting.{sort_by}
use agent_runtime_sdk.Prelude.Words.{saturating_add, u64_max}
use agent_runtime_sdk.Journal.Types.{
  EventEnvelope, EventJournalError, replay_window_expired, EventReplayRequest, EventReplayBatch,
}
use agent_runtime_sdk.Journal.Invocation.{InvocationJournal}
use agent_runtime_sdk.Journal.Runtime.{RuntimeJournal}

-- `after.get(id).copied().unwrap_or(0)`.
abbrev pub cursor_of : Map Text ℕ → Text → ℕ
cursor_of after id = elim (get id after) [ none ↦ 0 | some cursor ↦ cursor ]

-- `only_invocations.is_none_or(|selected| selected.contains(id))`.
abbrev pub is_selected : Option (List Text) → Text → Bool
is_selected none id = true
is_selected (some selected) id = contains id selected

module _ {P : Type 0} where
  -- The loop over `request.after`: the first cursor that retained data no longer covers.
  unfoldable pub check_cursors : Text → RuntimeJournal P → Map Text ℕ → Option EventJournalError
  check_cursors runtime_id r [] = none
  check_cursors runtime_id r ((id, cursor) ∷ rest) =
      let later = check_cursors runtime_id r rest in
      if contains id r.evicted_invocations
      then some (replay_window_expired runtime_id id (saturating_add u64_max cursor 1))
      else elim (get id r.invocations) [
        | none ↦ later
        | some invocation ↦
            if ltb cursor invocation.evicted_through
            then some (
                replay_window_expired runtime_id id
                  (saturating_add u64_max invocation.evicted_through 1))
            else later
      ]

  -- The events of the selected invocations, one invocation after the other.
  unfoldable pub flat_events :
      Option (List Text) → Map Text (InvocationJournal P) → List (EventEnvelope P)
  flat_events only [] = []
  flat_events only ((id, invocation) ∷ rest) =
      if is_selected only id
      then invocation.events ++ flat_events only rest
      else flat_events only rest

  abbrev pub is_after : Map Text ℕ → EventEnvelope P → Bool
  is_after after event = ltb (cursor_of after event.invocation_id) event.sequence

  abbrev pub event_cmp : EventEnvelope P → EventEnvelope P → Ordering
  event_cmp a b =
      then_with (compare a.observed_at_unix_ms b.observed_at_unix_ms)
        (then_with (text_cmp a.invocation_id b.invocation_id) (compare a.sequence b.sequence))

  abbrev pub event_le : EventEnvelope P → EventEnvelope P → Bool
  event_le a b = elim (event_cmp a b) [ Ordering.gt ↦ false | _ ↦ true ]

  -- Every retained event that the request asks for, in the order of replay.
  unfoldable pub pending :
      RuntimeJournal P → Option (List Text) → Map Text ℕ → List (EventEnvelope P)
  unfolding flat_events
  pending r only after = sort_by event_le (select (is_after after) (flat_events only r.invocations))

  -- The loop that moves the cursors past the events of the batch.
  unfoldable pub advance : Map Text ℕ → List (EventEnvelope P) → Map Text ℕ
  advance next [] = next
  advance next (event ∷ rest) = advance (btree_insert event.invocation_id event.sequence next) rest

  unfoldable pub replay :
      RuntimeJournal P → EventReplayRequest → ℕ → Result EventJournalError (EventReplayBatch P)
  replay r request maximum = elim (check_cursors request.runtime_id r request.after) [
    | some expired ↦ err expired
    | none ↦
        let events = pending r request.only_invocations request.after in
        let batch = take (min request.limit maximum) events in
        ok (record {
          events = batch;
          next = advance request.after batch;
          truncated = ltb request.limit (length events);
        })
  ]
