-- ===== src/Journal/Store.antt =====
-- src/journal.rs: `InMemoryEventJournal`, every runtime's journal behind one lock.
pub mod Bounds
pub mod Runs
pub mod Rejected
use Prim.Native.String.{String}
use agent_runtime_sdk.Prelude.{
  ℕ, suc, ◌≡◌, Bool, true, false, ◌||◌, List, [], ◌∷◌, ◌++◌, Option, none, some, Text, text_eq,
  if◌then◌else◌, ltb, eqb, length, not,
}
use agent_runtime_sdk.Prelude.Map.{Map, get, insert, remove, contains_key, discard}
use agent_runtime_sdk.Prelude.Result.{Result, ok, err}
use agent_runtime_sdk.Journal.Types.{
  EventJournalLimits, default_limits, EventEnvelope, EventJournalError, invalid_limit,
  unsupported_schema, invalid_replay_limit, state_invariant, EventAppendOutcome, PartialEq,
  EventReplayRequest, EventReplayBatch,
}
use agent_runtime_sdk.Journal.Replay
use agent_runtime_sdk.Journal.Runtime
use agent_runtime_sdk.Journal.Runtime.{RuntimeJournal}

-- `InMemoryEventJournal` with the `JournalState` that its lock guards.
pub record EventJournal (P : Type 0) : Type 0 where
  pub limits : EventJournalLimits
  pub runtimes : Map Text (RuntimeJournal P)
  pub runtime_order : List Text

module _ {P : Type 0} where
  abbrev pub with_limits : EventJournalLimits → EventJournal P
  with_limits limits = record { limits = limits; runtimes = []; runtime_order = [] }

  -- `new`: the first limit that is zero is refused.
  unfoldable pub new : EventJournalLimits → Result EventJournalError (EventJournal P)
  new limits =
      if eqb limits.max_runtimes 0
      then err (invalid_limit "max_runtimes")
      else if eqb limits.max_invocations_per_runtime 0
      then err (invalid_limit "max_invocations_per_runtime")
      else if eqb limits.max_events_per_invocation 0
      then err (invalid_limit "max_events_per_invocation")
      else if eqb limits.max_replay_events 0
      then err (invalid_limit "max_replay_events")
      else ok (with_limits limits)

  -- `while state.runtime_order.len() > self.limits.max_runtimes`, over the order.
  unfoldable pub evict_runtimes : List Text → EventJournal P → EventJournal P
  evict_runtimes [] j = record j { runtime_order = [] }
  evict_runtimes (expired ∷ rest) j =
      if ltb j.limits.max_runtimes (suc (length rest))
      then evict_runtimes rest (record j { runtimes = remove expired j.runtimes })
      else record j { runtime_order = expired ∷ rest }

  -- The block under `if !state.runtimes.contains_key(&envelope.runtime_id)`.
  unfoldable pub admit : EventJournal P → Text → EventJournal P
  admit j id =
      let added = record j {
        runtimes = insert id (Runtime.new j.limits.max_invocations_per_runtime) j.runtimes;
        runtime_order = j.runtime_order ++ id ∷ [];
      } in
      evict_runtimes added.runtime_order added

  unfoldable pub append_to :
      ⦃q : PartialEq P⦄
      → EventJournal P
      → EventEnvelope P
      → EventJournal P × Result EventJournalError EventAppendOutcome
  append_to j envelope = elim (get envelope.runtime_id j.runtimes) [
    | none ↦ (j, err (state_invariant "runtime disappeared before append"))
    | some runtime ↦
        let (runtime', answer) =
          Runtime.append runtime envelope j.limits.max_events_per_invocation in
        (record j { runtimes = insert envelope.runtime_id runtime' j.runtimes }, answer)
  ]

  unfoldable pub append :
      ⦃q : PartialEq P⦄
      → EventJournal P
      → EventEnvelope P
      → EventJournal P × Result EventJournalError EventAppendOutcome
  append j envelope =
      if not (eqb envelope.schema_version 1)
      then (j, err (unsupported_schema envelope.schema_version))
      else if contains_key envelope.runtime_id j.runtimes
      then append_to j envelope
      else append_to (admit j envelope.runtime_id) envelope

  unfoldable pub replay :
      EventJournal P → EventReplayRequest → Result EventJournalError (EventReplayBatch P)
  replay j request =
      if eqb request.limit 0 || ltb j.limits.max_replay_events request.limit
      then err (invalid_replay_limit j.limits.max_replay_events request.limit)
      else elim (get request.runtime_id j.runtimes) [
        | none ↦ ok (record { events = []; next = request.after; truncated = false })
        | some runtime ↦ Replay.replay runtime request j.limits.max_replay_events
      ]

  unfoldable pub remove_runtime : EventJournal P → Text → EventJournal P
  remove_runtime j id = record j {
    runtimes = remove id j.runtimes;
    runtime_order = discard id j.runtime_order;
  }
