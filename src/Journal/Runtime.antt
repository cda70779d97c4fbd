-- ===== src/Journal/Runtime.antt =====
-- src/journal.rs: `RuntimeJournal`, the invocations of one runtime. The hash map and the hash set
-- stand in the order of insertion; the source never depends on their order.
pub mod Eviction
pub mod Invariant
pub mod Disjoint
pub mod Limits
use agent_runtime_sdk.Prelude.{
  ℕ, suc, ◌≡◌, Bool, true, false, List, [], ◌∷◌, ◌++◌, Option, none, some, Text, text_eq,
  if◌then◌else◌, ltb, eqb, length, not,
}
use agent_runtime_sdk.Prelude.Map.{Map, get, insert, remove, contains_key, contains, discard}
use agent_runtime_sdk.Prelude.Result.{Result, ok, err}
use agent_runtime_sdk.Journal.Types.{
  EventEnvelope, EventJournalError, sequence_gap, sequence_conflict, state_invariant,
  EventAppendOutcome, PartialEq,
}
use agent_runtime_sdk.Journal.Invocation
use agent_runtime_sdk.Journal.Invocation.{InvocationJournal}

pub record RuntimeJournal (P : Type 0) : Type 0 where
  pub invocations : Map Text (InvocationJournal P)
  pub invocation_order : List Text
  pub evicted_invocations : List Text
  pub evicted_order : List Text
  pub max_invocations : ℕ

module _ {P : Type 0} where
  unfoldable pub new : ℕ → RuntimeJournal P
  new max_invocations = record {
    invocations = [];
    invocation_order = [];
    evicted_invocations = [];
    evicted_order = [];
    max_invocations = max_invocations;
  }

  -- One round of the first loop, for the identifier taken off the front.
  unfoldable pub evict : Text → RuntimeJournal P → RuntimeJournal P
  evict expired r =
      let r' = record r { invocations = remove expired r.invocations } in
      if contains expired r.evicted_invocations then r' else record r' {
        evicted_invocations = r.evicted_invocations ++ expired ∷ [];
        evicted_order = r.evicted_order ++ expired ∷ [];
      }

  -- `while self.invocation_order.len() > self.max_invocations`, over the order.
  unfoldable pub evict_invocations : List Text → RuntimeJournal P → RuntimeJournal P
  evict_invocations [] r = record r { invocation_order = [] }
  evict_invocations (expired ∷ rest) r =
      if ltb r.max_invocations (suc (length rest))
      then evict_invocations rest (evict expired r)
      else record r { invocation_order = expired ∷ rest }

  -- `while self.evicted_order.len() > self.max_invocations`, over the order of eviction.
  unfoldable pub forget_evicted : List Text → RuntimeJournal P → RuntimeJournal P
  forget_evicted [] r = record r { evicted_order = [] }
  forget_evicted (expired ∷ rest) r =
      if ltb r.max_invocations (suc (length rest))
      then forget_evicted rest
          (record r { evicted_invocations = discard expired r.evicted_invocations })
      else record r { evicted_order = expired ∷ rest }

  -- The block under `if !self.invocations.contains_key(&invocation_id)`.
  unfoldable pub admit : RuntimeJournal P → Text → ℕ → RuntimeJournal P
  admit r id max_events =
      let added = record r {
        invocations = insert id (Invocation.new max_events) r.invocations;
        invocation_order = r.invocation_order ++ id ∷ [];
      } in
      let evicted = evict_invocations added.invocation_order added in
      forget_evicted evicted.evicted_order evicted

  -- The end of `append`, on the invocation that is there.
  unfoldable pub append_to :
      ⦃q : PartialEq P⦄
      → RuntimeJournal P
      → EventEnvelope P
      → RuntimeJournal P × Result EventJournalError EventAppendOutcome
  append_to r envelope = elim (get envelope.invocation_id r.invocations) [
    | none ↦ (r, err (state_invariant "invocation disappeared before append"))
    | some invocation ↦
        let (invocation', answer) = Invocation.append invocation envelope in
        (record r { invocations = insert envelope.invocation_id invocation' r.invocations }, answer)
  ]

  unfoldable pub append :
      ⦃q : PartialEq P⦄
      → RuntimeJournal P
      → EventEnvelope P
      → ℕ
      → RuntimeJournal P × Result EventJournalError EventAppendOutcome
  append r envelope max_events =
      let id = envelope.invocation_id in
      if contains id r.evicted_invocations
      then (r, err (sequence_conflict envelope.runtime_id id envelope.sequence))
      else if contains_key id r.invocations
      then append_to r envelope
      else if not (eqb envelope.sequence 1)
      then (r, err (sequence_gap envelope.runtime_id id 1 envelope.sequence))
      else append_to (admit r id max_events) envelope
