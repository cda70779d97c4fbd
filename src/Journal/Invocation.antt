-- ===== src/Journal/Invocation.antt =====
-- src/journal.rs: `InvocationJournal`, the bounded tail of one invocation's events.
pub mod Contiguous
pub mod Tail
pub mod Idempotence
use agent_runtime_sdk.Prelude.{
  ℕ, suc, ◌≡◌, refl, Bool, true, false, List, [], ◌∷◌, ◌++◌, Option, none, some, if◌then◌else◌, ltb,
  eqb, length, get_last?, find?,
}
use agent_runtime_sdk.Prelude.Result.{Result, ok, err}
use agent_runtime_sdk.Prelude.Words.{saturating_add, u64_max}
use agent_runtime_sdk.Journal.Types.{
  EventEnvelope, EventJournalError, sequence_gap, sequence_conflict, EventAppendOutcome, appended,
  already_present, PartialEq, envelope_eq,
}

pub record InvocationJournal (P : Type 0) : Type 0 where
  pub events : List (EventEnvelope P)
  pub evicted_through : ℕ
  pub maximum : ℕ

module _ {P : Type 0} where
  unfoldable pub new : ℕ → InvocationJournal P
  new maximum = record { events = []; evicted_through = 0; maximum = maximum }

  unfoldable pub expected : InvocationJournal P → ℕ
  expected s = elim (get_last? s.events) [
    | none ↦ saturating_add u64_max s.evicted_through 1
    | some event ↦ saturating_add u64_max event.sequence 1
  ]

  -- `while self.events.len() > self.maximum`: the events that stay, and `evicted_through`.
  unfoldable pub trim : ℕ → List (EventEnvelope P) → ℕ → List (EventEnvelope P) × ℕ
  trim maximum [] through = ([], through)
  trim maximum (expired ∷ rest) through =
      let next = trim maximum rest expired.sequence in
      if ltb maximum (suc (length rest)) then next else (expired ∷ rest, through)

  unfoldable pub push : InvocationJournal P → EventEnvelope P → InvocationJournal P
  unfolding trim
  push s envelope =
      let (events, through) = trim s.maximum (s.events ++ envelope ∷ []) s.evicted_through in
      record s { events = events; evicted_through = through }

  -- The retained event with this sequence is the envelope itself.
  unfoldable pub is_retained : ⦃q : PartialEq P⦄ → InvocationJournal P → EventEnvelope P → Bool
  is_retained s envelope = elim (find? (λ event. eqb event.sequence envelope.sequence) s.events) [
    | none ↦ false
    | some event ↦ envelope_eq event envelope
  ]

  unfoldable pub append :
      ⦃q : PartialEq P⦄
      → InvocationJournal P
      → EventEnvelope P
      → InvocationJournal P × Result EventJournalError EventAppendOutcome
  append s envelope =
      if ltb envelope.sequence (expected s)
      then if is_retained s envelope then (s, ok already_present) else (
        s,
        err (sequence_conflict envelope.runtime_id envelope.invocation_id envelope.sequence),
      )
      else if ltb (expected s) envelope.sequence
      then (
        s,
        err (
            sequence_gap envelope.runtime_id envelope.invocation_id (expected s) envelope.sequence),
      )
      else (push s envelope, ok appended)
