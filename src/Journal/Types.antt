-- ===== src/Journal/Types.antt =====
-- src/journal.rs: limits, errors, outcomes and batches; src/retained.rs: the event envelope.
use Prim.Native.String.{String}
use agent_runtime_sdk.Prelude.{ℕ, Bool, ◌&&◌, List, Option, Text, text_eq, eqb, ◌==◌}
use agent_runtime_sdk.Prelude.Map.{Map}

pub record EventJournalLimits : Type 0 where
  pub max_runtimes : ℕ
  pub max_invocations_per_runtime : ℕ
  pub max_events_per_invocation : ℕ
  pub max_replay_events : ℕ

abbrev pub default_limits : EventJournalLimits
default_limits = record {
  max_runtimes = 128;
  max_invocations_per_runtime = 256;
  max_events_per_invocation = 4_096;
  max_replay_events = 2_048;
}

pub data EventJournalError : Type 0 where
  invalid_limit : String → EventJournalError
  unsupported_schema : ℕ → EventJournalError
  -- runtime, invocation, expected, actual
  sequence_gap : Text → Text → ℕ → ℕ → EventJournalError
  -- runtime, invocation, sequence
  sequence_conflict : Text → Text → ℕ → EventJournalError
  -- runtime, invocation, earliest available
  replay_window_expired : Text → Text → ℕ → EventJournalError
  -- maximum, actual
  invalid_replay_limit : ℕ → ℕ → EventJournalError
  state_invariant : String → EventJournalError

pub data EventAppendOutcome : Type 0 where
  appended already_present : EventAppendOutcome

-- Rust's `PartialEq`, which the payloads derive: no law is assumed of it.
pub record PartialEq {ℓ} (A : Type ℓ) : Type ℓ where
  pub eq : A → A → Bool

-- The payload is read by `==` only, so its type is a parameter.
pub record EventEnvelope (P : Type 0) : Type 0 where
  pub schema_version : ℕ  -- u16
  pub runtime_id : Text
  pub invocation_id : Text
  pub sequence : ℕ  -- u64
  pub observed_at_unix_ms : ℕ  -- u64
  pub event : P

abbrev pub envelope_eq : {P : Type 0} ⦃q : PartialEq P⦄ → EventEnvelope P → EventEnvelope P → Bool
envelope_eq ⦃q⦄ a b =
    eqb a.schema_version b.schema_version
    && a.runtime_id == b.runtime_id
    && a.invocation_id == b.invocation_id
    && eqb a.sequence b.sequence
    && eqb a.observed_at_unix_ms b.observed_at_unix_ms
    && q.eq a.event b.event

pub record EventReplayRequest : Type 0 where
  pub runtime_id : Text
  pub after : Map Text ℕ
  pub only_invocations : Option (List Text)
  pub limit : ℕ

pub record EventReplayBatch (P : Type 0) : Type 0 where
  pub events : List (EventEnvelope P)
  pub next : Map Text ℕ
  pub truncated : Bool
