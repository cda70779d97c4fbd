-- ===== src/Retained/Sink.antt =====
-- src/retained.rs: `RuntimeEvent`, `ChannelEventSink`, and the events of a turn's task.
-- A sink's channel is what was sent on it, and the number of the first event that finds its receiver dropped, if it
-- is ever dropped. The channel is bounded: a send waits for room, and the wait ends when there is room, when the receiver is
-- dropped, or when the executor drops its own wait, as the timeout of a turn does. The number is taken before the wait. A turn
-- emits one event at a time. Other events of a provider, its results and the clock are parameters.
use agent_runtime_sdk.Prelude.{
  ℕ, ◌+◌, ◌%◌, Text, Bool, true, false, Option, none, some, List, [], ◌∷◌, ◌++◌, if◌then◌else◌,
  text_eq, ltb,
}
use agent_runtime_sdk.Prelude.Result.{Result, ok, err, map_err, ◌>>◌}
use agent_runtime_sdk.Prelude.Words.{u64_max}
use agent_runtime_sdk.Journal.Types.{EventEnvelope}
use agent_runtime_sdk.Retained.Types.{
  RuntimeFailure, Message, finished_unconfirmed, ended_unconfirmed, indeterminate,
  requires_user_action, accepted, lifecycle_failure,
}

pub data CompactionTrigger : Type 0 where
  automatic manual unknown : CompactionTrigger

-- The events that the sink looks at; a completed compaction comes without its counts of tokens.
pub data TurnEvent (O : Type 0) : Type 0 where
  session_started : Text → TurnEvent O
  compaction_started compaction_completed : CompactionTrigger → TurnEvent O
  compaction_failed : CompactionTrigger → Option Message → TurnEvent O
  other_event : O → TurnEvent O

pub data RuntimeEvent (O R : Type 0) : Type 0 where
  invocation_started : RuntimeEvent O R
  provider_event : TurnEvent O → RuntimeEvent O R
  invocation_completed : R → RuntimeEvent O R
  invocation_failed : RuntimeFailure → RuntimeEvent O R

pub record ChannelEventSink (O R : Type 0) : Type 0 where
  pub runtime_id : Text
  pub invocation_id : Text
  pub sequence : ℕ
  pub sent : List (EventEnvelope (RuntimeEvent O R))
  pub dropped_at : Option ℕ
  pub announced_session_id : Option Text
  pub compaction_open : Option CompactionTrigger

-- `RuntimeError::EventSink`.
pub data EventSinkError : Type 0 where
  receiver_dropped : EventSinkError

abbrev pub Emitted : Type 0 → Type 0 → Type 0
Emitted O R = ChannelEventSink O R × Result EventSinkError (Unit {0})

-- What the executor does with the sink: an event that it emits, or one whose wait for room it drops.
pub data Activity (O : Type 0) : Type 0 where
  emits : TurnEvent O → Activity O
  abandons : TurnEvent O → Activity O

-- Whether the receiver is there for the event with this number.
abbrev pub receives : Option ℕ → ℕ → Bool
receives none number = true
receives (some first) number = ltb number first

-- `runtime_error_to_failure` of `RuntimeError::EventSink`.
unfoldable pub event_sink_failure : Text → Text → RuntimeFailure
unfolding lifecycle_failure
event_sink_failure runtime_id invocation_id =
    lifecycle_failure (some runtime_id) (some invocation_id) indeterminate requires_user_action
      accepted

module _ {O R : Type 0} where
  unfoldable pub new_sink : Text → Text → Option ℕ → ChannelEventSink O R
  new_sink runtime_id invocation_id dropped_at = record {
    runtime_id = runtime_id;
    invocation_id = invocation_id;
    sequence = 0;
    sent = [];
    dropped_at = dropped_at;
    announced_session_id = none;
    compaction_open = none;
  }

module _ {O R : Type 0} (clock : ℕ → ℕ) where
  -- The envelope of an event, with the number that `fetch_add` gives it.
  unfoldable pub stamp : RuntimeEvent O R → ChannelEventSink O R → EventEnvelope (RuntimeEvent O R)
  stamp event s =
      let number = (s.sequence + 1) % (u64_max + 1) in
      record {
        schema_version = 1;
        runtime_id = s.runtime_id;
        invocation_id = s.invocation_id;
        sequence = number;
        observed_at_unix_ms = clock number;
        event = event;
      }

  unfoldable pub emit_runtime : RuntimeEvent O R → ChannelEventSink O R → Emitted O R
  emit_runtime event s =
      let envelope = stamp event s in
      let counted : ChannelEventSink O R = record s { sequence = envelope.sequence } in
      if receives s.dropped_at envelope.sequence
      then (record counted { sent = s.sent ++ envelope ∷ [] }, ok tt)
      else (counted, err receiver_dropped)

  unfoldable pub emit : TurnEvent O → ChannelEventSink O R → Emitted O R
  emit (session_started id) s =
      emit_runtime (provider_event (session_started id))
        (record s { announced_session_id = some id })
  emit (compaction_started trigger) s = elim s.compaction_open [
    | some earlier ↦ (s, ok tt)
    | none ↦
        emit_runtime (provider_event (compaction_started trigger))
          (record s { compaction_open = some trigger })
  ]
  emit (compaction_completed trigger) s =
      emit_runtime (provider_event (compaction_completed trigger))
        (record s { compaction_open = none })
  emit (compaction_failed trigger message) s =
      emit_runtime (provider_event (compaction_failed trigger message))
        (record s { compaction_open = none })
  emit (other_event event) s = emit_runtime (provider_event (other_event event)) s

  -- An `emit` whose wait for room is dropped: what it changes it has changed before, but nothing is sent.
  unfoldable pub abandon : TurnEvent O → ChannelEventSink O R → ChannelEventSink O R
  abandon event s = record (emit event s).0 { sent = s.sent }

  unfoldable pub close_open_compaction : Bool → ChannelEventSink O R → Emitted O R
  close_open_compaction succeeded s = elim s.compaction_open [
    | none ↦ (s, ok tt)
    | some trigger ↦
        let message = if succeeded then finished_unconfirmed else ended_unconfirmed in
        emit_runtime (provider_event (compaction_failed trigger (some message)))
          (record s { compaction_open = none })
  ]

  -- The announcement of a turn, and of its compaction if it is a manual one.
  unfoldable pub announce : Bool → ChannelEventSink O R → Emitted O R
  announce manual_compaction s =
      let started = emit_runtime invocation_started s in
      elim started.1 [
        | err e ↦ (started.0, err e)
        | ok _ ↦
            if manual_compaction
            then emit (compaction_started manual) started.0
            else (started.0, ok tt)
      ]

  unfoldable pub perform : List (Activity O) → ChannelEventSink O R → ChannelEventSink O R
  perform [] s = s
  perform (emits event ∷ activities) s = perform activities (emit event s).0
  perform (abandons event ∷ activities) s = perform activities (abandon event s)

  -- The end of a turn's task: what its result is once the last event is sent.
  unfoldable pub conclude :
      Result RuntimeFailure R
      → ChannelEventSink O R
      → ChannelEventSink O R × Result RuntimeFailure R
  unfolding event_sink_failure
  conclude (ok turn) s =
      let closed = close_open_compaction true s in
      let last = emit_runtime (invocation_completed turn) closed.0 in
      (last.0, map_err (λ _. event_sink_failure s.runtime_id s.invocation_id) (last.1 >> ok turn))
  conclude (err failure) s =
      let closed = close_open_compaction false s in
      let last = emit_runtime (invocation_failed failure) closed.0 in (last.0, err failure)

  -- The task of a turn, from the announcement to the last event: the executor does these activities and returns this
  -- result, if the announcement can be sent.
  unfoldable pub task :
      Bool
      → List (Activity O)
      → Result RuntimeFailure R
      → ChannelEventSink O R
      → ChannelEventSink O R × Result RuntimeFailure R
  unfolding event_sink_failure
  task manual_compaction activities result s =
      let announced = announce manual_compaction s in
      elim announced.1 [
        | err e ↦ conclude (err (event_sink_failure s.runtime_id s.invocation_id)) announced.0
        | ok _ ↦ conclude result (perform activities announced.0)
      ]
