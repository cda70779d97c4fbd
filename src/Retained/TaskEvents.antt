-- ===== src/Retained/TaskEvents.antt =====
-- src/retained.rs: the events of the parts of a turn's task.
use agent_runtime_sdk.Prelude.{
  ℕ, ◌+◌, ◌≤◌, ◌<◌, ◌≡◌, refl, ap, subst, ◌∙◌, List, [], ◌∷◌, Bool, true, false, none, some,
  Option-cases, if◌then◌else◌, All, Option, Text, length, get_last?, get_last?-snoc, Bool-cases,
  inl, inr, arith, text_eq,
}
use agent_runtime_sdk.Prelude.Result.{Result, ok, err, Result-cases}
use agent_runtime_sdk.Prelude.Words.{u64_max}
use agent_runtime_sdk.Journal.Types.{EventEnvelope}
use agent_runtime_sdk.Retained.Invariant.{is_some}
use agent_runtime_sdk.Retained.Types.{RuntimeFailure, finished_unconfirmed, ended_unconfirmed}
use agent_runtime_sdk.Retained.Sink.{
  RuntimeEvent, invocation_started, invocation_completed, invocation_failed, manual,
  compaction_started, compaction_failed, provider_event, ChannelEventSink, stamp, emit_runtime,
  emit, close_open_compaction, announce, Activity, emits, abandons, perform, EventSinkError,
  event_sink_failure, receives, conclude, task, new_sink,
}
use agent_runtime_sdk.Retained.Numbering.{
  next, Orderly, Tracked, IsReceived, receives-earlier, emit_runtime-Follows, stamp_lem,
  emit_runtime-sent, emit_runtime-count, emit-Follows, close_open_compaction-Follows,
}

-- An activity whose send is awaited to its end.
abbrev pub IsEmitted : {O : Type 0} → Activity O → Type 0
IsEmitted (emits event) = Unit
IsEmitted (abandons event) = ⊥

module _ {O R : Type 0} where
  -- The last event of a task.
  abbrev pub last_event : Result RuntimeFailure R → RuntimeEvent O R
  last_event (ok turn) = invocation_completed turn
  last_event (err failure) = invocation_failed failure

  pub new_sink-Tracked :
      (runtime_id invocation_id : Text) (dropped_at : Option ℕ)
      → Tracked {O = O} {R = R} (new_sink runtime_id invocation_id dropped_at)
  unfolding new_sink
  new_sink-Tracked runtime_id invocation_id dropped_at = record {
    numbered = tt;
    all_sent = λ _. refl;
    within = omega arith;
    balanced = (false, refl, λ _. refl);
  }

module _ {O R : Type 0} (clock : ℕ → ℕ) where
  pub perform-Tracked :
      (activities : List (Activity O)) (s : ChannelEventSink O R)
      → Tracked s
      → s.sequence + length activities ≤ u64_max
      → All IsEmitted activities
      → Tracked (perform clock activities s)
        × ((perform clock activities s).sequence ≤ s.sequence + length activities)
  unfolding perform
  perform-Tracked [] s o few awaited = (o, omega arith)
  perform-Tracked (emits event ∷ activities) s o few (here, awaited) =
      let (tracked, count) = emit-Follows clock event s o (omega arith) in
      let rest =
        perform-Tracked activities (emit clock event s).0 tracked (omega (arith, count)) awaited in
      (rest.0, omega (arith, rest.1, count))
  perform-Tracked (abandons event ∷ activities) s o few (here, awaited) = absurd here

  pub announce-Tracked :
      (manual_compaction : Bool) (s : ChannelEventSink O R)
      → Tracked s
      → s.sequence + 2 ≤ u64_max
      → Tracked (announce clock manual_compaction s).0
        × ((announce clock manual_compaction s).0.sequence ≤ s.sequence + 2)
  unfolding announce
  announce-Tracked manual_compaction s o few =
      let started = emit_runtime clock invocation_started s in
      let (tracked, count) =
        emit_runtime-Follows clock (is_some s.compaction_open) invocation_started s o refl
          (omega arith) in
      elim (Result-cases started.1) [
        | inl (e, failed) ↦ rw (failed, announce) (tracked, omega (arith, count))
        | inr sent ↦ elim (Bool-cases manual_compaction) [
          | inr ordinary ↦ rw (sent, ordinary, announce) (tracked, omega (arith, count))
          | inl compacts ↦
              let (begun, counted) =
                emit-Follows clock (compaction_started manual) started.0 tracked
                  (omega (arith, count)) in
              rw (sent, compacts, announce) (begun, omega (arith, count, counted))
        ]
      ]

  next-last :
      (s : ChannelEventSink O R) (held : Bool) (result : Result RuntimeFailure R)
      → next {O = O} held (last_event result) ≡ some held
  next-last s held (ok turn) = refl
  next-last s held (err failure) = refl

  -- The last event, once no compaction is open.
  abbrev pub Closes : Result RuntimeFailure R → ChannelEventSink O R → Type 0
  Closes result s =
      Orderly false s
      × (s.sequence ≤ u64_max)
      × (IsReceived s
          → (e : EventEnvelope (RuntimeEvent O R)) × (get_last? s.sent ≡ some e)
            × (e.event ≡ last_event result))

  received_stamp :
      (event : RuntimeEvent O R) (s : ChannelEventSink O R)
      → s.sequence < u64_max
      → IsReceived (emit_runtime clock event s).0
      → receives s.dropped_at (stamp clock event s).sequence ≡ true
  received_stamp event s few there =
      let (number, opened, same) = emit_runtime-count clock event s few in
      let stamped = (stamp_lem clock event s few).0 in cc

  close-last :
      (s : ChannelEventSink O R) (result : Result RuntimeFailure R)
      → Tracked s
      → s.compaction_open ≡ none
      → s.sequence < u64_max
      → Closes result (emit_runtime clock (last_event result) s).0
  close-last s result o shut few =
      let event = last_event result in
      let (tracked, count) =
        emit_runtime-Follows clock (is_some s.compaction_open) event s o
          (next-last s (is_some s.compaction_open) result) few in
      let (number, opened, same) = emit_runtime-count clock event s few in
      (
        subst (λ c. Orderly (is_some c) (emit_runtime clock event s).0) (opened ∙ shut) tracked,
        omega (arith, number),
        λ there. (
          stamp clock event s,
          ap get_last? (emit_runtime-sent clock event s (received_stamp event s few there))
              ∙ get_last?-snoc s.sent (stamp clock event s),
          (stamp_lem clock event s few).1,
        ),
      )

  conclude-Tracked :
      (result : Result RuntimeFailure R) (s : ChannelEventSink O R)
      → Tracked s
      → s.sequence + 2 ≤ u64_max
      → Closes result (conclude clock result s).0
  unfolding conclude
  conclude-Tracked (ok turn) s o few =
      let ((tracked, count), shut) = close_open_compaction-Follows clock true s o (omega arith) in
      close-last (close_open_compaction clock true s).0 (ok turn) tracked shut
        (omega (arith, count))
  conclude-Tracked (err failure) s o few =
      let ((tracked, count), shut) = close_open_compaction-Follows clock false s o (omega arith) in
      close-last (close_open_compaction clock false s).0 (err failure) tracked shut
        (omega (arith, count))

  emit_runtime_failed :
      (event : RuntimeEvent O R) (s : ChannelEventSink O R) (e : EventSinkError)
      → (emit_runtime clock event s).1 ≡ err e
      → ¬ IsReceived (emit_runtime clock event s).0
  unfolding emit_runtime
  emit_runtime_failed event s e failed there = ground arith

  announce_failed :
      (manual_compaction : Bool) (s : ChannelEventSink O R) (e : EventSinkError)
      → (announce clock manual_compaction s).1 ≡ err e
      → ¬ IsReceived (announce clock manual_compaction s).0
  unfolding announce emit emit_runtime
  announce_failed manual_compaction s e failed there = ground arith

  emit_runtime-earlier :
      (event : RuntimeEvent O R) (s : ChannelEventSink O R)
      → s.sequence < u64_max
      → IsReceived (emit_runtime clock event s).0
      → IsReceived s
  emit_runtime-earlier event s few there =
      let numbered = (stamp_lem clock event s few).0 in
      receives-earlier s.dropped_at s.sequence
        (let stamped = received_stamp event s few there in cc)

  close_open_compaction-earlier :
      (succeeded : Bool) (s : ChannelEventSink O R)
      → s.sequence < u64_max
      → IsReceived (close_open_compaction clock succeeded s).0
      → IsReceived s
  unfolding close_open_compaction
  close_open_compaction-earlier succeeded s few there = elim (Option-cases s.compaction_open) [
    | inl closed ↦
        let same : close_open_compaction clock succeeded s ≡ (s, ok tt) = ground arith in
        rw same at there
    | inr (trigger, opened) ↦
        let message = if succeeded then finished_unconfirmed else ended_unconfirmed in
        let event : RuntimeEvent O R = provider_event (compaction_failed trigger (some message)) in
        let shut : ChannelEventSink O R = record s { compaction_open = none } in
        let same : close_open_compaction clock succeeded s ≡ emit_runtime clock event shut =
          ground arith in
        emit_runtime-earlier event shut few (rw same at there)
  ]

  conclude_failed :
      (failure : RuntimeFailure) (s : ChannelEventSink O R)
      → Tracked s
      → s.sequence + 2 ≤ u64_max
      → IsReceived (conclude clock (err failure) s).0
      → IsReceived s
  unfolding conclude
  conclude_failed failure s o few there =
      let ((tracked, count), shut) = close_open_compaction-Follows clock false s o (omega arith) in
      close_open_compaction-earlier false s (omega arith) (
        emit_runtime-earlier (invocation_failed failure) (close_open_compaction clock false s).0
          (omega (arith, count)) there)

  pub task-Closes :
      (manual_compaction : Bool) (activities : List (Activity O)) (result : Result RuntimeFailure R)
      (s : ChannelEventSink O R)
      → Tracked s
      → s.sequence + length activities + 4 ≤ u64_max
      → All IsEmitted activities
      → Closes result (task clock manual_compaction activities result s).0
  unfolding task
  task-Closes manual_compaction activities result s o few awaited =
      let announced = announce clock manual_compaction s in
      let (tracked, count) = announce-Tracked manual_compaction s o (omega arith) in
      elim (Result-cases announced.1) [
        | inl (e, failed) ↦
            let failure = event_sink_failure s.runtime_id s.invocation_id in
            let fits : announced.0.sequence + 2 ≤ u64_max = omega (arith, count) in
            let (orderly, small, last) = conclude-Tracked (err failure) announced.0 tracked fits in
            rw (failed, task)
              (
                orderly,
                small,
                λ there. absurd (
                    announce_failed manual_compaction s e failed
                      (conclude_failed failure announced.0 tracked fits there)),
              )
        | inr sent ↦
            let (performed, counted) =
              perform-Tracked activities announced.0 tracked (omega (arith, count)) awaited in
            let last =
              conclude-Tracked result (perform clock activities announced.0) performed
                (omega (arith, count, counted)) in
            rw (sent, task) last
      ]
