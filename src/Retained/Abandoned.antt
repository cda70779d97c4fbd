-- ===== src/Retained/Abandoned.antt =====
-- src/retained.rs: the events of a turn whose executor drops the wait of its last event, and src/journal.rs: their
-- journal.
use agent_runtime_sdk.Prelude.{
  ℕ, suc, ◌+◌, ◌≤◌, ◌<◌, ◌≡◌, refl, sym, ap, ◌∙◌, List, [], ◌∷◌, ◌++◌, map, Bool, none, some, All,
  Text, length, get_last?, arith, text_eq,
}
use mathlib.Core.List.{append-nil}
use agent_runtime_sdk.Prelude.Result.{Result, ok}
use agent_runtime_sdk.Prelude.Words.{u64_max}
use agent_runtime_sdk.Journal.Types.{EventEnvelope, appended, PartialEq}
use agent_runtime_sdk.Journal.Invocation.{new}
use agent_runtime_sdk.Journal.Invocation.Contiguous.{Run}
use agent_runtime_sdk.Journal.Invocation.Tail.{Log, log_append_all, append_all, append_all-refines}
use agent_runtime_sdk.Retained.Types.{RuntimeFailure}
use agent_runtime_sdk.Retained.Sink.{
  RuntimeEvent, provider_event, compaction_failed, TurnEvent, session_started, compaction_started,
  compaction_completed, other_event, ChannelEventSink, emit_runtime, emit, announce, abandon,
  Activity, emits, abandons, perform, conclude, task, new_sink,
}
use agent_runtime_sdk.Retained.Numbering.{emit_runtime-count}
use agent_runtime_sdk.Retained.TaskEvents.{
  IsEmitted, last_event, new_sink-Tracked, announce-Tracked, perform-Tracked,
}
use agent_runtime_sdk.Retained.Skipped.{gap, log_append_all-gap, Late, conclude-Skips}

module _ {O R : Type 0} (clock : ℕ → ℕ) where
  emit-dropped_at :
      (event : TurnEvent O) (s : ChannelEventSink O R)
      → (emit clock event s).0.dropped_at ≡ s.dropped_at
  unfolding emit emit_runtime
  emit-dropped_at (session_started id) s = ground arith
  emit-dropped_at (compaction_started trigger) s = ground arith
  emit-dropped_at (compaction_completed trigger) s = ground arith
  emit-dropped_at (compaction_failed trigger message) s = ground arith
  emit-dropped_at (other_event event) s = ground arith

  perform-dropped_at :
      (activities : List (Activity O)) (s : ChannelEventSink O R)
      → (perform clock activities s).dropped_at ≡ s.dropped_at
  unfolding perform abandon
  perform-dropped_at [] s = refl
  perform-dropped_at (emits event ∷ activities) s =
      perform-dropped_at activities (emit clock event s).0 ∙ emit-dropped_at event s
  perform-dropped_at (abandons event ∷ activities) s =
      perform-dropped_at activities (abandon clock event s) ∙ emit-dropped_at event s

  announce-dropped_at :
      (manual_compaction : Bool) (s : ChannelEventSink O R)
      → s.dropped_at ≡ none
      → ((announce clock manual_compaction s).0.dropped_at ≡ none)
        × ((announce clock manual_compaction s).1 ≡ ok tt)
  unfolding announce emit emit_runtime
  announce-dropped_at manual_compaction s there = ground arith

  perform-append :
      (xs ys : List (Activity O)) (s : ChannelEventSink O R)
      → perform clock (xs ++ ys) s ≡ perform clock ys (perform clock xs s)
  unfolding perform
  perform-append [] ys s = refl
  perform-append (emits event ∷ xs) ys s = perform-append xs ys (emit clock event s).0
  perform-append (abandons event ∷ xs) ys s = perform-append xs ys (abandon clock event s)

  abandon-Late :
      (o : O) (s : ChannelEventSink O R)
      → s.sequence ≡ length s.sent
      → s.dropped_at ≡ none
      → s.sequence < u64_max
      → Late s.sent [] (abandon clock (other_event o) s)
        × ((abandon clock (other_event o) s).sequence ≤ suc s.sequence)
  unfolding abandon emit
  abandon-Late o s all there small =
      let number = (emit_runtime-count clock (provider_event (other_event o)) s small).0 in
      let same = emit-dropped_at (other_event o) s in
      (
        record {
          split = sym (append-nil s.sent);
          ahead = tt;
          skipped = omega (arith, number, all);
          within = omega (arith, number, all);
          there = same ∙ there;
        },
        omega (arith, number),
      )

  -- When the executor of a turn awaits all its sends but the last one, of an event that is neither a session's start nor a compaction's, and drops that wait,
  -- and the receiver is never dropped: the events sent before are numbered with no gap and a new
  -- journal of the invocation appends them, but the events sent after it, among them the one with
  -- the result of the turn, skip a number, and the journal refuses each of them with a sequence gap.
  pub task-abandoned :
      ⦃q : PartialEq (RuntimeEvent O R)⦄ (maximum : ℕ) (manual_compaction : Bool)
      (activities : List (Activity O)) (o : O) (result : Result RuntimeFailure R)
      (runtime_id invocation_id : Text)
      → length activities + 5 ≤ u64_max
      → All IsEmitted activities
      → let s =
          (task clock manual_compaction
            (activities ++ abandons (other_event o) ∷ [])
            result
            (new_sink runtime_id invocation_id none)).0 in
        (before : List (EventEnvelope (RuntimeEvent O R))) × (late : List
          (EventEnvelope (RuntimeEvent O R)))
        × (s.sent ≡ before ++ late)
        × Run 0 before
        × ((append_all (new maximum) s.sent).1
            ≡ map (λ _. ok appended) before ++ map (gap (length before)) late)
        × ((e : EventEnvelope (RuntimeEvent O R)) × (get_last? late ≡ some e)
            × (e.event ≡ last_event result))
  unfolding task new_sink perform
  task-abandoned maximum manual_compaction activities o result runtime_id invocation_id few
        awaited =
      let start = new_sink {O = O} {R = R} runtime_id invocation_id none in
      let tracked = new_sink-Tracked runtime_id invocation_id none in
      let announced = announce clock manual_compaction start in
      let (begun, count) = announce-Tracked clock manual_compaction start tracked (omega arith) in
      let (there, fine) = announce-dropped_at manual_compaction start refl in
      let performed = perform clock activities announced.0 in
      let (orderly, counted) =
        perform-Tracked clock activities announced.0 begun (omega (arith, count, few)) awaited in
      let open_still = perform-dropped_at activities announced.0 ∙ there in
      let all = orderly.all_sent (rw open_still refl) in
      let (late, small) =
        abandon-Late o performed all open_still (omega (arith, count, counted, few)) in
      let skipped = abandon clock (other_event o) performed in
      let (after, split, ahead, fits, last) =
        conclude-Skips clock performed.sent [] result skipped late
          (omega (arith, count, counted, few, small)) in
      let final = (conclude clock result skipped).0 in
      let log : Log (RuntimeEvent O R) = record { history = []; maximum = maximum } in
      let journaled : (append_all (new maximum) final.sent).1
          ≡ map (λ _. ok appended) performed.sent ++ map (gap (length performed.sent)) after =
        ap (λ out. out.1) (append_all-refines maximum final.sent fits)
        ∙ ap (λ events. (log_append_all log events).1) split
        ∙ log_append_all-gap log performed.sent after (length performed.sent) (omega arith)
            orderly.numbered ahead in
      rw (fine, task)
        (rw (perform-append activities (abandons (other_event o) ∷ []) announced.0)
          (performed.sent, after, split, orderly.numbered, journaled, last))
