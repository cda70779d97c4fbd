-- ===== src/Retained/Skipped.antt =====
-- src/retained.rs: the end of a turn's task whose sink has skipped a number, and src/journal.rs: events that skip one.
use agent_runtime_sdk.Prelude.{
  ℕ, suc, ◌+◌, ◌≤◌, ◌<◌, ◌≡◌, refl, ap, ◌∙◌, List, [], ◌∷◌, ◌++◌, map, Bool, true, false, none,
  some, All, Option-cases, inl, inr, length, length-snoc, get_last?, get_last?-snoc, if◌then◌else◌,
  arith, text_eq,
}
use mathlib.Core.List.{append_assoc}
use agent_runtime_sdk.Prelude.Result.{Result, ok, err}
use agent_runtime_sdk.Prelude.Words.{u64_max}
use agent_runtime_sdk.Journal.Types.{
  EventEnvelope, EventJournalError, EventAppendOutcome, sequence_gap, appended, PartialEq,
}
use agent_runtime_sdk.Journal.Invocation.Contiguous.{Run}
use agent_runtime_sdk.Journal.Invocation.Tail.{Log, log_append, log_append_all}
use agent_runtime_sdk.Retained.Types.{RuntimeFailure, finished_unconfirmed, ended_unconfirmed}
use agent_runtime_sdk.Retained.Sink.{
  RuntimeEvent, provider_event, compaction_failed, ChannelEventSink, stamp, emit_runtime,
  close_open_compaction, conclude,
}
use agent_runtime_sdk.Retained.Numbering.{stamp_lem, emit_runtime-sent, emit_runtime-count}
use agent_runtime_sdk.Retained.TaskEvents.{last_event}

module _ {P : Type 0} where
  -- The answer of a journal of n events to an event beyond the next.
  abbrev pub gap : ℕ → EventEnvelope P → Result EventJournalError EventAppendOutcome
  gap n e = err (sequence_gap e.runtime_id e.invocation_id (suc n) e.sequence)

  abbrev pub Ahead : ℕ → List (EventEnvelope P) → Type 0
  Ahead n late = All (λ e. suc n < e.sequence) late

  log_append_all-late :
      ⦃q : PartialEq P⦄ (log : Log P) (late : List (EventEnvelope P))
      → Ahead (length log.history) late
      → log_append_all log late ≡ (log, map (gap (length log.history)) late)
  unfolding log_append_all log_append
  log_append_all-late log [] ahead = refl
  log_append_all-late log (e ∷ late) (here, ahead) =
      let refused : log_append log e ≡ (log, gap (length log.history) e) = ground arith in
      rw (refused, log_append_all-late log late ahead) refl

  pub log_append_all-gap :
      ⦃q : PartialEq P⦄ (log : Log P) (events late : List (EventEnvelope P)) (n : ℕ)
      → length log.history + length events ≡ n
      → Run (length log.history) events
      → Ahead n late
      → (log_append_all log (events ++ late)).1 ≡ map (λ _. ok appended) events ++ map (gap n) late
  unfolding log_append_all log_append
  log_append_all-gap log [] late n size run ahead =
      let same : length log.history ≡ n = omega (arith, size) in
      ap (λ out. out.1) (log_append_all-late log late (rw same ahead))
      ∙ ap (λ k. map (gap k) late) same
  log_append_all-gap log (e ∷ events) late n size run ahead =
      let log' : Log P = record log { history = log.history ++ e ∷ [] } in
      let added : log_append log e ≡ (log', ok appended) = ground (arith, run.0) in
      let longer = length-snoc log.history e in
      let rest =
        log_append_all-gap log' events late n (omega (arith, longer, size)) (rw longer run.1)
          ahead in
      rw (added, rest) refl

module _ {O R : Type 0} where
  -- A sink whose receiver is there, and which has skipped the number after these events.
  pub record Late (before late : List (EventEnvelope (RuntimeEvent O R))) (s : ChannelEventSink O R)
      : Type 0 where
    pub split : s.sent ≡ before ++ late
    pub ahead : Ahead (length before) late
    pub skipped : suc (length before) ≤ s.sequence
    pub within : length s.sent ≤ s.sequence
    pub there : s.dropped_at ≡ none

  Ahead-snoc :
      (n : ℕ) (late : List (EventEnvelope (RuntimeEvent O R)))
      (e : EventEnvelope (RuntimeEvent O R))
      → Ahead n late
      → suc n < e.sequence
      → Ahead n (late ++ e ∷ [])
  Ahead-snoc n [] e ahead here = (here, tt)
  Ahead-snoc n (x ∷ late) e (first, ahead) here = (first, Ahead-snoc n late e ahead here)

  -- The last event of a task whose sink has skipped a number.
  abbrev Skips :
      List (EventEnvelope (RuntimeEvent O R))
      → Result RuntimeFailure R
      → ChannelEventSink O R
      → Type 0
  Skips before result s =
      (late : List (EventEnvelope (RuntimeEvent O R))) × (s.sent ≡ before ++ late)
      × Ahead (length before) late
      × (length s.sent ≤ u64_max)
      × ((e : EventEnvelope (RuntimeEvent O R)) × (get_last? late ≡ some e)
          × (e.event ≡ last_event result))

module _ {O R : Type 0} (clock : ℕ → ℕ) where
  emit_runtime-Late :
      (before late : List (EventEnvelope (RuntimeEvent O R))) (event : RuntimeEvent O R)
      (s : ChannelEventSink O R)
      → Late before late s
      → s.sequence < u64_max
      → Late before (late ++ stamp clock event s ∷ []) (emit_runtime clock event s).0
  emit_runtime-Late before late event s l small =
      let (number, opened, same) = emit_runtime-count clock event s small in
      let (stamped, payload) = stamp_lem clock event s small in
      let sent = emit_runtime-sent clock event s (rw l.there refl) in
      record {
        split =
            sent
            ∙ ap (λ events. events ++ stamp clock event s ∷ []) l.split
            ∙ append_assoc before late (stamp clock event s ∷ []);
        ahead =
            Ahead-snoc (length before) late (stamp clock event s) l.ahead
              (omega (arith, stamped, l.skipped));
        skipped = omega (arith, number, l.skipped);
        within =
            omega
              (arith, ap length sent, length-snoc s.sent (stamp clock event s), number, l.within);
        there = same ∙ l.there;
      }

  close_open_compaction-Late :
      (succeeded : Bool) (before late : List (EventEnvelope (RuntimeEvent O R)))
      (s : ChannelEventSink O R)
      → Late before late s
      → s.sequence < u64_max
      → ((more : List (EventEnvelope (RuntimeEvent O R))) × Late before more
            (close_open_compaction clock succeeded s).0)
        × ((close_open_compaction clock succeeded s).0.sequence ≤ suc s.sequence)
  unfolding close_open_compaction
  close_open_compaction-Late succeeded before late s l small =
      elim (Option-cases s.compaction_open) [
        | inl closed ↦
            let same : close_open_compaction clock succeeded s ≡ (s, ok tt) = ground arith in
            rw same ((late, l), omega arith)
        | inr (trigger, opened) ↦
            let message = if succeeded then finished_unconfirmed else ended_unconfirmed in
            let event : RuntimeEvent O R =
              provider_event (compaction_failed trigger (some message)) in
            let shut : ChannelEventSink O R = record s { compaction_open = none } in
            let same : close_open_compaction clock succeeded s ≡ emit_runtime clock event shut =
              ground arith in
            let kept : Late before late shut = record {
              split = l.split;
              ahead = l.ahead;
              skipped = l.skipped;
              within = l.within;
              there = l.there;
            } in
            rw same (
              (
                late ++ stamp clock event shut ∷ [],
                emit_runtime-Late before late event shut kept small,
              ),
              omega (arith, (emit_runtime-count clock event shut small).0),
            )
      ]

  close-Skips :
      (before late : List (EventEnvelope (RuntimeEvent O R))) (result : Result RuntimeFailure R)
      (s : ChannelEventSink O R)
      → Late before late s
      → s.sequence < u64_max
      → Skips before result (emit_runtime clock (last_event result) s).0
  close-Skips before late result s l small =
      let event = last_event result in
      let after = emit_runtime-Late before late event s l small in
      let number = (emit_runtime-count clock event s small).0 in
      (
        late ++ stamp clock event s ∷ [],
        after.split,
        after.ahead,
        omega (arith, after.within, number),
        (
          stamp clock event s,
          get_last?-snoc late (stamp clock event s),
          (stamp_lem clock event s small).1,
        ),
      )

  pub conclude-Skips :
      (before late : List (EventEnvelope (RuntimeEvent O R))) (result : Result RuntimeFailure R)
      (s : ChannelEventSink O R)
      → Late before late s
      → s.sequence + 2 ≤ u64_max
      → Skips before result (conclude clock result s).0
  unfolding conclude
  conclude-Skips before late (ok turn) s l small =
      let ((more, closed), count) = close_open_compaction-Late true before late s l (omega arith) in
      close-Skips before more (ok turn) (close_open_compaction clock true s).0 closed
        (omega (arith, count))
  conclude-Skips before late (err failure) s l small =
      let ((more, closed), count) =
        close_open_compaction-Late false before late s l (omega arith) in
      close-Skips before more (err failure) (close_open_compaction clock false s).0 closed
        (omega (arith, count))
