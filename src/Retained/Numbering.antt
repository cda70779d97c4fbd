-- ===== src/Retained/Numbering.antt =====
-- src/retained.rs: the numbers of the events that a turn's task sends, and its compactions.
use agent_runtime_sdk.Prelude.{
  Option-cases, Text, suc, subst, sym, length-snoc, ◌≤◌, ℕ, ◌<◌, ◌≡◌, refl, List, [], ◌∷◌, ◌++◌,
  Bool, true, false, Option, none, some, if◌then◌else◌, length, Bool-cases, inl, inr, arith,
  text_eq,
}
use agent_runtime_sdk.Prelude.Result.{ok}
use agent_runtime_sdk.Prelude.Words.{u64_max}
use agent_runtime_sdk.Journal.Types.{EventEnvelope}
use agent_runtime_sdk.Journal.Invocation.Contiguous.{Run, Run-snoc}
use agent_runtime_sdk.Retained.Invariant.{is_some}
use agent_runtime_sdk.Retained.Types.{finished_unconfirmed, ended_unconfirmed}
use agent_runtime_sdk.Retained.Sink.{
  CompactionTrigger, TurnEvent, session_started, compaction_started, compaction_completed,
  compaction_failed, other_event, RuntimeEvent, invocation_started, provider_event,
  invocation_completed, invocation_failed, receives, ChannelEventSink, stamp, emit_runtime, emit,
  close_open_compaction,
}

-- Whether a compaction is open after an event: none when one would start inside another.
abbrev pub next : {O R : Type 0} → Bool → RuntimeEvent O R → Option Bool
next held invocation_started = some held
next held (provider_event (session_started id)) = some held
next held (provider_event (compaction_started trigger)) = if held then none else some true
next held (provider_event (compaction_completed trigger)) = some false
next held (provider_event (compaction_failed trigger message)) = some false
next held (provider_event (other_event event)) = some held
next held (invocation_completed result) = some held
next held (invocation_failed failure) = some held

module _ {O R : Type 0} where
  abbrev pub open_after : Bool → List (EventEnvelope (RuntimeEvent O R)) → Option Bool
  open_after held [] = some held
  open_after held (e ∷ events) = elim (next held e.event) [
    | none ↦ none
    | some later ↦ open_after later events
  ]

  open_after-snoc :
      (held later after : Bool) (events : List (EventEnvelope (RuntimeEvent O R)))
      (e : EventEnvelope (RuntimeEvent O R))
      → open_after held events ≡ some later
      → next later e.event ≡ some after
      → open_after held (events ++ e ∷ []) ≡ some after
  open_after-snoc held later after [] e h k = ground (arith, h, k)
  open_after-snoc held later after (x ∷ events) e h k = elim (Option-cases (next held x.event)) [
    | inl bad ↦ ground arith
    | inr (between, fine) ↦ ground (arith, open_after-snoc between later after events e, fine)
  ]

  -- The receiver was there for the event with the last number taken.
  abbrev pub IsReceived : ChannelEventSink O R → Type 0
  IsReceived s = receives s.dropped_at s.sequence ≡ true

  -- The events sent are numbered from one with no gap, and at most one compaction is open at a time; while
  -- the receiver is there, every number was sent, and a compaction is open as said.
  pub record Orderly (held : Bool) (s : ChannelEventSink O R) : Type 0 where
    pub numbered : Run 0 s.sent
    pub all_sent : IsReceived s → s.sequence ≡ length s.sent
    pub within : length s.sent ≤ s.sequence
    pub balanced :
        (later : Bool) × (open_after false s.sent ≡ some later) × (IsReceived s → later ≡ held)

-- A receiver that is there for an event was there for the one before.
pub receives-earlier :
    (dropped_at : Option ℕ) (number : ℕ)
    → receives dropped_at (suc number) ≡ true
    → receives dropped_at number ≡ true
receives-earlier none number h = refl
receives-earlier (some first) number h = ground arith

module _ {O R : Type 0} (clock : ℕ → ℕ) where
  pub stamp_lem :
      (event : RuntimeEvent O R) (s : ChannelEventSink O R)
      → s.sequence < u64_max
      → ((stamp clock event s).sequence ≡ suc s.sequence) × ((stamp clock event s).event ≡ event)
  unfolding stamp
  stamp_lem event s small = (omega arith, refl)

  emit_runtime-Orderly :
      (held after : Bool) (event : RuntimeEvent O R) (s : ChannelEventSink O R)
      → Orderly held s
      → next held event ≡ some after
      → s.sequence < u64_max
      → Orderly after (emit_runtime clock event s).0
  unfolding emit_runtime
  emit_runtime-Orderly held after event s o h small =
      let envelope = stamp clock event s in
      let (number, payload) = stamp_lem event s small in
      elim (Bool-cases (receives s.dropped_at envelope.sequence)) [
        | inl there ↦
            let same : (emit_runtime clock event s).0
                ≡ record s { sequence = envelope.sequence; sent = s.sent ++ envelope ∷ [] } =
              ground arith in
            let (later, opened, agrees) = o.balanced in
            let before = receives-earlier s.dropped_at s.sequence (rw number at there) in
            let count = o.all_sent before in
            subst (Orderly after) (sym same) (record {
              numbered = Run-snoc 0 s.sent envelope o.numbered (omega (arith, number, count));
              all_sent = λ _. omega (arith, number, count, length-snoc s.sent envelope);
              within = omega (arith, number, o.within, length-snoc s.sent envelope);
              balanced = (
                after,
                open_after-snoc false later after s.sent envelope opened
                    (rw (payload, agrees before) h),
                λ _. refl,
              );
            })
        | inr gone ↦
            let same : (emit_runtime clock event s).0 ≡ record s { sequence = envelope.sequence } =
              ground arith in
            let (later, opened, agrees) = o.balanced in
            subst (Orderly after) (sym same) (record {
              numbered = o.numbered;
              all_sent = λ there. cc;
              within = omega (arith, number, o.within);
              balanced = (later, opened, λ there. cc);
            })
      ]

  pub emit_runtime-sent :
      (event : RuntimeEvent O R) (s : ChannelEventSink O R)
      → receives s.dropped_at (stamp clock event s).sequence ≡ true
      → (emit_runtime clock event s).0.sent ≡ s.sent ++ stamp clock event s ∷ []
  unfolding emit_runtime
  emit_runtime-sent event s there = ground arith

  pub emit_runtime-count :
      (event : RuntimeEvent O R) (s : ChannelEventSink O R)
      → s.sequence < u64_max
      → ((emit_runtime clock event s).0.sequence ≡ suc s.sequence)
        × ((emit_runtime clock event s).0.compaction_open ≡ s.compaction_open)
        × ((emit_runtime clock event s).0.dropped_at ≡ s.dropped_at)
  unfolding emit_runtime
  emit_runtime-count event s small = ground (arith, stamp_lem event s small)

module _ {O R : Type 0} where
  -- A compaction is open in the sink exactly when its events say so.
  abbrev pub Tracked : ChannelEventSink O R → Type 0
  Tracked s = Orderly (is_some s.compaction_open) s

  -- What one call leaves, with at most one number more.
  abbrev pub Follows : ChannelEventSink O R → ChannelEventSink O R → Type 0
  Follows s after = Tracked after × (after.sequence ≤ suc s.sequence)

  Orderly-record :
      (held : Bool) (s : ChannelEventSink O R) (announced : Option Text)
      (opened : Option CompactionTrigger)
      → Orderly held s
      → Orderly held (record s { announced_session_id = announced; compaction_open = opened })
  Orderly-record held s announced opened o = record {
    numbered = o.numbered;
    all_sent = o.all_sent;
    within = o.within;
    balanced = o.balanced;
  }

module _ {O R : Type 0} (clock : ℕ → ℕ) where
  pub emit_runtime-Follows :
      (held : Bool) (event : RuntimeEvent O R) (s : ChannelEventSink O R)
      → Orderly held s
      → next held event ≡ some (is_some s.compaction_open)
      → s.sequence < u64_max
      → Follows s (emit_runtime clock event s).0
  emit_runtime-Follows held event s o h small =
      let (count, opened, receiver) = emit_runtime-count clock event s small in
      let after = emit_runtime-Orderly clock held (is_some s.compaction_open) event s o h small in
      (
        subst (λ c. Orderly (is_some c) (emit_runtime clock event s).0) (sym opened) after,
        omega (arith, count),
      )

  pub emit-Follows :
      (event : TurnEvent O) (s : ChannelEventSink O R)
      → Tracked s
      → s.sequence < u64_max
      → Follows s (emit clock event s).0
  unfolding emit
  emit-Follows (session_started id) s o small =
      emit_runtime-Follows (is_some s.compaction_open) (provider_event (session_started id))
        (record s { announced_session_id = some id })
        (Orderly-record (is_some s.compaction_open) s (some id) s.compaction_open o) refl small
  emit-Follows (compaction_started trigger) s o small = elim (Option-cases s.compaction_open) [
    | inr (earlier, opened) ↦
        let same : emit clock (compaction_started trigger) s ≡ (s, ok tt) = ground arith in
        rw same (o, omega arith)
    | inl closed ↦
        let begun : ChannelEventSink O R = record s { compaction_open = some trigger } in
        let same : emit clock (compaction_started trigger) s
            ≡ emit_runtime clock (provider_event (compaction_started trigger)) begun =
          ground arith in
        let tracked : Orderly false s = subst (λ c. Orderly (is_some c) s) closed o in
        rw same (
          emit_runtime-Follows false (provider_event (compaction_started trigger)) begun
            (Orderly-record false s s.announced_session_id (some trigger) tracked) refl small)
  ]
  emit-Follows (compaction_completed trigger) s o small =
      emit_runtime-Follows (is_some s.compaction_open)
        (provider_event (compaction_completed trigger)) (record s { compaction_open = none })
        (Orderly-record (is_some s.compaction_open) s s.announced_session_id none o) refl small
  emit-Follows (compaction_failed trigger message) s o small =
      emit_runtime-Follows (is_some s.compaction_open)
        (provider_event (compaction_failed trigger message)) (record s { compaction_open = none })
        (Orderly-record (is_some s.compaction_open) s s.announced_session_id none o) refl small
  emit-Follows (other_event event) s o small =
      emit_runtime-Follows (is_some s.compaction_open) (provider_event (other_event event)) s o refl
        small

  -- A compaction that is still open is closed.
  pub close_open_compaction-Follows :
      (succeeded : Bool) (s : ChannelEventSink O R)
      → Tracked s
      → s.sequence < u64_max
      → Follows s (close_open_compaction clock succeeded s).0
        × ((close_open_compaction clock succeeded s).0.compaction_open ≡ none)
  unfolding close_open_compaction
  close_open_compaction-Follows succeeded s o small = elim (Option-cases s.compaction_open) [
    | inl closed ↦
        let same : close_open_compaction clock succeeded s ≡ (s, ok tt) = ground arith in
        rw same ((o, omega arith), closed)
    | inr (trigger, opened) ↦
        let message = if succeeded then finished_unconfirmed else ended_unconfirmed in
        let event : RuntimeEvent O R = provider_event (compaction_failed trigger (some message)) in
        let shut : ChannelEventSink O R = record s { compaction_open = none } in
        let same : close_open_compaction clock succeeded s ≡ emit_runtime clock event shut =
          ground arith in
        rw same (
          emit_runtime-Follows (is_some s.compaction_open) event shut
              (Orderly-record (is_some s.compaction_open) s s.announced_session_id none o) refl
              small,
          (emit_runtime-count clock event shut small).1,
        )
  ]
