-- ===== src/Journal/Invocation/Tail.antt =====
-- src/journal.rs: an abstract view of `InvocationJournal`, the whole history with its tail.
use agent_runtime_sdk.Prelude.{
  ℕ, suc, ◌+◌, ◌-◌, ◌≤◌, ◌<◌, ◌≡◌, refl, Bool, true, false, ◌&&◌, List, [], ◌∷◌, ◌++◌, none, some,
  arith, if◌then◌else◌, ltb, leb, eqb, length, drop, find?, get_elem?, get_elem?-drop, drop-drop,
  drop-append_snoc, length-drop, length-snoc, Bool-cases, inl, inr, ◌∙◌, drop-nil,
}
use agent_runtime_sdk.Prelude.Result.{Result, ok, err}
use agent_runtime_sdk.Prelude.Words.{u64_max}
use agent_runtime_sdk.Journal.Types.{
  EventEnvelope, EventJournalError, sequence_gap, sequence_conflict, EventAppendOutcome, appended,
  already_present, PartialEq, envelope_eq,
}
use agent_runtime_sdk.Journal.Invocation.{
  InvocationJournal, new, expected, push, is_retained, append,
}
use agent_runtime_sdk.Journal.Invocation.Contiguous.{
  Run, Run-snoc, Run-drop, push_tail, expected_of_Run,
}

-- Every envelope that was accepted, oldest first.
pub record Log (P : Type 0) : Type 0 where
  pub history : List (EventEnvelope P)
  pub maximum : ℕ

module _ {P : Type 0} where
  abbrev pub evicted : Log P → ℕ
  evicted log = length log.history - log.maximum

  abbrev pub tail_of : Log P → InvocationJournal P
  tail_of log = record {
    events = drop (evicted log) log.history;
    evicted_through = evicted log;
    maximum = log.maximum;
  }

  -- The envelope stands in the history under its own number, and has not been evicted.
  abbrev pub log_retains : ⦃q : PartialEq P⦄ → Log P → EventEnvelope P → Bool
  log_retains log e =
      ltb (evicted log) e.sequence
      && elim (get_elem? log.history (e.sequence - 1)) [ none ↦ false | some x ↦ envelope_eq x e ]

  unfoldable pub log_append :
      ⦃q : PartialEq P⦄
      → Log P
      → EventEnvelope P
      → Log P × Result EventJournalError EventAppendOutcome
  log_append log e =
      let n = length log.history in
      if leb e.sequence n
      then (
        log,
        if log_retains log e
            then ok already_present
            else err (sequence_conflict e.runtime_id e.invocation_id e.sequence),
      )
      else if ltb (suc n) e.sequence
      then (log, err (sequence_gap e.runtime_id e.invocation_id (suc n) e.sequence))
      else (record log { history = log.history ++ e ∷ [] }, ok appended)

  find-Run :
      (n k : ℕ) (es : List (EventEnvelope P))
      → Run n es
      → find? (λ x. eqb x.sequence k) es ≡ (if ltb n k then get_elem? es (k - n - 1) else none)
  find-Run n k [] r = ground arith
  find-Run n k (x ∷ es) r = elim (Bool-cases (eqb x.sequence k)) [
    | inl hit ↦
        let e : k - n - 1 ≡ 0 = ground arith in
        let l : ltb n k ≡ true = ground arith in rw (hit, l, e) refl
    | inr miss ↦
        rw (miss, find-Run (suc n) k es r.1)
          (elim (Bool-cases (ltb (suc n) k)) [
            | inl later ↦
                let e : k - n - 1 ≡ suc (k - suc n - 1) = ground arith in
                let l : ltb n k ≡ true = ground arith in rw (later, l, e) refl
            | inr none_left ↦ let l : ltb n k ≡ false = ground arith in rw (none_left, l) refl
          ])
  ]

  evicted-le : (log : Log P) → evicted log ≤ length log.history
  evicted-le log = omega arith

  tail-Run :
      (log : Log P) → Run 0 log.history → Run (tail_of log).evicted_through (tail_of log).events
  tail-Run log r =
      let e : 0 + evicted log ≡ evicted log = omega arith in
      rw e at (Run-drop (evicted log) 0 log.history r (evicted-le log))

  tail-expected :
      (log : Log P)
      → Run 0 log.history
      → length log.history < u64_max
      → expected (tail_of log) ≡ suc (length log.history)
  tail-expected log r b =
      ground (
        arith,
        expected_of_Run (tail_of log) (tail-Run log r),
        length-drop (evicted log) log.history,
      )

  tail-is_retained :
      ⦃q : PartialEq P⦄ (log : Log P) (e : EventEnvelope P)
      → Run 0 log.history
      → is_retained (tail_of log) e ≡ log_retains log e
  unfolding is_retained
  tail-is_retained log e r =
      rw (find-Run (evicted log) e.sequence (tail_of log).events (tail-Run log r), is_retained)
        (elim (Bool-cases (ltb (evicted log) e.sequence)) [
          | inl kept ↦
              let i : evicted log + (e.sequence - evicted log - 1) ≡ e.sequence - 1 =
                ground arith in
              let g = get_elem?-drop (evicted log) (e.sequence - evicted log - 1) log.history in
              rw (kept, g, i) refl
          | inr gone ↦ rw gone refl
        ])

  tail-push :
      (log : Log P) (e : EventEnvelope P)
      → Run 0 log.history
      → e.sequence ≡ suc (length log.history)
      → push (tail_of log) e ≡ tail_of (record log { history = log.history ++ e ∷ [] })
  tail-push log e r h =
      let k : ℕ = evicted log in
      let a : ℕ = suc (length (drop k log.history)) - log.maximum in
      let len = length-snoc log.history e in
      let kept = length-drop k log.history in
      let total : k + a ≡ length (log.history ++ e ∷ []) - log.maximum = omega (arith, len, kept) in
      let joined : drop a (drop k log.history ++ e ∷ []) ≡ drop (k + a) (log.history ++ e ∷ []) =
        rw (← drop-append_snoc k log.history e (evicted-le log))
          (drop-drop k a (log.history ++ e ∷ [])) in
      push_tail (tail_of log) e (tail-Run log r) (omega (arith, kept)) ∙ rw (joined, total) refl

  -- Each append to the bounded tail answers as the append to the whole history does, and leaves
  -- the tail of what that leaves, while the history is a run shorter than a u64 can number.
  pub append-refines :
      ⦃q : PartialEq P⦄ (log : Log P) (e : EventEnvelope P)
      → Run 0 log.history
      → length log.history < u64_max
      → append (tail_of log) e ≡ (tail_of (log_append log e).0, (log_append log e).1)
  unfolding append log_append
  append-refines log e r b =
      rw (tail-expected log r b, tail-is_retained log e r) (ground (arith, tail-push log e r))

  log_append-Run :
      ⦃q : PartialEq P⦄ (log : Log P) (e : EventEnvelope P)
      → Run 0 log.history
      → Run 0 (log_append log e).0.history
  unfolding log_append
  log_append-Run log e r = ground (arith, Run-snoc 0 log.history e r)

  log_append-length :
      ⦃q : PartialEq P⦄ (log : Log P) (e : EventEnvelope P)
      → length (log_append log e).0.history ≤ suc (length log.history)
  unfolding log_append
  log_append-length log e = ground (arith, length-snoc log.history e)

  -- A run of appends, with every answer.
  unfoldable pub append_all :
      ⦃q : PartialEq P⦄
      → InvocationJournal P
      → List (EventEnvelope P)
      → InvocationJournal P × List (Result EventJournalError EventAppendOutcome)
  append_all s [] = (s, [])
  append_all s (e ∷ es) =
      let (s', answer) = append s e in let (t, answers) = append_all s' es in (t, answer ∷ answers)

  unfoldable pub log_append_all :
      ⦃q : PartialEq P⦄
      → Log P
      → List (EventEnvelope P)
      → Log P × List (Result EventJournalError EventAppendOutcome)
  log_append_all log [] = (log, [])
  log_append_all log (e ∷ es) =
      let (log', answer) = log_append log e in
      let (end, answers) = log_append_all log' es in (end, answer ∷ answers)

  append_all-refines_from :
      ⦃q : PartialEq P⦄ (log : Log P) (es : List (EventEnvelope P))
      → Run 0 log.history
      → length log.history + length es ≤ u64_max
      → append_all (tail_of log) es ≡ (tail_of (log_append_all log es).0, (log_append_all log es).1)
  unfolding append_all log_append_all
  append_all-refines_from log [] r b = refl
  append_all-refines_from log (e ∷ es) r b =
      let next =
        append_all-refines_from (log_append log e).0 es (log_append-Run log e r)
          (omega (arith, log_append-length log e)) in
      rw (append-refines log e r (omega arith), next) refl

  -- Every list of envelopes, shorter than a u64 can number, put to a new journal is answered as
  -- the whole history would answer it, and the journal ends as the tail of that history.
  pub append_all-refines :
      ⦃q : PartialEq P⦄ (maximum : ℕ) (es : List (EventEnvelope P))
      → length es ≤ u64_max
      → let spec = log_append_all (record { history = []; maximum = maximum }) es in
        append_all (new maximum) es ≡ (tail_of spec.0, spec.1)
  unfolding new
  append_all-refines maximum es b =
      let none_evicted : 0 - maximum ≡ 0 = omega arith in
      rw (none_evicted, drop-nil (EventEnvelope P) 0) at
        (append_all-refines_from (record { history = []; maximum = maximum }) es tt (omega arith))
