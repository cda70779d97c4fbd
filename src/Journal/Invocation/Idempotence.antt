-- ===== src/Journal/Invocation/Idempotence.antt =====
-- src/journal.rs: repeated and refused calls of `InvocationJournal::append`.
use agent_runtime_sdk.Prelude.{
  ℕ, suc, ◌+◌, ◌-◌, ◌<◌, ◌≡◌, ◌⊎◌, true, List, [], ◌∷◌, some, arith, eqb, length, drop, find?,
  get_last?, get_last?-snoc, ==_refl, text_eq, drop-append_snoc,
}
use agent_runtime_sdk.Prelude.Result.{ok}
use agent_runtime_sdk.Prelude.Words.{u64_max}
use agent_runtime_sdk.Journal.Types.{
  EventEnvelope, appended, already_present, PartialEq, envelope_eq,
}
use agent_runtime_sdk.Journal.Invocation.{InvocationJournal, expected, push, is_retained, append}
use agent_runtime_sdk.Journal.Invocation.Contiguous.{
  Run, IsContiguous, expected_of_Run, push_tail, push-IsContiguous, sequence_of_last,
}

module _ {P : Type 0} ⦃q : PartialEq P⦄ where
  -- An append that answers anything but `appended` leaves the journal as it was.
  pub append_unchanged :
      (s : InvocationJournal P) (e : EventEnvelope P)
      → ((append s e).1 ≡ ok appended) ⊎ ((append s e).0 ≡ s)
  unfolding append
  append_unchanged s e = ground arith

  find-last :
      (n : ℕ) (es : List (EventEnvelope P)) (e : EventEnvelope P)
      → Run n es
      → get_last? es ≡ some e
      → find? (λ x. eqb x.sequence e.sequence) es ≡ some e
  find-last n [] e r h = cc
  find-last n (x ∷ []) e r h = ground arith
  find-last n (x ∷ y ∷ ys) e r h =
      ground (arith, sequence_of_last (suc n) (y ∷ ys) e r.1 h, find-last (suc n) (y ∷ ys) e r.1 h)

  envelope_eq_refl : (e : EventEnvelope P) → q.eq e.event e.event ≡ true → envelope_eq e e ≡ true
  envelope_eq_refl e h = ground (arith, ==_refl e.runtime_id, ==_refl e.invocation_id)

  last-push :
      (s : InvocationJournal P) (e : EventEnvelope P)
      → IsContiguous s
      → e.sequence ≡ suc (s.evicted_through + length s.events)
      → 0 < s.maximum
      → get_last? (push s e).events ≡ some e
  last-push s e v h m =
      let k : ℕ = suc (length s.events) - s.maximum in
      rw (push_tail s e v.run h)
        (rw (drop-append_snoc k s.events e (omega arith)) (get_last?-snoc (drop k s.events) e))

  pub append_appended :
      (s : InvocationJournal P) (e : EventEnvelope P)
      → (append s e).1 ≡ ok appended
      → ((append s e).0 ≡ push s e) × (expected s ≡ e.sequence)
  unfolding append
  append_appended s e h = ground arith

  push-is_retained :
      (s : InvocationJournal P) (e : EventEnvelope P)
      → IsContiguous s
      → 0 < s.maximum
      → e.sequence < u64_max
      → q.eq e.event e.event ≡ true
      → e.sequence ≡ suc (s.evicted_through + length s.events)
      → append (push s e) e ≡ (push s e, ok already_present)
  unfolding append is_retained
  push-is_retained s e v m b p h =
      let w : IsContiguous (push s e) = push-IsContiguous s e v h (omega arith) in
      let last = last-push s e v h m in
      let found = find-last (push s e).evicted_through (push s e).events e w.run last in
      let number = sequence_of_last (push s e).evicted_through (push s e).events e w.run last in
      ground (arith, expected_of_Run (push s e) w.run, number, found, envelope_eq_refl e p)

  -- An envelope that was just appended, and whose payload equals itself, is answered
  -- `already_present` when it is sent again, and the journal stays as it is: for a journal that
  -- keeps at least one event and a sequence that a u64 can still count past.
  pub append_twice :
      (s : InvocationJournal P) (e : EventEnvelope P)
      → IsContiguous s
      → 0 < s.maximum
      → e.sequence < u64_max
      → q.eq e.event e.event ≡ true
      → (append s e).1 ≡ ok appended
      → append (append s e).0 e ≡ ((append s e).0, ok already_present)
  append_twice s e v m b p h =
      let (pushed, next) = append_appended s e h in
      let number : e.sequence ≡ suc (s.evicted_through + length s.events) =
        ground (arith, expected_of_Run s v.run) in
      rw pushed (push-is_retained s e v m b p number)
