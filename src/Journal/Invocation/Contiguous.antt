-- ===== src/Journal/Invocation/Contiguous.antt =====
-- src/journal.rs: the sequences that `InvocationJournal` retains.
use agent_runtime_sdk.Prelude.{
  ℕ, zero, suc, ◌+◌, ◌-◌, ◌≤◌, ◌<◌, ◌≡◌, refl, List, [], ◌∷◌, ◌++◌, some, arith, length, get_last?,
  drop, length-snoc, length-drop, get_last?-none, Option-cases, inl, inr, ltb, sym, drop-nil,
  Bool-cases,
}
use agent_runtime_sdk.Prelude.Words.{saturating_add, u64_max}
use agent_runtime_sdk.Journal.Types.{EventEnvelope, PartialEq}
use agent_runtime_sdk.Journal.Invocation.{InvocationJournal, new, expected, trim, push, append}

module _ {P : Type 0} where
  -- Sequences n + 1, n + 2, ….
  abbrev pub Run : ℕ → List (EventEnvelope P) → Type 0
  Run n [] = Unit
  Run n (e ∷ es) = (e.sequence ≡ suc n) × Run (suc n) es

  pub record IsContiguous (s : InvocationJournal P) : Type 0 where
    pub run : Run s.evicted_through s.events
    pub bounded : length s.events ≤ s.maximum
    pub representable : s.evicted_through + length s.events ≤ u64_max

  pub Run-snoc :
      (n : ℕ) (es : List (EventEnvelope P)) (e : EventEnvelope P)
      → Run n es
      → e.sequence ≡ suc (n + length es)
      → Run n (es ++ e ∷ [])
  Run-snoc n [] e r h = omega arith
  Run-snoc n (x ∷ es) e r h = (r.0, Run-snoc (suc n) es e r.1 (omega arith))

  pub Run-drop :
      (k n : ℕ) (es : List (EventEnvelope P)) → Run n es → k ≤ length es → Run (n + k) (drop k es)
  Run-drop zero n es r h = let e : n + 0 ≡ n = omega arith in rw e r
  Run-drop (suc k) n [] r h = absurd (omega arith)
  Run-drop (suc k) n (x ∷ es) r h =
      let e : n + suc k ≡ suc n + k = omega arith in rw e (Run-drop k (suc n) es r.1 (omega arith))

  pub sequence_of_last :
      (n : ℕ) (es : List (EventEnvelope P)) (e : EventEnvelope P)
      → Run n es
      → get_last? es ≡ some e
      → e.sequence ≡ n + length es
  sequence_of_last n [] e r h = cc
  sequence_of_last n (x ∷ []) e r h = ground arith
  sequence_of_last n (x ∷ y ∷ ys) e r h = omega (arith, sequence_of_last (suc n) (y ∷ ys) e r.1 h)

  pub expected_of_Run :
      (s : InvocationJournal P)
      → Run s.evicted_through s.events
      → expected s ≡ saturating_add u64_max (s.evicted_through + length s.events) 1
  unfolding expected
  expected_of_Run s r = elim (Option-cases (get_last? s.events)) [
    | inl e ↦ ground (arith, get_last?-none s.events e)
    | inr (x, e) ↦ ground (arith, sequence_of_last s.evicted_through s.events x r e)
  ]

  pub trim-drop :
      (m : ℕ) (es : List (EventEnvelope P)) (n : ℕ) → (trim m es n).0 ≡ drop (length es - m) es
  unfolding trim
  trim-drop m [] n = sym (drop-nil (EventEnvelope P) (0 - m))
  trim-drop m (x ∷ es) n = elim (Bool-cases (ltb m (suc (length es)))) [
    | inl full ↦
        let e : suc (length es) - m ≡ suc (length es - m) = ground arith in
        rw (full, e) (trim-drop m es x.sequence)
    | inr fits ↦ let e : suc (length es) - m ≡ 0 = ground arith in rw (fits, e) refl
  ]

  pub trim-through :
      (m : ℕ) (es : List (EventEnvelope P)) (n : ℕ)
      → Run n es
      → (trim m es n).1 ≡ n + (length es - m)
  unfolding trim
  trim-through m [] n r = omega arith
  trim-through m (x ∷ es) n r = ground (arith, trim-through m es x.sequence)

  -- What a push leaves is the tail of the run.
  pub push_tail :
      (s : InvocationJournal P) (e : EventEnvelope P)
      → Run s.evicted_through s.events
      → e.sequence ≡ suc (s.evicted_through + length s.events)
      → push s e ≡ record s {
        events = drop (suc (length s.events) - s.maximum) (s.events ++ e ∷ []);
        evicted_through = s.evicted_through + (suc (length s.events) - s.maximum);
      }
  unfolding push
  push_tail s e r h = ground (
    arith,
    length-snoc s.events e,
    trim-drop s.maximum (s.events ++ e ∷ []) s.evicted_through,
    trim-through s.maximum (s.events ++ e ∷ []) s.evicted_through
        (Run-snoc s.evicted_through s.events e r h),
  )

  pub push-IsContiguous :
      (s : InvocationJournal P) (e : EventEnvelope P)
      → IsContiguous s
      → e.sequence ≡ suc (s.evicted_through + length s.events)
      → e.sequence ≤ u64_max
      → IsContiguous (push s e)
  push-IsContiguous s e v h b =
      let k : ℕ = suc (length s.events) - s.maximum in
      let all = s.events ++ e ∷ [] in
      let len = length-snoc s.events e in
      rw (push_tail s e v.run h) (record {
        run =
            Run-drop k s.evicted_through all (Run-snoc s.evicted_through s.events e v.run h)
              (omega (arith, len));
        bounded = omega (arith, len, length-drop k all);
        representable = omega (arith, len, length-drop k all, v.bounded, v.representable);
      })

  pub new-IsContiguous : (maximum : ℕ) → IsContiguous (new maximum)
  unfolding new
  new-IsContiguous maximum = record { run = tt; bounded = omega arith; representable = omega arith }

  -- An append keeps the retained events a gap-free run above `evicted_through`, no longer than the
  -- maximum, for every envelope whose sequence is not the last that a u64 holds.
  pub append-IsContiguous :
      ⦃q : PartialEq P⦄ (s : InvocationJournal P) (e : EventEnvelope P)
      → IsContiguous s
      → e.sequence < u64_max
      → IsContiguous (append s e).0
  unfolding append
  append-IsContiguous s e v b =
      ground (arith, push-IsContiguous s e v, expected_of_Run s v.run, v.representable)
