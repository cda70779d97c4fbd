-- ===== src/Journal/Replay/Pages.antt =====
-- src/journal.rs: consecutive pages of `RuntimeJournal::replay`.
use agent_runtime_sdk.Prelude.{
  Bool-cases, All, Pairwise, All-append, All-map, All-zip, ◌==◌, Text, text_eq, ℕ, suc, ◌≤◌, ◌<◌,
  ◌≡◌, inl, inr, true, ◌||◌, Option, List, [], ◌∷◌, arith, ltb→lt, lt→ltb, take, drop, select,
  take-append-drop, Pairwise-select, Pairwise-append, Pairwise-zip, All-split, Pairwise-split,
  select_satisfies, select-select, ==_iff, sym, ◌∙◌, false, ◌++◌, select-append, select_none,
  select-All, ap, Bool,
}
use agent_runtime_sdk.Prelude.Map.{Map, keys, contains, Each, Distinct}
use agent_runtime_sdk.Prelude.Sorting.{
  sort_by, sort_by-IsSorted, select-sort_by, Pairwise-sort_by, All-sort_by,
}
use agent_runtime_sdk.Journal.Types.{EventEnvelope}
use agent_runtime_sdk.Journal.Invocation.{InvocationJournal}
use agent_runtime_sdk.Journal.Invocation.Contiguous.{Run}
use agent_runtime_sdk.Journal.Runtime.{RuntimeJournal}
use agent_runtime_sdk.Journal.Runtime.Eviction.{IsFiled, IsWellFormed}
use agent_runtime_sdk.Journal.Replay.{
  is_selected, flat_events, is_after, event_le, pending, advance,
}
use agent_runtime_sdk.Journal.Replay.Order.{
  event_le_total, event_le_trans, Compatible, Compatible-symm, Follows, Follows-of_le,
}
use agent_runtime_sdk.Journal.Replay.Cursors.{advance_behind, advance_covers, advance_grows}

le_lt : {a b c : ℕ} → a ≤ b → b < c → a < c
le_lt h k = omega arith

module _ {P : Type 0} where
  -- The events of each invocation were observed in the order of their sequences.
  abbrev pub ClocksAdvance : RuntimeJournal P → Type 0
  ClocksAdvance r =
      Each (λ id s. Pairwise (λ a b. a.observed_at_unix_ms ≤ b.observed_at_unix_ms) s.events)
        r.invocations

  Run-above : (n : ℕ) (es : List (EventEnvelope P)) → Run n es → All (λ e. n < e.sequence) es
  Run-above n [] r = tt
  Run-above n (e ∷ es) r = (omega arith, All-map (λ x h. omega arith) es (Run-above (suc n) es r.1))

  Run-Compatible :
      (n : ℕ) (es : List (EventEnvelope P))
      → Run n es
      → Pairwise (λ a b. a.observed_at_unix_ms ≤ b.observed_at_unix_ms) es
      → Pairwise Compatible es
  Run-Compatible n [] r c = tt
  Run-Compatible n (e ∷ es) r c = (
    All-zip {Q = λ x. e.observed_at_unix_ms ≤ x.observed_at_unix_ms}
        (λ x above later same.
          (λ _. later, λ before. absurd (omega arith), λ equal. absurd (omega arith)))
        es (Run-above (suc n) es r.1) c.0,
    Run-Compatible (suc n) es r.1 c.1,
  )

  flat-keys :
      (n : ℕ) (only : Option (List Text)) (m : Map Text (InvocationJournal P))
      → Each (IsFiled n) m
      → All (λ e. contains e.invocation_id (keys m) ≡ true) (flat_events only m)
  unfolding flat_events contains
  flat-keys n only [] f = tt
  flat-keys n only ((id, s) ∷ m) f =
      let rest =
        All-map {Q = λ e. (id == e.invocation_id || contains e.invocation_id (keys m)) ≡ true}
          (λ e h. ground arith) (flat_events only m) (flat-keys n only m f.1) in
      elim (Bool-cases (is_selected only id)) [
        | inl chosen ↦ rw chosen (
            All-append _ s.events (flat_events only m)
              (All-map (λ e own. ground (arith, ==_iff id e.invocation_id)) s.events f.0.own) rest)
        | inr skipped ↦ rw skipped rest
      ]

  flat-Compatible :
      (n : ℕ) (only : Option (List Text)) (m : Map Text (InvocationJournal P))
      → Each (IsFiled n) m
      → Distinct (keys m)
      → Each (λ id s. Pairwise (λ a b. a.observed_at_unix_ms ≤ b.observed_at_unix_ms) s.events) m
      → Pairwise Compatible (flat_events only m)
  unfolding flat_events
  flat-Compatible n only [] f d c = tt
  flat-Compatible n only ((id, s) ∷ m) f d c =
      let rest = flat-Compatible n only m f.1 d.1 c.1 in
      elim (Bool-cases (is_selected only id)) [
        | inl chosen ↦ rw chosen (
            Pairwise-append Compatible s.events (flat_events only m)
              (Run-Compatible s.evicted_through s.events f.0.contiguous.run c.0) rest
              (All-map
                (λ x own.
                  All-map (λ y kept same. absurd (apart x y own kept same)) (flat_events only m)
                    (flat-keys n only m f.1))
                s.events f.0.own))
        | inr skipped ↦ rw skipped rest
      ]
    where
      apart :
          (x y : EventEnvelope P)
          → x.invocation_id ≡ id
          → contains y.invocation_id (keys m) ≡ true
          → x.invocation_id ≡ y.invocation_id
          → ⊥
      apart x y own kept same =
          let y_id : y.invocation_id ≡ id = sym same ∙ own in
          let here : contains id (keys m) ≡ true = rw y_id at kept in cc (d.0)

  -- The events to be replayed come in the order of their invocations' sequences.
  pub pending-Follows :
      (n : ℕ) (r : RuntimeJournal P) (only : Option (List Text)) (after : Map Text ℕ)
      → IsWellFormed n r
      → ClocksAdvance r
      → Pairwise Follows (pending r only after)
  unfolding pending
  pending-Follows n r only after w c =
      let asked = select (is_after after) (flat_events only r.invocations) in
      Pairwise-zip (λ x y le compatible. Follows-of_le x y le compatible) (sort_by event_le asked)
        (sort_by-IsSorted event_le event_le_total event_le_trans asked)
        (Pairwise-sort_by event_le Compatible Compatible-symm asked (
          Pairwise-select Compatible (is_after after) (flat_events only r.invocations) (
            flat-Compatible n only r.invocations w.live.filed (rw w.live.synced w.live.distinct)
              c)))

  pub pending-after :
      (r : RuntimeJournal P) (only : Option (List Text)) (after : Map Text ℕ)
      → All (λ e. is_after after e ≡ true) (pending r only after)
  unfolding pending
  pending-after r only after =
      All-sort_by event_le (λ e. is_after after e ≡ true) _
        (select_satisfies (is_after after) (flat_events only r.invocations))

  pending-narrows :
      (r : RuntimeJournal P) (only : Option (List Text)) (after next : Map Text ℕ)
      → ((e : EventEnvelope P) → is_after next e ≡ true → is_after after e ≡ true)
      → pending r only next ≡ select (is_after next) (pending r only after)
  unfolding pending
  pending-narrows r only after next grown =
      let flat = flat_events only r.invocations in
      ap (sort_by event_le) (sym (select-select (is_after next) (is_after after) flat grown))
      ∙ sym (
          select-sort_by event_le event_le_total event_le_trans (is_after next)
            (select (is_after after) flat))

  select-take-drop :
      (p : EventEnvelope P → Bool) (k : ℕ) (xs : List (EventEnvelope P))
      → All (λ e. p e ≡ false) (take k xs)
      → All (λ e. p e ≡ true) (drop k xs)
      → select p xs ≡ drop k xs
  select-take-drop p k xs out kept =
      ap (select p) (sym (take-append-drop k xs))
      ∙ select-append p (take k xs) (drop k xs)
      ∙ rw (select_none p (take k xs) out) (select-All p (drop k xs) kept)

  flip-All :
      (xs ys : List (EventEnvelope P))
      → All (λ x. All (Follows x) ys) xs
      → All (λ y. All (λ x. Follows x y) xs) ys
  flip-All xs [] h = tt
  flip-All xs (y ∷ ys) h = (All-map (λ x a. a.0) xs h, flip-All xs ys (All-map (λ x a. a.1) xs h))

  -- After a batch of the first k events, the cursors ask for exactly the events that remain: where
  -- each invocation's events were observed in the order of their sequences.
  pub pending_resumes :
      (n k : ℕ) (r : RuntimeJournal P) (only : Option (List Text)) (after : Map Text ℕ)
      → IsWellFormed n r
      → ClocksAdvance r
      → pending r only (advance after (take k (pending r only after)))
        ≡ drop k (pending r only after)
  pending_resumes n k r only after w c =
      let all = pending r only after in
      let batch = take k all in
      let rest = drop k all in
      let next = advance after batch in
      let joined : batch ++ rest ≡ all = take-append-drop k all in
      let ordered : Pairwise Follows (batch ++ rest) =
        rw joined (pending-Follows n r only after w c) in
      let (front, across) = Pairwise-split Follows batch rest ordered in
      let wanted : All (λ e. is_after after e ≡ true) (batch ++ rest) =
        rw joined (pending-after r only after) in
      let (wanted_front, wanted_rest) =
        All-split (λ e. is_after after e ≡ true) batch rest wanted in
      let grown : (e : EventEnvelope P) → is_after next e ≡ true → is_after after e ≡ true = λ e h.
        lt→ltb _ _
          (le_lt (advance_grows batch after e.invocation_id front wanted_front) (ltb→lt _ _ h)) in
      let still : All (λ e. is_after next e ≡ true) rest =
        All-zip (λ e h a. advance_behind batch after e h a) rest wanted_rest
          (flip-All batch rest across) in
      pending-narrows r only after next grown
      ∙ select-take-drop (is_after next) k all (advance_covers batch after front) still
