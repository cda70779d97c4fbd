-- ===== src/Journal/Replay/Drain.antt =====
-- src/journal.rs: a client that calls `RuntimeJournal::replay` page after page.
use mathlib.Core.Option
use agent_runtime_sdk.Prelude.{
  Bool-cases, Option-cases, ge→ltb, All, All-map, All-zip, Text, text_eq, ℕ, suc, ◌≤◌, ◌≡◌, refl,
  inl, inr, false, none, some, List, [], ◌∷◌, arith, ltb, length, take, length-drop, All-append,
  All-select, All-take, zero, ◌<◌, min, true, Option, ◌++◌, ltb→lt, ltb→ge, take-append-drop,
  take_of_length-le, ap,
}
use agent_runtime_sdk.Prelude.Map.{Map, get, contains, Each, Each-own}
use agent_runtime_sdk.Prelude.Order.{Each-btree_insert}
use agent_runtime_sdk.Prelude.Result.{ok, err}
use agent_runtime_sdk.Prelude.Sorting.{All-sort_by}
use agent_runtime_sdk.Journal.Types.{EventEnvelope, EventReplayRequest}
use agent_runtime_sdk.Journal.Invocation.{InvocationJournal}
use agent_runtime_sdk.Journal.Invocation.Contiguous.{Run}
use agent_runtime_sdk.Journal.Runtime.{RuntimeJournal}
use agent_runtime_sdk.Journal.Runtime.Eviction.{IsFiled, IsWellFormed}
use agent_runtime_sdk.Journal.Runtime.Disjoint.{Disjoint}
use agent_runtime_sdk.Journal.Replay.{
  check_cursors, is_selected, flat_events, is_after, event_le, pending, advance, replay,
}
use agent_runtime_sdk.Journal.Replay.Pages.{ClocksAdvance, pending_resumes}

module _ {P : Type 0} where
  -- The retained data still reaches back to a cursor.
  pub record Covered (r : RuntimeJournal P) (id : Text) (cursor : ℕ) : Type 0 where
    pub remembered : contains id r.evicted_invocations ≡ false
    pub reached :
        (s : InvocationJournal P) → get id r.invocations ≡ some s → s.evicted_through ≤ cursor

  pub check_cursors-Covered :
      (runtime_id : Text) (r : RuntimeJournal P) (after : Map Text ℕ)
      → Each (Covered r) after
      → check_cursors runtime_id r after ≡ none
  unfolding check_cursors
  check_cursors-Covered runtime_id r [] c = refl
  check_cursors-Covered runtime_id r ((id, cursor) ∷ rest) c =
      let later = check_cursors-Covered runtime_id r rest c.1 in
      rw c.0.remembered (elim (Option-cases (get id r.invocations)) [
        | inl absent ↦ rw (absent, check_cursors) later
        | inr (s, found) ↦
            rw (found, check_cursors)
              (rw (ge→ltb cursor s.evicted_through (c.0.reached s found)) later)
      ])

  Run-within : (n : ℕ) (es : List (EventEnvelope P)) → Run n es → All (λ e. n ≤ e.sequence) es
  Run-within n [] r = tt
  Run-within n (e ∷ es) r =
      (omega arith, All-map (λ x h. omega arith) es (Run-within (suc n) es r.1))

  file-Covered :
      (n : ℕ) (r : RuntimeJournal P) (id : Text) (s : InvocationJournal P)
      → Disjoint r
      → IsFiled n id s
      → get id r.invocations ≡ some s
      → All (λ e. Covered r e.invocation_id e.sequence) s.events
  file-Covered n r id s d f found =
      All-zip
        (λ e own within. rw own (record {
          remembered = elim (Bool-cases (contains id r.evicted_invocations)) [
            | inl evicted ↦ cc (d id evicted)
            | inr kept ↦ kept
          ];
          reached = λ t found_t. ground arith;
        }))
        s.events f.own (Run-within s.evicted_through s.events f.contiguous.run)

  flat-Covered :
      (r : RuntimeJournal P) (only : Option (List Text)) (m : Map Text (InvocationJournal P))
      → Each (λ id s. All (λ e. Covered r e.invocation_id e.sequence) s.events) m
      → All (λ e. Covered r e.invocation_id e.sequence) (flat_events only m)
  unfolding flat_events
  flat-Covered r only [] c = tt
  flat-Covered r only ((id, s) ∷ m) c =
      let rest = flat-Covered r only m c.1 in
      elim (Bool-cases (is_selected only id)) [
        | inl chosen ↦ rw chosen (All-append _ s.events (flat_events only m) c.0 rest)
        | inr skipped ↦ rw skipped rest
      ]

  Each-both {μ ν ξ} :
      (A : Text → InvocationJournal P → Type μ) (B : Text → InvocationJournal P → Type ν)
      (C : Text → InvocationJournal P → Type ξ)
      → ((k : Text) (v : InvocationJournal P) → A k v → B k v → C k v)
      → (m : Map Text (InvocationJournal P)) → Each A m
      → Each B m
      → Each C m
  Each-both A B C f [] a b = tt
  Each-both A B C f ((k, v) ∷ m) a b = (f k v a.0 b.0, Each-both A B C f m a.1 b.1)

  -- Every event that can be replayed is a cursor that the retained data reaches.
  pending-Covered :
      (n : ℕ) (r : RuntimeJournal P) (only : Option (List Text)) (after : Map Text ℕ)
      → IsWellFormed n r
      → Disjoint r
      → All (λ e. Covered r e.invocation_id e.sequence) (pending r only after)
  unfolding pending
  pending-Covered n r only after w d = All-sort_by event_le _ _ (
      All-select _ (is_after after) (flat_events only r.invocations) (
        flat-Covered r only r.invocations (
          Each-both (IsFiled n) (λ id s. get id r.invocations ≡ some s) _
            (λ id s f found. file-Covered n r id s d f found) r.invocations w.live.filed
            (Each-own r.invocations (rw w.live.synced w.live.distinct)))))

  advance-Covered :
      (r : RuntimeJournal P) (batch : List (EventEnvelope P)) (after : Map Text ℕ)
      → All (λ e. Covered r e.invocation_id e.sequence) batch
      → Each (Covered r) after
      → Each (Covered r) (advance after batch)
  unfolding advance
  advance-Covered r [] after c a = a
  advance-Covered r (e ∷ batch) after c a =
      advance-Covered r batch _ c.1
        (Each-btree_insert (Covered r) e.invocation_id e.sequence after c.0 a)

  -- A client that asks again from the cursors of a truncated batch, with rounds for fuel.
  unfoldable pub drain :
      ℕ → RuntimeJournal P → EventReplayRequest → ℕ → Option (List (EventEnvelope P))
  drain zero r request maximum = none
  drain (suc fuel) r request maximum = elim (replay r request maximum) [
    | err expired ↦ none
    | ok batch ↦ elim batch.truncated [
      | true ↦
          Option.map (λ more. batch.events ++ more)
            (drain fuel r (record request { after = batch.next }) maximum)
      | false ↦ some batch.events
    ]
  ]

  replay_page :
      (maximum : ℕ) (r : RuntimeJournal P) (request : EventReplayRequest)
      → Each (Covered r) request.after
      → let all = pending r request.only_invocations request.after in
        let batch = take (min request.limit maximum) all in
        replay r request maximum
        ≡ ok (record {
          events = batch;
          next = advance request.after batch;
          truncated = ltb request.limit (length all);
        })
  unfolding replay
  replay_page maximum r request cov =
      rw (check_cursors-Covered request.runtime_id r request.after cov, replay) refl

  -- With a limit between 1 and the maximum, and cursors that the retained data reaches, the client
  -- ends within one round more than there are events to replay, and has had exactly those, in the
  -- order of replay: for a well-formed journal in which each invocation's events were observed in
  -- the order of their sequences.
  pub drain-pending :
      (fuel n maximum : ℕ) (r : RuntimeJournal P) (request : EventReplayRequest)
      → IsWellFormed n r
      → Disjoint r
      → ClocksAdvance r
      → 0 < request.limit
      → request.limit ≤ maximum
      → Each (Covered r) request.after
      → length (pending r request.only_invocations request.after) < fuel
      → drain fuel r request maximum ≡ some (pending r request.only_invocations request.after)
  unfolding drain
  drain-pending zero n maximum r request w d c pos le cov enough = absurd (omega arith)
  drain-pending (suc fuel) n maximum r request w d c pos le cov enough =
      let only = request.only_invocations in
      let all = pending r only request.after in
      let k : ℕ = min request.limit maximum in
      rw (replay_page maximum r request cov, drain)
        (elim (Bool-cases (ltb request.limit (length all))) [
          | inl more ↦
              let next = advance request.after (take k all) in
              let resumed = pending_resumes n k r only request.after w c in
              let rest =
                drain-pending fuel n maximum r (record request { after = next }) w d c pos le
                  (advance-Covered r (take k all) request.after
                    (All-take _ k all (pending-Covered n r only request.after w d)) cov)
                  (rw resumed
                    (let more_left = ltb→lt _ _ more in omega (arith, length-drop k all))) in
              rw (more, drain) (rw (rest, resumed) (ap some (take-append-drop k all)))
          | inr last ↦
              rw (last, drain)
                (ap some (take_of_length-le k all (let few = ltb→ge _ _ last in omega arith)))
        ])
