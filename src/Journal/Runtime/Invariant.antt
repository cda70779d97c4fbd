-- ===== src/Journal/Runtime/Invariant.antt =====
-- src/journal.rs: the maps of `RuntimeJournal` and their queues.
use agent_runtime_sdk.Prelude.{
  ℕ, ◌≡◌, ◌<◌, refl, Bool, true, false, List, [], ◌∷◌, ◌++◌, none, Text, text_eq, if◌then◌else◌,
  eqb, length, not, arith, ap, ◌∙◌, Bool-cases, Option-cases, inl, inr, All, All-drop, All-append,
  ◌-◌,
}
use agent_runtime_sdk.Prelude.Words.{u64_max}
use agent_runtime_sdk.Prelude.Map.{
  get, insert, contains_key, contains, keys-insert_new, keys-insert_old, contains_key-keys,
  Distinct-snoc, Each-get, Each-insert,
}
use agent_runtime_sdk.Prelude.Result.{err}
use agent_runtime_sdk.Journal.Types.{EventEnvelope, PartialEq, sequence_gap}
use agent_runtime_sdk.Journal.Invocation
use agent_runtime_sdk.Journal.Invocation.{InvocationJournal, trim}
use agent_runtime_sdk.Journal.Invocation.Contiguous.{
  append-IsContiguous, new-IsContiguous, trim-drop,
}
use agent_runtime_sdk.Journal.Invocation.Idempotence.{append_unchanged, append_appended}
use agent_runtime_sdk.Journal.Runtime.{
  RuntimeJournal, new, evict_invocations, admit, append_to, append,
}
use agent_runtime_sdk.Journal.Runtime.Eviction.{
  IsFiled, IsWellFormed, evict_invocations_loop, forget_evicted_loop, Live,
}

module _ {P : Type 0} where
  insert-Live :
      (n : ℕ) (r : RuntimeJournal P) (id : Text)
      → IsWellFormed n r
      → get id r.invocations ≡ none
      → Live n (insert id (Invocation.new n) r.invocations) (r.invocation_order ++ id ∷ [])
  insert-Live n r id w fresh = record {
    synced =
        keys-insert_new id (Invocation.new n) r.invocations fresh
        ∙ ap (λ o. o ++ id ∷ []) w.live.synced;
    distinct = Distinct-snoc id r.invocation_order absent w.live.distinct;
    filed =
        Each-insert (IsFiled n) id (Invocation.new n) r.invocations
          (record {
            contiguous = new-IsContiguous n;
            limit = unfold Invocation.new in refl;
            own = unfold Invocation.new in tt;
          })
          w.live.filed;
  }
    where
      absent : contains id r.invocation_order ≡ false
      absent =
          rw (← w.live.synced, ← contains_key-keys id r.invocations) (rw (fresh, contains_key) refl)

  pub admit-IsWellFormed :
      (n : ℕ) (r : RuntimeJournal P) (id : Text)
      → IsWellFormed n r
      → get id r.invocations ≡ none
      → IsWellFormed n (admit r id n) × ((admit r id n).max_invocations ≡ r.max_invocations)
  unfolding admit
  admit-IsWellFormed n r id w fresh =
      let added : RuntimeJournal P = record r {
        invocations = insert id (Invocation.new n) r.invocations;
        invocation_order = r.invocation_order ++ id ∷ [];
      } in
      let grown : Live n added.invocations added.invocation_order = insert-Live n r id w fresh in
      let (live, bound, gone, same) =
        evict_invocations_loop n r.max_invocations added.invocation_order added refl grown w.gone in
      let evicted : RuntimeJournal P = evict_invocations added.invocation_order added in
      let (gone', bound', inv, order, same') =
        forget_evicted_loop evicted.evicted_order evicted gone in
      (
        record {
          live = rw (inv, order) live;
          live_bounded = rw (order, same', same) bound;
          gone = gone';
          gone_bounded = rw same' bound';
        },
        same' ∙ same,
      )

  All-trim :
      (Q : EventEnvelope P → Type 0) (m : ℕ) (es : List (EventEnvelope P)) (n : ℕ)
      → All Q es
      → All Q (trim m es n).0
  All-trim Q m es n a = rw (trim-drop m es n) (All-drop Q (length es - m) es a)

  append-IsFiled :
      ⦃q : PartialEq P⦄ (n : ℕ) (s : InvocationJournal P) (e : EventEnvelope P)
      → IsFiled n e.invocation_id s
      → e.sequence < u64_max
      → IsFiled n e.invocation_id (Invocation.append s e).0
  append-IsFiled n s e f b = elim (append_unchanged s e) [
    | inr same ↦ rw same f
    | inl done ↦
        let pushed = (append_appended s e done).0 in
        record {
          contiguous = append-IsContiguous s e f.contiguous b;
          limit = rw pushed (unfold Invocation.push in f.limit);
          own = rw pushed (
              unfold Invocation.push in
              All-trim (λ x. x.invocation_id ≡ e.invocation_id) s.maximum (s.events ++ e ∷ [])
                s.evicted_through
                (All-append (λ x. x.invocation_id ≡ e.invocation_id) s.events (e ∷ []) f.own
                  (refl, tt)));
        }
  ]

  -- Every append keeps the maps and queues of a runtime's journal in step and within their bounds,
  -- for a sequence that is not the last that a u64 holds.
  pub append_to-IsWellFormed :
      ⦃q : PartialEq P⦄ (n : ℕ) (r : RuntimeJournal P) (e : EventEnvelope P)
      → IsWellFormed n r
      → e.sequence < u64_max
      → IsWellFormed n (append_to r e).0
  unfolding append_to
  append_to-IsWellFormed n r e w b = elim (Option-cases (get e.invocation_id r.invocations)) [
    | inl missing ↦ rw (missing, append_to) w
    | inr (s, found) ↦
        rw (found, append_to)
          (record {
            live = record {
              synced = keys-insert_old e.invocation_id _ s r.invocations found ∙ w.live.synced;
              distinct = w.live.distinct;
              filed =
                  Each-insert (IsFiled n) e.invocation_id (Invocation.append s e).0 r.invocations
                    (append-IsFiled n s e
                      (Each-get (IsFiled n) e.invocation_id s r.invocations w.live.filed found) b)
                    w.live.filed;
            };
            live_bounded = w.live_bounded;
            gone = w.gone;
            gone_bounded = w.gone_bounded;
          })
  ]

  -- An append keeps a runtime's journal well formed: its orders name its invocations and the evicted
  -- ones, each once and within the maximum, and each invocation's events are its own, gap-free and
  -- bounded; for an envelope whose sequence is not the last that a u64 holds.
  pub append-IsWellFormed :
      ⦃q : PartialEq P⦄ (n : ℕ) (r : RuntimeJournal P) (e : EventEnvelope P)
      → IsWellFormed n r
      → e.sequence < u64_max
      → IsWellFormed n (append r e n).0
  unfolding append
  append-IsWellFormed n r e w b =
      elim (Bool-cases (contains e.invocation_id r.evicted_invocations)) [
        | inl forgotten ↦ rw forgotten w
        | inr remembered ↦ rw remembered (elim (Option-cases (get e.invocation_id r.invocations)) [
          | inr (s, found) ↦ rw (found, contains_key) (append_to-IsWellFormed n r e w b)
          | inl fresh ↦ rw (fresh, contains_key) (first fresh (eqb e.sequence 1))
        ])
      ]
    where
      first :
          get e.invocation_id r.invocations ≡ none
          → (starts : Bool)
          → IsWellFormed n
              (if not starts
                then (r, err (sequence_gap e.runtime_id e.invocation_id 1 e.sequence))
                else append_to (admit r e.invocation_id n) e).0
      first fresh true =
          append_to-IsWellFormed n _ e (admit-IsWellFormed n r e.invocation_id w fresh).0 b
      first fresh false = w

  pub new-IsWellFormed : (n m : ℕ) → IsWellFormed {P = P} n (new m)
  unfolding new
  new-IsWellFormed n m = record {
    live = record { synced = refl; distinct = tt; filed = tt };
    live_bounded = omega arith;
    gone = record { synced = refl; distinct = tt };
    gone_bounded = omega arith;
  }
