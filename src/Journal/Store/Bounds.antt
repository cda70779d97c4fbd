-- ===== src/Journal/Store/Bounds.antt =====
-- src/journal.rs: the limits of `InMemoryEventJournal`, operation by operation.
use agent_runtime_sdk.Prelude.{
  ltb, Bool-cases, Option-cases, length, ==_refl, nat_eq, Text, text_eq, suc, ◌≤◌, ◌<◌, ◌≡◌, refl,
  ap, ◌∙◌, inl, inr, false, none, List, [], ◌∷◌, ◌++◌, arith, eqb,
}
use agent_runtime_sdk.Prelude.Words.{u64_max}
use agent_runtime_sdk.Prelude.Map.{
  Map, get, insert, remove, contains_key, contains, discard, keys, keys-remove, keys-insert_new,
  keys-insert_old, contains_key-keys, Distinct, Distinct-snoc, Distinct-discard, discard_absent,
  Each, Each-get, Each-insert, Each-remove, length-discard-le,
}
use agent_runtime_sdk.Journal.Types.{EventEnvelope, EventJournalLimits, PartialEq}
use agent_runtime_sdk.Journal.Runtime
use agent_runtime_sdk.Journal.Runtime.{RuntimeJournal}
use agent_runtime_sdk.Journal.Runtime.Invariant.{append-IsWellFormed, new-IsWellFormed}
use agent_runtime_sdk.Journal.Runtime.Eviction.{IsWellFormed}
use agent_runtime_sdk.Journal.Runtime.Limits.{append-max}
use agent_runtime_sdk.Journal.Store.{
  EventJournal, with_limits, evict_runtimes, admit, append_to, append, remove_runtime,
}

discard_head : (x : Text) (xs : List Text) → contains x xs ≡ false → discard x (x ∷ xs) ≡ xs
unfolding discard
discard_head x xs h = rw (==_refl x) (discard_absent x xs h)

module _ {P : Type 0} where
  -- A runtime's journal is well formed under the journal's limits.
  pub record IsFiled (limits : EventJournalLimits) (id : Text) (r : RuntimeJournal P) : Type 0 where
    pub formed : IsWellFormed limits.max_events_per_invocation r
    pub limit : r.max_invocations ≡ limits.max_invocations_per_runtime

  pub record Live (limits : EventJournalLimits) (m : Map Text (RuntimeJournal P))
      (order : List Text) : Type 0 where
    pub synced : keys m ≡ order
    pub distinct : Distinct order
    pub filed : Each (IsFiled limits) m

  pub record IsBounded (j : EventJournal P) : Type 0 where
    pub live : Live j.limits j.runtimes j.runtime_order
    pub bounded : length j.runtime_order ≤ j.limits.max_runtimes

  remove-Live :
      (l : EventJournalLimits) (x : Text) (order : List Text) (m : Map Text (RuntimeJournal P))
      → Live l m order
      → Live l (remove x m) (discard x order)
  remove-Live l x order m v = record {
    synced = keys-remove x m ∙ ap (discard x) v.synced;
    distinct = Distinct-discard x order v.distinct;
    filed = Each-remove (IsFiled l) x m v.filed;
  }

  evict_runtimes_loop :
      (l : EventJournalLimits) (xs : List Text) (j : EventJournal P)
      → j.limits ≡ l
      → Live l j.runtimes xs
      → let j' = evict_runtimes xs j in
        Live l j'.runtimes j'.runtime_order
        × (length j'.runtime_order ≤ l.max_runtimes)
        × (j'.limits ≡ l)
  unfolding evict_runtimes
  evict_runtimes_loop l [] j same v = (v, omega arith, same)
  evict_runtimes_loop l (x ∷ xs) j same v =
      elim (Bool-cases (ltb j.limits.max_runtimes (suc (length xs)))) [
        | inl over ↦ rw over (
            evict_runtimes_loop l xs _ same
              (rw (← discard_head x xs v.distinct.0) (remove-Live l x (x ∷ xs) j.runtimes v)))
        | inr within ↦ rw within (v, ground arith, same)
      ]

  insert-Live :
      (l : EventJournalLimits) (j : EventJournal P) (id : Text)
      → Live l j.runtimes j.runtime_order
      → get id j.runtimes ≡ none
      → Live l
          (insert id (Runtime.new l.max_invocations_per_runtime) j.runtimes)
          (j.runtime_order ++ id ∷ [])
  insert-Live l j id v fresh =
      let new_one = Runtime.new l.max_invocations_per_runtime in
      record {
        synced = keys-insert_new id new_one j.runtimes fresh ∙ ap (λ o. o ++ id ∷ []) v.synced;
        distinct = Distinct-snoc id j.runtime_order absent v.distinct;
        filed =
            Each-insert (IsFiled l) id new_one j.runtimes
              (record {
                formed = new-IsWellFormed l.max_events_per_invocation l.max_invocations_per_runtime;
                limit = unfold Runtime.new in refl;
              })
              v.filed;
      }
    where
      absent : contains id j.runtime_order ≡ false
      absent = rw (← v.synced, ← contains_key-keys id j.runtimes) (rw (fresh, contains_key) refl)

  admit-IsBounded :
      (j : EventJournal P) (id : Text)
      → IsBounded j
      → get id j.runtimes ≡ none
      → IsBounded (admit j id)
  unfolding admit
  admit-IsBounded j id v fresh =
      let added : EventJournal P = record j {
        runtimes = insert id (Runtime.new j.limits.max_invocations_per_runtime) j.runtimes;
        runtime_order = j.runtime_order ++ id ∷ [];
      } in
      let (live, bound, same) =
        evict_runtimes_loop j.limits added.runtime_order added refl
          (insert-Live j.limits j id v.live fresh) in
      record { live = rw same live; bounded = rw same bound }

  append_to-IsBounded :
      ⦃q : PartialEq P⦄ (j : EventJournal P) (e : EventEnvelope P)
      → IsBounded j
      → e.sequence < u64_max
      → IsBounded (append_to j e).0
  unfolding append_to
  append_to-IsBounded j e v b = elim (Option-cases (get e.runtime_id j.runtimes)) [
    | inl missing ↦ rw (missing, append_to) v
    | inr (r, found) ↦
        let filed = Each-get (IsFiled j.limits) e.runtime_id r j.runtimes v.live.filed found in
        rw (found, append_to)
          (record {
            live = record {
              synced = keys-insert_old e.runtime_id _ r j.runtimes found ∙ v.live.synced;
              distinct = v.live.distinct;
              filed =
                  Each-insert (IsFiled j.limits) e.runtime_id _ j.runtimes
                    (record {
                      formed =
                          append-IsWellFormed j.limits.max_events_per_invocation r e filed.formed b;
                      limit = append-max r e j.limits.max_events_per_invocation ∙ filed.limit;
                    })
                    v.live.filed;
            };
            bounded = v.bounded;
          })
  ]

  pub append-IsBounded :
      ⦃q : PartialEq P⦄ (j : EventJournal P) (e : EventEnvelope P)
      → IsBounded j
      → e.sequence < u64_max
      → IsBounded (append j e).0
  unfolding append
  append-IsBounded j e v b = elim (Bool-cases (eqb e.schema_version 1)) [
    | inr other ↦ rw other v
    | inl supported ↦ rw supported (elim (Option-cases (get e.runtime_id j.runtimes)) [
      | inr (r, found) ↦ rw (found, contains_key) (append_to-IsBounded j e v b)
      | inl fresh ↦
          rw (fresh, contains_key)
            (append_to-IsBounded (admit j e.runtime_id) e (admit-IsBounded j e.runtime_id v fresh)
              b)
    ])
  ]

  pub remove_runtime-IsBounded :
      (j : EventJournal P) (id : Text) → IsBounded j → IsBounded (remove_runtime j id)
  unfolding remove_runtime
  remove_runtime-IsBounded j id v = record {
    live = remove-Live j.limits id j.runtime_order j.runtimes v.live;
    bounded = omega (arith, length-discard-le id j.runtime_order, v.bounded);
  }

  pub with_limits-IsBounded : (limits : EventJournalLimits) → IsBounded (with_limits limits)
  with_limits-IsBounded limits = record {
    live = record { synced = refl; distinct = tt; filed = tt };
    bounded = omega arith;
  }
