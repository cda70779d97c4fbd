-- ===== src/Journal/Store/Runs.antt =====
-- src/journal.rs: sequences of calls of `InMemoryEventJournal`.
use agent_runtime_sdk.Prelude.{
  Option-cases, length, All, Text, ◌≤◌, ◌<◌, ◌≡◌, refl, ap, ◌∙◌, subst, inl, inr, List, [], ◌∷◌,
  ◌++◌, arith, text_eq,
}
use agent_runtime_sdk.Prelude.Words.{u64_max}
use agent_runtime_sdk.Prelude.Map.{get, insert, remove, Each, length-keys, Each-map}
use agent_runtime_sdk.Journal.Types.{EventEnvelope, EventJournalLimits, PartialEq}
use agent_runtime_sdk.Journal.Invocation.Contiguous.{IsContiguous}
use agent_runtime_sdk.Journal.Runtime
use agent_runtime_sdk.Journal.Runtime.{RuntimeJournal}
use agent_runtime_sdk.Journal.Store.{
  EventJournal, with_limits, evict_runtimes, admit, append_to, append, remove_runtime,
}
use agent_runtime_sdk.Journal.Store.Bounds.{
  IsFiled, IsBounded, append-IsBounded, remove_runtime-IsBounded, with_limits-IsBounded,
}

-- The calls that change the journal. A replay reads it only.
pub data Call (P : Type 0) : Type 0 where
  appends : EventEnvelope P → Call P
  removes : Text → Call P

abbrev pub step : {P : Type 0} ⦃q : PartialEq P⦄ → EventJournal P → Call P → EventJournal P
step j (appends e) = (append j e).0
step j (removes id) = remove_runtime j id

abbrev pub run : {P : Type 0} ⦃q : PartialEq P⦄ → EventJournal P → List (Call P) → EventJournal P
run j [] = j
run j (c ∷ cs) = run (step j c) cs

-- Every sequence that the calls append is below the last that a u64 holds.
abbrev pub Countable : {P : Type 0} → Call P → Type 0
Countable (appends e) = e.sequence < u64_max
Countable (removes id) = Unit

run-IsBounded :
    {P : Type 0} ⦃q : PartialEq P⦄ (j : EventJournal P) (cs : List (Call P))
    → IsBounded j
    → All Countable cs
    → IsBounded (run j cs)
run-IsBounded j [] v h = v
run-IsBounded j (appends e ∷ cs) v h =
    run-IsBounded (append j e).0 cs (append-IsBounded j e v h.0) h.1
run-IsBounded j (removes id ∷ cs) v h =
    run-IsBounded (remove_runtime j id) cs (remove_runtime-IsBounded j id v) h.1

module _ {P : Type 0} ⦃q : PartialEq P⦄ where
  evict_runtimes-limits :
      (xs : List Text) (j : EventJournal P) → (evict_runtimes xs j).limits ≡ j.limits
  unfolding evict_runtimes
  evict_runtimes-limits [] j = refl
  evict_runtimes-limits (x ∷ xs) j =
      ground (arith, evict_runtimes-limits xs (record j { runtimes = remove x j.runtimes }))

  append_to-limits :
      (j : EventJournal P) (e : EventEnvelope P) → (append_to j e).0.limits ≡ j.limits
  unfolding append_to
  append_to-limits j e = elim (Option-cases (get e.runtime_id j.runtimes)) [
    | inl missing ↦ rw (missing, append_to) refl
    | inr (r, found) ↦ rw (found, append_to) refl
  ]

  append-limits : (j : EventJournal P) (e : EventEnvelope P) → (append j e).0.limits ≡ j.limits
  unfolding append admit
  append-limits j e = ground (
    arith,
    append_to-limits j e,
    append_to-limits (admit j e.runtime_id) e,
    evict_runtimes-limits (j.runtime_order ++ e.runtime_id ∷ []) (record j {
      runtimes = insert e.runtime_id (Runtime.new j.limits.max_invocations_per_runtime) j.runtimes;
      runtime_order = j.runtime_order ++ e.runtime_id ∷ [];
    }),
  )

  run-limits : (j : EventJournal P) (cs : List (Call P)) → (run j cs).limits ≡ j.limits
  run-limits j [] = refl
  run-limits j (appends e ∷ cs) = run-limits (append j e).0 cs ∙ append-limits j e
  run-limits j (removes id ∷ cs) =
      run-limits (remove_runtime j id) cs ∙ unfold remove_runtime in refl

-- The bounds that a runtime's journal keeps to.
pub record WithinLimits {P : Type 0} (limits : EventJournalLimits) (r : RuntimeJournal P)
    : Type 0 where
  pub invocations : length r.invocations ≤ limits.max_invocations_per_runtime
  pub evicted : length r.evicted_invocations ≤ limits.max_invocations_per_runtime
  pub events :
      Each
        (λ id s. IsContiguous s × (length s.events ≤ limits.max_events_per_invocation))
        r.invocations

IsFiled-WithinLimits :
    {P : Type 0} (limits : EventJournalLimits) (id : Text) (r : RuntimeJournal P)
    → IsFiled limits id r
    → WithinLimits limits r
IsFiled-WithinLimits limits id r f = record {
  invocations = omega (
    arith,
    length-keys r.invocations,
    ap length f.formed.live.synced,
    f.formed.live_bounded,
    f.limit,
  );
  evicted = omega (arith, ap length f.formed.gone.synced, f.formed.gone_bounded, f.limit);
  events =
      Each-map _ _ (λ k s h. (h.contiguous, omega (arith, h.contiguous.bounded, h.limit)))
        r.invocations f.formed.live.filed;
}

-- After any list of appends and removals put to a new journal, it holds at most `max_runtimes`
-- runtimes, each with at most `max_invocations_per_runtime` invocations and as many evicted ones,
-- and each invocation's events are a gap-free run of at most `max_events_per_invocation`, as long
-- as no append carries the last sequence that a u64 holds.
pub run_bounds :
    {P : Type 0} ⦃q : PartialEq P⦄ (limits : EventJournalLimits) (cs : List (Call P))
    → All Countable cs
    → let j = run (with_limits {P = P} limits) cs in
      (length j.runtimes ≤ limits.max_runtimes) × Each (λ _. WithinLimits limits) j.runtimes
run_bounds {P} limits cs h =
    let j : EventJournal P = run (with_limits limits) cs in
    let v : IsBounded j = run-IsBounded (with_limits limits) cs (with_limits-IsBounded limits) h in
    let same : j.limits ≡ limits = run-limits (with_limits limits) cs in
    (
      omega (
        arith,
        length-keys j.runtimes,
        ap length v.live.synced,
        ap (λ l. l.max_runtimes) same,
        v.bounded,
      ),
      subst (λ l. Each (λ _. WithinLimits l) j.runtimes) same
          (Each-map _ _ (IsFiled-WithinLimits j.limits) j.runtimes v.live.filed),
    )
