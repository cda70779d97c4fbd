-- ===== src/Journal/Runtime/Eviction.antt =====
-- src/journal.rs: the invocations of a `RuntimeJournal` when the oldest are evicted.
use agent_runtime_sdk.Prelude.{
  ℕ, suc, ◌≡◌, ◌≤◌, refl, List, [], ◌∷◌, ◌++◌, Text, text_eq, ltb, length, arith, ap, ◌∙◌,
  Bool-cases, inl, inr, ==_refl, All,
}
use agent_runtime_sdk.Prelude.Map.{
  Map, remove, contains, discard, keys, keys-remove, Distinct, Distinct-snoc, discard_absent, Each,
  Each-remove,
}
use agent_runtime_sdk.Journal.Invocation.{InvocationJournal}
use agent_runtime_sdk.Journal.Invocation.Contiguous.{IsContiguous}
use agent_runtime_sdk.Journal.Runtime.{RuntimeJournal, evict, evict_invocations, forget_evicted}

-- A queue names the elements of its set, each once.
pub record Gone (set : List Text) (order : List Text) : Type 0 where
  pub synced : set ≡ order
  pub distinct : Distinct order

module _ {P : Type 0} where
  -- What holds of an invocation's journal under its identifier.
  pub record IsFiled (max_events : ℕ) (id : Text) (s : InvocationJournal P) : Type 0 where
    pub contiguous : IsContiguous s
    pub limit : s.maximum ≡ max_events
    pub own : All (λ e. e.invocation_id ≡ id) s.events

  -- A queue names the entries of its map, each once, and each is well filed.
  pub record Live (max_events : ℕ) (m : Map Text (InvocationJournal P)) (order : List Text)
      : Type 0 where
    pub synced : keys m ≡ order
    pub distinct : Distinct order
    pub filed : Each (IsFiled max_events) m

  pub record IsWellFormed (max_events : ℕ) (r : RuntimeJournal P) : Type 0 where
    pub live : Live max_events r.invocations r.invocation_order
    pub live_bounded : length r.invocation_order ≤ r.max_invocations
    pub gone : Gone r.evicted_invocations r.evicted_order
    pub gone_bounded : length r.evicted_order ≤ r.max_invocations

  remove-Live :
      (n : ℕ) (x : Text) (xs : List Text) (m : Map Text (InvocationJournal P))
      → Live n m (x ∷ xs)
      → Live n (remove x m) xs
  remove-Live n x xs m v = record {
    synced = keys-remove x m ∙ ap (discard x) v.synced ∙ head_gone;
    distinct = v.distinct.1;
    filed = Each-remove (IsFiled n) x m v.filed;
  }
    where
      head_gone : discard x (x ∷ xs) ≡ xs
      head_gone = unfold discard in rw (==_refl x) (discard_absent x xs v.distinct.0)

  pub evict_fields :
      (x : Text) (r : RuntimeJournal P)
      → ((evict x r).invocations ≡ remove x r.invocations)
        × ((evict x r).max_invocations ≡ r.max_invocations)
  unfolding evict
  evict_fields x r = ground arith

  evict-Gone :
      (x : Text) (r : RuntimeJournal P)
      → Gone r.evicted_invocations r.evicted_order
      → Gone (evict x r).evicted_invocations (evict x r).evicted_order
  unfolding evict
  evict-Gone x r v = elim (Bool-cases (contains x r.evicted_invocations)) [
    | inl old ↦ rw old v
    | inr new_one ↦ rw new_one (record {
      synced = ap (λ s. s ++ x ∷ []) v.synced;
      distinct = Distinct-snoc x r.evicted_order (rw v.synced at new_one) v.distinct;
    })
  ]

  -- After the first loop the queue is within its bound; the second queue is still in step.
  pub evict_invocations_loop :
      (n m : ℕ) (xs : List Text) (r : RuntimeJournal P)
      → r.max_invocations ≡ m
      → Live n r.invocations xs
      → Gone r.evicted_invocations r.evicted_order
      → let r' = evict_invocations xs r in
        Live n r'.invocations r'.invocation_order
        × (length r'.invocation_order ≤ m)
        × Gone r'.evicted_invocations r'.evicted_order
        × (r'.max_invocations ≡ m)
  unfolding evict_invocations
  evict_invocations_loop n m [] r same v g = (v, omega arith, g, same)
  evict_invocations_loop n m (x ∷ xs) r same v g =
      elim (Bool-cases (ltb r.max_invocations (suc (length xs)))) [
        | inl over ↦
            let (removed, kept) = evict_fields x r in
            rw over (
              evict_invocations_loop n m xs (evict x r) (kept ∙ same)
                (rw removed (remove-Live n x xs r.invocations v)) (evict-Gone x r g))
        | inr within ↦ rw within (v, ground arith, g, same)
      ]

  pub forget_evicted_loop :
      (xs : List Text) (r : RuntimeJournal P)
      → Gone r.evicted_invocations xs
      → let r' = forget_evicted xs r in
        Gone r'.evicted_invocations r'.evicted_order
        × (length r'.evicted_order ≤ r.max_invocations)
        × (r'.invocations ≡ r.invocations)
        × (r'.invocation_order ≡ r.invocation_order)
        × (r'.max_invocations ≡ r.max_invocations)
  unfolding forget_evicted
  forget_evicted_loop [] r g = (g, omega arith, refl, refl, refl)
  forget_evicted_loop (x ∷ xs) r g = elim (Bool-cases (ltb r.max_invocations (suc (length xs)))) [
    | inl over ↦ rw over (
        forget_evicted_loop xs _
          (record { synced = ap (discard x) g.synced ∙ head_gone; distinct = g.distinct.1 }))
    | inr within ↦ rw within (g, ground arith, refl, refl, refl)
  ]
    where
      head_gone : discard x (x ∷ xs) ≡ xs
      head_gone = unfold discard in rw (==_refl x) (discard_absent x xs g.distinct.0)
