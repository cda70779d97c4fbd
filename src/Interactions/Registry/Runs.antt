-- ===== src/Interactions/Registry/Runs.antt =====
-- src/interactions.rs: sequences of registrations, resolutions and drops.
use agent_runtime_sdk.Prelude.{
  ℕ, suc, max, ◌+◌, ◌≤◌, ◌<◌, ◌≡◌, refl, ◌∙◌, inl, inr, Bool, Bool-cases, List, [], ◌∷◌, ◌++◌,
  arith, Text, text_eq, length, leb, eqb,
}
use agent_runtime_sdk.Prelude.Words.{u64_max}
use agent_runtime_sdk.Prelude.Map.{get, remove, contains, discard, Distinct, Each}
use agent_runtime_sdk.Interactions.Registry.{
  Registry, new, forget_resolved, mark_resolved, register, resolve, drop_guard,
}
use agent_runtime_sdk.Interactions.Registry.Invariant.{
  IsValid, IsOlder, Slot-cases, register-IsValid, resolve-IsValid, drop_guard-IsValid, new-IsValid,
}
use agent_runtime_sdk.Interactions.Registry.Staged.{staged_count}

-- The calls that change the registry. A resolution carries which receivers exist when it is made.
pub data Call (T : Type 0) : Type 0 where
  registers : Text → ℕ → Call T
  resolves : (ℕ → Bool) → Text → T → Call T
  drops : Text → ℕ → Call T

module _ {T : Type 0} where
  abbrev pub step : Registry T → Call T → Registry T
  step r (registers id channel) = (register r id channel).0
  step r (resolves alive id value) = (resolve alive r id value).registry
  step r (drops id own) = drop_guard r id own

  abbrev pub run : Registry T → List (Call T) → Registry T
  run r [] = r
  run r (call ∷ calls) = run (step r call) calls

  -- A step gives at most one generation, and leaves the maximum.
  abbrev Advances : Registry T → Registry T → Type 0
  Advances before after =
      (after.next_generation ≤ suc before.next_generation) × (after.maximum ≡ before.maximum)

  forget_resolved-Advances :
      (xs : List Text) (r : Registry T)
      → ((forget_resolved xs r).next_generation ≡ r.next_generation)
        × ((forget_resolved xs r).maximum ≡ r.maximum)
  unfolding forget_resolved
  forget_resolved-Advances [] r = (refl, refl)
  forget_resolved-Advances (x ∷ xs) r =
      ground (arith, forget_resolved-Advances xs (record r { resolved = discard x r.resolved }))

  mark_resolved-Advances : (r : Registry T) (id : Text) → Advances r (mark_resolved r id)
  unfolding mark_resolved
  mark_resolved-Advances r id = elim (Bool-cases (contains id r.resolved)) [
    | inl again ↦
        let (next, same) = forget_resolved-Advances r.resolved_order r in
        rw again (omega (arith, next), same)
    | inr first ↦
        let (next, same) = forget_resolved-Advances (r.resolved_order ++ id ∷ []) (record r {
          resolved = r.resolved ++ id ∷ [];
          resolved_order = r.resolved_order ++ id ∷ [];
        }) in
        rw first (omega (arith, next), same)
  ]

  register-Advances :
      (r : Registry T) (id : Text) (channel : ℕ) → Advances r (register r id channel).0
  unfolding register
  register-Advances r id channel = elim (Bool-cases (contains id r.resolved)) [
    | inl old ↦ rw old (omega arith, refl)
    | inr live ↦ rw live (elim (Slot-cases (get id r.slots)) [
      | inl e ↦ rw (e, register) (ground arith, refl)
      | inr (inl (g, s, e)) ↦ rw (e, register) (omega arith, refl)
      | inr (inr (w, e)) ↦
          rw (e, register) (mark_resolved-Advances (record r { slots = remove id r.slots }) id)
    ])
  ]

  resolve-Advances :
      (alive : ℕ → Bool) (r : Registry T) (id : Text) (value : T)
      → Advances r (resolve alive r id value).registry
  unfolding resolve
  resolve-Advances alive r id value = elim (Bool-cases (contains id r.resolved)) [
    | inl old ↦ rw old (omega arith, refl)
    | inr live ↦ rw live (elim (Slot-cases (get id r.slots)) [
      | inl e ↦
          rw (e, resolve)
            (elim (Bool-cases (leb r.maximum (length r.slots))) [
              | inl full ↦ rw full (omega arith, refl)
              | inr room ↦ rw room (omega arith, refl)
            ])
      | inr (inl (g, s, e)) ↦
          rw (e, resolve)
            (elim (Bool-cases (alive s)) [
              | inl here ↦
                  rw here (mark_resolved-Advances (record r { slots = remove id r.slots }) id)
              | inr gone ↦ rw gone (omega arith, refl)
            ])
      | inr (inr (w, e)) ↦ rw (e, resolve) (omega arith, refl)
    ])
  ]

  drop_guard-Advances : (r : Registry T) (id : Text) (own : ℕ) → Advances r (drop_guard r id own)
  unfolding drop_guard
  drop_guard-Advances r id own = elim (Slot-cases (get id r.slots)) [
    | inl e ↦ rw (e, drop_guard) (omega arith, refl)
    | inr (inl (g, s, e)) ↦
        rw (e, drop_guard)
          (elim (Bool-cases (eqb g own)) [
            | inl same ↦ rw same (omega arith, refl)
            | inr other ↦ rw other (omega arith, refl)
          ])
    | inr (inr (w, e)) ↦ rw (e, drop_guard) (omega arith, refl)
  ]

  run-IsValid :
      (r : Registry T) (calls : List (Call T))
      → IsValid r
      → r.next_generation + length calls < u64_max
      → IsValid (run r calls) × ((run r calls).maximum ≡ r.maximum)
  run-IsValid r [] v b = (v, refl)
  run-IsValid r (registers id channel ∷ calls) v b =
      let (next, same) = register-Advances r id channel in
      let (valid, kept) =
        run-IsValid (register r id channel).0 calls (register-IsValid r id channel v (omega arith))
          (omega (arith, next)) in
      (valid, kept ∙ same)
  run-IsValid r (resolves alive id value ∷ calls) v b =
      let (next, same) = resolve-Advances alive r id value in
      let (valid, kept) =
        run-IsValid (resolve alive r id value).registry calls (resolve-IsValid alive r id value v)
          (omega (arith, next)) in
      (valid, kept ∙ same)
  run-IsValid r (drops id own ∷ calls) v b =
      let (next, same) = drop_guard-Advances r id own in
      let (valid, kept) =
        run-IsValid (drop_guard r id own) calls (drop_guard-IsValid r id own v)
          (omega (arith, next)) in
      (valid, kept ∙ same)

  -- After any list of registrations, resolutions and drops put to a new registry, fewer than a u64
  -- can number, at most `maximum` responses (at least 1) are staged and at most as many resolved
  -- identifiers remembered, each once and in step with their queue, and every waiter has a generation
  -- that was given before.
  pub registry_bounds :
      (maximum : ℕ) (calls : List (Call T))
      → suc (length calls) < u64_max
      → let r = run (new maximum) calls in
        (staged_count r.slots ≤ max maximum 1)
        × (length r.resolved_order ≤ max maximum 1)
        × (r.resolved ≡ r.resolved_order)
        × Distinct r.resolved_order
        × Each (λ id slot. IsOlder r.next_generation slot) r.slots
  unfolding new
  registry_bounds maximum calls b =
      let (v, same) = run-IsValid (new maximum) calls (new-IsValid maximum) (omega arith) in
      (
        omega (arith, v.staged, same),
        omega (arith, v.remembered, same),
        v.synced,
        v.distinct,
        v.older,
      )
