-- ===== src/Interactions/Registry/Invariant.antt =====
-- src/interactions.rs: the invariant of `Registry`.
use agent_runtime_sdk.Prelude.{
  ltb, Bool-cases, length, Text, text_eq, ℕ, suc, ◌≤◌, ◌<◌, ◌≡◌, refl, ap, ◌∙◌, inl, inr, some,
  List, [], ◌∷◌, arith, Bool, Option, ◌++◌, leb, eqb, leb→gt, ◌⊎◌, none,
}
use agent_runtime_sdk.Prelude.Words.{u64_max, saturating_add}
use agent_runtime_sdk.Prelude.Map.{
  get, insert, remove, contains, discard, Distinct, Each, discard_head, Distinct-snoc, Each-remove,
  Each-get, Each-insert, Each-map,
}
use agent_runtime_sdk.Interactions.Registry.{
  Slot, waiting, held, Registry, new, forget_resolved, mark_resolved, register, resolve, drop_guard,
}
use agent_runtime_sdk.Interactions.Registry.Staged.{
  staged_count, staged_count-le, staged_count-remove, staged_count-insert_waiting,
  staged_count-insert_held, staged_count-remove_held,
}

module _ {T : Type 0} where
  abbrev pub IsOlder : ℕ → Slot T → Type 0
  IsOlder next (waiting generation sender) = generation < next
  IsOlder next (held value) = Unit

  pub record IsValid (r : Registry T) : Type 0 where
    pub positive : 0 < r.maximum
    pub synced : r.resolved ≡ r.resolved_order
    pub distinct : Distinct r.resolved_order
    pub remembered : length r.resolved_order ≤ r.maximum
    pub staged : staged_count r.slots ≤ r.maximum
    pub older : Each (λ id slot. IsOlder r.next_generation slot) r.slots

  forget_resolved_loop :
      (xs : List Text) (r : Registry T)
      → r.resolved ≡ xs
      → Distinct xs
      → let r' = forget_resolved xs r in
        (r'.resolved ≡ r'.resolved_order)
        × Distinct r'.resolved_order
        × (length r'.resolved_order ≤ r.maximum)
        × (r'.slots ≡ r.slots)
        × (r'.next_generation ≡ r.next_generation)
        × (r'.maximum ≡ r.maximum)
  unfolding forget_resolved
  forget_resolved_loop [] r s d = (s, tt, omega arith, refl, refl, refl)
  forget_resolved_loop (x ∷ xs) r s d = elim (Bool-cases (ltb r.maximum (suc (length xs)))) [
    | inl over ↦ rw over (
        forget_resolved_loop xs (record r { resolved = discard x r.resolved })
          (ap (discard x) s ∙ discard_head x xs d.0) d.1)
    | inr within ↦ rw within (s, d, ground arith, refl, refl, refl)
  ]

  forget_resolved-IsValid :
      (s : Registry T)
      → 0 < s.maximum
      → s.resolved ≡ s.resolved_order
      → Distinct s.resolved_order
      → staged_count s.slots ≤ s.maximum
      → Each (λ id slot. IsOlder s.next_generation slot) s.slots
      → IsValid (forget_resolved s.resolved_order s)
  forget_resolved-IsValid s pos e d st old =
      let (synced, distinct, bound, slots, next, same) =
        forget_resolved_loop s.resolved_order s e d in
      record {
        positive = rw same pos;
        synced = synced;
        distinct = distinct;
        remembered = rw same bound;
        staged = rw (slots, same) st;
        older = rw (next, slots) old;
      }

  pub mark_resolved-IsValid :
      (r : Registry T) (id : Text) → IsValid r → IsValid (mark_resolved r id)
  unfolding mark_resolved
  mark_resolved-IsValid r id v = elim (Bool-cases (contains id r.resolved)) [
    | inl again ↦
        rw again (forget_resolved-IsValid r v.positive v.synced v.distinct v.staged v.older)
    | inr first ↦ rw first (
        forget_resolved-IsValid
          (record r {
            resolved = r.resolved ++ id ∷ [];
            resolved_order = r.resolved_order ++ id ∷ [];
          })
          v.positive (ap (λ s. s ++ id ∷ []) v.synced)
          (Distinct-snoc id r.resolved_order (rw v.synced at first) v.distinct) v.staged v.older)
  ]

  taken-IsValid :
      (r : Registry T) (id : Text) → IsValid r → IsValid (record r { slots = remove id r.slots })
  taken-IsValid r id v = record {
    positive = v.positive;
    synced = v.synced;
    distinct = v.distinct;
    remembered = v.remembered;
    staged = omega (arith, staged_count-remove id r.slots, v.staged);
    older = Each-remove _ id r.slots v.older;
  }

  IsOlder-suc : (n : ℕ) (slot : Slot T) → IsOlder n slot → IsOlder (suc n) slot
  IsOlder-suc n (waiting g s) h = omega arith
  IsOlder-suc n (held v) h = tt

  pub Slot-cases :
      (o : Option (Slot T))
      → (o ≡ none)
        ⊎ ((g : ℕ) × (s : ℕ) × (o ≡ some (waiting g s)))
        ⊎ ((v : T) × (o ≡ some (held v)))
  Slot-cases none = inl refl
  Slot-cases (some (waiting g s)) = inr (inl (g, s, refl))
  Slot-cases (some (held v)) = inr (inr (v, refl))

  -- Putting a slot back, or a waiter in, keeps the registry valid.
  put_waiting-IsValid :
      (r : Registry T) (id : Text) (g s : ℕ)
      → IsValid r
      → g < r.next_generation
      → IsValid (record r { slots = insert id (waiting g s) r.slots })
  put_waiting-IsValid r id g s v h = record {
    positive = v.positive;
    synced = v.synced;
    distinct = v.distinct;
    remembered = v.remembered;
    staged = omega (arith, staged_count-insert_waiting id g s r.slots, v.staged);
    older = Each-insert _ id (waiting g s) r.slots h v.older;
  }

  put_held-IsValid :
      (r : Registry T) (id : Text) (value : T)
      → IsValid r
      → staged_count r.slots < r.maximum
      → IsValid (record r { slots = insert id (held value) r.slots })
  put_held-IsValid r id value v h = record {
    positive = v.positive;
    synced = v.synced;
    distinct = v.distinct;
    remembered = v.remembered;
    staged = omega (arith, staged_count-insert_held id value r.slots, v.staged);
    older = Each-insert _ id (held value) r.slots tt v.older;
  }

  -- Registering a waiter keeps the registry valid, while a u64 can number the next generation.
  pub register-IsValid :
      (r : Registry T) (id : Text) (channel : ℕ)
      → IsValid r
      → r.next_generation < u64_max
      → IsValid (register r id channel).0
  unfolding register
  register-IsValid r id channel v b = elim (Bool-cases (contains id r.resolved)) [
    | inl old ↦ rw old v
    | inr open_one ↦ rw open_one (elim (Slot-cases (get id r.slots)) [
      | inl e ↦
          let next : Registry T = record r { next_generation = suc r.next_generation } in
          let counted : saturating_add u64_max r.next_generation 1 ≡ suc r.next_generation =
            ground arith in
          rw (e, register)
            (rw counted (
              put_waiting-IsValid next id r.next_generation channel
                (record {
                  positive = v.positive;
                  synced = v.synced;
                  distinct = v.distinct;
                  remembered = v.remembered;
                  staged = v.staged;
                  older =
                      Each-map _ _ (λ k slot h. IsOlder-suc r.next_generation slot h) r.slots
                        v.older;
                })
                (omega arith)))
      | inr (inl (g, s, e)) ↦
          rw (e, register)
            (put_waiting-IsValid _ id g s (taken-IsValid r id v) (
              Each-get (λ k slot. IsOlder r.next_generation slot) id (waiting g s) r.slots v.older
                e))
      | inr (inr (w, e)) ↦ rw (e, register) (mark_resolved-IsValid _ id (taken-IsValid r id v))
    ])
  ]

  -- Resolving an interaction keeps the registry valid.
  pub resolve-IsValid :
      (alive : ℕ → Bool) (r : Registry T) (id : Text) (value : T)
      → IsValid r
      → IsValid (resolve alive r id value).registry
  unfolding resolve
  resolve-IsValid alive r id value v = elim (Bool-cases (contains id r.resolved)) [
    | inl old ↦ rw old v
    | inr open_one ↦ rw open_one (elim (Slot-cases (get id r.slots)) [
      | inl e ↦
          rw (e, resolve)
            (elim (Bool-cases (leb r.maximum (length r.slots))) [
              | inl full ↦ rw full v
              | inr room ↦ rw room (
                  put_held-IsValid r id value v
                    (let fits = leb→gt _ _ room in omega (arith, staged_count-le r.slots)))
            ])
      | inr (inl (g, s, e)) ↦
          rw (e, resolve)
            (elim (Bool-cases (alive s)) [
              | inl here ↦ rw here (mark_resolved-IsValid _ id (taken-IsValid r id v))
              | inr gone ↦ rw gone (taken-IsValid r id v)
            ])
      | inr (inr (w, e)) ↦
          rw (e, resolve)
            (put_held-IsValid _ id w (taken-IsValid r id v)
              (let less = staged_count-remove_held id w r.slots e in omega (arith, v.staged)))
    ])
  ]

  -- Dropping a waiter's guard keeps the registry valid.
  pub drop_guard-IsValid :
      (r : Registry T) (id : Text) (own : ℕ) → IsValid r → IsValid (drop_guard r id own)
  unfolding drop_guard
  drop_guard-IsValid r id own v = elim (Slot-cases (get id r.slots)) [
    | inl e ↦ rw (e, drop_guard) v
    | inr (inl (g, s, e)) ↦
        rw (e, drop_guard)
          (elim (Bool-cases (eqb g own)) [
            | inl same ↦ rw same (taken-IsValid r id v)
            | inr other ↦ rw other v
          ])
    | inr (inr (w, e)) ↦ rw (e, drop_guard) v
  ]

  pub new-IsValid : (maximum : ℕ) → IsValid (new maximum)
  unfolding new
  new-IsValid maximum = record {
    positive = omega arith;
    synced = refl;
    distinct = tt;
    remembered = omega arith;
    staged = omega arith;
    older = tt;
  }
