-- ===== src/Interactions/Registry/Handover.antt =====
-- src/interactions.rs: how `register`, `resolve` and the drop of a guard meet.
use agent_runtime_sdk.Prelude.{
  ==_refl, ap, ==_iff, ◌==◌, ◌&&◌, if◌then◌else◌, eqb, inl, inr, length, leb, Text, text_eq, ℕ, ◌<◌,
  ◌≡◌, refl, Bool, true, false, none, some, List, [], ◌∷◌, ◌++◌, arith, leb, eqb, if◌then◌else◌,
  length, ◌&&◌,
}
use agent_runtime_sdk.Prelude.Result.{ok, err}
use agent_runtime_sdk.Prelude.Words.{u64_max, saturating_add}
use agent_runtime_sdk.Prelude.Map.{
  get, insert, remove, get-insert_self, get-remove, contains, discard, contains-discard,
  contains-append,
}
use agent_runtime_sdk.Interactions.Registry.{
  waiting, held, Registry, ready, pending, duplicate, delivered, staged, already_resolved,
  forget_resolved, mark_resolved, register, resolve, drop_guard,
}
use agent_runtime_sdk.Interactions.Registry.Invariant.{IsValid, Slot-cases}

module _ {T : Type 0} where
  -- The last identifier of the queue is not forgotten.
  forget_resolved-keeps :
      (id : Text) (ys : List Text) (r : Registry T)
      → 0 < r.maximum
      → contains id ys ≡ false
      → contains id r.resolved ≡ true
      → contains id (forget_resolved (ys ++ id ∷ []) r).resolved ≡ true
  unfolding forget_resolved contains
  forget_resolved-keeps id [] r pos out h = ground arith
  forget_resolved-keeps id (y ∷ ys) r pos out h = ground (
    arith,
    contains-discard y id r.resolved,
    forget_resolved-keeps id ys (record r { resolved = discard y r.resolved }),
  )

  mark_resolved-marks :
      (r : Registry T) (id : Text)
      → 0 < r.maximum
      → r.resolved ≡ r.resolved_order
      → contains id r.resolved ≡ false
      → contains id (mark_resolved r id).resolved ≡ true
  unfolding mark_resolved
  mark_resolved-marks r id pos synced h = rw h (
      forget_resolved-keeps id r.resolved_order
        (record r {
          resolved = r.resolved ++ id ∷ [];
          resolved_order = r.resolved_order ++ id ∷ [];
        })
        pos (rw synced at h)
        (rw (contains-append id r.resolved (id ∷ []), h) (unfold contains in rw (==_refl id))))

  forget_resolved-slots : (xs : List Text) (r : Registry T) → (forget_resolved xs r).slots ≡ r.slots
  unfolding forget_resolved
  forget_resolved-slots [] r = refl
  forget_resolved-slots (x ∷ xs) r =
      ground (arith, forget_resolved-slots xs (record r { resolved = discard x r.resolved }))

  register_fresh :
      (r : Registry T) (id : Text) (channel : ℕ)
      → contains id r.resolved ≡ false
      → get id r.slots ≡ none
      → register r id channel ≡ (
        record r {
          slots = insert id (waiting r.next_generation channel) r.slots;
          next_generation = saturating_add u64_max r.next_generation 1;
        },
        pending channel r.next_generation,
      )
  unfolding register
  register_fresh r id channel h e = rw h (rw (e, register) refl)

  register_resolved :
      (r : Registry T) (id : Text) (channel : ℕ)
      → contains id r.resolved ≡ true
      → register r id channel ≡ (r, duplicate)
  unfolding register
  register_resolved r id channel h = rw h refl

  register_staged :
      (r : Registry T) (id : Text) (channel : ℕ) (v : T)
      → contains id r.resolved ≡ false
      → get id r.slots ≡ some (held v)
      → register r id channel ≡ (mark_resolved (record r { slots = remove id r.slots }) id, ready v)
  unfolding register
  register_staged r id channel v h e = rw h (rw (e, register) refl)

  resolve_resolved :
      (alive : ℕ → Bool) (r : Registry T) (id : Text) (v : T)
      → contains id r.resolved ≡ true
      → resolve alive r id v
        ≡ record { registry = r; answer = err (already_resolved id); sent = none }
  unfolding resolve
  resolve_resolved alive r id v h = rw h refl

  resolve_waiting :
      (alive : ℕ → Bool) (r : Registry T) (id : Text) (v : T) (g s : ℕ)
      → contains id r.resolved ≡ false
      → get id r.slots ≡ some (waiting g s)
      → alive s ≡ true
      → resolve alive r id v ≡ record {
        registry = mark_resolved (record r { slots = remove id r.slots }) id;
        answer = ok delivered;
        sent = some (s, v);
      }
  unfolding resolve
  resolve_waiting alive r id v g s h e here = rw h (rw (e, resolve) (rw here refl))

  resolve_early :
      (alive : ℕ → Bool) (r : Registry T) (id : Text) (v : T)
      → contains id r.resolved ≡ false
      → get id r.slots ≡ none
      → length r.slots < r.maximum
      → resolve alive r id v ≡ record {
        registry = record r { slots = insert id (held v) r.slots };
        answer = ok staged;
        sent = none;
      }
  unfolding resolve
  resolve_early alive r id v h e room =
      let open_room : leb r.maximum (length r.slots) ≡ false = ground arith in
      rw h (rw (e, resolve) (rw open_room refl))

  -- An identifier that is neither resolved nor in the table waits once it registers, and a value
  -- resolved for it while its receiver exists is sent on its channel; a second resolution is told
  -- that the interaction was resolved, and a second registration that it is a duplicate.
  pub register-resolve :
      (alive : ℕ → Bool) (r : Registry T) (id : Text) (channel again : ℕ) (value other : T)
      → IsValid r
      → contains id r.resolved ≡ false
      → get id r.slots ≡ none
      → alive channel ≡ true
      → let waits = register r id channel in
        let done = resolve alive waits.0 id value in
        (waits.1 ≡ pending channel r.next_generation)
        × (done.answer ≡ ok delivered)
        × (done.sent ≡ some (channel, value))
        × ((resolve alive done.registry id other).answer ≡ err (already_resolved id))
        × ((register done.registry id again).1 ≡ duplicate)
  register-resolve alive r id channel again value other v fresh empty here =
      let waits : Registry T = record r {
        slots = insert id (waiting r.next_generation channel) r.slots;
        next_generation = saturating_add u64_max r.next_generation 1;
      } in
      let taken : Registry T = record waits { slots = remove id waits.slots } in
      let marked = mark_resolved-marks taken id v.positive v.synced fresh in
      rw (register_fresh r id channel fresh empty) (
        rw
          (resolve_waiting alive waits id value r.next_generation channel fresh
            (get-insert_self id _ r.slots) here)
          (
            refl,
            refl,
            refl,
            rw (resolve_resolved alive (mark_resolved taken id) id other marked) refl,
            rw (register_resolved (mark_resolved taken id) id again marked) refl,
          ))

  resolve_staged :
      (alive : ℕ → Bool) (r : Registry T) (id : Text) (v earlier : T)
      → contains id r.resolved ≡ false
      → get id r.slots ≡ some (held earlier)
      → resolve alive r id v ≡ record {
        registry = record r { slots = insert id (held earlier) (remove id r.slots) };
        answer = err (already_resolved id);
        sent = none;
      }
  unfolding resolve
  resolve_staged alive r id v earlier h e = rw h (rw (e, resolve) refl)

  -- A response that comes before its waiter is staged when the table has room, and handed to the waiter when it registers. A
  -- second response, before the waiter registers or after it, is told that the interaction was
  -- resolved, and nothing is sent for it; the one before does not take the place of the first,
  -- which the waiter still gets. After that a second waiter is a duplicate.
  pub resolve-register :
      (alive : ℕ → Bool) (r : Registry T) (id : Text) (channel again : ℕ) (value other : T)
      → IsValid r
      → contains id r.resolved ≡ false
      → get id r.slots ≡ none
      → length r.slots < r.maximum
      → let early = resolve alive r id value in
        let second = resolve alive early.registry id other in
        let waits = register second.registry id channel in
        (early.answer ≡ ok staged)
        × (early.sent ≡ none)
        × ((register early.registry id channel).1 ≡ ready value)
        × (second.answer ≡ err (already_resolved id))
        × (second.sent ≡ none)
        × (waits.1 ≡ ready value)
        × ((resolve alive waits.0 id other).answer ≡ err (already_resolved id))
        × ((resolve alive waits.0 id other).sent ≡ none)
        × ((register waits.0 id again).1 ≡ duplicate)
  resolve-register alive r id channel again value other v fresh empty room =
      let early : Registry T = record r { slots = insert id (held value) r.slots } in
      let second : Registry T = record r {
        slots = insert id (held value) (remove id early.slots);
      } in
      let taken : Registry T = record r { slots = remove id second.slots } in
      let marked = mark_resolved-marks taken id v.positive v.synced fresh in
      let there = get-insert_self id (held value) r.slots in
      let staged_again =
        register_staged second id channel value fresh
          (get-insert_self id (held value) (remove id early.slots)) in
      rw (resolve_early alive r id value fresh empty room) (
        rw (resolve_staged alive early id other value fresh there) (
          rw staged_again (
            refl,
            refl,
            ap (λ out. out.1) (register_staged early id channel value fresh there),
            refl,
            refl,
            refl,
            rw (resolve_resolved alive (mark_resolved taken id) id other marked) refl,
            rw (resolve_resolved alive (mark_resolved taken id) id other marked) refl,
            rw (register_resolved (mark_resolved taken id) id again marked) refl,
          )))

  -- Dropping a guard removes the waiter of its own generation and nothing else: under another
  -- identifier nothing changes, and a staged response or a later waiter stays.
  pub drop_guard-own :
      (r : Registry T) (id j : Text) (own : ℕ)
      → get j (drop_guard r id own).slots ≡ elim (get j r.slots) [
        | none ↦ none
        | some slot ↦ elim slot [
          | held value ↦ some (held value)
          | waiting g s ↦ if (id == j) && eqb g own then none else some (waiting g s)
        ]
      ]
  unfolding drop_guard
  drop_guard-own r id j own = elim (Slot-cases (get id r.slots)) [
    | inl e ↦ rw (e, drop_guard) (ground (arith, e, ==_iff id j))
    | inr (inl (g, s, e)) ↦
        rw (e, drop_guard)
          (ground (arith, e, ==_iff id j, get-remove id j r.slots, Slot-cases (get j r.slots)))
    | inr (inr (w, e)) ↦ rw (e, drop_guard) (ground (arith, e, ==_iff id j))
  ]
