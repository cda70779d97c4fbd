-- ===== src/Journal/Runtime/Disjoint.antt =====
-- src/journal.rs: evicted and retained invocations of `RuntimeJournal`.
use agent_runtime_sdk.Prelude.{
  ltb, eqb, Bool-cases, Option-cases, length, ==_iff, Text, text_eq, ℕ, suc, ◌≡◌, inl, inr, true,
  false, none, List, [], ◌∷◌, ◌++◌, arith,
}
use agent_runtime_sdk.Prelude.Map.{
  get, contains_key, insert, get-insert, get-remove, contains, discard, contains-discard,
  contains-append,
}
use agent_runtime_sdk.Journal.Types.{EventEnvelope, PartialEq}
use agent_runtime_sdk.Journal.Invocation
use agent_runtime_sdk.Journal.Invocation.{InvocationJournal}
use agent_runtime_sdk.Journal.Runtime.{
  RuntimeJournal, evict, evict_invocations, forget_evicted, admit, append_to, append,
}

module _ {P : Type 0} where
  abbrev pub Disjoint : RuntimeJournal P → Type 0
  Disjoint r = (id : Text) → contains id r.evicted_invocations ≡ true → get id r.invocations ≡ none

  evict-Disjoint : (x : Text) (r : RuntimeJournal P) → Disjoint r → Disjoint (evict x r)
  unfolding evict contains
  evict-Disjoint x r d id = ground (
    arith,
    d id,
    get-remove x id r.invocations,
    contains-append id r.evicted_invocations (x ∷ []),
  )

  evict_invocations-Disjoint :
      (xs : List Text) (r : RuntimeJournal P) → Disjoint r → Disjoint (evict_invocations xs r)
  unfolding evict_invocations
  evict_invocations-Disjoint [] r d = d
  evict_invocations-Disjoint (x ∷ xs) r d =
      elim (Bool-cases (ltb r.max_invocations (suc (length xs)))) [
        | inl over ↦ rw over (evict_invocations-Disjoint xs (evict x r) (evict-Disjoint x r d))
        | inr within ↦ rw within d
      ]

  forget_evicted-Disjoint :
      (xs : List Text) (r : RuntimeJournal P) → Disjoint r → Disjoint (forget_evicted xs r)
  unfolding forget_evicted
  forget_evicted-Disjoint [] r d = d
  forget_evicted-Disjoint (x ∷ xs) r d =
      elim (Bool-cases (ltb r.max_invocations (suc (length xs)))) [
        | inl over ↦ rw over (
            forget_evicted-Disjoint xs
              (record r { evicted_invocations = discard x r.evicted_invocations })
              (λ id. ground (arith, d id, contains-discard x id r.evicted_invocations)))
        | inr within ↦ rw within d
      ]

  admit-Disjoint :
      (n : ℕ) (r : RuntimeJournal P) (id : Text)
      → Disjoint r
      → contains id r.evicted_invocations ≡ false
      → Disjoint (admit r id n)
  unfolding admit
  admit-Disjoint n r id d fresh = forget_evicted-Disjoint _ _ (
      evict_invocations-Disjoint (r.invocation_order ++ id ∷ [])
        (record r {
          invocations = insert id (Invocation.new n) r.invocations;
          invocation_order = r.invocation_order ++ id ∷ [];
        })
        (λ j. ground (arith, d j, ==_iff id j, get-insert id j (Invocation.new n) r.invocations)))

  append_to-Disjoint :
      ⦃q : PartialEq P⦄ (r : RuntimeJournal P) (e : EventEnvelope P)
      → Disjoint r
      → Disjoint (append_to r e).0
  unfolding append_to
  append_to-Disjoint r e d = elim (Option-cases (get e.invocation_id r.invocations)) [
    | inl missing ↦ rw (missing, append_to) d
    | inr (s, found) ↦
        rw (found, append_to)
          (λ j. ground (
            arith,
            d j,
            ==_iff e.invocation_id j,
            get-insert e.invocation_id j (Invocation.append s e).0 r.invocations,
          ))
  ]

  -- An append keeps evicted and retained invocations apart.
  pub append-Disjoint :
      ⦃q : PartialEq P⦄ (r : RuntimeJournal P) (e : EventEnvelope P) (n : ℕ)
      → Disjoint r
      → Disjoint (append r e n).0
  unfolding append
  append-Disjoint r e n d = elim (Bool-cases (contains e.invocation_id r.evicted_invocations)) [
    | inl forgotten ↦ rw forgotten d
    | inr remembered ↦
        rw remembered (elim (Bool-cases (contains_key e.invocation_id r.invocations)) [
          | inl known ↦ rw known (append_to-Disjoint r e d)
          | inr fresh ↦ rw fresh (elim (Bool-cases (eqb e.sequence 1)) [
            | inl first ↦
                rw first (append_to-Disjoint _ e (admit-Disjoint n r e.invocation_id d remembered))
            | inr later ↦ rw later d
          ])
        ])
  ]
