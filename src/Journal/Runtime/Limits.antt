-- ===== src/Journal/Runtime/Limits.antt =====
-- src/journal.rs: the limit that `RuntimeJournal` carries.
use agent_runtime_sdk.Prelude.{ℕ, ◌≡◌, refl, List, [], ◌∷◌, Text, text_eq, arith, ◌∙◌}
use agent_runtime_sdk.Prelude.Map.{discard}
use agent_runtime_sdk.Journal.Types.{EventEnvelope, PartialEq}
use agent_runtime_sdk.Journal.Runtime.{
  RuntimeJournal, evict, evict_invocations, forget_evicted, admit, append_to, append,
}
use agent_runtime_sdk.Journal.Runtime.Eviction.{evict_fields}

module _ {P : Type 0} where
  pub evict_invocations-max :
      (xs : List Text) (r : RuntimeJournal P)
      → (evict_invocations xs r).max_invocations ≡ r.max_invocations
  unfolding evict_invocations
  evict_invocations-max [] r = refl
  evict_invocations-max (x ∷ xs) r =
      ground (arith, evict_invocations-max xs (evict x r), evict_fields x r)

  pub forget_evicted-max :
      (xs : List Text) (r : RuntimeJournal P)
      → (forget_evicted xs r).max_invocations ≡ r.max_invocations
  unfolding forget_evicted
  forget_evicted-max [] r = refl
  forget_evicted-max (x ∷ xs) r = ground (
    arith,
    forget_evicted-max xs (record r { evicted_invocations = discard x r.evicted_invocations }),
  )

  pub append_to-max :
      ⦃q : PartialEq P⦄ (r : RuntimeJournal P) (e : EventEnvelope P)
      → (append_to r e).0.max_invocations ≡ r.max_invocations
  unfolding append_to
  append_to-max r e = ground arith

  pub admit-max :
      (r : RuntimeJournal P) (id : Text) (n : ℕ)
      → (admit r id n).max_invocations ≡ r.max_invocations
  unfolding admit
  admit-max r id n = forget_evicted-max _ _ ∙ evict_invocations-max _ _

  pub append-max :
      ⦃q : PartialEq P⦄ (r : RuntimeJournal P) (e : EventEnvelope P) (n : ℕ)
      → (append r e n).0.max_invocations ≡ r.max_invocations
  unfolding append
  append-max r e n = ground (
    arith,
    append_to-max r e,
    append_to-max (admit r e.invocation_id n) e,
    admit-max r e.invocation_id n,
  )
