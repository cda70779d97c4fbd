-- ===== src/Journal/Store/Rejected.antt =====
-- src/journal.rs: the effects of a refused `InMemoryEventJournal::append`.
use agent_runtime_sdk.Prelude.{
  Option-cases, length, ==_iff, Text, text_eq, ◌≡◌, refl, ◌≢◌, inl, inr, none, List, [], ◌∷◌, arith,
  eqb, lt→ltb, eqb_iff, length-snoc, suc, ◌<◌, sym, ap, ◌∙◌, subst, true, ◌++◌,
}
use agent_runtime_sdk.Prelude.Map.{
  get, remove, get-insert, get-remove, contains_key, insert, get-remove_self,
}
use agent_runtime_sdk.Journal.Types.{EventEnvelope, PartialEq}
use agent_runtime_sdk.Journal.Runtime
use agent_runtime_sdk.Journal.Store.{EventJournal, evict_runtimes, admit, append_to, append}

module _ {P : Type 0} ⦃q : PartialEq P⦄ where
  evict_runtimes-get :
      (xs : List Text) (j : EventJournal P) (id : Text)
      → get id j.runtimes ≡ none
      → get id (evict_runtimes xs j).runtimes ≡ none
  unfolding evict_runtimes
  evict_runtimes-get [] j id h = h
  evict_runtimes-get (x ∷ xs) j id h = ground (
    arith,
    get-remove x id j.runtimes,
    evict_runtimes-get xs (record j { runtimes = remove x j.runtimes }) id,
  )

  append_to-get :
      (j : EventJournal P) (e : EventEnvelope P) (id : Text)
      → e.runtime_id ≢ id
      → get id (append_to j e).0.runtimes ≡ get id j.runtimes
  unfolding append_to
  append_to-get j e id other = elim (Option-cases (get e.runtime_id j.runtimes)) [
    | inl missing ↦ rw (missing, append_to) refl
    | inr (r, found) ↦
        rw (found, append_to)
          (ground (
            arith,
            get-insert e.runtime_id id (Runtime.append r e j.limits.max_events_per_invocation).0
                j.runtimes,
            ==_iff e.runtime_id id,
          ))
  ]

  evict_runtimes-front :
      (x : Text) (xs : List Text) (j : EventJournal P)
      → j.limits.max_runtimes < suc (length xs)
      → get x (evict_runtimes (x ∷ xs) j).runtimes ≡ none
  unfolding evict_runtimes
  evict_runtimes-front x xs j over = rw (lt→ltb j.limits.max_runtimes (suc (length xs)) over) (
      evict_runtimes-get xs (record j { runtimes = remove x j.runtimes }) x
        (get-remove_self x j.runtimes))

  admit-evicts :
      (j : EventJournal P) (id oldest : Text) (order : List Text)
      → j.runtime_order ≡ oldest ∷ order
      → length j.runtime_order ≡ j.limits.max_runtimes
      → get oldest (admit j id).runtimes ≡ none
  unfolding admit
  admit-evicts j id oldest order front full =
      let added : EventJournal P = record j {
        runtimes = insert id (Runtime.new j.limits.max_invocations_per_runtime) j.runtimes;
        runtime_order = j.runtime_order ++ id ∷ [];
      } in
      subst (λ o. get oldest (evict_runtimes (o ++ id ∷ []) added).runtimes ≡ none) (sym front)
        (evict_runtimes-front oldest (order ++ id ∷ []) added (
          let len : suc (length order) ≡ j.limits.max_runtimes = ap length (sym front) ∙ full in
          omega (arith, length-snoc order id)))

  -- An envelope of a supported schema for a runtime that is not retained evicts the oldest runtime
  -- when as many are retained as the limit allows, whatever its sequence and so also when the
  -- append is then refused.
  pub admission-evicts :
      (j : EventJournal P) (e : EventEnvelope P) (oldest : Text) (order : List Text)
      → e.schema_version ≡ 1
      → get e.runtime_id j.runtimes ≡ none
      → j.runtime_order ≡ oldest ∷ order
      → length j.runtime_order ≡ j.limits.max_runtimes
      → e.runtime_id ≢ oldest
      → get oldest (append j e).0.runtimes ≡ none
  unfolding append
  admission-evicts j e oldest order schema fresh front full other =
      let supported : eqb e.schema_version 1 ≡ true = (eqb_iff e.schema_version 1).1 schema in
      rw supported (
        rw (fresh, contains_key)
          (append_to-get (admit j e.runtime_id) e oldest other
            ∙ admit-evicts j e.runtime_id oldest order front full))
