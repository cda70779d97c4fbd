-- ===== src/Examples/Interactions.antt =====
-- A registry with one waiter and one staged response.
use agent_runtime_sdk.Prelude.{
  ℕ, ◌≡◌, refl, Text, text_eq, [], ◌∷◌, none, some, arith, list_beq, Bool, not, eqb, true, List,
}
use agent_runtime_sdk.Prelude.Map.{get, contains}
use agent_runtime_sdk.Prelude.Result.{ok, err}
use agent_runtime_sdk.Interactions.Registry.{
  waiting, held, Registry, ready, pending, duplicate, register, resolve, delivered, staged,
  already_resolved,
}
use agent_runtime_sdk.Interactions.Registry.Invariant.{IsValid}
use agent_runtime_sdk.Interactions.Registry.Handover.{register-resolve, resolve-register}
use agent_runtime_sdk.Prelude.{◌≤◌, length}
use agent_runtime_sdk.Prelude.Map.{Each, Distinct}
use agent_runtime_sdk.Interactions.Registry.{new}
use agent_runtime_sdk.Interactions.Registry.Invariant.{IsOlder}
use agent_runtime_sdk.Interactions.Registry.Staged.{staged_count}
use agent_runtime_sdk.Interactions.Registry.Runs.{
  Call, registers, resolves, drops, run, registry_bounds,
}

abbrev asked : Text
asked = 97 ∷ []

abbrev answered_early : Text
answered_early = 98 ∷ []

abbrev fresh : Text
fresh = 99 ∷ []

abbrev registry : Registry ℕ
registry = record {
  slots = (asked, waiting 1 40) ∷ (answered_early, held 7) ∷ [];
  resolved = (100 ∷ []) ∷ [];
  resolved_order = (100 ∷ []) ∷ [];
  next_generation = 2;
  maximum = 3;
}

abbrev alive : ℕ → Bool
alive channel = not (eqb channel 40)

registry-IsValid : IsValid registry
unfolding contains
registry-IsValid = record {
  positive = omega arith;
  synced = refl;
  distinct = (refl, tt);
  remembered = omega arith;
  staged = omega arith;
  older = (omega arith, (tt, tt));
}

register-resolve_example :
    let waits = register registry fresh 41 in
    let done = resolve alive waits.0 fresh 5 in
    (waits.1 ≡ pending 41 2)
    × (done.answer ≡ ok delivered)
    × (done.sent ≡ some (41, 5))
    × ((resolve alive done.registry fresh 6).answer ≡ err (already_resolved fresh))
    × ((register done.registry fresh 42).1 ≡ duplicate)
unfolding contains get list_beq
register-resolve_example =
    register-resolve alive registry fresh 41 42 5 6 registry-IsValid refl refl refl

resolve-register_example :
    let early = resolve alive registry fresh 5 in
    let second = resolve alive early.registry fresh 6 in
    let waits = register second.registry fresh 41 in
    (early.answer ≡ ok staged)
    × (early.sent ≡ none)
    × ((register early.registry fresh 41).1 ≡ ready 5)
    × (second.answer ≡ err (already_resolved fresh))
    × (second.sent ≡ none)
    × (waits.1 ≡ ready 5)
    × ((resolve alive waits.0 fresh 6).answer ≡ err (already_resolved fresh))
    × ((resolve alive waits.0 fresh 6).sent ≡ none)
    × ((register waits.0 fresh 42).1 ≡ duplicate)
unfolding contains get list_beq
resolve-register_example =
    resolve-register alive registry fresh 41 42 5 6 registry-IsValid refl refl (omega arith)

abbrev calls : List (Call ℕ)
calls =
    registers asked 40
    ∷ resolves alive answered_early 7
    ∷ registers answered_early 41
    ∷ resolves (λ channel. true) asked 8
    ∷ registers fresh 42
    ∷ drops fresh 2
    ∷ []

registry_bounds_example :
    let r = run (new {T = ℕ} 1) calls in
    (staged_count r.slots ≤ 1)
    × (length r.resolved_order ≤ 1)
    × (r.resolved ≡ r.resolved_order)
    × Distinct r.resolved_order
    × Each (λ id slot. IsOlder r.next_generation slot) r.slots
registry_bounds_example = registry_bounds 1 calls (omega arith)
