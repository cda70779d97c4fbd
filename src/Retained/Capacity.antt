-- ===== src/Retained/Capacity.antt =====
-- src/retained.rs: `InProcessRuntimeClient` over any calls.
use agent_runtime_sdk.Prelude.{
  ℕ, eqb, Bool-cases, text_eq, nat_eq, Text, List, [], ◌∷◌, Bool, none, length, ◌≤◌, ◌<◌, ◌≡◌, refl,
  inl, inr, arith,
}
use agent_runtime_sdk.Prelude.Map.{get, length-insert_new, length-remove-le}
use agent_runtime_sdk.Prelude.Result.{Result, ok, Result-cases}
use agent_runtime_sdk.Retained.Types.{RuntimeFailure}
use agent_runtime_sdk.Retained.Entry.{RuntimeEntry, ActiveTurn}
use agent_runtime_sdk.Retained.Entry
use agent_runtime_sdk.Retained.Client.{
  RuntimeSpec, InProcessRuntimeClient, from_executor_with_limits, check_acquire, acquire, dispose,
}

pub data Call : Type 0 where
  acquires : Bool → RuntimeSpec → Call
  disposes : Text → Bool → Result RuntimeFailure (Unit {0}) → Call

unfoldable pub apply : Call → InProcessRuntimeClient → InProcessRuntimeClient
apply (acquires configurable spec) c = (acquire configurable spec c).0
apply (disposes id confirmed cleanup) c = (dispose id confirmed cleanup c).0

unfoldable pub apply_all : List Call → InProcessRuntimeClient → InProcessRuntimeClient
apply_all [] c = c
apply_all (call ∷ calls) c = apply_all calls (apply call c)

abbrev pub WithinCapacity : InProcessRuntimeClient → Type 0
WithinCapacity c = length c.runtimes ≤ c.max_runtimes

-- The checks of `acquire` pass only for a new identifier, with room for it.
check_acquire_lem :
    (configurable : Bool) (spec : RuntimeSpec) (c : InProcessRuntimeClient)
    → check_acquire configurable spec c ≡ ok tt
    → (get spec.runtime_id c.runtimes ≡ none) × (length c.runtimes < c.max_runtimes)
unfolding check_acquire
check_acquire_lem configurable spec c h = ground arith

acquire-WithinCapacity :
    (configurable : Bool) (spec : RuntimeSpec) (c : InProcessRuntimeClient)
    → WithinCapacity c
    → WithinCapacity (acquire configurable spec c).0
      × ((acquire configurable spec c).0.max_runtimes ≡ c.max_runtimes)
unfolding acquire
acquire-WithinCapacity configurable spec c within =
    elim (Result-cases (check_acquire configurable spec c)) [
      | inl (failure, bad) ↦ rw (bad, acquire) (within, refl)
      | inr good ↦
          let (absent, room) = check_acquire_lem configurable spec c good in
          let entry = Entry.new spec.provider_session_id in
          rw (good, acquire)
            (omega (arith, length-insert_new spec.runtime_id entry c.runtimes absent, room), refl)
    ]

dispose-WithinCapacity :
    (id : Text) (confirmed : Bool) (cleanup : Result RuntimeFailure (Unit {0}))
    (c : InProcessRuntimeClient)
    → WithinCapacity c
    → WithinCapacity (dispose id confirmed cleanup c).0
      × ((dispose id confirmed cleanup c).0.max_runtimes ≡ c.max_runtimes)
unfolding dispose
dispose-WithinCapacity id confirmed cleanup c within =
    ground (arith, length-remove-le id c.runtimes)

apply_all-WithinCapacity :
    (calls : List Call) (c : InProcessRuntimeClient)
    → WithinCapacity c
    → length (apply_all calls c).runtimes ≤ c.max_runtimes
unfolding apply_all apply
apply_all-WithinCapacity [] c within = within
apply_all-WithinCapacity (acquires configurable spec ∷ calls) c within =
    let (kept, same) = acquire-WithinCapacity configurable spec c within in
    omega (arith, apply_all-WithinCapacity calls (acquire configurable spec c).0 kept, same)
apply_all-WithinCapacity (disposes id confirmed cleanup ∷ calls) c within =
    let (kept, same) = dispose-WithinCapacity id confirmed cleanup c within in
    omega (arith, apply_all-WithinCapacity calls (dispose id confirmed cleanup c).0 kept, same)

-- A client never retains more runtimes than its limit, whatever is acquired and disposed.
pub client_bounds :
    (maximum : ℕ) (calls : List Call) (c : InProcessRuntimeClient)
    → from_executor_with_limits maximum ≡ ok c
    → (length (apply_all calls c).runtimes ≤ maximum) × (0 < maximum)
unfolding from_executor_with_limits
client_bounds maximum calls c made = elim (Bool-cases (eqb maximum 0)) [
  | inl zero_limit ↦ ground arith
  | inr positive ↦
      let fresh : c ≡ record { runtimes = []; max_runtimes = maximum } = ground arith in
      let within : WithinCapacity c = rw fresh (omega arith) in
      let limit : c.max_runtimes ≡ maximum = rw fresh refl in
      (omega (arith, apply_all-WithinCapacity calls c within, limit), ground arith)
]
