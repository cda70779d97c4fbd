-- ===== src/Interactions/Registry.antt =====
-- src/interactions.rs: `Registry`, `register`, `resolve` and the guard of a waiter.
-- The lock makes each operation atomic. A one-shot sender is the number of its channel; whether
-- the channel's receiver still exists is asked of the environment when a value is sent.
pub mod Invariant
pub mod Handover
pub mod Runs
pub mod Staged
use agent_runtime_sdk.Prelude.{
  ℕ, suc, Bool, true, false, List, [], ◌∷◌, ◌++◌, Option, none, some, Text, text_eq, arith,
  if◌then◌else◌, ltb, leb, eqb, length, max, drop,
}
use agent_runtime_sdk.Prelude.Map.{Map, get, insert, remove, contains, discard}
use agent_runtime_sdk.Prelude.Result.{Result, ok, err}
use agent_runtime_sdk.Prelude.Words.{saturating_add, u64_max}

abbrev pub default_max_pending_interactions : ℕ
default_max_pending_interactions = 128

pub data InteractionResolution : Type 0 where
  delivered staged : InteractionResolution

pub data InteractionBrokerError : Type 0 where
  already_resolved : Text → InteractionBrokerError
  capacity_exceeded : ℕ → InteractionBrokerError
  expired : Text → InteractionBrokerError

pub data Slot (T : Type 0) : Type 0 where
  -- generation and sender
  waiting : ℕ → ℕ → Slot T
  -- Staged
  held : T → Slot T

pub record Registry (T : Type 0) : Type 0 where
  pub slots : Map Text (Slot T)
  pub resolved : List Text
  pub resolved_order : List Text
  pub next_generation : ℕ  -- u64
  pub maximum : ℕ

pub data Registration (T : Type 0) : Type 0 where
  ready : T → Registration T
  -- Waiting: receiver and generation
  pending : ℕ → ℕ → Registration T
  duplicate : Registration T

-- An answer with what was sent on which channel.
pub record Resolved (T : Type 0) : Type 0 where
  pub registry : Registry T
  pub answer : Result InteractionBrokerError InteractionResolution
  pub sent : Option (ℕ × T)

module _ {T : Type 0} where
  unfoldable pub new : ℕ → Registry T
  new maximum = record {
    slots = [];
    resolved = [];
    resolved_order = [];
    next_generation = 1;
    maximum = max maximum 1;
  }

  -- `while self.resolved_order.len() > self.maximum`, over the order.
  unfoldable pub forget_resolved : List Text → Registry T → Registry T
  forget_resolved [] r = record r { resolved_order = [] }
  forget_resolved (oldest ∷ rest) r =
      if ltb r.maximum (suc (length rest))
      then forget_resolved rest (record r { resolved = discard oldest r.resolved })
      else record r { resolved_order = oldest ∷ rest }

  unfoldable pub mark_resolved : Registry T → Text → Registry T
  mark_resolved r id =
      let marked : Registry T = if contains id r.resolved then r else record r {
        resolved = r.resolved ++ id ∷ [];
        resolved_order = r.resolved_order ++ id ∷ [];
      } in
      forget_resolved marked.resolved_order marked

  -- `register`, with the number of the channel that it opens for a new waiter.
  unfoldable pub register : Registry T → Text → ℕ → Registry T × Registration T
  register r id channel =
      let taken : Registry T = record r { slots = remove id r.slots } in
      if contains id r.resolved then (r, duplicate) else elim (get id r.slots) [
        | some slot ↦ elim slot [
          | held value ↦ (mark_resolved taken id, ready value)
          | waiting generation sender ↦
              (record r { slots = insert id (waiting generation sender) taken.slots }, duplicate)
        ]
        | none ↦ (
          record r {
            slots = insert id (waiting r.next_generation channel) r.slots;
            next_generation = saturating_add u64_max r.next_generation 1;
          },
          pending channel r.next_generation,
        )
      ]

  -- `resolve`; `alive` says whether a channel's receiver still exists.
  unfoldable pub resolve : (ℕ → Bool) → Registry T → Text → T → Resolved T
  resolve alive r id value =
      let taken : Registry T = record r { slots = remove id r.slots } in
      if contains id r.resolved
      then record { registry = r; answer = err (already_resolved id); sent = none }
      else elim (get id r.slots) [
        | some slot ↦ elim slot [
          | waiting generation sender ↦
              if alive sender
              then record {
                registry = mark_resolved taken id;
                answer = ok delivered;
                sent = some (sender, value);
              }
              else record { registry = taken; answer = err (expired id); sent = none }
          | held earlier ↦ record {
            registry = record r { slots = insert id (held earlier) taken.slots };
            answer = err (already_resolved id);
            sent = none;
          }
        ]
        | none ↦
            if leb r.maximum (length r.slots)
            then record { registry = r; answer = err (capacity_exceeded r.maximum); sent = none }
            else record {
              registry = record r { slots = insert id (held value) r.slots };
              answer = ok staged;
              sent = none;
            }
      ]

  -- The drop of a `WaitingGuard`.
  unfoldable pub drop_guard : Registry T → Text → ℕ → Registry T
  drop_guard r id own = elim (get id r.slots) [
    | none ↦ r
    | some slot ↦ elim slot [
      | held value ↦ r
      | waiting generation sender ↦
          if eqb generation own then record r { slots = remove id r.slots } else r
    ]
  ]
