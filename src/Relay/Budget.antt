-- ===== src/Relay/Budget.antt =====
-- src/relay/mcp.rs: sequences of `validate_and_reserve` in one turn.
use agent_runtime_sdk.Prelude.{
  ℕ, ◌≤◌, ◌<◌, refl, List, [], ◌∷◌, Option, none, some, arith, inl, inr, length,
}
use agent_runtime_sdk.Prelude.Result.{Result-cases}
use agent_runtime_sdk.Prelude.Words.{usize_max, u32_max}
use agent_runtime_sdk.Relay.Grant.{AgentMessagingLimits}
use agent_runtime_sdk.Relay.Bridge.{
  BridgeBudget, budget_new, forget_old, check_message, check_budget, validate_and_reserve,
}
use agent_runtime_sdk.Relay.Rate.{KeepsRate}
use agent_runtime_sdk.Relay.Accounts.{
  Accepted, times, total, Attempt, log_attempt, reserve_all, InOrder, check_budget-RoomFor,
  charge-Accounts, forget_old-Accounts, wait-Accounts, Accounts,
}

no_messages : (m : Option ℕ) → KeepsRate m []
no_messages none = tt
no_messages (some n) = tt

module _ {V : Type 0} where
  validate_and_reserve-Accounts :
      (l : AgentMessagingLimits) (t : ℕ) (a : Attempt V) (b : BridgeBudget) (log : List Accepted)
      → l.max_messages_per_turn ≤ u32_max
      → l.max_bytes_per_turn < usize_max
      → Accounts l t b log
      → t ≤ a.now
      → let after = validate_and_reserve l a.now a.message a.ttl_seconds b in
        Accounts l a.now after.0 (log_attempt a after.1 log)
  unfolding validate_and_reserve
  validate_and_reserve-Accounts l t a b log few small acc h =
      elim (Result-cases (check_message l a.message a.ttl_seconds)) [
        | inl (e, bad) ↦ rw (bad, validate_and_reserve) (wait-Accounts l t a.now b log acc h)
        | inr good ↦
            let recent : BridgeBudget = record b {
              recent_messages = forget_old a.now b.recent_messages;
            } in
            let (pruned, now) = forget_old-Accounts l t a.now b log acc h in
            elim (Result-cases (check_budget l (length a.message.content) recent)) [
              | inl (e, bad) ↦ rw (good, bad, validate_and_reserve) pruned
              | inr fits ↦
                  rw (good, fits, validate_and_reserve)
                    (charge-Accounts l a.now (length a.message.content) recent log few small pruned
                      now (check_budget-RoomFor l _ recent fits))
            ]
      ]

  reserve_all-Accounts :
      (l : AgentMessagingLimits) (t : ℕ) (attempts : List (Attempt V)) (b : BridgeBudget)
      (log : List Accepted)
      → l.max_messages_per_turn ≤ u32_max
      → l.max_bytes_per_turn < usize_max
      → Accounts l t b log
      → InOrder t attempts
      → let after = reserve_all l attempts (b, log) in (u : ℕ) × Accounts l u after.0 after.1
  unfolding reserve_all
  reserve_all-Accounts l t [] b log few small acc o = (t, acc)
  reserve_all-Accounts l t (a ∷ later) b log few small acc o =
      reserve_all-Accounts l a.now later _ _ few small
        (validate_and_reserve-Accounts l t a b log few small acc o.0) o.1

  -- For attempts that come in the order of a monotonic clock, under limits within the machine's
  -- integers, the accepted messages of a turn are at most `max_messages_per_turn`, are together at
  -- most `max_bytes_per_turn` bytes long, and with a rate limit at most that many of them are
  -- accepted in any minute that ends with an accepted message.
  pub reserve_all-bounds :
      (l : AgentMessagingLimits) (attempts : List (Attempt V))
      → l.max_messages_per_turn ≤ u32_max
      → l.max_bytes_per_turn < usize_max
      → InOrder 0 attempts
      → let accepted = (reserve_all l attempts (budget_new, [])).1 in
        (length accepted ≤ l.max_messages_per_turn)
        × (total accepted ≤ l.max_bytes_per_turn)
        × KeepsRate l.max_messages_per_minute (times accepted)
  unfolding budget_new
  reserve_all-bounds l attempts few small o =
      let (u, acc) =
        reserve_all-Accounts l 0 attempts budget_new [] few small
          (record {
            counted = refl;
            summed = refl;
            pruned = 0;
            pruned_before = omega arith;
            recent = refl;
            sorted = tt;
            past = tt;
            in_count = omega arith;
            in_bytes = omega arith;
            in_rate = no_messages l.max_messages_per_minute;
          })
          o in
      (acc.in_count, acc.in_bytes, acc.in_rate)
