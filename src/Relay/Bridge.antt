-- ===== src/Relay/Bridge.antt =====
-- src/relay/mcp.rs: `BridgeBudget`, `validate_and_reserve` and the hop check.
-- A time is an `Instant` in nanoseconds.
use agent_runtime_sdk.Prelude.{
  ℕ, ◌-◌, false, List, [], ◌∷◌, ◌++◌, none, some, text_eq, ◌||◌, ltb, leb, eqb, length, min,
  if◌then◌else◌,
}
use agent_runtime_sdk.Prelude.Result.{Result, ok, err, ◌>>◌, reject_if, map_err}
use agent_runtime_sdk.Prelude.Words.{saturating_add, usize_max, u32_max}
use agent_runtime_sdk.Relay.Message.{AgentMessage, validate_message}
use agent_runtime_sdk.Relay.Grant.{AgentMessagingLimits, MessagingGrant, AgentRelayContext}
use agent_runtime_sdk.Relay.Inbound.{
  AgentRelayError, permanent, invalid_request, rate_limited, budget_exceeded, hop_limit_exceeded,
  after, not_accepted,
}

abbrev pub minute : ℕ
minute = 60000000000

abbrev pub default_discovery_limit : ℕ
default_discovery_limit = 20

pub record BridgeBudget : Type 0 where
  pub message_count : ℕ  -- u32
  pub message_bytes : ℕ  -- usize
  pub recent_messages : List ℕ

unfoldable pub budget_new : BridgeBudget
budget_new = record { message_count = 0; message_bytes = 0; recent_messages = [] }

-- `while recent_messages.front().is_some_and(..)`; `duration_since` stops at 0.
unfoldable pub forget_old : ℕ → List ℕ → List ℕ
forget_old now [] = []
forget_old now (created ∷ rest) =
    let later = forget_old now rest in if leb minute (now - created) then later else created ∷ rest

-- The checks of `validate_and_reserve` that need no budget.
unfoldable pub check_message :
    {V : Type 0} → AgentMessagingLimits → AgentMessage V → ℕ → Result AgentRelayError (Unit {0})
check_message l m ttl = do
  map_err (λ _. permanent invalid_request) (validate_message m)
  reject_if (ltb l.max_message_bytes (length m.content)) (permanent budget_exceeded)
  reject_if (eqb ttl 0 || ltb l.max_ttl_seconds ttl) (permanent budget_exceeded)

-- The checks made under the lock, once old messages are forgotten.
unfoldable pub check_budget :
    AgentMessagingLimits → ℕ → BridgeBudget → Result AgentRelayError (Unit {0})
check_budget l size b = do
  reject_if (leb l.max_messages_per_turn b.message_count) (permanent budget_exceeded)
  reject_if (ltb l.max_bytes_per_turn (saturating_add usize_max b.message_bytes size))
      (permanent budget_exceeded)
  reject_if
      (elim l.max_messages_per_minute [
        | none ↦ false
        | some limit ↦ leb limit (length b.recent_messages)
      ])
      (record {
        kind = rate_limited;
        retry = after 60000;
        delivery = not_accepted;
        message_id = none;
      })

unfoldable pub charge : ℕ → ℕ → BridgeBudget → BridgeBudget
charge now size b = record {
  message_count = saturating_add u32_max b.message_count 1;
  message_bytes = saturating_add usize_max b.message_bytes size;
  recent_messages = b.recent_messages ++ now ∷ [];
}

unfoldable pub validate_and_reserve :
    {V : Type 0}
    → AgentMessagingLimits
    → ℕ
    → AgentMessage V
    → ℕ
    → BridgeBudget
    → BridgeBudget × Result AgentRelayError (Unit {0})
validate_and_reserve l now m ttl b = elim (check_message l m ttl) [
  | err e ↦ (b, err e)
  | ok _ ↦
      let recent : BridgeBudget = record b { recent_messages = forget_old now b.recent_messages } in
      elim (check_budget l (length m.content) recent) [
        | err e ↦ (recent, err e)
        | ok _ ↦ (charge now (length m.content) recent, ok tt)
      ]
]

unfoldable pub effective_hop_limit : AgentRelayContext → MessagingGrant → ℕ
effective_hop_limit c g = elim c.inbound [
  | none ↦ g.limits.max_hops
  | some inbound ↦ min inbound.hop_limit g.limits.max_hops
]

unfoldable pub validate_hop : ℕ → ℕ → Result AgentRelayError (Unit {0})
validate_hop hop_count hop_limit =
    reject_if (ltb hop_limit hop_count) (permanent hop_limit_exceeded)
