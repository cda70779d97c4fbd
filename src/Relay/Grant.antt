-- ===== src/Relay/Grant.antt =====
-- src/relay/mod.rs: address patterns, `MessagingGrant` and `AgentRelayContext`.
use agent_runtime_sdk.Prelude.{
  ℕ, Bool, true, false, List, [], ◌∷◌, ◌++◌, Option, none, some, Text, ◌==◌, text_eq, nat_eq, ◌||◌,
  ◌&&◌, ltb, eqb, not, any,
}
use agent_runtime_sdk.Prelude.Result.{Result, ok, ◌>>=◌, ◌>>◌, reject_if}
use agent_runtime_sdk.Prelude.Words.{saturating_add, u8_max}
use agent_runtime_sdk.Relay.Message.{
  AgentRelayValidationError, invalid_field, validate_identifier, for_each, AgentMessageProvenance,
  max_agent_message_bytes, max_agent_message_ttl_seconds,
}

pub data AgentAddressPattern : Type 0 where
  exact : Text → AgentAddressPattern
  prefix : Text → AgentAddressPattern

-- `str::starts_with`, the prefix first.
unfoldable pub starts : Text → Text → Bool
starts [] text = true
starts (p ∷ ps) [] = false
starts (p ∷ ps) (t ∷ ts) = p == t && starts ps ts

unfoldable pub prefix_new : Text → Result AgentRelayValidationError AgentAddressPattern
prefix_new value = validate_identifier "agent address prefix" value >>= λ text. ok (prefix text)

unfoldable pub matches : AgentAddressPattern → Text → Bool
matches (exact own) address = own == address
matches (prefix start) address = starts start address

unfoldable pub validate_pattern : AgentAddressPattern → Result AgentRelayValidationError (Unit {0})
validate_pattern (exact own) = ok tt
validate_pattern (prefix start) = validate_identifier "agent address prefix" start >>= λ _. ok tt

pub record AgentDiscoveryGrant : Type 0 where
  pub addresses : List AgentAddressPattern
  pub max_results : ℕ  -- u16

pub record AgentSendGrant : Type 0 where
  pub recipients : List AgentAddressPattern

pub record AgentReceiveGrant : Type 0 where
  pub senders : List AgentAddressPattern

pub data AgentMessageApproval : Type 0 where
  not_required host_policy required : AgentMessageApproval

pub record AgentMessagingLimits : Type 0 where
  pub max_hops : ℕ  -- u8
  pub max_message_bytes : ℕ
  pub max_messages_per_turn : ℕ  -- u32
  pub max_bytes_per_turn : ℕ
  pub max_messages_per_minute : Option ℕ  -- u32
  pub max_ttl_seconds : ℕ  -- u32

unfoldable pub default_limits : AgentMessagingLimits
default_limits = record {
  max_hops = 4;
  max_message_bytes = 65536;
  max_messages_per_turn = 16;
  max_bytes_per_turn = 262144;
  max_messages_per_minute = some 30;
  max_ttl_seconds = 86400;
}

pub record MessagingGrant : Type 0 where
  pub discovery : Option AgentDiscoveryGrant
  pub send : Option AgentSendGrant
  pub receive : Option AgentReceiveGrant
  pub approval : AgentMessageApproval
  pub limits : AgentMessagingLimits

unfoldable pub discovery_patterns : MessagingGrant → List AgentAddressPattern
discovery_patterns g = elim g.discovery [ none ↦ [] | some d ↦ d.addresses ]

unfoldable pub send_patterns : MessagingGrant → List AgentAddressPattern
send_patterns g = elim g.send [ none ↦ [] | some s ↦ s.recipients ]

unfoldable pub receive_patterns : MessagingGrant → List AgentAddressPattern
receive_patterns g = elim g.receive [ none ↦ [] | some r ↦ r.senders ]

unfoldable pub limits_invalid : AgentMessagingLimits → Bool
limits_invalid l =
    eqb l.max_hops 0
    || eqb l.max_message_bytes 0
    || ltb max_agent_message_bytes l.max_message_bytes
    || eqb l.max_messages_per_turn 0
    || ltb l.max_bytes_per_turn l.max_message_bytes
    || elim l.max_messages_per_minute [ none ↦ false | some n ↦ eqb n 0 ]
    || eqb l.max_ttl_seconds 0
    || ltb max_agent_message_ttl_seconds l.max_ttl_seconds

unfoldable pub validate_grant : MessagingGrant → Result AgentRelayValidationError (Unit {0})
validate_grant g = do
  for_each validate_pattern (discovery_patterns g ++ send_patterns g ++ receive_patterns g)
  reject_if (elim g.discovery [ none ↦ false | some d ↦ eqb d.max_results 0 ])
      (invalid_field "discovery.max_results")
  reject_if (limits_invalid g.limits) (invalid_field "limits")

unfoldable pub permits_discovery : MessagingGrant → Text → Bool
permits_discovery g address = elim g.discovery [
  | none ↦ false
  | some d ↦ any (λ p. matches p address) d.addresses
]

unfoldable pub permits_send_to : MessagingGrant → Text → Bool
permits_send_to g recipient = elim g.send [
  | none ↦ false
  | some s ↦ any (λ p. matches p recipient) s.recipients
]

unfoldable pub permits_receive_from : MessagingGrant → Text → Bool
permits_receive_from g sender = elim g.receive [
  | none ↦ false
  | some r ↦ any (λ p. matches p sender) r.senders
]

pub record AgentRelayContext : Type 0 where
  pub sender : Text
  pub capability_id : Text
  pub inbound : Option AgentMessageProvenance
  pub approval : AgentMessageApproval

unfoldable pub for_turn :
    Text → Text → AgentMessageApproval → Result AgentRelayValidationError AgentRelayContext
for_turn sender capability approval = do
  capability_id ← validate_identifier "relay capability id" capability
  ok (record {
    sender = sender;
    capability_id = capability_id;
    inbound = none;
    approval = approval;
  })

unfoldable pub for_inbound_turn :
    Text
    → Text
    → AgentMessageApproval
    → AgentMessageProvenance
    → Result AgentRelayValidationError AgentRelayContext
for_inbound_turn sender capability approval inbound = do
  reject_if (not (inbound.recipient == sender)) (invalid_field "inbound.recipient")
  context ← for_turn sender capability approval
  ok (record context { inbound = some inbound })

unfoldable pub next_hop_count : AgentRelayContext → ℕ
next_hop_count c = elim c.inbound [
  | none ↦ 0
  | some inbound ↦ saturating_add u8_max inbound.hop_count 1
]
