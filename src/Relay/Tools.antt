-- ===== src/Relay/Tools.antt =====
-- src/relay/mod.rs and src/relay/mcp.rs: the data of the tools of the bridge.
-- serde's parsers of a tool's arguments and the application's `AgentMessageRouter` are parameters.
-- A call returns the budget after it, its answer and the activities emitted, without their prose.
use agent_runtime_sdk.Prelude.{ℕ, List, Option, none, some, Text, text_eq}
use agent_runtime_sdk.Prelude.Map.{Map}
use agent_runtime_sdk.Prelude.Result.{Result}
use agent_runtime_sdk.Relay.Message.{AgentMessage, AgentMessageAttachment}
use agent_runtime_sdk.Relay.Grant.{MessagingGrant, AgentRelayContext}
use agent_runtime_sdk.Relay.Inbound.{
  AgentRelayError, AgentRelayErrorKind, rate_limited, budget_exceeded, hop_limit_exceeded,
}

pub data AgentDeliveryStatus : Type 0 where
  queued dispatching delivered rejected expired : AgentDeliveryStatus

pub record AgentDeliveryReceipt : Type 0 where
  pub message_id : Text
  pub idempotency_key : Text
  pub thread_id : Text
  pub status : AgentDeliveryStatus
  pub attempts : ℕ  -- u32
  pub updated_at_unix_ms : ℕ  -- u64

-- Discovery, Send, Reply, Status, Rejected and LimitReached.
pub data AgentRelayActivityKind : Type 0 where
  discovery_made sent replied status_asked call_rejected limit_reached : AgentRelayActivityKind

pub record AgentRelayActivity : Type 0 where
  pub kind : AgentRelayActivityKind
  pub sender : Text
  pub recipient : Option Text
  pub message_id : Option Text
  pub thread_id : Option Text
  pub delivery_status : Option AgentDeliveryStatus
  pub error_kind : Option AgentRelayErrorKind

pub data AgentAvailability : Type 0 where
  online busy offline unknown : AgentAvailability

pub record AgentDirectoryEntry (V : Type 0) : Type 0 where
  pub address : Text
  pub display_name : Text
  pub description : Option Text
  pub availability : AgentAvailability
  pub metadata : Map Text V

pub record AgentDirectoryPage (V : Type 0) : Type 0 where
  pub agents : List (AgentDirectoryEntry V)
  pub next_cursor : Option Text

pub record AgentDiscoveryQuery : Type 0 where
  pub query : Option Text
  pub cursor : Option Text
  pub limit : ℕ  -- u16

pub record SendAgentMessageRequest (V : Type 0) : Type 0 where
  pub recipient : Text
  pub idempotency_key : Text
  pub thread_id : Option Text
  pub reply_to : Option Text
  pub message : AgentMessage V
  pub ttl_seconds : ℕ  -- u32
  pub hop_count : ℕ  -- u8
  pub hop_limit : ℕ  -- u8

pub record ReplyToAgentMessageRequest (V : Type 0) : Type 0 where
  pub in_reply_to : Text
  pub idempotency_key : Text
  pub message : AgentMessage V
  pub ttl_seconds : ℕ  -- u32
  pub hop_count : ℕ  -- u8
  pub hop_limit : ℕ  -- u8

pub data AgentDeliveryQuery : Type 0 where
  by_message_id by_idempotency_key : Text → AgentDeliveryQuery

pub record DiscoverToolInput : Type 0 where
  pub query : Option Text
  pub cursor : Option Text
  pub limit : Option ℕ

pub record SendToolInput (V : Type 0) : Type 0 where
  pub recipient : Text
  pub idempotency_key : Text
  pub thread_id : Option Text
  pub reply_to : Option Text
  pub content : Text
  pub attachments : List (AgentMessageAttachment V)
  pub metadata : Map Text V
  pub ttl_seconds : ℕ

pub record ReplyToolInput (V : Type 0) : Type 0 where
  pub in_reply_to : Text
  pub idempotency_key : Text
  pub content : Text
  pub attachments : List (AgentMessageAttachment V)
  pub metadata : Map Text V
  pub ttl_seconds : ℕ

pub record StatusToolInput : Type 0 where
  pub message_id : Option Text
  pub idempotency_key : Option Text

-- The application's `AgentMessageRouter`.
pub record Router (V : Type 0) : Type 0 where
  pub discover :
      AgentRelayContext → AgentDiscoveryQuery → Result AgentRelayError (AgentDirectoryPage V)
  pub send :
      AgentRelayContext → SendAgentMessageRequest V → Result AgentRelayError AgentDeliveryReceipt
  pub reply :
      AgentRelayContext → ReplyToAgentMessageRequest V → Result AgentRelayError AgentDeliveryReceipt
  pub delivery_status :
      AgentRelayContext → AgentDeliveryQuery → Result AgentRelayError AgentDeliveryReceipt

-- `serde_json::from_value` at the types of the tools' inputs.
pub record Parsers (V : Type 0) : Type 0 where
  pub discover : V → Option DiscoverToolInput
  pub send : V → Option (SendToolInput V)
  pub reply : V → Option (ReplyToolInput V)
  pub status : V → Option StatusToolInput

pub record AgentRelayMcpBridge (V : Type 0) : Type 0 where
  pub context : AgentRelayContext
  pub grant : MessagingGrant
  pub router : Router V

pub data Answer (V : Type 0) : Type 0 where
  page : AgentDirectoryPage V → Answer V
  receipt : AgentDeliveryReceipt → Answer V

-- What a tool yields: its answer with the activities of its success.
abbrev pub Yield : Type 0 → Type 0
Yield V = Result AgentRelayError (Answer V × List AgentRelayActivity)

unfoldable pub receipt_activity :
    AgentRelayActivityKind → Text → Option Text → AgentDeliveryReceipt → AgentRelayActivity
receipt_activity kind sender recipient r = record {
  kind = kind;
  sender = sender;
  recipient = recipient;
  message_id = some r.message_id;
  thread_id = some r.thread_id;
  delivery_status = some r.status;
  error_kind = none;
}

unfoldable pub error_activity_kind : AgentRelayErrorKind → AgentRelayActivityKind
error_activity_kind rate_limited = limit_reached
error_activity_kind budget_exceeded = limit_reached
error_activity_kind hop_limit_exceeded = limit_reached
error_activity_kind other = call_rejected

unfoldable pub error_activity : Text → AgentRelayError → AgentRelayActivity
error_activity sender e = record {
  kind = error_activity_kind e.kind;
  sender = sender;
  recipient = none;
  message_id = e.message_id;
  thread_id = none;
  delivery_status = none;
  error_kind = some e.kind;
}
