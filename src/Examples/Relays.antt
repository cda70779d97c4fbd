-- ===== src/Examples/Relays.antt =====
-- A grant with small limits, an inbound message and the attempts of a turn.
use agent_runtime_sdk.Prelude.{
  ℕ, ◌≡◌, refl, Text, text_eq, List, [], ◌∷◌, none, some, arith, ◌≤◌, ◌<◌, ◌↔◌, length, list_beq,
}
use agent_runtime_sdk.Prelude.Result.{ok, err}
use agent_runtime_sdk.Relay.Message.{AgentMessageEnvelope, AgentMessageProvenance}
use agent_runtime_sdk.Relay.Grant.{
  AgentMessagingLimits, MessagingGrant, AgentRelayContext, exact, prefix, host_policy,
  next_hop_count,
}
use agent_runtime_sdk.Relay.Bridge.{budget_new, effective_hop_limit, validate_hop}
use agent_runtime_sdk.Relay.Tools.{AgentDirectoryEntry, AgentDirectoryPage, online}
use agent_runtime_sdk.Relay.Budget.{reserve_all-bounds}
use agent_runtime_sdk.Relay.Accounts.{Attempt, reserve_all, total, times}
use agent_runtime_sdk.Relay.Rate.{KeepsRate}
use agent_runtime_sdk.Relay.Hops.{validate_hop-chain, validate_hop-saturates}
use agent_runtime_sdk.Prelude.{bytes, ◌⊎◌, ◌<◌}
use agent_runtime_sdk.Relay.Message.{validate_message, has_breaks}
use agent_runtime_sdk.Relay.Grant.{permits_send_to, matches}
use agent_runtime_sdk.Relay.Inbound.{permanent, message_not_found}
use agent_runtime_sdk.Relay.Bridge.{
  validate_and_reserve, check_message, check_budget, charge, forget_old,
}
use agent_runtime_sdk.Relay.Tools.{
  AgentDeliveryReceipt, queued, Router, Parsers, AgentRelayMcpBridge, receipt_activity,
  error_activity, error_activity_kind,
}
use agent_runtime_sdk.Relay.Calls.{
  call_tool, dispatch, call_send, call_status, status_query, send_request, send_message,
}
use agent_runtime_sdk.Relay.Turns.{call_all, call_all-counted}
use agent_runtime_sdk.Relay.Charges.{Within}
use agent_runtime_sdk.Relay.Deliveries.{deliveries}

abbrev small : AgentMessagingLimits
small = record {
  max_hops = 4;
  max_message_bytes = 3;
  max_messages_per_turn = 3;
  max_bytes_per_turn = 4;
  max_messages_per_minute = some 1;
  max_ttl_seconds = 60;
}

abbrev attempt : ℕ → Text → Attempt ℕ
attempt now content = record {
  now = now;
  message = record { content = content; attachments = []; metadata = [] };
  ttl_seconds = 30;
}

-- The second attempt meets the rate, the last one the bytes.
abbrev attempts : List (Attempt ℕ)
attempts =
    attempt 0 (65 ∷ [])
    ∷ attempt 1 (66 ∷ [])
    ∷ attempt 60000000000 (67 ∷ 67 ∷ [])
    ∷ attempt 180000000000 (68 ∷ 68 ∷ [])
    ∷ []

reserve_all-bounds_example :
    let accepted = (reserve_all small attempts (budget_new, [])).1 in
    (length accepted ≤ 3) × (total accepted ≤ 4) × KeepsRate (some 1) (times accepted)
reserve_all-bounds_example =
    reserve_all-bounds small attempts (omega arith) (omega arith)
      (omega arith, (omega arith, (omega arith, (omega arith, tt))))

abbrev sender : Text
sender = 97 ∷ 47 ∷ 49 ∷ []

abbrev grant : MessagingGrant
grant = record {
  discovery = some (record { addresses = prefix (97 ∷ []) ∷ []; max_results = 2 });
  send = none;
  receive = some (record { senders = exact sender ∷ [] });
  approval = host_policy;
  limits = small;
}

abbrev inbound : AgentMessageProvenance
inbound = record {
  message_id = 109 ∷ [];
  thread_id = 116 ∷ [];
  sender = sender;
  recipient = 98 ∷ [];
  reply_to = none;
  hop_count = 1;
  hop_limit = 2;
}

abbrev context : AgentRelayContext
context = record {
  sender = 98 ∷ [];
  capability_id = 99 ∷ [];
  inbound = some inbound;
  approval = host_policy;
}

validate_hop-chain_example :
    (next_hop_count context ≡ 2)
    × (effective_hop_limit context grant ≤ 2)
    × (effective_hop_limit context grant ≤ 4)
    × ((validate_hop (next_hop_count context) (effective_hop_limit context grant) ≡ ok tt)
        ↔ ((1 < 2) × (1 < 4)))
validate_hop-chain_example = validate_hop-chain context grant inbound refl (omega arith)

abbrev endless : AgentMessageProvenance
endless = record inbound { hop_count = 255; hop_limit = 255 }

abbrev endless_context : AgentRelayContext
endless_context = record context { inbound = some endless }

abbrev generous : MessagingGrant
generous = record grant { limits = record small { max_hops = 255 } }

validate_hop-saturates_example :
    (validate_hop (next_hop_count endless_context) (effective_hop_limit endless_context generous)
      ≡ ok tt)
    ↔ (((255 < 255) × (255 < 255)) ⊎ ((◌≡◌ {A = ℕ} 255 255) × (◌≡◌ {A = ℕ} 255 255)))
validate_hop-saturates_example =
    validate_hop-saturates endless_context generous endless refl (omega arith) (omega arith)
      (omega arith)

abbrev envelope : AgentMessageEnvelope ℕ
envelope = record {
  schema_version = 1;
  message_id = 109 ∷ [];
  idempotency_key = 107 ∷ [];
  thread_id = 116 ∷ [];
  reply_to = none;
  sender = sender;
  recipient = 98 ∷ [];
  message = record { content = 104 ∷ 105 ∷ []; attachments = []; metadata = [] };
  created_at_unix_ms = 1000;
  ttl_seconds = 30;
  hop_count = 1;
  hop_limit = 2;
}

abbrev entry : Text → AgentDirectoryEntry ℕ
entry address = record {
  address = address;
  display_name = address;
  description = none;
  availability = online;
  metadata = [];
}

abbrev found : AgentDirectoryPage ℕ
found = record { agents = entry (97 ∷ 49 ∷ []) ∷ entry (98 ∷ []) ∷ []; next_cursor = none }

abbrev accepted_receipt : AgentDeliveryReceipt
accepted_receipt = record {
  message_id = 109 ∷ [];
  idempotency_key = 107 ∷ [];
  thread_id = 116 ∷ [];
  status = queued;
  attempts = 0;
  updated_at_unix_ms = 1000;
}

abbrev router : Router ℕ
router = record {
  discover = λ c query. ok found;
  send = λ c request. ok accepted_receipt;
  reply = λ c request. ok accepted_receipt;
  delivery_status = λ c query. err (permanent message_not_found);
}

abbrev parsers : Parsers ℕ
parsers = record {
  discover = λ v. none;
  send = λ v. some (record {
    recipient = sender;
    idempotency_key = 107 ∷ [];
    thread_id = none;
    reply_to = none;
    content = v ∷ [];
    attachments = [];
    metadata = [];
    ttl_seconds = 30;
  });
  reply = λ v. none;
  status = λ v. none;
}

abbrev bridge : AgentRelayMcpBridge ℕ
bridge = record {
  context = context;
  grant = record grant { send = some (record { recipients = exact sender ∷ [] }) };
  router = router;
}

abbrev tool_calls : List (ℕ × Text × ℕ)
tool_calls =
    (0, bytes "agent_relay_send", 65)
    ∷ (60000000000, bytes "agent_relay_send", 66)
    ∷ (60000000001, bytes "agent_relay_status", 67)
    ∷ []

-- Both messages are delivered, and the status query is refused.
two_deliveries : deliveries (call_all bridge parsers tool_calls budget_new).1 ≡ 2
unfolding permanent call_all call_tool dispatch call_send call_status status_query send_request
    send_message validate_and_reserve check_message check_budget charge forget_old validate_message
    has_breaks permits_send_to matches next_hop_count effective_hop_limit validate_hop
    receipt_activity error_activity error_activity_kind budget_new list_beq
two_deliveries = refl

call_all-counted_example :
    (deliveries (call_all bridge parsers tool_calls budget_new).1 ≤ 3)
    × Within small (call_all bridge parsers tool_calls budget_new).0
call_all-counted_example = call_all-counted bridge parsers tool_calls (omega arith)
