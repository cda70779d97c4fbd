-- ===== src/Relay/Calls.antt =====
-- src/relay/mcp.rs: `call_discover`, `call_send`, `call_reply`, `call_status` and `call_tool`.
use agent_runtime_sdk.Prelude.{
  ℕ, Bool, true, false, List, [], ◌∷◌, none, some, Text, ◌==◌, text_eq, ◌&&◌, eqb, not, min, bytes,
  select, take, if◌then◌else◌, Option,
}
use agent_runtime_sdk.Prelude.Result.{Result, ok, err, ◌>>=◌, ◌>>◌, reject_if, ok_or}
use agent_runtime_sdk.Relay.Message.{AgentMessage}
use agent_runtime_sdk.Relay.Grant.{
  MessagingGrant, permits_discovery, permits_send_to, next_hop_count,
}
use agent_runtime_sdk.Relay.Inbound.{
  AgentRelayError, permanent, invalid_request, unauthorized_recipient,
}
use agent_runtime_sdk.Relay.Bridge.{
  BridgeBudget, default_discovery_limit, validate_and_reserve, effective_hop_limit, validate_hop,
}
use agent_runtime_sdk.Relay.Tools.{
  AgentRelayActivity, discovery_made, sent, replied, status_asked, AgentDirectoryPage,
  SendToolInput, ReplyToolInput, StatusToolInput, DiscoverToolInput, SendAgentMessageRequest,
  ReplyToAgentMessageRequest, AgentDeliveryQuery, by_message_id, by_idempotency_key,
  AgentRelayMcpBridge, Parsers, Answer, page, receipt, Yield, receipt_activity, error_activity,
}

-- `Option::is_some`.
abbrev pub is_some : {A : Type 0} → Option A → Bool
is_some none = false
is_some (some a) = true

-- What `call_tool` returns, with the budget after it and the activities emitted.
pub record Called (V : Type 0) : Type 0 where
  pub budget : BridgeBudget
  pub answer : Result AgentRelayError (Answer V)
  pub activities : List AgentRelayActivity

unfoldable pub status_query : StatusToolInput → Result AgentRelayError AgentDeliveryQuery
status_query i = elim i.message_id [
  | some message_id ↦ elim i.idempotency_key [
    | none ↦ ok (by_message_id message_id)
    | some key ↦ err (permanent invalid_request)
  ]
  | none ↦ elim i.idempotency_key [
    | none ↦ err (permanent invalid_request)
    | some key ↦ ok (by_idempotency_key key)
  ]
]

module _ {V : Type 0} where
  unfoldable pub authorized_page : MessagingGrant → ℕ → AgentDirectoryPage V → AgentDirectoryPage V
  authorized_page g limit found = record found {
    agents = take limit (select (λ entry. permits_discovery g entry.address) found.agents);
  }

  unfoldable pub call_discover : AgentRelayMcpBridge V → DiscoverToolInput → Yield V
  call_discover b input = do
    discovery ← ok_or b.grant.discovery (permanent invalid_request)
    let limit =
        min (elim input.limit [ none ↦ default_discovery_limit | some n ↦ n ]) discovery.max_results
    reject_if (eqb limit 0) (permanent invalid_request)
    found ←
        b.router.discover b.context
          (record { query = input.query; cursor = input.cursor; limit = limit })
    ok (
      page (authorized_page b.grant limit found),
      record {
        kind = discovery_made;
        sender = b.context.sender;
        recipient = none;
        message_id = none;
        thread_id = none;
        delivery_status = none;
        error_kind = none;
      }
          ∷ [],
    )

  -- `SendToolInput::into_parts`, its message.
  unfoldable pub send_message : SendToolInput V → AgentMessage V
  send_message i = record {
    content = i.content;
    attachments = i.attachments;
    metadata = i.metadata;
  }

  -- `ReplyToolInput::into_parts`, its message.
  unfoldable pub reply_message : ReplyToolInput V → AgentMessage V
  reply_message i = record {
    content = i.content;
    attachments = i.attachments;
    metadata = i.metadata;
  }

  unfoldable pub send_request : AgentRelayMcpBridge V → SendToolInput V → SendAgentMessageRequest V
  send_request b i = record {
    recipient = i.recipient;
    idempotency_key = i.idempotency_key;
    thread_id = i.thread_id;
    reply_to = i.reply_to;
    message = send_message i;
    ttl_seconds = i.ttl_seconds;
    hop_count = next_hop_count b.context;
    hop_limit = effective_hop_limit b.context b.grant;
  }

  unfoldable pub call_send :
      AgentRelayMcpBridge V → ℕ → SendToolInput V → BridgeBudget → BridgeBudget × Yield V
  call_send b now i budget =
      if not (permits_send_to b.grant i.recipient)
      then (budget, err (permanent unauthorized_recipient))
      else let (after, reserved) =
          validate_and_reserve b.grant.limits now (send_message i) i.ttl_seconds budget in
        let request = send_request b i in
        (
          after,
          reserved
              >> validate_hop request.hop_count request.hop_limit
              >> b.router.send b.context request
              >>= λ r.
                  ok (receipt r, receipt_activity sent b.context.sender (some i.recipient) r ∷ []),
        )

  unfoldable pub reply_request :
      AgentRelayMcpBridge V → ReplyToolInput V → ReplyToAgentMessageRequest V
  reply_request b i = record {
    in_reply_to = i.in_reply_to;
    idempotency_key = i.idempotency_key;
    message = reply_message i;
    ttl_seconds = i.ttl_seconds;
    hop_count = next_hop_count b.context;
    hop_limit = effective_hop_limit b.context b.grant;
  }

  unfoldable pub call_reply :
      AgentRelayMcpBridge V → ℕ → ReplyToolInput V → BridgeBudget → BridgeBudget × Yield V
  call_reply b now i budget =
      let (after, reserved) =
        validate_and_reserve b.grant.limits now (reply_message i) i.ttl_seconds budget in
      let request = reply_request b i in
      (
        after,
        reserved
            >> validate_hop request.hop_count request.hop_limit
            >> b.router.reply b.context request
            >>= λ r. ok (receipt r, receipt_activity replied b.context.sender none r ∷ []),
      )

  unfoldable pub call_status : AgentRelayMcpBridge V → StatusToolInput → Yield V
  call_status b i = do
    query ← status_query i
    r ← b.router.delivery_status b.context query
    ok (receipt r, receipt_activity status_asked b.context.sender none r ∷ [])

  -- `call_tool` before its error is turned into a result.
  unfoldable pub dispatch :
      AgentRelayMcpBridge V → Parsers V → ℕ → Text → V → BridgeBudget → BridgeBudget × Yield V
  dispatch b parse now name arguments budget =
      let discovers : Bool = is_some b.grant.discovery in
      let sends : Bool = is_some b.grant.send in
      let unreadable : BridgeBudget × Yield V = (budget, err (permanent invalid_request)) in
      if (name == bytes "agent_relay_discover") && discovers
      then (
        budget,
        ok_or (parse.discover arguments) (permanent invalid_request) >>= call_discover b,
      )
      else if (name == bytes "agent_relay_send") && sends
      then elim (parse.send arguments) [ none ↦ unreadable | some i ↦ call_send b now i budget ]
      else if (name == bytes "agent_relay_reply") && sends
      then elim (parse.reply arguments) [ none ↦ unreadable | some i ↦ call_reply b now i budget ]
      else if (name == bytes "agent_relay_status") && sends
      then (budget, ok_or (parse.status arguments) (permanent invalid_request) >>= call_status b)
      else unreadable

  unfoldable pub call_tool :
      AgentRelayMcpBridge V → Parsers V → ℕ → Text → V → BridgeBudget → Called V
  call_tool b parse now name arguments budget =
      let (after, result) = dispatch b parse now name arguments budget in
      elim result [
        | ok found ↦ record { budget = after; answer = ok found.0; activities = found.1 }
        | err e ↦ record {
          budget = after;
          answer = err e;
          activities = error_activity b.context.sender e ∷ [];
        }
      ]
