-- ===== src/Relay/Charges.antt =====
-- src/relay/mcp.rs: what the tools of a bridge charge to its budget.
use agent_runtime_sdk.Prelude.{
  ℕ, ◌+◌, ◌≤◌, ◌≡◌, refl, inl, inr, false, Bool-cases, List, [], ◌∷◌, ◌++◌, none, some, arith,
  text_eq, length,
}
use agent_runtime_sdk.Prelude.Result.{Result-cases, Result, ok, err, ◌>>=◌, ◌>>◌}
use agent_runtime_sdk.Prelude.Words.{u32_max}
use agent_runtime_sdk.Relay.Message.{AgentMessage}
use agent_runtime_sdk.Relay.Grant.{AgentMessagingLimits, permits_send_to}
use agent_runtime_sdk.Relay.Inbound.{AgentRelayError, AgentRelayErrorKind}
use agent_runtime_sdk.Relay.Bridge.{
  BridgeBudget, forget_old, check_message, check_budget, charge, validate_and_reserve, validate_hop,
}
use agent_runtime_sdk.Relay.Accounts.{check_budget-RoomFor}
use agent_runtime_sdk.Relay.Tools.{
  AgentRelayActivity, sent, replied, AgentDeliveryReceipt, AgentRelayMcpBridge, receipt, Yield,
  receipt_activity, error_activity_kind, SendToolInput, ReplyToolInput,
}
use agent_runtime_sdk.Relay.Calls.{
  call_send, call_reply, send_message, reply_message, send_request, reply_request,
}
use agent_runtime_sdk.Relay.Deliveries.{is_delivery, deliveries}
use agent_runtime_sdk.Relay.Told.{told, told-bind, told-err, told-one}

-- The budget within the limits of the turn.
pub record Within (l : AgentMessagingLimits) (b : BridgeBudget) : Type 0 where
  pub in_count : b.message_count ≤ l.max_messages_per_turn
  pub in_bytes : b.message_bytes ≤ l.max_bytes_per_turn

one : (a : AgentRelayActivity) → deliveries (a ∷ []) ≤ 1
one a = ground arith

pub deliveries-append :
    (xs ys : List AgentRelayActivity) → deliveries (xs ++ ys) ≡ deliveries xs + deliveries ys
deliveries-append [] ys = omega arith
deliveries-append (x ∷ xs) ys = ground (arith, deliveries-append xs ys)

pub error-delivery : (k : AgentRelayErrorKind) → is_delivery (error_activity_kind k) ≡ false
unfolding error_activity_kind
error-delivery k = ground arith

module _ {V : Type 0} where
  -- A call leaves the budget within the limits, and each delivery that it tells of is counted.
  pub record Charges (l : AgentMessagingLimits) (before : BridgeBudget)
      (done : BridgeBudget × Yield V) : Type 0 where
    pub within : Within l done.0
    pub counted : before.message_count + told done.1 ≤ done.0.message_count

  pub free-Charges :
      (l : AgentMessagingLimits) (b : BridgeBudget) (result : Yield V)
      → Within l b
      → told result ≤ 0
      → Charges l b (b, result)
  free-Charges l b result w t = record { within = w; counted = omega (arith, t) }

  reserved-Charges :
      (bridge : AgentRelayMcpBridge V) (l : AgentMessagingLimits) (now : ℕ) (m : AgentMessage V)
      (ttl : ℕ) (b : BridgeBudget) (next : Yield V)
      → l.max_messages_per_turn ≤ u32_max
      → Within l b
      → told next ≤ 1
      → let done = validate_and_reserve l now m ttl b in
        Charges l b (done.0, (done.1 >>= λ _. next))
  unfolding validate_and_reserve charge
  reserved-Charges bridge l now m ttl b next few w t = elim (Result-cases (check_message l m ttl)) [
    | inl (e, bad) ↦ rw (bad, validate_and_reserve) (free-Charges l b (err e) w (told-err bridge e))
    | inr good ↦
        let recent : BridgeBudget = record b {
          recent_messages = forget_old now b.recent_messages;
        } in
        elim (Result-cases (check_budget l (length m.content) recent)) [
          | inl (e, bad) ↦
              rw (good, bad, validate_and_reserve)
                (record {
                  within = record { in_count = w.in_count; in_bytes = w.in_bytes };
                  counted = omega (arith, told-err bridge e);
                })
          | inr fits ↦
              rw (good, fits, validate_and_reserve)
                (let room = check_budget-RoomFor l (length m.content) recent fits in
                  record {
                    within = record { in_count = ground (arith, room.0); in_bytes = room.1 };
                    counted = ground (arith, room.0, t);
                  })
        ]
  ]

  told-after :
      (b : AgentRelayMcpBridge V) (hop : Result AgentRelayError (Unit {0}))
      (routed : Result AgentRelayError AgentDeliveryReceipt)
      (a : AgentDeliveryReceipt → AgentRelayActivity)
      → told {V = V} (hop >> routed >>= λ r. ok (receipt r, a r ∷ [])) ≤ 1
  told-after b hop routed a =
      told-bind 1 _ (λ r. ok (receipt r, a r ∷ [])) (λ r. told-one 1 (receipt r) (a r) (one (a r)))

  join :
      (m hop : Result AgentRelayError (Unit {0}))
      (routed : Result AgentRelayError AgentDeliveryReceipt) (f : AgentDeliveryReceipt → Yield V)
      → (m >> hop >> routed >>= f) ≡ (m >>= λ _. hop >> routed >>= f)
  join (ok _) hop routed f = refl
  join (err e) hop routed f = refl

  pub call_send-Charges :
      (b : AgentRelayMcpBridge V) (now : ℕ) (i : SendToolInput V) (budget : BridgeBudget)
      → b.grant.limits.max_messages_per_turn ≤ u32_max
      → Within b.grant.limits budget
      → Charges b.grant.limits budget (call_send b now i budget)
  unfolding call_send
  call_send-Charges b now i budget few w = elim (Bool-cases (permits_send_to b.grant i.recipient)) [
    | inr out ↦ rw out (free-Charges b.grant.limits budget _ w (told-err b _))
    | inl fine ↦ rw fine (
        rw
          (join (validate_and_reserve b.grant.limits now (send_message i) i.ttl_seconds budget).1 _
            _ _)
          (reserved-Charges b b.grant.limits now (send_message i) i.ttl_seconds budget _ few w (
            told-after b (validate_hop (send_request b i).hop_count (send_request b i).hop_limit)
              (b.router.send b.context (send_request b i))
              (receipt_activity sent b.context.sender (some i.recipient)))))
  ]

  pub call_reply-Charges :
      (b : AgentRelayMcpBridge V) (now : ℕ) (i : ReplyToolInput V) (budget : BridgeBudget)
      → b.grant.limits.max_messages_per_turn ≤ u32_max
      → Within b.grant.limits budget
      → Charges b.grant.limits budget (call_reply b now i budget)
  unfolding call_reply
  call_reply-Charges b now i budget few w =
      rw
        (join (validate_and_reserve b.grant.limits now (reply_message i) i.ttl_seconds budget).1 _ _
          _)
        (reserved-Charges b b.grant.limits now (reply_message i) i.ttl_seconds budget _ few w (
          told-after b (validate_hop (reply_request b i).hop_count (reply_request b i).hop_limit)
            (b.router.reply b.context (reply_request b i))
            (receipt_activity replied b.context.sender none)))
