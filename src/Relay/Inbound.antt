-- ===== src/Relay/Inbound.antt =====
-- src/relay/mod.rs: what a relay operation answers, and src/relay/inbound.rs: `validate_inbound`.
use agent_runtime_sdk.Prelude.{ℕ, Option, none, Text, ltb, not, length, text_eq}
use agent_runtime_sdk.Prelude.Result.{Result, ◌>>◌, reject_if, map_err}
use agent_runtime_sdk.Relay.Message.{AgentMessageEnvelope, validate_envelope, is_expired_at}
use agent_runtime_sdk.Relay.Grant.{MessagingGrant, validate_grant, permits_receive_from}

pub data AgentRelayDeliveryState : Type 0 where
  not_accepted accepted possibly_accepted : AgentRelayDeliveryState

pub data AgentRelayRetryAdvice : Type 0 where
  never immediate : AgentRelayRetryAdvice
  -- milliseconds
  after : ℕ → AgentRelayRetryAdvice
  reconcile requires_user_action : AgentRelayRetryAdvice

pub data AgentRelayErrorKind : Type 0 where
  invalid_request unauthorized_recipient unauthorized_sender approval_required : AgentRelayErrorKind
  recipient_not_found message_not_found rate_limited budget_exceeded : AgentRelayErrorKind
  hop_limit_exceeded expired unavailable indeterminate : AgentRelayErrorKind

pub record AgentRelayError : Type 0 where
  pub kind : AgentRelayErrorKind
  pub retry : AgentRelayRetryAdvice
  pub delivery : AgentRelayDeliveryState
  pub message_id : Option Text

unfoldable pub permanent : AgentRelayErrorKind → AgentRelayError
permanent kind = record { kind = kind; retry = never; delivery = not_accepted; message_id = none }

unfoldable pub validate_inbound :
    {V : Type 0} → AgentMessageEnvelope V → MessagingGrant → ℕ → Result AgentRelayError (Unit {0})
validate_inbound e grant now = do
  map_err (λ _. permanent invalid_request) (validate_grant grant)
  map_err (λ _. permanent invalid_request) (validate_envelope e)
  reject_if (not (permits_receive_from grant e.sender)) (permanent unauthorized_sender)
  reject_if (ltb grant.limits.max_hops e.hop_count) (permanent hop_limit_exceeded)
  reject_if (ltb grant.limits.max_message_bytes (length e.message.content))
      (permanent budget_exceeded)
  reject_if (is_expired_at e now) (permanent expired)
