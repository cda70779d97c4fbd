-- ===== src/Retained/Types.antt =====
-- src/lifecycle.rs: states and failures; src/retained.rs: what a turn is.
use agent_runtime_sdk.Prelude.{ℕ, Option, none, Text, Bool, true, false, text_eq}

pub data RuntimeStatus : Type 0 where
  starting ready busy degraded stopping stopped failed : RuntimeStatus

pub data RuntimeFailureKind : Type 0 where
  runtime_already_exists runtime_not_found runtime_disposed runtime_busy : RuntimeFailureKind
  invocation_already_exists invalid_request authentication permission : RuntimeFailureKind
  capability_unavailable rate_limited network transport provider_protocol : RuntimeFailureKind
  provider_process timeout cancelled indeterminate : RuntimeFailureKind

pub data DeliveryState : Type 0 where
  not_sent possibly_sent accepted : DeliveryState

pub data RetryAdvice : Type 0 where
  never immediate : RetryAdvice
  -- Milliseconds
  after : ℕ → RetryAdvice
  reconnect_and_attach requires_user_action : RetryAdvice

-- The provider's text, the two wordings for a compaction that nothing confirmed, or other wording of the
-- source's own, which is not told apart.
pub data Message : Type 0 where
  provider_text : Text → Message
  finished_unconfirmed ended_unconfirmed prose : Message

pub record RuntimeFailure : Type 0 where
  pub runtime_id : Option Text
  pub invocation_id : Option Text
  pub kind : RuntimeFailureKind
  pub retry : RetryAdvice
  pub delivery : DeliveryState
  pub message : Message
  pub provider_code : Option Text

unfoldable pub lifecycle_failure :
    Option Text → Option Text → RuntimeFailureKind → RetryAdvice → DeliveryState → RuntimeFailure
lifecycle_failure runtime_id invocation_id kind retry delivery = record {
  runtime_id = runtime_id;
  invocation_id = invocation_id;
  kind = kind;
  retry = retry;
  delivery = delivery;
  message = prose;
  provider_code = none;
}

pub data RuntimeInvocationKind : Type 0 where
  turn manual_compaction continuation : RuntimeInvocationKind

abbrev pub is_turn : RuntimeInvocationKind → Bool
is_turn turn = true
is_turn manual_compaction = false
is_turn continuation = false

abbrev pub is_manual_compaction : RuntimeInvocationKind → Bool
is_manual_compaction turn = false
is_manual_compaction manual_compaction = true
is_manual_compaction continuation = false

pub data CompletionKind : Type 0 where
  finished cancelled_turn : CompletionKind

pub data InterruptOutcome : Type 0 where
  interrupted already_finished disposed_runtime unconfirmed : InterruptOutcome

pub data MessageDelivery : Type 0 where
  delivered not_accepting unsupported withdrawn : MessageDelivery

pub data DisposeOutcome : Type 0 where
  disposed not_found : DisposeOutcome

pub data AutoCompactionPolicy : Type 0 where
  provider_default automatic : AutoCompactionPolicy
  token_threshold : ℕ → AutoCompactionPolicy
