-- ===== src/Retained/Messages.antt =====
-- src/retained.rs: messages and controls sent into a running turn, and its interruption.
-- A call of the executor is a function of the executor's own state, a parameter: it is made after the checks, under the lock of the
-- entry, which `send_identified` and `control` hold until the executor answers, so that no other turn is admitted
-- between the checks and the answer.
use agent_runtime_sdk.Prelude.{
  ℕ, Text, text_eq, nat_eq, Option, none, some, Bool, false, not, ◌&&◌, ◌||◌, ◌==◌, all, any, eqb,
  if◌then◌else◌,
}
use agent_runtime_sdk.Prelude.Map.{contains, get}
use agent_runtime_sdk.Prelude.Result.{Result, ok, err, ◌>>=◌, ◌>>◌, reject_if}
use agent_runtime_sdk.Retained.Types.{
  RuntimeFailure, lifecycle_failure, runtime_disposed, invalid_request, capability_unavailable,
  timeout, never, after, not_sent, MessageDelivery, delivered, not_accepting, unsupported,
  withdrawn, InterruptOutcome, interrupted, already_finished, disposed_runtime, unconfirmed,
  CompletionKind, finished, cancelled_turn,
}
use agent_runtime_sdk.Retained.Entry.{RuntimeEntry}

-- The invocation is the active one and its executor has not returned.
unfoldable pub is_running : Text → RuntimeEntry → Bool
is_running invocation_id e = elim e.state.active [
  | none ↦ false
  | some active ↦ active.invocation_id == invocation_id && not (contains active.signal e.released)
]

-- A call of the executor: its state before, and its state after with its answer.
abbrev pub ExecutorCall : Type 0 → Type 0
ExecutorCall X = X → X × Result RuntimeFailure MessageDelivery

module _ (runtime_id invocation_id : Text) where
  -- The answer of the executor, as `send_identified` and `control` return it.
  unfoldable pub delivery_result : MessageDelivery → Result RuntimeFailure (Unit {0})
  unfolding lifecycle_failure
  delivery_result delivery =
      let failure = lifecycle_failure (some runtime_id) (some invocation_id) in
      elim delivery [
        | delivered ↦ ok tt
        | not_accepting ↦ err (failure invalid_request never not_sent)
        | withdrawn ↦ err (failure timeout (after 1000) not_sent)
        | unsupported ↦ err (failure capability_unavailable never not_sent)
      ]

module _ {X : Type 0} (runtime_id invocation_id : Text) where
  -- The call of the executor, when the checks before it pass.
  unfoldable pub deliver :
      Result RuntimeFailure (Unit {0}) → ExecutorCall X → X → X × Result RuntimeFailure (Unit {0})
  deliver (err failure) executor x = (x, err failure)
  deliver (ok checked) executor x =
      let (later, answer) = executor x in
      (later, answer >>= delivery_result runtime_id invocation_id)

  -- `control`, with the call of `control_retained_input`.
  unfoldable pub control : ExecutorCall X → RuntimeEntry → X → X × Result RuntimeFailure (Unit {0})
  unfolding lifecycle_failure
  control executor e x =
      let failure = lifecycle_failure (some runtime_id) (some invocation_id) in
      let checked =
        reject_if (e.disposed || not (is_running invocation_id e))
          (failure invalid_request never not_sent) in
      deliver checked executor x

module _ {X : Type 0} (is_whitespace : ℕ → Bool) (runtime_id invocation_id : Text) where
  -- `send_identified`, with the call of `send_identified_input`; the text holds characters.
  unfoldable pub send_identified :
      Bool → Text → ExecutorCall X → RuntimeEntry → X → X × Result RuntimeFailure (Unit {0})
  unfolding lifecycle_failure
  send_identified live_messages text executor e x =
      let failure = lifecycle_failure (some runtime_id) (some invocation_id) in
      let checked : Result RuntimeFailure (Unit {0}) =
        reject_if (all is_whitespace text || any (λ c. eqb c 0) text)
          (failure invalid_request never not_sent)
        >> reject_if (not live_messages) (failure capability_unavailable never not_sent)
        >> reject_if e.disposed (failure runtime_disposed never not_sent)
        >> reject_if (not (is_running invocation_id e)) (failure invalid_request never not_sent) in
      deliver runtime_id invocation_id checked executor x

-- `interrupt` of the turn with this signal; `later` is how the turn ended, if it did in time.
unfoldable pub interrupt : ℕ → Option CompletionKind → RuntimeEntry → InterruptOutcome
interrupt signal later e = if e.disposed then disposed_runtime else elim (get signal e.terminal) [
  | some kind ↦ already_finished
  | none ↦ elim later [
    | none ↦ unconfirmed
    | some kind ↦ elim kind [ finished ↦ already_finished | cancelled_turn ↦ interrupted ]
  ]
]
