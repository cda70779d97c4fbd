-- ===== src/Relay/Turns.antt =====
-- src/relay/mcp.rs: sequences of `call_tool` in one turn.
use agent_runtime_sdk.Prelude.{
  ℕ, ◌+◌, ◌≤◌, inl, inr, Bool-cases, List, [], ◌∷◌, ◌++◌, Option-cases, arith, Text, text_eq, ◌==◌,
  ◌&&◌, bytes,
}
use agent_runtime_sdk.Prelude.Result.{err}
use agent_runtime_sdk.Prelude.Words.{u32_max}
use agent_runtime_sdk.Relay.Inbound.{permanent, invalid_request}
use agent_runtime_sdk.Relay.Bridge.{BridgeBudget, budget_new}
use agent_runtime_sdk.Relay.Tools.{AgentRelayActivity, AgentRelayMcpBridge, Parsers, error_activity}
use agent_runtime_sdk.Relay.Calls.{is_some, dispatch, call_tool}
use agent_runtime_sdk.Relay.Deliveries.{deliveries}
use agent_runtime_sdk.Relay.Told.{
  told, told-err, told-discover_input, told-status_input, Yield-cases,
}
use agent_runtime_sdk.Relay.Charges.{
  Within, deliveries-append, error-delivery, free-Charges, call_send-Charges, call_reply-Charges,
  Charges,
}

module _ {V : Type 0} where
  dispatch-Charges :
      (b : AgentRelayMcpBridge V) (parse : Parsers V) (now : ℕ) (name : Text) (arguments : V)
      (budget : BridgeBudget)
      → b.grant.limits.max_messages_per_turn ≤ u32_max
      → Within b.grant.limits budget
      → Charges b.grant.limits budget (dispatch b parse now name arguments budget)
  unfolding dispatch
  dispatch-Charges b parse now name arguments budget few w =
      let refused =
        free-Charges b.grant.limits budget (err (permanent invalid_request)) w (told-err b _) in
      elim (Bool-cases (name == bytes "agent_relay_discover" && is_some b.grant.discovery)) [
        | inl discover ↦ rw discover (
            free-Charges b.grant.limits budget _ w
              (told-discover_input b (parse.discover arguments)))
        | inr r1 ↦
            rw r1 (elim (Bool-cases (name == bytes "agent_relay_send" && is_some b.grant.send)) [
              | inl send ↦ rw send (elim (Option-cases (parse.send arguments)) [
                | inl unread ↦ rw (unread, dispatch) refused
                | inr (i, read) ↦ rw (read, dispatch) (call_send-Charges b now i budget few w)
              ])
              | inr r2 ↦
                  rw r2
                    (elim (Bool-cases (name == bytes "agent_relay_reply" && is_some b.grant.send)) [
                      | inl reply ↦ rw reply (elim (Option-cases (parse.reply arguments)) [
                        | inl unread ↦ rw (unread, dispatch) refused
                        | inr (i, read) ↦
                            rw (read, dispatch) (call_reply-Charges b now i budget few w)
                      ])
                      | inr r3 ↦
                          rw r3
                            (elim (Bool-cases
                              (name == bytes "agent_relay_status" && is_some b.grant.send)) [
                                | inl status ↦ rw status (
                                    free-Charges b.grant.limits budget _ w
                                      (told-status_input b (parse.status arguments)))
                                | inr r4 ↦ rw r4 refused
                              ])
                    ])
            ])
      ]

  -- The calls of a turn: their times, tools and arguments.
  unfoldable pub call_all :
      AgentRelayMcpBridge V
      → Parsers V
      → List (ℕ × Text × V)
      → BridgeBudget
      → BridgeBudget × List AgentRelayActivity
  call_all b parse [] budget = (budget, [])
  call_all b parse ((now, name, arguments) ∷ later) budget =
      let c = call_tool b parse now name arguments budget in
      let (after, activities) = call_all b parse later c.budget in
      (after, c.activities ++ activities)

  call_tool-counted :
      (b : AgentRelayMcpBridge V) (parse : Parsers V) (now : ℕ) (name : Text) (arguments : V)
      (budget : BridgeBudget)
      → b.grant.limits.max_messages_per_turn ≤ u32_max
      → Within b.grant.limits budget
      → let c = call_tool b parse now name arguments budget in
        Within b.grant.limits c.budget
        × (budget.message_count + deliveries c.activities ≤ c.budget.message_count)
  unfolding call_tool told error_activity
  call_tool-counted b parse now name arguments budget few w =
      let c = dispatch-Charges b parse now name arguments budget few w in
      elim (Yield-cases b (dispatch b parse now name arguments budget).1) [
        | inl (found, e) ↦ rw (e, call_tool) (c.within, ground (arith, c.counted, e))
        | inr (bad, e) ↦
            rw (e, call_tool) (c.within, ground (arith, c.counted, e, error-delivery bad.kind))
      ]

  call_all-from :
      (b : AgentRelayMcpBridge V) (parse : Parsers V) (calls : List (ℕ × Text × V))
      (budget : BridgeBudget)
      → b.grant.limits.max_messages_per_turn ≤ u32_max
      → Within b.grant.limits budget
      → let done = call_all b parse calls budget in
        Within b.grant.limits done.0
        × (budget.message_count + deliveries done.1 ≤ done.0.message_count)
  unfolding call_all
  call_all-from b parse [] budget few w = (w, omega arith)
  call_all-from b parse ((now, name, arguments) ∷ later) budget few w =
      let c = call_tool b parse now name arguments budget in
      let (within, n) = call_tool-counted b parse now name arguments budget few w in
      let (rest, m) = call_all-from b parse later c.budget few within in
      (
        rest,
        omega (arith, n, m, deliveries-append c.activities (call_all b parse later c.budget).1),
      )

  -- However the tools of a bridge are called in a turn, the deliveries that its activities tell of
  -- are at most `max_messages_per_turn`, when that is a u32, and the budget stays within the
  -- limits of messages and bytes.
  pub call_all-counted :
      (b : AgentRelayMcpBridge V) (parse : Parsers V) (calls : List (ℕ × Text × V))
      → b.grant.limits.max_messages_per_turn ≤ u32_max
      → let done = call_all b parse calls budget_new in
        (deliveries done.1 ≤ b.grant.limits.max_messages_per_turn) × Within b.grant.limits done.0
  unfolding budget_new
  call_all-counted b parse calls few =
      let (w, n) =
        call_all-from b parse calls budget_new few
          (record { in_count = omega arith; in_bytes = omega arith }) in
      (omega (arith, n, w.in_count), w)
