-- ===== src/Relay/Deliveries.antt =====
-- src/relay/mcp.rs: the activities of accepted messages.
use agent_runtime_sdk.Prelude.{
  ℕ, suc, if◌then◌else◌, Bool, true, false, List, [], ◌∷◌, text_eq, if◌then◌else◌,
}
use agent_runtime_sdk.Relay.Tools.{AgentRelayActivity, AgentRelayActivityKind, sent, replied}

abbrev pub is_delivery : AgentRelayActivityKind → Bool
is_delivery sent = true
is_delivery replied = true
is_delivery other = false

-- How many messages the router accepted, by the activities that tell of it.
abbrev pub deliveries : List AgentRelayActivity → ℕ
deliveries [] = 0
deliveries (a ∷ as_told) =
    if is_delivery a.kind then suc (deliveries as_told) else deliveries as_told
