-- ===== src/Relay/Told.antt =====
-- src/relay/mcp.rs: the activities in the answer of a tool.
use agent_runtime_sdk.Prelude.{
  ℕ, ◌≤◌, ◌≡◌, refl, inl, inr, ◌⊎◌, false, List, [], ◌∷◌, Option, none, some, arith, text_eq,
}
use agent_runtime_sdk.Prelude.Result.{Result, ok, err, ◌>>=◌, ok_or}
use agent_runtime_sdk.Relay.Inbound.{AgentRelayError, permanent, invalid_request}
use agent_runtime_sdk.Relay.Tools.{
  AgentRelayActivity, AgentRelayMcpBridge, Answer, Yield, receipt_activity, DiscoverToolInput,
  StatusToolInput,
}
use agent_runtime_sdk.Relay.Calls.{call_discover, call_status, status_query}
use agent_runtime_sdk.Relay.Deliveries.{is_delivery, deliveries}

module _ {V : Type 0} where
  -- How many deliveries an answer tells of.
  unfoldable pub told : Yield V → ℕ
  told (ok found) = deliveries found.1
  told (err e) = 0

  pub told-bind {ℓ} :
      {A : Type ℓ} (n : ℕ) (m : Result AgentRelayError A) (f : A → Yield V)
      → ((a : A) → told (f a) ≤ n)
      → told (m >>= f) ≤ n
  unfolding told
  told-bind n (ok a) f h = h a
  told-bind n (err e) f h = omega arith

  pub told-err : (b : AgentRelayMcpBridge V) (e : AgentRelayError) → told (err e) ≤ 0
  unfolding told
  told-err b e = omega arith

  pub told-one :
      (n : ℕ) (answer : Answer V) (a : AgentRelayActivity)
      → deliveries (a ∷ []) ≤ n
      → told (ok (answer, a ∷ [])) ≤ n
  unfolding told
  told-one n answer a h = h

  pub told-none :
      (answer : Answer V) (a : AgentRelayActivity)
      → is_delivery a.kind ≡ false
      → told (ok (answer, a ∷ [])) ≤ 0
  told-none answer a h = told-one 0 answer a (ground (arith, h))

  pub told-discover :
      (b : AgentRelayMcpBridge V) (i : DiscoverToolInput) → told (call_discover b i) ≤ 0
  unfolding call_discover told
  told-discover b i = ground arith

  pub told-status : (b : AgentRelayMcpBridge V) (i : StatusToolInput) → told (call_status b i) ≤ 0
  unfolding call_status status_query receipt_activity told
  told-status b i = ground arith

  pub told-discover_input :
      (b : AgentRelayMcpBridge V) (parsed : Option DiscoverToolInput)
      → told (ok_or parsed (permanent invalid_request) >>= call_discover b) ≤ 0
  told-discover_input b none = told-err b _
  told-discover_input b (some i) = told-discover b i

  pub told-status_input :
      (b : AgentRelayMcpBridge V) (parsed : Option StatusToolInput)
      → told (ok_or parsed (permanent invalid_request) >>= call_status b) ≤ 0
  told-status_input b none = told-err b _
  told-status_input b (some i) = told-status b i

  pub Yield-cases :
      (b : AgentRelayMcpBridge V) (y : Yield V)
      → ((found : Answer V × List AgentRelayActivity) × (y ≡ ok found))
        ⊎ ((e : AgentRelayError) × (y ≡ err e))
  Yield-cases b (ok found) = inl (found, refl)
  Yield-cases b (err e) = inr (e, refl)
