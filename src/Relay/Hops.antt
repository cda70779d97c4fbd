-- ===== src/Relay/Hops.antt =====
-- src/relay: hop counts and limits, `validate_inbound` and the page of `call_discover`.
use agent_runtime_sdk.Prelude.{
  ℕ, suc, ◌≤◌, ◌<◌, ◌≡◌, true, false, some, arith, ◌↔◌, ◌⊎◌, inl, inr, leb, Bool-cases, length, All,
  select, ltb, All-take, select_satisfies, length-take,
}
use agent_runtime_sdk.Prelude.Result.{ok, reject_if_ok}
use agent_runtime_sdk.Prelude.Words.{u8_max}
use agent_runtime_sdk.Relay.Message.{AgentMessageProvenance}
use agent_runtime_sdk.Relay.Grant.{
  MessagingGrant, AgentRelayContext, next_hop_count, permits_discovery,
}
use agent_runtime_sdk.Relay.Bridge.{effective_hop_limit, validate_hop}
use agent_runtime_sdk.Relay.Tools.{AgentDirectoryPage}
use agent_runtime_sdk.Relay.Calls.{authorized_page}

not_below : (a b : ℕ) → ltb a b ≡ false → b ≤ a
not_below a b h = ground arith

at_most : (a b : ℕ) → b ≤ a → ltb a b ≡ false
at_most a b h = ground arith

-- A message sent in a turn that an inbound message triggered is one hop further, its limit is at
-- most the limit of the chain and at most the grant's, and while the inbound hop count is below
-- the top of a u8 it passes the hop check exactly when the inbound hop count is below both limits.
pub validate_hop-chain :
    (c : AgentRelayContext) (g : MessagingGrant) (inbound : AgentMessageProvenance)
    → c.inbound ≡ some inbound
    → inbound.hop_count < u8_max
    → (next_hop_count c ≡ suc inbound.hop_count)
      × (effective_hop_limit c g ≤ inbound.hop_limit)
      × (effective_hop_limit c g ≤ g.limits.max_hops)
      × ((validate_hop (next_hop_count c) (effective_hop_limit c g) ≡ ok tt)
          ↔ ((inbound.hop_count < inbound.hop_limit) × (inbound.hop_count < g.limits.max_hops)))
unfolding next_hop_count effective_hop_limit validate_hop
validate_hop-chain c g inbound e small =
    rw (e, next_hop_count, effective_hop_limit)
      (
        ground arith,
        ground arith,
        ground arith,
        (
          λ h. let fits = not_below _ _ ((reject_if_ok _ _).0 h) in (ground arith, ground arith),
          λ h. (reject_if_ok _ _).1 (at_most _ _ (ground arith)),
        ),
      )

-- The hop check of a message sent in a turn that an inbound message triggered, over the whole of a u8: it
-- passes exactly when the inbound hop count is below both limits, or when both limits are 255. In that last
-- case it passes at every hop count, since the count stops growing at 255: such a chain is never cut.
pub validate_hop-saturates :
    (c : AgentRelayContext) (g : MessagingGrant) (inbound : AgentMessageProvenance)
    → c.inbound ≡ some inbound
    → inbound.hop_count ≤ u8_max
    → inbound.hop_limit ≤ u8_max
    → g.limits.max_hops ≤ u8_max
    → (validate_hop (next_hop_count c) (effective_hop_limit c g) ≡ ok tt) ↔ (
        ((inbound.hop_count < inbound.hop_limit) × (inbound.hop_count < g.limits.max_hops))
        ⊎ ((inbound.hop_limit ≡ u8_max) × (g.limits.max_hops ≡ u8_max)))
unfolding next_hop_count effective_hop_limit validate_hop
validate_hop-saturates c g inbound e small limit most =
    rw (e, next_hop_count, effective_hop_limit)
      (
        λ h.
            let fits = not_below _ _ ((reject_if_ok _ _).0 h) in
            elim (Bool-cases (leb u8_max inbound.hop_count)) [
              | inl top ↦ inr (ground arith, ground arith)
              | inr below ↦ inl (ground arith, ground arith)
            ],
        λ either. elim either [
          | inl (under, within) ↦ (reject_if_ok _ _).1 (at_most _ _ (ground arith))
          | inr (top, most_top) ↦ (reject_if_ok _ _).1 (at_most _ _ (ground arith))
        ],
      )

module _ {V : Type 0} where
  -- Whatever the application's router finds, a page holds only agents that the grant makes
  -- visible, and at most the limit.
  pub authorized_page-permitted :
      (g : MessagingGrant) (limit : ℕ) (found : AgentDirectoryPage V)
      → let shown = (authorized_page g limit found).agents in
        All (λ entry. permits_discovery g entry.address ≡ true) shown × (length shown ≤ limit)
  unfolding authorized_page
  authorized_page-permitted g limit found = (
    All-take _ limit _ (select_satisfies (λ entry. permits_discovery g entry.address) found.agents),
    omega (
      arith,
      length-take limit (select (λ entry. permits_discovery g entry.address) found.agents),
    ),
  )
