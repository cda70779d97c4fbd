-- ===== src/Journal/Replay/Order.antt =====
-- src/journal.rs: the order of `RuntimeJournal::replay`, by time, invocation and sequence.
use Prim.Native.Nat.{Ordering}
use agent_runtime_sdk.Prelude.{Text, text_eq, ◌≤◌, ◌<◌, ◌≡◌, sym, ◌≢◌, true, false, arith}
use agent_runtime_sdk.Prelude.Order.{
  text_cmp, text_cmp-eq, text_cmp_refl, text_cmp_swap_gt, text_cmp_trans,
}
use agent_runtime_sdk.Journal.Types.{EventEnvelope}
use agent_runtime_sdk.Journal.Replay.{event_le}

same_id : (s t : Text) → s ≡ t → text_cmp s t ≡ Ordering.eq
same_id s t e = rw e (text_cmp_refl t)

module _ {P : Type 0} where
  pub event_le_total : (a b : EventEnvelope P) → event_le a b ≡ false → event_le b a ≡ true
  event_le_total a b h = ground (
    arith,
    text_cmp_swap_gt a.invocation_id b.invocation_id,
    text_cmp-eq a.invocation_id b.invocation_id,
    text_cmp_refl a.invocation_id,
  )

  pub event_le_trans :
      (a b c : EventEnvelope P) → event_le a b ≡ true → event_le b c ≡ true → event_le a c ≡ true
  event_le_trans a b c h k = ground (
    arith,
    text_cmp_trans a.invocation_id b.invocation_id c.invocation_id,
    text_cmp-eq a.invocation_id b.invocation_id,
    text_cmp-eq b.invocation_id c.invocation_id,
    same_id a.invocation_id c.invocation_id,
  )

  -- Within an invocation a later sequence was not observed earlier, and sequences differ.
  abbrev pub Compatible : EventEnvelope P → EventEnvelope P → Type 0
  Compatible a b =
      a.invocation_id ≡ b.invocation_id
      → (a.sequence < b.sequence → a.observed_at_unix_ms ≤ b.observed_at_unix_ms)
        × (b.sequence < a.sequence → b.observed_at_unix_ms ≤ a.observed_at_unix_ms)
        × (a.sequence ≢ b.sequence)

  pub Compatible-symm : (a b : EventEnvelope P) → Compatible a b → Compatible b a
  Compatible-symm a b h e =
      let (up, down, differ) = h (sym e) in (down, up, λ same. differ (sym same))

  -- The second comes later in the invocation of the first, if it is of the same.
  abbrev pub Follows : EventEnvelope P → EventEnvelope P → Type 0
  Follows a b = a.invocation_id ≡ b.invocation_id → a.sequence < b.sequence

  pub Follows-of_le : (a b : EventEnvelope P) → event_le a b ≡ true → Compatible a b → Follows a b
  Follows-of_le a b h c e =
      let (up, down, differ) = c e in ground (arith, same_id a.invocation_id b.invocation_id e)
