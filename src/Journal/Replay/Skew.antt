-- ===== src/Journal/Replay/Skew.antt =====
-- src/journal.rs: `RuntimeJournal::replay` in pages under a clock that goes back.
use agent_runtime_sdk.Prelude.{
  take, ==_refl, Text, text_eq, ℕ, ◌<◌, ◌≡◌, false, Option, List, ◌∷◌, ◌++◌, arith, ge→ltb, ◌≤◌,
}
use agent_runtime_sdk.Prelude.Map.{Map}
use agent_runtime_sdk.Journal.Replay.Cursors.{cursor_of-btree_insert}
use agent_runtime_sdk.Journal.Types.{EventEnvelope}
use agent_runtime_sdk.Journal.Runtime.{RuntimeJournal}
use agent_runtime_sdk.Journal.Replay.{is_after, pending, advance}

module _ {P : Type 0} where
  -- If the event that heads a replay has a higher sequence than another event of its invocation that
  -- stands anywhere behind it in the replay, then the cursors after a page of one event no longer
  -- ask for that other event, although it was not in the page.
  pub skew-skips :
      (r : RuntimeJournal P) (only : Option (List Text)) (after : Map Text ℕ)
      (first skipped : EventEnvelope P) (between rest : List (EventEnvelope P))
      → pending r only after ≡ first ∷ (between ++ skipped ∷ rest)
      → skipped.invocation_id ≡ first.invocation_id
      → skipped.sequence < first.sequence
      → is_after (advance after (take 1 (pending r only after))) skipped ≡ false
  unfolding advance
  skew-skips r only after first skipped between rest heads same lower =
      let id = first.invocation_id in
      let moved = cursor_of-btree_insert id id first.sequence after in
      rw (heads, same)
        (ge→ltb _ _ (
          rw moved
            (rw (==_refl id) (let le : skipped.sequence ≤ first.sequence = omega arith in le))))
