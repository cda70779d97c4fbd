-- ===== src/Journal/Replay/Cursors.antt =====
-- src/journal.rs: the cursors that `RuntimeJournal::replay` returns.
use native.Mathlib.Nat.{le_trans}
use agent_runtime_sdk.Prelude.{
  if◌then◌else◌, lt→ltb, Bool-cases, ge→ltb, All, Pairwise, ◌==◌, ==_iff, ==_refl, Text, text_eq, ℕ,
  ◌≤◌, ◌≡◌, refl, sym, inl, inr, true, false, List, [], ◌∷◌, arith, ltb→lt, All-zip, ◌<◌, ◌⊎◌,
}
use agent_runtime_sdk.Prelude.Map.{Map}
use agent_runtime_sdk.Prelude.Order.{btree_insert, get-btree_insert}
use agent_runtime_sdk.Journal.Types.{EventEnvelope}
use agent_runtime_sdk.Journal.Replay.{cursor_of, is_after, advance}
use agent_runtime_sdk.Journal.Replay.Order.{Follows}

pub cursor_of-btree_insert :
    (k i : Text) (v : ℕ) (m : Map Text ℕ)
    → cursor_of (btree_insert k v m) i ≡ (if k == i then v else cursor_of m i)
cursor_of-btree_insert k i v m = elim (Bool-cases (k == i)) [
  | inl hit ↦ rw (get-btree_insert k i v m, hit, cursor_of) refl
  | inr miss ↦ rw (get-btree_insert k i v m, miss, cursor_of) refl
]

le_of_after : {a b : ℕ} → a < b → a ≤ b
le_of_after h = omega arith

module _ {P : Type 0} where
  -- A batch behind an event does not reach it.
  pub advance_behind :
      (batch : List (EventEnvelope P)) (c : Map Text ℕ) (d : EventEnvelope P)
      → is_after c d ≡ true
      → All (λ t. Follows t d) batch
      → is_after (advance c batch) d ≡ true
  unfolding advance
  advance_behind [] c d h a = h
  advance_behind (t ∷ batch) c d h a =
      advance_behind batch _ d
        (rw (cursor_of-btree_insert t.invocation_id d.invocation_id t.sequence c)
          (elim (Bool-cases (t.invocation_id == d.invocation_id)) [
            | inl same ↦ rw same (lt→ltb _ _ (a.0 ((==_iff _ _).0 same)))
            | inr other ↦ rw other h
          ]))
        a.1

  -- A cursor stays at or past an event that the rest of the batch follows.
  stays_past :
      (batch : List (EventEnvelope P)) (c : Map Text ℕ) (t : EventEnvelope P)
      → t.sequence ≤ cursor_of c t.invocation_id
      → All (Follows t) batch
      → t.sequence ≤ cursor_of (advance c batch) t.invocation_id
  unfolding advance
  stays_past [] c t h a = h
  stays_past (y ∷ batch) c t h a =
      stays_past batch _ t
        (rw (cursor_of-btree_insert y.invocation_id t.invocation_id y.sequence c)
          (elim (Bool-cases (y.invocation_id == t.invocation_id)) [
            | inl same ↦ rw same (let l = a.0 (sym ((==_iff _ _).0 same)) in omega arith)
            | inr other ↦ rw other h
          ]))
        a.1

  -- Each event of the batch is covered.
  pub advance_covers :
      (batch : List (EventEnvelope P)) (c : Map Text ℕ)
      → Pairwise Follows batch
      → All (λ t. is_after (advance c batch) t ≡ false) batch
  unfolding advance
  advance_covers [] c r = tt
  advance_covers (t ∷ batch) c r = (
    ge→ltb _ _ (
        stays_past batch _ t
          (rw
            (
              cursor_of-btree_insert t.invocation_id t.invocation_id t.sequence c,
              ==_refl t.invocation_id,
            )
            (omega arith))
          r.0),
    advance_covers batch _ r.1,
  )

  -- No cursor goes back.
  pub advance_grows :
      (batch : List (EventEnvelope P)) (c : Map Text ℕ) (i : Text)
      → Pairwise Follows batch
      → All (λ t. is_after c t ≡ true) batch
      → cursor_of c i ≤ cursor_of (advance c batch) i
  unfolding advance
  advance_grows [] c i r a = omega arith
  advance_grows (t ∷ batch) c i r a =
      let step = cursor_of-btree_insert t.invocation_id i t.sequence c in
      let next = btree_insert t.invocation_id t.sequence c in
      le_trans (first (Bool-cases (t.invocation_id == i)))
        (advance_grows batch next i r.1 (All-zip moved batch r.0 a.1))
    where
      first :
          ((t.invocation_id == i) ≡ true) ⊎ ((t.invocation_id == i) ≡ false)
          → cursor_of c i ≤ cursor_of (btree_insert t.invocation_id t.sequence c) i
      first (inl same) =
          rw (cursor_of-btree_insert t.invocation_id i t.sequence c, same)
            (rw (sym ((==_iff t.invocation_id i).0 same)) (le_of_after (ltb→lt _ _ a.0)))
      first (inr other) =
          rw (cursor_of-btree_insert t.invocation_id i t.sequence c, other) (omega arith)

      moved :
          (y : EventEnvelope P)
          → Follows t y
          → is_after c y ≡ true
          → is_after (btree_insert t.invocation_id t.sequence c) y ≡ true
      moved y f h =
          rw (cursor_of-btree_insert t.invocation_id y.invocation_id t.sequence c)
            (elim (Bool-cases (t.invocation_id == y.invocation_id)) [
              | inl same ↦ rw same (lt→ltb _ _ (f ((==_iff _ _).0 same)))
              | inr other ↦ rw other h
            ])
