-- ===== src/Interactions/Registry/Staged.antt =====
-- src/interactions.rs: the staged responses of `Registry`, counted.
use agent_runtime_sdk.Prelude.{length, Text, text_eq, ℕ, suc, ◌≤◌, ◌<◌, ◌≡◌, some, [], ◌∷◌, arith}
use agent_runtime_sdk.Prelude.Map.{Map, get, insert, remove}
use agent_runtime_sdk.Interactions.Registry.{Slot, waiting, held}

module _ {T : Type 0} where
  abbrev pub staged_count : Map Text (Slot T) → ℕ
  staged_count [] = 0
  staged_count ((id, waiting generation sender) ∷ m) = staged_count m
  staged_count ((id, held value) ∷ m) = suc (staged_count m)

  pub staged_count-le : (m : Map Text (Slot T)) → staged_count m ≤ length m
  staged_count-le [] = omega arith
  staged_count-le ((id, waiting g s) ∷ m) = omega (arith, staged_count-le m)
  staged_count-le ((id, held v) ∷ m) = omega (arith, staged_count-le m)

  pub staged_count-remove :
      (id : Text) (m : Map Text (Slot T)) → staged_count (remove id m) ≤ staged_count m
  unfolding remove
  staged_count-remove id [] = omega arith
  staged_count-remove id ((j, waiting g s) ∷ m) = ground (arith, staged_count-remove id m)
  staged_count-remove id ((j, held v) ∷ m) = ground (arith, staged_count-remove id m)

  pub staged_count-insert_waiting :
      (id : Text) (g s : ℕ) (m : Map Text (Slot T))
      → staged_count (insert id (waiting g s) m) ≤ staged_count m
  unfolding insert
  staged_count-insert_waiting id g s [] = omega arith
  staged_count-insert_waiting id g s ((j, waiting h t) ∷ m) =
      ground (arith, staged_count-insert_waiting id g s m)
  staged_count-insert_waiting id g s ((j, held v) ∷ m) =
      ground (arith, staged_count-insert_waiting id g s m)

  pub staged_count-insert_held :
      (id : Text) (w : T) (m : Map Text (Slot T))
      → staged_count (insert id (held w) m) ≤ suc (staged_count m)
  unfolding insert
  staged_count-insert_held id w [] = omega arith
  staged_count-insert_held id w ((j, waiting h t) ∷ m) =
      ground (arith, staged_count-insert_held id w m)
  staged_count-insert_held id w ((j, held v) ∷ m) = ground (arith, staged_count-insert_held id w m)

  -- Taking a staged response out makes room for one.
  pub staged_count-remove_held :
      (id : Text) (w : T) (m : Map Text (Slot T))
      → get id m ≡ some (held w)
      → staged_count (remove id m) < staged_count m
  unfolding get remove
  staged_count-remove_held id w [] h = cc
  staged_count-remove_held id w ((j, waiting g s) ∷ m) h =
      ground (arith, staged_count-remove_held id w m)
  staged_count-remove_held id w ((j, held v) ∷ m) h =
      ground (arith, staged_count-remove_held id w m, staged_count-remove id m)
