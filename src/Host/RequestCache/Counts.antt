-- ===== src/Host/RequestCache/Counts.antt =====
-- src/protocol_host.rs: the pending entries of a `RequestCache`, counted.
use agent_runtime_sdk.Prelude.{
  ℕ, suc, ◌≡◌, refl, ◌⊎◌, inl, inr, Bool, true, false, [], ◌∷◌, Option, none, some, arith, Text,
  text_eq, ==_iff,
}
use agent_runtime_sdk.Prelude.Map.{Map, get, insert, remove, contains, keys, Distinct}
use agent_runtime_sdk.Host.RequestCache.{CacheEntry, pending, complete}

module _ {F : Type 0} where
  abbrev pub pending_of : Map Text (CacheEntry F) → ℕ
  pending_of [] = 0
  pending_of ((id, pending print channel) ∷ m) = suc (pending_of m)
  pending_of ((id, complete print frames) ∷ m) = pending_of m

  abbrev pub is_complete : Option (CacheEntry F) → Bool
  is_complete none = false
  is_complete (some (pending print channel)) = false
  is_complete (some (complete print frames)) = true

  pub pending_of-insert-pending :
      (id print : Text) (channel : ℕ) (m : Map Text (CacheEntry F))
      → get id m ≡ none
      → pending_of (insert id (pending print channel) m) ≡ suc (pending_of m)
  unfolding get insert
  pending_of-insert-pending id print channel [] h = refl
  pending_of-insert-pending id print channel ((j, pending p d) ∷ m) h =
      ground (arith, pending_of-insert-pending id print channel m)
  pending_of-insert-pending id print channel ((j, complete p d) ∷ m) h =
      ground (arith, pending_of-insert-pending id print channel m)

  pub pending_of-insert_complete :
      (id print : Text) (frames : F) (m : Map Text (CacheEntry F))
      → get id m ≡ none
      → pending_of (insert id (complete print frames) m) ≡ pending_of m
  unfolding get insert
  pending_of-insert_complete id print frames [] h = refl
  pending_of-insert_complete id print frames ((j, pending p d) ∷ m) h =
      ground (arith, pending_of-insert_complete id print frames m)
  pending_of-insert_complete id print frames ((j, complete p d) ∷ m) h =
      ground (arith, pending_of-insert_complete id print frames m)

  pub remove_absent :
      (id : Text) (m : Map Text (CacheEntry F)) → contains id (keys m) ≡ false → remove id m ≡ m
  unfolding contains remove
  remove_absent id [] h = refl
  remove_absent id ((j, e) ∷ m) h = ground (arith, remove_absent id m)

  pub pending_of-remove-pending :
      (id print : Text) (channel : ℕ) (m : Map Text (CacheEntry F))
      → Distinct (keys m)
      → get id m ≡ some (pending print channel)
      → suc (pending_of (remove id m)) ≡ pending_of m
  unfolding get remove
  pending_of-remove-pending id print channel [] d h = cc
  pending_of-remove-pending id print channel ((j, pending p e) ∷ m) d h = ground (
    arith,
    ==_iff j id,
    remove_absent j m,
    remove_absent id m,
    d.0,
    pending_of-remove-pending id print channel m d.1,
  )
  pending_of-remove-pending id print channel ((j, complete p e) ∷ m) d h =
      ground (arith, pending_of-remove-pending id print channel m d.1)

  pub pending_of-remove_complete :
      (id : Text) (m : Map Text (CacheEntry F))
      → Distinct (keys m)
      → is_complete (get id m) ≡ true
      → pending_of (remove id m) ≡ pending_of m
  unfolding get remove
  pending_of-remove_complete id [] d h = refl
  pending_of-remove_complete id ((j, pending p e) ∷ m) d h =
      ground (arith, pending_of-remove_complete id m d.1)
  pending_of-remove_complete id ((j, complete p e) ∷ m) d h = ground (
    arith,
    ==_iff j id,
    remove_absent j m,
    remove_absent id m,
    d.0,
    pending_of-remove_complete id m d.1,
  )

  pub Entry-cases :
      (o : Option (CacheEntry F))
      → (o ≡ none)
        ⊎ ((p : Text) × (ch : ℕ) × (o ≡ some (pending p ch)))
        ⊎ ((p : Text) × (f : F) × (o ≡ some (complete p f)))
  Entry-cases none = inl refl
  Entry-cases (some (pending p ch)) = inr (inl (p, ch, refl))
  Entry-cases (some (complete p f)) = inr (inr (p, f, refl))
