-- ===== src/Prelude/Slices.antt =====
-- Lists cut at the length of a prefix.
use agent_runtime_sdk.Prelude.{
  ℕ, zero, suc, length, take, drop, ◌≤◌, ◌≡◌, refl, ap, List, [], ◌∷◌, ◌++◌, arith,
}

module _ {ℓ} {A : Type ℓ} where
  pub take-append_length : (xs ys : List A) → take (length xs) (xs ++ ys) ≡ xs
  take-append_length [] ys = refl
  take-append_length (x ∷ xs) ys = ap (◌∷◌ x) (take-append_length xs ys)

  pub drop-append_length : (xs ys : List A) → drop (length xs) (xs ++ ys) ≡ ys
  drop-append_length [] ys = refl
  drop-append_length (x ∷ xs) ys = drop-append_length xs ys

  -- A list that is long enough is what is taken, then what is left.
  pub cut_lem :
      (n : ℕ) (xs : List A)
      → n ≤ length xs
      → (length (take n xs) ≡ n) × (xs ≡ take n xs ++ drop n xs)
  cut_lem zero xs h = (refl, refl)
  cut_lem (suc n) [] h = absurd (omega arith)
  cut_lem (suc n) (x ∷ xs) h =
      let rest = cut_lem n xs (omega arith) in (ap suc rest.0, ap (◌∷◌ x) rest.1)
