-- ===== src/Prelude/Order.antt =====
-- The byte order of Rust's strings, and the ordered maps that it gives.
use Prim.Native.Nat.{compare, Ordering}
use agent_runtime_sdk.Prelude.{
  ◌≡◌, refl, subst, [], ◌∷◌, some, arith, Text, text_eq, ◌==◌, ==_iff, if◌then◌else◌,
}
use agent_runtime_sdk.Prelude.Map.{Map, get, Each}

-- `Ordering::then_with`.
abbrev pub then_with : Ordering → Ordering → Ordering
then_with Ordering.eq o = o
then_with Ordering.lt o = Ordering.lt
then_with Ordering.gt o = Ordering.gt

unfoldable pub text_cmp : Text → Text → Ordering
text_cmp [] [] = Ordering.eq
text_cmp [] (y ∷ ys) = Ordering.lt
text_cmp (x ∷ xs) [] = Ordering.gt
text_cmp (x ∷ xs) (y ∷ ys) = then_with (compare x y) (text_cmp xs ys)

pub text_cmp-eq : (s t : Text) → text_cmp s t ≡ Ordering.eq → s ≡ t
unfolding text_cmp
text_cmp-eq [] [] h = refl
text_cmp-eq [] (y ∷ ys) h = cc
text_cmp-eq (x ∷ xs) [] h = cc
text_cmp-eq (x ∷ xs) (y ∷ ys) h = ground (arith, text_cmp-eq xs ys)

pub text_cmp_refl : (s : Text) → text_cmp s s ≡ Ordering.eq
unfolding text_cmp
text_cmp_refl [] = refl
text_cmp_refl (x ∷ xs) = ground (arith, text_cmp_refl xs)

pub text_cmp_swap : (s t : Text) → text_cmp s t ≡ Ordering.lt → text_cmp t s ≡ Ordering.gt
unfolding text_cmp
text_cmp_swap [] [] h = cc
text_cmp_swap [] (y ∷ ys) h = refl
text_cmp_swap (x ∷ xs) [] h = cc
text_cmp_swap (x ∷ xs) (y ∷ ys) h = ground (arith, text_cmp_swap xs ys)

pub text_cmp_trans :
    (s t u : Text)
    → text_cmp s t ≡ Ordering.lt
    → text_cmp t u ≡ Ordering.lt
    → text_cmp s u ≡ Ordering.lt
unfolding text_cmp
text_cmp_trans s [] u h k = absurd (no_less s h)
  where
    no_less : (s : Text) → text_cmp s [] ≡ Ordering.lt → ⊥
    no_less [] h = cc
    no_less (x ∷ xs) h = cc
text_cmp_trans [] (y ∷ ys) [] h k = cc
text_cmp_trans [] (y ∷ ys) (z ∷ zs) h k = refl
text_cmp_trans (x ∷ xs) (y ∷ ys) [] h k = cc
text_cmp_trans (x ∷ xs) (y ∷ ys) (z ∷ zs) h k = ground (arith, text_cmp_trans xs ys zs)

-- `BTreeMap::insert` with text keys: the entries stay in the order of their keys.
module _ {ℓ} {V : Type ℓ} where
  unfoldable pub btree_insert : Text → V → Map Text V → Map Text V
  btree_insert k v [] = (k, v) ∷ []
  btree_insert k v ((j, w) ∷ m) = elim (text_cmp k j) [
    | Ordering.lt ↦ (k, v) ∷ (j, w) ∷ m
    | Ordering.eq ↦ (j, v) ∷ m
    | Ordering.gt ↦ (j, w) ∷ btree_insert k v m
  ]

  pub get-btree_insert :
      (k j : Text) (v : V) (m : Map Text V)
      → get j (btree_insert k v m) ≡ (if k == j then some v else get j m)
  unfolding get btree_insert
  get-btree_insert k j v [] = refl
  get-btree_insert k j v ((i, w) ∷ m) =
      ground
        (arith, ==_iff k j, ==_iff i j, text_cmp-eq k i, text_cmp_refl k, get-btree_insert k j v m)

pub text_cmp_swap_gt : (s t : Text) → text_cmp s t ≡ Ordering.gt → text_cmp t s ≡ Ordering.lt
unfolding text_cmp
text_cmp_swap_gt [] [] h = cc
text_cmp_swap_gt [] (y ∷ ys) h = cc
text_cmp_swap_gt (x ∷ xs) [] h = refl
text_cmp_swap_gt (x ∷ xs) (y ∷ ys) h = ground (arith, text_cmp_swap_gt xs ys)

module _ {ℓ κ} {V : Type ℓ} where
  pub Each-btree_insert :
      (P : Text → V → Type κ) (k : Text) (v : V) (m : Map Text V)
      → P k v
      → Each P m
      → Each P (btree_insert k v m)
  unfolding btree_insert
  Each-btree_insert P k v [] p a = (p, tt)
  Each-btree_insert P k v ((j, w) ∷ m) p a =
      place (text_cmp k j) refl (Each-btree_insert P k v m p a.1)
    where
      place :
          (o : Ordering)
          → text_cmp k j ≡ o
          → Each P (btree_insert k v m)
          → Each P (elim o [
            | Ordering.lt ↦ (k, v) ∷ (j, w) ∷ m
            | Ordering.eq ↦ (j, v) ∷ m
            | Ordering.gt ↦ (j, w) ∷ btree_insert k v m
          ])
      place Ordering.lt e rest = (p, a)
      place Ordering.eq e rest = (subst (λ i. P i v) (text_cmp-eq k j e) p, a.1)
      place Ordering.gt e rest = (a.0, rest)
