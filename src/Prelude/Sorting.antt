-- ===== src/Prelude/Sorting.antt =====
-- `slice::sort_by`, a stable sort, as insertion sort by a Boolean order.
use agent_runtime_sdk.Prelude.{
  if◌then◌else◌, Bool-cases, All, Pairwise, select, All-map, All-select, nat_eq, text_eq, ◌≡◌, refl,
  sym, inl, inr, Bool, true, false, List, [], ◌∷◌,
}

module _ {ℓ} {A : Type ℓ} (le : A → A → Bool) where
  -- The new element goes in front of the first element that it does not exceed.
  unfoldable pub insert_sorted : A → List A → List A
  insert_sorted x [] = x ∷ []
  insert_sorted x (y ∷ ys) =
      let rest = insert_sorted x ys in if le x y then x ∷ y ∷ ys else y ∷ rest

  unfoldable pub sort_by : List A → List A
  unfolding insert_sorted
  sort_by [] = []
  sort_by (x ∷ xs) = insert_sorted x (sort_by xs)

  -- Each element is at most every later one.
  abbrev pub IsSorted : List A → Type 0
  IsSorted = Pairwise (λ x y. le x y ≡ true)

  pub All-insert_sorted {κ} :
      (P : A → Type κ) (x : A) (ys : List A) → P x → All P ys → All P (insert_sorted x ys)
  unfolding insert_sorted
  All-insert_sorted P x [] p a = (p, tt)
  All-insert_sorted P x (y ∷ ys) p a = elim (Bool-cases (le x y)) [
    | inl first ↦ rw first (p, a)
    | inr later ↦ rw later (a.0, All-insert_sorted P x ys p a.1)
  ]

  pub All-sort_by {κ} : (P : A → Type κ) (xs : List A) → All P xs → All P (sort_by xs)
  unfolding sort_by
  All-sort_by P [] a = tt
  All-sort_by P (x ∷ xs) a = All-insert_sorted P x (sort_by xs) a.0 (All-sort_by P xs a.1)

  -- A symmetric relation between all pairs survives the sort.
  Pairwise-insert_sorted {κ} :
      (R : A → A → Type κ) (symmetric : (x y : A) → R x y → R y x) (x : A) (ys : List A)
      → All (R x) ys
      → Pairwise R ys
      → Pairwise R (insert_sorted x ys)
  unfolding insert_sorted
  Pairwise-insert_sorted R symmetric x [] a r = (tt, tt)
  Pairwise-insert_sorted R symmetric x (y ∷ ys) a r = elim (Bool-cases (le x y)) [
    | inl first ↦ rw first (a, r)
    | inr later ↦ rw later (
      All-insert_sorted (R y) x ys (symmetric x y a.0) r.0,
      Pairwise-insert_sorted R symmetric x ys a.1 r.1,
    )
  ]

  pub Pairwise-sort_by {κ} :
      (R : A → A → Type κ)
      → ((x y : A) → R x y → R y x)
      → (xs : List A) → Pairwise R xs
      → Pairwise R (sort_by xs)
  unfolding sort_by
  Pairwise-sort_by R symmetric [] r = tt
  Pairwise-sort_by R symmetric (x ∷ xs) r =
      Pairwise-insert_sorted R symmetric x (sort_by xs) (All-sort_by (R x) xs r.0)
        (Pairwise-sort_by R symmetric xs r.1)

  module _ (total : (x y : A) → le x y ≡ false → le y x ≡ true)
      (trans : (x y z : A) → le x y ≡ true → le y z ≡ true → le x z ≡ true) where
    insert_sorted-IsSorted : (x : A) (ys : List A) → IsSorted ys → IsSorted (insert_sorted x ys)
    unfolding insert_sorted
    insert_sorted-IsSorted x [] s = (tt, tt)
    insert_sorted-IsSorted x (y ∷ ys) s = elim (Bool-cases (le x y)) [
      | inl first ↦ rw first ((first, All-map (λ z h. trans x y z first h) ys s.0), s)
      | inr later ↦ rw later (
        All-insert_sorted (λ z. le y z ≡ true) x ys (total x y later) s.0,
        insert_sorted-IsSorted x ys s.1,
      )
    ]

    pub sort_by-IsSorted : (xs : List A) → IsSorted (sort_by xs)
    unfolding sort_by
    sort_by-IsSorted [] = tt
    sort_by-IsSorted (x ∷ xs) = insert_sorted-IsSorted x (sort_by xs) (sort_by-IsSorted xs)

    insert_before :
        (x : A) (ys : List A) → All (λ y. le x y ≡ true) ys → insert_sorted x ys ≡ x ∷ ys
    unfolding insert_sorted
    insert_before x [] a = refl
    insert_before x (y ∷ ys) a = rw a.0 refl

    select-insert_sorted :
        (p : A → Bool) (x : A) (ys : List A)
        → IsSorted ys
        → select p (insert_sorted x ys)
          ≡ (if p x then insert_sorted x (select p ys) else select p ys)
    unfolding insert_sorted
    select-insert_sorted p x [] s = refl
    select-insert_sorted p x (y ∷ ys) s = elim (Bool-cases (le x y)) [
      | inl first ↦ rw first (placed first (p x) (p y))
      | inr later ↦ rw (later, select-insert_sorted p x ys s.1) (passed later (p x) (p y))
    ]
      where
        below : le x y ≡ true → All (λ z. le x z ≡ true) (select p ys)
        below first =
            All-select (λ z. le x z ≡ true) p ys (All-map (λ z h. trans x y z first h) ys s.0)

        placed :
            le x y ≡ true
            → (px py : Bool)
            → (if px
                then x ∷ (if py then y ∷ select p ys else select p ys)
                else if py
                then y ∷ select p ys
                else select p ys)
              ≡ (if px
                  then insert_sorted x (if py then y ∷ select p ys else select p ys)
                  else if py
                  then y ∷ select p ys
                  else select p ys)
        placed first false py = refl
        placed first true true = rw first refl
        placed first true false = sym (insert_before x (select p ys) (below first))

        passed :
            le x y ≡ false
            → (px py : Bool)
            → (let rest = if px then insert_sorted x (select p ys) else select p ys in
                if py then y ∷ rest else rest)
              ≡ (if px
                  then insert_sorted x (if py then y ∷ select p ys else select p ys)
                  else if py
                  then y ∷ select p ys
                  else select p ys)
        passed later false py = refl
        passed later true true = rw later refl
        passed later true false = refl

    -- Filtering and sorting commute.
    pub select-sort_by :
        (p : A → Bool) (xs : List A) → select p (sort_by xs) ≡ sort_by (select p xs)
    unfolding sort_by
    select-sort_by p [] = refl
    select-sort_by p (x ∷ xs) =
        rw (select-insert_sorted p x (sort_by xs) (sort_by-IsSorted xs), select-sort_by p xs)
          (elim (Bool-cases (p x)) [ inl kept ↦ rw kept refl | inr left_out ↦ rw left_out refl ])
