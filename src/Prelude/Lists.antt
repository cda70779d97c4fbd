-- ===== src/Prelude/Lists.antt =====
-- Lists measured by native numbers, under the library's names, and what Rust's deques need.
use Prim.Native.Nat.{ℕ, zero, suc, ◌+◌, ◌-◌, ◌≤◌, min}
use mathlib.Core.Path.{◌≡◌, refl, ap}
use mathlib.Core.Logic.{inl, inr}
use mathlib.Core.Bool.{Bool, true, false, ◌&&◌, ◌||◌}
use mathlib.Core.List.{List, [], ◌∷◌, ◌++◌}
use mathlib.Core.Option.{Option, none, some}
use native.Mathlib.Omega.{arith}
use agent_runtime_sdk.Prelude.Tests.{if◌then◌else◌, Bool-cases}

module _ {ℓ} {A : Type ℓ} where
  abbrev pub length : List A → ℕ
  length [] = 0
  length (x ∷ xs) = suc (length xs)

  abbrev pub take : ℕ → List A → List A
  take zero xs = []
  take (suc n) [] = []
  take (suc n) (x ∷ xs) = x ∷ take n xs

  abbrev pub drop : ℕ → List A → List A
  drop zero xs = xs
  drop (suc n) [] = []
  drop (suc n) (x ∷ xs) = drop n xs

  -- `VecDeque::back`.
  abbrev pub get_last? : List A → Option A
  get_last? [] = none
  get_last? (x ∷ []) = some x
  get_last? (x ∷ y ∷ ys) = get_last? (y ∷ ys)

  abbrev pub All {κ} : (A → Type κ) → List A → Type κ
  All P [] = Unit
  All P (x ∷ xs) = P x × All P xs

  -- The relation holds between each element and every later one.
  abbrev pub Pairwise {κ} : (A → A → Type κ) → List A → Type κ
  Pairwise R [] = Unit
  Pairwise R (x ∷ xs) = All (R x) xs × Pairwise R xs

  abbrev pub any : (A → Bool) → List A → Bool
  any p [] = false
  any p (x ∷ xs) = p x || any p xs

  abbrev pub all : (A → Bool) → List A → Bool
  all p [] = true
  all p (x ∷ xs) = p x && all p xs

  -- `Iterator::find`.
  abbrev pub find? : (A → Bool) → List A → Option A
  find? p [] = none
  find? p (x ∷ xs) = if p x then some x else find? p xs

  -- `Iterator::filter` and `retain`, by a Boolean test.
  abbrev pub select : (A → Bool) → List A → List A
  select p [] = []
  select p (x ∷ xs) = let rest = select p xs in if p x then x ∷ rest else rest

module _ {ℓ} {A : Type ℓ} where
  pub length-append : (xs ys : List A) → length (xs ++ ys) ≡ length xs + length ys
  length-append [] ys = omega arith
  length-append (x ∷ xs) ys = omega (arith, length-append xs ys)

  pub length-snoc : (xs : List A) (y : A) → length (xs ++ y ∷ []) ≡ suc (length xs)
  length-snoc [] y = refl
  length-snoc (x ∷ xs) y = ap suc (length-snoc xs y)

  pub length-take : (n : ℕ) (xs : List A) → length (take n xs) ≡ min n (length xs)
  length-take zero xs = omega arith
  length-take (suc n) [] = omega arith
  length-take (suc n) (x ∷ xs) = omega (arith, length-take n xs)

  pub length-drop : (n : ℕ) (xs : List A) → length (drop n xs) ≡ length xs - n
  length-drop zero xs = omega arith
  length-drop (suc n) [] = omega arith
  length-drop (suc n) (x ∷ xs) = omega (arith, length-drop n xs)

  pub take-append-drop : (n : ℕ) (xs : List A) → take n xs ++ drop n xs ≡ xs
  take-append-drop zero xs = refl
  take-append-drop (suc n) [] = refl
  take-append-drop (suc n) (x ∷ xs) = ap (◌∷◌ x) (take-append-drop n xs)

  pub length-select-le : (p : A → Bool) (xs : List A) → length (select p xs) ≤ length xs
  length-select-le p [] = omega arith
  length-select-le p (x ∷ xs) = ground (arith, length-select-le p xs)

  pub get_last?-snoc : (xs : List A) (y : A) → get_last? (xs ++ y ∷ []) ≡ some y
  get_last?-snoc [] y = refl
  get_last?-snoc (x ∷ []) y = refl
  get_last?-snoc (x ∷ z ∷ zs) y = get_last?-snoc (z ∷ zs) y

pub drop-nil {ℓ} : (A : Type ℓ) (k : ℕ) → drop {A = A} k [] ≡ []
drop-nil A zero = refl
drop-nil A (suc k) = refl

module _ {ℓ} {A : Type ℓ} where
  pub get_last?-none : (xs : List A) → get_last? xs ≡ none → xs ≡ []
  get_last?-none [] h = refl
  get_last?-none (x ∷ []) h = cc
  get_last?-none (x ∷ y ∷ ys) h = absurd (no_last y ys h)
    where
      no_last : (y : A) (ys : List A) → get_last? (y ∷ ys) ≡ none → ⊥
      no_last y [] h = cc
      no_last y (z ∷ zs) h = no_last z zs h

  pub drop-append_snoc :
      (k : ℕ) (xs : List A) (y : A) → k ≤ length xs → drop k (xs ++ y ∷ []) ≡ drop k xs ++ y ∷ []
  drop-append_snoc zero xs y h = refl
  drop-append_snoc (suc k) [] y h = absurd (omega arith)
  drop-append_snoc (suc k) (x ∷ xs) y h = drop-append_snoc k xs y (omega arith)

  pub drop-drop : (k j : ℕ) (xs : List A) → drop j (drop k xs) ≡ drop (k + j) xs
  drop-drop zero j xs = let e : 0 + j ≡ j = omega arith in rw e
  drop-drop (suc k) j [] = let e : suc k + j ≡ suc (k + j) = omega arith in rw e (drop-nil A j)
  drop-drop (suc k) j (x ∷ xs) =
      let e : suc k + j ≡ suc (k + j) = omega arith in rw e (drop-drop k j xs)

  pub drop-zero_of_le : (k : ℕ) (xs : List A) → length xs ≤ k → drop k xs ≡ []
  drop-zero_of_le zero [] h = refl
  drop-zero_of_le zero (x ∷ xs) h = absurd (omega arith)
  drop-zero_of_le (suc k) [] h = refl
  drop-zero_of_le (suc k) (x ∷ xs) h = drop-zero_of_le k xs (omega arith)

module _ {ℓ} {A : Type ℓ} where
  abbrev pub get_elem? : List A → ℕ → Option A
  get_elem? [] i = none
  get_elem? (x ∷ xs) zero = some x
  get_elem? (x ∷ xs) (suc i) = get_elem? xs i

  pub get_elem?-drop : (k i : ℕ) (xs : List A) → get_elem? (drop k xs) i ≡ get_elem? xs (k + i)
  get_elem?-drop zero i xs = let e : 0 + i ≡ i = omega arith in rw e
  get_elem?-drop (suc k) i [] = refl
  get_elem?-drop (suc k) i (x ∷ xs) =
      let e : suc k + i ≡ suc (k + i) = omega arith in rw e (get_elem?-drop k i xs)

  pub All-drop {κ} : (P : A → Type κ) (k : ℕ) (xs : List A) → All P xs → All P (drop k xs)
  All-drop P zero xs h = h
  All-drop P (suc k) [] h = tt
  All-drop P (suc k) (x ∷ xs) h = All-drop P k xs h.1

  pub All-append {κ} : (P : A → Type κ) (xs ys : List A) → All P xs → All P ys → All P (xs ++ ys)
  All-append P [] ys h k = k
  All-append P (x ∷ xs) ys h k = (h.0, All-append P xs ys h.1 k)

  pub All-map {κ μ} :
      {P : A → Type κ} {Q : A → Type μ}
      → ((x : A) → P x → Q x)
      → (xs : List A) → All P xs
      → All Q xs
  All-map f [] a = tt
  All-map f (x ∷ xs) a = (f x a.0, All-map f xs a.1)

  pub All-select {κ} :
      (P : A → Type κ) (p : A → Bool) (xs : List A) → All P xs → All P (select p xs)
  All-select P p [] a = tt
  All-select P p (x ∷ xs) a = elim (Bool-cases (p x)) [
    | inl kept ↦ rw kept (a.0, All-select P p xs a.1)
    | inr left_out ↦ rw left_out (All-select P p xs a.1)
  ]

  pub Pairwise-select {κ} :
      (R : A → A → Type κ) (p : A → Bool) (xs : List A) → Pairwise R xs → Pairwise R (select p xs)
  Pairwise-select R p [] r = tt
  Pairwise-select R p (x ∷ xs) r = elim (Bool-cases (p x)) [
    | inl kept ↦ rw kept (All-select (R x) p xs r.0, Pairwise-select R p xs r.1)
    | inr left_out ↦ rw left_out (Pairwise-select R p xs r.1)
  ]

module _ {ℓ} {A : Type ℓ} where
  pub Pairwise-append {κ} :
      (R : A → A → Type κ) (xs ys : List A)
      → Pairwise R xs
      → Pairwise R ys
      → All (λ x. All (R x) ys) xs
      → Pairwise R (xs ++ ys)
  Pairwise-append R [] ys r s h = s
  Pairwise-append R (x ∷ xs) ys r s h =
      (All-append (R x) xs ys r.0 h.0, Pairwise-append R xs ys r.1 s h.1)

  pub All-zip {κ μ ν} :
      {P : A → Type κ} {Q : A → Type μ} {S : A → Type ν}
      → ((x : A) → P x → Q x → S x)
      → (xs : List A) → All P xs
      → All Q xs
      → All S xs
  All-zip f [] a b = tt
  All-zip f (x ∷ xs) a b = (f x a.0 b.0, All-zip f xs a.1 b.1)

  pub Pairwise-zip {κ μ ν} :
      {P : A → A → Type κ} {Q : A → A → Type μ} {S : A → A → Type ν}
      → ((x y : A) → P x y → Q x y → S x y)
      → (xs : List A) → Pairwise P xs
      → Pairwise Q xs
      → Pairwise S xs
  Pairwise-zip f [] a b = tt
  Pairwise-zip f (x ∷ xs) a b = (All-zip (f x) xs a.0 b.0, Pairwise-zip f xs a.1 b.1)

  pub All-split {κ} : (P : A → Type κ) (xs ys : List A) → All P (xs ++ ys) → All P xs × All P ys
  All-split P [] ys a = (tt, a)
  All-split P (x ∷ xs) ys a = let (l, r) = All-split P xs ys a.1 in ((a.0, l), r)

  pub Pairwise-split {κ} :
      (R : A → A → Type κ) (xs ys : List A)
      → Pairwise R (xs ++ ys)
      → Pairwise R xs × All (λ x. All (R x) ys) xs
  Pairwise-split R [] ys r = (tt, tt)
  Pairwise-split R (x ∷ xs) ys r =
      let (front, across) = Pairwise-split R xs ys r.1 in
      let (here, there) = All-split (R x) xs ys r.0 in ((here, front), (there, across))

  pub select-append :
      (p : A → Bool) (xs ys : List A) → select p (xs ++ ys) ≡ select p xs ++ select p ys
  select-append p [] ys = refl
  select-append p (x ∷ xs) ys = ground (arith, select-append p xs ys)

  pub select_none : (p : A → Bool) (xs : List A) → All (λ x. p x ≡ false) xs → select p xs ≡ []
  select_none p [] a = refl
  select_none p (x ∷ xs) a = ground (arith, select_none p xs a.1)

  pub select-All : (p : A → Bool) (xs : List A) → All (λ x. p x ≡ true) xs → select p xs ≡ xs
  select-All p [] a = refl
  select-All p (x ∷ xs) a = ground (arith, select-All p xs a.1)

  pub select_satisfies : (p : A → Bool) (xs : List A) → All (λ x. p x ≡ true) (select p xs)
  select_satisfies p [] = tt
  select_satisfies p (x ∷ xs) = elim (Bool-cases (p x)) [
    | inl kept ↦ rw kept (kept, select_satisfies p xs)
    | inr left_out ↦ rw left_out (select_satisfies p xs)
  ]

  pub select-select :
      (p q : A → Bool) (xs : List A)
      → ((x : A) → p x ≡ true → q x ≡ true)
      → select p (select q xs) ≡ select p xs
  select-select p q [] h = refl
  select-select p q (x ∷ xs) h = ground (arith, h x, select-select p q xs h)

  pub take_of_length-le : (k : ℕ) (items : List A) → length items ≤ k → take k items ≡ items
  take_of_length-le zero [] le = refl
  take_of_length-le (suc k) [] le = refl
  take_of_length-le zero (x ∷ items) le = absurd (omega arith)
  take_of_length-le (suc k) (x ∷ items) le =
      let rest = take_of_length-le k items (omega arith) in rw rest refl

  pub All-take {κ} : (P : A → Type κ) (k : ℕ) (xs : List A) → All P xs → All P (take k xs)
  All-take P zero xs h = tt
  All-take P (suc k) [] h = tt
  All-take P (suc k) (x ∷ xs) h = (h.0, All-take P k xs h.1)
