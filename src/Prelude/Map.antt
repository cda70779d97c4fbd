-- ===== src/Prelude/Map.antt =====
-- `HashMap` and `HashSet` of the Rust standard library, as association lists and lists in the
-- order of insertion. A key stands once in a map that these operations build.
use agent_runtime_sdk.Prelude.{
  ap, suc, sym, subst, Bool-cases, inl, inr, suc, ◌≤◌, ◌≡◌, refl, Bool, true, false, ◌||◌, List, [],
  ◌∷◌, ◌++◌, map, Option, none, some, arith, if◌then◌else◌, length, Eq, ◌==◌, ==_iff, ==_refl,
}

abbrev pub Map {ℓ κ} : Type ℓ → Type κ → Type (ℓ ⊔ κ)
Map K V = List (K × V)

module _ {ℓ κ} {K : Type ℓ} {V : Type κ} ⦃e : Eq K⦄ where
  -- `HashMap::get`.
  unfoldable pub get : K → Map K V → Option V
  get k [] = none
  get k ((j, v) ∷ m) = if j == k then some v else get k m

  abbrev pub contains_key : K → Map K V → Bool
  contains_key k m = elim (get k m) [ none ↦ false | some _ ↦ true ]

  -- `HashMap::insert`, which replaces the value of a key that is there.
  unfoldable pub insert : K → V → Map K V → Map K V
  insert k v [] = (k, v) ∷ []
  insert k v ((j, w) ∷ m) = if j == k then (j, v) ∷ m else (j, w) ∷ insert k v m

  -- `HashMap::remove`.
  unfoldable pub remove : K → Map K V → Map K V
  remove k [] = []
  remove k ((j, w) ∷ m) = let rest = remove k m in if j == k then rest else (j, w) ∷ rest

  pub get-insert :
      (k j : K) (v : V) (m : Map K V) → get j (insert k v m) ≡ (if k == j then some v else get j m)
  unfolding get insert
  get-insert k j v [] = refl
  get-insert k j v ((i, w) ∷ m) =
      ground (arith, ==_iff k j, ==_iff i k, ==_iff i j, get-insert k j v m)

  pub get-remove : (k j : K) (m : Map K V) → get j (remove k m) ≡ (if k == j then none else get j m)
  unfolding get remove
  get-remove k j [] = ground arith
  get-remove k j ((i, w) ∷ m) = ground (arith, ==_iff k j, ==_iff i k, ==_iff i j, get-remove k j m)

  pub get-insert_self : (k : K) (v : V) (m : Map K V) → get k (insert k v m) ≡ some v
  get-insert_self k v m = simp (get-insert, ==_refl)

  pub get-remove_self : (k : K) (m : Map K V) → get k (remove k m) ≡ none
  get-remove_self k m = simp (get-remove, ==_refl)

  abbrev pub keys : Map K V → List K
  keys = map (λ entry. entry.0)

  pub length-insert_new :
      (k : K) (v : V) (m : Map K V) → get k m ≡ none → length (insert k v m) ≡ suc (length m)
  unfolding get insert
  length-insert_new k v [] h = refl
  length-insert_new k v ((i, w) ∷ m) h = ground (arith, length-insert_new k v m)

  pub length-insert_old :
      (k : K) (v w : V) (m : Map K V) → get k m ≡ some w → length (insert k v m) ≡ length m
  unfolding get insert
  length-insert_old k v w [] h = cc
  length-insert_old k v w ((i, u) ∷ m) h = ground (arith, length-insert_old k v w m)

  pub length-remove-le : (k : K) (m : Map K V) → length (remove k m) ≤ length m
  unfolding remove
  length-remove-le k [] = omega arith
  length-remove-le k ((i, u) ∷ m) = ground (arith, length-remove-le k m)

  pub keys-insert_new :
      (k : K) (v : V) (m : Map K V) → get k m ≡ none → keys (insert k v m) ≡ keys m ++ k ∷ []
  unfolding get insert
  keys-insert_new k v [] h = refl
  keys-insert_new k v ((i, w) ∷ m) h = ground (arith, keys-insert_new k v m)

  pub keys-insert_old :
      (k : K) (v w : V) (m : Map K V) → get k m ≡ some w → keys (insert k v m) ≡ keys m
  unfolding get insert
  keys-insert_old k v w [] h = cc
  keys-insert_old k v w ((i, u) ∷ m) h = ground (arith, keys-insert_old k v w m)

-- `HashSet::contains`, and `VecDeque::retain` with the test `candidate != k`.
module _ {ℓ} {K : Type ℓ} ⦃e : Eq K⦄ where
  unfoldable pub contains : K → List K → Bool
  contains k [] = false
  contains k (j ∷ s) = j == k || contains k s

  unfoldable pub discard : K → List K → List K
  discard k [] = []
  discard k (j ∷ s) = let rest = discard k s in if j == k then rest else j ∷ rest

  pub contains-discard :
      (k j : K) (s : List K) → contains j (discard k s) ≡ (if k == j then false else contains j s)
  unfolding contains discard
  contains-discard k j [] = ground arith
  contains-discard k j (i ∷ s) =
      ground (arith, ==_iff k j, ==_iff i k, ==_iff i j, contains-discard k j s)

  pub contains-append :
      (k : K) (xs ys : List K) → contains k (xs ++ ys) ≡ (contains k xs || contains k ys)
  unfolding contains
  contains-append k [] ys = refl
  contains-append k (x ∷ xs) ys = ground (arith, contains-append k xs ys)

  pub contains-last : (k : K) (s : List K) → contains k (s ++ k ∷ []) ≡ true
  unfolding contains
  contains-last k [] = ground (arith, ==_refl k)
  contains-last k (j ∷ s) = ground (arith, contains-last k s)

  pub length-discard-le : (k : K) (s : List K) → length (discard k s) ≤ length s
  unfolding discard
  length-discard-le k [] = omega arith
  length-discard-le k (j ∷ s) = ground (arith, length-discard-le k s)

  pub discard_absent : (k : K) (s : List K) → contains k s ≡ false → discard k s ≡ s
  unfolding contains discard
  discard_absent k [] h = refl
  discard_absent k (j ∷ s) h = ground (arith, discard_absent k s)

  -- No element stands twice.
  abbrev pub Distinct : List K → Type ℓ
  Distinct [] = Unit
  Distinct (x ∷ xs) = (contains x xs ≡ false) × Distinct xs

  pub Distinct-snoc :
      (x : K) (xs : List K) → contains x xs ≡ false → Distinct xs → Distinct (xs ++ x ∷ [])
  unfolding contains
  Distinct-snoc x [] h d = (refl, tt)
  Distinct-snoc x (y ∷ ys) h d = (
    ground (arith, contains-append y ys (x ∷ []), ==_iff x y, ==_iff y x),
    Distinct-snoc x ys (ground arith) d.1,
  )

  pub contains-discard-false :
      (k j : K) (s : List K) → contains j s ≡ false → contains j (discard k s) ≡ false
  contains-discard-false k j s h = ground (arith, contains-discard k j s)

  pub Distinct-discard : (k : K) (s : List K) → Distinct s → Distinct (discard k s)
  unfolding discard
  Distinct-discard k [] d = tt
  Distinct-discard k (x ∷ xs) d =
      ground (arith, contains-discard-false k x xs, Distinct-discard k xs d.1)

module _ {ℓ κ} {K : Type ℓ} {V : Type κ} ⦃e : Eq K⦄ where
  pub keys-remove : (k : K) (m : Map K V) → keys (remove k m) ≡ discard k (keys m)
  unfolding remove discard
  keys-remove k [] = refl
  keys-remove k ((j, w) ∷ m) = ground (arith, keys-remove k m)

  pub contains_key-keys : (k : K) (m : Map K V) → contains_key k m ≡ contains k (keys m)
  unfolding get contains
  contains_key-keys k [] = refl
  contains_key-keys k ((j, w) ∷ m) = ground (arith, contains_key-keys k m)

  -- Every entry satisfies P.
  abbrev pub Each {μ} : (K → V → Type μ) → Map K V → Type μ
  Each P [] = Unit
  Each P ((k, v) ∷ m) = P k v × Each P m

  pub Each-get {μ} :
      (P : K → V → Type μ) (k : K) (v : V) (m : Map K V) → Each P m → get k m ≡ some v → P k v
  unfolding get
  Each-get P k v [] a h = cc
  Each-get P k v ((j, w) ∷ m) a h = elim (Bool-cases (j == k)) [
    | inl hit ↦ subst (λ i. P i v) ((==_iff j k).0 hit) (subst (P j) (ground arith) a.0)
    | inr miss ↦ Each-get P k v m a.1 (rw miss at h)
  ]

  pub Each-insert {μ} :
      (P : K → V → Type μ) (k : K) (v : V) (m : Map K V) → P k v → Each P m → Each P (insert k v m)
  unfolding insert
  Each-insert P k v [] p a = (p, tt)
  Each-insert P k v ((j, w) ∷ m) p a = elim (Bool-cases (j == k)) [
    | inl hit ↦ rw hit (subst (λ i. P i v) (sym ((==_iff j k).0 hit)) p, a.1)
    | inr miss ↦ rw miss (a.0, Each-insert P k v m p a.1)
  ]

  pub Each-remove {μ} : (P : K → V → Type μ) (k : K) (m : Map K V) → Each P m → Each P (remove k m)
  unfolding remove
  Each-remove P k [] a = tt
  Each-remove P k ((j, w) ∷ m) a = elim (Bool-cases (j == k)) [
    | inl hit ↦ rw hit (Each-remove P k m a.1)
    | inr miss ↦ rw miss (a.0, Each-remove P k m a.1)
  ]

  pub length-keys : (m : Map K V) → length (keys m) ≡ length m
  length-keys [] = refl
  length-keys (x ∷ m) = ap suc (length-keys m)

  pub Each-map {μ ν} :
      (P : K → V → Type μ) (Q : K → V → Type ν)
      → ((k : K) (v : V) → P k v → Q k v)
      → (m : Map K V) → Each P m
      → Each Q m
  Each-map P Q f [] a = tt
  Each-map P Q f ((k, v) ∷ m) a = (f k v a.0, Each-map P Q f m a.1)

  -- In a map with distinct keys each entry is what its key finds.
  pub Each-own : (m : Map K V) → Distinct (keys m) → Each (λ k v. get k m ≡ some v) m
  unfolding get contains
  Each-own [] d = tt
  Each-own ((j, w) ∷ m) d = (
    rw (==_refl j) refl,
    Each-map _ _ (λ k v found. ground (arith, found, contains_key-keys k m, ==_iff j k, d.0)) m
        (Each-own m d.1),
  )

module _ {ℓ} {K : Type ℓ} ⦃e : Eq K⦄ where
  pub discard_head : (x : K) (xs : List K) → contains x xs ≡ false → discard x (x ∷ xs) ≡ xs
  unfolding discard
  discard_head x xs h = rw (==_refl x) (discard_absent x xs h)
