-- ===== src/Relay/Rate.antt =====
-- src/relay/mcp.rs: the messages of the last minute in `BridgeBudget`.
use agent_runtime_sdk.Prelude.{
  ℕ, ◌-◌, ◌≤◌, ◌<◌, ◌≡◌, refl, sym, ap, Bool, true, false, List, [], ◌∷◌, ◌++◌, Option, none, some,
  arith, ◌⊎◌, inl, inr, length, select, Pairwise, All, not, leb, Bool-cases, length-append,
  select-append,
}
use mathlib.Core.List.{append_assoc, append-nil}
use agent_runtime_sdk.Relay.Bridge.{minute, forget_old}

-- Whether a message of time c counts against the rate at time now.
abbrev pub is_fresh : ℕ → ℕ → Bool
is_fresh now c = not (leb minute (now - c))

pub All-fresh :
    (now x : ℕ) (xs : List ℕ)
    → leb minute (now - x) ≡ false
    → All (λ y. x ≤ y) xs
    → select (is_fresh now) xs ≡ xs
All-fresh now x [] h a = refl
All-fresh now x (y ∷ ys) h a = ground (arith, All-fresh now x ys)

pub forget_old-select :
    (now : ℕ) (xs : List ℕ)
    → Pairwise (λ x y. x ≤ y) xs
    → forget_old now xs ≡ select (is_fresh now) xs
unfolding forget_old
forget_old-select now [] p = refl
forget_old-select now (x ∷ xs) p = elim (Bool-cases (leb minute (now - x))) [
  | inl old ↦ rw old (forget_old-select now xs p.1)
  | inr new ↦ rw new (ap (λ ys. x ∷ ys) (sym (All-fresh now x xs new p.0)))
]

pub select_fresh-later :
    (earlier now : ℕ) (xs : List ℕ)
    → earlier ≤ now
    → select (is_fresh now) (select (is_fresh earlier) xs) ≡ select (is_fresh now) xs
select_fresh-later earlier now [] h = refl
select_fresh-later earlier now (x ∷ xs) h = ground (arith, select_fresh-later earlier now xs)

-- After each message of the log, at most n messages of the minute before it are in the log.
abbrev pub IsRated : ℕ → List ℕ → List ℕ → Type 0
IsRated n before [] = Unit
IsRated n before (x ∷ xs) =
    (length (select (is_fresh x) (before ++ x ∷ [])) ≤ n) × IsRated n (before ++ x ∷ []) xs

abbrev pub KeepsRate : Option ℕ → List ℕ → Type 0
KeepsRate none xs = Unit
KeepsRate (some n) xs = IsRated n [] xs

abbrev pub RateRoom : Option ℕ → ℕ → Type 0
RateRoom none k = Unit
RateRoom (some n) k = k < n

pub RateRoom-cases :
    (m : Option ℕ) (k : ℕ)
    → ((elim m [ none ↦ false | some limit ↦ leb limit k ]) ≡ true)
      ⊎ (((elim m [ none ↦ false | some limit ↦ leb limit k ]) ≡ false) × RateRoom m k)
RateRoom-cases none k = inr (refl, tt)
RateRoom-cases (some n) k = ground arith

pub IsRated-snoc :
    (n : ℕ) (before xs : List ℕ) (y : ℕ)
    → IsRated n before xs
    → length (select (is_fresh y) ((before ++ xs) ++ y ∷ [])) ≤ n
    → IsRated n before (xs ++ y ∷ [])
IsRated-snoc n before [] y r h = (rw (append-nil before) at h, tt)
IsRated-snoc n before (x ∷ xs) y r h =
    (r.0, IsRated-snoc n (before ++ x ∷ []) xs y r.1 (rw (append_assoc before (x ∷ []) xs) h))

pub rate-snoc :
    (m : Option ℕ) (xs recent : List ℕ) (now : ℕ)
    → KeepsRate m xs
    → recent ≡ select (is_fresh now) xs
    → RateRoom m (length recent)
    → KeepsRate m (xs ++ now ∷ [])
rate-snoc none xs recent now k e room = tt
rate-snoc (some n) xs recent now k e room = IsRated-snoc n [] xs now k (
    rw (select-append (is_fresh now) xs (now ∷ [])) (
      let less : length (select (is_fresh now) xs) < n = rw e at room in
      ground (arith, less, length-append (select (is_fresh now) xs) (now ∷ []))))
