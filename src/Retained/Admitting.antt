-- ===== src/Retained/Admitting.antt =====
-- src/retained.rs: the admission of a turn.
use agent_runtime_sdk.Prelude.{nat_eq, text_eq, All-map, ap, inl, inr, Bool-cases, Option-cases}
use agent_runtime_sdk.Prelude.{
  ℕ, Text, text_eq, ◌≡◌, refl, ◌⊎◌, Bool, true, Option, none, some, List, [], ◌∷◌, ◌++◌, arith,
}
use agent_runtime_sdk.Prelude.Map.{contains}
use agent_runtime_sdk.Retained.Input.{TurnInput}
use agent_runtime_sdk.Retained.Entry.{
  admit, refuse, accept, accept_start, with_turn, admitted, RuntimeEntry, ActiveTurn, Task,
}
use agent_runtime_sdk.Retained.Invariant.{IsUnused, RunsActive, IsWellFormed, contains-fresh}

pub with_turn-IsWellFormed :
    (input : TurnInput) (e : RuntimeEntry)
    → IsWellFormed e
    → e.executing ≡ []
    → IsUnused input.invocation_id e.delivering
    → IsWellFormed (with_turn input e)
unfolding with_turn accept
with_turn-IsWellFormed input e wf idle unused = record {
  runs_active = inl (
    ap (λ l. l ++ record { invocation_id = input.invocation_id; signal = e.next_signal } ∷ []) idle,
    unused,
    contains-fresh e.next_signal e.released wf.signals_used,
  );
  signals_used = All-map (λ s h. omega arith) e.released wf.signals_used;
  signals_given = rw idle (omega arith, tt);
  status_works = refl;
}

-- The turn of an entry that executes nothing has released its process, if there is one.
pub idle_lem :
    (active : Option ActiveTurn) (executing delivering : List Task) (released : List ℕ)
    → RunsActive active executing delivering released
    → (active ≡ none) ⊎ ((a : ActiveTurn) × (active ≡ some a) × (contains a.signal released ≡ true))
    → executing ≡ []
idle_lem none executing delivering released runs free = runs
idle_lem (some a) executing delivering released (inl (runs, unused, held)) (inl gone) = cc
idle_lem (some a) executing delivering released (inl (runs, unused, held)) (inr (b, same, done)) =
    cc
idle_lem (some a) executing delivering released (inr (runs, done)) free = runs

module _ (runtime_id : Text) where
  accept_start_lem :
      (input : TurnInput) (e next : RuntimeEntry) (session : Option Text)
      → accept_start runtime_id input e ≡ admitted next session
      → next ≡ with_turn input e
  unfolding accept_start refuse
  accept_start_lem input e next session h = ground arith

  pub admit_lem :
      (attempted agreed : Bool) (input : TurnInput) (e next : RuntimeEntry) (session : Option Text)
      → admit runtime_id attempted agreed input e ≡ admitted next session
      → (next ≡ with_turn input e)
        × ((e.state.active ≡ none)
            ⊎ ((a : ActiveTurn) × (e.state.active ≡ some a)
                × (contains a.signal e.released ≡ true)))
  unfolding admit refuse
  admit_lem attempted agreed input e next session h =
      let started = accept_start_lem input e next session in
      elim (Option-cases e.state.active) [
        | inl free ↦ (ground (arith, started), inl free)
        | inr (a, taken) ↦ elim (Bool-cases (contains a.signal e.released)) [
          | inl done ↦ (ground (arith, started), inr (a, taken, done))
          | inr held ↦ absurd (ground arith)
        ]
      ]
