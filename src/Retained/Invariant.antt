-- ===== src/Retained/Invariant.antt =====
-- src/retained.rs: which tasks of a `RuntimeEntry` may execute.
use agent_runtime_sdk.Prelude.{nat_eq, text_eq}
use agent_runtime_sdk.Prelude.{
  ℕ, All, Text, text_eq, ◌<◌, ◌≡◌, refl, ◌≢◌, ◌⊎◌, Bool, true, false, Option, none, some, List, [],
  ◌∷◌, arith,
}
use agent_runtime_sdk.Prelude.Map.{contains}
use agent_runtime_sdk.Retained.Types.{RuntimeStatus, busy, stopping}
use agent_runtime_sdk.Retained.Entry.{RuntimeEntry, ActiveTurn, Task}
use agent_runtime_sdk.Retained.Turns.{Step, start, step}

abbrev pub is_working : RuntimeStatus → Bool
is_working busy = true
is_working stopping = true
is_working other = false

abbrev pub is_some : {A : Type 0} → Option A → Bool
is_some none = false
is_some (some a) = true

abbrev pub task_of : ActiveTurn → Task
task_of a = record { invocation_id = a.invocation_id; signal = a.signal }

-- No task that still delivers has this identifier.
abbrev pub IsUnused : Text → List Task → Type 0
IsUnused id = All (λ t. t.invocation_id ≢ id)

-- The one task that may execute is that of the active turn.
abbrev pub RunsActive : Option ActiveTurn → List Task → List Task → List ℕ → Type 0
RunsActive none executing delivering released = executing ≡ []
RunsActive (some a) executing delivering released =
    ((executing ≡ task_of a ∷ [])
      × IsUnused a.invocation_id delivering
      × (contains a.signal released ≡ false))
    ⊎ ((executing ≡ []) × (contains a.signal released ≡ true))

pub record IsWellFormed (e : RuntimeEntry) : Type 0 where
  pub runs_active : RunsActive e.state.active e.executing e.delivering e.released
  pub signals_used : All (λ s. s < e.next_signal) e.released
  pub signals_given : All (λ t. t.signal < e.next_signal) e.executing
  pub status_works : is_working e.state.status ≡ is_some e.state.active

-- A start uses no identifier of a task that still delivers its last event.
abbrev pub IsFresh : Step → RuntimeEntry → Type 0
IsFresh (start attempted accepted input) e = IsUnused input.invocation_id e.delivering
IsFresh other e = Unit

module _ (runtime_id : Text) where
  abbrev pub AllFresh : List Step → RuntimeEntry → Type 0
  AllFresh [] e = Unit
  AllFresh (s ∷ steps) e = IsFresh s e × AllFresh steps (step runtime_id s e)

pub contains-fresh :
    (n : ℕ) (released : List ℕ) → All (λ s. s < n) released → contains n released ≡ false
unfolding contains
contains-fresh n [] h = refl
contains-fresh n (s ∷ released) h = ground (arith, contains-fresh n released h.1, h.0)
