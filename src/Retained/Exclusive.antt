-- ===== src/Retained/Exclusive.antt =====
-- src/retained.rs: the tasks of a `RuntimeEntry` over any interleaving of its steps.
use agent_runtime_sdk.Prelude.{
  nat_eq, text_eq, inl, inr, eqb, Option-cases, find?, sym, subst, length, ◌≤◌, if◌then◌else◌,
}
use agent_runtime_sdk.Prelude.{
  ℕ, All, Text, text_eq, ◌≡◌, refl, true, false, Option, none, some, List, [], ◌∷◌, arith,
}
use agent_runtime_sdk.Prelude.Map.{contains}
use agent_runtime_sdk.Retained.Entry.{
  new, admit, Admission, refused, ask_handoff, admitted, mark_disposed, stop, RuntimeEntry,
  ActiveTurn, Task,
}
use agent_runtime_sdk.Retained.Turns.{
  Step, start, releases, finishes, marks_disposed, stops, step, run,
}
use agent_runtime_sdk.Retained.Invariant.{
  is_working, is_some, RunsActive, IsWellFormed, IsFresh, AllFresh,
}
use agent_runtime_sdk.Retained.Operations.{
  release-IsWellFormed, finish-IsWellFormed, stop-IsWellFormed,
}
use agent_runtime_sdk.Retained.Admitting.{with_turn-IsWellFormed, idle_lem, admit_lem}

module _ (runtime_id : Text) where
  step-IsWellFormed :
      (s : Step) (e : RuntimeEntry)
      → IsWellFormed e
      → IsFresh s e
      → IsWellFormed (step runtime_id s e)
  unfolding step mark_disposed
  step-IsWellFormed (start attempted agreed input) e wf unused =
      let answer = admit runtime_id attempted agreed input e in
      elim answer
          as (λ (r : Admission).
            answer ≡ r
            → IsWellFormed (elim r [
              | refused failure ↦ e
              | admitted next session ↦ next
              | ask_handoff previous ↦ e
            ])) [
              | refused failure ↦ λ h. wf
              | ask_handoff previous ↦ λ h. wf
              | admitted next session ↦ λ h.
                  let (same, free) = admit_lem runtime_id attempted agreed input e next session h in
                  let idle =
                    idle_lem e.state.active e.executing e.delivering e.released wf.runs_active
                      free in
                  subst IsWellFormed (sym same) (with_turn-IsWellFormed input e wf idle unused)
            ]
        refl
  step-IsWellFormed (releases signal session) e wf unused =
      elim (Option-cases (find? (λ (t : Task). eqb t.signal signal) e.executing)) [
        | inl gone ↦ rw (gone, step) wf
        | inr (task, found) ↦ rw (found, step) (release-IsWellFormed signal task session e wf found)
      ]
  step-IsWellFormed (finishes signal result) e wf unused =
      elim (Option-cases (find? (λ (t : Task). eqb t.signal signal) e.delivering)) [
        | inl gone ↦ rw (gone, step) wf
        | inr (task, found) ↦ rw (found, step) (finish-IsWellFormed signal task result e wf found)
      ]
  step-IsWellFormed marks_disposed e wf unused = record {
    runs_active = wf.runs_active;
    signals_used = wf.signals_used;
    signals_given = wf.signals_given;
    status_works = wf.status_works;
  }
  step-IsWellFormed stops e wf unused =
      elim e.disposed as (λ b. IsWellFormed (if b then stop e else e)) [
        | true ↦ stop-IsWellFormed e wf
        | false ↦ wf
      ]

  run-IsWellFormed :
      (steps : List Step) (e : RuntimeEntry)
      → IsWellFormed e
      → AllFresh runtime_id steps e
      → IsWellFormed (run runtime_id steps e)
  unfolding run
  run-IsWellFormed [] e wf fresh = wf
  run-IsWellFormed (s ∷ steps) e wf fresh =
      run-IsWellFormed steps (step runtime_id s e) (step-IsWellFormed s e wf fresh.0) fresh.1

new-IsWellFormed : (session : Option Text) → IsWellFormed (new session)
unfolding new
new-IsWellFormed session = record {
  runs_active = refl;
  signals_used = tt;
  signals_given = tt;
  status_works = refl;
}

-- The turn of an executing task is the active one, and has not released the process.
abbrev pub IsActive : Option ActiveTurn → List ℕ → Task → Type 0
IsActive active released t =
    (active ≡ some (record { invocation_id = t.invocation_id; signal = t.signal }))
    × (contains t.signal released ≡ false)

runs_active_lem :
    (active : Option ActiveTurn) (executing delivering : List Task) (released : List ℕ)
    → RunsActive active executing delivering released
    → (length executing ≤ 1) × All (IsActive active released) executing
runs_active_lem none executing delivering released runs = rw runs (omega arith, tt)
runs_active_lem (some a) executing delivering released (inr (runs, done)) =
    rw runs (omega arith, tt)
runs_active_lem (some a) executing delivering released (inl (runs, unused, held)) =
    rw runs (omega arith, ((refl, held), tt))

-- Over any interleaving of starts, hand-offs, executors that return, turns that end and a disposal, from
-- a new entry, as long as no start uses the identifier of a task that still delivers its last
-- event: at most one task executes, the turn of an executing task is the active one and has
-- not released the process, and the status is busy or stopping exactly when a turn is active.
pub run_exclusive :
    (runtime_id : Text) (session : Option Text) (steps : List Step)
    → AllFresh runtime_id steps (new session)
    → let e = run runtime_id steps (new session) in
      (length e.executing ≤ 1)
      × All (IsActive e.state.active e.released) e.executing
      × (is_working e.state.status ≡ is_some e.state.active)
run_exclusive runtime_id session steps fresh =
    let wf = run-IsWellFormed runtime_id steps (new session) (new-IsWellFormed session) fresh in
    let e = run runtime_id steps (new session) in
    let (few, actives) =
      runs_active_lem e.state.active e.executing e.delivering e.released wf.runs_active in
    (few, actives, wf.status_works)
