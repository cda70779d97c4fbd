-- ===== src/Retained/Operations.antt =====
-- src/retained.rs: the parts of a turn that take the lock, and `dispose`.
use agent_runtime_sdk.Prelude.{
  nat_eq, text_eq, ap, inl, inr, eqb, Bool-cases, Option-cases, find?, all, All-append, All-select,
  sym, ◌∙◌, subst, ==_iff,
}
use agent_runtime_sdk.Prelude.{
  ℕ, All, Text, text_eq, ◌<◌, ◌≡◌, refl, ◌≢◌, true, false, Option, none, some, List, [], ◌∷◌, ◌++◌,
  arith,
}
use agent_runtime_sdk.Retained.Types.{RuntimeFailure, stopping, stopped}
use agent_runtime_sdk.Prelude.Map.{contains-last}
use agent_runtime_sdk.Prelude.Result.{Result, ok, err}
use agent_runtime_sdk.Retained.Entry.{
  EntryState, owns, settled, without, release, finish, stop, RuntimeEntry, ActiveTurn, Task,
}
use agent_runtime_sdk.Retained.Invariant.{is_working, is_some, task_of, RunsActive, IsWellFormed}

without-one : (signal : ℕ) (t : Task) → t.signal ≡ signal → without signal (t ∷ []) ≡ []
without-one signal t h = ground arith

find?_one :
    (signal : ℕ) (t task : Task) → find? (λ t. eqb t.signal signal) (t ∷ []) ≡ some task → task ≡ t
find?_one signal t task h = ground arith

find?-All :
    (P : Task → Type 0) (signal : ℕ) (task : Task) (tasks : List Task)
    → All P tasks
    → find? (λ t. eqb t.signal signal) tasks ≡ some task
    → P task
find?-All P signal task [] all h = cc
find?-All P signal task (t ∷ tasks) all h = elim (Bool-cases (eqb t.signal signal)) [
  | inl here ↦ let same : t ≡ task = ground arith in subst P same all.0
  | inr later ↦ find?-All P signal task tasks all.1 (ground arith)
]

release_runs :
    (active : Option ActiveTurn) (executing delivering : List Task) (released : List ℕ) (signal : ℕ)
    (task : Task)
    → RunsActive active executing delivering released
    → find? (λ t. eqb t.signal signal) executing ≡ some task
    → RunsActive active
        (without task.signal executing)
        (delivering ++ task ∷ [])
        (released ++ task.signal ∷ [])
release_runs none executing delivering released signal task runs found =
    absurd (let e : find? (λ (t : Task). eqb t.signal signal) executing ≡ none = rw runs refl in cc)
release_runs (some a) executing delivering released signal task (inr (runs, done)) found =
    absurd (let e : find? (λ (t : Task). eqb t.signal signal) executing ≡ none = rw runs refl in cc)
release_runs (some a) executing delivering released signal task (inl (runs, unused, held)) found =
    let one : find? (λ (t : Task). eqb t.signal signal) (task_of a ∷ []) ≡ some task =
      subst (λ l. find? (λ (t : Task). eqb t.signal signal) l ≡ some task) runs found in
    let same : task ≡ task_of a = find?_one signal (task_of a) task one in
    let own : a.signal ≡ task.signal = ap (λ (t : Task). t.signal) (sym same) in
    inr (
      rw runs (without-one task.signal (task_of a) own),
      rw own (contains-last task.signal released),
    )

pub release-IsWellFormed :
    (signal : ℕ) (task : Task) (session : Option Text) (e : RuntimeEntry)
    → IsWellFormed e
    → find? (λ t. eqb t.signal signal) e.executing ≡ some task
    → IsWellFormed (release task session e)
unfolding release
release-IsWellFormed signal task session e wf found =
    let active : (release task session e).state.active ≡ e.state.active = ground arith in
    let status : (release task session e).state.status ≡ e.state.status = ground arith in
    let given =
      find?-All (λ t. t.signal < e.next_signal) signal task e.executing wf.signals_given found in
    record {
      runs_active =
          subst
            (λ a.
              RunsActive a (without task.signal e.executing) (e.delivering ++ task ∷ [])
                (e.released ++ task.signal ∷ []))
            (sym active)
            (release_runs e.state.active e.executing e.delivering e.released signal task
              wf.runs_active found);
      signals_used =
          All-append (λ s. s < e.next_signal) e.released (task.signal ∷ []) wf.signals_used
            (given, tt);
      signals_given = All-select (λ t. t.signal < e.next_signal) _ e.executing wf.signals_given;
      status_works = ap is_working status ∙ wf.status_works ∙ ap is_some (sym active);
    }

finish_runs_other :
    (active : Option ActiveTurn) (executing delivering : List Task) (released : List ℕ) (signal : ℕ)
    → RunsActive active executing delivering released
    → RunsActive active executing (without signal delivering) released
finish_runs_other none executing delivering released signal runs = runs
finish_runs_other (some a) executing delivering released signal (inr runs) = inr runs
finish_runs_other (some a) executing delivering released signal (inl (runs, unused, held)) =
    inl (runs, All-select (λ t. t.invocation_id ≢ a.invocation_id) _ delivering unused, held)

-- A task that delivers and owns the active turn has released the process.
finish_runs_own :
    (active : Option ActiveTurn) (executing delivering : List Task) (released : List ℕ) (signal : ℕ)
    (task : Task)
    → RunsActive active executing delivering released
    → find? (λ t. eqb t.signal signal) delivering ≡ some task
    → ((a : ActiveTurn) → active ≡ some a → a.invocation_id ≡ task.invocation_id)
    → executing ≡ []
finish_runs_own none executing delivering released signal task runs found own = runs
finish_runs_own (some a) executing delivering released signal task (inr (runs, done)) found own =
    runs
finish_runs_own (some a) executing delivering released signal task (inl (runs, unused, held)) found
      own =
    absurd (
      find?-All (λ t. t.invocation_id ≢ a.invocation_id) signal task delivering unused found
        (sym (own a refl)))

pub owns_lem :
    (task : Task) (s : EntryState) (a : ActiveTurn)
    → owns task s ≡ true
    → s.active ≡ some a
    → a.invocation_id ≡ task.invocation_id
unfolding owns
owns_lem task s a h taken = ground (arith, ==_iff a.invocation_id task.invocation_id)

settled_lem :
    (result : Result RuntimeFailure (Unit {0})) (s : EntryState)
    → ((settled result s).active ≡ none) × (is_working (settled result s).status ≡ false)
unfolding settled
settled_lem (ok _) s = (refl, refl)
settled_lem (err failure) s = (refl, ground arith)

pub finish-IsWellFormed :
    (signal : ℕ) (task : Task) (result : Result RuntimeFailure (Unit {0})) (e : RuntimeEntry)
    → IsWellFormed e
    → find? (λ t. eqb t.signal signal) e.delivering ≡ some task
    → IsWellFormed (finish task result e)
unfolding finish
finish-IsWellFormed signal task result e wf found = elim (Bool-cases (owns task e.state)) [
  | inl own ↦
      let next = settled_lem result e.state in
      let active : (finish task result e).state.active ≡ none = ground (arith, next) in
      let status : is_working (finish task result e).state.status ≡ false = ground (arith, next) in
      let idle =
        finish_runs_own e.state.active e.executing e.delivering e.released signal task
          wf.runs_active found (λ a. owns_lem task e.state a own) in
      record {
        runs_active =
            subst (λ a. RunsActive a e.executing (without task.signal e.delivering) e.released)
              (sym active) idle;
        signals_used = wf.signals_used;
        signals_given = wf.signals_given;
        status_works = status ∙ ap is_some (sym active);
      }
  | inr other ↦
      let same : (finish task result e).state ≡ e.state = ground arith in
      record {
        runs_active =
            subst
              (λ (s : EntryState).
                RunsActive s.active e.executing (without task.signal e.delivering) e.released)
              (sym same)
              (finish_runs_other e.state.active e.executing e.delivering e.released task.signal
                wf.runs_active);
        signals_used = wf.signals_used;
        signals_given = wf.signals_given;
        status_works =
            subst (λ (s : EntryState). is_working s.status ≡ is_some s.active) (sym same)
              wf.status_works;
      }
]

pub stop-IsWellFormed : (e : RuntimeEntry) → IsWellFormed e → IsWellFormed (stop e)
unfolding stop
stop-IsWellFormed e wf = elim (Option-cases e.state.active) [
  | inl free ↦
      let same : stop e ≡ record e { state = record (e.state) { status = stopped } } =
        ground arith in
      subst IsWellFormed (sym same) (record {
        runs_active = wf.runs_active;
        signals_used = wf.signals_used;
        signals_given = wf.signals_given;
        status_works = ap is_some (sym free);
      })
  | inr (a, taken) ↦
      let same : stop e ≡ record e {
        state = record (e.state) { status = stopping };
        cancellations = e.cancellations ++ a.signal ∷ [];
      } =
        ground arith in
      subst IsWellFormed (sym same) (record {
        runs_active = wf.runs_active;
        signals_used = wf.signals_used;
        signals_given = wf.signals_given;
        status_works = ap is_some (sym taken);
      })
]
