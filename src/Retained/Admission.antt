-- ===== src/Retained/Admission.antt =====
-- src/retained.rs: `RuntimeEntry::start_turn` with its retry, a hand-off, and a disposal.
use agent_runtime_sdk.Prelude.{
  nat_eq, text_eq, length, Text, ◌≤◌, ◌≡◌, ◌≢◌, Bool, true, Option, some, List, arith, Bool-cases,
  zero, suc, refl, ◌∙◌, inl, inr, false, [], ◌∷◌, eqb, Option-cases, find?, length-select-le, subst,
}
use agent_runtime_sdk.Prelude.{ℕ}
use agent_runtime_sdk.Prelude.Map.{get-insert_self, get, contains}
use agent_runtime_sdk.Prelude.Result.{ok, err, Result-cases, Result}
use agent_runtime_sdk.Retained.Types.{
  lifecycle_failure, never, not_sent, runtime_disposed, RuntimeFailure,
}
use agent_runtime_sdk.Retained.Input.{TurnInput, validate_input}
use agent_runtime_sdk.Retained.Entry.{
  RuntimeEntry, EntryState, settled, Task, admit, refuse, accept, accept_start, with_turn, admitted,
  ask_handoff, Admission-cases, release, finish, mark_disposed, stop, owns, completion_kind,
}
use agent_runtime_sdk.Retained.Operations.{owns_lem}
use agent_runtime_sdk.Retained.Admitting.{admit_lem}
use agent_runtime_sdk.Retained.Turns.{
  Step, start, releases, finishes, marks_disposed, stops, step, run, Started, admit_loop,
  start_turn,
}

settled-order :
    (result : Result RuntimeFailure (Unit {0})) (s : EntryState)
    → (settled result s).recent_invocation_order ≡ s.recent_invocation_order
unfolding settled
settled-order (ok _) s = refl
settled-order (err failure) s = refl

module _ (task : Task) (result : Result RuntimeFailure (Unit {0})) (e : RuntimeEntry) where
  finish-order :
      (finish task result e).state.recent_invocation_order ≡ e.state.recent_invocation_order
  unfolding finish
  finish-order = ground (arith, settled-order result e.state)

  finish-other : owns task e.state ≡ false → (finish task result e).state ≡ e.state
  unfolding finish
  finish-other other = ground arith

  finish-terminal : get task.signal (finish task result e).terminal ≡ some (completion_kind result)
  unfolding finish
  finish-terminal = get-insert_self task.signal (completion_kind result) e.terminal

module _ (runtime_id : Text) where
  -- A hand-off is asked for by the first round only.
  admit_twice :
      (agreed : Bool) (input : TurnInput) (e : RuntimeEntry) (previous : ℕ)
      → admit runtime_id true agreed input e ≢ ask_handoff previous
  unfolding admit refuse accept_start
  admit_twice agreed input e previous h = ground arith

  admit_loop-second :
      (await : ℕ → RuntimeEntry → Bool × RuntimeEntry) (fuel : ℕ) (agreed : Bool)
      (input : TurnInput) (e : RuntimeEntry)
      → (out : Started) × (admit_loop runtime_id await (suc fuel) true agreed input e ≡ some out)
  unfolding admit_loop
  admit_loop-second await fuel agreed input e =
      elim (Admission-cases (admit runtime_id true agreed input e)) [
        | inl (failure, h) ↦ ((e, err failure), rw (h, admit_loop) refl)
        | inr (inl (previous, h)) ↦ absurd (admit_twice agreed input e previous h)
        | inr (inr (next, session, h)) ↦ ((next, ok session), rw (h, admit_loop) refl)
      ]

  admit_loop-first :
      (await : ℕ → RuntimeEntry → Bool × RuntimeEntry) (fuel : ℕ) (attempted agreed : Bool)
      (input : TurnInput) (e : RuntimeEntry)
      → (out : Started) × (admit_loop runtime_id await (suc (suc fuel)) attempted agreed input e
          ≡ some out)
  unfolding admit_loop
  admit_loop-first await fuel attempted agreed input e =
      elim (Admission-cases (admit runtime_id attempted agreed input e)) [
        | inl (failure, h) ↦ ((e, err failure), rw (h, admit_loop) refl)
        | inr (inl (previous, h)) ↦
            let (out, done) =
              admit_loop-second await fuel (await previous e).0 input (await previous e).1 in
            (out, rw (h, admit_loop) done)
        | inr (inr (next, session, h)) ↦ ((next, ok session), rw (h, admit_loop) refl)
      ]

  -- The loop of `start_turn` takes two rounds at most, whatever the executor answers to the hand-off and whatever
  -- happens on the entry meanwhile: fuel for two rounds gives a result.
  pub start_turn-terminates :
      (await : ℕ → RuntimeEntry → Bool × RuntimeEntry) (configurable has_handler : Bool) (fuel : ℕ)
      → (input : TurnInput) (e : RuntimeEntry) → 2 ≤ fuel
      → (out : Started) × (start_turn runtime_id await configurable has_handler fuel input e
          ≡ some out)
  unfolding start_turn
  start_turn-terminates await configurable has_handler (suc (suc fuel)) input e enough =
      elim (Result-cases (validate_input runtime_id configurable has_handler input)) [
        | inl (failure, h) ↦ ((e, err failure), rw (h, start_turn) refl)
        | inr h ↦ elim (Bool-cases e.disposed) [
          | inl gone ↦ (
            (
              e,
              err (
                  lifecycle_failure (some runtime_id) (some input.invocation_id) runtime_disposed
                    never not_sent),
            ),
            simp (h, gone, start_turn),
          )
          | inr kept ↦
              let (out, done) = admit_loop-first await fuel false false input e in
              (out, simp (h, kept, start_turn) done)
        ]
      ]
  start_turn-terminates await configurable has_handler zero input e enough = absurd (omega arith)
  start_turn-terminates await configurable has_handler (suc zero) input e enough =
      absurd (omega arith)

  step-disposed :
      (s : Step) (e : RuntimeEntry)
      → e.disposed ≡ true
      → let after = step runtime_id s e in
        (after.disposed ≡ true)
        × (after.next_signal ≡ e.next_signal)
        × (length after.executing ≤ length e.executing)
        × (after.state.recent_invocation_order ≡ e.state.recent_invocation_order)
  unfolding step release finish mark_disposed stop admit refuse
  step-disposed (start attempted agreed input) e gone =
      let refusal : admit runtime_id attempted agreed input e
          ≡ refuse runtime_id input runtime_disposed =
        ground arith in
      let same : step runtime_id (start attempted agreed input) e ≡ e = ground arith in
      rw same (gone, refl, omega arith, refl)
  step-disposed (releases signal session) e gone =
      elim (Option-cases (find? (λ (t : Task). eqb t.signal signal) e.executing)) [
        | inl none_found ↦ rw (none_found, step) (gone, refl, omega arith, refl)
        | inr (task, found) ↦
            rw (found, step) (gone, refl, length-select-le _ e.executing, ground arith)
      ]
  step-disposed (finishes signal result) e gone =
      elim (Option-cases (find? (λ (t : Task). eqb t.signal signal) e.delivering)) [
        | inl none_found ↦ rw (none_found, step) (gone, refl, omega arith, refl)
        | inr (task, found) ↦ rw (found, step) (gone, refl, omega arith, finish-order task result e)
      ]
  step-disposed marks_disposed e gone = (refl, refl, omega arith, refl)
  step-disposed stops e gone = ground arith

  -- Nothing is admitted once `dispose` has begun: over any steps from a disposed entry no task is spawned, and
  -- the entry stays disposed.
  pub run-disposed :
      (steps : List Step) (e : RuntimeEntry)
      → e.disposed ≡ true
      → let after = run runtime_id steps e in
        (after.disposed ≡ true)
        × (after.next_signal ≡ e.next_signal)
        × (length after.executing ≤ length e.executing)
        × (after.state.recent_invocation_order ≡ e.state.recent_invocation_order)
  unfolding run
  run-disposed [] e gone = (gone, refl, omega arith, refl)
  run-disposed (s ∷ steps) e gone =
      let (still, signals, fewer, order) = step-disposed s e gone in
      let rest = run-disposed steps (step runtime_id s e) still in
      (rest.0, rest.1 ∙ signals, omega (arith, rest.2, fewer), rest.3 ∙ order)

  admit-new :
      (attempted agreed : Bool) (input : TurnInput) (e next : RuntimeEntry) (session : Option Text)
      → admit runtime_id attempted agreed input e ≡ admitted next session
      → contains input.invocation_id e.state.recent_invocations ≡ false
  unfolding admit refuse
  admit-new attempted agreed input e next session h = ground arith

  -- A turn that is admitted while another turn still delivers its last event keeps the runtime: when the other
  -- turn, whose identifier is among the recent ones, ends, the entry's state does not change, and the other turn's own completion is
  -- recorded.
  pub admit-finish :
      (attempted agreed : Bool) (input : TurnInput) (e next : RuntimeEntry) (session : Option Text)
      → (previous : Task) (result : Result RuntimeFailure (Unit {0}))
      → contains previous.invocation_id e.state.recent_invocations ≡ true
      → admit runtime_id attempted agreed input e ≡ admitted next session
      → ((finish previous result next).state ≡ next.state)
        × (get previous.signal (finish previous result next).terminal
            ≡ some (completion_kind result))
  unfolding with_turn accept
  admit-finish attempted agreed input e next session previous result recent h =
      let (same, free) = admit_lem runtime_id attempted agreed input e next session h in
      let fresh = admit-new attempted agreed input e next session h in
      let active : next.state.active
          ≡ some (record { invocation_id = input.invocation_id; signal = e.next_signal }) =
        rw same refl in
      let other : owns previous next.state ≡ false = elim (Bool-cases (owns previous next.state)) [
        | inr other ↦ other
        | inl own ↦
            let equal : input.invocation_id ≡ previous.invocation_id =
              owns_lem previous next.state _ own active in
            absurd (
              let clash : contains previous.invocation_id e.state.recent_invocations ≡ false =
                subst (λ id. contains id e.state.recent_invocations ≡ false) equal fresh in
              cc)
      ] in
      (finish-other previous result next other, finish-terminal previous result next)
