-- ===== src/Retained/Turns.antt =====
-- src/retained.rs: `RuntimeEntry::start_turn` as a whole, and the steps that interleave on one entry.
use agent_runtime_sdk.Prelude.{
  ℕ, zero, suc, Text, Option, none, some, List, [], ◌∷◌, Bool, true, false, if◌then◌else◌, eqb,
  find?, text_eq,
}
use agent_runtime_sdk.Prelude.Result.{Result, ok, err}
use agent_runtime_sdk.Retained.Types.{
  RuntimeFailure, runtime_disposed, never, not_sent, lifecycle_failure,
}
use agent_runtime_sdk.Retained.Input.{TurnInput, validate_input}
use agent_runtime_sdk.Retained.Entry.{
  RuntimeEntry, refused, ask_handoff, admitted, admit, release, finish, mark_disposed, stop,
}

-- What `start_turn` returns: a failure, or the session of the turn that it admitted.
abbrev pub Started : Type 0
Started = RuntimeEntry × Result RuntimeFailure (Option Text)

-- What the calls and the tasks of one entry do to it, each part under the lock as one step. A start is one round of its loop,
-- with its two flags.
pub data Step : Type 0 where
  start : (handoff_attempted handoff_accepted : Bool) → TurnInput → Step
  releases : ℕ → Option Text → Step
  finishes : ℕ → Result RuntimeFailure (Unit {0}) → Step
  marks_disposed stops : Step

module _ (runtime_id : Text) where
  -- The loop, on fuel: none when it runs out. `await` is what happens while a hand-off with this release is requested and
  -- awaited: whether the executor accepts it, and the entry when the lock is taken again.
  unfoldable pub admit_loop :
      (ℕ → RuntimeEntry → Bool × RuntimeEntry)
      → ℕ
      → (handoff_attempted handoff_accepted : Bool) → TurnInput
      → RuntimeEntry
      → Option Started
  admit_loop await zero attempted accepted input e = none
  admit_loop await (suc fuel) attempted accepted input e =
      elim (admit runtime_id attempted accepted input e) [
        | refused failure ↦ some (e, err failure)
        | admitted next session ↦ some (next, ok session)
        | ask_handoff previous ↦
            let (agreed, later) = await previous e in admit_loop await fuel true agreed input later
      ]

  unfoldable pub start_turn :
      (ℕ → RuntimeEntry → Bool × RuntimeEntry)
      → (configurable has_handler : Bool) → ℕ
      → TurnInput
      → RuntimeEntry
      → Option Started
  unfolding lifecycle_failure
  start_turn await configurable has_handler fuel input e =
      elim (validate_input runtime_id configurable has_handler input) [
        | err failure ↦ some (e, err failure)
        | ok _ ↦
            if e.disposed
            then some (
              e,
              err (
                  lifecycle_failure (some runtime_id) (some input.invocation_id) runtime_disposed
                    never not_sent),
            )
            else admit_loop await fuel false false input e
      ]

  unfoldable pub step : Step → RuntimeEntry → RuntimeEntry
  step (start attempted accepted input) e = elim (admit runtime_id attempted accepted input e) [
    | refused failure ↦ e
    | admitted next session ↦ next
    | ask_handoff previous ↦ e
  ]
  step (releases signal session) e = elim (find? (λ t. eqb t.signal signal) e.executing) [
    | none ↦ e
    | some task ↦ release task session e
  ]
  step (finishes signal result) e = elim (find? (λ t. eqb t.signal signal) e.delivering) [
    | none ↦ e
    | some task ↦ finish task result e
  ]
  step marks_disposed e = mark_disposed e
  -- The second part of `dispose` follows the first.
  step stops e = if e.disposed then stop e else e

  unfoldable pub run : List Step → RuntimeEntry → RuntimeEntry
  run [] e = e
  run (s ∷ steps) e = run steps (step s e)
