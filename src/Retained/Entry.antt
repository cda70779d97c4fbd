-- ===== src/Retained/Entry.antt =====
-- src/retained.rs: `RuntimeEntry`, its state under the lock, and the parts of a turn that take the lock.
-- A turn's cancellation token and its two completion signals are made together and have one number, given
-- when the turn is admitted. The store says which signals are complete, which tokens are cancelled, and
-- which spawned tasks still execute, or execute no longer but still deliver their last event.
use agent_runtime_sdk.Prelude.{
  ℕ, ◌≡◌, ◌⊎◌, inl, inr, refl, suc, length, Text, List, [], ◌∷◌, ◌++◌, Option, none, some, Bool,
  true, false, not, ◌&&◌, if◌then◌else◌, ltb, eqb, select, ◌==◌, text_eq, nat_eq,
}
use agent_runtime_sdk.Prelude.Map.{Map, contains, discard, insert}
use agent_runtime_sdk.Prelude.Result.{Result, ok, err}
use agent_runtime_sdk.Retained.Input.{TurnInput}
use agent_runtime_sdk.Retained.Types.{
  RuntimeStatus, ready, busy, degraded, stopping, stopped, RuntimeFailureKind, runtime_disposed,
  runtime_busy, invocation_already_exists, invalid_request, network, transport, provider_process,
  indeterminate, cancelled, not_sent, accepted, never, after, Message, RuntimeFailure,
  lifecycle_failure, is_turn, is_manual_compaction, CompletionKind, finished, cancelled_turn,
}

abbrev pub recent_invocation_capacity : ℕ
recent_invocation_capacity = 1024

pub record ActiveTurn : Type 0 where
  pub invocation_id : Text
  pub signal : ℕ

pub record EntryState : Type 0 where
  pub status : RuntimeStatus
  pub provider_session_id : Option Text
  pub active : Option ActiveTurn
  pub detail : Option Message
  pub recent_invocations : List Text
  pub recent_invocation_order : List Text

-- A task that a turn spawned.
pub record Task : Type 0 where
  pub invocation_id : Text
  pub signal : ℕ

pub record RuntimeEntry : Type 0 where
  pub state : EntryState
  pub disposed : Bool
  pub next_signal : ℕ
  pub executing : List Task
  pub delivering : List Task
  pub released : List ℕ
  pub terminal : Map ℕ CompletionKind
  pub cancellations : List ℕ

unfoldable pub new : Option Text → RuntimeEntry
new provider_session_id = record {
  state = record {
    status = ready;
    provider_session_id = provider_session_id;
    active = none;
    detail = none;
    recent_invocations = [];
    recent_invocation_order = [];
  };
  disposed = false;
  next_signal = 0;
  executing = [];
  delivering = [];
  released = [];
  terminal = [];
  cancellations = [];
}

-- `while recent_invocation_order.len() > RECENT_INVOCATION_CAPACITY`: the order and the set that stay.
unfoldable pub forget_invocations : List Text → List Text → List Text × List Text
forget_invocations [] recent = ([], recent)
forget_invocations (expired ∷ rest) recent =
    let fewer = forget_invocations rest (discard expired recent) in
    if ltb recent_invocation_capacity (suc (length rest)) then fewer else (expired ∷ rest, recent)

-- The state once the turn is the active one.
unfoldable pub accept : Text → ℕ → EntryState → EntryState
accept id signal s =
    let (order, recent) =
      forget_invocations (s.recent_invocation_order ++ id ∷ []) (s.recent_invocations ++ id ∷ []) in
    record s {
      status = busy;
      detail = none;
      active = some (record { invocation_id = id; signal = signal });
      recent_invocations = recent;
      recent_invocation_order = order;
    }

abbrev pub is_none : {A : Type 0} → Option A → Bool
is_none none = true
is_none (some a) = false

-- The entry with the turn's signals made and its task spawned.
unfoldable pub with_turn : TurnInput → RuntimeEntry → RuntimeEntry
with_turn input e = record e {
  state = accept input.invocation_id e.next_signal e.state;
  next_signal = suc e.next_signal;
  executing =
      e.executing ++ record { invocation_id = input.invocation_id; signal = e.next_signal } ∷ [];
}

-- One round of the loop of `start_turn`.
pub data Admission : Type 0 where
  refused : RuntimeFailure → Admission
  -- The previous turn's release, to be awaited if the executor accepts the hand-off
  ask_handoff : ℕ → Admission
  -- The new entry, and the session that the turn resumes
  admitted : RuntimeEntry → Option Text → Admission

pub Admission-cases :
    (a : Admission)
    → ((failure : RuntimeFailure) × (a ≡ refused failure))
      ⊎ (((previous : ℕ) × (a ≡ ask_handoff previous))
          ⊎ ((next : RuntimeEntry) × (session : Option Text) × (a ≡ admitted next session)))
Admission-cases (refused failure) = inl (failure, refl)
Admission-cases (ask_handoff previous) = inr (inl (previous, refl))
Admission-cases (admitted next session) = inr (inr (next, session, refl))

module _ (runtime_id : Text) where
  unfoldable pub refuse : TurnInput → RuntimeFailureKind → Admission
  unfolding lifecycle_failure
  refuse input kind =
      refused (lifecycle_failure (some runtime_id) (some input.invocation_id) kind never not_sent)

  -- The last part of the round: the turn is admitted.
  unfoldable pub accept_start : TurnInput → RuntimeEntry → Admission
  accept_start input e =
      if is_manual_compaction input.invocation_kind && is_none e.state.provider_session_id
      then refuse input invalid_request
      else admitted (with_turn input e) e.state.provider_session_id

  unfoldable pub admit : Bool → Bool → TurnInput → RuntimeEntry → Admission
  admit handoff_attempted handoff_accepted input e =
      if e.disposed
      then refuse input runtime_disposed
      else if contains input.invocation_id e.state.recent_invocations
      then refused (
          lifecycle_failure (some runtime_id) (some input.invocation_id) invocation_already_exists
            never accepted)
      else elim e.state.active [
        | none ↦ accept_start input e
        | some active ↦
            if handoff_accepted && contains active.signal e.released
            then accept_start input e
            else if not handoff_attempted && is_turn input.invocation_kind
            then ask_handoff active.signal
            else refused (
                lifecycle_failure (some runtime_id) (some input.invocation_id) runtime_busy
                  (after 100) not_sent)
      ]

-- Whether the task's turn is the active one, as the source tests it.
unfoldable pub owns : Task → EntryState → Bool
owns task s = elim s.active [
  | none ↦ false
  | some active ↦ active.invocation_id == task.invocation_id
]

abbrev pub without : ℕ → List Task → List Task
without signal = select (λ t. not (eqb t.signal signal))

-- The executor of the task returned: its session is recorded, and its release completes.
unfoldable pub release : Task → Option Text → RuntimeEntry → RuntimeEntry
release task session e = record e {
  state =
      if owns task e.state
      then elim session [
        | none ↦ e.state
        | some id ↦ record (e.state) { provider_session_id = some id }
      ]
      else e.state;
  executing = without task.signal e.executing;
  delivering = e.delivering ++ task ∷ [];
  released = e.released ++ task.signal ∷ [];
}

abbrev pub is_cancelled : RuntimeFailureKind → Bool
is_cancelled cancelled = true
is_cancelled other = false

-- The failures that leave a runtime degraded.
abbrev pub degrades : RuntimeFailureKind → Bool
degrades network = true
degrades transport = true
degrades provider_process = true
degrades indeterminate = true
degrades other = false

unfoldable pub completion_kind : Result RuntimeFailure (Unit {0}) → CompletionKind
completion_kind (ok _) = finished
completion_kind (err failure) = if is_cancelled failure.kind then cancelled_turn else finished

unfoldable pub settled : Result RuntimeFailure (Unit {0}) → EntryState → EntryState
settled (ok _) s = record s { active = none; detail = none; status = ready }
settled (err failure) s = record s {
  active = none;
  detail = some failure.message;
  status = if degrades failure.kind then degraded else ready;
}

-- The task has delivered its last event: it ends its turn, unless another turn is active by now.
unfoldable pub finish : Task → Result RuntimeFailure (Unit {0}) → RuntimeEntry → RuntimeEntry
finish task result e =
    let next = settled result e.state in
    record e {
      state =
          if owns task e.state
          then (if e.disposed then record next { status = stopped } else next)
          else e.state;
      delivering = without task.signal e.delivering;
      terminal = insert task.signal (completion_kind result) e.terminal;
    }

-- `dispose`, before it takes the lock, and under it.
unfoldable pub mark_disposed : RuntimeEntry → RuntimeEntry
mark_disposed e = record e { disposed = true }

unfoldable pub stop : RuntimeEntry → RuntimeEntry
stop e = elim e.state.active [
  | none ↦ record e { state = record (e.state) { status = stopped } }
  | some active ↦ record e {
    state = record (e.state) { status = stopping };
    cancellations = e.cancellations ++ active.signal ∷ [];
  }
]
