-- ===== src/Services/Process.antt =====
-- src/services.rs: a managed process, its state, events and logs.
-- Details and times are left out. The control channel is its number; the text of a line is its characters.
use agent_runtime_sdk.Prelude.{
  ℕ, ◌%◌, ◌+◌, Text, Option, none, some, List, [], ◌∷◌, ◌++◌, if◌then◌else◌, eqb, leb, take, drop,
  length, text_eq,
}
use agent_runtime_sdk.Prelude.Words.{u64_max}

pub data RestartPolicy : Type 0 where
  never on_failure always : RestartPolicy

pub data ManagedProcessStatus : Type 0 where
  queued running succeeded failed cancelled : ManagedProcessStatus

pub record ProcessState : Type 0 where
  pub status : ManagedProcessStatus
  pub pid : Option ℕ
  pub transport_handle : Option ℕ
  pub restart_count : ℕ  -- u32

pub record ManagedProcessLogLine : Type 0 where
  pub sequence : ℕ
  pub stream : Text
  pub text : Text

pub data ManagedProcessEvent : Type 0 where
  status_changed : ProcessState → ManagedProcessEvent
  log : ManagedProcessLogLine → ManagedProcessEvent
  -- The attempt
  restart_scheduled : ℕ → ManagedProcessEvent

pub record ProcessEntry : Type 0 where
  pub restart_policy : RestartPolicy
  pub state : ProcessState
  pub logs : List ManagedProcessLogLine
  pub next_log_sequence : ℕ
  pub events : List ManagedProcessEvent
  pub control : Option ℕ

unfoldable pub send : ManagedProcessEvent → ProcessEntry → ProcessEntry
send event e = record e { events = e.events ++ event ∷ [] }

unfoldable pub set_state : ManagedProcessStatus → Option ℕ → Option ℕ → ProcessEntry → ProcessEntry
unfolding send
set_state status pid handle e =
    let state : ProcessState = record (e.state) {
      status = status;
      pid = pid;
      transport_handle = elim handle [ none ↦ e.state.transport_handle | some h ↦ some h ];
    } in
    send (status_changed state) (record e { state = state })

unfoldable pub clear_control : ProcessEntry → ProcessEntry
clear_control e = record e { control = none }

-- `… [truncated]`
abbrev pub truncated : Text
truncated = 8230 ∷ 32 ∷ 91 ∷ 116 ∷ 114 ∷ 117 ∷ 110 ∷ 99 ∷ 97 ∷ 116 ∷ 101 ∷ 100 ∷ 93 ∷ []

unfoldable pub bounded_text : Text → ℕ → Text
bounded_text value limit = if leb (length value) limit then value else take limit value ++ truncated

-- One line of `capture_logs`: its number is taken first, then it is pushed under the lock. The two streams of a process may
-- interleave between these.
unfoldable pub number_line :
    (stream : Text) (max_chars : ℕ) → Text → ProcessEntry → ManagedProcessLogLine × ProcessEntry
number_line stream max_chars text e = (
  record { sequence = e.next_log_sequence; stream = stream; text = bounded_text text max_chars },
  record e { next_log_sequence = (e.next_log_sequence + 1) % (u64_max + 1) },
)

unfoldable pub push_line : (max_lines : ℕ) → ManagedProcessLogLine → ProcessEntry → ProcessEntry
unfolding send
push_line max_lines line e =
    let kept = if eqb (length e.logs) max_lines then drop 1 e.logs else e.logs in
    send (log line) (record e { logs = kept ++ line ∷ [] })
