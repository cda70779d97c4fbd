-- ===== src/Services/Supervise.antt =====
-- src/services.rs: `supervise`.
-- What the transport and the control channel do in each round of the loop is given as a list; at its end the loop still runs.
use agent_runtime_sdk.Prelude.{ℕ, Bool, true, false, none, some, List, [], ◌∷◌, if◌then◌else◌}
use agent_runtime_sdk.Prelude.Words.{saturating_add, u32_max}
use agent_runtime_sdk.Services.Process.{
  RestartPolicy, never, on_failure, always, ManagedProcessStatus, queued, running, succeeded,
  failed, cancelled, ProcessEntry, restart_scheduled, send, set_state, clear_control,
}

-- How `process.wait()` ends.
pub data Exit : Type 0 where
  success code wait_error : Exit

-- The delay before a restart elapses, or a stop comes in it.
pub data Delay : Type 0 where
  elapses is_stopped : Delay

pub data Round : Type 0 where
  spawn_error : Round
  -- The process's number and handle; it is stopped, or exits
  stopped : ℕ → ℕ → Round
  exited : ℕ → ℕ → Exit → Delay → Round

-- What the loop did: the entry, the answers that it gave to the start, and whether it ended.
pub record Supervised : Type 0 where
  pub entry : ProcessEntry
  pub ready : List Bool
  pub ended : Bool

-- `ready.take()`: only the first answer is sent.
unfoldable pub answer : Bool → List Bool → List Bool
answer value [] = value ∷ []
answer value (first ∷ rest) = first ∷ rest

abbrev pub has_failed : Exit → Bool
has_failed success = false
has_failed code = true
has_failed wait_error = true

unfoldable pub restarts : RestartPolicy → Exit → Bool
restarts never exit = false
restarts on_failure exit = has_failed exit
restarts always exit = true

unfoldable pub finish : ManagedProcessStatus → ProcessEntry → ProcessEntry
finish status e = clear_control (set_state status none none e)

unfoldable pub start_process : ℕ → ℕ → ProcessEntry → ProcessEntry
start_process pid handle e =
    set_state running (some pid) (some handle) (set_state queued none none e)

-- The count goes up, and the restart is announced.
unfoldable pub schedule_restart : ProcessEntry → ProcessEntry
schedule_restart e =
    let attempt = saturating_add u32_max e.state.restart_count 1 in
    let counted : ProcessEntry = record e {
      state = record (e.state) { restart_count = attempt };
    } in
    send (restart_scheduled attempt) (set_state queued none none counted)

unfoldable pub supervise : List Round → List Bool → ProcessEntry → Supervised
supervise [] ready e = record { entry = e; ready = ready; ended = false }
supervise (spawn_error ∷ rounds) ready e = record {
  entry = finish failed (set_state queued none none e);
  ready = answer false ready;
  ended = true;
}
supervise (stopped pid handle ∷ rounds) ready e = record {
  entry = finish cancelled (set_state queued (some pid) (some handle) (start_process pid handle e));
  ready = answer true ready;
  ended = true;
}
supervise (exited pid handle exit elapses ∷ rounds) ready e =
    let started = start_process pid handle e in
    let later = supervise rounds (answer true ready) (schedule_restart started) in
    if restarts e.restart_policy exit then later else record {
      entry = finish (if has_failed exit then failed else succeeded) started;
      ready = answer true ready;
      ended = true;
    }
supervise (exited pid handle exit is_stopped ∷ rounds) ready e =
    let started = start_process pid handle e in
    record {
      entry =
          if restarts e.restart_policy exit
          then finish cancelled (schedule_restart started)
          else finish (if has_failed exit then failed else succeeded) started;
      ready = answer true ready;
      ended = true;
    }
