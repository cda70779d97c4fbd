-- ===== src/Services/Endings.antt =====
-- src/services.rs: what `supervise` answers, how often it restarts, and how it ends.
use agent_runtime_sdk.Prelude.{
  ℕ, suc, ◌+◌, ◌≤◌, ◌≡◌, refl, Bool, true, false, none, List, [], ◌∷◌, if◌then◌else◌, min, leb,
  leb→le, leb→gt, Bool-cases, inl, inr, arith,
}
use agent_runtime_sdk.Prelude.Words.{u32_max, saturating_add}
use agent_runtime_sdk.Services.Process.{
  ManagedProcessStatus, queued, running, succeeded, failed, cancelled, RestartPolicy, never,
  on_failure, always, ProcessEntry, send, set_state, clear_control,
}
use agent_runtime_sdk.Services.Supervise.{
  Exit, success, code, wait_error, elapses, is_stopped, Round, spawn_error, stopped, exited,
  Supervised, answer, has_failed, restarts, finish, start_process, schedule_restart, supervise,
}

abbrev pub is_final : ManagedProcessStatus → Bool
is_final queued = false
is_final running = false
is_final succeeded = true
is_final failed = true
is_final cancelled = true

abbrev pub spawns : Round → Bool
spawns spawn_error = false
spawns (stopped pid handle) = true
spawns (exited pid handle exit delay) = true

-- What each policy asks for after each exit: `never` no restart, `on_failure` one after every exit but a success, and
-- `always` one after every exit.
abbrev pub asks : RestartPolicy → Exit → Bool
asks never success = false
asks never code = false
asks never wait_error = false
asks on_failure success = false
asks on_failure code = true
asks on_failure wait_error = true
asks always success = true
asks always code = true
asks always wait_error = true

restarts_lem : (policy : RestartPolicy) (exit : Exit) → restarts policy exit ≡ asks policy exit
unfolding restarts
restarts_lem never success = refl
restarts_lem never code = refl
restarts_lem never wait_error = refl
restarts_lem on_failure success = refl
restarts_lem on_failure code = refl
restarts_lem on_failure wait_error = refl
restarts_lem always success = refl
restarts_lem always code = refl
restarts_lem always wait_error = refl

-- How many of the rounds end in a restart, or in a stop that comes before a restart that was announced.
abbrev pub restarts_of : RestartPolicy → List Round → ℕ
restarts_of policy [] = 0
restarts_of policy (spawn_error ∷ rounds) = 0
restarts_of policy (stopped pid handle ∷ rounds) = 0
restarts_of policy (exited pid handle exit elapses ∷ rounds) =
    let later = suc (restarts_of policy rounds) in if asks policy exit then later else 0
restarts_of policy (exited pid handle exit is_stopped ∷ rounds) = if asks policy exit then 1 else 0

-- The process is gone, and the control channel with it.
abbrev pub IsOver : ProcessEntry → Type 0
IsOver e = (is_final e.state.status ≡ true) × (e.state.pid ≡ none) × (e.control ≡ none)

-- While the loop runs, its control channel stays.
abbrev pub EndsWell : ProcessEntry → Supervised → Type 0
EndsWell e out = elim out.ended [ true ↦ IsOver out.entry | false ↦ out.entry.control ≡ e.control ]

exit_is_final : (exit : Exit) → is_final (if has_failed exit then failed else succeeded) ≡ true
exit_is_final success = refl
exit_is_final code = refl
exit_is_final wait_error = refl

supervise-EndsWell :
    (rounds : List Round) (ready : List Bool) (e : ProcessEntry)
    → EndsWell e (supervise rounds ready e)
unfolding supervise finish start_process schedule_restart set_state send clear_control
supervise-EndsWell [] ready e = refl
supervise-EndsWell (spawn_error ∷ rounds) ready e = (refl, refl, refl)
supervise-EndsWell (stopped pid handle ∷ rounds) ready e = (refl, refl, refl)
supervise-EndsWell (exited pid handle exit elapses ∷ rounds) ready e =
    elim (Bool-cases (restarts e.restart_policy exit)) [
      | inl again ↦ rw again (
          supervise-EndsWell rounds (answer true ready)
            (schedule_restart (start_process pid handle e)))
      | inr over ↦ rw over (exit_is_final exit, refl, refl)
    ]
supervise-EndsWell (exited pid handle exit is_stopped ∷ rounds) ready e =
    elim (Bool-cases (restarts e.restart_policy exit)) [
      | inl again ↦ rw again (refl, refl, refl)
      | inr over ↦ rw over (exit_is_final exit, refl, refl)
    ]

-- The start is answered in the first round, and never again.
supervise-answered :
    (rounds : List Round) (first : Bool) (e : ProcessEntry)
    → (supervise rounds (first ∷ []) e).ready ≡ first ∷ []
unfolding supervise answer
supervise-answered [] first e = refl
supervise-answered (spawn_error ∷ rounds) first e = refl
supervise-answered (stopped pid handle ∷ rounds) first e = refl
supervise-answered (exited pid handle exit elapses ∷ rounds) first e =
    ground (arith, supervise-answered rounds first (schedule_restart (start_process pid handle e)))
supervise-answered (exited pid handle exit is_stopped ∷ rounds) first e = refl

answered_first :
    (first : Round) (rounds : List Round) (e : ProcessEntry)
    → (supervise (first ∷ rounds) [] e).ready ≡ spawns first ∷ []
unfolding supervise answer
answered_first spawn_error rounds e = refl
answered_first (stopped pid handle) rounds e = refl
answered_first (exited pid handle exit elapses) rounds e =
    ground (arith, supervise-answered rounds true (schedule_restart (start_process pid handle e)))
answered_first (exited pid handle exit is_stopped) rounds e = refl

counted_once :
    (count : ℕ) → count ≤ u32_max → saturating_add u32_max count 1 ≡ min u32_max (count + 1)
counted_once count small = elim (Bool-cases (leb (count + 1) u32_max)) [
  | inl fits ↦ rw fits (omega (arith, leb→le (count + 1) u32_max fits))
  | inr over ↦ rw over (omega (arith, leb→gt (count + 1) u32_max over))
]

supervise-counted :
    (rounds : List Round) (ready : List Bool) (e : ProcessEntry)
    → e.state.restart_count ≤ u32_max
    → (supervise rounds ready e).entry.state.restart_count
      ≡ min u32_max (e.state.restart_count + restarts_of e.restart_policy rounds)
unfolding supervise finish start_process schedule_restart set_state send clear_control
supervise-counted [] ready e small = omega arith
supervise-counted (spawn_error ∷ rounds) ready e small = omega arith
supervise-counted (stopped pid handle ∷ rounds) ready e small = omega arith
supervise-counted (exited pid handle exit elapses ∷ rounds) ready e small =
    let policy = restarts_lem e.restart_policy exit in
    elim (Bool-cases (asks e.restart_policy exit)) [
      | inl again ↦
          let counted = counted_once e.state.restart_count small in
          let later =
            supervise-counted rounds (answer true ready)
              (schedule_restart (start_process pid handle e)) (omega (arith, counted)) in
          rw (policy, again) (omega (arith, later, counted))
      | inr over ↦ rw (policy, over) (omega arith)
    ]
supervise-counted (exited pid handle exit is_stopped ∷ rounds) ready e small =
    let policy = restarts_lem e.restart_policy exit in
    elim (Bool-cases (asks e.restart_policy exit)) [
      | inl again ↦ rw (policy, again) (counted_once e.state.restart_count small)
      | inr over ↦ rw (policy, over) (omega arith)
    ]

-- A supervised process, whatever happens to it: the start is answered once, by whether the first spawn worked; the
-- restarts are counted, up to the limit of a u32, as the policy asks for them after each exit (`never` for none,
-- `on_failure` after a failed exit, `always` after any); and when the loop ends, the status is
-- a final one, the process has no number any more, and the control channel is cleared.
pub supervise-outcome :
    (first : Round) (rounds : List Round) (e : ProcessEntry)
    → e.state.restart_count ≤ u32_max
    → let out = supervise (first ∷ rounds) [] e in
      (out.ready ≡ spawns first ∷ [])
      × (out.entry.state.restart_count
          ≡ min u32_max (e.state.restart_count + restarts_of e.restart_policy (first ∷ rounds)))
      × EndsWell e out
supervise-outcome first rounds e small = (
  answered_first first rounds e,
  supervise-counted (first ∷ rounds) [] e small,
  supervise-EndsWell (first ∷ rounds) [] e,
)
