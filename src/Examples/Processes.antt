-- ===== src/Examples/Processes.antt =====
-- A service that fails once, is restarted and is stopped; a log of two lines.
use agent_runtime_sdk.Prelude.{
  ℕ, ◌+◌, ◌≤◌, ◌≡◌, refl, List, [], ◌∷◌, none, some, min, length, arith,
}
use agent_runtime_sdk.Prelude.Words.{u32_max}
use agent_runtime_sdk.Services.Process.{ProcessEntry, ManagedProcessLogLine, on_failure, queued}
use agent_runtime_sdk.Services.Supervise.{Round, exited, stopped, code, elapses, supervise}
use agent_runtime_sdk.Services.Logs.{push_all, tail, push_all-tail}
use agent_runtime_sdk.Services.Endings.{spawns, restarts_of, EndsWell, supervise-outcome}

abbrev service : ProcessEntry
service = record {
  restart_policy = on_failure;
  state = record { status = queued; pid = none; transport_handle = none; restart_count = 0 };
  logs = [];
  next_log_sequence = 1;
  events = [];
  control = some 3;
}

abbrev crash : Round
crash = exited 10 20 code elapses

abbrev after_crash : List Round
after_crash = stopped 11 21 ∷ []

supervise-outcome_example :
    let out = supervise (crash ∷ after_crash) [] service in
    (out.ready ≡ spawns crash ∷ [])
    × (out.entry.state.restart_count
        ≡ min u32_max (
            service.state.restart_count + restarts_of service.restart_policy (crash ∷ after_crash)))
    × EndsWell service out
supervise-outcome_example = supervise-outcome crash after_crash service (omega arith)

abbrev printed : ℕ → ManagedProcessLogLine
printed n = record { sequence = n; stream = 111 ∷ []; text = n ∷ [] }

push_all-tail_example :
    ((push_all 2 (printed 1 ∷ printed 3 ∷ printed 2 ∷ []) service).logs
      ≡ tail 2 (printed 1 ∷ printed 3 ∷ printed 2 ∷ []))
    × (length (push_all 2 (printed 1 ∷ printed 3 ∷ printed 2 ∷ []) service).logs ≤ 2)
push_all-tail_example =
    push_all-tail 2 (printed 1 ∷ printed 3 ∷ printed 2 ∷ []) service (omega arith) refl
