-- ===== src/Retained/Client.antt =====
-- src/retained.rs: `InProcessRuntimeClient`, and `RuntimeEntry::dispose` as a whole.
-- The driver's capabilities, the wait for the active turn to end and the executor's cleanup are parameters.
use agent_runtime_sdk.Prelude.{
  ℕ, Text, text_eq, [], Option, none, some, Bool, true, false, not, ◌&&◌, if◌then◌else◌, eqb, leb,
  length,
}
use agent_runtime_sdk.Prelude.Map.{Map, get, insert, remove, contains_key}
use agent_runtime_sdk.Prelude.Result.{Result, ok, err, ◌>>◌, reject_if, ok_or}
use agent_runtime_sdk.Retained.Types.{
  RuntimeFailure, lifecycle_failure, runtime_already_exists, runtime_not_found, runtime_busy,
  invalid_request, capability_unavailable, indeterminate, never, after, requires_user_action,
  not_sent, possibly_sent, DisposeOutcome, disposed, not_found, AutoCompactionPolicy,
  provider_default, automatic, token_threshold,
}
use agent_runtime_sdk.Retained.Input.{validate_auto_compaction_policy}
use agent_runtime_sdk.Retained.Entry.{RuntimeEntry, mark_disposed, stop}
use agent_runtime_sdk.Retained.Entry

-- What `acquire` reads of a specification.
pub record RuntimeSpec : Type 0 where
  pub runtime_id : Text
  pub provider_session_id : Option Text
  pub auto_compaction : AutoCompactionPolicy

pub record InProcessRuntimeClient : Type 0 where
  pub runtimes : Map Text RuntimeEntry
  pub max_runtimes : ℕ

unfoldable pub from_executor_with_limits : ℕ → Result RuntimeFailure InProcessRuntimeClient
unfolding lifecycle_failure
from_executor_with_limits max_runtimes =
    if eqb max_runtimes 0
    then err (lifecycle_failure none none invalid_request never not_sent)
    else ok (record { runtimes = []; max_runtimes = max_runtimes })

abbrev pub is_default : AutoCompactionPolicy → Bool
is_default provider_default = true
is_default automatic = false
is_default (token_threshold tokens) = false

-- The checks of `acquire`, before the map is locked and under the lock.
unfoldable pub check_acquire :
    Bool → RuntimeSpec → InProcessRuntimeClient → Result RuntimeFailure (Unit {0})
unfolding lifecycle_failure
check_acquire configurable spec c = do
  let failure = lifecycle_failure (some spec.runtime_id) none
  reject_if (not (is_default spec.auto_compaction) && not configurable)
      (failure capability_unavailable never not_sent)
  reject_if (not (validate_auto_compaction_policy spec.auto_compaction))
      (failure invalid_request never not_sent)
  reject_if (contains_key spec.runtime_id c.runtimes)
      (failure runtime_already_exists never not_sent)
  reject_if (leb c.max_runtimes (length c.runtimes)) (failure runtime_busy (after 1000) not_sent)

unfoldable pub acquire :
    Bool
    → RuntimeSpec
    → InProcessRuntimeClient
    → InProcessRuntimeClient × Result RuntimeFailure RuntimeEntry
acquire configurable spec c =
    let entry = Entry.new spec.provider_session_id in
    elim (check_acquire configurable spec c) [
      | err failure ↦ (c, err failure)
      | ok _ ↦ (record c { runtimes = insert spec.runtime_id entry c.runtimes }, ok entry)
    ]

unfoldable pub attach : Text → InProcessRuntimeClient → Result RuntimeFailure RuntimeEntry
unfolding lifecycle_failure
attach runtime_id c =
    ok_or (get runtime_id c.runtimes)
      (lifecycle_failure (some runtime_id) none runtime_not_found never not_sent)

-- `RuntimeEntry::dispose`: whether an active turn is seen to end in time, and the answer of the executor's cleanup.
unfoldable pub dispose_entry :
    Text
    → Bool
    → Result RuntimeFailure (Unit {0})
    → RuntimeEntry
    → RuntimeEntry × Result RuntimeFailure (Unit {0})
unfolding lifecycle_failure
dispose_entry runtime_id confirmed cleanup e =
    let stopped = stop (mark_disposed e) in
    let confirmation : Result RuntimeFailure (Unit {0}) = elim e.state.active [
      | none ↦ ok tt
      | some active ↦ reject_if (not confirmed) (
          lifecycle_failure (some runtime_id) (some active.invocation_id) indeterminate
            requires_user_action possibly_sent)
    ] in
    (stopped, confirmation >> cleanup)

-- The runtime is removed whatever its disposal answers.
unfoldable pub dispose :
    Text
    → Bool
    → Result RuntimeFailure (Unit {0})
    → InProcessRuntimeClient
    → InProcessRuntimeClient × Result RuntimeFailure DisposeOutcome
dispose runtime_id confirmed cleanup c = elim (get runtime_id c.runtimes) [
  | none ↦ (c, ok not_found)
  | some entry ↦ (
    record c { runtimes = remove runtime_id c.runtimes },
    (dispose_entry runtime_id confirmed cleanup entry).1 >> ok disposed,
  )
]
