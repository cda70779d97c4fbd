-- ===== src/Examples/Hosts.antt =====
-- A cache with one pending and one answered request.
use agent_runtime_sdk.Prelude.{
  ℕ, ◌≡◌, refl, Text, text_eq, List, [], ◌∷◌, some, arith, list_beq, false,
}
use agent_runtime_sdk.Prelude.Map.{get, contains, insert}
use agent_runtime_sdk.Prelude.Result.{ok, err}
use agent_runtime_sdk.Host.RequestCache.{
  RequestCache, RemoteRuntimeHostLimits, new, owner, cached, wait, request_id_conflict,
  claim_request, complete_request, drop_request, limits_invalid,
}
use agent_runtime_sdk.Host.RequestCache.Requests.{claim_request_complete, claim_request-drop}
use agent_runtime_sdk.Prelude.{length, ◌≤◌}
use agent_runtime_sdk.Prelude.Map.{Distinct}
use agent_runtime_sdk.Host.RequestCache.Counts.{pending_of, is_complete}
use agent_runtime_sdk.Host.RequestCache.Waiting.{run-wait}
use agent_runtime_sdk.Host.RequestCache.{pending}
use agent_runtime_sdk.Host.RequestCache.Runs.{Call, claims, completes, drops, run, requests_bounds}

abbrev running : Text
running = 114 ∷ []

abbrev fresh : Text
fresh = 102 ∷ []

abbrev print : Text
print = 1 ∷ []

abbrev limits : RemoteRuntimeHostLimits
limits = record { completed_request_capacity = 1; pending_request_capacity = 2 }

-- The cache once a request is claimed.
abbrev cache : RequestCache ℕ
cache = (claim_request (new limits) running print 40).0

limits-valid : limits_invalid limits ≡ false
unfolding limits_invalid
limits-valid = refl

claim_request_complete_example :
    let claimed = claim_request cache fresh print 41 in
    let done = complete_request claimed.0 fresh print 7 in
    (claimed.1 ≡ ok owner)
    × ((claim_request claimed.0 fresh print 42).1 ≡ ok (wait 41))
    × (done.1 ≡ some 41)
    × ((claim_request done.0 fresh print 42).1 ≡ ok (cached 7))
    × ((claim_request done.0 fresh (2 ∷ []) 42).1 ≡ err (request_id_conflict fresh))
unfolding new claim_request get insert contains list_beq
claim_request_complete_example =
    claim_request_complete cache fresh print (2 ∷ []) 41 42 7 (omega arith) refl refl (omega arith)
      refl

claim_request-drop_example :
    let claimed = claim_request cache fresh print 41 in
    let dropped = drop_request claimed.0 fresh print in
    (dropped.1 ≡ some 41)
    × (dropped.0.pending_count ≡ 1)
    × ((claim_request dropped.0 fresh (2 ∷ []) 42).1 ≡ ok owner)
unfolding new claim_request get insert list_beq
claim_request-drop_example = claim_request-drop cache fresh print (2 ∷ []) 41 42 refl (omega arith)

-- Another request is claimed and completed, and a stale guard of the pending one is dropped.
abbrev others : List (Call ℕ)
others = claims fresh print 41 ∷ completes fresh print 7 ∷ drops running (2 ∷ []) ∷ []

run-wait_example :
    (get running (run cache others).entries ≡ some (pending print 40))
    × ((claim_request (run cache others) running print 42).1 ≡ ok (wait 40))
unfolding new claim_request get insert list_beq
run-wait_example = run-wait others cache running print 40 42 refl (tt, (refl, (refl, tt)))

abbrev calls : List (Call ℕ)
calls =
    claims running print 40
    ∷ claims fresh print 41
    ∷ completes running print 7
    ∷ drops fresh print
    ∷ completes fresh print 8
    ∷ []

requests_bounds_example :
    let c = run (new limits) calls in
    (c.pending_count ≡ pending_of c.entries)
    × (c.pending_count ≤ 2)
    × Distinct c.order
    × ((id : Text) → is_complete (get id c.entries) ≡ contains id c.order)
    × (length c.order ≤ 1)
requests_bounds_example = requests_bounds limits calls limits-valid
