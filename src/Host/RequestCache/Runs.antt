-- ===== src/Host/RequestCache/Runs.antt =====
-- src/protocol_host.rs: sequences of claims, completions and drops of `RequestCache`.
use agent_runtime_sdk.Prelude.{
  ℕ, ◌++◌, ◌==◌, inl, inr, Bool-cases, ◌≤◌, ◌≡◌, ◌∙◌, refl, false, List, [], ◌∷◌, arith, Text,
  text_eq, length,
}
use agent_runtime_sdk.Prelude.Map.{get, contains, Distinct}
use agent_runtime_sdk.Host.RequestCache.{
  RequestCache, RemoteRuntimeHostLimits, limits_invalid, new, forget_complete, evict_completed,
  claim_request, complete_request, drop_request,
}
use agent_runtime_sdk.Host.RequestCache.Bounds.{complete_request-IsValid, new-IsValid}
use agent_runtime_sdk.Host.RequestCache.Claims.{
  IsValid, claim_request-IsValid, drop_request-IsValid,
}
use agent_runtime_sdk.Host.RequestCache.Counts.{pending_of, is_complete, Entry-cases}

-- The calls that change the cache: identifier, fingerprint and channel or frames.
pub data Call (F : Type 0) : Type 0 where
  claims : Text → Text → ℕ → Call F
  completes : Text → Text → F → Call F
  drops : Text → Text → Call F

module _ {F : Type 0} where
  abbrev pub step : RequestCache F → Call F → RequestCache F
  step c (claims id print channel) = (claim_request c id print channel).0
  step c (completes id own frames) = (complete_request c id own frames).0
  step c (drops id own) = (drop_request c id own).0

  abbrev pub run : RequestCache F → List (Call F) → RequestCache F
  run c [] = c
  run c (call ∷ calls) = run (step c call) calls

  run-IsValid : (c : RequestCache F) (calls : List (Call F)) → IsValid c → IsValid (run c calls)
  run-IsValid c [] v = v
  run-IsValid c (claims id print channel ∷ calls) v =
      run-IsValid (step c (claims id print channel)) calls
        (claim_request-IsValid c id print channel v)
  run-IsValid c (completes id own frames ∷ calls) v =
      run-IsValid (step c (completes id own frames)) calls
        (complete_request-IsValid c id own frames v)
  run-IsValid c (drops id own ∷ calls) v =
      run-IsValid (step c (drops id own)) calls (drop_request-IsValid c id own v)

  abbrev SameLimits : RequestCache F → RequestCache F → Type 0
  SameLimits a b = (a.maximum ≡ b.maximum) × (a.pending_maximum ≡ b.pending_maximum)

  evict_completed-limits :
      (xs : List Text) (c : RequestCache F) → SameLimits (evict_completed xs c) c
  unfolding evict_completed
  evict_completed-limits [] c = (refl, refl)
  evict_completed-limits (x ∷ xs) c =
      ground (arith, evict_completed-limits xs (record c { entries = forget_complete x c.entries }))

  step-limits : (c : RequestCache F) (call : Call F) → SameLimits (step c call) c
  unfolding claim_request complete_request drop_request
  step-limits c (claims id print channel) = ground arith
  step-limits c (completes id own frames) = elim (Entry-cases (get id c.entries)) [
    | inl e ↦ rw (e, step, complete_request) (refl, refl)
    | inr (inr (p, f, e)) ↦ rw (e, step, complete_request) (refl, refl)
    | inr (inl (p, ch, e)) ↦
        rw (e, step, complete_request)
          (elim (Bool-cases (p == own)) [
            | inr other ↦ rw other (refl, refl)
            | inl same ↦ rw same (evict_completed-limits (c.order ++ id ∷ []) _)
          ])
  ]
  step-limits c (drops id own) = ground arith

  run-limits : (c : RequestCache F) (calls : List (Call F)) → SameLimits (run c calls) c
  run-limits c [] = (refl, refl)
  run-limits c (call ∷ calls) =
      let (a, b) = run-limits (step c call) calls in
      let (d, e) = step-limits c call in (a ∙ d, b ∙ e)

  -- After any list of claims, completions and drops put to a new cache with limits that the
  -- host accepts, the count of pending requests is the number of pending entries and within its
  -- limit, and the completed identifiers, each listed once, are exactly those with a complete
  -- entry and within their limit.
  pub requests_bounds :
      (limits : RemoteRuntimeHostLimits) (calls : List (Call F))
      → limits_invalid limits ≡ false
      → let c = run (new limits) calls in
        (c.pending_count ≡ pending_of c.entries)
        × (c.pending_count ≤ limits.pending_request_capacity)
        × Distinct c.order
        × ((id : Text) → is_complete (get id c.entries) ≡ contains id c.order)
        × (length c.order ≤ limits.completed_request_capacity)
  unfolding new
  requests_bounds limits calls h =
      let v = run-IsValid (new limits) calls (new-IsValid limits h) in
      let (most, most_pending) = run-limits (new limits) calls in
      (
        v.counted,
        omega (arith, v.bounded, most_pending),
        v.once,
        v.filed,
        omega (arith, v.remembered, most),
      )
