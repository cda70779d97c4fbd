-- ===== src/Host/RequestCache/Waiting.antt =====
-- src/protocol_host.rs: a pending request of `RequestCache` while other requests come and go.
use agent_runtime_sdk.Prelude.{
  ◌-◌, ℕ, suc, ◌≡◌, refl, false, ◌&&◌, ◌==◌, List, [], ◌∷◌, ◌++◌, All, Bool-cases, inl, inr, ltb,
  length, some, arith, Text, text_eq, ==_iff, ==_refl,
}
use agent_runtime_sdk.Prelude.Map.{Map, get, insert, remove, get-insert, get-remove}
use agent_runtime_sdk.Prelude.Result.{ok}
use agent_runtime_sdk.Host.RequestCache.{
  RequestCache, CacheEntry, pending, complete, wait, forget_complete, evict_completed,
  claim_request, complete_request, drop_request,
}
use agent_runtime_sdk.Host.RequestCache.Counts.{Entry-cases}
use agent_runtime_sdk.Host.RequestCache.Requests.{claim_pending}
use agent_runtime_sdk.Host.RequestCache.Runs.{Call, claims, completes, drops, run}

module _ {F : Type 0} where
  -- A call that is not the completion or drop of this request.
  abbrev pub Spares : Text → Text → Call F → Type 0
  Spares id own (claims j print channel) = Unit
  Spares id own (completes j print frames) = (j == id && print == own) ≡ false
  Spares id own (drops j print) = (j == id && print == own) ≡ false

  abbrev IsPending : Text → Text → ℕ → RequestCache F → Type 0
  IsPending id own channel c = get id c.entries ≡ some (pending own channel)

  forget_complete-pending :
      (x id own : Text) (channel : ℕ) (m : Map Text (CacheEntry F))
      → get id m ≡ some (pending own channel)
      → get id (forget_complete x m) ≡ some (pending own channel)
  unfolding forget_complete
  forget_complete-pending x id own channel m e = ground (arith, e, get-remove x id m, ==_iff x id)

  evict_completed-IsPending :
      (xs : List Text) (id own : Text) (channel : ℕ) (c : RequestCache F)
      → IsPending id own channel c
      → IsPending id own channel (evict_completed xs c)
  unfolding evict_completed
  evict_completed-IsPending [] id own channel c e = e
  evict_completed-IsPending (x ∷ xs) id own channel c e =
      elim (Bool-cases (ltb c.maximum (suc (length xs)))) [
        | inl over ↦ rw over (
            evict_completed-IsPending xs id own channel
              (record c { entries = forget_complete x c.entries })
              (forget_complete-pending x id own channel c.entries e))
        | inr within ↦ rw within e
      ]

  claim_request-IsPending :
      (c : RequestCache F) (j print : Text) (opened : ℕ) (id own : Text) (channel : ℕ)
      → IsPending id own channel c
      → IsPending id own channel (claim_request c j print opened).0
  unfolding claim_request
  claim_request-IsPending c j print opened id own channel e =
      ground (arith, e, get-insert j id (pending print opened) c.entries, ==_iff j id)

  drop_request-IsPending :
      (c : RequestCache F) (j print id own : Text) (channel : ℕ)
      → (j == id && print == own) ≡ false
      → IsPending id own channel c
      → IsPending id own channel (drop_request c j print).0
  unfolding drop_request
  drop_request-IsPending c j print id own channel other e =
      ground (
        arith,
        e,
        other,
        get-remove j id c.entries,
        ==_iff j id,
        ==_iff print own,
        ==_iff own print,
      )

  complete_request-IsPending :
      (c : RequestCache F) (j print : Text) (frames : F) (id own : Text) (channel : ℕ)
      → (j == id && print == own) ≡ false
      → IsPending id own channel c
      → IsPending id own channel (complete_request c j print frames).0
  unfolding complete_request
  complete_request-IsPending c j print frames id own channel other e =
      let taken = remove j c.entries in
      let removed = get-remove j id c.entries in
      elim (Entry-cases (get j c.entries)) [
        | inl absent ↦
            rw (absent, complete_request) (ground (arith, e, absent, removed, ==_iff j id))
        | inr (inr (p, f, done)) ↦
            rw (done, complete_request)
              (ground (arith, e, done, removed, get-insert j id (complete p f) taken, ==_iff j id))
        | inr (inl (p, ch, begun)) ↦ elim (Bool-cases (p == print)) [
          | inr foreign ↦
              rw (begun, complete_request)
                (rw foreign (
                  ground
                    (arith, e, begun, removed, get-insert j id (pending p ch) taken, ==_iff j id)))
          | inl mine ↦
              let stored : RequestCache F = record c {
                entries = insert j (complete print frames) taken;
                order = c.order ++ j ∷ [];
                pending_count = c.pending_count - 1;
              } in
              let kept : IsPending id own channel stored = ground (
                arith,
                e,
                begun,
                mine,
                other,
                removed,
                get-insert j id (complete print frames) taken,
                ==_iff j id,
                ==_iff p print,
                ==_iff print own,
              ) in
              rw (begun, complete_request)
                (rw mine (evict_completed-IsPending stored.order id own channel stored kept))
        ]
      ]

  run-IsPending :
      (calls : List (Call F)) (c : RequestCache F) (id own : Text) (channel : ℕ)
      → All (Spares id own) calls
      → IsPending id own channel c
      → IsPending id own channel (run c calls)
  run-IsPending [] c id own channel spared e = e
  run-IsPending (claims j print opened ∷ calls) c id own channel (here, spared) e =
      run-IsPending calls (claim_request c j print opened).0 id own channel spared
        (claim_request-IsPending c j print opened id own channel e)
  run-IsPending (completes j print frames ∷ calls) c id own channel (here, spared) e =
      run-IsPending calls (complete_request c j print frames).0 id own channel spared
        (complete_request-IsPending c j print frames id own channel here e)
  run-IsPending (drops j print ∷ calls) c id own channel (here, spared) e =
      run-IsPending calls (drop_request c j print).0 id own channel spared
        (drop_request-IsPending c j print id own channel here e)

  -- A pending request stays pending through any claims, and any completions and drops but its own, whatever is evicted for
  -- them, and a repeated claim of it after that waits on the channel of its owner.
  pub run-wait :
      (calls : List (Call F)) (c : RequestCache F) (id own : Text) (channel again : ℕ)
      → get id c.entries ≡ some (pending own channel)
      → All (Spares id own) calls
      → (get id (run c calls).entries ≡ some (pending own channel))
        × ((claim_request (run c calls) id own again).1 ≡ ok (wait channel))
  run-wait calls c id own channel again e spared =
      let still = run-IsPending calls c id own channel spared e in
      (
        still,
        rw (claim_pending (run c calls) id own own channel again still) (rw (==_refl own) refl),
      )
