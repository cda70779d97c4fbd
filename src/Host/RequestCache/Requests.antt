-- ===== src/Host/RequestCache/Requests.antt =====
-- src/protocol_host.rs: the life of one request identifier in `RequestCache`.
use agent_runtime_sdk.Prelude.{
  ℕ, suc, ◌-◌, ◌<◌, ◌≡◌, refl, ◌∙◌, false, List, [], ◌∷◌, ◌++◌, none, some, arith, Text, ◌==◌,
  text_eq, ==_refl, ==_iff, leb, if◌then◌else◌,
}
use agent_runtime_sdk.Prelude.Map.{
  Map, get, insert, remove, get-remove, get-insert_self, get-remove_self, contains,
}
use agent_runtime_sdk.Prelude.Result.{ok, err}
use agent_runtime_sdk.Host.RequestCache.{
  RequestCache, CacheEntry, pending, complete, owner, cached, wait, request_id_conflict,
  forget_complete, evict_completed, claim_request, complete_request, drop_request,
}

module _ {F : Type 0} where
  -- A claim, by what the cache holds for its identifier.
  claim_fresh :
      (c : RequestCache F) (id print : Text) (channel : ℕ)
      → get id c.entries ≡ none
      → c.pending_count < c.pending_maximum
      → claim_request c id print channel ≡ (
        record c {
          entries = insert id (pending print channel) c.entries;
          pending_count = suc c.pending_count;
        },
        ok owner,
      )
  unfolding claim_request
  claim_fresh c id print channel e room =
      let open_room : leb c.pending_maximum c.pending_count ≡ false = ground arith in
      rw (e, claim_request) (rw open_room refl)

  pub claim_pending :
      (c : RequestCache F) (id print own : Text) (channel again : ℕ)
      → get id c.entries ≡ some (pending own channel)
      → claim_request c id print again
        ≡ (c, (if own == print then ok (wait channel) else err (request_id_conflict id)))
  unfolding claim_request
  claim_pending c id print own channel again e =
      rw (e, claim_request) (ground (arith, ==_iff own print))

  claim_complete :
      (c : RequestCache F) (id print own : Text) (frames : F) (again : ℕ)
      → get id c.entries ≡ some (complete own frames)
      → claim_request c id print again
        ≡ (c, (if own == print then ok (cached frames) else err (request_id_conflict id)))
  unfolding claim_request
  claim_complete c id print own frames again e =
      rw (e, claim_request) (ground (arith, ==_iff own print))

  forget_complete-other :
      (x id : Text) (m : Map Text (CacheEntry F))
      → (x == id) ≡ false
      → get id (forget_complete x m) ≡ get id m
  unfolding forget_complete
  forget_complete-other x id m h = ground (arith, h, get-remove x id m)

  -- The identifier that stands last in the order, and nowhere before, survives an eviction.
  evict_completed-keeps :
      (id : Text) (front : List Text) (c : RequestCache F)
      → 0 < c.maximum
      → contains id front ≡ false
      → get id (evict_completed (front ++ id ∷ []) c).entries ≡ get id c.entries
  unfolding evict_completed contains
  evict_completed-keeps id [] c pos out = ground arith
  evict_completed-keeps id (x ∷ front) c pos out = ground (
    arith,
    forget_complete-other x id c.entries,
    evict_completed-keeps id front (record c { entries = forget_complete x c.entries }),
  )

  complete_own :
      (c : RequestCache F) (id own : Text) (frames : F) (channel : ℕ)
      → get id c.entries ≡ some (pending own channel)
      → let stored : RequestCache F = record c {
        entries = insert id (complete own frames) (remove id c.entries);
        order = c.order ++ id ∷ [];
        pending_count = c.pending_count - 1;
      } in
        complete_request c id own frames ≡ (evict_completed stored.order stored, some channel)
  unfolding complete_request
  complete_own c id own frames channel e = rw (e, complete_request) (rw (==_refl own) refl)

  drop_own :
      (c : RequestCache F) (id own : Text) (channel : ℕ)
      → get id c.entries ≡ some (pending own channel)
      → drop_request c id own ≡ (
        record c { entries = remove id c.entries; pending_count = c.pending_count - 1 },
        some channel,
      )
  unfolding drop_request
  drop_own c id own channel e = rw (e, drop_request) (rw (==_refl own) refl)

  -- While there is room, the first claim of an identifier owns it, and a repeated claim right after it waits on the
  -- owner's channel. A completion right after it notifies that channel and stores the frames, so that
  -- the same request, made next, is answered with the owner's frames, and another request under
  -- that identifier is a conflict.
  pub claim_request_complete :
      (c : RequestCache F) (id print other : Text) (channel again : ℕ) (frames : F)
      → 0 < c.maximum
      → get id c.entries ≡ none
      → contains id c.order ≡ false
      → c.pending_count < c.pending_maximum
      → (print == other) ≡ false
      → let claimed = claim_request c id print channel in
        let done = complete_request claimed.0 id print frames in
        (claimed.1 ≡ ok owner)
        × ((claim_request claimed.0 id print again).1 ≡ ok (wait channel))
        × (done.1 ≡ some channel)
        × ((claim_request done.0 id print again).1 ≡ ok (cached frames))
        × ((claim_request done.0 id other again).1 ≡ err (request_id_conflict id))
  claim_request_complete c id print other channel again frames pos empty out room differ =
      let claimed : RequestCache F = record c {
        entries = insert id (pending print channel) c.entries;
        pending_count = suc c.pending_count;
      } in
      let stored : RequestCache F = record claimed {
        entries = insert id (complete print frames) (remove id claimed.entries);
        order = c.order ++ id ∷ [];
        pending_count = claimed.pending_count - 1;
      } in
      let done : RequestCache F = evict_completed stored.order stored in
      let held = get-insert_self id (pending print channel) c.entries in
      let kept =
        evict_completed-keeps id c.order stored pos out
        ∙ get-insert_self id (complete print frames) (remove id claimed.entries) in
      rw (claim_fresh c id print channel empty room) (
        rw (complete_own claimed id print frames channel held) (
          refl,
          rw (claim_pending claimed id print print channel again held) (rw (==_refl print) refl),
          refl,
          rw (claim_complete done id print print frames again kept) (rw (==_refl print) refl),
          rw (claim_complete done id other print frames again kept) (rw differ refl),
        ))

  -- An owner that is dropped before it completes notifies those who wait, leaves the number of
  -- pending requests as it was before its claim, and a later claim owns the identifier.
  pub claim_request-drop :
      (c : RequestCache F) (id print retry : Text) (channel again : ℕ)
      → get id c.entries ≡ none
      → c.pending_count < c.pending_maximum
      → let claimed = claim_request c id print channel in
        let dropped = drop_request claimed.0 id print in
        (dropped.1 ≡ some channel)
        × (dropped.0.pending_count ≡ c.pending_count)
        × ((claim_request dropped.0 id retry again).1 ≡ ok owner)
  claim_request-drop c id print retry channel again empty room =
      let claimed : RequestCache F = record c {
        entries = insert id (pending print channel) c.entries;
        pending_count = suc c.pending_count;
      } in
      let dropped : RequestCache F = record claimed {
        entries = remove id claimed.entries;
        pending_count = claimed.pending_count - 1;
      } in
      rw (claim_fresh c id print channel empty room) (
        rw
          (drop_own claimed id print channel (get-insert_self id (pending print channel) c.entries))
          (
            refl,
            omega arith,
            rw
                (claim_fresh dropped id retry again (get-remove_self id claimed.entries)
                  (omega arith))
                refl,
          ))
