-- ===== src/Host/RequestCache/Bounds.antt =====
-- src/protocol_host.rs: the limits of `RequestCache`, operation by operation.
use agent_runtime_sdk.Prelude.{
  ◌-◌, ◌≡◌, refl, sym, ◌∙◌, inl, inr, false, [], ◌∷◌, ◌++◌, some, arith, Text, ◌==◌, text_eq,
  ==_iff, Bool-cases,
}
use agent_runtime_sdk.Prelude.Map.{
  Map, get, insert, remove, get-insert, get-remove, get-remove_self, contains, contains_key,
  contains_key-keys, contains-append, keys, Distinct, Distinct-snoc,
}
use agent_runtime_sdk.Host.RequestCache.{
  RequestCache, CacheEntry, pending, complete, RemoteRuntimeHostLimits, limits_invalid, new,
  complete_request,
}
use agent_runtime_sdk.Host.RequestCache.Counts.{
  pending_of, is_complete, pending_of-insert-pending, pending_of-insert_complete, remove_absent,
  pending_of-remove-pending, pending_of-remove_complete, Entry-cases,
}
use agent_runtime_sdk.Host.RequestCache.Claims.{
  IsValid, keyed-insert, evict_completed-IsValid, remove_pending-keyed,
}

module _ {F : Type 0} where
  restored-IsValid :
      (c : RequestCache F) (m : Map Text (CacheEntry F))
      → IsValid c
      → pending_of m ≡ pending_of c.entries
      → ((j : Text) → get j m ≡ get j c.entries)
      → Distinct (keys m)
      → IsValid (record c { entries = m })
  restored-IsValid c m v n same d = record {
    positive = v.positive;
    counted = v.counted ∙ sym n;
    bounded = v.bounded;
    filed = λ j. rw (same j) (v.filed j);
    once = v.once;
    keyed = d;
    remembered = v.remembered;
  }

  get-put_back :
      (id j : Text) (e : CacheEntry F) (m : Map Text (CacheEntry F))
      → get id m ≡ some e
      → get j (insert id e (remove id m)) ≡ get j m
  get-put_back id j e m h =
      ground (arith, h, get-insert id j e (remove id m), get-remove id j m, ==_iff id j)

  stored_filed :
      (c : RequestCache F) (id own j : Text) (frames : F)
      → IsValid c
      → is_complete (get j (insert id (complete own frames) (remove id c.entries)))
        ≡ contains j (c.order ++ id ∷ [])
  unfolding contains
  stored_filed c id own j frames v =
      rw (get-insert id j (complete own frames) (remove id c.entries), get-remove id j c.entries)
        (ground (arith, v.filed j, contains-append j c.order (id ∷ []), ==_iff id j))

  -- Completing a request keeps the cache valid.
  pub complete_request-IsValid :
      (c : RequestCache F) (id own : Text) (frames : F)
      → IsValid c
      → IsValid (complete_request c id own frames).0
  unfolding complete_request
  complete_request-IsValid c id own frames v =
      let taken = remove_pending-keyed id c.entries v.keyed in
      let gone = get-remove_self id c.entries in
      elim (Entry-cases (get id c.entries)) [
        | inl e ↦
            rw (e, complete_request)
              (rw
                (remove_absent id c.entries
                  (sym (contains_key-keys id c.entries) ∙ rw (e, contains_key) refl))
                v)
        | inr (inr (p, f, e)) ↦
            rw (e, complete_request)
              (restored-IsValid c _ v
                (pending_of-insert_complete id p f (remove id c.entries) gone
                  ∙ pending_of-remove_complete id c.entries v.keyed (rw e refl))
                (λ j. get-put_back id j (complete p f) c.entries e)
                (keyed-insert id (complete p f) (remove id c.entries) gone taken))
        | inr (inl (p, ch, e)) ↦
            let less = pending_of-remove-pending id p ch c.entries v.keyed e in
            rw (e, complete_request)
              (elim (Bool-cases (p == own)) [
                | inr other ↦ rw other (
                    restored-IsValid c _ v
                      (pending_of-insert-pending id p ch (remove id c.entries) gone ∙ less)
                      (λ j. get-put_back id j (pending p ch) c.entries e)
                      (keyed-insert id (pending p ch) (remove id c.entries) gone taken))
                | inl same ↦ rw same (
                    evict_completed-IsValid (c.order ++ id ∷ [])
                      (record c {
                        entries = insert id (complete own frames) (remove id c.entries);
                        order = c.order ++ id ∷ [];
                        pending_count = c.pending_count - 1;
                      })
                      v.positive
                      (ground (
                        arith,
                        v.counted,
                        less,
                        pending_of-insert_complete id own frames (remove id c.entries) gone,
                      ))
                      (let b = v.bounded in omega arith) (λ j. stored_filed c id own j frames v)
                      (Distinct-snoc id c.order (sym (v.filed id) ∙ rw e refl) v.once)
                      (keyed-insert id (complete own frames) (remove id c.entries) gone taken))
              ])
      ]

  pub new-IsValid :
      (limits : RemoteRuntimeHostLimits)
      → limits_invalid limits ≡ false
      → IsValid {F = F} (new limits)
  unfolding new limits_invalid get contains
  new-IsValid limits h = record {
    positive = ground arith;
    counted = refl;
    bounded = omega arith;
    filed = λ id. refl;
    once = tt;
    keyed = tt;
    remembered = omega arith;
  }
