-- ===== src/Host/RequestCache/Claims.antt =====
-- src/protocol_host.rs: the request cache when a request is claimed or dropped.
use agent_runtime_sdk.Prelude.{
  ℕ, suc, ◌≤◌, ◌<◌, ◌≡◌, refl, sym, ap, ◌∙◌, inl, inr, true, List, [], ◌∷◌, none, arith, Text, ◌==◌,
  text_eq, ==_refl, ==_iff, leb, ltb, length, Bool-cases,
}
use agent_runtime_sdk.Prelude.Map.{
  Map, get, insert, remove, get-insert, get-remove, contains, contains_key, contains_key-keys, keys,
  keys-insert_new, keys-remove, Distinct, Distinct-snoc, Distinct-discard,
}
use agent_runtime_sdk.Host.RequestCache.{
  RequestCache, CacheEntry, pending, forget_complete, evict_completed, claim_request, drop_request,
}
use agent_runtime_sdk.Host.RequestCache.Counts.{
  pending_of, is_complete, pending_of-insert-pending, pending_of-remove-pending,
  pending_of-remove_complete, Entry-cases,
}

module _ {F : Type 0} where
  pub record IsValid (c : RequestCache F) : Type 0 where
    pub positive : 0 < c.maximum
    pub counted : c.pending_count ≡ pending_of c.entries
    pub bounded : c.pending_count ≤ c.pending_maximum
    pub filed : (id : Text) → is_complete (get id c.entries) ≡ contains id c.order
    pub once : Distinct c.order
    pub keyed : Distinct (keys c.entries)
    pub remembered : length c.order ≤ c.maximum

  -- An identifier of the order has a complete entry, which an eviction removes.
  forget_complete_filed :
      (id : Text) (m : Map Text (CacheEntry F))
      → is_complete (get id m) ≡ true
      → forget_complete id m ≡ remove id m
  unfolding forget_complete
  forget_complete_filed id m h = elim (Entry-cases (get id m)) [
    | inl e ↦ absurd (let bad = rw e at h in cc)
    | inr (inl (p, ch, e)) ↦ absurd (let bad = rw e at h in cc)
    | inr (inr (p, f, e)) ↦ rw (e, forget_complete) refl
  ]

  pub keyed-insert :
      (id : Text) (e : CacheEntry F) (m : Map Text (CacheEntry F))
      → get id m ≡ none
      → Distinct (keys m)
      → Distinct (keys (insert id e m))
  keyed-insert id e m h d =
      rw (keys-insert_new id e m h)
        (Distinct-snoc id (keys m) (sym (contains_key-keys id m) ∙ rw (h, contains_key) refl) d)

  pub evict_completed-IsValid :
      (xs : List Text) (c : RequestCache F)
      → 0 < c.maximum
      → c.pending_count ≡ pending_of c.entries
      → c.pending_count ≤ c.pending_maximum
      → ((id : Text) → is_complete (get id c.entries) ≡ contains id xs)
      → Distinct xs
      → Distinct (keys c.entries)
      → IsValid (evict_completed xs c)
  unfolding evict_completed contains
  evict_completed-IsValid [] c pos n b f d k = record {
    positive = pos;
    counted = n;
    bounded = b;
    filed = f;
    once = tt;
    keyed = k;
    remembered = omega arith;
  }
  evict_completed-IsValid (x ∷ xs) c pos n b f d k =
      elim (Bool-cases (ltb c.maximum (suc (length xs)))) [
        | inl over ↦
            let known : is_complete (get x c.entries) ≡ true = f x ∙ ground (arith, ==_refl x) in
            rw (over, forget_complete_filed x c.entries known)
              (evict_completed-IsValid xs (record c { entries = remove x c.entries }) pos
                (n ∙ sym (pending_of-remove_complete x c.entries k known)) b
                (λ id. rw (get-remove x id c.entries) (ground (arith, f id, d.0, ==_iff x id))) d.1
                (rw (keys-remove x c.entries) (Distinct-discard x (keys c.entries) k)))
        | inr within ↦ rw within (record {
          positive = pos;
          counted = n;
          bounded = b;
          filed = f;
          once = d;
          keyed = k;
          remembered = ground arith;
        })
      ]

  -- A claim keeps the cache valid.
  pub claim_request-IsValid :
      (c : RequestCache F) (id print : Text) (channel : ℕ)
      → IsValid c
      → IsValid (claim_request c id print channel).0
  unfolding claim_request
  claim_request-IsValid c id print channel v = elim (Entry-cases (get id c.entries)) [
    | inl e ↦
        rw (e, claim_request)
          (elim (Bool-cases (leb c.pending_maximum c.pending_count)) [
            | inl full ↦ rw full v
            | inr room ↦ rw room (record {
              positive = v.positive;
              counted =
                  ap suc v.counted ∙ sym (pending_of-insert-pending id print channel c.entries e);
              bounded = ground arith;
              filed = λ j.
                  rw (get-insert id j (pending print channel) c.entries)
                    (ground (arith, e, v.filed id, v.filed j, ==_iff id j));
              once = v.once;
              keyed = keyed-insert id (pending print channel) c.entries e v.keyed;
              remembered = v.remembered;
            })
          ])
    | inr (inl (p, ch, e)) ↦
        rw (e, claim_request)
          (elim (Bool-cases (p == print)) [ inl same ↦ rw same v | inr other ↦ rw other v ])
    | inr (inr (p, f, e)) ↦
        rw (e, claim_request)
          (elim (Bool-cases (p == print)) [ inl same ↦ rw same v | inr other ↦ rw other v ])
  ]

  pub remove_pending-keyed :
      (id : Text) (m : Map Text (CacheEntry F)) → Distinct (keys m) → Distinct (keys (remove id m))
  remove_pending-keyed id m d = rw (keys-remove id m) (Distinct-discard id (keys m) d)

  -- Dropping an owner keeps the cache valid.
  pub drop_request-IsValid :
      (c : RequestCache F) (id own : Text) → IsValid c → IsValid (drop_request c id own).0
  unfolding drop_request
  drop_request-IsValid c id own v = elim (Entry-cases (get id c.entries)) [
    | inl e ↦ rw (e, drop_request) v
    | inr (inl (p, ch, e)) ↦
        rw (e, drop_request)
          (elim (Bool-cases (p == own)) [
            | inl same ↦ rw same (
                let less = pending_of-remove-pending id p ch c.entries v.keyed e in
                record {
                  positive = v.positive;
                  counted = ground (arith, v.counted, less);
                  bounded = ground (arith, v.bounded);
                  filed = λ j.
                      rw (get-remove id j c.entries)
                        (ground (arith, e, v.filed id, v.filed j, ==_iff id j));
                  once = v.once;
                  keyed = remove_pending-keyed id c.entries v.keyed;
                  remembered = v.remembered;
                })
            | inr other ↦ rw other v
          ])
    | inr (inr (p, f, e)) ↦ rw (e, drop_request) v
  ]
