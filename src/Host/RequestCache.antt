-- ===== src/Host/RequestCache.antt =====
-- src/protocol_host.rs: the cache that makes requests idempotent, `claim_request`, `RequestCache`
-- and `PendingRequestGuard`.
-- A fingerprint is the 32 bytes of a digest, a watch channel is its number, and `Frames` are the
-- frames that answer a request. A guard notifies at most one channel, which is returned.
pub mod Requests
pub mod Claims
pub mod Bounds
pub mod Runs
pub mod Waiting
pub mod Counts
use agent_runtime_sdk.Prelude.{
  ℕ, suc, ◌+◌, ◌-◌, Bool, List, [], ◌∷◌, ◌++◌, Option, none, some, Text, ◌==◌, text_eq, ◌||◌, ltb,
  leb, eqb, length, if◌then◌else◌, arith, drop,
}
use agent_runtime_sdk.Prelude.Map.{Map, get, insert, remove}
use agent_runtime_sdk.Prelude.Result.{Result, ok, err}

pub record RemoteRuntimeHostLimits : Type 0 where
  pub completed_request_capacity : ℕ
  pub pending_request_capacity : ℕ

pub data RemoteRuntimeHostError : Type 0 where
  request_id_conflict : Text → RemoteRuntimeHostError
  request_capacity_exceeded : ℕ → RemoteRuntimeHostError

pub data CacheEntry (Frames : Type 0) : Type 0 where
  -- fingerprint and channel
  pending : Text → ℕ → CacheEntry Frames
  complete : Text → Frames → CacheEntry Frames

pub record RequestCache (Frames : Type 0) : Type 0 where
  pub entries : Map Text (CacheEntry Frames)
  pub order : List Text
  pub maximum : ℕ
  pub pending_count : ℕ
  pub pending_maximum : ℕ

pub data RequestClaim (Frames : Type 0) : Type 0 where
  owner : RequestClaim Frames
  cached : Frames → RequestClaim Frames
  wait : ℕ → RequestClaim Frames

-- `RemoteRuntimeHost::with_limits`, its check.
unfoldable pub limits_invalid : RemoteRuntimeHostLimits → Bool
limits_invalid l = eqb l.completed_request_capacity 0 || eqb l.pending_request_capacity 0

module _ {F : Type 0} where
  unfoldable pub new : RemoteRuntimeHostLimits → RequestCache F
  new limits = record {
    entries = [];
    order = [];
    maximum = limits.completed_request_capacity;
    pending_count = 0;
    pending_maximum = limits.pending_request_capacity;
  }

  -- `self.entries.remove(&expired)` when the entry is complete.
  unfoldable pub forget_complete : Text → Map Text (CacheEntry F) → Map Text (CacheEntry F)
  forget_complete id entries = elim (get id entries) [
    | none ↦ entries
    | some entry ↦ elim entry [
      | pending fingerprint channel ↦ entries
      | complete fingerprint frames ↦ remove id entries
    ]
  ]

  -- `evict_completed`, over the order.
  unfoldable pub evict_completed : List Text → RequestCache F → RequestCache F
  evict_completed [] c = record c { order = [] }
  evict_completed (expired ∷ rest) c =
      if ltb c.maximum (suc (length rest))
      then evict_completed rest (record c { entries = forget_complete expired c.entries })
      else record c { order = expired ∷ rest }

  -- `claim_request`, with the number of the channel that it opens.
  unfoldable pub claim_request :
      RequestCache F
      → Text
      → Text
      → ℕ
      → RequestCache F × Result RemoteRuntimeHostError (RequestClaim F)
  claim_request c id fingerprint channel = elim (get id c.entries) [
    | some entry ↦ elim entry [
      | pending existing completed ↦
          if existing == fingerprint
          then (c, ok (wait completed))
          else (c, err (request_id_conflict id))
      | complete existing frames ↦
          if existing == fingerprint
          then (c, ok (cached frames))
          else (c, err (request_id_conflict id))
    ]
    | none ↦
        if leb c.pending_maximum c.pending_count
        then (c, err (request_capacity_exceeded c.pending_maximum))
        else (
          record c {
            entries = insert id (pending fingerprint channel) c.entries;
            pending_count = suc c.pending_count;
          },
          ok owner,
        )
  ]

  -- `PendingRequestGuard::complete`.
  unfoldable pub complete_request : RequestCache F → Text → Text → F → RequestCache F × Option ℕ
  complete_request c id own frames =
      let taken : Map Text (CacheEntry F) = remove id c.entries in
      let put_back : CacheEntry F → RequestCache F × Option ℕ =
        λ entry. (record c { entries = insert id entry taken }, none) in
      elim (get id c.entries) [
        | none ↦ (record c { entries = taken }, none)
        | some entry ↦ elim entry [
          | complete fingerprint earlier ↦ put_back (complete fingerprint earlier)
          | pending fingerprint completed ↦
              if fingerprint == own
              then (let stored : RequestCache F = record c {
                entries = insert id (complete own frames) taken;
                order = c.order ++ id ∷ [];
                pending_count = c.pending_count - 1;
              } in
                  (evict_completed stored.order stored, some completed))
              else put_back (pending fingerprint completed)
        ]
      ]

  -- The drop of a `PendingRequestGuard` that is still armed.
  unfoldable pub drop_request : RequestCache F → Text → Text → RequestCache F × Option ℕ
  drop_request c id own = elim (get id c.entries) [
    | none ↦ (c, none)
    | some entry ↦ elim entry [
      | complete fingerprint frames ↦ (c, none)
      | pending fingerprint completed ↦
          if fingerprint == own
          then (
            record c { entries = remove id c.entries; pending_count = c.pending_count - 1 },
            some completed,
          )
          else (c, none)
    ]
  ]
