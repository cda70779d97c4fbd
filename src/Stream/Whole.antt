-- ===== src/Stream/Whole.antt =====
-- src/protocol_stream.rs: `serve_authenticated_stream_with_read_timeout` on a whole connection.
use agent_runtime_sdk.Prelude.{
  ℕ, zero, suc, length, ◌<◌, ◌≡◌, refl, All, List, [], ◌∷◌, ◌++◌, some, none, inl, inr, arith,
  bytes, length-append, All-split, ap, subst, ◌⊎◌, Option,
}
use agent_runtime_sdk.Prelude.Result.{Result, ok, err, Result-cases}
use agent_runtime_sdk.Stream.Frames.{
  eof, ProtocolStreamError, Reader, read_frame, read_first, to_be_bytes,
}
use agent_runtime_sdk.Stream.Serve.{serve_frame, serve}
use agent_runtime_sdk.Stream.RoundTrip.{read_frame_iff, read_frame-append}
use agent_runtime_sdk.Stream.Reading.{frame_bytes, Fits}

-- The bytes of a client that sends these bodies one after the other.
abbrev pub stream_bytes : List (List ℕ) → List ℕ
stream_bytes [] = []
stream_bytes (body ∷ bodies) = frame_bytes body ++ stream_bytes bodies

-- The three outcomes of a read: an error, no frame, or a frame.
read-cases :
    {E A R : Type 0} (read : Result E (Option A × R))
    → ((e : E) × (read ≡ err e))
      ⊎ (((r : R) × (read ≡ ok (none, r))) ⊎ ((a : A) × (r : R) × (read ≡ ok (some a, r))))
read-cases (err e) = inl (e, refl)
read-cases (ok (none, r)) = inr (inl (r, refl))
read-cases (ok (some a, r)) = inr (inr (a, r, refl))

module _ {C H F S : Type 0} (decode : List ℕ → Result C F)
    (dispatch : S → F → S × Result H (Unit {0})) where
  -- Each body is decoded and dispatched in turn, up to the first that fails.
  abbrev pub serve_each : S → List (List ℕ) → S × Result (ProtocolStreamError C H) (Unit {0})
  serve_each s [] = (s, ok tt)
  serve_each s (body ∷ bodies) =
      let served = serve_frame decode dispatch s body in
      elim served.1 [ err e ↦ (served.0, err e) | ok _ ↦ serve_each served.0 bodies ]

  -- A connection that sends frames of valid lengths and ends is served frame by frame: each body is decoded and
  -- dispatched in the order sent, up to the first that the codec or the host refuses, which ends the
  -- service with its error, and the end of the stream after the last ends it well. Fuel for one round more than
  -- there are frames is enough.
  pub serve-stream_bytes :
      (bodies : List (List ℕ)) (fuel : ℕ) (s : S)
      → All Fits bodies
      → length bodies < fuel
      → serve decode dispatch fuel s (record { bytes = stream_bytes bodies; end = eof })
        ≡ some (serve_each s bodies)
  unfolding serve read_frame read_first
  serve-stream_bytes bodies zero s fits few = absurd (omega arith)
  serve-stream_bytes [] (suc fuel) s fits few = refl
  serve-stream_bytes (body ∷ bodies) (suc fuel) s fits few =
      let read = read_frame-append {C = C} {H = H} body (stream_bytes bodies) eof fits.0 in
      let served = serve_frame decode dispatch s body in
      elim (Result-cases served.1) [
        | inl (e, bad) ↦ rw (read, bad, serve, serve_each) refl
        | inr good ↦
            rw (read, good, serve, serve_each)
              (serve-stream_bytes bodies fuel served.0 fits.1 (omega arith))
      ]

  -- The loop ends on every stream of bytes, whatever they are, however they end and whatever the codec and the host
  -- answer: fuel for one round more than there are bytes is enough.
  pub serve-terminates :
      (fuel : ℕ) (s : S) (r : Reader)
      → All (λ x. x < 256) r.bytes
      → length r.bytes < fuel
      → (out : S × Result (ProtocolStreamError C H) (Unit {0})) × (serve decode dispatch fuel s r
          ≡ some out)
  unfolding serve
  serve-terminates zero s r small few = absurd (omega arith)
  serve-terminates (suc fuel) s r small few = elim (read-cases (read_frame {C = C} {H = H} r)) [
    | inl (e, failed) ↦ ((s, err e), rw (failed, serve) refl)
    | inr (inl (r', ended)) ↦ ((s, ok tt), rw (ended, serve) refl)
    | inr (inr (body, r', read)) ↦
        let (fits, bytes, same) = (read_frame_iff r r' body small).0 read in
        let left =
          All-split (λ x. x < 256) (frame_bytes body) r'.bytes
            (subst (All (λ x. x < 256)) bytes small) in
        let shorter : length r'.bytes < fuel = omega (
          arith,
          ap length bytes,
          length-append (frame_bytes body) r'.bytes,
          length-append (to_be_bytes (length body)) body,
          fits,
        ) in
        let served = serve_frame decode dispatch s body in
        elim (Result-cases served.1) [
          | inl (e, bad) ↦ ((served.0, err e), rw (read, bad, serve) refl)
          | inr good ↦
              let (out, done) = serve-terminates fuel served.0 r' left.1 shorter in
              (out, rw (read, good, serve) done)
        ]
  ]
