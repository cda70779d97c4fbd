-- ===== src/Stream/Serve.antt =====
-- src/protocol_stream.rs: `serve_authenticated_stream_with_read_timeout`.
-- The codec and the host's dispatch are parameters; the host keeps a state of its own.
use agent_runtime_sdk.Prelude.{ℕ, bytes, zero, suc, Option, none, some, List}
use agent_runtime_sdk.Prelude.Result.{Result, ok, err, map_err}
use agent_runtime_sdk.Stream.Frames.{ProtocolStreamError, codec, host, Reader, read_frame}

module _ {C H F S : Type 0} (decode : List ℕ → Result C F)
    (dispatch : S → F → S × Result H (Unit {0})) where
  -- One round of the loop: what a frame does to the host, or why the loop ends.
  unfoldable pub serve_frame : S → List ℕ → S × Result (ProtocolStreamError C H) (Unit {0})
  serve_frame s bytes = elim (decode bytes) [
    | err e ↦ (s, err (codec e))
    | ok frame ↦ let (s', answer) = dispatch s frame in (s', map_err host answer)
  ]

  -- The loop, on fuel: none when the fuel runs out.
  unfoldable pub serve : ℕ → S → Reader → Option (S × Result (ProtocolStreamError C H) (Unit {0}))
  serve zero s r = none
  serve (suc fuel) s r = elim (read_frame {C = C} {H = H} r) [
    | err e ↦ some (s, err e)
    | ok read ↦ elim read.0 [
      | none ↦ some (s, ok tt)
      | some bytes ↦
          let served = serve_frame s bytes in
          elim served.1 [ err e ↦ some (served.0, err e) | ok _ ↦ serve fuel served.0 read.1 ]
    ]
  ]
