-- ===== src/Stream/Connection.antt =====
-- src/protocol_stream.rs: `AuthenticatedStreamConnection` and `StreamSink`.
-- The codec of frames is a parameter. The two mutexes keep reads apart from reads, and writes from writes.
use agent_runtime_sdk.Prelude.{ℕ, none, some, List, bytes}
use agent_runtime_sdk.Prelude.Result.{Result, ok, err, map_err, ◌>>=◌}
use agent_runtime_sdk.Stream.Frames.{
  ProtocolStreamError, io, codec, frame_size, host, read_timeout, Reader, Writer, read_frame,
  write_frame,
}

pub data RemoteTransportError : Type 0 where
  disconnected unauthorized rejected : RemoteTransportError

-- The two messages that the error carries here.
pub data HostFrameSinkError : Type 0 where
  invalid_frame stream_failed : HostFrameSinkError

unfoldable pub transport_error : {C H : Type 0} → ProtocolStreamError C H → RemoteTransportError
transport_error io = disconnected
transport_error (frame_size size) = rejected
transport_error (codec e) = rejected
transport_error (host e) = rejected
transport_error read_timeout = rejected

module _ {C F G : Type 0} (encode : F → Result C (List ℕ)) (decode : List ℕ → Result C G) where
  -- The client's side: `send` of a client frame.
  unfoldable pub send : F → Writer → Writer × Result RemoteTransportError (Unit {0})
  send frame w = elim (encode frame) [
    | err e ↦ (w, err (transport_error {H = Unit {0}} (codec e)))
    | ok bytes ↦
        let (w', sent) = write_frame {C = C} {H = Unit {0}} bytes w in
        (w', map_err transport_error sent)
  ]

  -- The client's side: `receive` of a host frame.
  unfoldable pub receive : Reader → Result RemoteTransportError (G × Reader)
  receive r = do
    read ← map_err transport_error (read_frame {C = C} {H = Unit {0}} r)
    elim read.0 [
      | none ↦ err disconnected
      | some bytes ↦ elim (decode bytes) [
        | ok frame ↦ ok (frame, read.1)
        | err e ↦ err (transport_error {H = Unit {0}} (codec e))
      ]
    ]

  -- The host's side: `HostFrameSink::send`.
  unfoldable pub sink_send : F → Writer → Writer × Result HostFrameSinkError (Unit {0})
  sink_send frame w = elim (encode frame) [
    | err e ↦ (w, err invalid_frame)
    | ok bytes ↦
        let (w', sent) = write_frame {C = C} {H = Unit {0}} bytes w in
        (w', map_err (λ _. stream_failed) sent)
  ]
