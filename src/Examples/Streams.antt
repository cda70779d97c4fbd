-- ===== src/Examples/Streams.antt =====
-- Two short frames, on a stream that ends and on one that holds part of a third.
use agent_runtime_sdk.Prelude.{
  ℕ, length, eqb, if◌then◌else◌, ◌≡◌, refl, List, [], ◌∷◌, ◌++◌, some, arith, ◌+◌, ◌↔◌, bytes,
}
use agent_runtime_sdk.Prelude.Result.{Result, ok, err}
use agent_runtime_sdk.Stream.Frames.{
  ProtocolStreamError, eof, silent, Reader, Writer, read_frame, write_frame,
}
use agent_runtime_sdk.Stream.RoundTrip.{read_frame_iff, write_frame-read_frame}
use agent_runtime_sdk.Stream.Reading.{frame_bytes, Fits}
use agent_runtime_sdk.Stream.Serve.{serve_frame, serve}
use agent_runtime_sdk.Stream.Whole.{stream_bytes, serve_each, serve-stream_bytes, serve-terminates}

abbrev hello : List ℕ
hello = 104 ∷ 105 ∷ []

abbrev bye : List ℕ
bye = 98 ∷ []

-- One frame and the prefix of another.
abbrev partial : Reader
partial = record { bytes = 0 ∷ 0 ∷ 0 ∷ 2 ∷ 104 ∷ 105 ∷ 0 ∷ []; end = silent }

abbrev left : Reader
left = record { bytes = 0 ∷ []; end = silent }

abbrev writer : Writer
writer = record { written = 7 ∷ []; room = 10 }

-- The codec refuses an empty body; the host counts bytes and refuses a body of one.
abbrev decode_text : List ℕ → Result ℕ (List ℕ)
decode_text [] = err 1
decode_text (b ∷ bytes) = ok (b ∷ bytes)

abbrev count : ℕ → List ℕ → ℕ × Result ℕ (Unit {0})
count n bytes = (n + length bytes, if eqb (length bytes) 1 then err 9 else ok tt)

hello-Fits : Fits hello
hello-Fits = (omega arith, omega arith)

bye-Fits : Fits bye
bye-Fits = (omega arith, omega arith)

write_frame-read_frame_example :
    ((write_frame {C = ℕ} {H = ℕ} hello writer).1 ≡ ok tt)
    × (frame : List ℕ) × ((write_frame {C = ℕ} {H = ℕ} hello writer).0.written
        ≡ writer.written ++ frame)
    × (read_frame {C = ℕ} {H = ℕ} (record { bytes = frame ++ 9 ∷ []; end = eof })
        ≡ ok (some hello, record { bytes = 9 ∷ []; end = eof }))
write_frame-read_frame_example =
    write_frame-read_frame hello (9 ∷ []) writer eof hello-Fits (omega arith)

read_frame_iff_example :
    (read_frame {C = ℕ} {H = ℕ} partial ≡ ok (some hello, left))
    ↔ (Fits hello × (partial.bytes ≡ frame_bytes hello ++ left.bytes) × (left.end ≡ partial.end))
read_frame_iff_example = read_frame_iff partial left hello (omega arith)

serve-stream_bytes_example :
    serve decode_text count 4 0
      (record { bytes = stream_bytes (hello ∷ bye ∷ hello ∷ []); end = eof })
    ≡ some (serve_each decode_text count 0 (hello ∷ bye ∷ hello ∷ []))
serve-stream_bytes_example =
    serve-stream_bytes decode_text count (hello ∷ bye ∷ hello ∷ []) 4 0
      (hello-Fits, (bye-Fits, (hello-Fits, tt))) (omega arith)

serve-terminates_example :
    (out : ℕ × Result (ProtocolStreamError ℕ ℕ) (Unit {0})) × (serve decode_text count 8 0 partial
      ≡ some out)
serve-terminates_example =
    serve-terminates decode_text count 8 0 partial (omega arith) (omega arith)

-- The host's refusal of the second frame ends the service after three bytes.
served :
    serve_each decode_text count 0 (hello ∷ bye ∷ hello ∷ [])
    ≡ (3, err (ProtocolStreamError.host 9))
unfolding serve_frame
served = refl
