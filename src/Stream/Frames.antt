-- ===== src/Stream/Frames.antt =====
-- src/protocol_stream.rs: `check_size`, `read_frame` and `write_frame`.
-- A reader is the bytes that its peer still sends and what comes after them: the end of the stream, an
-- error, or silence. A read that meets silence ends at the deadline that the host puts on it.
use agent_runtime_sdk.Prelude.{
  ℕ, ltb, leb, eqb, if◌then◌else◌, length, take, drop, ◌+◌, ◌-◌, ◌*◌, ◌/◌, ◌%◌, ◌||◌, Option, none,
  some, List, [], ◌∷◌, ◌++◌,
}
use agent_runtime_sdk.Prelude.Result.{Result, ok, err, ◌>>=◌, ◌>>◌, reject_if}
use agent_runtime_sdk.Prelude.Words.{u32_max}

abbrev pub max_protocol_frame_bytes : ℕ
max_protocol_frame_bytes = 2097152

pub data ProtocolStreamError (C H : Type 0) : Type 0 where
  io : ProtocolStreamError C H
  frame_size : ℕ → ProtocolStreamError C H
  codec : C → ProtocolStreamError C H
  host : H → ProtocolStreamError C H
  read_timeout : ProtocolStreamError C H

pub data End : Type 0 where
  eof broken silent : End

pub record Reader : Type 0 where
  pub bytes : List ℕ
  pub end : End

-- A writer has taken some bytes, and takes so many more before it fails; `flush` has nothing left to do.
pub record Writer : Type 0 where
  pub written : List ℕ
  pub room : ℕ

-- `u32::to_be_bytes` and `u32::from_be_bytes`.
unfoldable pub to_be_bytes : ℕ → List ℕ
to_be_bytes n = n / 16777216 % 256 ∷ n / 65536 % 256 ∷ n / 256 % 256 ∷ n % 256 ∷ []

unfoldable pub from_be_bytes : ℕ → ℕ → ℕ → ℕ → ℕ
from_be_bytes a b c d = a * 16777216 + b * 65536 + c * 256 + d

-- The length that a first byte and the three after it announce.
unfoldable pub prefix_size : ℕ → List ℕ → ℕ
prefix_size a (b ∷ c ∷ d ∷ []) = from_be_bytes a b c d
prefix_size a other = 0

module _ {C H : Type 0} where
  unfoldable pub check_size : ℕ → Result (ProtocolStreamError C H) (Unit {0})
  check_size size = reject_if (eqb size 0 || ltb max_protocol_frame_bytes size) (frame_size size)

  -- `read_exact` on a reader that has too few bytes.
  unfoldable pub short_read : End → ProtocolStreamError C H
  short_read eof = io
  short_read broken = io
  short_read silent = read_timeout

  unfoldable pub read_exact : ℕ → Reader → Result (ProtocolStreamError C H) (List ℕ × Reader)
  read_exact n r =
      if leb n (length r.bytes)
      then ok (take n r.bytes, record r { bytes = drop n r.bytes })
      else err (short_read r.end)

  -- `read(&mut prefix[..1])`: whether a byte came.
  unfoldable pub read_first : Reader → Result (ProtocolStreamError C H) (Option ℕ × Reader)
  read_first r = elim r.bytes [
    | b ∷ rest ↦ ok (some b, record r { bytes = rest })
    | [] ↦ elim r.end [ eof ↦ ok (none, r) | broken ↦ err io | silent ↦ err read_timeout ]
  ]

  -- What follows the first byte of a frame.
  unfoldable pub read_rest :
      ℕ → Reader → Result (ProtocolStreamError C H) (Option (List ℕ) × Reader)
  read_rest a r = do
    prefix ← read_exact 3 r
    let size = prefix_size a prefix.0
    check_size size
    body ← read_exact size prefix.1
    ok (some body.0, body.1)

  unfoldable pub read_frame : Reader → Result (ProtocolStreamError C H) (Option (List ℕ) × Reader)
  read_frame r = do
    first ← read_first r
    elim first.0 [ none ↦ ok (none, first.1) | some a ↦ read_rest a first.1 ]

  unfoldable pub write_all : List ℕ → Writer → Writer × Result (ProtocolStreamError C H) (Unit {0})
  write_all bytes w =
      let fits = take w.room bytes in
      (
        record { written = w.written ++ fits; room = w.room - length bytes },
        reject_if (ltb w.room (length bytes)) io,
      )

  unfoldable pub write_frame :
      List ℕ → Writer → Writer × Result (ProtocolStreamError C H) (Unit {0})
  write_frame bytes w =
      elim (check_size (length bytes)
        >> reject_if (ltb u32_max (length bytes)) (frame_size (length bytes))) [
          | err e ↦ (w, err e)
          | ok _ ↦
              let (prefixed, sent) = write_all (to_be_bytes (length bytes)) w in
              elim sent [ err e ↦ (prefixed, err e) | ok _ ↦ write_all bytes prefixed ]
        ]
