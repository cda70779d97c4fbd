-- ===== src/Stream/RoundTrip.antt =====
-- src/protocol_stream.rs: what `write_frame` writes and `read_frame` reads.
use agent_runtime_sdk.Prelude.{
  ℕ, length, bytes, ◌+◌, ◌/◌, ◌%◌, ◌≤◌, ◌<◌, ◌≡◌, refl, List, [], ◌∷◌, ◌++◌, arith, All, ◌↔◌, some,
  subst, take_of_length-le, ge→ltb, ltb, ◌-◌, ◌∙◌, sym, ◌≢◌, all, some, false,
}
use mathlib.Core.List.{append_assoc}
use agent_runtime_sdk.Prelude.Result.{ok}
use agent_runtime_sdk.Prelude.Words.{u32_max}
use agent_runtime_sdk.Stream.Frames.{
  End, eof, broken, silent, Reader, Writer, to_be_bytes, check_size, read_first, read_rest,
  read_frame, write_all, write_frame,
}
use agent_runtime_sdk.Stream.Reading.{
  frame_bytes, Fits, from-to_be_bytes, check_size-Fits, read_rest-append, read_rest-cut,
}

module _ {C H : Type 0} where
  read_frame-cons :
      (a : ℕ) (rest : List ℕ) (end : End)
      → read_frame {C = C} {H = H} (record { bytes = a ∷ rest; end = end })
        ≡ read_rest a (record { bytes = rest; end = end })
  unfolding read_frame read_first
  read_frame-cons a rest end = refl

  -- An empty reader gives no frame.
  read_frame-nil :
      (end : End) (body : List ℕ) (r' : Reader)
      → read_frame {C = C} {H = H} (record { bytes = []; end = end }) ≢ ok (some body, r')
  unfolding read_frame read_first
  read_frame-nil eof body r' h = cc
  read_frame-nil broken body r' h = cc
  read_frame-nil silent body r' h = cc

  pub read_frame-append :
      (body rest : List ℕ) (end : End)
      → Fits body
      → read_frame {C = C} {H = H} (record { bytes = frame_bytes body ++ rest; end = end })
        ≡ ok (some body, record { bytes = rest; end = end })
  unfolding to_be_bytes
  read_frame-append body rest end fits =
      let n = length body in
      let size = from-to_be_bytes n (omega (arith, fits)) in
      let r : Reader = record {
        bytes = n / 65536 % 256 ∷ n / 256 % 256 ∷ n % 256 ∷ body ++ rest;
        end = end;
      } in
      read_frame-cons (n / 16777216 % 256) r.bytes end
      ∙ read_rest-append (n / 16777216 % 256) (n / 65536 % 256) (n / 256 % 256) (n % 256) body rest
          r size fits refl

  read_frame-cut :
      (bytes : List ℕ) (end : End) (r' : Reader) (body : List ℕ)
      → All (λ x. x < 256) bytes
      → read_frame {C = C} {H = H} (record { bytes = bytes; end = end }) ≡ ok (some body, r')
      → Fits body × (bytes ≡ frame_bytes body ++ r'.bytes) × (r'.end ≡ end)
  read_frame-cut [] end r' body all h = absurd (read_frame-nil end body r' h)
  read_frame-cut (a ∷ rest) end r' body all h =
      read_rest-cut a body (record { bytes = rest; end = end }) r' all.0 all.1
        (sym (read_frame-cons a rest end) ∙ h)

  -- What `read_frame` reads is what `write_frame` writes: a body is returned exactly when the reader's
  -- bytes start with the prefix of its length and the body itself, whose length is from 1 to the limit,
  -- and the bytes after it are left, for any reader of bytes.
  pub read_frame_iff :
      (r r' : Reader) (body : List ℕ)
      → All (λ x. x < 256) r.bytes
      → (read_frame {C = C} {H = H} r ≡ ok (some body, r'))
        ↔ (Fits body × (r.bytes ≡ frame_bytes body ++ r'.bytes) × (r'.end ≡ r.end))
  read_frame_iff r r' body bytes_small = (
    λ h. read_frame-cut r.bytes r.end r' body bytes_small h,
    λ h.
        let (fits, bytes, end) = h in
        subst
          (λ t. read_frame {C = C} {H = H} (record { bytes = t; end = r.end }) ≡ ok (some body, r'))
          (sym bytes) (rw (sym end) (read_frame-append body r'.bytes r'.end fits)),
  )

  write_all-ok :
      (bytes : List ℕ) (w : Writer)
      → length bytes ≤ w.room
      → write_all {C = C} {H = H} bytes w
        ≡ (record { written = w.written ++ bytes; room = w.room - length bytes }, ok tt)
  unfolding write_all
  write_all-ok bytes w room =
      let whole = take_of_length-le w.room bytes room in
      let fits = ge→ltb w.room (length bytes) room in rw (whole, fits) refl

  write_frame-ok :
      (body : List ℕ) (w : Writer)
      → Fits body
      → 4 + length body ≤ w.room
      → write_frame {C = C} {H = H} body w ≡ (
        record {
          written = (w.written ++ to_be_bytes (length body)) ++ body;
          room = w.room - 4 - length body;
        },
        ok tt,
      )
  unfolding write_frame to_be_bytes
  write_frame-ok body w fits room =
      let n = length body in
      let passes : check_size {C = C} {H = H} (length body) ≡ ok tt = check_size-Fits body fits in
      let small : ltb u32_max n ≡ false = ge→ltb u32_max n (omega (arith, fits)) in
      let prefix = to_be_bytes n in
      let first = write_all-ok prefix w (omega arith) in
      let second =
        write_all-ok body (record { written = w.written ++ prefix; room = w.room - 4 })
          (omega arith) in
      rw (passes, small, first, write_frame) (rw (first, second) refl)

  -- A body of a valid length that a writer with enough room is given is written, and after what the
  -- writer held before come bytes from which `read_frame` returns the same body, whatever follows them,
  -- leaving exactly what follows.
  pub write_frame-read_frame :
      (body rest : List ℕ) (w : Writer) (end : End)
      → Fits body
      → 4 + length body ≤ w.room
      → ((write_frame {C = C} {H = H} body w).1 ≡ ok tt)
        × (frame : List ℕ) × ((write_frame {C = C} {H = H} body w).0.written ≡ w.written ++ frame)
        × (read_frame {C = C} {H = H} (record { bytes = frame ++ rest; end = end })
            ≡ ok (some body, record { bytes = rest; end = end }))
  write_frame-read_frame body rest w end fits room =
      let done = write_frame-ok body w fits room in
      (
        rw done refl,
        frame_bytes body,
        rw done (append_assoc w.written (to_be_bytes (length body)) body),
        read_frame-append body rest end fits,
      )
