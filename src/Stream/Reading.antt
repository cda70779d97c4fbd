-- ===== src/Stream/Reading.antt =====
-- src/protocol_stream.rs: the parts of `read_frame` on the bytes of a frame.
use agent_runtime_sdk.Prelude.{
  ℕ, length, bytes, ◌+◌, ◌*◌, ◌/◌, ◌%◌, ◌≤◌, ◌<◌, ◌≡◌, refl, List, [], ◌∷◌, ◌++◌, arith, All, some,
  All-split, subst, ◌∙◌, inl, inr, leb, leb→le, Bool-cases, take, drop, length-append, all, some,
}
use agent_runtime_sdk.Prelude.Slices.{take-append_length, drop-append_length, cut_lem}
use agent_runtime_sdk.Prelude.Result.{ok, bind_ok}
use agent_runtime_sdk.Prelude.Words.{u32_max}
use agent_runtime_sdk.Stream.Frames.{
  max_protocol_frame_bytes, Reader, to_be_bytes, from_be_bytes, prefix_size, check_size, read_exact,
  read_rest,
}

-- The bytes of a frame on the stream.
abbrev pub frame_bytes : List ℕ → List ℕ
frame_bytes body = to_be_bytes (length body) ++ body

abbrev pub Fits : List ℕ → Type 0
Fits body = (0 < length body) × (length body ≤ max_protocol_frame_bytes)

pub from-to_be_bytes :
    (n : ℕ)
    → n ≤ u32_max
    → from_be_bytes (n / 16777216 % 256) (n / 65536 % 256) (n / 256 % 256) (n % 256) ≡ n
unfolding from_be_bytes
from-to_be_bytes n h = omega arith

to-from_be_bytes :
    (a b c d : ℕ)
    → a < 256
    → b < 256
    → c < 256
    → d < 256
    → to_be_bytes (from_be_bytes a b c d) ≡ a ∷ b ∷ c ∷ d ∷ []
unfolding to_be_bytes from_be_bytes
to-from_be_bytes a b c d ha hb hc hd =
    let n = a * 16777216 + b * 65536 + c * 256 + d in
    let pa : n / 16777216 % 256 ≡ a = omega arith in
    let pb : n / 65536 % 256 ≡ b = omega arith in
    let pc : n / 256 % 256 ≡ c = omega arith in
    let pd : n % 256 ≡ d = omega arith in rw (pa, pb, pc, pd) refl

module _ {C H : Type 0} where
  pub check_size-Fits :
      (body : List ℕ) → Fits body → check_size {C = C} {H = H} (length body) ≡ ok tt
  unfolding check_size
  check_size-Fits body fits = ground (arith, fits)

  read_exact-append :
      (body rest : List ℕ) (r : Reader)
      → r.bytes ≡ body ++ rest
      → read_exact {C = C} {H = H} (length body) r ≡ ok (body, record r { bytes = rest })
  unfolding read_exact
  read_exact-append body rest r e =
      let enough : length body ≤ length r.bytes = rw e (omega (arith, length-append body rest)) in
      let taken : take (length body) r.bytes ≡ body = rw e (take-append_length body rest) in
      let left : drop (length body) r.bytes ≡ rest = rw e (drop-append_length body rest) in
      ground (arith, enough, taken, left)

  read_exact-cut :
      (n : ℕ) (r r' : Reader) (body : List ℕ)
      → read_exact {C = C} {H = H} n r ≡ ok (body, r')
      → (length body ≡ n) × (r.bytes ≡ body ++ r'.bytes) × (r'.end ≡ r.end)
  unfolding read_exact
  read_exact-cut n r r' body h = elim (Bool-cases (leb n (length r.bytes))) [
    | inl enough ↦
        let both = cut_lem n r.bytes (leb→le n (length r.bytes) enough) in ground (arith, both)
    | inr few ↦ ground arith
  ]

  pub read_rest-append :
      (a b c d : ℕ) (body rest : List ℕ) (r : Reader)
      → from_be_bytes a b c d ≡ length body
      → Fits body
      → r.bytes ≡ b ∷ c ∷ d ∷ body ++ rest
      → read_rest {C = C} {H = H} a r ≡ ok (some body, record r { bytes = rest })
  unfolding read_rest prefix_size
  read_rest-append a b c d body rest r size fits e =
      let first = read_exact-append (b ∷ c ∷ d ∷ []) (body ++ rest) r e in
      let second = read_exact-append body rest (record r { bytes = body ++ rest }) refl in
      let passes = check_size-Fits body fits in rw first (rw (size, passes, second) refl)

  check_size-passed :
      (size : ℕ) (passed : Unit {0})
      → check_size {C = C} {H = H} size ≡ ok passed
      → (0 < size) × (size ≤ max_protocol_frame_bytes)
  unfolding check_size
  check_size-passed size passed h = ground arith

  -- The body that a valid prefix announces.
  read_body-cut :
      (a : ℕ) (prefix body : List ℕ) (r r' : Reader)
      → a < 256
      → All (λ x. x < 256) prefix
      → length prefix ≡ 3
      → read_exact {C = C} {H = H} (prefix_size a prefix) r ≡ ok (body, r')
      → (a ∷ prefix ++ r.bytes ≡ frame_bytes body ++ r'.bytes)
        × (length body ≡ prefix_size a prefix)
        × (r'.end ≡ r.end)
  unfolding prefix_size
  read_body-cut a (b ∷ c ∷ d ∷ []) body r r' ha (hb, (hc, (hd, _))) three h =
      let (size, bytes, end) = read_exact-cut (from_be_bytes a b c d) r r' body h in
      let announced : to_be_bytes (length body) ≡ a ∷ b ∷ c ∷ d ∷ [] =
        rw size (to-from_be_bytes a b c d ha hb hc hd) in
      (rw (bytes, announced) refl, size, end)
  read_body-cut a [] body r r' ha bounded three h = absurd (omega arith)
  read_body-cut a (b ∷ []) body r r' ha bounded three h = absurd (omega arith)
  read_body-cut a (b ∷ c ∷ []) body r r' ha bounded three h = absurd (omega arith)
  read_body-cut a (b ∷ c ∷ d ∷ e ∷ rest) body r r' ha bounded three h = absurd (omega arith)

  pub read_rest-cut :
      (a : ℕ) (body : List ℕ) (r r' : Reader)
      → a < 256
      → All (λ x. x < 256) r.bytes
      → read_rest {C = C} {H = H} a r ≡ ok (some body, r')
      → Fits body × (a ∷ r.bytes ≡ frame_bytes body ++ r'.bytes) × (r'.end ≡ r.end)
  unfolding read_rest
  read_rest-cut a body r r' ha all h =
      let (prefix, cut, next) = bind_ok (read_exact 3 r) _ (some body, r') h in
      let size = prefix_size a prefix.0 in
      let (passed, valid, last) = bind_ok (check_size size) _ (some body, r') next in
      let (found, taken, same) = bind_ok (read_exact size prefix.1) _ (some body, r') last in
      let whole : read_exact {C = C} {H = H} size prefix.1 ≡ ok (body, r') = cc in
      let (three, bytes, end) = read_exact-cut 3 r prefix.1 prefix.0 cut in
      let bounded =
        All-split (λ x. x < 256) prefix.0 prefix.1.bytes (subst (All (λ x. x < 256)) bytes all) in
      let (read, announced, kept) =
        read_body-cut a prefix.0 body prefix.1 r' ha bounded.0 three whole in
      let (some_bytes, few) = check_size-passed size passed valid in
      ((omega (arith, announced), omega (arith, announced)), rw bytes read, kept ∙ end)
