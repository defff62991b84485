-- ===== src/Memdx/ExtFrame/Frames.antt =====
-- What `append_ext_frame` writes, and what `decode_ext_frame` reads.
use Prim.Native.Nat.{bit_and, bit_or}
use couchbase_rs.Prelude.{
  ℕ, ◌+◌, ◌-◌, ◌*◌, ◌/◌, ◌%◌, ◌^◌, ◌≤◌, ◌<◌, ◌≡◌, refl, ◌∙◌, List, [], ◌∷◌, ◌++◌, ok, length, drop,
  arith, lt→ltb, le→ltb, lt→leb, length-append, take-append_length, drop-append_length,
  append_assoc,
}
use couchbase_rs.Prelude.Bits.{low_nibble, or_nibbles, zero_or}
use couchbase_rs.Memdx.FrameCode.{ExtReqFrameCode, u16_from_ext_req_frame_code}
use couchbase_rs.Memdx.ExtFrame.{
  index, copy_at, or_at, append_code, append_len, append_body, append_ext_frame, to_be_bytes_16,
}

-- A write of `bytes` over as many bytes of room.
copy_at-append :
    (front room back bytes : List ℕ)
    → length room ≡ length bytes
    → copy_at (front ++ (room ++ back)) (length front) bytes ≡ ok (front ++ (bytes ++ back))
unfolding copy_at
copy_at-append front room back bytes e = rw (
  le→ltb (length (front ++ (room ++ back))) (length front + length bytes)
      (omega (arith, length-append front (room ++ back), length-append room back)),
  take-append_length front (room ++ back),
  cut,
)
  where
    end : length front + length bytes ≡ length (front ++ room)
    end = omega (arith, length-append front room)

    cut : drop (length front + length bytes) (front ++ (room ++ back)) ≡ back
    cut = rw (end, ← append_assoc front room back) (drop-append_length (front ++ room) back)

index-append :
    (front : List ℕ) (b : ℕ) (back : List ℕ) → index (front ++ b ∷ back) (length front) ≡ ok b
unfolding index
index-append [] b back = refl
index-append (x ∷ front) b back = index-append front b back

or_at-append :
    (front : List ℕ) (b mask : ℕ) (back : List ℕ)
    → or_at (front ++ b ∷ back) (length front) mask ≡ ok (front ++ bit_or b mask ∷ back)
unfolding or_at
or_at-append front b mask back =
    rw (index-append front b back) (copy_at-append front (b ∷ []) back (bit_or b mask ∷ []) refl)

append_code-lt :
    (code offset : ℕ) (front back : List ℕ)
    → code < 15
    → append_code code (front ++ 0 ∷ back) (length front) offset
      ≡ ok (front ++ (code * 16) ∷ back, offset)
unfolding append_code
append_code-lt code offset front back h =
    rw (lt→ltb code 15 h, or_at-append front 0 (bit_and code 0x0f * 2 ^ 4 % 2 ^ 8) back, upper)
  where
    upper : bit_or 0 (bit_and code 0x0f * 2 ^ 4 % 2 ^ 8) ≡ code * 16
    upper = rw (low_nibble code, zero_or (code % 16 * 2 ^ 4 % 2 ^ 8) (omega arith)) (omega arith)

append_len-lt :
    (code len offset : ℕ) (front back : List ℕ)
    → code < 15
    → len < 15
    → append_len len (front ++ (code * 16) ∷ back) (length front) offset
      ≡ ok (front ++ (code * 16 + len) ∷ back, offset)
unfolding append_len
append_len-lt code len offset front back h k =
    rw (lt→ltb len 15 k, or_at-append front (code * 16) (bit_and (len % 2 ^ 8) 0xf) back, lower)
  where
    small : bit_and (len % 2 ^ 8) 0xf ≡ len
    small = rw (low_nibble (len % 2 ^ 8)) (omega arith)

    lower : bit_or (code * 16) (bit_and (len % 2 ^ 8) 0xf) ≡ code * 16 + len
    lower = rw small (or_nibbles code len (omega arith) (omega arith))

append_body-append :
    (body front room back : List ℕ)
    → length room ≡ length body
    → append_body body (front ++ (room ++ back)) (length front)
      ≡ ok (front ++ (body ++ back), length front + length body)
unfolding append_body
append_body-append [] front [] back e = ground arith
append_body-append [] front (r ∷ room) back e = absurd (omega arith)
append_body-append (b ∷ body) front room back e = rw (
  lt→ltb 0 (length (b ∷ body)) (omega arith),
  le→ltb (length (front ++ (room ++ back))) (length front + length (b ∷ body))
      (omega (arith, length-append front (room ++ back), length-append room back)),
  copy_at-append front room back (b ∷ body) e,
)

-- A frame whose code and length fit a nibble each is written as one header byte and the body, over
-- as many bytes of the buffer; the bytes before and behind it stay.
pub append_ext_frame_short :
    (code : ExtReqFrameCode) (body front room back : List ℕ) (slot : ℕ)
    → u16_from_ext_req_frame_code code < 15
    → length body < 15
    → length room ≡ length body
    → append_ext_frame code body (front ++ slot ∷ (room ++ back)) (length front)
      ≡ ok (
        front ++ (u16_from_ext_req_frame_code code * 16 + length body) ∷ (body ++ back),
        length front + 1 + length body,
      )
unfolding append_ext_frame
append_ext_frame_short code body front room back slot h k e =
    rw
      (
        lt→leb (length (front ++ slot ∷ (room ++ back))) (length front)
            (omega (arith, length-append front (slot ∷ (room ++ back)))),
        copy_at-append front (slot ∷ []) (room ++ back) (0 ∷ []) refl,
        append_code-lt c (length front + 1) front (room ++ back) h,
        append_len-lt c (length body) (length front + 1) front (room ++ back) h k,
      )
      (rw (next, ← append_assoc front (header ∷ []) (room ++ back))
        (append_body-append body (front ++ header ∷ []) room back e
          ∙ rw (append_assoc front (header ∷ []) (body ++ back), ← next)))
  where
    c : ℕ
    c = u16_from_ext_req_frame_code code

    header : ℕ
    header = c * 16 + length body

    next : length front + 1 ≡ length (front ++ header ∷ [])
    next = omega (arith, length-append front (header ∷ []))

append_len-ge :
    (code len r₁ r₂ : ℕ) (front back : List ℕ)
    → code < 15
    → 15 ≤ len
    → len < 30
    → append_len len (front ++ (code * 16) ∷ r₁ ∷ r₂ ∷ back) (length front) (length front + 1)
      ≡ ok (front ++ (code * 16 + 15) ∷ 0 ∷ (len - 15) ∷ back, length front + 1 + 2)
unfolding append_len
append_len-ge code len r₁ r₂ front back h k l = rw (
  le→ltb len 15 k,
  lt→leb 15 (len - 15) (omega arith),
  or_at-append front (code * 16) 0x0f (r₁ ∷ r₂ ∷ back),
  or_nibbles code 15 (omega arith) (omega arith),
  le→ltb (length (front ++ (code * 16) ∷ r₁ ∷ r₂ ∷ back)) (length front + 1 + 2)
      (omega (arith, length-append front ((code * 16) ∷ r₁ ∷ r₂ ∷ back))),
  next,
  ← append_assoc front (header ∷ []) (r₁ ∷ r₂ ∷ back),
  copy_at-append (front ++ header ∷ []) (r₁ ∷ r₂ ∷ []) back (to_be_bytes_16 (len - 15)) refl,
  append_assoc front (header ∷ []) (to_be_bytes_16 (len - 15) ++ back),
  high,
  low,
)
  where
    header : ℕ
    header = code * 16 + 15

    next : length front + 1 ≡ length (front ++ header ∷ [])
    next = omega (arith, length-append front (header ∷ []))

    high : (len - 15) / 2 ^ 8 % 2 ^ 8 ≡ 0
    high = omega arith

    low : (len - 15) % 2 ^ 8 ≡ len - 15
    low = omega arith

pub append_ext_frame_extended :
    (code : ExtReqFrameCode) (body front room back : List ℕ) (slot r₁ r₂ : ℕ)
    → u16_from_ext_req_frame_code code < 15
    → 15 ≤ length body
    → length body < 30
    → length room ≡ length body
    → append_ext_frame code body (front ++ slot ∷ r₁ ∷ r₂ ∷ (room ++ back)) (length front)
      ≡ ok (
        front
            ++ (u16_from_ext_req_frame_code code * 16 + 15)
              ∷ 0
              ∷ (length body - 15)
              ∷ (body ++ back),
        length front + 1 + 2 + length body,
      )
unfolding append_ext_frame
append_ext_frame_extended code body front room back slot r₁ r₂ h k l e =
    rw
      (
        lt→leb (length (front ++ slot ∷ r₁ ∷ r₂ ∷ (room ++ back))) (length front)
            (omega (arith, length-append front (slot ∷ r₁ ∷ r₂ ∷ (room ++ back)))),
        copy_at-append front (slot ∷ []) (r₁ ∷ r₂ ∷ (room ++ back)) (0 ∷ []) refl,
        append_code-lt c (length front + 1) front (r₁ ∷ r₂ ∷ (room ++ back)) h,
        append_len-ge c (length body) r₁ r₂ front (room ++ back) h k l,
      )
      (rw (next, ← append_assoc front head (room ++ back))
        (append_body-append body (front ++ head) room back e
          ∙ rw (append_assoc front head (body ++ back), ← next)))
  where
    c : ℕ
    c = u16_from_ext_req_frame_code code

    head : List ℕ
    head = (c * 16 + 15) ∷ 0 ∷ (length body - 15) ∷ []

    next : length front + 1 + 2 ≡ length (front ++ head)
    next = omega (arith, length-append front head)
