-- ===== src/Memdx/ExtFrame/RoundTrip.antt =====
-- `decode_ext_frame` of what `append_ext_frame` wrote, for short bodies and for long ones.
use Prim.Native.Nat.{bit_and}
use couchbase_rs.Prelude.{
  ℕ, zero, suc, [], ap, sym, ◌≢◌, length-take_le, ◌+◌, ◌-◌, ◌*◌, ◌/◌, ◌^◌, ◌≤◌, ◌<◌, ◌≡◌, ◌∙◌, List,
  ◌∷◌, ◌++◌, ok, length, take, arith, le→ltb, length-append, take-append_length, take-append_le,
}
use couchbase_rs.Prelude.Bits.{high_nibble, low_nibble}
use couchbase_rs.Memdx.FrameCode.{
  ExtReqFrameCode, ext_res_frame_code_from_u16, u16_from_ext_req_frame_code,
}
use couchbase_rs.Memdx.ExtFrame.{extended_nibble, decode_ext_frame, append_ext_frame}
use couchbase_rs.Memdx.ExtFrame.Frames.{append_ext_frame_short, append_ext_frame_extended}

extended_nibble-lt :
    (buf : List ℕ) (nibble pos : ℕ)
    → nibble < 15
    → extended_nibble buf nibble pos ≡ ok (nibble, pos)
unfolding extended_nibble
extended_nibble-lt buf nibble pos h = ground arith

code_nibble : (code low : ℕ) → code < 15 → low < 16 → bit_and (code * 16 + low) 0xf0 / 2 ^ 4 ≡ code
code_nibble code low h k = high_nibble (code * 16 + low) (omega arith) ∙ omega arith

len_nibble : (code low : ℕ) → low < 16 → bit_and (code * 16 + low) 0x0f ≡ low
len_nibble code low k = low_nibble (code * 16 + low) ∙ omega arith

pub decode_short :
    (code : ℕ) (body rest : List ℕ)
    → code < 15
    → length body < 15
    → decode_ext_frame ((code * 16 + length body) ∷ (body ++ rest))
      ≡ ok (ext_res_frame_code_from_u16 code, body, 1 + length body)
unfolding decode_ext_frame
decode_short code body rest h k = rw (
  code_nibble code (length body) h (omega arith),
  len_nibble code (length body) (omega arith),
  extended_nibble-lt _ code 1 h,
  extended_nibble-lt _ (length body) 1 k,
  le→ltb (suc (length (body ++ rest))) (1 + length body) (omega (arith, length-append body rest)),
  take-append_length body rest,
)

-- A frame whose code and length are below 15, written into a buffer with room, is read back from
-- where it was written: its code, its body and its length, whatever stands behind it.
pub decode-append_ext_frame :
    (code : ExtReqFrameCode) (body front room back : List ℕ) (slot : ℕ)
    → u16_from_ext_req_frame_code code < 15
    → length body < 15
    → length room ≡ length body
    → (frame : List ℕ) × (append_ext_frame code body (front ++ slot ∷ (room ++ back)) (length front)
        ≡ ok (front ++ (frame ++ back), length front + length frame))
      × (decode_ext_frame (frame ++ back)
          ≡ ok (ext_res_frame_code_from_u16 (u16_from_ext_req_frame_code code), body, length frame))
decode-append_ext_frame code body front room back slot h k e = (
  (u16_from_ext_req_frame_code code * 16 + length body) ∷ body,
  append_ext_frame_short code body front room back slot h k e ∙ ground arith,
  decode_short (u16_from_ext_req_frame_code code) body back h k ∙ ground arith,
)

-- A body of 15 to 29 bytes is written with a two-byte extended length, of which the decoder takes
-- one byte, the zero: it reads a body of 15 bytes that begins with the other byte.
decode_long :
    (code : ℕ) (body rest : List ℕ)
    → code < 15
    → 15 ≤ length body
    → length body < 30
    → decode_ext_frame ((code * 16 + 15) ∷ 0 ∷ (length body - 15) ∷ (body ++ rest))
      ≡ ok (ext_res_frame_code_from_u16 code, (length body - 15) ∷ take 14 body, 17)
unfolding decode_ext_frame
decode_long code body rest h k l = rw (
  code_nibble code 15 h (omega arith),
  len_nibble code 15 (omega arith),
  extended_nibble-lt _ code 1 h,
  le→ltb (suc (suc (suc (length (body ++ rest))))) 2 (omega arith),
  le→ltb (suc (suc (suc (length (body ++ rest))))) 17 (omega (arith, length-append body rest)),
  take-append_le 14 body rest (omega arith),
)

abbrev pub zeros : ℕ → List ℕ
zeros zero = []
zeros (suc n) = 0 ∷ zeros n

-- A list that is a zero and its own beginning is all zeros.
shifted :
    (n : ℕ) (bytes : List ℕ)
    → length bytes ≡ suc n
    → bytes ≡ 0 ∷ take n bytes
    → bytes ≡ zeros (suc n)
shifted n [] size same = absurd (grind arith)
shifted zero (b ∷ []) size same = same
shifted zero (b ∷ c ∷ rest) size same = absurd (grind arith)
shifted (suc n) (b ∷ rest) size same =
    let first : b ≡ 0 = cc in
    let others : rest ≡ take (suc n) (b ∷ rest) = cc in
    ap (λ r. b ∷ r)
      (shifted n rest (omega (arith, size)) (others ∙ ap (λ x. x ∷ take n rest) first))
    ∙ ap (λ x. x ∷ zeros (suc n)) first

all_zero :
    (body : List ℕ) → 15 ≤ length body → (length body - 15) ∷ take 14 body ≡ body → body ≡ zeros 15
all_zero body k same =
    let size : length body ≡ 15 =
      omega (arith, ap length same, length-take_le 14 body (omega arith)) in
    shifted 14 body size (sym same ∙ ap (λ n. n ∷ take 14 body) (omega (arith, size)))

-- Where a body of 15 to 29 bytes goes, for a code below 15 and a buffer with room:
-- `append_ext_frame` writes a two-byte extended length of which `decode_ext_frame` takes the first
-- byte, the zero. It reads a frame of 15 bytes instead, the other length byte and the first 14
-- bytes of the body; these are not the body, unless it is 15 bytes that are all zero.
pub append_ext_frame_long :
    (code : ExtReqFrameCode) (body front room back : List ℕ) (slot r₁ r₂ : ℕ)
    → u16_from_ext_req_frame_code code < 15
    → 15 ≤ length body
    → length body < 30
    → length room ≡ length body
    → (frame : List ℕ) × (append_ext_frame code body
          (front ++ slot ∷ r₁ ∷ r₂ ∷ (room ++ back))
          (length front)
        ≡ ok (front ++ (frame ++ back), length front + length frame))
      × (decode_ext_frame (frame ++ back)
          ≡ ok (
            ext_res_frame_code_from_u16 (u16_from_ext_req_frame_code code),
            (length body - 15) ∷ take 14 body,
            17,
          ))
      × (body ≢ zeros 15 → (length body - 15) ∷ take 14 body ≢ body)
append_ext_frame_long code body front room back slot r₁ r₂ h k l e = (
  (u16_from_ext_req_frame_code code * 16 + 15) ∷ 0 ∷ (length body - 15) ∷ body,
  append_ext_frame_extended code body front room back slot r₁ r₂ h k l e ∙ ground arith,
  decode_long (u16_from_ext_req_frame_code code) body back h k l,
  λ some_byte same. some_byte (all_zero body k same),
)
