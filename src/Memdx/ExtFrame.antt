-- ===== src/Memdx/ExtFrame.antt =====
-- sdk/couchbase-core/src/memdx/extframe.rs: framing extras, which are typed fields in front of a
-- packet's body, and the variable-length collection id. A `Duration` is its nanoseconds.
mod Examples
pub mod Uleb
pub mod Durability
pub mod Frames
pub mod RoundTrip
pub mod Responses
use Prim.Native.Nat.{bit_and, bit_or}
use couchbase_rs.Prelude.{
  ℕ, zero, suc, ◌+◌, ◌-◌, ◌*◌, ◌/◌, ◌%◌, ◌^◌, Bool, true, false, List, [], ◌∷◌, ◌++◌, Option, none,
  some, Result, ok, err, panic, ◌>>=◌, ◌>>◌, guard, ltb, leb, ◌==◌, not, ◌&&◌, if◌then◌else◌,
  length, take, drop, get_elem?, arith,
}
use couchbase_rs.Memdx.Error.{Error, invalid_argument, protocol, message}
use couchbase_rs.Memdx.FrameCode.{
  ExtReqFrameCode, ExtResFrameCode, ext_res_frame_code_from_u16, u16_from_ext_req_frame_code,
}

-- `buf[i]`
unfoldable pub index : List ℕ → ℕ → Result Error ℕ
index [] i = panic
index (b ∷ bs) zero = ok b
index (b ∷ bs) (suc i) = index bs i

-- `a + b` on `u8`, which panics above 255 where overflow is checked.
unfoldable pub checked_add_u8 : ℕ → ℕ → Result Error ℕ
checked_add_u8 a b = if ltb (a + b) (2 ^ 8) then ok (a + b) else panic

abbrev pub unexpected_eof : Error
unexpected_eof = protocol "unexpected eof decoding ext frame"

-- A nibble of 15 is followed by a byte that is added to it: the value, and the next position.
unfoldable pub extended_nibble : List ℕ → ℕ → ℕ → Result Error (ℕ × ℕ)
unfolding index checked_add_u8
extended_nibble buf nibble buf_pos =
    if nibble == 15
    then (do
      guard (not (ltb (length buf) (buf_pos + 1))) unexpected_eof
      ext ← index buf buf_pos
      value ← checked_add_u8 15 ext
      ok (value, buf_pos + 1))
    else ok (nibble, buf_pos)

-- `decode_ext_frame`: the code, the body and the length of the first frame.
pub decode_ext_frame : List ℕ → Result Error (ExtResFrameCode × List ℕ × ℕ)
unfolding extended_nibble
decode_ext_frame [] = err (protocol "empty value buffer when decoding ext frame")
decode_ext_frame (frame_header ∷ bytes) = do
  let buf : List ℕ = frame_header ∷ bytes
  (u_frame_code, code_end) ← extended_nibble buf (bit_and frame_header 0xf0 / 2 ^ 4) 1
  (frame_len, len_end) ← extended_nibble buf (bit_and frame_header 0x0f) code_end
  guard (not (ltb (length buf) (len_end + frame_len))) unexpected_eof
  ok (
    ext_res_frame_code_from_u16 u_frame_code,
    take frame_len (drop len_end buf),
    len_end + frame_len,
  )

-- `&mut buf[offset..offset + bytes.len()]` gets the bytes; out of range it panics.
unfoldable pub copy_at : List ℕ → ℕ → List ℕ → Result Error (List ℕ)
copy_at buf offset bytes =
    if ltb (length buf) (offset + length bytes)
    then panic
    else ok (take offset buf ++ (bytes ++ drop (offset + length bytes) buf))

-- `buf[i] |= mask`
unfoldable pub or_at : List ℕ → ℕ → ℕ → Result Error (List ℕ)
unfolding index copy_at
or_at buf i mask = do b ← index buf i; copy_at buf i (bit_or b mask ∷ [])

abbrev pub frame_overflow : Error
frame_overflow = invalid_argument "buffer overflow" (some "ext frame")

unfoldable pub to_be_bytes_16 : ℕ → List ℕ
to_be_bytes_16 v = (v / 2 ^ 8 % 2 ^ 8) ∷ (v % 2 ^ 8) ∷ []

-- The code, in the upper nibble of the header or behind it.
unfoldable pub append_code : ℕ → List ℕ → ℕ → ℕ → Result Error (List ℕ × ℕ)
unfolding to_be_bytes_16
append_code u_frame_code buf hdr offset =
    if ltb u_frame_code 15
    then (do buf' ← or_at buf hdr (bit_and u_frame_code 0x0f * 2 ^ 4 % 2 ^ 8); ok (buf', offset))
    else (do
      guard (not (leb 15 (u_frame_code - 15)))
          (invalid_argument "ext frame code too large to encode" (some "ext frame"))
      buf₁ ← or_at buf hdr 0xf0
      guard (not (ltb (length buf) (offset + 2))) frame_overflow
      buf₂ ← copy_at buf₁ offset (to_be_bytes_16 u_frame_code)
      ok (buf₂, offset + 2))

-- The length, in the lower nibble of the header or behind it.
unfoldable pub append_len : ℕ → List ℕ → ℕ → ℕ → Result Error (List ℕ × ℕ)
unfolding to_be_bytes_16
append_len frame_len buf hdr offset =
    if ltb frame_len 15
    then (do buf' ← or_at buf hdr (bit_and (frame_len % 2 ^ 8) 0xf); ok (buf', offset))
    else (do
      guard (not (leb 15 (frame_len - 15)))
          (invalid_argument "ext frame len too large to encode" (some "ext frame"))
      buf₁ ← or_at buf hdr 0x0f
      guard (not (ltb (length buf) (offset + 2))) frame_overflow
      buf₂ ← copy_at buf₁ offset (to_be_bytes_16 (frame_len - 15))
      ok (buf₂, offset + 2))

unfoldable pub append_body : List ℕ → List ℕ → ℕ → Result Error (List ℕ × ℕ)
append_body frame_body buf offset =
    if ltb 0 (length frame_body)
    then (do
      guard (not (ltb (length buf) (offset + length frame_body))) frame_overflow
      buf' ← copy_at buf offset frame_body
      ok (buf', offset + length frame_body))
    else ok (buf, offset)

-- `append_ext_frame`: the buffer and the offset behind the frame. An error passes to callers that
-- give the buffer up, so what is in it then is left out.
pub append_ext_frame : ExtReqFrameCode → List ℕ → List ℕ → ℕ → Result Error (List ℕ × ℕ)
unfolding append_code append_len append_body
append_ext_frame frame_code frame_body buf offset = do
  guard (not (leb (length buf) offset)) frame_overflow
  buf₀ ← copy_at buf offset (0 ∷ [])
  (buf₁, offset₁) ← append_code (u16_from_ext_req_frame_code frame_code) buf₀ offset (offset + 1)
  (buf₂, offset₂) ← append_len (length frame_body) buf₁ offset offset₁
  append_body frame_body buf₂ offset₂
