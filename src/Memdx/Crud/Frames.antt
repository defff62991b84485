-- ===== src/Memdx/Crud/Frames.antt =====
-- The framing extras of a request, from `encode_req_ext_frames`.
use couchbase_rs.Prelude.{
  ℕ, ◌+◌, ◌≤◌, ◌<◌, ◌≡◌, ◌≢◌, true, List, [], ◌∷◌, ◌++◌, Option, none, some, ok, length, take, drop,
  arith, length-take_le, take-append-drop, lt→ltb,
}
use couchbase_rs.Memdx.FrameCode.{
  ExtReqFrameCode, ext_res_frame_code_from_u16, u16_from_ext_req_frame_code,
}
use couchbase_rs.Memdx.Magic.{req_ext}
use couchbase_rs.Memdx.ExtFrame.{append_ext_frame, decode_ext_frame}
use couchbase_rs.Memdx.ExtFrame.Durability.{
  DurabilityLevel, other, encode_durability_ext_frame, decode_durability_level_ext_frame,
  sent_timeout, encode_durability_short, IsSendable, decode-encode_durability,
}
use couchbase_rs.Memdx.ExtFrame.Frames.{append_ext_frame_short}
use couchbase_rs.Memdx.ExtFrame.RoundTrip.{decode_short}
use couchbase_rs.Memdx.Crud.{OpsCrud, encode_req_ext_frames}

written :
    (self : OpsCrud) (level : DurabilityLevel) (timeout : Option ℕ) (body buf buf' : List ℕ)
    (used : ℕ)
    → self.durability_enabled ≡ true
    → self.ext_frames_enabled ≡ true
    → encode_durability_ext_frame level timeout ≡ ok body
    → 0 < used
    → append_ext_frame ExtReqFrameCode.durability body buf 0 ≡ ok (buf', used)
    → encode_req_ext_frames self (some level) timeout none none buf ≡ ok (req_ext, used, buf')
unfolding encode_req_ext_frames
written self level timeout body buf buf' used on frames e pos e' =
    rw (on, e, e', lt→ltb 0 used pos, frames)

appended :
    (body : List ℕ) (slot : ℕ) (buf : List ℕ)
    → length body < 15
    → length body ≤ length buf
    → append_ext_frame ExtReqFrameCode.durability body (slot ∷ buf) 0
      ≡ ok ((16 + length body) ∷ (body ++ drop (length body) buf), 1 + length body)
unfolding u16_from_ext_req_frame_code
appended body slot buf short size = rw (take-append-drop (length body) buf) at (
    append_ext_frame_short ExtReqFrameCode.durability body [] (take (length body) buf)
      (drop (length body) buf) slot (omega arith) short (length-take_le (length body) buf size))

-- With durability and framing extras enabled and no other frame asked for, a named durability
-- level, with no timeout or one of at most 65535 ms, reaches the wire in a buffer of four bytes or
-- more: the request is marked as extended, and the buffer starts with a frame whose body decodes
-- to that level and to the timeout in whole milliseconds.
pub durability_sent :
    (self : OpsCrud) (level : DurabilityLevel) (timeout : Option ℕ) (slot : ℕ) (buf : List ℕ)
    → self.durability_enabled ≡ true
    → self.ext_frames_enabled ≡ true
    → ((n : ℕ) → level ≢ other n)
    → IsSendable timeout
    → 3 ≤ length buf
    → (used : ℕ) × (sent body : List ℕ) × (encode_req_ext_frames self
          (some level)
          timeout
          none
          none
          (slot ∷ buf)
        ≡ ok (req_ext, used, sent))
      × (decode_ext_frame sent ≡ ok (ext_res_frame_code_from_u16 1, body, used))
      × (decode_durability_level_ext_frame body
          ≡ ok (record { durability_level = level; timeout = sent_timeout timeout }))
durability_sent self level timeout slot buf on frames named sendable size =
    let (body, e, short) = encode_durability_short level timeout sendable in
    (
      1 + length body,
      (16 + length body) ∷ (body ++ drop (length body) buf),
      body,
      written self level timeout body (slot ∷ buf) _ (1 + length body) on frames e (omega arith)
          (appended body slot buf (omega arith) (omega arith)),
      decode_short 1 body (drop (length body) buf) (omega arith) (omega arith),
      cc (decode-encode_durability level timeout named sendable),
    )
