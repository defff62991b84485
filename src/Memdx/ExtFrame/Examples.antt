-- ===== src/Memdx/ExtFrame/Examples.antt =====
-- Runs of the frames and of the encodings in them.
use couchbase_rs.Prelude.{
  none, ℕ, ◌+◌, ◌*◌, ◌≤◌, ◌<◌, ◌≡◌, ◌≢◌, List, [], ◌∷◌, ◌++◌, some, ok, arith, length, take, drop,
  ◌>>=◌, ltb, if◌then◌else◌, ◌-◌,
}
use couchbase_rs.Memdx.FrameCode.{
  ExtReqFrameCode, u16_from_ext_req_frame_code, ext_res_frame_code_from_u16,
}
use couchbase_rs.Memdx.ExtFrame.{append_ext_frame, decode_ext_frame}
use couchbase_rs.Memdx.ExtFrame.Uleb.{make_uleb128_32, uleb_value, make_uleb128_32_lem}
use couchbase_rs.Memdx.ExtFrame.RoundTrip.{decode-append_ext_frame, append_ext_frame_long, zeros}
use couchbase_rs.Memdx.ExtFrame.Responses.{
  decode_res_ext_frames, is_server_duration, decode_res_ext_frames_first,
}
use couchbase_rs.Memdx.ExtFrame.Durability.{
  decode_server_duration_ext_frame, majority, other, encode_durability_ext_frame,
  decode_durability_level_ext_frame, sent_timeout, decode-encode_durability,
}

abbrev fifteen : List ℕ
fifteen = 1 ∷ 2 ∷ 3 ∷ 4 ∷ 5 ∷ 6 ∷ 7 ∷ 8 ∷ 9 ∷ 10 ∷ 11 ∷ 12 ∷ 13 ∷ 14 ∷ 15 ∷ []

durability_code_short : u16_from_ext_req_frame_code ExtReqFrameCode.durability < 15
unfolding u16_from_ext_req_frame_code
durability_code_short = omega arith

make_uleb128_32_example :
    (bytes : List ℕ) × (make_uleb128_32 300 (0 ∷ 0 ∷ 0 ∷ 0 ∷ 0 ∷ [])
      ≡ ok (bytes ++ drop (length bytes) (0 ∷ 0 ∷ 0 ∷ 0 ∷ 0 ∷ []), length bytes))
    × (length bytes ≤ (if ltb 300 128 then 1 else 5))
    × ((rest : List ℕ) → uleb_value (bytes ++ rest) ≡ some (300, rest))
make_uleb128_32_example =
    make_uleb128_32_lem 300 (0 ∷ 0 ∷ 0 ∷ 0 ∷ 0 ∷ []) (omega arith) (omega arith)

decode-append_ext_frame_example :
    (frame : List ℕ) × (append_ext_frame ExtReqFrameCode.durability
        (1 ∷ [])
        ((7 ∷ []) ++ 0 ∷ ((0 ∷ []) ++ 9 ∷ []))
        1
      ≡ ok ((7 ∷ []) ++ (frame ++ 9 ∷ []), 1 + length frame))
    × (decode_ext_frame (frame ++ 9 ∷ [])
        ≡ ok (
          ext_res_frame_code_from_u16 (u16_from_ext_req_frame_code ExtReqFrameCode.durability),
          1 ∷ [],
          length frame,
        ))
decode-append_ext_frame_example =
    decode-append_ext_frame ExtReqFrameCode.durability (1 ∷ []) (7 ∷ []) (0 ∷ []) (9 ∷ []) 0
      durability_code_short (omega arith) (omega arith)

append_ext_frame_long_example :
    (frame : List ℕ) × (append_ext_frame ExtReqFrameCode.durability fifteen
        ([] ++ 0 ∷ 0 ∷ 0 ∷ (fifteen ++ 9 ∷ []))
        0
      ≡ ok ([] ++ (frame ++ 9 ∷ []), 0 + length frame))
    × (decode_ext_frame (frame ++ 9 ∷ [])
        ≡ ok (
          ext_res_frame_code_from_u16 (u16_from_ext_req_frame_code ExtReqFrameCode.durability),
          (length fifteen - 15) ∷ take 14 fifteen,
          17,
        ))
    × (fifteen ≢ zeros 15 → (length fifteen - 15) ∷ take 14 fifteen ≢ fifteen)
append_ext_frame_long_example =
    append_ext_frame_long ExtReqFrameCode.durability fifteen [] fifteen (9 ∷ []) 0 0 0
      durability_code_short (omega arith) (omega arith) (omega arith)

majority_named : (n : ℕ) → majority ≢ other n
majority_named n e = grind arith

decode-encode_durability_example :
    (encode_durability_ext_frame majority (some 5000000) >>= decode_durability_level_ext_frame)
    ≡ ok (record { durability_level = majority; timeout = sent_timeout (some 5000000) })
decode-encode_durability_example =
    decode-encode_durability majority (some 5000000) majority_named (omega arith)

-- A frame of the read units, and the server's duration behind it.
decode_res_ext_frames_first_example :
    decode_res_ext_frames (λ n. n) ((1 * 16 + 2) ∷ ((7 ∷ 7 ∷ []) ++ 2 ∷ 0 ∷ 9 ∷ [])) ≡ (
      if is_server_duration (ext_res_frame_code_from_u16 1)
      then (decode_server_duration_ext_frame (λ n. n) (7 ∷ 7 ∷ []) >>= λ d. ok (some d))
      else ok none)
decode_res_ext_frames_first_example =
    decode_res_ext_frames_first (λ n. n) 1 (7 ∷ 7 ∷ []) (2 ∷ 0 ∷ 9 ∷ []) (omega arith) (omega arith)
