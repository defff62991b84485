-- ===== src/Memdx/FrameCode.antt =====
-- sdk/couchbase-core/src/memdx/ext_frame_code.rs: the codes of framing extras.
use couchbase_rs.Prelude.{ℕ, List, [], ◌∷◌}
use couchbase_rs.Prelude.Codes.{from_code}

pub data ExtResFrameCode : Type 0 where
  server_duration read_units write_units throttle_duration : ExtResFrameCode
  unknown : ℕ → ExtResFrameCode

unfoldable pub u16_from_ext_res_frame_code : ExtResFrameCode → ℕ
u16_from_ext_res_frame_code server_duration = 0x00
u16_from_ext_res_frame_code read_units = 0x01
u16_from_ext_res_frame_code write_units = 0x02
u16_from_ext_res_frame_code throttle_duration = 0x03
u16_from_ext_res_frame_code (unknown code) = code

unfoldable pub ext_res_frame_code_arms : List (ℕ × ExtResFrameCode)
ext_res_frame_code_arms =
    (0x00, server_duration)
    ∷ (0x01, read_units)
    ∷ (0x02, write_units)
    ∷ (0x03, throttle_duration)
    ∷ []

unfoldable pub ext_res_frame_code_from_u16 : ℕ → ExtResFrameCode
ext_res_frame_code_from_u16 = from_code ext_res_frame_code_arms ExtResFrameCode.unknown

pub data ExtReqFrameCode : Type 0 where
  barrier durability stream_id otel_context on_behalf_of preserve_ttl extra_perm : ExtReqFrameCode
  unknown : ℕ → ExtReqFrameCode

unfoldable pub u16_from_ext_req_frame_code : ExtReqFrameCode → ℕ
u16_from_ext_req_frame_code barrier = 0x00
u16_from_ext_req_frame_code durability = 0x01
u16_from_ext_req_frame_code stream_id = 0x02
u16_from_ext_req_frame_code otel_context = 0x03
u16_from_ext_req_frame_code on_behalf_of = 0x04
u16_from_ext_req_frame_code preserve_ttl = 0x05
u16_from_ext_req_frame_code extra_perm = 0x06
u16_from_ext_req_frame_code (unknown code) = code
