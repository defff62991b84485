-- ===== src/Memdx/CodeExamples.antt =====
-- Runs of the tables of codes.
use couchbase_rs.Prelude.{ℕ, ◌≡◌, ◌≢◌}
use couchbase_rs.Memdx.OpCode.{OpCode, u8_from_op_code, op_code_from_u8}
use couchbase_rs.Memdx.Status.{Status, u16_from_status, status_from_u16}
use couchbase_rs.Memdx.HelloFeature.{u16_from_hello_feature, hello_feature_from_u16}
use couchbase_rs.Memdx.FrameCode.{u16_from_ext_res_frame_code, ext_res_frame_code_from_u16}
use couchbase_rs.Memdx.CodeTables.{
  codes_kept, op_code_from_u8-u8_from_op_code, status_from_u16-u16_from_status,
}
use native.Mathlib.Omega.{arith}

codes_kept_example :
    (u8_from_op_code (op_code_from_u8 0x24) ≡ 0x24)
    × (u16_from_status (status_from_u16 0x24) ≡ 0x24)
    × (u16_from_hello_feature (hello_feature_from_u16 0x24) ≡ 0x24)
    × (u16_from_ext_res_frame_code (ext_res_frame_code_from_u16 0x24) ≡ 0x24)
codes_kept_example = codes_kept 0x24

add_is_not_get_meta : OpCode.add ≢ OpCode.get_meta
add_is_not_get_meta e = grind arith

add_is_known : (n : ℕ) → OpCode.add ≢ OpCode.unknown n
add_is_known n e = grind arith

op_code_from_u8-u8_from_op_code_example : op_code_from_u8 (u8_from_op_code OpCode.add) ≡ OpCode.add
op_code_from_u8-u8_from_op_code_example =
    op_code_from_u8-u8_from_op_code OpCode.add add_is_not_get_meta add_is_known

locked_is_known : (n : ℕ) → Status.locked ≢ Status.unknown n
locked_is_known n e = grind arith

status_from_u16-u16_from_status_example :
    status_from_u16 (u16_from_status Status.locked) ≡ Status.locked
status_from_u16-u16_from_status_example =
    status_from_u16-u16_from_status Status.locked locked_is_known
