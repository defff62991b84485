-- ===== src/Memdx/CodeTables.antt =====
-- The numeric codes of the protocol's enumerations, both ways.
use couchbase_rs.Prelude.{ℕ, ◌≡◌, refl, ◌≢◌, arith}
use couchbase_rs.Prelude.Codes.{from_code, to-from_code}
use couchbase_rs.Memdx.OpCode.{OpCode, u8_from_op_code, op_code_arms, op_code_from_u8}
use couchbase_rs.Memdx.Status.{Status, u16_from_status, status_arms, status_from_u16}
use couchbase_rs.Memdx.HelloFeature.{
  HelloFeature, u16_from_hello_feature, hello_feature_arms, hello_feature_from_u16,
}
use couchbase_rs.Memdx.FrameCode.{
  ExtResFrameCode, u16_from_ext_res_frame_code, ext_res_frame_code_arms,
  ext_res_frame_code_from_u16,
}

op_code_encoded : (v : ℕ) → u8_from_op_code (op_code_from_u8 v) ≡ v
unfolding op_code_from_u8 op_code_arms u8_from_op_code
op_code_encoded v = to-from_code u8_from_op_code OpCode.unknown op_code_arms v (omega arith) refl

status_encoded : (v : ℕ) → u16_from_status (status_from_u16 v) ≡ v
unfolding status_from_u16 status_arms u16_from_status
status_encoded v = to-from_code u16_from_status Status.unknown status_arms v (omega arith) refl

hello_feature_encoded : (v : ℕ) → u16_from_hello_feature (hello_feature_from_u16 v) ≡ v
unfolding hello_feature_from_u16 hello_feature_arms u16_from_hello_feature
hello_feature_encoded v =
    to-from_code u16_from_hello_feature HelloFeature.unknown hello_feature_arms v (omega arith) refl

ext_res_frame_code_encoded :
    (v : ℕ) → u16_from_ext_res_frame_code (ext_res_frame_code_from_u16 v) ≡ v
unfolding ext_res_frame_code_from_u16 ext_res_frame_code_arms u16_from_ext_res_frame_code
ext_res_frame_code_encoded v =
    to-from_code u16_from_ext_res_frame_code ExtResFrameCode.unknown ext_res_frame_code_arms v
      (omega arith) refl

-- No code is lost by decoding it: each number decodes to a value with that code, for opcodes,
-- statuses, HELLO features and the codes of response frames.
pub codes_kept :
    (v : ℕ)
    → (u8_from_op_code (op_code_from_u8 v) ≡ v)
      × (u16_from_status (status_from_u16 v) ≡ v)
      × (u16_from_hello_feature (hello_feature_from_u16 v) ≡ v)
      × (u16_from_ext_res_frame_code (ext_res_frame_code_from_u16 v) ≡ v)
codes_kept v =
    (op_code_encoded v, status_encoded v, hello_feature_encoded v, ext_res_frame_code_encoded v)

-- Each named opcode but GetMeta decodes from its own code.
pub op_code_from_u8-u8_from_op_code :
    (op : OpCode)
    → op ≢ OpCode.get_meta
    → ((n : ℕ) → op ≢ OpCode.unknown n)
    → op_code_from_u8 (u8_from_op_code op) ≡ op
unfolding op_code_from_u8 from_code op_code_arms u8_from_op_code
op_code_from_u8-u8_from_op_code (OpCode.unknown n) h k = absurd (k n refl)
op_code_from_u8-u8_from_op_code OpCode.get_meta h k = absurd (h refl)
op_code_from_u8-u8_from_op_code _ h k = refl

-- The code of GetMeta decodes to an unknown opcode.
pub get_meta_not_decoded : op_code_from_u8 (u8_from_op_code OpCode.get_meta) ≡ OpCode.unknown 0xa0
unfolding op_code_from_u8 from_code op_code_arms u8_from_op_code
get_meta_not_decoded = refl

-- Each named status decodes from its own code.
pub status_from_u16-u16_from_status :
    (s : Status) → ((n : ℕ) → s ≢ Status.unknown n) → status_from_u16 (u16_from_status s) ≡ s
unfolding status_from_u16 from_code status_arms u16_from_status
status_from_u16-u16_from_status (Status.unknown n) h = absurd (h n refl)
status_from_u16-u16_from_status _ h = refl

-- Each named HELLO feature decodes from its own code.
pub hello_feature_from_u16-u16_from_hello_feature :
    (f : HelloFeature)
    → ((n : ℕ) → f ≢ HelloFeature.unknown n)
    → hello_feature_from_u16 (u16_from_hello_feature f) ≡ f
unfolding hello_feature_from_u16 from_code hello_feature_arms u16_from_hello_feature
hello_feature_from_u16-u16_from_hello_feature (HelloFeature.unknown n) h = absurd (h n refl)
hello_feature_from_u16-u16_from_hello_feature _ h = refl
