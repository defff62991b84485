-- ===== src/Memdx/OpCode.antt =====
-- sdk/couchbase-core/src/memdx/opcode.rs: the command codes of the key-value protocol.
use couchbase_rs.Prelude.{ℕ, List, [], ◌∷◌}
use couchbase_rs.Prelude.Codes.{from_code}

pub data OpCode : Type 0 where
  get set add replace delete increment decrement noop touch gat append prepend hello : OpCode
  get_cluster_config get_collection_id sub_doc_get sub_doc_exists sub_doc_dict_add : OpCode
  sub_doc_dict_set sub_doc_delete sub_doc_replace sub_doc_array_push_last : OpCode
  sub_doc_array_push_first sub_doc_array_insert sub_doc_array_add_unique sub_doc_counter : OpCode
  sub_doc_multi_lookup sub_doc_multi_mutation sub_doc_get_count : OpCode
  sub_doc_replace_body_with_xattr get_error_map select_bucket get_locked unlock_key : OpCode
  get_meta sasl_auth sasl_list_mechs sasl_step : OpCode
  unknown : ℕ → OpCode

unfoldable pub u8_from_op_code : OpCode → ℕ
u8_from_op_code get = 0x00
u8_from_op_code set = 0x01
u8_from_op_code add = 0x02
u8_from_op_code replace = 0x03
u8_from_op_code delete = 0x04
u8_from_op_code increment = 0x05
u8_from_op_code decrement = 0x06
u8_from_op_code noop = 0x0a
u8_from_op_code append = 0x0e
u8_from_op_code prepend = 0x0f
u8_from_op_code touch = 0x1c
u8_from_op_code gat = 0x1d
u8_from_op_code hello = 0x1f
u8_from_op_code sasl_list_mechs = 0x20
u8_from_op_code sasl_auth = 0x21
u8_from_op_code sasl_step = 0x22
u8_from_op_code select_bucket = 0x89
u8_from_op_code get_locked = 0x94
u8_from_op_code unlock_key = 0x95
u8_from_op_code get_meta = 0xa0
u8_from_op_code get_cluster_config = 0xb5
u8_from_op_code get_collection_id = 0xbb
u8_from_op_code sub_doc_get = 0xc5
u8_from_op_code sub_doc_exists = 0xc6
u8_from_op_code sub_doc_dict_add = 0xc7
u8_from_op_code sub_doc_dict_set = 0xc8
u8_from_op_code sub_doc_delete = 0xc9
u8_from_op_code sub_doc_replace = 0xca
u8_from_op_code sub_doc_array_push_last = 0xcb
u8_from_op_code sub_doc_array_push_first = 0xcc
u8_from_op_code sub_doc_array_insert = 0xcd
u8_from_op_code sub_doc_array_add_unique = 0xce
u8_from_op_code sub_doc_counter = 0xcf
u8_from_op_code sub_doc_multi_lookup = 0xd0
u8_from_op_code sub_doc_multi_mutation = 0xd1
u8_from_op_code sub_doc_get_count = 0xd2
u8_from_op_code sub_doc_replace_body_with_xattr = 0xd3
u8_from_op_code get_error_map = 0xfe
u8_from_op_code (unknown code) = code

unfoldable pub op_code_arms : List (ℕ × OpCode)
op_code_arms =
    (0x00, get)
    ∷ (0x01, set)
    ∷ (0x02, add)
    ∷ (0x03, replace)
    ∷ (0x04, delete)
    ∷ (0x05, increment)
    ∷ (0x06, decrement)
    ∷ (0x0a, noop)
    ∷ (0x0e, append)
    ∷ (0x0f, prepend)
    ∷ (0x1c, touch)
    ∷ (0x1d, gat)
    ∷ (0x1f, hello)
    ∷ (0x20, sasl_list_mechs)
    ∷ (0x21, sasl_auth)
    ∷ (0x22, sasl_step)
    ∷ (0x89, select_bucket)
    ∷ (0x94, get_locked)
    ∷ (0x95, unlock_key)
    ∷ (0xb5, get_cluster_config)
    ∷ (0xbb, get_collection_id)
    ∷ (0xc5, sub_doc_get)
    ∷ (0xc6, sub_doc_exists)
    ∷ (0xc7, sub_doc_dict_add)
    ∷ (0xc8, sub_doc_dict_set)
    ∷ (0xc9, sub_doc_delete)
    ∷ (0xca, sub_doc_replace)
    ∷ (0xcb, sub_doc_array_push_last)
    ∷ (0xcc, sub_doc_array_push_first)
    ∷ (0xcd, sub_doc_array_insert)
    ∷ (0xce, sub_doc_array_add_unique)
    ∷ (0xcf, sub_doc_counter)
    ∷ (0xd0, sub_doc_multi_lookup)
    ∷ (0xd1, sub_doc_multi_mutation)
    ∷ (0xd2, sub_doc_get_count)
    ∷ (0xd3, sub_doc_replace_body_with_xattr)
    ∷ (0xfe, get_error_map)
    ∷ []

unfoldable pub op_code_from_u8 : ℕ → OpCode
op_code_from_u8 = from_code op_code_arms unknown
