-- ===== src/Memdx/Status.antt =====
-- sdk/couchbase-core/src/memdx/status.rs: the status codes of responses.
use couchbase_rs.Prelude.{ℕ, List, [], ◌∷◌}
use couchbase_rs.Prelude.Codes.{from_code}

pub data Status : Type 0 where
  success key_not_found key_exists too_big invalid_args not_stored bad_delta not_my_vbucket : Status
  no_bucket locked opaque_no_match would_throttle config_only not_locked auth_stale : Status
  auth_error auth_continue range_error access_error not_initialized : Status
  rate_limited_network_ingress rate_limited_network_egress rate_limited_max_connections : Status
  rate_limited_max_commands rate_limited_scope_size_limit_exceeded command_unknown : Status
  out_of_memory not_supported internal_error busy tmp_fail collection_unknown scope_unknown : Status
  durability_invalid_level durability_impossible sync_write_in_progress : Status
  sync_write_ambiguous sync_write_recommit_in_progress range_scan_cancelled range_scan_more : Status
  range_scan_complete range_scan_vbuuid_not_equal sub_doc_path_not_found : Status
  sub_doc_path_mismatch sub_doc_path_invalid sub_doc_path_too_big sub_doc_doc_too_deep : Status
  sub_doc_cant_insert sub_doc_not_json sub_doc_bad_range sub_doc_bad_delta : Status
  sub_doc_path_exists sub_doc_value_too_deep sub_doc_invalid_combo : Status
  sub_doc_multi_path_failure sub_doc_success_deleted sub_doc_xattr_invalid_flag_combo : Status
  sub_doc_xattr_invalid_key_combo sub_doc_xattr_unknown_macro sub_doc_xattr_unknown_v_attr : Status
  sub_doc_xattr_cannot_modify_v_attr sub_doc_multi_path_failure_deleted : Status
  sub_doc_invalid_xattr_order sub_doc_xattr_unknown_vattr_macro : Status
  sub_doc_can_only_revive_deleted_documents sub_doc_deleted_document_cant_have_value : Status
  unknown : ℕ → Status

unfoldable pub u16_from_status : Status → ℕ
u16_from_status success = 0x00
u16_from_status key_not_found = 0x01
u16_from_status key_exists = 0x02
u16_from_status too_big = 0x03
u16_from_status invalid_args = 0x04
u16_from_status not_stored = 0x05
u16_from_status bad_delta = 0x06
u16_from_status not_my_vbucket = 0x07
u16_from_status no_bucket = 0x08
u16_from_status locked = 0x09
u16_from_status opaque_no_match = 0x0b
u16_from_status would_throttle = 0x0c
u16_from_status config_only = 0x0d
u16_from_status not_locked = 0x0e
u16_from_status auth_stale = 0x1f
u16_from_status auth_error = 0x20
u16_from_status auth_continue = 0x21
u16_from_status range_error = 0x22
u16_from_status access_error = 0x24
u16_from_status not_initialized = 0x25
u16_from_status rate_limited_network_ingress = 0x30
u16_from_status rate_limited_network_egress = 0x31
u16_from_status rate_limited_max_connections = 0x32
u16_from_status rate_limited_max_commands = 0x33
u16_from_status rate_limited_scope_size_limit_exceeded = 0x34
u16_from_status command_unknown = 0x81
u16_from_status out_of_memory = 0x82
u16_from_status not_supported = 0x83
u16_from_status internal_error = 0x84
u16_from_status busy = 0x85
u16_from_status tmp_fail = 0x86
u16_from_status collection_unknown = 0x88
u16_from_status scope_unknown = 0x8c
u16_from_status durability_invalid_level = 0xa0
u16_from_status durability_impossible = 0xa1
u16_from_status sync_write_in_progress = 0xa2
u16_from_status sync_write_ambiguous = 0xa3
u16_from_status sync_write_recommit_in_progress = 0xa4
u16_from_status range_scan_cancelled = 0xa5
u16_from_status range_scan_more = 0xa6
u16_from_status range_scan_complete = 0xa7
u16_from_status range_scan_vbuuid_not_equal = 0xa8
u16_from_status sub_doc_path_not_found = 0xc0
u16_from_status sub_doc_path_mismatch = 0xc1
u16_from_status sub_doc_path_invalid = 0xc2
u16_from_status sub_doc_path_too_big = 0xc3
u16_from_status sub_doc_doc_too_deep = 0xc4
u16_from_status sub_doc_cant_insert = 0xc5
u16_from_status sub_doc_not_json = 0xc6
u16_from_status sub_doc_bad_range = 0xc7
u16_from_status sub_doc_bad_delta = 0xc8
u16_from_status sub_doc_path_exists = 0xc9
u16_from_status sub_doc_value_too_deep = 0xca
u16_from_status sub_doc_invalid_combo = 0xcb
u16_from_status sub_doc_multi_path_failure = 0xcc
u16_from_status sub_doc_success_deleted = 0xcd
u16_from_status sub_doc_xattr_invalid_flag_combo = 0xce
u16_from_status sub_doc_xattr_invalid_key_combo = 0xcf
u16_from_status sub_doc_xattr_unknown_macro = 0xd0
u16_from_status sub_doc_xattr_unknown_v_attr = 0xd1
u16_from_status sub_doc_xattr_cannot_modify_v_attr = 0xd2
u16_from_status sub_doc_multi_path_failure_deleted = 0xd3
u16_from_status sub_doc_invalid_xattr_order = 0xd4
u16_from_status sub_doc_xattr_unknown_vattr_macro = 0xd5
u16_from_status sub_doc_can_only_revive_deleted_documents = 0xd6
u16_from_status sub_doc_deleted_document_cant_have_value = 0xd7
u16_from_status (unknown code) = code

unfoldable pub status_arms : List (ℕ × Status)
status_arms =
    (0x00, success)
    ∷ (0x01, key_not_found)
    ∷ (0x02, key_exists)
    ∷ (0x03, too_big)
    ∷ (0x04, invalid_args)
    ∷ (0x05, not_stored)
    ∷ (0x06, bad_delta)
    ∷ (0x07, not_my_vbucket)
    ∷ (0x08, no_bucket)
    ∷ (0x09, locked)
    ∷ (0x0b, opaque_no_match)
    ∷ (0x0c, would_throttle)
    ∷ (0x0d, config_only)
    ∷ (0x0e, not_locked)
    ∷ (0x1f, auth_stale)
    ∷ (0x20, auth_error)
    ∷ (0x21, auth_continue)
    ∷ (0x22, range_error)
    ∷ (0x24, access_error)
    ∷ (0x25, not_initialized)
    ∷ (0x30, rate_limited_network_ingress)
    ∷ (0x31, rate_limited_network_egress)
    ∷ (0x32, rate_limited_max_connections)
    ∷ (0x33, rate_limited_max_commands)
    ∷ (0x34, rate_limited_scope_size_limit_exceeded)
    ∷ (0x81, command_unknown)
    ∷ (0x82, out_of_memory)
    ∷ (0x83, not_supported)
    ∷ (0x84, internal_error)
    ∷ (0x85, busy)
    ∷ (0x86, tmp_fail)
    ∷ (0x88, collection_unknown)
    ∷ (0x8c, scope_unknown)
    ∷ (0xa0, durability_invalid_level)
    ∷ (0xa1, durability_impossible)
    ∷ (0xa2, sync_write_in_progress)
    ∷ (0xa3, sync_write_ambiguous)
    ∷ (0xa4, sync_write_recommit_in_progress)
    ∷ (0xa5, range_scan_cancelled)
    ∷ (0xa6, range_scan_more)
    ∷ (0xa7, range_scan_complete)
    ∷ (0xa8, range_scan_vbuuid_not_equal)
    ∷ (0xc0, sub_doc_path_not_found)
    ∷ (0xc1, sub_doc_path_mismatch)
    ∷ (0xc2, sub_doc_path_invalid)
    ∷ (0xc3, sub_doc_path_too_big)
    ∷ (0xc4, sub_doc_doc_too_deep)
    ∷ (0xc5, sub_doc_cant_insert)
    ∷ (0xc6, sub_doc_not_json)
    ∷ (0xc7, sub_doc_bad_range)
    ∷ (0xc8, sub_doc_bad_delta)
    ∷ (0xc9, sub_doc_path_exists)
    ∷ (0xca, sub_doc_value_too_deep)
    ∷ (0xcb, sub_doc_invalid_combo)
    ∷ (0xcc, sub_doc_multi_path_failure)
    ∷ (0xcd, sub_doc_success_deleted)
    ∷ (0xce, sub_doc_xattr_invalid_flag_combo)
    ∷ (0xcf, sub_doc_xattr_invalid_key_combo)
    ∷ (0xd0, sub_doc_xattr_unknown_macro)
    ∷ (0xd1, sub_doc_xattr_unknown_v_attr)
    ∷ (0xd2, sub_doc_xattr_cannot_modify_v_attr)
    ∷ (0xd3, sub_doc_multi_path_failure_deleted)
    ∷ (0xd4, sub_doc_invalid_xattr_order)
    ∷ (0xd5, sub_doc_xattr_unknown_vattr_macro)
    ∷ (0xd6, sub_doc_can_only_revive_deleted_documents)
    ∷ (0xd7, sub_doc_deleted_document_cant_have_value)
    ∷ []

unfoldable pub status_from_u16 : ℕ → Status
status_from_u16 = from_code status_arms unknown
