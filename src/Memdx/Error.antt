-- ===== src/Memdx/Error.antt =====
-- sdk/couchbase-core/src/memdx/error.rs: the errors of the key-value client. The boxed source of
-- an error, which takes no part in comparisons, is left out. A `message` is its format string and
-- the numbers put into it.
use Prim.Native.String.{String}
use couchbase_rs.Prelude.{ℕ, List, Option, none, some}
use couchbase_rs.Memdx.OpCode.{OpCode}
use couchbase_rs.Memdx.Status.{Status}

pub data ServerErrorKind : Type 0 where
  key_not_found key_exists too_big not_stored bad_delta not_my_vbucket no_bucket : ServerErrorKind
  locked not_locked : ServerErrorKind
  auth : String → ServerErrorKind
  range_error access rate_limited_network_ingress rate_limited_network_egress : ServerErrorKind
  rate_limited_max_connections rate_limited_max_commands : ServerErrorKind
  rate_limited_scope_size_limit_exceeded unknown_command not_supported : ServerErrorKind
  internal_error busy tmp_fail unknown_collection_id unknown_scope_name : ServerErrorKind
  unknown_collection_name durability_invalid durability_impossible : ServerErrorKind
  sync_write_in_progress sync_write_ambiguous sync_write_recommit_in_progress : ServerErrorKind
  range_scan_cancelled range_scan_vbuuid_not_equal invalid_args auth_stale : ServerErrorKind
  config_not_set unknown_bucket_name cas_mismatch subdoc : ServerErrorKind
  unknown_status : Status → ServerErrorKind

pub record ServerError : Type 0 where
  pub kind : ServerErrorKind
  pub config : Option (List ℕ)
  pub context : Option (List ℕ)
  pub op_code : OpCode
  pub status : Status
  pub opaque : ℕ

pub record ResourceError : Type 0 where
  pub cause : ServerError
  pub scope_name : String
  pub collection_name : String

pub data CancellationErrorKind : Type 0 where
  timeout request_cancelled closed_in_flight : CancellationErrorKind

pub data Error : Type 0 where
  server : ServerError → Error
  resource : ResourceError → Error
  dispatch : ℕ → OpCode → Error
  close : String → Error
  protocol : String → Error
  cancelled : CancellationErrorKind → Error
  connection_failed : String → Error
  io : Error
  invalid_argument : String → Option String → Error
  decompression : Error
  message : String → List ℕ → Error

-- `ServerError::new`
abbrev pub new_server_error : ServerErrorKind → OpCode → Status → ℕ → ServerError
new_server_error kind op_code status opaque = record {
  kind = kind;
  config = none;
  context = none;
  op_code = op_code;
  status = status;
  opaque = opaque;
}

-- `Error::has_opaque`
unfoldable pub has_opaque : Error → Option ℕ
has_opaque (server e) = some e.opaque
has_opaque (resource e) = some e.cause.opaque
has_opaque (dispatch opaque op_code) = some opaque
has_opaque _ = none

-- `Error::has_server_config`
unfoldable pub has_server_config : Error → Option (List ℕ)
has_server_config (server e) = e.config
has_server_config _ = none
