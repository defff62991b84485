-- ===== src/Memdx/Crud/Errors.antt =====
-- sdk/couchbase-core/src/memdx/ops_crud.rs and ops_core.rs: the errors that the statuses of a
-- response stand for, where an operation has no meaning of its own for them.
use couchbase_rs.Prelude.{
  ℕ, List, Option, none, some, Result, ok, err, Bool, true, false, if◌then◌else◌,
}
use couchbase_rs.Memdx.Error.{
  Error, ServerError, ServerErrorKind, new_server_error, invalid_argument, server,
}
use couchbase_rs.Memdx.Packet.{ResponsePacket}
use couchbase_rs.Memdx.Status.{Status}

-- `if let Some(value) = &resp.value` goes on with the value, and else with what was there.
abbrev pub or_else : Option (List ℕ) → Option (List ℕ) → Option (List ℕ)
or_else (some value) old = some value
or_else none old = old

abbrev pub with_context : ServerError → Option (List ℕ) → ServerError
with_context e value = record e { context = or_else value e.context }

abbrev pub base_error : ResponsePacket → ServerErrorKind → ServerError
base_error resp kind = new_server_error kind resp.op_code resp.status resp.opaque

-- The kinds of `decode_common_status` and `decode_common_mutation_status`.
unfoldable pub common_kind : Status → Option ServerErrorKind
common_kind Status.collection_unknown = some ServerErrorKind.unknown_collection_id
common_kind Status.access_error = some ServerErrorKind.access
common_kind Status.no_bucket = some ServerErrorKind.no_bucket
common_kind Status.rate_limited_max_commands = some ServerErrorKind.rate_limited_max_commands
common_kind Status.rate_limited_max_connections = some ServerErrorKind.rate_limited_max_connections
common_kind Status.rate_limited_network_egress = some ServerErrorKind.rate_limited_network_egress
common_kind Status.rate_limited_network_ingress = some ServerErrorKind.rate_limited_network_ingress
common_kind Status.rate_limited_scope_size_limit_exceeded =
    some ServerErrorKind.rate_limited_scope_size_limit_exceeded
common_kind _ = none

unfoldable pub mutation_kind : Status → Option ServerErrorKind
mutation_kind Status.durability_invalid_level = some ServerErrorKind.durability_invalid
mutation_kind Status.sync_write_ambiguous = some ServerErrorKind.sync_write_ambiguous
mutation_kind Status.sync_write_in_progress = some ServerErrorKind.sync_write_in_progress
mutation_kind Status.sync_write_recommit_in_progress =
    some ServerErrorKind.sync_write_recommit_in_progress
mutation_kind Status.durability_impossible = some ServerErrorKind.durability_impossible
mutation_kind s = common_kind s

unfoldable pub status_error : ResponsePacket → Option ServerErrorKind → Result Error (Unit {0})
status_error resp (some kind) = err (server (with_context (base_error resp kind) resp.value))
status_error resp none = ok tt

unfoldable pub decode_common_status : ResponsePacket → Result Error (Unit {0})
decode_common_status resp = status_error resp (common_kind resp.status)

unfoldable pub decode_common_mutation_status : ResponsePacket → Result Error (Unit {0})
decode_common_mutation_status resp = status_error resp (mutation_kind resp.status)

-- `status == Status::NotMyVbucket`
unfoldable pub is_moved : Status → Bool
is_moved Status.not_my_vbucket = true
is_moved _ = false

-- The value of a response is the map where the vbucket moved, and the context elsewhere.
abbrev pub add_value : Status → ServerError → Option (List ℕ) → ServerError
add_value status e value = record e {
  config = if is_moved status then or_else value e.config else e.config;
  context = if is_moved status then e.context else or_else value e.context;
}

abbrev pub decode_error_context : ResponsePacket → ServerErrorKind → ServerError
decode_error_context resp kind = add_value resp.status (base_error resp kind) resp.value

unfoldable pub error_of : Status → ResponsePacket → Error
error_of Status.not_my_vbucket resp =
    server (decode_error_context resp ServerErrorKind.not_my_vbucket)
error_of Status.tmp_fail resp = server (decode_error_context resp ServerErrorKind.tmp_fail)
error_of Status.no_bucket resp = server (decode_error_context resp ServerErrorKind.no_bucket)
error_of Status.auth_stale resp = server (decode_error_context resp ServerErrorKind.auth_stale)
error_of Status.invalid_args resp =
    invalid_argument "the server rejected the request because one or more arguments were invalid"
      none
error_of status resp = server (decode_error_context resp (ServerErrorKind.unknown_status status))

abbrev pub decode_error : ResponsePacket → Error
decode_error resp = error_of resp.status resp

-- `if let Err(e) = ... { return e; }`
unfoldable pub error_or : Result Error (Unit {0}) → Error → Error
error_or (err e) other = e
error_or _ other = other

unfoldable pub decode_common_error : ResponsePacket → Error
decode_common_error resp = error_or (decode_common_status resp) (decode_error resp)

unfoldable pub decode_common_mutation_error : ResponsePacket → Error
decode_common_mutation_error resp =
    error_or (decode_common_mutation_status resp) (decode_error resp)
