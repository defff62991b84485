-- ===== src/Retry/Statuses.antt =====
-- From the status of a response to its retry: the errors of
-- sdk/couchbase-core/src/memdx/ops_crud.rs and ops_core.rs under the reasons of retry.rs and the
-- router of vbucketrouter.rs.
use couchbase_rs.Prelude.{ℕ, ◌≡◌, refl, ap, sym, ◌∙◌, List, Option, none, some, true, if◌then◌else◌}
use mathlib.Core.Bool.{true≢false}
use couchbase_rs.Memdx.Packet.{ResponsePacket}
use couchbase_rs.Memdx.Status.{Status}
use couchbase_rs.Memdx.Crud.Errors.{
  common_kind, mutation_kind, status_error, decode_common_status, decode_common_mutation_status,
  error_of, error_or, decode_common_error, decode_common_mutation_error, is_moved, or_else,
}
use couchbase_rs.Errors.Retries.{RetryReason}
use couchbase_rs.Router.Misrouted.{is_not_my_vbucket}
use couchbase_rs.Memdx.Error.{has_server_config}
use couchbase_rs.Retry.ErrMaps.{ErrMapComponent, should_retry}
use couchbase_rs.Retry.{memdx_retry_reason, server_error_to_retry_reason}

-- What the error map says of a status that the client does not know.
abbrev pub by_error_map : ErrMapComponent → Status → Option RetryReason
by_error_map rs s =
    if should_retry rs s then some RetryReason.kv_error_map_retry_indicated else none

-- The reasons for a retry by the status of a response to a mutation, where the mutation has no
-- failure of its own for the status.
abbrev pub status_reason : ErrMapComponent → Status → Option RetryReason
status_reason rs Status.not_my_vbucket = some RetryReason.kv_not_my_vbucket
status_reason rs Status.tmp_fail = some RetryReason.kv_temporary_failure
status_reason rs Status.collection_unknown = some RetryReason.kv_collection_outdated
status_reason rs Status.sync_write_in_progress = some RetryReason.kv_sync_write_in_progress
status_reason rs Status.sync_write_recommit_in_progress =
    some RetryReason.kv_sync_write_recommit_in_progress
status_reason rs Status.durability_invalid_level = none
status_reason rs Status.durability_impossible = none
status_reason rs Status.sync_write_ambiguous = none
status_reason rs Status.access_error = none
status_reason rs Status.no_bucket = none
status_reason rs Status.auth_stale = none
status_reason rs Status.invalid_args = none
status_reason rs Status.rate_limited_max_commands = none
status_reason rs Status.rate_limited_max_connections = none
status_reason rs Status.rate_limited_network_egress = none
status_reason rs Status.rate_limited_network_ingress = none
status_reason rs Status.rate_limited_scope_size_limit_exceeded = none
status_reason rs s = by_error_map rs s

reason_at :
    (rs : ErrMapComponent) (s : Status) (resp : ResponsePacket)
    → memdx_retry_reason rs (error_or (status_error resp (mutation_kind s)) (error_of s resp))
      ≡ status_reason rs s
unfolding memdx_retry_reason server_error_to_retry_reason mutation_kind common_kind status_error
    error_of error_or
reason_at rs Status.success resp = refl
reason_at rs _ resp = refl

-- The failure that a mutation falls back on, where its response has none of its own for the status,
-- has the reason for a retry that the status stands for, whatever the response's value is.
pub decode_common_mutation_error_reason :
    (rs : ErrMapComponent) (resp : ResponsePacket)
    → memdx_retry_reason rs (decode_common_mutation_error resp) ≡ status_reason rs resp.status
unfolding decode_common_mutation_error decode_common_mutation_status
decode_common_mutation_error_reason rs resp = reason_at rs resp.status resp

moved_at :
    (s : Status) (resp : ResponsePacket)
    → is_not_my_vbucket (error_or (status_error resp (common_kind s)) (error_of s resp))
      ≡ is_moved s
unfolding is_not_my_vbucket common_kind status_error error_of error_or is_moved
moved_at Status.success resp = refl
moved_at _ resp = refl

or_else-none : (o : Option (List ℕ)) → or_else o none ≡ o
or_else-none none = refl
or_else-none (some v) = refl

map_at :
    (s : Status) (resp : ResponsePacket)
    → resp.status ≡ s
    → is_moved s ≡ true
    → has_server_config (error_or (status_error resp (common_kind s)) (error_of s resp))
      ≡ resp.value
unfolding has_server_config common_kind status_error error_of error_or is_moved
map_at Status.not_my_vbucket resp same moved =
    ap (λ s. if is_moved s then or_else resp.value none else none) same ∙ or_else-none resp.value
map_at _ resp same moved = absurd (true≢false (sym moved))

-- A response is a failure that the router takes for "not my vbucket" exactly where its status says
-- so, and the map that the router finds in it is then the response's value.
pub decode_common_error_moved :
    (resp : ResponsePacket)
    → (is_not_my_vbucket (decode_common_error resp) ≡ is_moved resp.status)
      × (is_moved resp.status ≡ true → has_server_config (decode_common_error resp) ≡ resp.value)
unfolding decode_common_error decode_common_status
decode_common_error_moved resp = (moved_at resp.status resp, map_at resp.status resp refl)
