-- ===== src/Errors/Retries.antt =====
-- sdk/couchbase-core/src/retry.rs: the reasons for a retry and the record of the retries of a
-- request. The hash set of the reasons is the list of them, each once.
use Prim.Native.String.{String}
use couchbase_rs.Prelude.{
  ℕ, ◌+◌, ◌%◌, ◌^◌, Bool, true, false, ◌||◌, Option, none, List, [], ◌∷◌, ◌==◌, if◌then◌else◌,
}

pub data RetryReason : Type 0 where
  kv_not_my_vbucket kv_invalid_vbucket_map kv_temporary_failure : RetryReason
  kv_collection_outdated kv_error_map_retry_indicated kv_locked : RetryReason
  kv_sync_write_in_progress kv_sync_write_recommit_in_progress : RetryReason
  service_not_available socket_closed_while_in_flight socket_not_available : RetryReason
  query_prepared_statement_failure query_index_not_found : RetryReason
  search_too_many_requests http_send_request_failed not_ready : RetryReason

unfoldable pub allows_non_idempotent_retry : RetryReason → Bool
allows_non_idempotent_retry kv_invalid_vbucket_map = true
allows_non_idempotent_retry kv_not_my_vbucket = true
allows_non_idempotent_retry kv_temporary_failure = true
allows_non_idempotent_retry kv_collection_outdated = true
allows_non_idempotent_retry kv_error_map_retry_indicated = true
allows_non_idempotent_retry kv_locked = true
allows_non_idempotent_retry service_not_available = true
allows_non_idempotent_retry socket_not_available = true
allows_non_idempotent_retry kv_sync_write_in_progress = true
allows_non_idempotent_retry kv_sync_write_recommit_in_progress = true
allows_non_idempotent_retry query_prepared_statement_failure = true
allows_non_idempotent_retry query_index_not_found = true
allows_non_idempotent_retry search_too_many_requests = true
allows_non_idempotent_retry http_send_request_failed = true
allows_non_idempotent_retry not_ready = true
allows_non_idempotent_retry socket_closed_while_in_flight = false

unfoldable pub always_retry : RetryReason → Bool
always_retry kv_invalid_vbucket_map = true
always_retry kv_not_my_vbucket = true
always_retry kv_collection_outdated = true
always_retry _ = false

-- The place of a reason in its declaration, by which the derived equality compares.
abbrev pub discriminant : RetryReason → ℕ
discriminant kv_not_my_vbucket = 0
discriminant kv_invalid_vbucket_map = 1
discriminant kv_temporary_failure = 2
discriminant kv_collection_outdated = 3
discriminant kv_error_map_retry_indicated = 4
discriminant kv_locked = 5
discriminant kv_sync_write_in_progress = 6
discriminant kv_sync_write_recommit_in_progress = 7
discriminant service_not_available = 8
discriminant socket_closed_while_in_flight = 9
discriminant socket_not_available = 10
discriminant query_prepared_statement_failure = 11
discriminant query_index_not_found = 12
discriminant search_too_many_requests = 13
discriminant http_send_request_failed = 14
discriminant not_ready = 15

-- `HashSet::contains` and `HashSet::insert`.
unfoldable pub contains : RetryReason → List RetryReason → Bool
contains reason [] = false
contains reason (r ∷ rest) = (discriminant reason == discriminant r) || contains reason rest

unfoldable pub insert : RetryReason → List RetryReason → List RetryReason
insert reason reasons = if contains reason reasons then reasons else reason ∷ reasons

pub record RetryRequest : Type 0 where
  pub operation : String
  pub is_idempotent : Bool
  pub retry_attempts : ℕ
  pub retry_reasons : List RetryReason
  -- The opaque of the failed packet, which the source keeps as text.
  pub unique_id : Option ℕ

-- `RetryRequest::new`
abbrev pub new_request : String → Bool → RetryRequest
new_request operation is_idempotent = record {
  operation = operation;
  is_idempotent = is_idempotent;
  retry_attempts = 0;
  retry_reasons = [];
  unique_id = none;
}

-- The count wraps around, as it does where overflows are not checked.
abbrev pub add_retry_attempt : RetryRequest → RetryReason → RetryRequest
add_retry_attempt self reason = record {
  operation = self.operation;
  is_idempotent = self.is_idempotent;
  retry_attempts = (self.retry_attempts + 1) % 2 ^ 32;
  retry_reasons = insert reason self.retry_reasons;
  unique_id = self.unique_id;
}
