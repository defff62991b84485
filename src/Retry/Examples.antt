-- ===== src/Retry/Examples.antt =====
-- Runs of the retries.
use couchbase_rs.Prelude.{
  true, ℕ, ◌^◌, ◌<◌, ◌≤◌, ◌≡◌, ◌≢◌, refl, false, List, [], ◌∷◌, ◌++◌, map, none, some, Result, ok,
  err, panic, arith, take, All,
}
use couchbase_rs.Memdx.Error as Memdx
use couchbase_rs.Memdx.ExtFrame.Durability.{from_millis}
use couchbase_rs.Errors.{CoreError, ErrorKind, new_error}
use couchbase_rs.Errors.Retries.{
  RetryRequest, RetryReason, new_request, always_retry, insert, contains,
  allows_non_idempotent_retry,
}
use couchbase_rs.Retry.ErrMaps.{ErrMapComponent}
use couchbase_rs.Retry.{
  orchestrate_retries, best_effort, fail_fast, controlled_backoff, exponential_backoff, pause,
  after_failure, retry_for, error_to_retry_reason, maybe_retry, strategy_retry, kind_retry_reason,
  memdx_retry_reason, with_retry_info, noted_id,
}
use couchbase_rs.Retry.Loop.{Returned, orchestrate_retries-Returned}
use couchbase_rs.Retry.Policies.{
  NotInFlight, AlwaysRetried, closed_in_flight, best_effort_sends_once, fail_fast_retries_always,
  orchestrate_retries_reaches, backoffs,
}
use couchbase_rs.Memdx.OpCode.{OpCode}
use couchbase_rs.Memdx.Packet.{ResponsePacket}
use couchbase_rs.Memdx.Magic.{Magic}
use couchbase_rs.Memdx.Status.{Status}
use couchbase_rs.Memdx.Crud.Errors.{decode_common_error, is_moved}
use couchbase_rs.Router.Misrouted.{is_not_my_vbucket}
use couchbase_rs.Retry.Statuses.{decode_common_error_moved}
use couchbase_rs.Retry.Mutations.{set, response_of, mutation_reason, response_of_reason}
use couchbase_rs.Retry.Backoff.{controlled_backoff_grows, exponential_backoff_between}

abbrev no_map : ErrMapComponent
no_map = record { err_map = none }

abbrev no_routes : CoreError
no_routes = new_error ErrorKind.no_vbucket_map

abbrev in_flight : CoreError
in_flight = new_error closed_in_flight

-- A request that may not be sent twice.
abbrev increment : RetryRequest
increment = new_request "increment" false

-- No routes yet, then a connection that is closed with the request in flight.
abbrev outcomes : List (Result CoreError ℕ)
outcomes = err no_routes ∷ err in_flight ∷ ok 3 ∷ []

abbrev counted : CoreError
counted = record {
  kind = closed_in_flight;
  retry_info = some (record {
    operation = "increment";
    is_idempotent = false;
    retry_attempts = 1;
    retry_reasons = RetryReason.kv_invalid_vbucket_map ∷ [];
    unique_id = none;
  });
}

best_effort_run :
    orchestrate_retries no_map (best_effort (λ n. n)) increment outcomes
    ≡ some (err counted, from_millis 10 ∷ [])
unfolding orchestrate_retries after_failure retry_for error_to_retry_reason kind_retry_reason
    maybe_retry always_retry pause memdx_retry_reason strategy_retry best_effort
    allows_non_idempotent_retry with_retry_info controlled_backoff insert noted_id contains
    Memdx.has_opaque
best_effort_run = refl

fail_fast_run :
    orchestrate_retries no_map fail_fast increment outcomes
    ≡ some (err counted, from_millis 10 ∷ [])
unfolding orchestrate_retries after_failure retry_for error_to_retry_reason kind_retry_reason
    maybe_retry always_retry pause memdx_retry_reason strategy_retry fail_fast with_retry_info
    controlled_backoff insert noted_id contains Memdx.has_opaque
fail_fast_run = refl

best_effort_sends_once_example : All NotInFlight (take 1 outcomes)
best_effort_sends_once_example =
    best_effort_sends_once no_map (λ n. n) outcomes increment (err counted) (from_millis 10 ∷ [])
      refl best_effort_run

fail_fast_retries_always_example : All (AlwaysRetried no_map) (take 1 outcomes)
fail_fast_retries_always_example =
    fail_fast_retries_always no_map outcomes increment (err counted) (from_millis 10 ∷ [])
      fail_fast_run

orchestrate_retries-Returned_example :
    Returned no_map (best_effort (λ n. n)) outcomes increment (err counted) (from_millis 10 ∷ [])
orchestrate_retries-Returned_example =
    orchestrate_retries-Returned no_map (best_effort (λ n. n)) outcomes increment (err counted)
      (from_millis 10 ∷ []) best_effort_run (omega arith)

no_routes_retried : AlwaysRetried {A = ℕ} no_map (err no_routes)
unfolding kind_retry_reason always_retry
no_routes_retried = (RetryReason.kv_invalid_vbucket_map, refl, refl)

orchestrate_retries_reaches_example :
    orchestrate_retries {A = ℕ} no_map fail_fast increment
      (map err (no_routes ∷ no_routes ∷ []) ++ ok 3 ∷ [])
    ≡ some (ok 3, backoffs 0 2)
orchestrate_retries_reaches_example =
    orchestrate_retries_reaches no_map fail_fast increment (no_routes ∷ no_routes ∷ []) 3 []
      (no_routes_retried, (no_routes_retried, tt)) (omega arith)

controlled_backoff_grows_example :
    (controlled_backoff 3 ≤ controlled_backoff 4)
    × (from_millis 1 ≤ controlled_backoff 3)
    × (controlled_backoff 3 ≤ from_millis 1000)
controlled_backoff_grows_example = controlled_backoff_grows 3

exponential_backoff_between_example :
    (from_millis 1 ≤ from_millis 10
      → (pause : ℕ) × (exponential_backoff (λ n. 2 ^ n) (from_millis 10) (from_millis 1000) 7
          ≡ ok pause)
        × (from_millis 10 ≤ pause)
        × (pause ≤ from_millis 1000))
    × (from_millis 10 < from_millis 1
        → exponential_backoff (λ n. 2 ^ n) (from_millis 10) (from_millis 1000) 7 ≡ panic)
exponential_backoff_between_example =
    exponential_backoff_between (λ n. 2 ^ n) (from_millis 10) (from_millis 1000) 7 (omega arith)

-- The answer of a server that does not have the vbucket, with its map.
abbrev moved_response : ResponsePacket
moved_response = record {
  magic = Magic.res;
  op_code = OpCode.get;
  datatype = 0;
  status = Status.not_my_vbucket;
  opaque = 1;
  vbucket_id = none;
  cas = none;
  extras = none;
  key = none;
  value = some (1 ∷ []);
  framing_extras = none;
}

-- The answer to a change of a locked document.
abbrev locked_response : ResponsePacket
locked_response = record moved_response { status = Status.locked; op_code = OpCode.set }

locked_failed : Status.locked ≢ Status.success
locked_failed e = cc

response_of_reason_example :
    (e : Memdx.Error) × (response_of set (λ n. n) (some 7) locked_response ≡ err e)
    × (memdx_retry_reason no_map e ≡ mutation_reason no_map set (some 7) Status.locked)
response_of_reason_example =
    response_of_reason no_map set (λ n. n) (some 7) locked_response locked_failed

decode_common_error_moved_example :
    (is_not_my_vbucket (decode_common_error moved_response) ≡ is_moved Status.not_my_vbucket)
    × (is_moved Status.not_my_vbucket ≡ true
        → Memdx.has_server_config (decode_common_error moved_response) ≡ some (1 ∷ []))
decode_common_error_moved_example = decode_common_error_moved moved_response
