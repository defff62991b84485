-- ===== src/Retry.antt =====
-- sdk/couchbase-core/src/retry.rs, retrybesteffort.rs and retryfailfast.rs: which failures are
-- retried, after what pause, and what is told about it. A duration is a number of nanoseconds. The
-- loop reads the outcomes of the operation's calls from a list and collects the pauses; it comes to
-- nothing where the list ends before the loop does.
mod Examples
pub mod ErrMaps
pub mod Loop
pub mod Policies
pub mod Statuses
pub mod Mutations
pub mod Backoff
use couchbase_rs.Prelude.{
  ℕ, zero, suc, ◌-◌, ◌*◌, ◌/◌, ◌^◌, Bool, true, false, ◌||◌, List, [], ◌∷◌, Option, none, some,
  Result, ok, err, panic, ◌>>=◌, ltb, leb, ◌==◌, if◌then◌else◌,
}
use couchbase_rs.Memdx.Error as Memdx
use couchbase_rs.Memdx.ExtFrame.Durability.{as_millis, from_millis}
use couchbase_rs.Errors.{CoreError, ErrorKind, set_retry_info}
use couchbase_rs.Errors.Services.{
  HttpErrorKind, QueryErrorKind, QueryServerErrorKind, SearchErrorKind, AnalyticsErrorKind,
  MgmtErrorKind,
}
use couchbase_rs.Errors.Retries.{
  RetryReason, RetryRequest, add_retry_attempt, always_retry, allows_non_idempotent_retry,
}
use couchbase_rs.Retry.ErrMaps.{ErrMapComponent, should_retry}

unfoldable pub controlled_backoff : ℕ → ℕ
controlled_backoff zero = from_millis 1
controlled_backoff (suc zero) = from_millis 10
controlled_backoff (suc (suc zero)) = from_millis 50
controlled_backoff (suc (suc (suc zero))) = from_millis 100
controlled_backoff (suc (suc (suc (suc zero)))) = from_millis 500
controlled_backoff (suc (suc (suc (suc (suc _))))) = from_millis 1000

unfoldable pub server_error_to_retry_reason :
    ErrMapComponent → Memdx.ServerError → Option RetryReason
server_error_to_retry_reason rs e = elim e.kind [
  | Memdx.not_my_vbucket ↦ some RetryReason.kv_not_my_vbucket
  | Memdx.tmp_fail ↦ some RetryReason.kv_temporary_failure
  | Memdx.unknown_collection_id ↦ some RetryReason.kv_collection_outdated
  | Memdx.unknown_collection_name ↦ some RetryReason.kv_collection_outdated
  | Memdx.locked ↦ some RetryReason.kv_locked
  | Memdx.sync_write_in_progress ↦ some RetryReason.kv_sync_write_in_progress
  | Memdx.sync_write_recommit_in_progress ↦ some RetryReason.kv_sync_write_recommit_in_progress
  | Memdx.unknown_status status ↦
      if should_retry rs status then some RetryReason.kv_error_map_retry_indicated else none
  | _ ↦ none
]

unfoldable pub memdx_retry_reason : ErrMapComponent → Memdx.Error → Option RetryReason
memdx_retry_reason rs (Memdx.server e) = server_error_to_retry_reason rs e
memdx_retry_reason rs (Memdx.resource e) = server_error_to_retry_reason rs e.cause
memdx_retry_reason rs (Memdx.cancelled Memdx.closed_in_flight) =
    some RetryReason.socket_closed_while_in_flight
memdx_retry_reason rs (Memdx.dispatch _ _) = some RetryReason.socket_not_available
memdx_retry_reason rs _ = none

unfoldable pub http_retry_reason : HttpErrorKind → Option RetryReason
http_retry_reason (HttpErrorKind.send_request _) = some RetryReason.http_send_request_failed
http_retry_reason _ = none

-- The reason that the kind of an error gives for a retry.
unfoldable pub kind_retry_reason : ErrMapComponent → ErrorKind → Option RetryReason
kind_retry_reason rs (ErrorKind.memdx e) = memdx_retry_reason rs e
kind_retry_reason rs ErrorKind.no_vbucket_map = some RetryReason.kv_invalid_vbucket_map
kind_retry_reason rs ErrorKind.service_not_available = some RetryReason.service_not_available
kind_retry_reason rs
      (ErrorKind.query (QueryErrorKind.server QueryServerErrorKind.prepared_statement_failure)) =
    some RetryReason.query_prepared_statement_failure
kind_retry_reason rs
      (ErrorKind.query (QueryErrorKind.server QueryServerErrorKind.index_not_found)) =
    some RetryReason.query_index_not_found
kind_retry_reason rs (ErrorKind.query (QueryErrorKind.http e)) = http_retry_reason e
kind_retry_reason rs (ErrorKind.search (SearchErrorKind.server status_code)) =
    if status_code == 429 then some RetryReason.search_too_many_requests else none
kind_retry_reason rs (ErrorKind.search (SearchErrorKind.http e)) = http_retry_reason e
kind_retry_reason rs (ErrorKind.analytics (AnalyticsErrorKind.http e)) = http_retry_reason e
kind_retry_reason rs (ErrorKind.mgmt (MgmtErrorKind.http e)) = http_retry_reason e
kind_retry_reason rs _ = none

-- The identifier that an error leaves in the record: a failed packet's opaque replaces it.
unfoldable pub noted_id : Option ℕ → ErrorKind → Option ℕ
noted_id id (ErrorKind.memdx e) = Memdx.has_opaque e
noted_id id _ = id

abbrev pub note_opaque : RetryRequest → ErrorKind → RetryRequest
note_opaque info kind = record {
  operation = info.operation;
  is_idempotent = info.is_idempotent;
  retry_attempts = info.retry_attempts;
  retry_reasons = info.retry_reasons;
  unique_id = noted_id info.unique_id kind;
}

unfoldable pub error_to_retry_reason :
    ErrMapComponent → RetryRequest → CoreError → RetryRequest × Option RetryReason
error_to_retry_reason rs retry_info e = (note_opaque retry_info e.kind, kind_retry_reason rs e.kind)

-- What `RetryStrategy::retry_after` answers: the pause before a retry.
abbrev pub RetryStrategy : Type 0
RetryStrategy = RetryRequest → RetryReason → Option ℕ

unfoldable pub strategy_retry : RetryRequest → RetryReason → Option ℕ → RetryRequest × Option ℕ
strategy_retry request reason (some duration) = (add_retry_attempt request reason, some duration)
strategy_retry request reason none = (request, none)

unfoldable pub maybe_retry : RetryStrategy → RetryRequest → RetryReason → RetryRequest × Option ℕ
maybe_retry strategy request reason =
    if always_retry reason
    then (let counted = add_retry_attempt request reason in
        (counted, some (controlled_backoff counted.retry_attempts)))
    else strategy_retry request reason (strategy request reason)

unfoldable pub retry_for :
    RetryStrategy → RetryRequest × Option RetryReason → RetryRequest × Option ℕ
retry_for strategy (info, some reason) = maybe_retry strategy info reason
retry_for strategy (info, none) = (info, none)

unfoldable pub with_retry_info : RetryRequest → CoreError → CoreError
with_retry_info info e = if ltb 0 info.retry_attempts then set_retry_info e info else e

-- The outcome of the loop, with its pauses.
abbrev pub Run {ℓ} : Type ℓ → Type ℓ
Run A = Option (Result CoreError A × List ℕ)

unfoldable pub pause {ℓ} : {A : Type ℓ} → ℕ → Run A → Run A
pause duration (some (result, slept)) = some (result, duration ∷ slept)
pause duration none = none

unfoldable pub after_failure {ℓ} :
    {A : Type ℓ} → CoreError → RetryRequest × Option ℕ → (RetryRequest → Run A) → Run A
after_failure e (info, some duration) again = pause duration (again info)
after_failure e (info, none) again = some (err (with_retry_info info e), [])

unfoldable pub orchestrate_retries {ℓ} :
    {A : Type ℓ}
    → ErrMapComponent
    → RetryStrategy
    → RetryRequest
    → List (Result CoreError A)
    → Run A
orchestrate_retries rs strategy retry_info [] = none
orchestrate_retries rs strategy retry_info (ok r ∷ later) = some (ok r, [])
orchestrate_retries rs strategy retry_info (panic ∷ later) = some (panic, [])
orchestrate_retries rs strategy retry_info (err e ∷ later) =
    after_failure e (retry_for strategy (error_to_retry_reason rs retry_info e))
      (λ info. orchestrate_retries rs strategy info later)

-- `FailFastRetryStrategy::retry_after`
unfoldable pub fail_fast : RetryStrategy
fail_fast request reason = none

-- `BestEffortRetryStrategy::retry_after`, with its calculator.
unfoldable pub best_effort : (ℕ → ℕ) → RetryStrategy
best_effort backoff request reason =
    if request.is_idempotent || allows_non_idempotent_retry reason
    then some (backoff request.retry_attempts)
    else none

-- A quotient, which panics on a zero divisor.
unfoldable pub checked_div : ℕ → ℕ → Result CoreError ℕ
checked_div a b = if b == 0 then panic else ok (a / b)

unfoldable pub clamped : ℕ → ℕ → ℕ → ℕ
clamped min max backoff =
    let capped = if ltb max backoff then max else backoff in if ltb capped min then min else capped

-- The pause for a power of the factor, where `most` is the largest power that does not overflow.
unfoldable pub bounded_pause : ℕ → ℕ → ℕ → ℕ → ℕ
bounded_pause most factor min max =
    if ltb most factor
    then max
    else (let val = as_millis min * factor in
        if ltb (2 ^ 64 - 1) val then max else clamped min max (from_millis val))

-- `ExponentialBackoffCalculator::backoff`. The power of the factor, a floating-point number cut to
-- 128 bits, is an argument.
unfoldable pub exponential_backoff : (ℕ → ℕ) → ℕ → ℕ → ℕ → Result CoreError ℕ
exponential_backoff factor_u128 min max retry_attempts = do
  most ← checked_div (2 ^ 128 - 1) (as_millis min)
  ok (bounded_pause most (factor_u128 retry_attempts) min max)
