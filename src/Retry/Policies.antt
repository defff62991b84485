-- ===== src/Retry/Policies.antt =====
-- What the strategies of sdk/couchbase-core/src/retrybesteffort.rs and retryfailfast.rs make of the
-- loop in retry.rs, and the failures that are retried whatever the strategy.
use couchbase_rs.Prelude.{
  ℕ, zero, suc, ◌+◌, ◌%◌, ◌^◌, ◌<◌, ◌≡◌, ◌≢◌, refl, ap, sym, ◌∙◌, inl, inr, true, false, List, [],
  ◌∷◌, ◌++◌, map, none, some, Result, ok, err, panic, length, take, All, arith,
}
use mathlib.Core.Option.{some-ne-none}
use couchbase_rs.Memdx.Error as Memdx
use couchbase_rs.Errors.{CoreError, ErrorKind}
use couchbase_rs.Errors.Retries.{
  RetryRequest, RetryReason, always_retry, allows_non_idempotent_retry, add_retry_attempt,
}
use couchbase_rs.Retry.ErrMaps.{ErrMapComponent}
use couchbase_rs.Retry.{
  RetryStrategy, orchestrate_retries, after_failure, pause, retry_for, error_to_retry_reason,
  maybe_retry, strategy_retry, kind_retry_reason, memdx_retry_reason, controlled_backoff,
  best_effort, fail_fast, note_opaque,
}
use couchbase_rs.Retry.Loop.{decision, decision-some, retried-All}

-- The request went out and the connection was closed before its answer.
abbrev pub closed_in_flight : ErrorKind
closed_in_flight = ErrorKind.memdx (Memdx.cancelled Memdx.closed_in_flight)

-- The outcome is no failure with the request in flight.
abbrev pub NotInFlight {ℓ} : {A : Type ℓ} → Result CoreError A → Type 0
NotInFlight (err e) = e.kind ≢ closed_in_flight
NotInFlight (ok r) = Unit {0}
NotInFlight panic = Unit {0}

-- The outcome is a failure that is retried whatever the strategy.
abbrev pub AlwaysRetried {ℓ} : {A : Type ℓ} → ErrMapComponent → Result CoreError A → Type 0
AlwaysRetried rs (err e) =
    (reason : RetryReason) × (kind_retry_reason rs e.kind ≡ some reason)
    × (always_retry reason ≡ true)
AlwaysRetried rs (ok r) = ⊥
AlwaysRetried rs panic = ⊥

best_effort_refuses :
    (rs : ErrMapComponent) (backoff : ℕ → ℕ) (info : RetryRequest) (e : CoreError)
    → info.is_idempotent ≡ false
    → e.kind ≡ closed_in_flight
    → (decision rs (best_effort backoff) info e).1 ≡ none
unfolding retry_for error_to_retry_reason kind_retry_reason memdx_retry_reason maybe_retry
    always_retry strategy_retry best_effort allows_non_idempotent_retry
best_effort_refuses rs backoff info e once closed = rw (closed, once)

-- Under the best-effort strategy, whatever its calculator, a request that is not idempotent is
-- never sent again after a failure that closed the connection with the request in flight: none of
-- the failures that the loop retried is one.
pub best_effort_sends_once {ℓ} :
    {A : Type ℓ} (rs : ErrMapComponent) (backoff : ℕ → ℕ) (outcomes : List (Result CoreError A))
    (info : RetryRequest) (result : Result CoreError A) (slept : List ℕ)
    → info.is_idempotent ≡ false
    → orchestrate_retries rs (best_effort backoff) info outcomes ≡ some (result, slept)
    → All NotInFlight (take (length slept) outcomes)
best_effort_sends_once rs backoff outcomes info result slept =
    retried-All rs (best_effort backoff) (λ i. i.is_idempotent ≡ false) NotInFlight
      (λ i e d once pausing. (
        λ closed. some-ne-none d (sym pausing ∙ best_effort_refuses rs backoff i e once closed),
        (let (_, reason, _, _, counted, _) = decision-some rs (best_effort backoff) i e d pausing in
            ap (λ j. j.is_idempotent) counted ∙ once),
      ))
      outcomes info result slept

-- Under the fail-fast strategy the loop retries no failure but those whose reason asks for a retry
-- whatever the strategy.
pub fail_fast_retries_always {ℓ} :
    {A : Type ℓ} (rs : ErrMapComponent) (outcomes : List (Result CoreError A)) (info : RetryRequest)
    (result : Result CoreError A) (slept : List ℕ)
    → orchestrate_retries rs fail_fast info outcomes ≡ some (result, slept)
    → All (AlwaysRetried rs) (take (length slept) outcomes)
unfolding fail_fast
fail_fast_retries_always rs outcomes info result slept =
    retried-All rs fail_fast (λ i. Unit {0}) (AlwaysRetried rs)
      (λ i e d _ pausing.
        let (wait, reason, _, found, _, asked) = decision-some rs fail_fast i e d pausing in
        (
          elim asked [
            | inl always ↦ (reason, found, always)
            | inr agreed ↦ absurd (some-ne-none wait (sym agreed))
          ],
          tt,
        ))
      outcomes info result slept tt

-- The controlled pauses before the retries that follow `attempts` of them.
abbrev pub backoffs : ℕ → ℕ → List ℕ
backoffs attempts zero = []
backoffs attempts (suc n) = controlled_backoff (attempts + 1) ∷ backoffs (attempts + 1) n

decision-always :
    (rs : ErrMapComponent) (strategy : RetryStrategy) (info : RetryRequest) (e : CoreError)
    (reason : RetryReason)
    → kind_retry_reason rs e.kind ≡ some reason
    → always_retry reason ≡ true
    → decision rs strategy info e ≡ (
      add_retry_attempt (note_opaque info e.kind) reason,
      some (controlled_backoff ((info.retry_attempts + 1) % 2 ^ 32)),
    )
unfolding retry_for error_to_retry_reason maybe_retry
decision-always rs strategy info e reason found always = rw (found, always)

-- A success behind any failures that are retried whatever the strategy is reached, after one
-- controlled pause for each, as long as the retries stay below 2 ^ 32.
pub orchestrate_retries_reaches {ℓ} :
    {A : Type ℓ} (rs : ErrMapComponent) (strategy : RetryStrategy) (info : RetryRequest)
    (errors : List CoreError) (r : A) (later : List (Result CoreError A))
    → All (λ e. AlwaysRetried {A = A} rs (err e)) errors
    → info.retry_attempts + length errors < 2 ^ 32
    → orchestrate_retries rs strategy info (map err errors ++ ok r ∷ later)
      ≡ some (ok r, backoffs info.retry_attempts (length errors))
unfolding orchestrate_retries after_failure pause
orchestrate_retries_reaches rs strategy info [] r later all few = refl
orchestrate_retries_reaches rs strategy info (e ∷ errors) r later ((reason, found, always), all)
      few =
    let next = add_retry_attempt (note_opaque info e.kind) reason in
    let counted = (info.retry_attempts + 1) % 2 ^ 32 in
    ap
      (λ d.
        after_failure e d (λ i. orchestrate_retries rs strategy i (map err errors ++ ok r ∷ later)))
      (decision-always rs strategy info e reason found always)
    ∙ ap (pause (controlled_backoff counted))
        (orchestrate_retries_reaches rs strategy next errors r later all (omega (arith, few)))
    ∙ ap (λ n. some (ok r, controlled_backoff n ∷ backoffs n (length errors))) (omega (arith, few))
