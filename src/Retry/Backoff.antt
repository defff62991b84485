-- ===== src/Retry/Backoff.antt =====
-- The pauses of sdk/couchbase-core/src/retry.rs and retrybesteffort.rs.
use couchbase_rs.Prelude.{ℕ, zero, suc, ◌-◌, ◌*◌, ◌/◌, ◌^◌, ◌<◌, ◌≤◌, ◌≡◌, ok, panic, arith}
use couchbase_rs.Memdx.ExtFrame.Durability.{as_millis, from_millis}
use couchbase_rs.Retry.{
  controlled_backoff, checked_div, clamped, bounded_pause, exponential_backoff,
}

-- More retries never make the controlled pause shorter, and it is between a millisecond and a
-- second.
pub controlled_backoff_grows :
    (n : ℕ)
    → (controlled_backoff n ≤ controlled_backoff (suc n))
      × (from_millis 1 ≤ controlled_backoff n)
      × (controlled_backoff n ≤ from_millis 1000)
unfolding controlled_backoff
controlled_backoff_grows zero = omega arith
controlled_backoff_grows (suc zero) = omega arith
controlled_backoff_grows (suc (suc zero)) = omega arith
controlled_backoff_grows (suc (suc (suc zero))) = omega arith
controlled_backoff_grows (suc (suc (suc (suc zero)))) = omega arith
controlled_backoff_grows (suc (suc (suc (suc (suc n))))) = omega arith

clamped_between :
    (min max backoff : ℕ)
    → min ≤ max
    → (min ≤ clamped min max backoff) × (clamped min max backoff ≤ max)
unfolding clamped
clamped_between min max backoff h = ground arith

bounded_pause_between :
    (most factor min max : ℕ)
    → min ≤ max
    → (min ≤ bounded_pause most factor min max) × (bounded_pause most factor min max ≤ max)
unfolding bounded_pause
bounded_pause_between most factor min max h =
    let between = clamped_between min max (from_millis (as_millis min * factor)) h in ground arith

checked_div-cases :
    (a b : ℕ) → (0 < b → checked_div a b ≡ ok (a / b)) × (b ≡ 0 → checked_div a b ≡ panic)
unfolding checked_div
checked_div-cases a b = ground arith

-- The exponential pause is between its smallest and its largest, whatever the power of the factor,
-- where the smallest is a millisecond at least and no longer than the largest; with a smallest
-- below a millisecond the division by it panics.
pub exponential_backoff_between :
    (factor_u128 : ℕ → ℕ) (min max retry_attempts : ℕ)
    → min ≤ max
    → (from_millis 1 ≤ min
        → (pause : ℕ) × (exponential_backoff factor_u128 min max retry_attempts ≡ ok pause)
          × (min ≤ pause)
          × (pause ≤ max))
      × (min < from_millis 1 → exponential_backoff factor_u128 min max retry_attempts ≡ panic)
unfolding exponential_backoff
exponential_backoff_between factor_u128 min max retry_attempts h =
    let (divides, fails) = checked_div-cases (2 ^ 128 - 1) (as_millis min) in
    let most = (2 ^ 128 - 1) / as_millis min in
    let pause = bounded_pause most (factor_u128 retry_attempts) min max in
    let (above, below) = bounded_pause_between most (factor_u128 retry_attempts) min max h in
    (λ long. (pause, rw (divides (omega arith)), above, below), λ short. rw (fails (omega arith)))
