-- ===== src/Retry/Loop.antt =====
-- The loop of sdk/couchbase-core/src/retry.rs, `orchestrate_retries`: one turn of it, and what
-- holds of all the failures that it retries.
use couchbase_rs.Prelude.{
  ℕ, ◌+◌, ◌^◌, ◌<◌, ◌≡◌, refl, ap, sym, ◌∙◌, ◌⊎◌, inl, inr, true, List, [], ◌∷◌, Option, none, some,
  Result, ok, err, panic, length, take, All, get_elem?, Option-cases, arith, Bool-cases, ltb,
  ltb→lt,
}
use mathlib.Core.Path.{subst}
use mathlib.Core.Option.{some-ne-none, some-injective}
use couchbase_rs.Errors.{CoreError, set_retry_info}
use couchbase_rs.Errors.Retries.{RetryRequest, RetryReason, always_retry, add_retry_attempt}
use couchbase_rs.Retry.ErrMaps.{ErrMapComponent}
use couchbase_rs.Retry.{
  RetryStrategy, Run, orchestrate_retries, pause, after_failure, retry_for, controlled_backoff,
  error_to_retry_reason, with_retry_info, maybe_retry, strategy_retry, kind_retry_reason,
  note_opaque,
}

-- A value or a panic is handed on as it is; an error with its kind, and with the record of the
-- retries if that counts one, and otherwise as it is.
abbrev pub HandsOn {ℓ} :
    {A : Type ℓ} → RetryRequest → Result CoreError A → Result CoreError A → Type ℓ
HandsOn last (ok r) result = result ≡ ok r
HandsOn last (err e) result =
    (returned : CoreError) × (result ≡ err returned)
    × (returned.kind ≡ e.kind)
    × (0 < last.retry_attempts → returned.retry_info ≡ some last)
    × (last.retry_attempts ≡ 0 → returned ≡ e)
HandsOn last panic result = result ≡ panic

with_retry_info-HandsOn {ℓ} :
    {A : Type ℓ} (last : RetryRequest) (e : CoreError)
    → HandsOn {A = A} last (err e) (err (with_retry_info last e))
unfolding with_retry_info
with_retry_info-HandsOn last e = elim (Bool-cases (ltb 0 last.retry_attempts)) [
  | inl counted ↦ (
    set_retry_info e last,
    rw (counted),
    refl,
    λ _. refl,
    λ none_counted. absurd (omega (arith, none_counted, ltb→lt _ _ counted)),
  )
  | inr uncounted ↦ (e, rw (uncounted), refl, λ some_counted. absurd (ground arith), λ _. refl)
]

-- What one failure of the operation leads to.
abbrev pub decision :
    ErrMapComponent → RetryStrategy → RetryRequest → CoreError → RetryRequest × Option ℕ
decision rs strategy info e = retry_for strategy (error_to_retry_reason rs info e)

module _ {ℓ} {A : Type ℓ} where
  pause-some :
      (d : ℕ) (run : Run A) (result : Result CoreError A) (slept : List ℕ)
      → pause d run ≡ some (result, slept)
      → (rest : List ℕ) × (slept ≡ d ∷ rest) × (run ≡ some (result, rest))
  unfolding pause
  pause-some d none result slept h = absurd (some-ne-none (result, slept) (sym h))
  pause-some d (some (r, rest)) result slept h =
      let same = some-injective _ _ h in
      (rest, sym (ap (λ p. p.1) same), ap (λ p. some (p.0, rest)) same)

  -- The two ends of a turn: the failure is returned, or the loop goes on after a pause.
  after_failure-some :
      (e : CoreError) (d : RetryRequest × Option ℕ) (again : RetryRequest → Run A)
      (result : Result CoreError A) (slept : List ℕ)
      → after_failure e d again ≡ some (result, slept)
      → ((d.1 ≡ none) × (slept ≡ []) × (result ≡ err (with_retry_info d.0 e)))
        ⊎ ((t : ℕ) × (rest : List ℕ) × (d.1 ≡ some t)
            × (slept ≡ t ∷ rest)
            × (again d.0 ≡ some (result, rest)))
  unfolding after_failure
  after_failure-some e (info, some t) again result slept h =
      let (rest, same, run) = pause-some t (again info) result slept h in
      inr (t, rest, refl, same, run)
  after_failure-some e (info, none) again result slept h =
      let same = some-injective _ _ h in
      inl (refl, sym (ap (λ p. p.1) same), sym (ap (λ p. p.0) same))

-- A retry counts the attempt and its reason, and is one that the reason or the strategy asks for; a
-- failure that is not retried leaves the record.
maybe_retry-Option :
    (strategy : RetryStrategy) (info : RetryRequest) (reason : RetryReason)
    → ((d : ℕ) × ((maybe_retry strategy info reason).1 ≡ some d)
        × ((maybe_retry strategy info reason).0 ≡ add_retry_attempt info reason)
        × ((always_retry reason ≡ true) ⊎ (strategy info reason ≡ some d)))
      ⊎ (((maybe_retry strategy info reason).1 ≡ none)
          × ((maybe_retry strategy info reason).0 ≡ info))
unfolding maybe_retry strategy_retry
maybe_retry-Option strategy info reason = elim (Bool-cases (always_retry reason)) [
  | inl always ↦ inl (
    controlled_backoff (add_retry_attempt info reason).retry_attempts,
    rw (always),
    rw (always),
    inl always,
  )
  | inr asked ↦ elim (Option-cases (strategy info reason)) [
    | inl refused ↦ inr (rw (asked, refused), rw (asked, refused))
    | inr (d, agreed) ↦ inl (d, rw (asked, agreed), rw (asked, agreed), inr agreed)
  ]
]

module _ (rs : ErrMapComponent) (strategy : RetryStrategy) (info : RetryRequest)
    (e : CoreError) where
  -- A failure that is retried has a reason for it.
  abbrev pub Retries : Type 0
  Retries =
      (d : ℕ) × (reason : RetryReason) × ((decision rs strategy info e).1 ≡ some d)
      × (kind_retry_reason rs e.kind ≡ some reason)
      × ((decision rs strategy info e).0 ≡ add_retry_attempt (note_opaque info e.kind) reason)
      × ((always_retry reason ≡ true) ⊎ (strategy (note_opaque info e.kind) reason ≡ some d))

  abbrev pub GivesUp : Type 0
  GivesUp =
      ((decision rs strategy info e).1 ≡ none)
      × ((decision rs strategy info e).0 ≡ note_opaque info e.kind)

  pub decision-cases : Retries ⊎ GivesUp
  unfolding retry_for error_to_retry_reason
  decision-cases = elim (Option-cases (kind_retry_reason rs e.kind)) [
    | inl nothing ↦ inr (rw (nothing), rw (nothing))
    | inr (reason, found) ↦ elim (maybe_retry-Option strategy (note_opaque info e.kind) reason) [
      | inl (d, pausing, counted, asked) ↦
          inl (d, reason, rw (found, pausing), found, rw (found, counted), asked)
      | inr (stopped, kept) ↦ inr (rw (found, stopped), rw (found, kept))
    ]
  ]

  pub decision-some : (d : ℕ) → (decision rs strategy info e).1 ≡ some d → Retries
  decision-some d h = elim decision-cases [
    | inl retries ↦ retries
    | inr (stopped, _) ↦ absurd (some-ne-none d (sym h ∙ stopped))
  ]

  pub decision-none : (decision rs strategy info e).1 ≡ none → GivesUp
  decision-none h = elim decision-cases [
    | inl (d, _, pausing, _, _, _) ↦ absurd (some-ne-none d (sym pausing ∙ h))
    | inr stopped ↦ stopped
  ]

module _ {ℓ} {A : Type ℓ} (rs : ErrMapComponent) (strategy : RetryStrategy) where
  -- Where `Good` holds of every failure that a request which `Keeps` retries, and a retry leaves a
  -- request that still `Keeps`, the loop retries none but such failures.
  module _ {κ η} (Keeps : RetryRequest → Type κ) (Good : Result CoreError A → Type η)
      (step : (info : RetryRequest) (e : CoreError) (d : ℕ)
        → Keeps info
        → (decision rs strategy info e).1 ≡ some d
        → Good (err e) × Keeps (decision rs strategy info e).0) where
    pub retried-All :
        (outcomes : List (Result CoreError A)) (info : RetryRequest) (result : Result CoreError A)
        (slept : List ℕ)
        → Keeps info
        → orchestrate_retries rs strategy info outcomes ≡ some (result, slept)
        → All Good (take (length slept) outcomes)
    unfolding orchestrate_retries
    retried-All [] info result slept keeps h = absurd (some-ne-none (result, slept) (sym h))
    retried-All (ok r ∷ later) info result slept keeps h =
        subst (λ s. All Good (take (length s) (ok r ∷ later)))
          (ap (λ p. p.1) (some-injective _ _ h)) tt
    retried-All (panic ∷ later) info result slept keeps h =
        subst (λ s. All Good (take (length s) (panic ∷ later)))
          (ap (λ p. p.1) (some-injective _ _ h)) tt
    retried-All (err e ∷ later) info result slept keeps h =
        elim (after_failure-some e (decision rs strategy info e)
          (λ next. orchestrate_retries rs strategy next later) result slept h) [
            | inl (_, no_pause, _) ↦
                subst (λ s. All Good (take (length s) (err e ∷ later))) (sym no_pause) tt
            | inr (d, rest, retried, paused, run) ↦
                (let (good, kept) = step info e d keeps retried in
                  subst (λ s. All Good (take (length s) (err e ∷ later))) (sym paused)
                    (good, retried-All later (decision rs strategy info e).0 result rest kept run))
          ]

  -- What the loop returns: an outcome, handed on with the last record.
  abbrev pub Returned :
      List (Result CoreError A) → RetryRequest → Result CoreError A → List ℕ → Type ℓ
  Returned outcomes info result slept =
      (outcome : Result CoreError A) × (last : RetryRequest) × (get_elem? outcomes (length slept)
        ≡ some outcome)
      × (last.retry_attempts ≡ info.retry_attempts + length slept)
      × (last.is_idempotent ≡ info.is_idempotent)
      × HandsOn last outcome result

  Returned-here :
      (outcome : Result CoreError A) (later : List (Result CoreError A)) (info last : RetryRequest)
      (result : Result CoreError A) (slept : List ℕ)
      → slept ≡ []
      → last.retry_attempts ≡ info.retry_attempts
      → last.is_idempotent ≡ info.is_idempotent
      → HandsOn last outcome result
      → Returned (outcome ∷ later) info result slept
  Returned-here outcome later info last result slept no_pause attempts idempotent same = (
    outcome,
    last,
    ap (λ s. get_elem? (outcome ∷ later) (length s)) no_pause,
    omega (arith, attempts, ap length no_pause),
    idempotent,
    same,
  )

  -- Fewer than 2 ^ 32 retries in all are counted right: the loop returns the outcome behind the
  -- failures that it retried, one for each pause, a value or a panic as it is, and an error with
  -- the same kind. The last record counts the retries before and those of the loop, and is of the
  -- same idempotency. It is the retry information of the error that is returned, if it counts a
  -- retry; otherwise the error is the outcome's own.
  pub orchestrate_retries-Returned :
      (outcomes : List (Result CoreError A)) (info : RetryRequest) (result : Result CoreError A)
      (slept : List ℕ)
      → orchestrate_retries rs strategy info outcomes ≡ some (result, slept)
      → info.retry_attempts + length slept < 2 ^ 32
      → Returned outcomes info result slept
  unfolding orchestrate_retries
  orchestrate_retries-Returned [] info result slept h few =
      absurd (some-ne-none (result, slept) (sym h))
  orchestrate_retries-Returned (ok r ∷ later) info result slept h few =
      let same = some-injective _ _ h in
      Returned-here (ok r) later info info result slept (sym (ap (λ p. p.1) same)) refl refl
        (sym (ap (λ p. p.0) same))
  orchestrate_retries-Returned (panic ∷ later) info result slept h few =
      let same = some-injective _ _ h in
      Returned-here panic later info info result slept (sym (ap (λ p. p.1) same)) refl refl
        (sym (ap (λ p. p.0) same))
  orchestrate_retries-Returned (err e ∷ later) info result slept h few =
      elim (after_failure-some e (decision rs strategy info e)
        (λ next. orchestrate_retries rs strategy next later) result slept h) [
          | inl (stopped, no_pause, same) ↦
              (let (_, kept) = decision-none rs strategy info e stopped in
                Returned-here (err e) later info (decision rs strategy info e).0 result slept
                  no_pause (ap (λ i. i.retry_attempts) kept) (ap (λ i. i.is_idempotent) kept)
                  (subst (λ r. HandsOn (decision rs strategy info e).0 (err e) r) (sym same)
                    (with_retry_info-HandsOn (decision rs strategy info e).0 e)))
          | inr (d, rest, retried, paused, run) ↦
              (let (_, reason, _, _, counted, _) = decision-some rs strategy info e d retried in
                let one_more = ap (λ i. i.retry_attempts) counted in
                let (outcome, last, found, attempts, idempotent, same) =
                  orchestrate_retries-Returned later (decision rs strategy info e).0 result rest run
                    (omega (arith, one_more, few, ap length paused)) in
                (
                  outcome,
                  last,
                  ap (λ s. get_elem? (err e ∷ later) (length s)) paused ∙ found,
                  omega (arith, one_more, attempts, few, ap length paused),
                  idempotent ∙ ap (λ i. i.is_idempotent) counted,
                  same,
                ))
        ]
