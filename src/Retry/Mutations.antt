-- ===== src/Retry/Mutations.antt =====
-- The retries of failed mutations: the responses of sdk/couchbase-core/src/memdx/response.rs under
-- the reasons of retry.rs.
use couchbase_rs.Prelude.{
  ℕ, ◌≡◌, ◌≢◌, refl, sym, ◌⊎◌, inl, inr, if◌then◌else◌, ◌∙◌, Bool, true, false, Option, none, some,
  Result, ok, err, panic,
}
use couchbase_rs.Memdx.Error.{Error, ServerErrorKind, server}
use couchbase_rs.Memdx.Packet.{ResponsePacket}
use couchbase_rs.Memdx.Status.{Status}
use couchbase_rs.Memdx.Crud.Errors.{base_error, decode_common_mutation_error}
use couchbase_rs.Memdx.Crud.Mutations.{
  Answer, own, common, set_answer, delete_answer, add_answer, replace_answer, append_answer,
  counter_answer, check_answer, set_response, delete_response, add_response, replace_response,
  append_response, prepend_response, increment_response, decrement_response,
}
use couchbase_rs.Errors.Retries.{RetryReason}
use couchbase_rs.Retry.ErrMaps.{ErrMapComponent}
use couchbase_rs.Retry.{memdx_retry_reason, server_error_to_retry_reason}
use couchbase_rs.Retry.Statuses.{status_reason, decode_common_mutation_error_reason}

pub data Mutation : Type 0 where
  set delete add replace append prepend increment decrement : Mutation

-- What a mutation answers without retry, for it says that the document or the request does not fit.
-- The Boolean is whether the request has a cas.
abbrev pub is_final : Mutation → Bool → Status → Bool
is_final set cas Status.too_big = true
is_final set cas Status.key_exists = true
is_final delete cas Status.key_not_found = true
is_final delete cas Status.key_exists = true
is_final add cas Status.too_big = true
is_final add cas Status.key_exists = true
is_final replace cas Status.too_big = true
is_final replace cas Status.key_not_found = true
is_final replace cas Status.key_exists = true
is_final append cas Status.too_big = true
is_final append cas Status.not_stored = true
is_final append cas Status.key_exists = cas
is_final prepend cas Status.too_big = true
is_final prepend cas Status.not_stored = true
is_final prepend cas Status.key_exists = cas
is_final increment cas Status.key_not_found = true
is_final increment cas Status.bad_delta = true
is_final decrement cas Status.key_not_found = true
is_final decrement cas Status.bad_delta = true
is_final _ cas _ = false

abbrev pub is_given : Option ℕ → Bool
is_given (some cas) = true
is_given none = false

-- The reason for a retry of a mutation by the status of its response.
abbrev pub mutation_reason : ErrMapComponent → Mutation → Option ℕ → Status → Option RetryReason
mutation_reason rs m cas Status.locked = some RetryReason.kv_locked
mutation_reason rs m cas s = if is_final m (is_given cas) s then none else status_reason rs s

-- A result without its value.
abbrev pub outcome {ℓ} : {A : Type ℓ} → Result Error A → Result Error (Unit {0})
outcome (ok response) = ok tt
outcome (err e) = err e
outcome panic = panic

-- How a mutation's response to a request with a cas, or with none, comes out.
abbrev pub response_of : Mutation → (ℕ → ℕ) → Option ℕ → ResponsePacket → Result Error (Unit {0})
response_of set curve cas packet = outcome (set_response curve packet)
response_of delete curve cas packet = outcome (delete_response curve packet)
response_of add curve cas packet = outcome (add_response curve packet)
response_of replace curve cas packet = outcome (replace_response curve packet)
response_of append curve cas packet = outcome (append_response curve (some cas) packet)
response_of prepend curve cas packet = outcome (prepend_response curve (some cas) packet)
response_of increment curve cas packet = outcome (increment_response curve packet)
response_of decrement curve cas packet = outcome (decrement_response curve packet)

abbrev answer_of : Mutation → Option ℕ → Status → Answer
answer_of set cas s = set_answer s
answer_of delete cas s = delete_answer s
answer_of add cas s = add_answer s
answer_of replace cas s = replace_answer s
answer_of append cas s = append_answer cas s
answer_of prepend cas s = append_answer cas s
answer_of increment cas s = counter_answer s
answer_of decrement cas s = counter_answer s

module _ (rs : ErrMapComponent) where
  -- The three ways to answer.
  abbrev Classified : Mutation → Option ℕ → Status → Type 0
  Classified m cas s =
      ((kind : ServerErrorKind) × (answer_of m cas s ≡ own kind)
        × ((packet : ResponsePacket)
            → memdx_retry_reason rs (server (base_error packet kind)) ≡ mutation_reason rs m cas s))
      ⊎ ((answer_of m cas s ≡ common) × (mutation_reason rs m cas s ≡ status_reason rs s))
      ⊎ (s ≡ Status.success)

  set_answer-Classified : (cas : Option ℕ) (s : Status) → Classified set cas s
  unfolding set_answer memdx_retry_reason server_error_to_retry_reason
  set_answer-Classified cas Status.success = inr (inr refl)
  set_answer-Classified cas Status.locked = inl (ServerErrorKind.locked, refl, λ packet. refl)
  set_answer-Classified cas Status.too_big = inl (ServerErrorKind.too_big, refl, λ packet. refl)
  set_answer-Classified cas Status.key_exists =
      inl (ServerErrorKind.cas_mismatch, refl, λ packet. refl)
  set_answer-Classified cas _ = inr (inl (refl, refl))

  delete_answer-Classified : (cas : Option ℕ) (s : Status) → Classified delete cas s
  unfolding delete_answer memdx_retry_reason server_error_to_retry_reason
  delete_answer-Classified cas Status.success = inr (inr refl)
  delete_answer-Classified cas Status.locked = inl (ServerErrorKind.locked, refl, λ packet. refl)
  delete_answer-Classified cas Status.key_not_found =
      inl (ServerErrorKind.key_not_found, refl, λ packet. refl)
  delete_answer-Classified cas Status.key_exists =
      inl (ServerErrorKind.cas_mismatch, refl, λ packet. refl)
  delete_answer-Classified cas _ = inr (inl (refl, refl))

  add_answer-Classified : (cas : Option ℕ) (s : Status) → Classified add cas s
  unfolding add_answer memdx_retry_reason server_error_to_retry_reason
  add_answer-Classified cas Status.success = inr (inr refl)
  add_answer-Classified cas Status.locked = inl (ServerErrorKind.locked, refl, λ packet. refl)
  add_answer-Classified cas Status.too_big = inl (ServerErrorKind.too_big, refl, λ packet. refl)
  add_answer-Classified cas Status.key_exists =
      inl (ServerErrorKind.key_exists, refl, λ packet. refl)
  add_answer-Classified cas _ = inr (inl (refl, refl))

  replace_answer-Classified : (cas : Option ℕ) (s : Status) → Classified replace cas s
  unfolding replace_answer memdx_retry_reason server_error_to_retry_reason
  replace_answer-Classified cas Status.success = inr (inr refl)
  replace_answer-Classified cas Status.locked = inl (ServerErrorKind.locked, refl, λ packet. refl)
  replace_answer-Classified cas Status.too_big = inl (ServerErrorKind.too_big, refl, λ packet. refl)
  replace_answer-Classified cas Status.key_not_found =
      inl (ServerErrorKind.key_not_found, refl, λ packet. refl)
  replace_answer-Classified cas Status.key_exists =
      inl (ServerErrorKind.cas_mismatch, refl, λ packet. refl)
  replace_answer-Classified cas _ = inr (inl (refl, refl))

  -- `append` and `prepend` alike.
  append_answer-Classified :
      (cas : Option ℕ) (s : Status) → Classified append cas s × Classified prepend cas s
  unfolding append_answer memdx_retry_reason server_error_to_retry_reason
  append_answer-Classified cas Status.success = (inr (inr refl), inr (inr refl))
  append_answer-Classified cas Status.locked = (
    inl (ServerErrorKind.locked, refl, λ packet. refl),
    inl (ServerErrorKind.locked, refl, λ packet. refl),
  )
  append_answer-Classified cas Status.too_big = (
    inl (ServerErrorKind.too_big, refl, λ packet. refl),
    inl (ServerErrorKind.too_big, refl, λ packet. refl),
  )
  append_answer-Classified cas Status.not_stored = (
    inl (ServerErrorKind.not_stored, refl, λ packet. refl),
    inl (ServerErrorKind.not_stored, refl, λ packet. refl),
  )
  append_answer-Classified (some cas) Status.key_exists = (
    inl (ServerErrorKind.cas_mismatch, refl, λ packet. refl),
    inl (ServerErrorKind.cas_mismatch, refl, λ packet. refl),
  )
  append_answer-Classified none Status.key_exists = (inr (inl (refl, refl)), inr (inl (refl, refl)))
  append_answer-Classified cas _ = (inr (inl (refl, refl)), inr (inl (refl, refl)))

  counter_answer-Classified :
      (cas : Option ℕ) (s : Status) → Classified increment cas s × Classified decrement cas s
  unfolding counter_answer memdx_retry_reason server_error_to_retry_reason
  counter_answer-Classified cas Status.success = (inr (inr refl), inr (inr refl))
  counter_answer-Classified cas Status.locked = (
    inl (ServerErrorKind.locked, refl, λ packet. refl),
    inl (ServerErrorKind.locked, refl, λ packet. refl),
  )
  counter_answer-Classified cas Status.key_not_found = (
    inl (ServerErrorKind.key_not_found, refl, λ packet. refl),
    inl (ServerErrorKind.key_not_found, refl, λ packet. refl),
  )
  counter_answer-Classified cas Status.bad_delta = (
    inl (ServerErrorKind.bad_delta, refl, λ packet. refl),
    inl (ServerErrorKind.bad_delta, refl, λ packet. refl),
  )
  counter_answer-Classified cas _ = (inr (inl (refl, refl)), inr (inl (refl, refl)))

  answer_of-Classified : (m : Mutation) (cas : Option ℕ) (s : Status) → Classified m cas s
  answer_of-Classified set = set_answer-Classified
  answer_of-Classified delete = delete_answer-Classified
  answer_of-Classified add = add_answer-Classified
  answer_of-Classified replace = replace_answer-Classified
  answer_of-Classified append = λ cas s. (append_answer-Classified cas s).0
  answer_of-Classified prepend = λ cas s. (append_answer-Classified cas s).1
  answer_of-Classified increment = λ cas s. (counter_answer-Classified cas s).0
  answer_of-Classified decrement = λ cas s. (counter_answer-Classified cas s).1

  response_of-err :
      (m : Mutation) (curve : ℕ → ℕ) (cas : Option ℕ) (packet : ResponsePacket) (e : Error)
      → check_answer packet (answer_of m cas packet.status) ≡ err e
      → response_of m curve cas packet ≡ err e
  unfolding set_response delete_response add_response replace_response append_response
      increment_response
  response_of-err set curve cas packet e failed = rw (failed)
  response_of-err delete curve cas packet e failed = rw (failed)
  response_of-err add curve cas packet e failed = rw (failed)
  response_of-err replace curve cas packet e failed = rw (failed)
  response_of-err append curve cas packet e failed = rw (failed)
  response_of-err prepend curve cas packet e failed = rw (failed)
  response_of-err increment curve cas packet e failed = rw (failed)
  response_of-err decrement curve cas packet e failed = rw (failed)

  -- A response to a mutation of a whole document with any status but success is an error, and
  -- whether and why it is retried follows from the status, the request's cas and the server's error
  -- map. A locked document is retried as such, whatever the mutation. A status that says that the
  -- document or the request does not fit the mutation is not retried, for an `append` or a
  -- `prepend` a key that exists only if the request had a cas. Of the other statuses, each has the
  -- reason, if any, that it stands for in every mutation, and one that the client does not know is
  -- left to the error map.
  pub response_of_reason :
      (m : Mutation) (curve : ℕ → ℕ) (cas : Option ℕ) (packet : ResponsePacket)
      → packet.status ≢ Status.success
      → (e : Error) × (response_of m curve cas packet ≡ err e)
        × (memdx_retry_reason rs e ≡ mutation_reason rs m cas packet.status)
  unfolding check_answer
  response_of_reason m curve cas packet failed = elim (answer_of-Classified m cas packet.status) [
    | inl (kind, answer, reason) ↦ (
      server (base_error packet kind),
      response_of-err m curve cas packet (server (base_error packet kind)) (rw (answer)),
      reason packet,
    )
    | inr (inl (answer, reason)) ↦ (
      decode_common_mutation_error packet,
      response_of-err m curve cas packet (decode_common_mutation_error packet) (rw (answer)),
      decode_common_mutation_error_reason rs packet ∙ sym reason,
    )
    | inr (inr success) ↦ absurd (failed success)
  ]
