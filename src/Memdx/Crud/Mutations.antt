-- ===== src/Memdx/Crud/Mutations.antt =====
-- sdk/couchbase-core/src/memdx/response.rs: the responses to the mutations of a whole document, from
-- the packet of the response. Six of them have the same fields and are one record here, as are the
-- two counters.
use couchbase_rs.Prelude.{
  ℕ, List, Option, none, some, Result, ok, err, panic, ◌>>=◌, ◌>>◌, ◌==◌, length, if◌then◌else◌,
}
use couchbase_rs.Prelude.Bytes.{get_u64}
use couchbase_rs.Memdx.Error.{Error, ServerErrorKind, protocol, server}
use couchbase_rs.Memdx.Packet.{ResponsePacket}
use couchbase_rs.Memdx.Status.{Status}
use couchbase_rs.Memdx.Crud.Errors.{base_error, decode_common_mutation_error}
use couchbase_rs.Memdx.ExtFrame.Responses.{decode_res_ext_frames}

pub record MutationToken : Type 0 where
  pub vbuuid : ℕ
  pub seqno : ℕ

-- `MutationToken::try_from`
unfoldable pub mutation_token_from : List ℕ → Result Error MutationToken
mutation_token_from value =
    if length value == 16
    then (do
      (vbuuid, seqno_bytes) ← get_u64 value
      (seqno, _) ← get_u64 seqno_bytes
      ok (record { vbuuid = vbuuid; seqno = seqno }))
    else err (protocol "bad extras length")

pub record MutationResponse : Type 0 where
  pub cas : ℕ
  pub mutation_token : Option MutationToken
  pub server_duration : Option ℕ

pub record CounterResponse : Type 0 where
  pub cas : ℕ
  pub value : ℕ
  pub mutation_token : Option MutationToken
  pub server_duration : Option ℕ

-- What a response makes of its status: a failure of the operation's own, a success, or the failure
-- that the status stands for in any mutation.
pub data Answer : Type 0 where
  own : ServerErrorKind → Answer
  succeeds common : Answer

unfoldable pub set_answer : Status → Answer
set_answer Status.too_big = own ServerErrorKind.too_big
set_answer Status.locked = own ServerErrorKind.locked
set_answer Status.key_exists = own ServerErrorKind.cas_mismatch
set_answer Status.success = succeeds
set_answer _ = common

unfoldable pub delete_answer : Status → Answer
delete_answer Status.key_not_found = own ServerErrorKind.key_not_found
delete_answer Status.locked = own ServerErrorKind.locked
delete_answer Status.key_exists = own ServerErrorKind.cas_mismatch
delete_answer Status.success = succeeds
delete_answer _ = common

unfoldable pub add_answer : Status → Answer
add_answer Status.too_big = own ServerErrorKind.too_big
add_answer Status.locked = own ServerErrorKind.locked
add_answer Status.key_exists = own ServerErrorKind.key_exists
add_answer Status.success = succeeds
add_answer _ = common

unfoldable pub replace_answer : Status → Answer
replace_answer Status.too_big = own ServerErrorKind.too_big
replace_answer Status.key_not_found = own ServerErrorKind.key_not_found
replace_answer Status.locked = own ServerErrorKind.locked
replace_answer Status.key_exists = own ServerErrorKind.cas_mismatch
replace_answer Status.success = succeeds
replace_answer _ = common

-- With the cas that the request had.
unfoldable pub append_answer : Option ℕ → Status → Answer
append_answer cas Status.too_big = own ServerErrorKind.too_big
append_answer cas Status.not_stored = own ServerErrorKind.not_stored
append_answer cas Status.locked = own ServerErrorKind.locked
append_answer (some cas) Status.key_exists = own ServerErrorKind.cas_mismatch
append_answer none Status.key_exists = common
append_answer cas Status.success = succeeds
append_answer cas _ = common

unfoldable pub counter_answer : Status → Answer
counter_answer Status.key_not_found = own ServerErrorKind.key_not_found
counter_answer Status.locked = own ServerErrorKind.locked
counter_answer Status.bad_delta = own ServerErrorKind.bad_delta
counter_answer Status.success = succeeds
counter_answer _ = common

-- The error that a response returns for its status, if any.
unfoldable pub check_answer : ResponsePacket → Answer → Result Error (Unit {0})
check_answer packet (own kind) = err (server (base_error packet kind))
check_answer packet succeeds = ok tt
check_answer packet common = err (decode_common_mutation_error packet)

unfoldable pub token_in : Option (List ℕ) → Result Error (Option MutationToken)
unfolding mutation_token_from
token_in none = ok none
token_in (some extras) = do token ← mutation_token_from extras; ok (some token)

unfoldable pub server_duration_in : (ℕ → ℕ) → Option (List ℕ) → Result Error (Option ℕ)
server_duration_in curve none = ok none
server_duration_in curve (some f) = decode_res_ext_frames curve f

-- `unwrap_or_default`
abbrev pub or_zero : Option ℕ → ℕ
or_zero (some cas) = cas
or_zero none = 0

unfoldable pub mutation_fields : (ℕ → ℕ) → ResponsePacket → Result Error MutationResponse
mutation_fields curve packet = do
  token ← token_in packet.extras
  duration ← server_duration_in curve packet.framing_extras
  ok (record { cas = or_zero packet.cas; mutation_token = token; server_duration = duration })

-- `SetResponse`, `DeleteResponse`, `AddResponse` and `ReplaceResponse`.
unfoldable pub set_response : (ℕ → ℕ) → ResponsePacket → Result Error MutationResponse
set_response curve packet =
    check_answer packet (set_answer packet.status) >> mutation_fields curve packet

unfoldable pub delete_response : (ℕ → ℕ) → ResponsePacket → Result Error MutationResponse
delete_response curve packet =
    check_answer packet (delete_answer packet.status) >> mutation_fields curve packet

unfoldable pub add_response : (ℕ → ℕ) → ResponsePacket → Result Error MutationResponse
add_response curve packet =
    check_answer packet (add_answer packet.status) >> mutation_fields curve packet

unfoldable pub replace_response : (ℕ → ℕ) → ResponsePacket → Result Error MutationResponse
replace_response curve packet =
    check_answer packet (replace_answer packet.status) >> mutation_fields curve packet

-- `AppendResponse`, and `PrependResponse`, with the request's cas from the response's context, which
-- they expect to be there.
unfoldable pub append_response :
    (ℕ → ℕ) → Option (Option ℕ) → ResponsePacket → Result Error MutationResponse
append_response curve none packet = panic
append_response curve (some cas) packet =
    check_answer packet (append_answer cas packet.status) >> mutation_fields curve packet

abbrev pub prepend_response :
    (ℕ → ℕ) → Option (Option ℕ) → ResponsePacket → Result Error MutationResponse
prepend_response curve context packet = append_response curve context packet

unfoldable pub counter_value : Option (List ℕ) → Result Error ℕ
counter_value none = ok 0
counter_value (some val) =
    if length val == 8
    then (do (value, _) ← get_u64 val; ok value)
    else err (protocol "bad counter value length in response")

-- `IncrementResponse`, and `DecrementResponse`.
unfoldable pub increment_response : (ℕ → ℕ) → ResponsePacket → Result Error CounterResponse
increment_response curve packet = do
  check_answer packet (counter_answer packet.status)
  value ← counter_value packet.value
  token ← token_in packet.extras
  duration ← server_duration_in curve packet.framing_extras
  ok (record {
    cas = or_zero packet.cas;
    value = value;
    mutation_token = token;
    server_duration = duration;
  })

abbrev pub decrement_response : (ℕ → ℕ) → ResponsePacket → Result Error CounterResponse
decrement_response curve packet = increment_response curve packet
