-- ===== src/Errors.antt =====
-- sdk/couchbase-core/src/error.rs, and the kinds of error of the HTTP services it wraps. The fields
-- that only messages print are left out, and so is a boxed source.
pub mod Retries
pub mod Services
use Prim.Native.String.{String}
use couchbase_rs.Prelude.{ℕ, Bool, true, false, Option, none, some}
use couchbase_rs.Errors.Retries.{RetryRequest}
use couchbase_rs.Errors.Services.{
  AnalyticsErrorKind, QueryErrorKind, SearchErrorKind, HttpErrorKind, MgmtErrorKind,
}
use couchbase_rs.Memdx.Error as Memdx

pub data ErrorKind : Type 0 where
  memdx : Memdx.Error → ErrorKind
  analytics : AnalyticsErrorKind → ErrorKind
  query : QueryErrorKind → ErrorKind
  search : SearchErrorKind → ErrorKind
  http : HttpErrorKind → ErrorKind
  mgmt : MgmtErrorKind → ErrorKind
  vbucket_map_outdated : ErrorKind
  invalid_argument : String → Option String → ErrorKind
  endpoint_not_known : String → ErrorKind
  invalid_vbucket : ℕ → ℕ → ErrorKind
  invalid_replica : ℕ → ℕ → ErrorKind
  no_endpoints_available shutdown no_bucket : ErrorKind
  illegal_state : String → ErrorKind
  no_vbucket_map : ErrorKind
  no_server_assigned : ℕ → ErrorKind
  collection_manifest_outdated : ℕ → ℕ → ErrorKind
  message : String → ErrorKind
  service_not_available : ErrorKind
  feature_not_available : String → String → ErrorKind
  compression internal : String → ErrorKind

pub record CoreError : Type 0 where
  pub kind : ErrorKind
  pub retry_info : Option RetryRequest

-- `Error::new`, and `.into()` on a kind.
abbrev pub new_error : ErrorKind → CoreError
new_error kind = record { kind = kind; retry_info = none }

-- `Error::is_memdx_error`
abbrev pub is_memdx_error : CoreError → Option Memdx.Error
is_memdx_error e = elim e.kind [ memdx source ↦ some source | _ ↦ none ]

-- `Error::set_retry_info`
abbrev pub set_retry_info : CoreError → RetryRequest → CoreError
set_retry_info e info = record { kind = e.kind; retry_info = some info }
