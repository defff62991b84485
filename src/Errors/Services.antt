-- ===== src/Errors/Services.antt =====
-- The kinds of error in sdk/couchbase-core/src/httpx, queryx, searchx, analyticsx and mgmtx, with
-- the fields that the retries read.
use Prim.Native.String.{String}
use couchbase_rs.Prelude.{ℕ, Option}

pub data HttpErrorKind : Type 0 where
  connection decoding message send_request : String → HttpErrorKind

pub data QueryServerErrorKind : Type 0 where
  parsing_failure internal authentication_failure cas_mismatch : QueryServerErrorKind
  doc_not_found doc_exists planning_failure index_failure : QueryServerErrorKind
  prepared_statement_failure dml_failure timeout index_exists : QueryServerErrorKind
  index_not_found write_in_read_only_mode scope_not_found : QueryServerErrorKind
  collection_not_found : QueryServerErrorKind
  invalid_argument : String → String → QueryServerErrorKind
  build_already_in_progress unknown : QueryServerErrorKind

pub data QueryErrorKind : Type 0 where
  server resource : QueryServerErrorKind → QueryErrorKind
  http : HttpErrorKind → QueryErrorKind
  message encoding : String → QueryErrorKind
  invalid_argument : String → Option String → QueryErrorKind

pub data SearchErrorKind : Type 0 where
  -- With the status code of the response.
  server : ℕ → SearchErrorKind
  http : HttpErrorKind → SearchErrorKind
  message encoding unsupported_feature : String → SearchErrorKind
  invalid_argument : String → Option String → SearchErrorKind

pub data AnalyticsErrorKind : Type 0 where
  server : AnalyticsErrorKind
  http : HttpErrorKind → AnalyticsErrorKind
  message encoding : String → AnalyticsErrorKind
  invalid_argument : String → Option String → AnalyticsErrorKind

pub data MgmtErrorKind : Type 0 where
  server resource : MgmtErrorKind
  http : HttpErrorKind → MgmtErrorKind
  message : String → MgmtErrorKind
  invalid_argument : String → Option String → MgmtErrorKind
