-- ===== src/Router.antt =====
-- sdk/couchbase-core/src/vbucketmap.rs and vbucketrouter.rs: which server a document's key belongs
-- to, and what a request does with the map that a server sends back when it was the wrong one. A
-- server is its address; the atomic pointer that holds the routing is the value it holds.
mod Examples
pub mod Vbuckets
pub mod Dispatch
pub mod Misrouted
use Prim.Native.String.{String}
use couchbase_rs.Prelude.{
  ℕ, Bool, true, false, List, Option, none, some, Result, ok, err, panic, ◌>>=◌, ◌>>◌, guard,
  get_elem?, ltb, leb, if◌then◌else◌,
}
use couchbase_rs.Prelude.Integers.{ℤ, pos, negsuc}
use couchbase_rs.Errors.{
  CoreError, ErrorKind, new_error, no_bucket, no_vbucket_map, no_server_assigned,
}
use couchbase_rs.Router.Vbuckets.{VbucketMap, vbucket_by_key, node_by_vbucket}

pub record VbucketRoutingInfo : Type 0 where
  pub vbucket_info : Option VbucketMap
  pub server_list : List String
  pub bucket_selected : Bool

unfoldable pub has_vbucket_info : Option VbucketMap → Result CoreError VbucketMap
has_vbucket_info (some i) = ok i
has_vbucket_info none = err (new_error no_vbucket_map)

unfoldable pub get_vbucket_info : VbucketRoutingInfo → Result CoreError VbucketMap
get_vbucket_info info = has_vbucket_info info.vbucket_info

unfoldable pub assigned : Option String → ℕ → Result CoreError String
assigned (some server) vb_id = ok server
assigned none vb_id = err (new_error (no_server_assigned vb_id))

-- `if idx >= 0`
unfoldable pub server_from_zero : ℤ → List String → ℕ → Result CoreError String
server_from_zero (pos idx) server_list vb_id = assigned (get_elem? server_list idx) vb_id
server_from_zero (negsuc n) server_list vb_id = assigned none vb_id

-- `if idx > 0`
unfoldable pub server_above_zero : ℤ → List String → ℕ → Result CoreError String
server_above_zero (pos idx) server_list vb_id =
    if ltb 0 idx then assigned (get_elem? server_list idx) vb_id else assigned none vb_id
server_above_zero (negsuc n) server_list vb_id = assigned none vb_id

unfoldable pub dispatch_by_key :
    (List ℕ → ℕ) → VbucketRoutingInfo → List ℕ → ℕ → Result CoreError (String × ℕ)
dispatch_by_key crc32 info key vbucket_server_idx = do
  guard info.bucket_selected (new_error no_bucket)
  vbucket_info ← get_vbucket_info info
  vb_id ← vbucket_by_key crc32 vbucket_info key
  idx ← node_by_vbucket vbucket_info vb_id vbucket_server_idx
  server ← server_from_zero idx info.server_list vb_id
  ok (server, vb_id)

unfoldable pub dispatch_to_vbucket : VbucketRoutingInfo → ℕ → Result CoreError String
dispatch_to_vbucket info vb_id = do
  guard info.bucket_selected (new_error no_bucket)
  vbucket_info ← get_vbucket_info info
  idx ← node_by_vbucket vbucket_info vb_id 0
  server_above_zero idx info.server_list vb_id
