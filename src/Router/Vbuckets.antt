-- ===== src/Router/Vbuckets.antt =====
-- sdk/couchbase-core/src/vbucketmap.rs. The checksum `crc32fast::hash` is an argument.
use Prim.Native.Nat.{bit_and}
use couchbase_rs.Prelude.{
  ℕ, ◌+◌, ◌/◌, ◌%◌, ◌^◌, List, [], Option, none, some, Result, ok, err, panic, length, get_elem?,
  ltb, ◌==◌, if◌then◌else◌,
}
use couchbase_rs.Prelude.Integers.{ℤ, negsuc}
use couchbase_rs.Errors.{CoreError, new_error, message, invalid_replica, invalid_vbucket}

pub record VbucketMap : Type 0 where
  pub entries : List (List ℤ)
  pub num_replicas : ℕ

-- `VbucketMap::new`
pub new_vbucket_map : List (List ℤ) → ℕ → Result CoreError VbucketMap
new_vbucket_map [] num_replicas =
    err (new_error (message "vbucket map must have at least a single entry"))
new_vbucket_map entries num_replicas =
    ok (record { entries = entries; num_replicas = num_replicas })

abbrev pub num_vbuckets : VbucketMap → ℕ
num_vbuckets self = length self.entries

-- A remainder, which panics on a zero divisor.
unfoldable pub checked_rem : ℕ → ℕ → Result CoreError ℕ
checked_rem a b = if b == 0 then panic else ok (a % b)

unfoldable pub vbucket_by_key : (List ℕ → ℕ) → VbucketMap → List ℕ → Result CoreError ℕ
vbucket_by_key crc32 self key =
    let mid_bits = bit_and ((crc32 key / 2 ^ 16) % 2 ^ 16) 0x7fff in
    checked_rem mid_bits (length self.entries % 2 ^ 16)

unfoldable pub id_or : Option ℤ → ℤ
id_or (some id) = id
id_or none = negsuc 0

unfoldable pub replica_of : Option (List ℤ) → ℕ → ℕ → ℕ → Result CoreError ℤ
replica_of (some idx) vb_server_idx vb_id count = ok (id_or (get_elem? idx vb_server_idx))
replica_of none vb_server_idx vb_id count = err (new_error (invalid_vbucket vb_id count))

unfoldable pub node_by_vbucket : VbucketMap → ℕ → ℕ → Result CoreError ℤ
node_by_vbucket self vb_id vb_server_idx =
    let num_servers = (self.num_replicas % 2 ^ 32 + 1) % 2 ^ 32 in
    if ltb num_servers vb_server_idx
    then err (new_error (invalid_replica vb_server_idx num_servers))
    else replica_of (get_elem? self.entries vb_id) vb_server_idx vb_id (length self.entries)
