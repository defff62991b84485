-- ===== src/Router/Dispatch.antt =====
-- sdk/couchbase-core/src/vbucketmap.rs and vbucketrouter.rs: where a key is sent.
use Prim.Native.Nat.{bit_and}
use couchbase_rs.Prelude.{
  ℕ, ◌+◌, ◌-◌, ◌/◌, ◌%◌, ◌^◌, ◌<◌, ◌≤◌, ◌≡◌, ap, ◌∙◌, true, List, some, ok, err, panic, get_elem?,
  arith, lt→ltb, le→ltb,
}
use couchbase_rs.Prelude.Bits.{low_fifteen}
use couchbase_rs.Prelude.Integers.{ℤ, pos}
use couchbase_rs.Errors.{new_error, no_server_assigned}
use couchbase_rs.Router.{
  VbucketRoutingInfo, dispatch_by_key, dispatch_to_vbucket, get_vbucket_info, has_vbucket_info,
  assigned, server_from_zero, server_above_zero,
}
use couchbase_rs.Router.Vbuckets.{
  VbucketMap, vbucket_by_key, node_by_vbucket, checked_rem, replica_of, id_or, num_vbuckets,
}
use Prim.Native.String.{String}

-- The vbucket a key belongs to, by the checksum's bits 16 to 30.
abbrev pub vbucket_of : (List ℕ → ℕ) → ℕ → List ℕ → ℕ
vbucket_of crc32 count key = (crc32 key / 2 ^ 16) % 2 ^ 16 % 2 ^ 15 % count

checked_rem_pos : (a b : ℕ) → 0 < b → checked_rem a b ≡ ok (a % b)
unfolding checked_rem
checked_rem_pos a b h = ground arith

vbucket_by_key_ok :
    (crc32 : List ℕ → ℕ) (self : VbucketMap) (key : List ℕ)
    → 0 < num_vbuckets self
    → num_vbuckets self < 2 ^ 16
    → vbucket_by_key crc32 self key ≡ ok (vbucket_of crc32 (num_vbuckets self) key)
unfolding vbucket_by_key
vbucket_by_key_ok crc32 self key h low =
    ap (λ n. checked_rem (bit_and ((crc32 key / 2 ^ 16) % 2 ^ 16) 0x7fff) n) (omega arith)
    ∙ checked_rem_pos (bit_and ((crc32 key / 2 ^ 16) % 2 ^ 16) 0x7fff) (num_vbuckets self) h
    ∙ ap (λ n. ok (n % num_vbuckets self)) (low_fifteen ((crc32 key / 2 ^ 16) % 2 ^ 16))

-- A map of at least one and fewer than 2 ^ 16 vbuckets puts every key in one of them, the one that
-- bits 16 to 30 of the checksum pick; a map of 2 ^ 16 vbuckets makes the choice panic, for a
-- length that is cut to 16 bits is 0 there.
pub vbucket_by_key_in_range :
    (crc32 : List ℕ → ℕ) (self : VbucketMap) (key : List ℕ)
    → (0 < num_vbuckets self
        → num_vbuckets self < 2 ^ 16
        → (vbucket_by_key crc32 self key ≡ ok (vbucket_of crc32 (num_vbuckets self) key))
          × (vbucket_of crc32 (num_vbuckets self) key < num_vbuckets self))
      × (num_vbuckets self ≡ 2 ^ 16 → vbucket_by_key crc32 self key ≡ panic)
unfolding vbucket_by_key checked_rem
vbucket_by_key_in_range crc32 self key = (
  λ h low. (vbucket_by_key_ok crc32 self key h low, omega arith),
  λ full. ap (λ n. checked_rem (bit_and ((crc32 key / 2 ^ 16) % 2 ^ 16) 0x7fff) (n % 2 ^ 16)) full,
)

node_of_row :
    (self : VbucketMap) (vb_id r : ℕ) (row : List ℤ) (id : ℤ)
    → self.num_replicas < 2 ^ 32 - 1
    → r ≤ self.num_replicas
    → get_elem? self.entries vb_id ≡ some row
    → get_elem? row r ≡ some id
    → node_by_vbucket self vb_id r ≡ ok id
unfolding node_by_vbucket replica_of id_or
node_of_row self vb_id r row id few fits at_row at_id =
    rw (le→ltb ((self.num_replicas % 2 ^ 32 + 1) % 2 ^ 32) r (omega arith), at_row, at_id)

-- Each vbucket of the map has a server of the list for its copy number `r`.
abbrev pub IsServed : VbucketRoutingInfo → VbucketMap → ℕ → Type 0
IsServed info map r =
    (vb_id : ℕ)
    → vb_id < num_vbuckets map
    → (row : List ℤ) × (get_elem? map.entries vb_id ≡ some row)
      × (idx : ℕ) × (get_elem? row r ≡ some (pos idx))
      × (server : String) × (get_elem? info.server_list idx ≡ some server)

-- Under a selected bucket with a map of at least one and fewer than 2 ^ 16 vbuckets that has a
-- server of the list for every vbucket's copy number `r`, where `r` is at most the number of
-- replicas, a key is dispatched, to its own vbucket and to the server which that vbucket's row
-- names for the copy.
pub dispatch_by_key_served :
    (crc32 : List ℕ → ℕ) (info : VbucketRoutingInfo) (map : VbucketMap) (key : List ℕ) (r : ℕ)
    → info.bucket_selected ≡ true
    → info.vbucket_info ≡ some map
    → 0 < num_vbuckets map
    → num_vbuckets map < 2 ^ 16
    → map.num_replicas < 2 ^ 32 - 1
    → r ≤ map.num_replicas
    → IsServed info map r
    → (row : List ℤ) × (idx : ℕ) × (server : String) × (get_elem? map.entries
          (vbucket_of crc32 (num_vbuckets map) key)
        ≡ some row)
      × (get_elem? row r ≡ some (pos idx))
      × (get_elem? info.server_list idx ≡ some server)
      × (dispatch_by_key crc32 info key r ≡ ok (server, vbucket_of crc32 (num_vbuckets map) key))
unfolding dispatch_by_key get_vbucket_info has_vbucket_info server_from_zero assigned
dispatch_by_key_served crc32 info map key r selected has_map some_vb low few fits served =
    let vb_id = vbucket_of crc32 (num_vbuckets map) key in
    let (row, at_row, idx, at_idx, server, at_server) = served vb_id (omega arith) in
    (
      row,
      idx,
      server,
      at_row,
      at_idx,
      at_server,
      rw (
        selected,
        has_map,
        vbucket_by_key_ok crc32 map key some_vb low,
        node_of_row map vb_id r row (pos idx) few fits at_row at_idx,
        at_server,
      ),
    )

-- A vbucket whose active copy is on a server of the list gets that server from
-- `dispatch_to_vbucket` where it is not the list's first, and the error that no server is assigned
-- where it is the first; the bucket is selected and the vbucket's row is in the map.
pub dispatch_to_vbucket_first :
    (info : VbucketRoutingInfo) (map : VbucketMap) (vb_id : ℕ) (row : List ℤ) (idx : ℕ)
    (server : String)
    → info.bucket_selected ≡ true
    → info.vbucket_info ≡ some map
    → map.num_replicas < 2 ^ 32 - 1
    → get_elem? map.entries vb_id ≡ some row
    → get_elem? row 0 ≡ some (pos idx)
    → get_elem? info.server_list idx ≡ some server
    → (0 < idx → dispatch_to_vbucket info vb_id ≡ ok server)
      × (idx ≡ 0 → dispatch_to_vbucket info vb_id ≡ err (new_error (no_server_assigned vb_id)))
unfolding dispatch_to_vbucket get_vbucket_info has_vbucket_info server_above_zero assigned
dispatch_to_vbucket_first info map vb_id row idx server selected has_map few at_row at_idx
      at_server =
    let node = node_of_row map vb_id 0 row (pos idx) few (omega arith) at_row at_idx in
    (
      λ later. rw (selected, has_map, node, lt→ltb 0 idx later, at_server),
      λ first. rw (selected, has_map, node, le→ltb 0 idx (omega arith)),
    )
