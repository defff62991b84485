-- ===== src/Memdx/Crud/Keys.antt =====
-- Keys with a collection prefix, from `encode_collection_and_key`.
use couchbase_rs.Prelude.{
  ℕ, ◌+◌, ◌^◌, ◌≤◌, ◌<◌, ◌≡◌, ltb, leb, ◌==◌, if◌then◌else◌, ◌>>=◌, false, ap, true, false, List,
  ◌++◌, some, ok, err, length, take, drop, arith, length-append, length-drop, le→leb, lt→leb,
  le→ltb, take-append_length, append_assoc,
}
use couchbase_rs.Memdx.ExtFrame.{copy_at}
use couchbase_rs.Memdx.ExtFrame.Uleb.{make_uleb128_32_lem, uleb_value}
use couchbase_rs.Memdx.Crud.{
  OpsCrud, encode_collection_and_key, key_limit, key_too_long, collections_not_enabled,
  max_key_size,
}

-- The bytes behind a prefix, and what stands in front of the rest then.
copy_behind :
    (bytes rest key : List ℕ)
    → length key ≤ length rest
    → copy_at (bytes ++ rest) (length bytes) key
      ≡ ok (bytes ++ (key ++ drop (length bytes + length key) (bytes ++ rest)))
unfolding copy_at
copy_behind bytes rest key h = rw (
  le→ltb (length (bytes ++ rest)) (length bytes + length key)
      (omega (arith, length-append bytes rest)),
  take-append_length bytes rest,
)

take_both :
    (bytes key rest : List ℕ)
    → take (length key + length bytes) (bytes ++ (key ++ rest)) ≡ bytes ++ key
take_both bytes key rest =
    rw (both, ← append_assoc bytes key rest) (take-append_length (bytes ++ key) rest)
  where
    both : length key + length bytes ≡ length (bytes ++ key)
    both = omega (arith, length-append bytes key)

-- A key written behind a prefix at the front of a buffer.
prefix_key :
    (bytes key buf : List ℕ)
    → length bytes + length key ≤ length buf
    → (do
      buf' ← copy_at (bytes ++ drop (length bytes) buf) (length bytes) key
      ok (take (length key + length bytes) buf'))
      ≡ ok (bytes ++ key)
prefix_key bytes key buf h =
    rw
      (copy_behind bytes (drop (length bytes) buf) key
        (omega (arith, length-drop (length bytes) buf)))
      (ap ok (take_both bytes key _))

room_for_both :
    (collection_id size key_size : ℕ)
    → size ≤ (if ltb collection_id 128 then 1 else 5)
    → key_size ≤ key_limit collection_id
    → size + key_size ≤ 251
room_for_both collection_id size key_size h k = ground arith

-- With collections enabled, a key within its limit is sent behind the bytes of its collection id
-- of 32 bits: in a buffer of 251 bytes the prefix and the key always fit, and the bytes sent split
-- into both.
pub encode_collection_and_key_fits :
    (self : OpsCrud) (collection_id : ℕ) (key buf : List ℕ)
    → self.collections_enabled ≡ true
    → collection_id < 2 ^ 32
    → length key ≤ key_limit collection_id
    → length buf ≡ 251
    → (sent : List ℕ) × (encode_collection_and_key self collection_id key buf ≡ ok sent)
      × (uleb_value sent ≡ some (collection_id, key))
      × (length sent ≤ 251)
unfolding encode_collection_and_key
encode_collection_and_key_fits self cid key buf on small fits size =
    let (bytes, made, short, read) = make_uleb128_32_lem cid buf small (omega arith) in
    (
      bytes ++ key,
      rw (on, made, le→leb (length key) (key_limit cid) fits)
          (prefix_key bytes key buf
            (omega (arith, room_for_both cid (length bytes) (length key) short fits))),
      read key,
      omega (
        arith,
        length-append bytes key,
        room_for_both cid (length bytes) (length key) short fits,
      ),
    )

-- With collections enabled, for an id of 32 bits and a buffer of 251 bytes, a key beyond its limit
-- is refused.
encode_collection_and_key_refuses :
    (self : OpsCrud) (collection_id : ℕ) (key buf : List ℕ)
    → self.collections_enabled ≡ true
    → collection_id < 2 ^ 32
    → key_limit collection_id < length key
    → length buf ≡ 251
    → encode_collection_and_key self collection_id key buf ≡ err key_too_long
unfolding encode_collection_and_key
encode_collection_and_key_refuses self cid key buf on small long size =
    let (bytes, made, short, read) = make_uleb128_32_lem cid buf small (omega arith) in
    rw (on, made, lt→leb (length key) (key_limit cid) long)

-- Without collections the key goes as it is, if it is no longer than 250 bytes and is asked for in
-- the default collection; otherwise the request is refused.
pub encode_collection_and_key_plain :
    (self : OpsCrud) (collection_id : ℕ) (key buf : List ℕ)
    → self.collections_enabled ≡ false
    → encode_collection_and_key self collection_id key buf ≡ (
        if leb (length key) max_key_size
        then (if collection_id == 0 then ok key else err collections_not_enabled)
        else err key_too_long)
unfolding encode_collection_and_key
encode_collection_and_key_plain self cid key buf off = ground arith
