-- ===== src/Memdx/Crud.antt =====
-- sdk/couchbase-core/src/memdx/ops_crud.rs and ops_core.rs: what the key-value operations share,
-- from the key and the framing extras of a request to the errors of a response.
mod Examples
pub mod Keys
pub mod Errors
pub mod Frames
pub mod Mutations
use couchbase_rs.Prelude.{
  ℕ, ◌+◌, Bool, true, false, not, List, [], ◌∷◌, Option, none, some, Result, ok, err, ◌>>=◌, ◌>>◌,
  guard, ltb, leb, ◌==◌, if◌then◌else◌, length, take,
}
use couchbase_rs.Memdx.Error.{Error, invalid_argument}
use couchbase_rs.Memdx.FrameCode.{ExtReqFrameCode}
use couchbase_rs.Memdx.Magic.{Magic, req, req_ext}
use couchbase_rs.Memdx.ExtFrame.{append_ext_frame, copy_at}
use couchbase_rs.Memdx.ExtFrame.Durability.{DurabilityLevel, encode_durability_ext_frame}
use couchbase_rs.Memdx.ExtFrame.Uleb.{make_uleb128_32}

pub record OpsCrud : Type 0 where
  pub collections_enabled : Bool
  pub durability_enabled : Bool
  pub preserve_expiry_enabled : Bool
  pub ext_frames_enabled : Bool

abbrev pub max_key_size : ℕ
max_key_size = 250

abbrev pub max_key_size_using_collections : ℕ
max_key_size_using_collections = 246

-- The numbers that the messages hold are left out.
abbrev pub key_too_long : Error
key_too_long = invalid_argument "key too long" (some "key")

abbrev pub collections_not_enabled : Error
collections_not_enabled = invalid_argument "collections not enabled" (some "collection_id")

abbrev pub key_limit : ℕ → ℕ
key_limit collection_id =
    if collection_id == 0 then max_key_size else max_key_size_using_collections

-- `encode_collection_and_key`: the key as it is sent, a slice of `buf` where it has a prefix.
pub encode_collection_and_key : OpsCrud → ℕ → List ℕ → List ℕ → Result Error (List ℕ)
encode_collection_and_key self collection_id key buf =
    if not self.collections_enabled
    then (do
      guard (leb (length key) max_key_size) key_too_long
      guard (collection_id == 0) collections_not_enabled
      ok key)
    else (do
      (buf₁, encoded_size) ← make_uleb128_32 collection_id buf
      guard (leb (length key) (key_limit collection_id)) key_too_long
      buf₂ ← copy_at buf₁ encoded_size key
      ok (take (length key + encoded_size) buf₂))

-- A request frame that is written only if an option asks for it.
abbrev pub Frames : Type 0
Frames = Result Error (List ℕ × ℕ)

unfoldable pub append_on_behalf_of : Option (List ℕ) → List ℕ → ℕ → Frames
append_on_behalf_of none buf offset = ok (buf, offset)
append_on_behalf_of (some obo) buf offset =
    append_ext_frame ExtReqFrameCode.on_behalf_of obo buf offset

unfoldable pub append_durability : OpsCrud → Option DurabilityLevel → Option ℕ → List ℕ → ℕ → Frames
append_durability self (some dura) timeout buf offset = do
  guard self.durability_enabled (
      invalid_argument "cannot use synchronous durability when its not enabled"
        (some "durability_level"))
  dura_buf ← encode_durability_ext_frame dura timeout
  append_ext_frame ExtReqFrameCode.durability dura_buf buf offset
append_durability self none (some timeout) buf offset = err (
    invalid_argument "cannot encode durability timeout without durability level"
      (some "durability_timeout"))
append_durability self none none buf offset = ok (buf, offset)

unfoldable pub append_preserve_expiry : OpsCrud → Option Bool → List ℕ → ℕ → Frames
append_preserve_expiry self none buf offset = ok (buf, offset)
append_preserve_expiry self (some _) buf offset = do
  guard self.preserve_expiry_enabled
      (invalid_argument "cannot use preserve expiry when its not enabled" (some "preserve_expiry"))
  append_ext_frame ExtReqFrameCode.preserve_ttl [] buf offset

unfoldable pub request_magic : OpsCrud → ℕ → Result Error Magic
request_magic self offset =
    if ltb 0 offset
    then (do
      guard self.ext_frames_enabled (
          invalid_argument "cannot use framing extras when its not enabled"
            (some "ext_frames_enabled"))
      ok req_ext)
    else ok req

-- `encode_req_ext_frames`: the magic, the bytes used and the buffer.
pub encode_req_ext_frames :
    OpsCrud
    → Option DurabilityLevel
    → Option ℕ
    → Option Bool
    → Option (List ℕ)
    → List ℕ
    → Result Error (Magic × ℕ × List ℕ)
unfolding append_on_behalf_of append_durability append_preserve_expiry request_magic
encode_req_ext_frames self level timeout preserve_expiry on_behalf_of buf = do
  (buf₁, offset₁) ← append_on_behalf_of on_behalf_of buf 0
  (buf₂, offset₂) ← append_durability self level timeout buf₁ offset₁
  (buf₃, offset₃) ← append_preserve_expiry self preserve_expiry buf₂ offset₂
  magic ← request_magic self offset₃
  ok (magic, offset₃, buf₃)
