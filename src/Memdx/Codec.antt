-- ===== src/Memdx/Codec.antt =====
-- sdk/couchbase-core/src/memdx/codec.rs: `KeyValueCodec`, which frames packets on the connection.
-- The buffer is the sequence of its unread bytes.
pub mod Decode
mod Examples
pub mod Layout
pub mod Malformed
pub mod RoundTrip
use couchbase_rs.Prelude.{
  ℕ, ◌+◌, ◌-◌, ◌%◌, ◌^◌, Bool, true, false, List, [], ◌∷◌, ◌++◌, Option, none, some, Result, ok,
  err, panic, ◌>>=◌, ◌>>◌, guard, ltb, leb, if◌then◌else◌, length, take, drop,
}
use couchbase_rs.Prelude.Bytes.{
  get_u8, get_u16, get_u32, get_u64, put_u16, put_u32, put_u64, split_to,
}
use couchbase_rs.Memdx.Error.{Error, invalid_argument, message}
use couchbase_rs.Memdx.Magic.{Magic, is_extended, u8_from_magic, magic_from_u8}
use couchbase_rs.Memdx.OpCode.{u8_from_op_code, op_code_from_u8}
use couchbase_rs.Memdx.Status.{status_from_u16}
use couchbase_rs.Memdx.Packet.{ResponsePacket, RequestPacket, new_response}

abbrev pub header_size : ℕ
header_size = 24

-- `a - b` on `usize`. It panics below 0 where overflow is checked; an unchecked build wraps to a
-- length that exceeds any packet, and one of the `split_to` calls that follow panics.
unfoldable pub checked_sub : ℕ → ℕ → Result Error ℕ
checked_sub a b = if ltb a b then panic else ok (a - b)

-- `if n > 0 { packet.field = Some(slice.split_to(n)) }`
unfoldable pub split_field : ℕ → List ℕ → Result Error (Option (List ℕ) × List ℕ)
unfolding split_to
split_field n slice =
    if ltb 0 n
    then (do (field, rest) ← split_to n slice; ok (some field, rest))
    else ok (none, slice)

-- The byte after the opcode is a length of its own in a flexible packet.
unfoldable pub flexible_len : Bool → List ℕ → Result Error (ℕ × List ℕ)
unfolding get_u8
flexible_len flexible slice = if flexible then get_u8 slice else ok (0, slice)

unfoldable pub key_length : Bool → List ℕ → Result Error (ℕ × List ℕ)
unfolding get_u8 get_u16
key_length flexible slice = if flexible then get_u8 slice else get_u16 slice

-- From `slice.get_u8()` on: one whole packet.
pub decode_packet : List ℕ → Result Error ResponsePacket
unfolding get_u8 get_u16 get_u32 get_u64 flexible_len key_length checked_sub split_field
decode_packet slice₀ = do
  (magic_byte, slice₁) ← get_u8 slice₀
  magic ← magic_from_u8 magic_byte
  let flexible = is_extended magic
  (op_byte, slice₂) ← get_u8 slice₁
  let op_code = op_code_from_u8 op_byte
  (flexible_extras_len, slice₃) ← flexible_len flexible slice₂
  (key_len, slice₄) ← key_length flexible slice₃
  (extras_len, slice₅) ← get_u8 slice₄
  (datatype, slice₆) ← get_u8 slice₅
  (status, slice₇) ← get_u16 slice₆
  (total_body_len, slice₈) ← get_u32 slice₇
  (opaque, slice₉) ← get_u32 slice₈
  (cas, body) ← get_u64 slice₉
  after_key ← checked_sub total_body_len key_len
  after_extras ← checked_sub after_key extras_len
  body_len ← checked_sub after_extras flexible_extras_len
  (framing_extras, body₁) ← split_field flexible_extras_len body
  (extras, body₂) ← split_field extras_len body₁
  (key, body₃) ← split_field key_len body₂
  let value : Option (List ℕ) = if ltb 0 body_len then some body₃ else none
  ok (record (new_response magic op_code datatype (status_from_u16 status) opaque) {
    cas = some cas;
    framing_extras = framing_extras;
    extras = extras;
    key = key;
    value = value;
  })

decode_body : List ℕ → Result Error (ℕ × List ℕ) → Result Error (Option ResponsePacket) × List ℕ
unfolding decode_packet
decode_body buf (err e) = (err e, buf)
decode_body buf panic = (panic, buf)
decode_body buf (ok (total_body_len, _)) =
    if ltb (length buf) (header_size + total_body_len) then (ok none, buf) else (
      (do packet ← decode_packet (take (header_size + total_body_len) buf); ok (some packet)),
      drop (header_size + total_body_len) buf,
    )

-- `decode`: what it returns, and the bytes left in the buffer. `ok none` asks for more bytes.
pub decode : List ℕ → Result Error (Option ResponsePacket) × List ℕ
unfolding get_u32 decode_body
decode buf =
    if ltb (length buf) header_size then (ok none, buf) else decode_body buf (get_u32 (drop 8 buf))

-- `if let Some(b) = field { b.len() } else { 0 }` goes by the bytes of the field.
abbrev pub field_bytes : Option (List ℕ) → List ℕ
field_bytes none = []
field_bytes (some bytes) = bytes

abbrev pub number_or_default : Option ℕ → ℕ
number_or_default none = 0
number_or_default (some n) = n

-- The bytes 2 and 3 of a request, with the checks before them.
unfoldable pub encode_lengths : Option (List ℕ) → ℕ → Result Error (List ℕ)
unfolding put_u16
encode_lengths (some framing_extras) key_size = do
  guard (leb key_size 255) (invalid_argument "key size too large" (some "key"))
  guard (leb (length framing_extras) 255)
      (invalid_argument "frame extras too large" (some "frame extras"))
  ok (length framing_extras ∷ key_size ∷ [])
encode_lengths none key_size = do
  guard (leb key_size 65535) (invalid_argument "key size too large" (some "key"))
  ok (put_u16 key_size [])

-- The bytes from 4 on. The length of the extras is cut to a byte, unchecked.
unfoldable pub encode_rest : RequestPacket → List ℕ
encode_rest item =
    let key = field_bytes item.key in
    let extras = field_bytes item.extras in
    let framing_extras = field_bytes item.framing_extras in
    let body = field_bytes item.value in
    let total_body_size = length key + length extras + length framing_extras + length body in
    (length extras % 2 ^ 8)
    ∷ item.datatype
    ∷ put_u16 (number_or_default item.vbucket_id) (
        put_u32 (total_body_size % 2 ^ 32) (
          put_u32 (number_or_default item.opaque)
            (put_u64 (number_or_default item.cas) (framing_extras ++ (extras ++ (key ++ body))))))

encode_with : RequestPacket → List ℕ → Result Error (List ℕ) → Result Error (Unit {0}) × List ℕ
unfolding encode_rest
encode_with item start (ok lengths) = (ok tt, start ++ (lengths ++ encode_rest item))
encode_with item start (err e) = (err e, start)
encode_with item start panic = (panic, start)

-- `encode`: what it returns, and the destination. An error comes after two bytes are written.
pub encode : RequestPacket → List ℕ → Result Error (Unit {0}) × List ℕ
unfolding encode_lengths encode_with
encode item dst =
    encode_with item (dst ++ (u8_from_magic item.magic ∷ u8_from_op_code item.op_code ∷ []))
      (encode_lengths item.framing_extras (length (field_bytes item.key)))
