-- ===== src/Memdx/Codec/RoundTrip.antt =====
-- `decode` of what `encode` wrote.
use couchbase_rs.Prelude.{
  ℕ, ◌+◌, ◌%◌, ◌^◌, ◌<◌, ◌≡◌, refl, ◌∙◌, sym, Bool, true, false, List, [], ◌∷◌, ◌++◌, Option, none,
  some, Result, ok, err, panic, length, length-append, append_assoc, arith,
}
use couchbase_rs.Prelude.Bytes.{IsU16, IsU32, IsU64, put_u16}
use couchbase_rs.Memdx.Error.{Error}
use couchbase_rs.Memdx.Magic.{is_extended, u8_from_magic}
use couchbase_rs.Memdx.OpCode.{u8_from_op_code, op_code_from_u8}
use couchbase_rs.Memdx.Status.{status_from_u16}
use couchbase_rs.Memdx.Packet.{ResponsePacket, RequestPacket, new_response}
use couchbase_rs.Memdx.Codec.Decode.{decode-append}
use couchbase_rs.Memdx.Codec.{
  header_size, decode, encode, encode_with, encode_lengths, encode_rest, field_bytes,
  number_or_default,
}
use couchbase_rs.Memdx.Codec.Layout.{
  non_empty, lengths, tail_bytes, decoded, decode_packet-bytes, wire_length, wire_total,
  decode_single,
}

abbrev is_some : Option (List ℕ) → Bool
is_some none = false
is_some (some x) = true

abbrev body_length : RequestPacket → ℕ
body_length item =
    length (field_bytes item.value)
    + length (field_bytes item.framing_extras)
    + length (field_bytes item.extras)
    + length (field_bytes item.key)

-- A request whose numbers fit their fields and whose magic says whether it has framing extras.
pub record IsEncodable (item : RequestPacket) : Type 0 where
  pub marked : is_extended item.magic ≡ is_some item.framing_extras
  pub vbucket_fits : IsU16 (number_or_default item.vbucket_id)
  pub opaque_fits : IsU32 (number_or_default item.opaque)
  pub cas_fits : IsU64 (number_or_default item.cas)
  pub extras_fit : length (field_bytes item.extras) < 256
  pub body_fits : body_length item < 2 ^ 32

-- The packet that the other side reads: the vbucket stands where a response has its status.
abbrev pub received : RequestPacket → ResponsePacket
received item =
    record (new_response item.magic (op_code_from_u8 (u8_from_op_code item.op_code)) item.datatype
      (status_from_u16 (number_or_default item.vbucket_id)) (number_or_default item.opaque)) {
        cas = some (number_or_default item.cas);
        framing_extras = non_empty (field_bytes item.framing_extras);
        extras = non_empty (field_bytes item.extras);
        key = non_empty (field_bytes item.key);
        value = non_empty (field_bytes item.value);
      }

encode_lengths-lengths :
    (framing : Option (List ℕ)) (key_len : ℕ) (tail lens : List ℕ)
    → encode_lengths framing key_len ≡ ok lens
    → (lens ++ tail ≡ lengths (is_some framing) (length (field_bytes framing)) key_len tail)
      × (key_len < 2 ^ 16)
unfolding encode_lengths put_u16
encode_lengths-lengths none key_len tail lens h = ground arith
encode_lengths-lengths (some framing) key_len tail lens h = ground arith

encode_rest-tail_bytes :
    (item : RequestPacket)
    → IsEncodable item
    → encode_rest item
      ≡ tail_bytes
          (length (field_bytes item.extras))
          item.datatype
          (number_or_default item.vbucket_id)
          (body_length item)
          (number_or_default item.opaque)
          (number_or_default item.cas)
          (field_bytes item.framing_extras
            ++ (field_bytes item.extras ++ (field_bytes item.key ++ field_bytes item.value)))
unfolding encode_rest
encode_rest-tail_bytes item w = rw (extras_size, total_size)
  where
    extras_size : length (field_bytes item.extras) % 2 ^ 8 ≡ length (field_bytes item.extras)
    extras_size = omega arith

    total_size :
        (length (field_bytes item.key)
            + length (field_bytes item.extras)
            + length (field_bytes item.framing_extras)
            + length (field_bytes item.value))
          % 2 ^ 32
        ≡ body_length item
    total_size = omega arith

encode_with-eq_ok :
    (item : RequestPacket) (start bytes : List ℕ) (lens : Result Error (List ℕ))
    → encode_with item start lens ≡ (ok tt, bytes)
    → (l : List ℕ) × (lens ≡ ok l) × (bytes ≡ start ++ (l ++ encode_rest item))
unfolding encode_with
encode_with-eq_ok item start bytes (ok l) h = (l, refl, cc)
encode_with-eq_ok item start bytes (err e) h = cc
encode_with-eq_ok item start bytes panic h = cc

-- The bytes of an encoded request, laid out.
abbrev wire : RequestPacket → List ℕ
wire item =
    u8_from_magic item.magic
    ∷ u8_from_op_code item.op_code
    ∷ lengths (is_extended item.magic) (length (field_bytes item.framing_extras))
        (length (field_bytes item.key))
        (tail_bytes (length (field_bytes item.extras)) item.datatype
          (number_or_default item.vbucket_id) (body_length item) (number_or_default item.opaque)
          (number_or_default item.cas)
          (field_bytes item.framing_extras
            ++ (field_bytes item.extras ++ (field_bytes item.key ++ field_bytes item.value))))

pub encode-wire :
    (item : RequestPacket) (dst bytes : List ℕ)
    → IsEncodable item
    → encode item dst ≡ (ok tt, bytes)
    → (bytes ≡ dst ++ wire item) × (length (field_bytes item.key) < 2 ^ 16)
unfolding encode
encode-wire item dst bytes w h =
    let (l, lens, eq) = encode_with-eq_ok item _ bytes _ h in
    let (laid_out, small) =
      encode_lengths-lengths item.framing_extras _ (encode_rest item) l lens in
    (eq ∙ rw (append_assoc, laid_out, encode_rest-tail_bytes item w, w.marked), small)

wire-length : (item : RequestPacket) → length (wire item) ≡ header_size + body_length item
wire-length item = omega (
  arith,
  wire_length (is_extended item.magic) (u8_from_magic item.magic) (u8_from_op_code item.op_code)
      (length framing) (length key) (length extras) item.datatype
      (number_or_default item.vbucket_id) (body_length item) (number_or_default item.opaque)
      (number_or_default item.cas) (framing ++ (extras ++ (key ++ body))),
  length-append framing (extras ++ (key ++ body)),
  length-append extras (key ++ body),
  length-append key body,
)
  where
    framing : List ℕ
    framing = field_bytes item.framing_extras

    extras : List ℕ
    extras = field_bytes item.extras

    key : List ℕ
    key = field_bytes item.key

    body : List ℕ
    body = field_bytes item.value

unmarked :
    (item : RequestPacket)
    → IsEncodable item
    → is_extended item.magic ≡ false
    → field_bytes item.framing_extras ≡ []
unmarked item w h = no_extras item.framing_extras (sym w.marked ∙ h)
  where
    no_extras : (o : Option (List ℕ)) → is_some o ≡ false → field_bytes o ≡ []
    no_extras none e = refl
    no_extras (some x) e = cc

-- A request that `encode` accepts, whose numbers fit their fields and whose magic is an extended
-- one exactly where it has framing extras, decodes to the packet with the same fields, and
-- whatever follows it in the buffer is left.
pub decode-encode :
    (item : RequestPacket) (bytes more : List ℕ)
    → IsEncodable item
    → encode item [] ≡ (ok tt, bytes)
    → decode (bytes ++ more) ≡ (ok (some (received item)), more)
unfolding decoded
decode-encode item bytes more w h =
    let (e, small) = encode-wire item [] bytes w h in
    rw e (
      decode-append (wire item) [] more (ok (some (received item)))
        (decode_single (wire item) _ (body_length item) (received item) (wire-length item)
          (wire_total (is_extended item.magic) (u8_from_magic item.magic)
            (u8_from_op_code item.op_code) (length (field_bytes item.framing_extras))
            (length (field_bytes item.key)) (length (field_bytes item.extras)) item.datatype
            (number_or_default item.vbucket_id) (body_length item) (number_or_default item.opaque)
            (number_or_default item.cas) _ w.body_fits)
          (decode_packet-bytes item.magic (u8_from_op_code item.op_code) item.datatype
            (number_or_default item.vbucket_id) (number_or_default item.opaque)
            (number_or_default item.cas) (field_bytes item.framing_extras) (field_bytes item.extras)
            (field_bytes item.key) (field_bytes item.value) w.vbucket_fits w.opaque_fits w.cas_fits
            small (unmarked item w) w.body_fits))
        (λ p. cc))
