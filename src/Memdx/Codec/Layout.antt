-- ===== src/Memdx/Codec/Layout.antt =====
-- The layout of a packet, and what `decode` makes of it.
use couchbase_rs.Prelude.{
  ℕ, ◌+◌, ◌^◌, ◌<◌, ◌≡◌, refl, ap, Bool, true, false, List, [], ◌∷◌, ◌++◌, Option, none, some, ok,
  ltb, if◌then◌else◌, length, drop, le→ltb, lt→ltb, arith, take-length, drop-length,
}
use couchbase_rs.Prelude.Bytes.{
  IsU16, IsU32, IsU64, get_u8, get_u32, put_u16, put_u32, put_u64, get_u16-put_u16, get_u32-put_u32,
  split_to-append, get_u64-put_u64,
}
use couchbase_rs.Memdx.Error.{Error}
use couchbase_rs.Memdx.Magic.{Magic, is_extended, u8_from_magic, magic_from_u8-u8_from_magic}
use couchbase_rs.Memdx.OpCode.{op_code_from_u8}
use couchbase_rs.Memdx.Status.{status_from_u16}
use couchbase_rs.Memdx.Packet.{ResponsePacket, new_response}
use couchbase_rs.Memdx.Codec.{
  header_size, checked_sub, split_field, flexible_len, key_length, decode_packet, decode_body,
  decode,
}

-- A field of length 0 is decoded as absent.
abbrev pub non_empty : List ℕ → Option (List ℕ)
non_empty [] = none
non_empty (b ∷ bs) = some (b ∷ bs)

split_field-append : (xs ys : List ℕ) → split_field (length xs) (xs ++ ys) ≡ ok (non_empty xs, ys)
unfolding split_field
split_field-append [] ys = refl
split_field-append (x ∷ xs) ys =
    rw (lt→ltb 0 (length (x ∷ xs)) (omega arith), split_to-append (x ∷ xs) ys)

checked_sub-add : (a b : ℕ) → checked_sub (a + b) b ≡ ok a
unfolding checked_sub
checked_sub-add a b = ground arith

-- The bytes 2 and 3 of a packet.
abbrev pub lengths : Bool → ℕ → ℕ → List ℕ → List ℕ
lengths true framing_len key_len rest = framing_len ∷ key_len ∷ rest
lengths false framing_len key_len rest = put_u16 key_len rest

-- The bytes from 4 on.
abbrev pub tail_bytes : ℕ → ℕ → ℕ → ℕ → ℕ → ℕ → List ℕ → List ℕ
tail_bytes extras_len datatype status total opaque cas body =
    extras_len ∷ datatype ∷ put_u16 status (put_u32 total (put_u32 opaque (put_u64 cas body)))

unfoldable pub after_flexible : Bool → ℕ → List ℕ → List ℕ
after_flexible true key_len rest = key_len ∷ rest
after_flexible false key_len rest = put_u16 key_len rest

pub flexible_len-lengths :
    (flexible : Bool) (framing_len key_len : ℕ) (rest : List ℕ)
    → (flexible ≡ false → framing_len ≡ 0)
    → flexible_len flexible (lengths flexible framing_len key_len rest)
      ≡ ok (framing_len, after_flexible flexible key_len rest)
unfolding flexible_len after_flexible
flexible_len-lengths true framing_len key_len rest h = refl
flexible_len-lengths false framing_len key_len rest h = rw (h refl)

pub key_length-after :
    (flexible : Bool) (key_len : ℕ) (rest : List ℕ)
    → IsU16 key_len
    → key_length flexible (after_flexible flexible key_len rest) ≡ ok (key_len, rest)
unfolding key_length after_flexible
key_length-after true key_len rest h = refl
key_length-after false key_len rest h = get_u16-put_u16 key_len rest h

value_of_length :
    (body : List ℕ) → (if ltb 0 (length body) then some body else none) ≡ non_empty body
value_of_length [] = refl
value_of_length (b ∷ bs) = rw (lt→ltb 0 (length (b ∷ bs)) (omega arith))

module _ (m : Magic) (op datatype status opaque cas : ℕ) (framing extras key body : List ℕ)
    (status_fits : IsU16 status) (opaque_fits : IsU32 opaque) (cas_fits : IsU64 cas)
    (key_fits : length key < 2 ^ 16) (flexible : is_extended m ≡ false → framing ≡ []) where
  abbrev pub total : ℕ
  total = length body + length framing + length extras + length key

  unfoldable pub decoded : ResponsePacket
  decoded = record (new_response m (op_code_from_u8 op) datatype (status_from_u16 status) opaque) {
    cas = some cas;
    framing_extras = non_empty framing;
    extras = non_empty extras;
    key = non_empty key;
    value = non_empty body;
  }

  pub decode_packet-bytes :
      total < 2 ^ 32
      → decode_packet (
          u8_from_magic m
          ∷ op
          ∷ lengths (is_extended m) (length framing) (length key) (
              tail_bytes
                (length extras)
                datatype
                status
                total
                opaque
                cas
                (framing ++ (extras ++ (key ++ body)))))
        ≡ ok decoded
  unfolding decode_packet decoded get_u8
  decode_packet-bytes total_fits = rw (
    magic_from_u8-u8_from_magic m,
    flexible_len-lengths (is_extended m) (length framing) (length key) rest
        (λ e. ap length (flexible e)),
    key_length-after (is_extended m) (length key) rest key_fits,
    get_u16-put_u16 {E = Error} status _ status_fits,
    get_u32-put_u32 {E = Error} total _ total_fits,
    get_u32-put_u32 {E = Error} opaque _ opaque_fits,
    get_u64-put_u64 {E = Error} cas _ cas_fits,
    checked_sub-add (length body + length framing + length extras) (length key),
    checked_sub-add (length body + length framing) (length extras),
    checked_sub-add (length body) (length framing),
    split_field-append framing _,
    split_field-append extras _,
    split_field-append key body,
    value_of_length body,
  )
    where
      rest : List ℕ
      rest =
          tail_bytes (length extras) datatype status total opaque cas
            (framing ++ (extras ++ (key ++ body)))

pub wire_length :
    (flexible : Bool) (a b framing_len key_len extras_len datatype status total opaque cas : ℕ)
    (body : List ℕ)
    → length (
        a
        ∷ b
        ∷ lengths flexible framing_len key_len
            (tail_bytes extras_len datatype status total opaque cas body))
      ≡ 24 + length body
unfolding put_u16 put_u32 put_u64
wire_length true a b framing_len key_len extras_len datatype status total opaque cas body =
    omega arith
wire_length false a b framing_len key_len extras_len datatype status total opaque cas body =
    omega arith

pub wire_total :
    (flexible : Bool) (a b framing_len key_len extras_len datatype status total opaque cas : ℕ)
    (body : List ℕ)
    → IsU32 total
    → get_u32 {E = Error} (
        drop 8 (
          a
          ∷ b
          ∷ lengths flexible framing_len key_len
              (tail_bytes extras_len datatype status total opaque cas body)))
      ≡ ok (total, put_u32 opaque (put_u64 cas body))
unfolding put_u16
wire_total true a b framing_len key_len extras_len datatype status total opaque cas body h =
    get_u32-put_u32 total _ h
wire_total false a b framing_len key_len extras_len datatype status total opaque cas body h =
    get_u32-put_u32 total _ h

-- A buffer that is one packet, by the length in its header.
pub decode_single :
    (buf rest : List ℕ) (total : ℕ) (p : ResponsePacket)
    → length buf ≡ header_size + total
    → get_u32 {E = Error} (drop 8 buf) ≡ ok (total, rest)
    → decode_packet buf ≡ ok p
    → decode buf ≡ (ok (some p), [])
unfolding decode decode_body
decode_single buf rest total p e header packet = rw (
  le→ltb (length buf) header_size (omega arith),
  header,
  le→ltb (length buf) (header_size + total) (omega arith),
  ← e,
  take-length buf,
  drop-length buf,
  packet,
)
