-- ===== src/Memdx/Codec/Malformed.antt =====
-- What the codec does where a packet cannot be framed: headers whose lengths do not add up, and
-- requests that are too long.
use couchbase_rs.Prelude.{
  ℕ, ◌+◌, ◌<◌, ◌^◌, ◌≡◌, false, List, [], ◌∷◌, ◌++◌, Option, none, some, Result, ok, err, panic,
  ◌⊎◌, inl, inr, length, leb, leb→le, le→leb, Bool-cases, arith, ◌>>=◌,
}
use couchbase_rs.Prelude.Bytes.{
  IsU16, IsU32, IsU64, get_u8, put_u16, get_u16-put_u16, get_u32-put_u32, get_u64-put_u64,
}
use couchbase_rs.Memdx.Error.{Error, invalid_argument}
use couchbase_rs.Memdx.Magic.{Magic, is_extended, u8_from_magic, magic_from_u8-u8_from_magic}
use couchbase_rs.Memdx.OpCode.{u8_from_op_code}
use couchbase_rs.Memdx.Packet.{RequestPacket}
use couchbase_rs.Memdx.Codec.{
  checked_sub, decode_packet, encode, encode_with, encode_lengths, encode_rest, field_bytes,
}
use couchbase_rs.Memdx.Codec.Layout.{lengths, tail_bytes, flexible_len-lengths, key_length-after}

checked_subs_panic :
    {A : Type 0} (total key_len extras_len framing_len : ℕ) (k : ℕ → Result Error A)
    → total < key_len + extras_len + framing_len
    → (do
      after_key ← checked_sub total key_len
      after_extras ← checked_sub after_key extras_len
      body_len ← checked_sub after_extras framing_len
      k body_len)
      ≡ panic
unfolding checked_sub
checked_subs_panic total key_len extras_len framing_len k h = ground arith

-- A packet whose key, extras and framing extras are declared longer together than its body makes
-- `decode_packet` panic, whatever the bytes of the body are, for numbers that fit their fields and
-- no framing extras under a magic that is not extended.
pub decode_packet_overlong :
    (m : Magic) (op framing_len key_len extras_len datatype status total opaque cas : ℕ)
    (body : List ℕ)
    → IsU16 status
    → IsU32 total
    → IsU32 opaque
    → IsU64 cas
    → IsU16 key_len
    → (is_extended m ≡ false → framing_len ≡ 0)
    → total < key_len + extras_len + framing_len
    → decode_packet (
        u8_from_magic m
        ∷ op
        ∷ lengths
            (is_extended m)
            framing_len
            key_len
            (tail_bytes extras_len datatype status total opaque cas body))
      ≡ panic
unfolding decode_packet get_u8
decode_packet_overlong m op framing_len key_len extras_len datatype status total opaque cas body
      status_fits total_fits opaque_fits cas_fits key_fits plain overlong =
    rw
      (
        magic_from_u8-u8_from_magic m,
        flexible_len-lengths (is_extended m) framing_len key_len rest plain,
        key_length-after (is_extended m) key_len rest key_fits,
        get_u16-put_u16 {E = Error} status _ status_fits,
        get_u32-put_u32 {E = Error} total _ total_fits,
        get_u32-put_u32 {E = Error} opaque _ opaque_fits,
        get_u64-put_u64 {E = Error} cas _ cas_fits,
      )
      (checked_subs_panic total key_len extras_len framing_len _ overlong)
  where
    rest : List ℕ
    rest = tail_bytes extras_len datatype status total opaque cas body

-- The longest key and framing extras that the two length bytes can hold.
abbrev pub Fits : Option (List ℕ) → ℕ → Type 0
Fits none key_len = key_len < 2 ^ 16
Fits (some framing) key_len = (key_len < 2 ^ 8) × (length framing < 2 ^ 8)

abbrev key_too_large : Error
key_too_large = invalid_argument "key size too large" (some "key")

abbrev extras_too_large : Error
extras_too_large = invalid_argument "frame extras too large" (some "frame extras")

lengths_outcome :
    (framing : Option (List ℕ)) (key_len : ℕ)
    → (Fits framing key_len × (l : List ℕ) × (encode_lengths framing key_len ≡ ok l))
      ⊎ ((¬ Fits framing key_len) × (e : Error) × (encode_lengths framing key_len ≡ err e))
unfolding encode_lengths
lengths_outcome none key_len = elim (Bool-cases (leb key_len 65535)) [
  | inl small ↦ inl (omega (arith, leb→le key_len 65535 small), put_u16 key_len [], rw small)
  | inr large ↦ inr (λ h. cc (le→leb key_len 65535 (omega arith)), key_too_large, rw large)
]
lengths_outcome (some framing) key_len = elim (Bool-cases (leb key_len 255)) [
  | inr large ↦ inr (λ h. cc (le→leb key_len 255 (omega (arith, h.0))), key_too_large, rw large)
  | inl small ↦ elim (Bool-cases (leb (length framing) 255)) [
    | inr long ↦ inr (
      λ h. cc (le→leb (length framing) 255 (omega (arith, h.1))),
      extras_too_large,
      rw (small, long),
    )
    | inl short ↦ inl (
      (omega (arith, leb→le key_len 255 small), omega (arith, leb→le (length framing) 255 short)),
      length framing ∷ key_len ∷ [],
      rw (small, short),
    )
  ]
]

-- The first two bytes, which are written before the lengths are checked.
abbrev pub opened : RequestPacket → List ℕ → List ℕ
opened item dst = dst ++ (u8_from_magic item.magic ∷ u8_from_op_code item.op_code ∷ [])

-- `encode` succeeds exactly when the key and the framing extras fit their length bytes; what was in
-- the destination stays in front. When it fails, the magic and the opcode stay behind it.
pub encode_outcome :
    (item : RequestPacket) (dst : List ℕ)
    → (Fits item.framing_extras (length (field_bytes item.key))
        × (more : List ℕ) × (encode item dst ≡ (ok tt, opened item dst ++ more)))
      ⊎ ((¬ Fits item.framing_extras (length (field_bytes item.key)))
          × (e : Error) × (encode item dst ≡ (err e, opened item dst)))
unfolding encode encode_with
encode_outcome item dst =
    elim (lengths_outcome item.framing_extras (length (field_bytes item.key))) [
      | inl (fits, l, e) ↦ inl (fits, l ++ encode_rest item, rw e)
      | inr (long, x, e) ↦ inr (long, x, rw e)
    ]
