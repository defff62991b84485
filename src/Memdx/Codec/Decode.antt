-- ===== src/Memdx/Codec/Decode.antt =====
-- `decode` on any input, well formed or not.
use couchbase_rs.Prelude.{
  ℕ, ◌+◌, ◌*◌, ◌≤◌, ◌<◌, ◌≡◌, refl, ◌≢◌, inl, inr, ap, ◌∙◌, List, [], ◌∷◌, ◌++◌, Option, none, some,
  Result, ok, ◌>>=◌, ltb, length, take, drop, length-append, length-drop, length-take_le,
  take-append-drop, sym, take-append_le, drop-append_le, le→ltb, lt→ltb, Bool-cases, arith,
}
use couchbase_rs.Prelude.Bytes.{get_u32}
use couchbase_rs.Memdx.Error.{Error}
use couchbase_rs.Memdx.Packet.{ResponsePacket}
use couchbase_rs.Memdx.Codec.{header_size, decode_packet, decode_body, decode}

-- The length at bytes 8 to 11 reads the same when more bytes follow.
get_u32-append :
    (buf more : List ℕ)
    → 4 ≤ length buf
    → (n : ℕ) × (rest : List ℕ) × (get_u32 {E = Error} buf ≡ ok (n, rest))
      × (get_u32 {E = Error} (buf ++ more) ≡ ok (n, rest ++ more))
unfolding get_u32
get_u32-append [] more h = absurd (omega arith)
get_u32-append (a ∷ []) more h = absurd (omega arith)
get_u32-append (a ∷ b ∷ []) more h = absurd (omega arith)
get_u32-append (a ∷ b ∷ c ∷ []) more h = absurd (omega arith)
get_u32-append (a ∷ b ∷ c ∷ d ∷ rest) more h =
    ((a * 256 + b) * 65536 + (c * 256 + d), rest, refl, refl)

-- A buffer with less than a header asks for more bytes and stays as it is.
pub decode_short : (buf : List ℕ) → length buf < header_size → decode buf ≡ (ok none, buf)
unfolding decode
decode_short buf h = rw (lt→ltb (length buf) header_size h)

-- The outcome of decoding the bytes of one packet.
abbrev pub whole : List ℕ → Result Error (Option ResponsePacket)
whole slice = do packet ← decode_packet slice; ok (some packet)

decode_body-whole :
    (buf more rest : List ℕ) (n : ℕ)
    → header_size + n ≤ length buf
    → decode_body (buf ++ more) (ok (n, rest))
      ≡ (whole (take (header_size + n) buf), drop (header_size + n) buf ++ more)
unfolding decode_body
decode_body-whole buf more rest n h = rw (
  le→ltb (length (buf ++ more)) (header_size + n) (omega (arith, length-append buf more)),
  take-append_le (header_size + n) buf more h,
  drop-append_le (header_size + n) buf more h,
)

-- A buffer that holds a header, by the length that the header declares.
decode_long :
    (buf more rest : List ℕ) (n : ℕ)
    → header_size ≤ length buf
    → get_u32 {E = Error} (drop 8 buf) ≡ ok (n, rest)
    → get_u32 {E = Error} (drop 8 buf ++ more) ≡ ok (n, rest ++ more)
    → decode (buf ++ more) ≡ decode_body (buf ++ more) (ok (n, rest ++ more))
unfolding decode
decode_long buf more rest n h e e' = rw (
  le→ltb (length (buf ++ more)) header_size (omega (arith, length-append buf more)),
  drop-append_le 8 buf more (omega arith),
  e',
)

-- Either `decode` asks for more, or the buffer starts with a packet of 24 + n bytes, and `decode`
-- takes just these, whatever follows them.
pub data Frame (buf more : List ℕ) : Type 0 where
  incomplete : decode buf ≡ (ok none, buf) → Frame buf more
  complete :
      (n : ℕ)
      → header_size + n ≤ length buf
      → decode buf ≡ (whole (take (header_size + n) buf), drop (header_size + n) buf)
      → decode (buf ++ more)
        ≡ (whole (take (header_size + n) buf), drop (header_size + n) buf ++ more)
      → Frame buf more

body_cases :
    (buf more rest : List ℕ) (n : ℕ)
    → header_size ≤ length buf
    → get_u32 {E = Error} (drop 8 buf) ≡ ok (n, rest)
    → get_u32 {E = Error} (drop 8 buf ++ more) ≡ ok (n, rest ++ more)
    → Frame buf more
body_cases buf more rest n h e e' = elim (Bool-cases (ltb (length buf) (header_size + n))) [
  | inl part ↦ incomplete (alone ∙ unfold decode_body in rw part)
  | inr enough ↦
      let fits : header_size + n ≤ length buf = ground arith in
      complete n fits (alone ∙ unfold decode_body in rw enough)
        (decode_long buf more rest n h e e' ∙ decode_body-whole buf more (rest ++ more) n fits)
]
  where
    alone : decode buf ≡ decode_body buf (ok (n, rest))
    alone = unfold decode in rw (le→ltb (length buf) header_size h, e)

pub framing_cases : (buf more : List ℕ) → Frame buf more
framing_cases buf more = elim (Bool-cases (ltb (length buf) header_size)) [
  | inl short ↦ incomplete (unfold decode in rw short)
  | inr long ↦
      let h : header_size ≤ length buf = ground arith in
      let (n, rest, e, e') = get_u32-append (drop 8 buf) more (omega (arith, length-drop 8 buf)) in
      body_cases buf more rest n h e e'
]

-- An answer other than a request for more bytes takes a header and a body off the front: the buffer
-- is what was taken and then what is left.
pub decode_takes :
    (buf rest : List ℕ) (r : Result Error (Option ResponsePacket))
    → decode buf ≡ (r, rest)
    → r ≢ ok none
    → (taken : List ℕ) × (header_size ≤ length taken) × (buf ≡ taken ++ rest)
decode_takes buf rest r e ne = elim (framing_cases buf []) [
  | incomplete i ↦ absurd (ne (cc))
  | complete n fits d d' ↦ (
    take (header_size + n) buf,
    omega (arith, length-take_le (header_size + n) buf fits),
    sym (take-append-drop (header_size + n) buf) ∙ ap (◌++◌ (take (header_size + n) buf)) (cc),
  )
]

-- What follows a packet in the buffer changes neither the answer nor where the packet ends.
pub decode-append :
    (buf rest more : List ℕ) (r : Result Error (Option ResponsePacket))
    → decode buf ≡ (r, rest)
    → r ≢ ok none
    → decode (buf ++ more) ≡ (r, rest ++ more)
decode-append buf rest more r e ne = elim (framing_cases buf more) [
  | incomplete i ↦ absurd (ne (cc))
  | complete n fits d d' ↦ cc
]
