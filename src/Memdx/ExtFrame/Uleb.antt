-- ===== src/Memdx/ExtFrame/Uleb.antt =====
-- `make_uleb128_32` of memdx/extframe.rs.
use Prim.Native.Nat.{bit_and, bit_or}
use couchbase_rs.Prelude.{
  ℕ, zero, suc, ◌+◌, ◌-◌, ◌*◌, ◌/◌, ◌%◌, ◌^◌, ◌≤◌, ◌<◌, ◌≡◌, refl, List, [], ◌∷◌, ◌++◌, Option,
  none, some, Result, ok, panic, ◌>>=◌, ltb, Bool-cases, inl, inr, ltb→lt, lt→ltb, le→ltb, ◌∙◌,
  ◌==◌, if◌then◌else◌, length, drop, arith,
}
use native.Mathlib.Nat.{pow-suc}
use native.Mathlib.Numerals.{add-one}
use couchbase_rs.Prelude.Bits.{low_seven, top_bit, set_top_bit}
use couchbase_rs.Memdx.Error.{Error}

-- The byte that a round writes: seven bits, and the top bit if more follow.
unfoldable pub uleb_byte : ℕ → ℕ
uleb_byte cid = let c = bit_and cid 0x7f % 2 ^ 8 in if cid / 2 ^ 7 == 0 then c else bit_or c 0x80

-- The rounds of the loop from `buf[count]` on: the buffer from there, and how many bytes were
-- written. A write past the end of the buffer panics.
unfoldable pub uleb_loop : ℕ → List ℕ → Result Error (List ℕ × ℕ)
unfolding uleb_byte
uleb_loop cid [] = panic
uleb_loop cid (slot ∷ slots) =
    let c = uleb_byte cid in
    let next = (do (rest, count) ← uleb_loop (cid / 2 ^ 7) slots; ok (c ∷ rest, count + 1)) in
    if bit_and c 0x80 == 0 then ok (c ∷ slots, 1) else next

pub make_uleb128_32 : ℕ → List ℕ → Result Error (List ℕ × ℕ)
unfolding uleb_loop
make_uleb128_32 collection_id buf = uleb_loop collection_id buf

uleb_300 : make_uleb128_32 300 (0 ∷ 0 ∷ 0 ∷ []) ≡ ok (0xac ∷ 2 ∷ 0 ∷ [], 2)
unfolding make_uleb128_32
uleb_300 = refl

-- What such bytes stand for: seven bits a byte, lowest first, up to the first byte below 128.
add_group : ℕ → Option (ℕ × List ℕ) → Option (ℕ × List ℕ)
add_group b none = none
add_group b (some (v, rest)) = some (b - 128 + 128 * v, rest)

unfoldable pub uleb_value : List ℕ → Option (ℕ × List ℕ)
unfolding add_group
uleb_value [] = none
uleb_value (b ∷ bs) = if ltb b 128 then some (b, bs) else add_group b (uleb_value bs)

uleb_byte-lt : (cid : ℕ) → cid < 128 → uleb_byte cid ≡ cid
unfolding uleb_byte
uleb_byte-lt cid h = ground (arith, low_seven cid)

uleb_byte-ge : (cid : ℕ) → 128 ≤ cid → uleb_byte cid ≡ cid % 128 + 128
unfolding uleb_byte
uleb_byte-ge cid h = ground (arith, low_seven cid, set_top_bit (cid % 128))

-- The last round, and a round with more to come.
uleb_loop-lt :
    (cid slot : ℕ) (slots : List ℕ) → cid < 128 → uleb_loop cid (slot ∷ slots) ≡ ok (cid ∷ slots, 1)
unfolding uleb_loop
uleb_loop-lt cid slot slots h = ground (arith, uleb_byte-lt cid, top_bit cid)

uleb_loop-ge :
    (cid slot : ℕ) (slots : List ℕ)
    → 128 ≤ cid
    → uleb_loop cid (slot ∷ slots)
      ≡ (do (rest, count) ← uleb_loop (cid / 2 ^ 7) slots; ok ((cid % 128 + 128) ∷ rest, count + 1))
unfolding uleb_loop
uleb_loop-ge cid slot slots h = ground (arith, uleb_byte-ge cid, top_bit (cid % 128 + 128))

shorter : (n cid : ℕ) → cid < 128 ^ suc (suc n) → cid / 128 < 128 ^ suc n
shorter n cid h = omega (arith, pow-suc 128 (suc n))

-- The bytes written for an id below 128 ^ n.
unfoldable pub uleb_bytes : ℕ → ℕ → List ℕ
uleb_bytes zero cid = cid ∷ []
uleb_bytes (suc n) cid =
    let rest = uleb_bytes n (cid / 128) in
    if ltb cid 128 then cid ∷ [] else (cid % 128 + 128) ∷ rest

uleb_loop-bytes :
    (n cid : ℕ) (slots : List ℕ)
    → cid < 128 ^ suc n
    → n < length slots
    → uleb_loop cid slots
      ≡ ok (uleb_bytes n cid ++ drop (length (uleb_bytes n cid)) slots, length (uleb_bytes n cid))
unfolding uleb_bytes
uleb_loop-bytes n cid [] h k = absurd (omega arith)
uleb_loop-bytes zero cid (slot ∷ slots) h k = uleb_loop-lt cid slot slots (omega arith)
uleb_loop-bytes (suc n) cid (slot ∷ slots) h k = elim (Bool-cases (ltb cid 128)) [
  | inl last ↦ rw last (uleb_loop-lt cid slot slots (ltb→lt cid 128 last))
  | inr more ↦ rw more (
      uleb_loop-ge cid slot slots (ground arith)
      ∙ rw (uleb_loop-bytes n (cid / 128) slots (shorter n cid h) (omega arith), add-one))
]

-- The bytes stand for the id, whatever follows them.
uleb_value-bytes :
    (n cid : ℕ) (rest : List ℕ)
    → cid < 128 ^ suc n
    → uleb_value (uleb_bytes n cid ++ rest) ≡ some (cid, rest)
unfolding uleb_bytes uleb_value
uleb_value-bytes zero cid rest h = rw (lt→ltb cid 128 (omega arith))
uleb_value-bytes (suc n) cid rest h = elim (Bool-cases (ltb cid 128)) [
  | inl last ↦ rw last (rw last)
  | inr more ↦ rw more (
      rw
        (
          le→ltb (cid % 128 + 128) 128 (omega arith),
          uleb_value-bytes n (cid / 128) rest (shorter n cid h),
        )
        (ground arith))
]

length-uleb_bytes :
    (n cid : ℕ) → (1 ≤ length (uleb_bytes n cid)) × (length (uleb_bytes n cid) ≤ n + 1)
unfolding uleb_bytes
length-uleb_bytes zero cid = omega arith
length-uleb_bytes (suc n) cid = ground (arith, length-uleb_bytes n (cid / 128))

uleb_bytes-one : (n cid : ℕ) → cid < 128 → length (uleb_bytes n cid) ≡ 1
unfolding uleb_bytes
uleb_bytes-one zero cid h = refl
uleb_bytes-one (suc n) cid h = rw (lt→ltb cid 128 h)

uleb_bytes-room : (cid : ℕ) → length (uleb_bytes 4 cid) ≤ (if ltb cid 128 then 1 else 5)
uleb_bytes-room cid = ground (arith, uleb_bytes-one 4 cid, length-uleb_bytes 4 cid)

-- A u32 takes at most five bytes at the front of the buffer, one if it is below 128, and a buffer
-- of five bytes is enough. The rest of the buffer keeps its bytes, and the bytes written stand for
-- the id.
pub make_uleb128_32_lem :
    (collection_id : ℕ) (buf : List ℕ)
    → collection_id < 2 ^ 32
    → 5 ≤ length buf
    → (bytes : List ℕ) × (make_uleb128_32 collection_id buf
        ≡ ok (bytes ++ drop (length bytes) buf, length bytes))
      × (length bytes ≤ (if ltb collection_id 128 then 1 else 5))
      × ((rest : List ℕ) → uleb_value (bytes ++ rest) ≡ some (collection_id, rest))
unfolding make_uleb128_32
make_uleb128_32_lem cid buf h k = (
  uleb_bytes 4 cid,
  uleb_loop-bytes 4 cid buf (omega arith) (omega arith),
  uleb_bytes-room cid,
  λ rest. uleb_value-bytes 4 cid rest (omega arith),
)
