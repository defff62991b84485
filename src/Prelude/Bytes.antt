-- ===== src/Prelude/Bytes.antt =====
-- Big-endian integers in byte sequences, as `get_u8` to `get_u64` and `put_u16` to `put_u64` of the
-- `bytes` crate read and write them: a read past the end panics. A byte is a number below 256.
use couchbase_rs.Prelude.{
  ℕ, ◌+◌, ◌*◌, ◌/◌, ◌%◌, ◌^◌, ◌<◌, ◌≡◌, List, [], ◌∷◌, ◌++◌, arith, Result, ok, panic, ◌>>=◌, ltb,
  length, take, drop, if◌then◌else◌, take-append_length, drop-append_length, le→ltb, length-append,
}

abbrev pub IsByte : ℕ → Type 0
IsByte b = b < 256

abbrev pub IsU16 : ℕ → Type 0
IsU16 v = v < 2 ^ 16

abbrev pub IsU32 : ℕ → Type 0
IsU32 v = v < 2 ^ 32

abbrev pub IsU64 : ℕ → Type 0
IsU64 v = v < 2 ^ 64

unfoldable pub put_u16 : ℕ → List ℕ → List ℕ
put_u16 v rest = (v / 2 ^ 8 % 2 ^ 8) ∷ (v % 2 ^ 8) ∷ rest

unfoldable pub put_u32 : ℕ → List ℕ → List ℕ
unfolding put_u16
put_u32 v rest = put_u16 (v / 2 ^ 16) (put_u16 (v % 2 ^ 16) rest)

unfoldable pub put_u64 : ℕ → List ℕ → List ℕ
unfolding put_u32
put_u64 v rest = put_u32 (v / 2 ^ 32) (put_u32 (v % 2 ^ 32) rest)

module _ {ℓ} {E : Type ℓ} where
  unfoldable pub get_u8 : List ℕ → Result E (ℕ × List ℕ)
  get_u8 [] = panic
  get_u8 (b ∷ rest) = ok (b, rest)

  unfoldable pub get_u16 : List ℕ → Result E (ℕ × List ℕ)
  unfolding get_u8
  get_u16 buf = do (hi, buf₁) ← get_u8 buf; (lo, buf₂) ← get_u8 buf₁; ok (hi * 2 ^ 8 + lo, buf₂)

  unfoldable pub get_u32 : List ℕ → Result E (ℕ × List ℕ)
  unfolding get_u16
  get_u32 buf = do (hi, buf₁) ← get_u16 buf; (lo, buf₂) ← get_u16 buf₁; ok (hi * 2 ^ 16 + lo, buf₂)

  unfoldable pub get_u64 : List ℕ → Result E (ℕ × List ℕ)
  unfolding get_u32
  get_u64 buf = do (hi, buf₁) ← get_u32 buf; (lo, buf₂) ← get_u32 buf₁; ok (hi * 2 ^ 32 + lo, buf₂)

  -- `split_to(n)`: the first `n` bytes and the rest.
  unfoldable pub split_to : {A : Type 0} → ℕ → List A → Result E (List A × List A)
  split_to n buf = if ltb (length buf) n then panic else ok (take n buf, drop n buf)

  pub get_u16-put_u16 : (v : ℕ) (rest : List ℕ) → IsU16 v → get_u16 (put_u16 v rest) ≡ ok (v, rest)
  unfolding get_u16 put_u16
  get_u16-put_u16 v rest h = ground arith

  pub get_u32-put_u32 : (v : ℕ) (rest : List ℕ) → IsU32 v → get_u32 (put_u32 v rest) ≡ ok (v, rest)
  unfolding get_u32 put_u32
  get_u32-put_u32 v rest h = ground arith

  pub get_u64-put_u64 : (v : ℕ) (rest : List ℕ) → IsU64 v → get_u64 (put_u64 v rest) ≡ ok (v, rest)
  unfolding get_u64 put_u64
  get_u64-put_u64 v rest h = ground arith

  pub split_to-append :
      {A : Type 0} (xs ys : List A) → split_to (length xs) (xs ++ ys) ≡ ok (xs, ys)
  unfolding split_to
  split_to-append xs ys = rw (
    le→ltb (length (xs ++ ys)) (length xs) (omega (arith, length-append xs ys)),
    take-append_length xs ys,
    drop-append_length xs ys,
  )
