-- ===== src/Prelude/Bits.antt =====
-- Masks as arithmetic: on bytes by tables of at most 256 entries, checked by evaluation, and on
-- numbers of any width by their binary digits.
use Prim.Native.Nat.{bit_and, bit_or, digits, min, bit_and-bitwise, bit_or-bitwise, max}
use mathlib.Core.Path.{ap₂, subst}
use mathlib.Core.Bool.{true≢false}
use native.Mathlib.Nat.{pow-succ'}
use couchbase_rs.Prelude.{
  ◌∙◌, ℕ, zero, suc, ◌+◌, ◌*◌, ◌/◌, ◌%◌, ◌^◌, ◌<◌, ◌≡◌, refl, sym, ◌≤◌, Bool, true, false, ◌==◌,
  ==_iff, arith, if◌then◌else◌, Bool-cases, inl, inr, ap, ltb, ltb→lt,
}

-- Two functions have the same values below a bound.
agree : ℕ → (ℕ → ℕ) → (ℕ → ℕ) → Bool
agree zero f g = true
agree (suc n) f g = if f n == g n then agree n f g else false

agree-values : (n : ℕ) (f g : ℕ → ℕ) → agree n f g ≡ true → (x : ℕ) → x < n → f x ≡ g x
unfolding agree
agree-values zero f g checked x below = absurd (omega arith)
agree-values (suc n) f g checked x below = elim (Bool-cases (f n == g n)) [
  | inl same ↦ elim (Bool-cases (ltb x n)) [
    | inl earlier ↦
        agree-values n f g (ap (λ b. if b then agree n f g else false) (sym same) ∙ checked) x
          (ltb→lt x n earlier)
    | inr last ↦ subst (λ y. f y ≡ g y) (ground arith) ((==_iff (f n) (g n)).0 same)
  ]
  | inr other ↦ absurd (true≢false (sym checked ∙ ap (λ b. if b then agree n f g else false) other))
]

-- What `bit_and` computes with fuel is `bit_and`, from the fuel that the first number needs.
and_digits : ℕ → ℕ → ℕ → ℕ
and_digits = digits (λ _. zero) min

and_digits_enough : (bound m a b : ℕ) → m ≤ bound → a ≤ m → and_digits m a b ≡ bit_and a b
unfolding and_digits
and_digits_enough bound zero zero b h k = sym (bit_and-bitwise 0 b)
and_digits_enough bound zero (suc a) b h k = absurd (omega arith)
and_digits_enough bound (suc m) zero b h k = sym (bit_and-bitwise 0 b)
and_digits_enough zero (suc m) (suc a) b h k = absurd (omega arith)
and_digits_enough (suc bound) (suc m) (suc a) b h k = omega (
  arith,
  and_digits_enough bound m (suc a / 2) (b / 2) (omega arith) (omega arith),
  and_digits_enough bound a (suc a / 2) (b / 2) (omega arith) (omega arith),
  bit_and-bitwise (suc a) b,
)

-- The lowest digit and the others.
and_halves : (a b : ℕ) → bit_and a b ≡ bit_and (a / 2) (b / 2) * 2 + min (a % 2) (b % 2)
unfolding and_digits
and_halves zero b = omega (arith, bit_and-bitwise 0 b, bit_and-bitwise 0 (b / 2))
and_halves (suc a) b = omega (
  arith,
  bit_and-bitwise (suc a) b,
  and_digits_enough a a (suc a / 2) (b / 2) (omega arith) (omega arith),
)

and_one : (a : ℕ) → bit_and a 1 ≡ a % 2
and_one a = omega (arith, and_halves a 1, and_none a (a / 2) (omega arith))
  where
    and_none : (n m : ℕ) → m ≤ n → bit_and m 0 ≡ 0
    and_none n zero h = refl
    and_none zero (suc m) h = absurd (omega arith)
    and_none (suc n) (suc m) h =
        omega (arith, and_halves (suc m) 0, and_none n (suc m / 2) (omega arith))

-- Masks of low bits, on numbers of any width.
pub low_nibble : (a : ℕ) → bit_and a 15 ≡ a % 16
low_nibble a = omega (
  arith,
  and_halves a 15,
  and_halves (a / 2) 7,
  and_halves (a / 2 / 2) 3,
  and_one (a / 2 / 2 / 2),
)

pub low_seven : (a : ℕ) → bit_and a 0x7f ≡ a % 128
low_seven a = omega (
  arith,
  and_halves a 127,
  and_halves (a / 2) 63,
  and_halves (a / 2 / 2) 31,
  low_nibble (a / 2 / 2 / 2),
)

low_eleven : (a : ℕ) → bit_and a 0x7ff ≡ a % 2 ^ 11
low_eleven a = omega (
  arith,
  and_halves a 2047,
  and_halves (a / 2) 1023,
  and_halves (a / 2 / 2) 511,
  and_halves (a / 2 / 2 / 2) 255,
  low_seven (a / 2 / 2 / 2 / 2),
)

pub low_fifteen : (a : ℕ) → bit_and a 0x7fff ≡ a % 2 ^ 15
low_fifteen a = omega (
  arith,
  and_halves a 32767,
  and_halves (a / 2) 16383,
  and_halves (a / 2 / 2) 8191,
  and_halves (a / 2 / 2 / 2) 4095,
  low_eleven (a / 2 / 2 / 2 / 2),
)

top_table : agree 256 (λ b. bit_and b 0x80) (λ b. b / 128 * 128) ≡ true
unfolding agree
top_table = refl

pub top_bit : (b : ℕ) → b < 256 → bit_and b 0x80 ≡ b / 128 * 128
top_bit b h = agree-values 256 _ _ top_table b h

set_top_table : agree 128 (λ b. bit_or b 0x80) (λ b. b + 128) ≡ true
unfolding agree
set_top_table = refl

pub set_top_bit : (b : ℕ) → b < 128 → bit_or b 0x80 ≡ b + 128
set_top_bit b h = agree-values 128 _ _ set_top_table b h

high_table : agree 256 (λ b. bit_and b 0xf0 / 16) (λ b. b / 16) ≡ true
unfolding agree
high_table = refl

pub high_nibble : (b : ℕ) → b < 256 → bit_and b 0xf0 / 16 ≡ b / 16
high_nibble b h = agree-values 256 _ _ high_table b h

or_nibbles_table : agree 256 (λ b. bit_or (b / 16 * 16) (b % 16)) (λ b. b) ≡ true
unfolding agree
or_nibbles_table = refl

or_nibbles_of : (b : ℕ) → b < 256 → bit_or (b / 16 * 16) (b % 16) ≡ b
or_nibbles_of b h = agree-values 256 _ _ or_nibbles_table b h

-- A high and a low nibble put together.
pub or_nibbles : (hi lo : ℕ) → hi < 16 → lo < 16 → bit_or (hi * 16) lo ≡ hi * 16 + lo
or_nibbles hi lo h k = ap₂ bit_or upper lower ∙ or_nibbles_of (hi * 16 + lo) (omega arith)
  where
    upper : hi * 16 ≡ (hi * 16 + lo) / 16 * 16
    upper = omega arith

    lower : lo ≡ (hi * 16 + lo) % 16
    lower = omega arith

zero_or_table : agree 256 (λ b. bit_or 0 b) (λ b. b) ≡ true
unfolding agree
zero_or_table = refl

pub zero_or : (b : ℕ) → b < 256 → bit_or 0 b ≡ b
zero_or b h = agree-values 256 _ _ zero_or_table b h

-- The same for `bit_or`.
or_digits : ℕ → ℕ → ℕ → ℕ
or_digits = digits (λ b. b) max

or_digits_enough : (bound m a b : ℕ) → m ≤ bound → a ≤ m → or_digits m a b ≡ bit_or a b
unfolding or_digits
or_digits_enough bound zero zero b h k = sym (bit_or-bitwise 0 b)
or_digits_enough bound zero (suc a) b h k = absurd (omega arith)
or_digits_enough bound (suc m) zero b h k = sym (bit_or-bitwise 0 b)
or_digits_enough zero (suc m) (suc a) b h k = absurd (omega arith)
or_digits_enough (suc bound) (suc m) (suc a) b h k = omega (
  arith,
  or_digits_enough bound m (suc a / 2) (b / 2) (omega arith) (omega arith),
  or_digits_enough bound a (suc a / 2) (b / 2) (omega arith) (omega arith),
  bit_or-bitwise (suc a) b,
)

or_halves : (a b : ℕ) → bit_or a b ≡ bit_or (a / 2) (b / 2) * 2 + max (a % 2) (b % 2)
unfolding or_digits
or_halves zero b = omega (arith, bit_or-bitwise 0 b, bit_or-bitwise 0 (b / 2))
or_halves (suc a) b = omega (
  arith,
  bit_or-bitwise (suc a) b,
  or_digits_enough a a (suc a / 2) (b / 2) (omega arith) (omega arith),
)

or_none : (bound a : ℕ) → a ≤ bound → bit_or a 0 ≡ a
or_none bound zero h = refl
or_none zero (suc a) h = absurd (omega arith)
or_none (suc bound) (suc a) h =
    omega (arith, or_halves (suc a) 0, or_none bound (suc a / 2) (omega arith))

-- One more low digit.
or_double :
    (hi lo k : ℕ)
    → bit_or (hi * k) (lo / 2) ≡ hi * k + lo / 2
    → bit_or (hi * (2 * k)) lo ≡ hi * (2 * k) + lo
or_double hi lo k h = omega (arith, or_halves (hi * (2 * k)) lo, upper)
  where
    half : hi * (2 * k) / 2 ≡ hi * k
    half = omega arith

    upper : bit_or (hi * (2 * k) / 2) (lo / 2) ≡ hi * k + lo / 2
    upper = rw half h

-- A number shifted by `n` bits, and one of `n` bits put below it.
pub or_shifted : (n hi lo : ℕ) → lo < 2 ^ n → bit_or (hi * 2 ^ n) lo ≡ hi * 2 ^ n + lo
or_shifted zero hi zero h = or_none (hi * 1) (hi * 1) (omega arith) ∙ omega arith
or_shifted zero hi (suc lo) h = absurd (omega arith)
or_shifted (suc n) hi lo h =
    rw (pow-succ' 2 n)
      (or_double hi lo (2 ^ n) (or_shifted n hi (lo / 2) (omega (arith, pow-succ' 2 n))))
