-- ===== src/Durations/Fractions.antt =====
-- The fractions that sdk/couchbase-core/src/helpers/durations.rs prints, read by its parser.
use couchbase_rs.Durations.{leading_fraction, u64_max}
use couchbase_rs.Durations.Print.{fmt_frac_loop}
use couchbase_rs.Durations.Digits.{digit_byte, no_offset}
use couchbase_rs.Prelude.{
  ℕ, zero, suc, ◌+◌, ◌-◌, ◌*◌, ◌/◌, ◌%◌, ◌^◌, ◌<◌, ◌≤◌, Bool, true, false, List, ◌∷◌, ◌≡◌, refl, ap,
  ◌∙◌, ltb, leb, ◌==◌, arith, Bool-cases, ◌⊎◌, inl, inr, le→ltb, le→leb, ==_iff,
}

-- The last n + 1 digits by the last one and those in front of it.
last_digits : (v p : ℕ) → 0 < p → v % (10 * p) ≡ (v / 10) % p * 10 + v % 10
last_digits v p h = grind arith

frac_step :
    (x power d : ℕ) (out : List ℕ)
    → d < 10
    → x * 10 + d < 10 ^ 18
    → leading_fraction x power false ((d + 48) ∷ out)
      ≡ leading_fraction (x * 10 + d) (suc power) false out
unfolding leading_fraction
frac_step x power d out p q =
    let small : ltb ((u64_max - 1) / 10) x ≡ false =
      le→ltb ((u64_max - 1) / 10) x (omega (arith, q)) in
    let fits : leb (x * 10 + d) u64_max ≡ true = le→leb (x * 10 + d) u64_max (omega (arith, q)) in
    rw (digit_byte d p, small, no_offset d, fits) refl

pub ten_suc : (n : ℕ) → 10 ^ suc n ≡ 10 * 10 ^ n
ten_suc n = omega arith

pub ten_positive : (n : ℕ) → 0 < 10 ^ n
ten_positive zero = omega arith
ten_positive (suc n) = omega (arith, ten_suc n, ten_positive n)

pub ten_le : (n k : ℕ) → 10 ^ n ≤ 10 ^ (n + k)
ten_le n zero = let e : n + 0 ≡ n = omega arith in rw e (omega arith)
ten_le n (suc k) =
    let e : n + suc k ≡ suc (n + k) = omega arith in
    rw (e, ten_suc (n + k)) (omega (arith, ten_le n k))

pub below_ten : (n v : ℕ) → v % 10 ^ n < 10 ^ n
below_ten n v = let h = ten_positive n in grind arith

sixteen : (n : ℕ) → n < 17 → suc n + (16 - n) ≡ 17
sixteen n p = omega (arith, p)

same_read :
    (x y p q : ℕ) (out : List ℕ)
    → x ≡ y
    → p ≡ q
    → leading_fraction x p false out ≡ leading_fraction y q false out
same_read x y p q out e f = rw (e, f) refl

-- The digits behind a first one that is printed, read behind a number.
printed_read :
    (n v : ℕ) (out : List ℕ) (x power : ℕ)
    → x * 10 ^ n + v % 10 ^ n < 10 ^ 18
    → leading_fraction x power false (fmt_frac_loop n out v true).0
      ≡ leading_fraction (x * 10 ^ n + v % 10 ^ n) (n + power) false out
unfolding fmt_frac_loop
printed_read zero v out x power p =
    same_read x (x * 10 ^ 0 + v % 10 ^ 0) power (0 + power) out (omega arith) (omega arith)
printed_read (suc n) v out x power p =
    let value : (x * 10 ^ n + (v / 10) % 10 ^ n) * 10 + v % 10 ≡ x * 10 ^ suc n + v % 10 ^ suc n =
      rw (ten_suc n, last_digits v (10 ^ n) (ten_positive n)) (omega arith) in
    printed_read n (v / 10) ((v % 10 + 48) ∷ out) x power (omega (arith, value, p))
    ∙ (frac_step (x * 10 ^ n + (v / 10) % 10 ^ n) (n + power) (v % 10) out (omega arith)
          (rw value p)
        ∙ same_read _ _ _ _ out value (omega arith))

shorter : (v n : ℕ) → v / 10 / 10 ^ n ≡ v / 10 ^ suc n
shorter v n = rw (ten_suc n) (grind arith)

printed_rest :
    (n v : ℕ) (out : List ℕ)
    → ((fmt_frac_loop n out v true).1 ≡ v / 10 ^ n) × ((fmt_frac_loop n out v true).2 ≡ true)
unfolding fmt_frac_loop
printed_rest zero v out = (omega arith, refl)
printed_rest (suc n) v out = (
  (printed_rest n (v / 10) ((v % 10 + 48) ∷ out)).0 ∙ shorter v n,
  (printed_rest n (v / 10) ((v % 10 + 48) ∷ out)).1,
)

-- What the loop leaves: nothing where the digits are zeros, and else the digits without the zeros
-- at their end, which are read as a number with its power of ten.
pub record Printed (n v : ℕ) (out : List ℕ) (r : List ℕ × ℕ × Bool) : Type 0 where
  pub printed : r.2 ≡ true
  pub fraction : ℕ
  pub power : ℕ
  pub dropped : ℕ
  pub positive : 0 < fraction
  pub widths : power + dropped ≡ n
  pub exact : fraction * 10 ^ dropped ≡ v % 10 ^ n
  pub read : leading_fraction 0 0 false r.0 ≡ leading_fraction fraction power false out

abbrev pub Trimmed : ℕ → ℕ → List ℕ → List ℕ × ℕ × Bool → Type 0
Trimmed n v out r =
    (r.1 ≡ v / 10 ^ n) × (((v % 10 ^ n ≡ 0) × (r.0 ≡ out) × (r.2 ≡ false)) ⊎ Printed n v out r)

loop_skips :
    (n v : ℕ) (out : List ℕ)
    → (v % 10 == 0) ≡ true
    → fmt_frac_loop (suc n) out v false ≡ fmt_frac_loop n out (v / 10) false
unfolding fmt_frac_loop
loop_skips n v out e = rw e refl

loop_prints :
    (n v : ℕ) (out : List ℕ)
    → (v % 10 == 0) ≡ false
    → fmt_frac_loop (suc n) out v false ≡ fmt_frac_loop n ((v % 10 + 48) ∷ out) (v / 10) true
unfolding fmt_frac_loop
loop_prints n v out e = rw e refl

-- A zero at the end is dropped.
skipped :
    (n v : ℕ) (out : List ℕ) (r : List ℕ × ℕ × Bool)
    → v % 10 ≡ 0
    → Trimmed n (v / 10) out r
    → Trimmed (suc n) v out r
skipped n v out r e (rest, inl (none_left, same, silent)) = (
  rest ∙ shorter v n,
  inl (rw (ten_suc n, last_digits v (10 ^ n) (ten_positive n), none_left, e) refl, same, silent),
)
skipped n v out r e (rest, inr p) = (
  rest ∙ shorter v n,
  inr (record {
    printed = p.printed;
    fraction = p.fraction;
    power = p.power;
    dropped = suc p.dropped;
    positive = p.positive;
    widths = omega (arith, p.widths);
    exact =
        rw (ten_suc n, ten_suc p.dropped, last_digits v (10 ^ n) (ten_positive n))
          (omega (arith, p.exact, e));
    read = p.read;
  }),
)

-- The last digit that is printed.
last_printed :
    (n v : ℕ) (out : List ℕ)
    → n < 17
    → (v % 10 == 0) ≡ false
    → Trimmed (suc n) v out (fmt_frac_loop n ((v % 10 + 48) ∷ out) (v / 10) true)
unfolding fmt_frac_loop
last_printed n v out p e = (
  (printed_rest n (v / 10) ((v % 10 + 48) ∷ out)).0 ∙ shorter v n,
  inr (record {
    printed = (printed_rest n (v / 10) ((v % 10 + 48) ∷ out)).1;
    fraction = v % 10 ^ suc n;
    power = suc n;
    dropped = 0;
    positive = rw (ten_suc n, last_digits v (10 ^ n) (ten_positive n)) (ground arith);
    widths = omega arith;
    exact = omega arith;
    read =
        printed_read (suc n) v out 0 0 (
          omega (
            arith,
            below_ten (suc n) v,
            ten_le (suc n) (16 - n),
            ap (λ (k : ℕ). 10 ^ k) (sixteen n p),
          ))
        ∙ same_read _ _ _ _ out (omega arith) (omega arith);
  }),
)

pub fmt_frac_loop-Trimmed :
    (n v : ℕ) (out : List ℕ) → n < 18 → Trimmed n v out (fmt_frac_loop n out v false)
fmt_frac_loop-Trimmed zero v out p =
    unfold fmt_frac_loop in (omega arith, inl (omega arith, refl, refl))
fmt_frac_loop-Trimmed (suc n) v out p = elim (Bool-cases (v % 10 == 0)) [
  | inl e ↦ rw (loop_skips n v out e) (
      skipped n v out _ ((==_iff (v % 10) 0).0 e)
        (fmt_frac_loop-Trimmed n (v / 10) out (omega (arith, p))))
  | inr e ↦ rw (loop_prints n v out e) (last_printed n v out (omega (arith, p)) e)
]
