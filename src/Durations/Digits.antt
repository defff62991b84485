-- ===== src/Durations/Digits.antt =====
-- The integers that sdk/couchbase-core/src/helpers/durations.rs prints, read by its parser.
use couchbase_rs.Durations.{leading_int, is_digit, starts_with_digit, u64_max}
use couchbase_rs.Durations.Print.{fmt_int, fmt_int_loop}
use couchbase_rs.Prelude.{
  ℕ, zero, suc, ◌+◌, ◌-◌, ◌*◌, ◌/◌, ◌%◌, ◌^◌, ◌<◌, ◌≤◌, true, false, List, ◌∷◌, ◌≡◌, refl, ap, ◌∙◌,
  ltb, leb, ◌==◌, arith, Bool-cases, inl, inr, le→ltb, le→leb, ==_iff,
}

pub digit_byte : (d : ℕ) → d < 10 → is_digit (d + 48) ≡ true
digit_byte d p = ground arith

pub no_offset : (d : ℕ) → d + 48 - 48 ≡ d
no_offset d = omega arith

int_step :
    (x d : ℕ) (out : List ℕ)
    → d < 10
    → x * 10 + d ≤ u64_max
    → leading_int x ((d + 48) ∷ out) ≡ leading_int (x * 10 + d) out
unfolding leading_int
int_step x d out p q =
    let small : ltb (u64_max / 10) x ≡ false = le→ltb (u64_max / 10) x (omega arith) in
    let fits : leb (x * 10 + d) u64_max ≡ true = le→leb (x * 10 + d) u64_max q in
    rw (digit_byte d p, small, no_offset d, fits) refl

-- The digits of a number are read as the number.
leading_int-fmt_int_loop :
    (fuel v : ℕ) (out : List ℕ)
    → v < 10 ^ fuel
    → v ≤ u64_max
    → leading_int 0 (fmt_int_loop fuel out v) ≡ leading_int v out
unfolding fmt_int_loop
leading_int-fmt_int_loop zero v out p q = let e : v ≡ 0 = omega arith in rw e refl
leading_int-fmt_int_loop (suc fuel) v out p q = elim (Bool-cases (v == 0)) [
  | inl none_left ↦ let e : v ≡ 0 = (==_iff v 0).0 none_left in rw (none_left, e) refl
  | inr more ↦ rw more (
      leading_int-fmt_int_loop fuel (v / 10) ((v % 10 + 48) ∷ out) omega (arith, p)
        (omega (arith, q))
      ∙ (int_step (v / 10) (v % 10) out (omega arith) (omega (arith, q))
          ∙ ap (λ n. leading_int n out) (omega arith)))
]

head_is_digit :
    (fuel v : ℕ) (out : List ℕ)
    → starts_with_digit out ≡ true
    → starts_with_digit (fmt_int_loop fuel out v) ≡ true
unfolding fmt_int_loop
head_is_digit zero v out p = p
head_is_digit (suc fuel) v out p = elim (Bool-cases (v == 0)) [
  | inl e ↦ rw e p
  | inr e ↦
      rw e (head_is_digit fuel (v / 10) ((v % 10 + 48) ∷ out) (digit_byte (v % 10) (omega arith)))
]

positive_head :
    (fuel v : ℕ) (out : List ℕ)
    → (v == 0) ≡ false
    → starts_with_digit (fmt_int_loop (suc fuel) out v) ≡ true
unfolding fmt_int_loop
positive_head fuel v out e =
    rw e (head_is_digit fuel (v / 10) ((v % 10 + 48) ∷ out) (digit_byte (v % 10) (omega arith)))

pub starts_with_digit-fmt_int : (v : ℕ) (out : List ℕ) → starts_with_digit (fmt_int out v) ≡ true
unfolding fmt_int
starts_with_digit-fmt_int v out = elim (Bool-cases (v == 0)) [
  | inl e ↦ rw e refl
  | inr e ↦ rw e (positive_head 19 v out e)
]

pub leading_int-fmt_int :
    (v : ℕ) (out : List ℕ) → v ≤ u64_max → leading_int 0 (fmt_int out v) ≡ leading_int v out
unfolding fmt_int
leading_int-fmt_int v out p = elim (Bool-cases (v == 0)) [
  | inl e ↦
      let z : v ≡ 0 = (==_iff v 0).0 e in rw (e, z) (int_step 0 0 out (omega arith) (omega arith))
  | inr e ↦ rw e (leading_int-fmt_int_loop 20 v out (omega (arith, p)) p)
]
