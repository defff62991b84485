-- ===== src/Durations/Buffer.antt =====
-- How long the texts of `duration_to_golang_string` in sdk/couchbase-core/src/helpers/durations.rs
-- are, which the code prints into a buffer of 32 bytes.
use couchbase_rs.Durations.Print.{
  fmt_int, fmt_int_loop, fmt_frac, fmt_frac_loop, with_point, below_second, with_hours,
  with_minutes, from_second, duration_to_golang_string,
}
use couchbase_rs.Durations.Fractions.{ten_suc}
use couchbase_rs.Durations.RoundTrip.{fmt_frac-rest}
use couchbase_rs.Prelude.{
  ℕ, zero, suc, ◌+◌, ◌/◌, ◌%◌, ◌^◌, ◌<◌, ◌≤◌, Bool, true, false, not, ◌||◌, List, [], ◌∷◌, ◌≡◌, ltb,
  ◌==◌, if◌then◌else◌, arith, length, Bool-cases, inl, inr, ltb→lt, ==_iff,
}

int_loop_bound :
    (fuel n v : ℕ) (out : List ℕ) → v < 10 ^ n → length (fmt_int_loop fuel out v) ≤ length out + n
unfolding fmt_int_loop
int_loop_bound zero n v out p = omega arith
int_loop_bound (suc fuel) zero v out p =
    let e : (v == 0) ≡ true = (==_iff v 0).1 (omega (arith, p)) in rw e (omega arith)
int_loop_bound (suc fuel) (suc n) v out p = elim (Bool-cases (v == 0)) [
  | inl e ↦ rw e (omega arith)
  | inr e ↦ rw e (
      omega
        (arith, int_loop_bound fuel n (v / 10) ((v % 10 + 48) ∷ out) (omega (arith, p, ten_suc n))))
]

int_bound : (n v : ℕ) (out : List ℕ) → v < 10 ^ suc n → length (fmt_int out v) ≤ length out + suc n
unfolding fmt_int
int_bound n v out p = elim (Bool-cases (v == 0)) [
  | inl e ↦ rw e (omega arith)
  | inr e ↦ rw e (int_loop_bound 20 (suc n) v out p)
]

if_bound : (b : Bool) (c : ℕ) (out : List ℕ) → length (if b then c ∷ out else out) ≤ length out + 1
if_bound true c out = omega arith
if_bound false c out = omega arith

frac_loop_bound :
    (n v : ℕ) (out : List ℕ) (print : Bool)
    → length (fmt_frac_loop n out v print).0 ≤ length out + n
unfolding fmt_frac_loop
frac_loop_bound zero v out print = omega arith
frac_loop_bound (suc n) v out print =
    let printed : Bool = print || not (v % 10 == 0) in
    omega (
      arith,
      if_bound printed (v % 10 + 48) out,
      frac_loop_bound n (v / 10) (if printed then (v % 10 + 48) ∷ out else out) printed,
    )

point_bound : (r : List ℕ × ℕ × Bool) → length (with_point r).0 ≤ length r.0 + 1
point_bound (buf, v, true) = omega arith
point_bound (buf, v, false) = omega arith

frac_bound : (prec v : ℕ) (out : List ℕ) → length (fmt_frac out v prec).0 ≤ length out + prec + 1
unfolding fmt_frac
frac_bound prec v out =
    omega (arith, frac_loop_bound prec v out false, point_bound (fmt_frac_loop prec out v false))

decimal_bound :
    (u prec n : ℕ) (buf : List ℕ)
    → prec < 18
    → u / 10 ^ prec < 10 ^ suc n
    → length (fmt_int (fmt_frac buf u prec).0 (fmt_frac buf u prec).1)
      ≤ length buf + prec + 1 + suc n
decimal_bound u prec n buf p q =
    rw (fmt_frac-rest buf u prec p)
      (omega (arith, int_bound n (u / 10 ^ prec) (fmt_frac buf u prec).0 q, frac_bound prec u buf))

below_second_bound : (u : ℕ) → u < 1000000000 → length (below_second u) ≤ 24
unfolding below_second
below_second_bound u p = elim (Bool-cases (u == 0)) [
  | inl e ↦ rw e (omega arith)
  | inr e ↦ elim (Bool-cases (ltb u 1000)) [
    | inl nanos ↦
        rw (e, nanos)
          (omega (arith, decimal_bound u 0 8 (b'n' ∷ b's' ∷ []) (omega arith) (omega (arith, p))))
    | inr more ↦ elim (Bool-cases (ltb u 1000000)) [
      | inl micros ↦
          rw (e, more, micros)
            (omega (
              arith,
              decimal_bound u 3 8 (0xc2 ∷ 0xb5 ∷ b's' ∷ []) (omega arith) (omega (arith, p)),
            ))
      | inr most ↦
          rw (e, more, most)
            (omega (arith, decimal_bound u 6 8 (b'm' ∷ b's' ∷ []) (omega arith) (omega (arith, p))))
    ]
  ]
]

seconds_bound : (u : ℕ) → length (fmt_int (fmt_frac (b's' ∷ []) u 9).0 (u / 10 ^ 9 % 60)) ≤ 13
seconds_bound u = omega (
  arith,
  int_bound 1 (u / 10 ^ 9 % 60) (fmt_frac (b's' ∷ []) u 9).0 (omega arith),
  frac_bound 9 u (b's' ∷ []),
)

hours_bound : (h : ℕ) (out : List ℕ) → h < 10 ^ 7 → length (with_hours out h) ≤ length out + 8
unfolding with_hours
hours_bound h out p = elim (Bool-cases (ltb 0 h)) [
  | inl e ↦ rw e (omega (arith, int_bound 6 h (b'h' ∷ out) p))
  | inr e ↦ rw e (omega arith)
]

minutes_bound :
    (s : ℕ) (out : List ℕ)
    → s < 18446744074
    → length out ≤ 13
    → length (with_minutes out (s / 60)) ≤ 24
unfolding with_minutes
minutes_bound s out p q = elim (Bool-cases (ltb 0 (s / 60))) [
  | inl e ↦ rw e (
      omega (
        arith,
        q,
        int_bound 1 (s / 60 % 60) (b'm' ∷ out) (omega arith),
        hours_bound (s / 60 / 60) (fmt_int (b'm' ∷ out) (s / 60 % 60)) (omega (arith, p)),
      ))
  | inr e ↦ rw e (omega (arith, q))
]

from_second_bound : (u : ℕ) → u < 2 ^ 64 → length (from_second u) ≤ 24
unfolding from_second
from_second_bound u p =
    rw (fmt_frac-rest (b's' ∷ []) u 9 (omega arith))
      (minutes_bound (u / 10 ^ 9) _ (omega (arith, p)) (seconds_bound u))

-- A text is never longer than 24 bytes, whatever the duration.
pub length-duration_to_golang_string : (nanos : ℕ) → length (duration_to_golang_string nanos) ≤ 24
unfolding duration_to_golang_string
length-duration_to_golang_string nanos = elim (Bool-cases (ltb (nanos % 2 ^ 64) 1000000000)) [
  | inl short ↦
      rw short (below_second_bound (nanos % 2 ^ 64) (ltb→lt (nanos % 2 ^ 64) 1000000000 short))
  | inr long ↦ rw long (from_second_bound (nanos % 2 ^ 64) (omega arith))
]
