-- ===== src/Durations/Examples.antt =====
-- The source's own tests of durations, and the theorems at concrete inputs.
use couchbase_rs.Durations.{
  leading_int, leading_fraction, split_unit, unit_of, same_bytes, point_fraction, with_fraction,
  add_fraction, term_value, value_of_unit, behind_integer, parse_term, parse_terms,
  unsigned_duration, parse_duration_from_golang_string,
}
use couchbase_rs.Durations.Print.{
  fmt_frac, fmt_frac_loop, fmt_int, fmt_int_loop, below_second, from_second, with_hours,
  with_minutes, duration_to_golang_string,
}
use native.Mathlib.Nat.{mul-div_cancel_left}
use couchbase_rs.Durations.Termination.{parse_duration_from_golang_string_ends}
use couchbase_rs.Durations.Terms.{Exact}
use couchbase_rs.Durations.Fractions.{ten_positive}
use couchbase_rs.Durations.RoundTrip.{parse_duration_from_golang_string-duration_to_golang_string}
use couchbase_rs.Durations.Buffer.{length-duration_to_golang_string}
use couchbase_rs.Prelude.{
  none, ◌≢◌, arith, ap, length, ◌<◌, ◌≤◌, ℕ, ◌*◌, ◌/◌, ◌^◌, List, [], ◌∷◌, Option, some, ok, ◌≡◌,
  refl,
}

-- `5h6m7.001s` and `1.1µs`.
abbrev hours_text : List ℕ
hours_text = b'5' ∷ b'h' ∷ b'6' ∷ b'm' ∷ b'7' ∷ b'.' ∷ b'0' ∷ b'0' ∷ b'1' ∷ b's' ∷ []

abbrev micros_text : List ℕ
micros_text = b'1' ∷ b'.' ∷ b'1' ∷ 0xc2 ∷ 0xb5 ∷ b's' ∷ []

print_hours : duration_to_golang_string 18367001000000 ≡ hours_text
unfolding fmt_frac fmt_frac_loop fmt_int fmt_int_loop from_second with_hours with_minutes
    duration_to_golang_string
print_hours = refl

print_micros : duration_to_golang_string 1100 ≡ micros_text
unfolding fmt_frac fmt_frac_loop fmt_int fmt_int_loop below_second duration_to_golang_string
print_micros = refl

-- Arithmetic without rounding, in the place of f64.
abbrev exact : ℕ → ℕ → ℕ → Option ℕ
exact f unit power = some (f * unit / 10 ^ power)

parse_hours : parse_duration_from_golang_string exact hours_text ≡ some (ok 18367001000000)
unfolding leading_int leading_fraction split_unit unit_of same_bytes point_fraction with_fraction
    add_fraction term_value value_of_unit behind_integer parse_term parse_terms unsigned_duration
    parse_duration_from_golang_string
parse_hours = refl

parse_micros : parse_duration_from_golang_string exact micros_text ≡ some (ok 1100)
unfolding leading_int leading_fraction split_unit unit_of same_bytes point_fraction with_fraction
    add_fraction term_value value_of_unit behind_integer parse_term parse_terms unsigned_duration
    parse_duration_from_golang_string
parse_micros = refl

-- Two minutes, and a fraction of a second.
abbrev duration : ℕ
duration = 120250000000

divides : (f p q : ℕ) → 0 < p → f * (p * q) / p ≡ f * q
divides f p q h =
    let e : f * (p * q) ≡ p * (f * q) = omega arith in rw e (mul-div_cancel_left (f * q) h)

exact-Exact : Exact exact
exact-Exact f power q p r s = ap (λ (n : ℕ). some n) (divides f (10 ^ power) q (ten_positive power))

parse_duration_from_golang_string-duration_to_golang_string_example :
    parse_duration_from_golang_string exact (duration_to_golang_string duration)
    ≡ some (ok duration)
parse_duration_from_golang_string-duration_to_golang_string_example =
    parse_duration_from_golang_string-duration_to_golang_string exact duration exact-Exact
      (omega arith)

length-duration_to_golang_string_example : length (duration_to_golang_string duration) ≤ 24
length-duration_to_golang_string_example = length-duration_to_golang_string duration

parse_duration_from_golang_string_ends_example :
    parse_duration_from_golang_string exact (b'1' ∷ b'.' ∷ b'h' ∷ []) ≢ none
parse_duration_from_golang_string_ends_example =
    parse_duration_from_golang_string_ends exact (b'1' ∷ b'.' ∷ b'h' ∷ [])
