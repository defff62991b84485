-- ===== src/Durations/RoundTrip.antt =====
-- The texts that sdk/couchbase-core/src/helpers/durations.rs prints, read by its parser.
use couchbase_rs.Durations.{
  starts_with_digit, leading_int, split_unit, unit_of, same_bytes, point_fraction, with_fraction,
  term_value, value_of_unit, behind_integer, parse_term, parse_terms, unsigned_duration,
  parse_duration_from_golang_string, u64_max,
}
use couchbase_rs.Durations.Print.{
  fmt_int, fmt_int_loop, fmt_frac, fmt_frac_loop, with_point, below_second, with_hours,
  with_minutes, from_second, duration_to_golang_string,
}
use couchbase_rs.Durations.Digits.{starts_with_digit-fmt_int}
use couchbase_rs.Durations.Fractions.{fmt_frac_loop-Trimmed}
use couchbase_rs.Durations.Terms.{Exact, UnitBytes, parse_term-whole, parse_term-decimal}
use native.Mathlib.Nat.{le_trans}
use couchbase_rs.Prelude.{
  ℕ, zero, suc, ◌+◌, ◌*◌, ◌/◌, ◌%◌, ◌^◌, ◌<◌, ◌≤◌, Bool, true, false, not, ◌&&◌, ◌||◌, List, [],
  ◌∷◌, Option, some, ok, ◌≡◌, refl, ap, ◌∙◌, ltb, leb, ◌==◌, if◌then◌else◌, arith, length,
  Bool-cases, inl, inr, le→leb, ltb→lt, ==_iff,
}

nanoseconds : UnitBytes (b'n' ∷ b's' ∷ []) 0
unfolding point_fraction split_unit unit_of same_bytes
nanoseconds = record {
  no_digit = refl;
  no_point = refl;
  splits = refl;
  unit = refl;
  small = omega arith;
  written = refl;
}

microseconds : UnitBytes (0xc2 ∷ 0xb5 ∷ b's' ∷ []) 3
unfolding point_fraction split_unit unit_of same_bytes
microseconds = record {
  no_digit = refl;
  no_point = refl;
  splits = refl;
  unit = refl;
  small = omega arith;
  written = refl;
}

milliseconds : UnitBytes (b'm' ∷ b's' ∷ []) 6
unfolding point_fraction split_unit unit_of same_bytes
milliseconds = record {
  no_digit = refl;
  no_point = refl;
  splits = refl;
  unit = refl;
  small = omega arith;
  written = refl;
}

seconds : UnitBytes (b's' ∷ []) 9
unfolding point_fraction split_unit unit_of same_bytes
seconds = record {
  no_digit = refl;
  no_point = refl;
  splits = refl;
  unit = refl;
  small = omega arith;
  written = refl;
}

-- The rest of a number in front of its fraction.
pub fmt_frac-rest :
    (buf : List ℕ) (v prec : ℕ) → prec < 18 → (fmt_frac buf v prec).1 ≡ v / 10 ^ prec
unfolding fmt_frac
fmt_frac-rest buf v prec p = (fmt_frac_loop-Trimmed prec v buf p).0

longer_loop : (fuel v : ℕ) (out : List ℕ) → length out ≤ length (fmt_int_loop fuel out v)
unfolding fmt_int_loop
longer_loop zero v out = omega arith
longer_loop (suc fuel) v out = elim (Bool-cases (v == 0)) [
  | inl e ↦ rw e (omega arith)
  | inr e ↦ rw e (omega (arith, longer_loop fuel (v / 10) ((v % 10 + 48) ∷ out)))
]

longer_positive :
    (fuel v : ℕ) (out : List ℕ)
    → (v == 0) ≡ false
    → length out < length (fmt_int_loop (suc fuel) out v)
unfolding fmt_int_loop
longer_positive fuel v out e = rw e (omega (arith, longer_loop fuel (v / 10) ((v % 10 + 48) ∷ out)))

longer : (v : ℕ) (out : List ℕ) → length out < length (fmt_int out v)
unfolding fmt_int
longer v out = elim (Bool-cases (v == 0)) [
  | inl e ↦ rw e (omega arith)
  | inr e ↦ rw e (longer_positive 19 v out e)
]

longer_if : (b : Bool) (c : ℕ) (out : List ℕ) → length out ≤ length (if b then c ∷ out else out)
longer_if true c out = omega arith
longer_if false c out = omega arith

longer_frac_loop :
    (n v : ℕ) (out : List ℕ) (print : Bool) → length out ≤ length (fmt_frac_loop n out v print).0
unfolding fmt_frac_loop
longer_frac_loop zero v out print = omega arith
longer_frac_loop (suc n) v out print =
    let printed : Bool = print || not (v % 10 == 0) in
    le_trans (longer_if printed (v % 10 + 48) out)
      (longer_frac_loop n (v / 10) (if printed then (v % 10 + 48) ∷ out else out) printed)

longer_point : (r : List ℕ × ℕ × Bool) → length r.0 ≤ length (with_point r).0
longer_point (buf, v, true) = omega arith
longer_point (buf, v, false) = omega arith

longer_frac : (v prec : ℕ) (out : List ℕ) → length out ≤ length (fmt_frac out v prec).0
unfolding fmt_frac
longer_frac v prec out =
    omega (arith, longer_frac_loop prec v out false, longer_point (fmt_frac_loop prec out v false))

and_false : (b : Bool) → (b && false) ≡ false
and_false true = refl
and_false false = refl

module _ (scaled : ℕ → ℕ → ℕ → Option ℕ) where
  -- A turn of the loop on a number and its unit.
  turn :
      (fuel d value : ℕ) (s rest : List ℕ)
      → starts_with_digit s ≡ true
      → parse_term scaled s ≡ ok (value, rest)
      → d + value ≤ u64_max
      → parse_terms scaled (suc fuel) d s ≡ parse_terms scaled fuel (d + value) rest
  unfolding parse_terms
  turn fuel d value [] rest p e fits = cc
  turn fuel d value (c ∷ s) rest p e fits =
      let fit : leb (d + value) u64_max ≡ true = le→leb (d + value) u64_max fits in rw (e, fit) refl

  ends : (fuel d : ℕ) → parse_terms scaled fuel d [] ≡ some (ok d)
  unfolding parse_terms
  ends zero d = refl
  ends (suc fuel) d = refl

  last_turn :
      (fuel d value : ℕ) (s : List ℕ)
      → 0 < fuel
      → starts_with_digit s ≡ true
      → parse_term scaled s ≡ ok (value, [])
      → d + value ≤ u64_max
      → parse_terms scaled fuel d s ≡ some (ok (d + value))
  unfolding parse_terms
  last_turn zero d value s q p e fits = absurd (omega (arith, q))
  last_turn (suc fuel) d value s q p e fits =
      turn fuel d value s [] p e fits ∙ ends fuel (d + value)

  -- A text that begins with a digit and has more behind it is neither signed nor the text `0`.
  unsigned_text :
      (s : List ℕ)
      → starts_with_digit s ≡ true
      → 1 < length s
      → parse_duration_from_golang_string scaled s ≡ parse_terms scaled (length s) 0 s
  unfolding parse_duration_from_golang_string unsigned_duration same_bytes
  unsigned_text [] p q = cc
  unsigned_text (c ∷ []) p q = absurd (omega (arith, q))
  unsigned_text (c ∷ d ∷ s) p q =
      let no_minus : (c == b'-') ≡ false = ground arith in
      let no_plus : (c == b'+') ≡ false = ground arith in
      rw (no_minus, no_plus, and_false (c == b'0')) refl

  module _ (exact : Exact scaled) where
    -- A whole text of one number.
    one_number :
        (u prec : ℕ) (buf : List ℕ)
        → UnitBytes buf prec
        → u ≤ u64_max
        → u / 10 ^ prec * 10 ^ prec + u % 10 ^ prec ≡ u
        → 0 < length (fmt_frac buf u prec).0
        → parse_duration_from_golang_string scaled
            (fmt_int (fmt_frac buf u prec).0 (fmt_frac buf u prec).1)
          ≡ some (ok u)
    one_number u prec buf unit fits whole written =
        rw (fmt_frac-rest buf u prec (omega (arith, unit.small))) (
          unsigned_text _ (starts_with_digit-fmt_int _ _)
            (omega (arith, longer (u / 10 ^ prec) (fmt_frac buf u prec).0, written))
          ∙ (last_turn _ 0 (u / 10 ^ prec * 10 ^ prec + u % 10 ^ prec) _
                (omega (arith, longer (u / 10 ^ prec) (fmt_frac buf u prec).0))
                (starts_with_digit-fmt_int _ _)
                (parse_term-decimal scaled u (u / 10 ^ prec) prec buf exact unit
                  (omega (arith, whole, fits)))
                (omega (arith, whole, fits))
              ∙ ap (λ (n : ℕ). some (ok n)) (omega (arith, whole))))

    -- The seconds of a text, and the minutes and the hours in front of them.
    seconds_text : ℕ → List ℕ
    seconds_text u = fmt_int (fmt_frac (b's' ∷ []) u 9).0 (u / 10 ^ 9 % 60)

    seconds_value : ℕ → ℕ
    seconds_value u = u / 10 ^ 9 % 60 * 10 ^ 9 + u % 10 ^ 9

    seconds_turn :
        (u fuel d : ℕ)
        → 0 < fuel
        → d + seconds_value u ≤ u64_max
        → parse_terms scaled fuel d (seconds_text u) ≡ some (ok (d + seconds_value u))
    unfolding seconds_text seconds_value
    seconds_turn u fuel d p fits =
        last_turn fuel d (seconds_value u) (seconds_text u) p (starts_with_digit-fmt_int _ _)
          (parse_term-decimal scaled u (u / 10 ^ 9 % 60) 9 (b's' ∷ []) exact seconds
            (omega (arith, fits)))
          fits

    minutes_text : ℕ → ℕ → List ℕ
    minutes_text u m = fmt_int (b'm' ∷ seconds_text u) m

    minutes_turn :
        (u m fuel d : ℕ)
        → 1 < fuel
        → d + m * 60000000000 + seconds_value u ≤ u64_max
        → parse_terms scaled fuel d (minutes_text u m)
          ≡ some (ok (d + m * 60000000000 + seconds_value u))
    unfolding minutes_text seconds_text unit_of same_bytes
    minutes_turn u m zero d p fits = absurd (omega (arith, p))
    minutes_turn u m (suc fuel) d p fits =
        turn fuel d (m * 60000000000) (minutes_text u m) (seconds_text u)
          (starts_with_digit-fmt_int _ _)
          (parse_term-whole scaled m b'm' 60000000000 (seconds_text u)
            (starts_with_digit-fmt_int _ _) refl refl (omega (arith, fits)) (omega arith))
          (omega (arith, fits))
        ∙ seconds_turn u fuel (d + m * 60000000000) (omega (arith, p)) fits

    hours_text : ℕ → ℕ → ℕ → List ℕ
    hours_text u m h = fmt_int (b'h' ∷ minutes_text u m) h

    hours_turn :
        (u m h fuel d : ℕ)
        → 2 < fuel
        → d + h * 3600000000000 + m * 60000000000 + seconds_value u ≤ u64_max
        → parse_terms scaled fuel d (hours_text u m h)
          ≡ some (ok (d + h * 3600000000000 + m * 60000000000 + seconds_value u))
    unfolding hours_text minutes_text unit_of same_bytes
    hours_turn u m h zero d p fits = absurd (omega (arith, p))
    hours_turn u m h (suc fuel) d p fits =
        turn fuel d (h * 3600000000000) (hours_text u m h) (minutes_text u m)
          (starts_with_digit-fmt_int _ _)
          (parse_term-whole scaled h b'h' 3600000000000 (minutes_text u m)
            (starts_with_digit-fmt_int _ _) refl refl (omega (arith, fits)) (omega arith))
          (omega (arith, fits))
        ∙ minutes_turn u m fuel (d + h * 3600000000000) (omega (arith, p)) fits

    -- A text that ends in seconds is long enough for its numbers.
    seconds_length : (u : ℕ) → 1 < length (seconds_text u)
    unfolding seconds_text
    seconds_length u =
        omega (
          arith,
          longer (u / 10 ^ 9 % 60) (fmt_frac (b's' ∷ []) u 9).0,
          longer_frac u 9 (b's' ∷ []),
        )

    minutes_length : (u m : ℕ) → 3 < length (minutes_text u m)
    unfolding minutes_text
    minutes_length u m = omega (arith, longer m (b'm' ∷ seconds_text u), seconds_length u)

    hours_length : (u m h : ℕ) → 5 < length (hours_text u m h)
    unfolding hours_text
    hours_length u m h = omega (arith, longer h (b'h' ∷ minutes_text u m), minutes_length u m)

    parsed_seconds :
        (u : ℕ)
        → u ≤ u64_max
        → seconds_value u ≡ u
        → parse_duration_from_golang_string scaled (seconds_text u) ≡ some (ok u)
    parsed_seconds u fits e =
        unsigned_text (seconds_text u) (unfold seconds_text in starts_with_digit-fmt_int _ _)
          (seconds_length u)
        ∙ (seconds_turn u (length (seconds_text u)) 0 (omega (arith, seconds_length u))
              (omega (arith, e, fits))
            ∙ ap (λ (n : ℕ). some (ok n)) (omega (arith, e)))

    parsed_minutes :
        (u m : ℕ)
        → u ≤ u64_max
        → m * 60000000000 + seconds_value u ≡ u
        → parse_duration_from_golang_string scaled (minutes_text u m) ≡ some (ok u)
    parsed_minutes u m fits e =
        unsigned_text (minutes_text u m) (unfold minutes_text in starts_with_digit-fmt_int _ _)
          (omega (arith, minutes_length u m))
        ∙ (minutes_turn u m (length (minutes_text u m)) 0 (omega (arith, minutes_length u m))
              (omega (arith, e, fits))
            ∙ ap (λ (n : ℕ). some (ok n)) (omega (arith, e)))

    parsed_hours :
        (u m h : ℕ)
        → u ≤ u64_max
        → h * 3600000000000 + m * 60000000000 + seconds_value u ≡ u
        → parse_duration_from_golang_string scaled (hours_text u m h) ≡ some (ok u)
    parsed_hours u m h fits e =
        unsigned_text (hours_text u m h) (unfold hours_text in starts_with_digit-fmt_int _ _)
          (omega (arith, hours_length u m h))
        ∙ (hours_turn u m h (length (hours_text u m h)) 0 (omega (arith, hours_length u m h))
              (omega (arith, e, fits))
            ∙ ap (λ (n : ℕ). some (ok n)) (omega (arith, e)))

    -- From a second on.
    parsed_from_second :
        (u : ℕ)
        → u ≤ u64_max
        → parse_duration_from_golang_string scaled (with_minutes (seconds_text u) (u / 10 ^ 9 / 60))
          ≡ some (ok u)
    unfolding with_minutes with_hours seconds_value
    parsed_from_second u fits = elim (Bool-cases (ltb 0 (u / 10 ^ 9 / 60))) [
      | inl some_minutes ↦ elim (Bool-cases (ltb 0 (u / 10 ^ 9 / 60 / 60))) [
        | inl some_hours ↦
            rw (some_minutes, some_hours)
              (unfold hours_text minutes_text in
                parsed_hours u (u / 10 ^ 9 / 60 % 60) (u / 10 ^ 9 / 60 / 60) fits (omega arith))
        | inr no_hours ↦
            rw (some_minutes, no_hours)
              (unfold minutes_text in parsed_minutes u (u / 10 ^ 9 / 60 % 60) fits (ground arith))
      ]
      | inr no_minutes ↦ rw no_minutes (parsed_seconds u fits (ground arith))
    ]

    parsed_zero : parse_duration_from_golang_string scaled (b'0' ∷ b's' ∷ []) ≡ some (ok 0)
    unfolding parse_duration_from_golang_string unsigned_duration same_bytes parse_terms parse_term
        leading_int behind_integer point_fraction split_unit value_of_unit unit_of term_value
        with_fraction
    parsed_zero = refl

    parsed_below_second :
        (u : ℕ)
        → u < 1000000000
        → parse_duration_from_golang_string scaled (below_second u) ≡ some (ok u)
    unfolding below_second
    parsed_below_second u p = elim (Bool-cases (u == 0)) [
      | inl e ↦ let none_left : u ≡ 0 = (==_iff u 0).0 e in rw (none_left) parsed_zero
      | inr e ↦ elim (Bool-cases (ltb u 1000)) [
        | inl nanos ↦
            rw (e, nanos)
              (one_number u 0 (b'n' ∷ b's' ∷ []) nanoseconds (omega (arith, p)) (omega arith)
                (omega (arith, longer_frac u 0 (b'n' ∷ b's' ∷ []))))
        | inr more ↦ elim (Bool-cases (ltb u 1000000)) [
          | inl micros ↦
              rw (e, more, micros)
                (one_number u 3 (0xc2 ∷ 0xb5 ∷ b's' ∷ []) microseconds (omega (arith, p))
                  (omega arith) (omega (arith, longer_frac u 3 (0xc2 ∷ 0xb5 ∷ b's' ∷ []))))
          | inr most ↦
              rw (e, more, most)
                (one_number u 6 (b'm' ∷ b's' ∷ []) milliseconds (omega (arith, p)) (omega arith)
                  (omega (arith, longer_frac u 6 (b'm' ∷ b's' ∷ []))))
        ]
      ]
    ]

    from_second-text : (u : ℕ) → from_second u ≡ with_minutes (seconds_text u) (u / 10 ^ 9 / 60)
    unfolding from_second seconds_text
    from_second-text u = rw (fmt_frac-rest (b's' ∷ []) u 9 (omega arith)) refl

  -- Every duration below 2 ^ 64 nanoseconds is read back from the text that is printed for it, where
  -- the arithmetic in f64 is exact when no number is beyond 2 ^ 53.
  pub parse_duration_from_golang_string-duration_to_golang_string :
      (nanos : ℕ)
      → Exact scaled
      → nanos < 2 ^ 64
      → parse_duration_from_golang_string scaled (duration_to_golang_string nanos) ≡ some (ok nanos)
  unfolding duration_to_golang_string
  parse_duration_from_golang_string-duration_to_golang_string nanos exact p =
      let same : nanos % 2 ^ 64 ≡ nanos = omega (arith, p) in
      rw same (elim (Bool-cases (ltb nanos 1000000000)) [
        | inl short ↦ rw short (parsed_below_second exact nanos (ltb→lt nanos 1000000000 short))
        | inr long ↦
            rw (long, from_second-text exact nanos)
              (parsed_from_second exact nanos (omega (arith, p)))
      ])
