-- ===== src/Durations/Terms.antt =====
-- One number and its unit, as sdk/couchbase-core/src/helpers/durations.rs prints and parses it.
use couchbase_rs.Durations.{
  leading_int, leading_fraction, is_digit, starts_with_digit, starts_term, is_empty, split_unit,
  unit_of, point_fraction, add_fraction, with_fraction, term_value, value_of_unit, behind_integer,
  parse_term, u64_max,
}
use couchbase_rs.Durations.Print.{fmt_int, fmt_frac, fmt_frac_loop, with_point}
use couchbase_rs.Durations.Digits.{starts_with_digit-fmt_int, leading_int-fmt_int}
use couchbase_rs.Durations.Fractions.{
  Printed, Trimmed, fmt_frac_loop-Trimmed, ten_suc, ten_positive, ten_le, below_ten,
}
use couchbase_rs.Prelude.{
  ℕ, zero, suc, ◌+◌, ◌-◌, ◌*◌, ◌/◌, ◌%◌, ◌^◌, ◌<◌, ◌≤◌, Bool, true, false, ◌||◌, List, [], ◌∷◌,
  Option, some, ok, ◌>>=◌, ◌≡◌, refl, sym, ap, ◌∙◌, ltb, leb, ◌==◌, arith, inl, inr, le→ltb, le→leb,
  lt→ltb,
}

-- What is relied on of f64: where the scale divides the unit and no number is beyond 2 ^ 53, the
-- quotient and the product are exact.
abbrev pub Exact : (ℕ → ℕ → ℕ → Option ℕ) → Type 0
Exact scaled =
    (f power q : ℕ)
    → power ≤ 22
    → 10 ^ power * q < 2 ^ 53
    → f * q < 2 ^ 53
    → scaled f (10 ^ power * q) power ≡ some (f * q)

-- A unit at the end of the text, and its power of ten.
pub record UnitBytes (buf : List ℕ) (prec : ℕ) : Type 0 where
  pub no_digit : starts_with_digit buf ≡ false
  pub no_point : point_fraction buf ≡ ok ((0, 0, buf), false)
  pub splits : split_unit buf ≡ (buf, [])
  pub unit : unit_of buf ≡ some (10 ^ prec)
  pub small : prec ≤ 9
  pub written : is_empty buf ≡ false

starts_with_digit-starts_term : (s : List ℕ) → starts_with_digit s ≡ true → starts_term s ≡ true
starts_with_digit-starts_term [] p = cc
starts_with_digit-starts_term (c ∷ s) p = rw p refl

leading_int-stops :
    (v : ℕ) (out : List ℕ) → starts_with_digit out ≡ false → leading_int v out ≡ ok (v, out)
unfolding leading_int
leading_int-stops v [] p = refl
leading_int-stops v (c ∷ out) p = rw p refl

leading_fraction-stops :
    (f power : ℕ) (out : List ℕ)
    → starts_with_digit out ≡ false
    → leading_fraction f power false out ≡ ok (f, power, out)
unfolding leading_fraction
leading_fraction-stops f power [] p = refl
leading_fraction-stops f power (c ∷ out) p = rw p refl

neither : (a b : Bool) → (a || b) ≡ false → (a ≡ false) × (b ≡ false)
neither true b e = cc
neither false b e = (refl, e)

or_true : (b : Bool) → (b || true) ≡ true
or_true true = refl
or_true false = refl

split_unit-one :
    (c : ℕ) (out : List ℕ)
    → ((c == b'.') || is_digit c) ≡ false
    → starts_with_digit out ≡ true
    → split_unit (c ∷ out) ≡ (c ∷ [], out)
unfolding split_unit
split_unit-one c [] p q = cc
split_unit-one c (d ∷ out) p q = rw (p, q, or_true (d == b'.')) refl

le_quotient : (v unit n : ℕ) → 0 < unit → v * unit ≤ n → v ≤ n / unit
le_quotient v unit n p q = grind arith

le_product : (v unit n : ℕ) → 0 < unit → v * unit ≤ n → v ≤ n
le_product v unit n p q = grind arith

ten_add : (a b : ℕ) → 10 ^ a * 10 ^ b ≡ 10 ^ (a + b)
ten_add zero b = let e : 0 + b ≡ b = omega arith in rw e (omega arith)
ten_add (suc a) b =
    let e : suc a + b ≡ suc (a + b) = omega arith in
    rw (e, ten_suc a, ten_suc (a + b)) (omega (arith, ten_add a b))

below_billion : (prec : ℕ) → prec ≤ 9 → 10 ^ prec ≤ 1000000000
below_billion prec p =
    let e : prec + (9 - prec) ≡ 9 = omega (arith, p) in
    omega (arith, ten_le prec (9 - prec), ap (λ (k : ℕ). 10 ^ k) e)

-- The fraction that was printed, by the arithmetic in f64.
scaled_value :
    (scaled : ℕ → ℕ → ℕ → Option ℕ) (v prec : ℕ) (buf : List ℕ) (r : List ℕ × ℕ × Bool)
    → Exact scaled
    → UnitBytes buf prec
    → (p : Printed prec v buf r) → scaled p.fraction (10 ^ prec) p.power ≡ some (v % 10 ^ prec)
scaled_value scaled v prec buf r exact u p =
    let width : 10 ^ p.power * 10 ^ p.dropped ≡ 10 ^ prec =
      rw (ten_add p.power p.dropped, p.widths) refl in
    rw (sym width) (
      exact p.fraction p.power (10 ^ p.dropped) (omega (arith, p.widths, u.small))
        (rw width (omega (arith, below_billion prec u.small)))
        (rw p.exact (omega (arith, below_ten prec v, below_billion prec u.small)))
      ∙ (rw (p.exact, width) refl))

module _ (scaled : ℕ → ℕ → ℕ → Option ℕ) where
  -- The number is read, and the rest is left to its unit.
  pub parse_term-fmt_int :
      (v : ℕ) (out : List ℕ)
      → v ≤ u64_max
      → starts_with_digit out ≡ false
      → parse_term scaled (fmt_int out v) ≡ behind_integer scaled true (v, out)
  unfolding parse_term
  parse_term-fmt_int v out p q =
      rw
        (
          starts_with_digit-starts_term (fmt_int out v) (starts_with_digit-fmt_int v out),
          leading_int-fmt_int v out p,
          leading_int-stops v out q,
          starts_with_digit-fmt_int v out,
        )
        refl

  -- A unit that another number follows.
  pub parse_term-whole :
      (v c unit : ℕ) (out : List ℕ)
      → starts_with_digit out ≡ true
      → ((c == b'.') || is_digit c) ≡ false
      → unit_of (c ∷ []) ≡ some unit
      → v * unit ≤ u64_max
      → 0 < unit
      → parse_term scaled (fmt_int (c ∷ out) v) ≡ ok (v * unit, out)
  unfolding behind_integer point_fraction value_of_unit term_value with_fraction
  parse_term-whole v c unit out head plain known fits positive =
      let (no_point, no_digit) = neither (c == b'.') (is_digit c) plain in
      let small : ltb (u64_max / unit) v ≡ false =
        le→ltb (u64_max / unit) v (le_quotient v unit u64_max positive fits) in
      let split : split_unit (c ∷ out) ≡ (c ∷ [], out) = split_unit-one c out plain head in
      parse_term-fmt_int v (c ∷ out) (le_product v unit u64_max positive fits) no_digit
      ∙ (rw (no_point, split, known, small) refl)

  -- The unit of the last number, with a fraction or with none.
  unit_value :
      (v f power prec : ℕ) (buf : List ℕ)
      → UnitBytes buf prec
      → v * 10 ^ prec ≤ u64_max
      → value_of_unit scaled v f power (split_unit buf)
        ≡ (with_fraction scaled (v * 10 ^ prec) f power (10 ^ prec) >>= (λ value. ok (value, [])))
  unfolding value_of_unit term_value
  unit_value v f power prec buf u fits =
      let small : ltb (u64_max / 10 ^ prec) v ≡ false =
        le→ltb (u64_max / 10 ^ prec) v
          (le_quotient v (10 ^ prec) u64_max (ten_positive prec) fits) in
      rw (u.splits, u.written, u.unit, small) refl

  decimal_whole :
      (v w prec : ℕ) (buf : List ℕ)
      → UnitBytes buf prec
      → v % 10 ^ prec ≡ 0
      → w * 10 ^ prec ≤ u64_max
      → parse_term scaled (fmt_int buf w) ≡ ok (w * 10 ^ prec + v % 10 ^ prec, [])
  unfolding behind_integer with_fraction
  decimal_whole v w prec buf u none_left fits =
      let e : w * 10 ^ prec ≡ w * 10 ^ prec + v % 10 ^ prec = omega (arith, none_left) in
      parse_term-fmt_int w buf (le_product w (10 ^ prec) u64_max (ten_positive prec) fits)
        u.no_digit
      ∙ rw (u.no_point) (unit_value w 0 0 prec buf u fits ∙ ap (λ (n : ℕ). ok (n, [])) e)

  decimal_fraction :
      (v w prec : ℕ) (buf : List ℕ) (r : List ℕ × ℕ × Bool)
      → Exact scaled
      → UnitBytes buf prec
      → w * 10 ^ prec + v % 10 ^ prec ≤ u64_max
      → Printed prec v buf r
      → parse_term scaled (fmt_int (b'.' ∷ r.0) w) ≡ ok (w * 10 ^ prec + v % 10 ^ prec, [])
  unfolding behind_integer with_fraction point_fraction add_fraction
  decimal_fraction v w prec buf r exact u fits p =
      let whole : w * 10 ^ prec ≤ u64_max = omega (arith, fits) in
      let positive : ltb 0 p.fraction ≡ true = lt→ltb 0 p.fraction p.positive in
      let sum_fits : leb (w * 10 ^ prec + v % 10 ^ prec) u64_max ≡ true =
        le→leb (w * 10 ^ prec + v % 10 ^ prec) u64_max fits in
      parse_term-fmt_int w (b'.' ∷ r.0) (le_product w (10 ^ prec) u64_max (ten_positive prec) whole)
        refl
      ∙ rw (p.read, leading_fraction-stops p.fraction p.power buf u.no_digit)
          (unit_value w p.fraction p.power prec buf u whole
            ∙ (rw (positive, scaled_value scaled v prec buf r exact u p, sum_fits) refl))

  decimal_by :
      (v w prec : ℕ) (buf : List ℕ) (r : List ℕ × ℕ × Bool)
      → Exact scaled
      → UnitBytes buf prec
      → w * 10 ^ prec + v % 10 ^ prec ≤ u64_max
      → Trimmed prec v buf r
      → parse_term scaled (fmt_int (with_point r).0 w) ≡ ok (w * 10 ^ prec + v % 10 ^ prec, [])
  decimal_by v w prec buf r exact u fits (_, inl (none_left, same, silent)) =
      rw (silent, same) (decimal_whole v w prec buf u none_left (omega (arith, fits)))
  decimal_by v w prec buf r exact u fits (_, inr p) =
      rw (p.printed) (decimal_fraction v w prec buf r exact u fits p)

  -- A fraction, where there is one, and the unit at the end of the text.
  pub parse_term-decimal :
      (v w prec : ℕ) (buf : List ℕ)
      → Exact scaled
      → UnitBytes buf prec
      → w * 10 ^ prec + v % 10 ^ prec ≤ u64_max
      → parse_term scaled (fmt_int (fmt_frac buf v prec).0 w)
        ≡ ok (w * 10 ^ prec + v % 10 ^ prec, [])
  unfolding fmt_frac
  parse_term-decimal v w prec buf exact u fits =
      decimal_by v w prec buf (fmt_frac_loop prec buf v false) exact u fits
        (fmt_frac_loop-Trimmed prec v buf (omega (arith, u.small)))
