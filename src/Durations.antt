-- ===== src/Durations.antt =====
-- sdk/couchbase-core/src/helpers/durations.rs: durations as texts in the format of Go. A text is
-- its UTF-8 bytes, where all that the code looks for is ASCII but the two ways to write a micro
-- sign. An addition or a product beyond u64 panics, as a build with overflow checks does.
pub mod Print
pub mod Digits
pub mod Terms
pub mod Fractions
pub mod RoundTrip
pub mod Buffer
pub mod Termination
mod Examples
use couchbase_rs.Prelude.{
  ℕ, zero, suc, ◌+◌, ◌-◌, ◌*◌, ◌/◌, ◌^◌, Bool, true, false, not, ◌&&◌, ◌||◌, List, [], ◌∷◌, Option,
  none, some, Result, ok, err, panic, ◌>>=◌, length, ltb, leb, ◌==◌, if◌then◌else◌,
}
use Prim.Native.String.{String}

abbrev pub u64_max : ℕ
u64_max = 18446744073709551615

abbrev pub is_digit : ℕ → Bool
is_digit c = leb 48 c && leb c 57

-- The failing texts stand without the input that is quoted in them.
abbrev pub Parsed : Type 0 → Type 0
Parsed A = Result String A

-- A product or a sum of u64.
abbrev pub checked : ℕ → Parsed ℕ
checked n = if leb n u64_max then ok n else panic

unfoldable pub leading_int : ℕ → List ℕ → Parsed (ℕ × List ℕ)
leading_int x [] = ok (x, [])
leading_int x (c ∷ s) =
    let rest = leading_int (x * 10 + (c - 48)) s in
    if not (is_digit c)
    then ok (x, c ∷ s)
    else if ltb (u64_max / 10) x
    then err "bad [0-9]*"
    else if leb (x * 10 + (c - 48)) u64_max
    then rest
    else panic

-- With the power of ten that the scale is.
unfoldable pub leading_fraction : ℕ → ℕ → Bool → List ℕ → Parsed (ℕ × ℕ × List ℕ)
leading_fraction x power overflow [] = ok (x, power, [])
leading_fraction x power overflow (c ∷ s) =
    let is_over = overflow || ltb ((u64_max - 1) / 10) x in
    let y = x * 10 + (c - 48) in
    let rest =
      leading_fraction (if is_over then x else y) (if is_over then power else suc power) is_over
        s in
    if not (is_digit c)
    then ok (x, power, c ∷ s)
    else if is_over
    then rest
    else if leb y u64_max
    then rest
    else panic

-- The unit up to a point or a digit, and what follows it.
unfoldable pub split_unit : List ℕ → List ℕ × List ℕ
split_unit [] = ([], [])
split_unit (c ∷ s) =
    let rest = split_unit s in
    if (c == b'.') || is_digit c then ([], c ∷ s) else (c ∷ rest.0, rest.1)

unfoldable pub same_bytes : List ℕ → List ℕ → Bool
same_bytes [] [] = true
same_bytes (c ∷ s) (d ∷ t) = (c == d) && same_bytes s t
same_bytes [] (d ∷ t) = false
same_bytes (c ∷ s) [] = false

-- `UNIT_MAP`
unfoldable pub unit_of : List ℕ → Option ℕ
unfolding same_bytes
unit_of u =
    if same_bytes u (b'n' ∷ b's' ∷ [])
    then some 1
    else if same_bytes u (b'u' ∷ b's' ∷ [])
    then some 1000
    else if same_bytes u (0xc2 ∷ 0xb5 ∷ b's' ∷ [])
    then some 1000
    else if same_bytes u (0xce ∷ 0xbc ∷ b's' ∷ [])
    then some 1000
    else if same_bytes u (b'm' ∷ b's' ∷ [])
    then some 1000000
    else if same_bytes u (b's' ∷ [])
    then some 1000000000
    else if same_bytes u (b'm' ∷ [])
    then some 60000000000
    else if same_bytes u (b'h' ∷ [])
    then some 3600000000000
    else none

abbrev pub is_empty : List ℕ → Bool
is_empty [] = true
is_empty _ = false

abbrev pub starts_with_digit : List ℕ → Bool
starts_with_digit [] = false
starts_with_digit (c ∷ _) = is_digit c

-- `(\.[0-9]*)?`: the fraction, its power of ten and the rest, with whether a digit was there.
unfoldable pub point_fraction : List ℕ → Parsed ((ℕ × ℕ × List ℕ) × Bool)
unfolding leading_fraction
point_fraction [] = ok ((0, 0, []), false)
point_fraction (c ∷ s) =
    if c == b'.'
    then (leading_fraction 0 0 false s >>= (λ r. ok (r, starts_with_digit s)))
    else ok ((0, 0, c ∷ s), false)

abbrev pub starts_term : List ℕ → Bool
starts_term [] = false
starts_term (c ∷ _) = is_digit c || (c == b'.')

-- The arithmetic in f64: `f as f64 * (*unit as f64 / scale)` for a scale that is a power of ten, as
-- a u64, or nothing where it is above u64::MAX.
module _ (scaled : ℕ → ℕ → ℕ → Option ℕ) where
  unfoldable pub add_fraction : ℕ → Option ℕ → Parsed ℕ
  add_fraction v none = err "invalid duration"
  add_fraction v (some vf) = checked (v + vf)

  unfoldable pub with_fraction : ℕ → ℕ → ℕ → ℕ → Parsed ℕ
  unfolding add_fraction
  with_fraction v f power unit = if ltb 0 f then add_fraction v (scaled f unit power) else ok v

  -- The value of a number and a fraction in a unit.
  unfoldable pub term_value : ℕ → ℕ → ℕ → Option ℕ → Parsed ℕ
  unfolding with_fraction add_fraction
  term_value v f power none = err "unknown unit"
  term_value v f power (some unit) =
      if ltb (u64_max / unit) v
      then err "invalid duration"
      else with_fraction (v * unit) f power unit

  unfoldable pub value_of_unit : ℕ → ℕ → ℕ → List ℕ × List ℕ → Parsed (ℕ × List ℕ)
  unfolding unit_of term_value
  value_of_unit v f power (u, s) =
      if is_empty u
      then err "missing unit in duration"
      else (term_value v f power (unit_of u) >>= (λ value. ok (value, s)))

  -- A turn of the loop, behind the integer.
  unfoldable pub behind_integer : Bool → ℕ × List ℕ → Parsed (ℕ × List ℕ)
  unfolding point_fraction split_unit value_of_unit
  behind_integer pre (v, s) = point_fraction s >>= (λ r.
      if pre || r.1 then value_of_unit v r.0.0 r.0.1 (split_unit r.0.2) else err "invalid duration")

  unfoldable pub parse_term : List ℕ → Parsed (ℕ × List ℕ)
  unfolding leading_int behind_integer
  parse_term s =
      if starts_term s
      then (leading_int 0 s >>= behind_integer (starts_with_digit s))
      else err "invalid duration"

  abbrev pub checked_add : ℕ → ℕ → Parsed ℕ
  checked_add d v = if leb (d + v) u64_max then ok (d + v) else err "invalid duration"

  abbrev pub after_sum : Parsed ℕ → List ℕ → (ℕ → List ℕ → Option (Parsed ℕ)) → Option (Parsed ℕ)
  after_sum (ok d) s rest = rest d s
  after_sum (err e) s rest = some (err e)
  after_sum panic s rest = some panic

  abbrev pub after_term :
      ℕ → Parsed (ℕ × List ℕ) → (ℕ → List ℕ → Option (Parsed ℕ)) → Option (Parsed ℕ)
  after_term d (ok (v, s)) rest = after_sum (checked_add d v) s rest
  after_term d (err e) rest = some (err e)
  after_term d panic rest = some panic

  -- The loop, with fuel for its turns: each takes a unit off the text, so that the length of the
  -- text is enough. Without fuel it comes to nothing.
  unfoldable pub parse_terms : ℕ → ℕ → List ℕ → Option (Parsed ℕ)
  unfolding parse_term
  parse_terms fuel d [] = some (ok d)
  parse_terms zero d (c ∷ s) = none
  parse_terms (suc fuel) d (c ∷ s) = after_term d (parse_term (c ∷ s)) (parse_terms fuel)

  -- `[-+]?`, and the special cases behind it.
  unfoldable pub unsigned_duration : List ℕ → Option (Parsed ℕ)
  unfolding same_bytes parse_terms
  unsigned_duration s =
      if same_bytes s (b'0' ∷ [])
      then some (ok 0)
      else if is_empty s
      then some (err "invalid duration")
      else parse_terms (length s) 0 s

  -- The duration in nanoseconds.
  unfoldable pub parse_duration_from_golang_string : List ℕ → Option (Parsed ℕ)
  unfolding unsigned_duration
  parse_duration_from_golang_string [] = unsigned_duration []
  parse_duration_from_golang_string (c ∷ s) =
      if c == b'-'
      then some (err "invalid negative duration")
      else if c == b'+'
      then unsigned_duration s
      else unsigned_duration (c ∷ s)
