-- ===== src/Durations/Print.antt =====
-- sdk/couchbase-core/src/helpers/durations.rs: `duration_to_golang_string`. The bytes are put in
-- front of those that are there, as the code fills its buffer from the end. The index into the
-- buffer is left out; Buffer is about its 32 bytes.
use couchbase_rs.Prelude.{
  ℕ, zero, suc, ◌+◌, ◌/◌, ◌%◌, ◌^◌, Bool, false, not, ◌||◌, List, [], ◌∷◌, ltb, ◌==◌, if◌then◌else◌,
}

-- The loop of `fmt_frac`: the bytes, the rest of the number, and whether a digit was printed.
unfoldable pub fmt_frac_loop : ℕ → List ℕ → ℕ → Bool → List ℕ × ℕ × Bool
fmt_frac_loop zero buf v print = (buf, v, print)
fmt_frac_loop (suc prec) buf v print =
    let printed = print || not (v % 10 == 0) in
    fmt_frac_loop prec (if printed then (v % 10 + 48) ∷ buf else buf) (v / 10) printed

abbrev pub with_point : List ℕ × ℕ × Bool → List ℕ × ℕ
with_point (buf, v, print) = ((if print then b'.' ∷ buf else buf), v)

unfoldable pub fmt_frac : List ℕ → ℕ → ℕ → List ℕ × ℕ
fmt_frac buf v prec = with_point (fmt_frac_loop prec buf v false)

-- The loop of `fmt_int`, with fuel for its turns.
unfoldable pub fmt_int_loop : ℕ → List ℕ → ℕ → List ℕ
fmt_int_loop zero buf v = buf
fmt_int_loop (suc fuel) buf v =
    let rest = fmt_int_loop fuel ((v % 10 + 48) ∷ buf) (v / 10) in if v == 0 then buf else rest

-- A u64 has at most 20 digits.
unfoldable pub fmt_int : List ℕ → ℕ → List ℕ
fmt_int buf v = if v == 0 then b'0' ∷ buf else fmt_int_loop 20 buf v

-- The digits in front of a unit.
abbrev pub fmt_decimal : List ℕ → ℕ → ℕ → List ℕ
fmt_decimal buf u prec = (let r = fmt_frac buf u prec in fmt_int r.0 r.1)

unfoldable pub below_second : ℕ → List ℕ
below_second u =
    if u == 0
    then b'0' ∷ b's' ∷ []
    else if ltb u 1000
    then fmt_decimal (b'n' ∷ b's' ∷ []) u 0
    else if ltb u 1000000
    then fmt_decimal (0xc2 ∷ 0xb5 ∷ b's' ∷ []) u 3
    else fmt_decimal (b'm' ∷ b's' ∷ []) u 6

-- Hours in front of the minutes, and minutes in front of the seconds, where there are any.
unfoldable pub with_hours : List ℕ → ℕ → List ℕ
with_hours buf u = if ltb 0 u then fmt_int (b'h' ∷ buf) u else buf

unfoldable pub with_minutes : List ℕ → ℕ → List ℕ
with_minutes buf u = if ltb 0 u then with_hours (fmt_int (b'm' ∷ buf) (u % 60)) (u / 60) else buf

unfoldable pub from_second : ℕ → List ℕ
from_second u = let r = fmt_frac (b's' ∷ []) u 9 in with_minutes (fmt_int r.0 (r.1 % 60)) (r.1 / 60)

-- `duration.as_nanos() as u64` keeps the low 64 bits.
unfoldable pub duration_to_golang_string : ℕ → List ℕ
duration_to_golang_string nanos =
    let u = nanos % 2 ^ 64 in if ltb u 1000000000 then below_second u else from_second u
