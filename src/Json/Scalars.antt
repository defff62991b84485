-- ===== src/Json/Scalars.antt =====
-- The scanner of sdk/couchbase-core/src/httpx/scanner.rs on the strings and numbers of the grammar.
use couchbase_rs.Json.{
  state_begin_value, state_begin_value_or_empty, ScanState, ParseState, Step, is_ascii_digit,
  is_ascii_hexdigit, is_short_escape, state_end_value, state_in_string, state_in_string_esc,
  state_hex, state_neg, state0, state1, state_dot, state_dot0, state_e, state_e_sign, state_e0,
}
use couchbase_rs.Json.Run.{step, step_by}
use couchbase_rs.Json.Feed.{at, feed, feed-append}
use couchbase_rs.Json.Grammar.{
  is_plain, Char, char_bytes, chars, Digit, digit_byte, digits, Whole, Fraction, fraction, Exponent,
  exponent, Mark, mark, Sign, sign, Number, number, unsigned_number, plain, escape, unicode, digit,
  naught, leading, integral, point, unscaled, scaled, lower, upper, unsigned, plus, minus, positive,
  negative,
}
use couchbase_rs.Prelude.{
  ℕ, ◌+◌, ◌<◌, true, List, [], ◌∷◌, ◌++◌, some, ◌≡◌, refl, arith, append_assoc,
}

-- One byte of a string.
plain_step :
    (c : ℕ) (stack : List ParseState)
    → is_plain c ≡ true
    → state_in_string (at Step.in_string stack) c ≡ (at Step.in_string stack, ScanState.continue)
unfolding state_in_string
plain_step c stack p = ground arith

hex_step :
    (c : ℕ) (q next : Step) (stack : List ParseState)
    → is_ascii_hexdigit c ≡ true
    → state_hex (at q stack) c next ≡ (at next stack, ScanState.continue)
unfolding state_hex
hex_step c q next stack p = rw p refl

short_escape_step :
    (c : ℕ) (stack : List ParseState)
    → is_short_escape c ≡ true
    → state_in_string_esc (at Step.in_string_esc stack) c
      ≡ (at Step.in_string stack, ScanState.continue)
unfolding state_in_string_esc
short_escape_step c stack p = rw p refl

feed-char_bytes :
    (c : Char) (stack : List ParseState)
    → feed (char_bytes c) (at Step.in_string stack) ≡ some (at Step.in_string stack)
unfolding feed step step_by state_in_string state_in_string_esc
feed-char_bytes (plain c p) stack = rw (plain_step c stack p) refl
feed-char_bytes (escape c p) stack = rw (short_escape_step c stack p) refl
feed-char_bytes (unicode a b c d p q r s) stack =
    rw
      (
        hex_step a Step.in_string_esc_u Step.in_string_esc_u1 stack p,
        hex_step b Step.in_string_esc_u1 Step.in_string_esc_u12 stack q,
        hex_step c Step.in_string_esc_u12 Step.in_string_esc_u123 stack r,
        hex_step d Step.in_string_esc_u123 Step.in_string stack s,
      )
      refl

-- The rest of a string behind its quotation mark.
pub feed-chars :
    (cs : List Char) (stack : List ParseState)
    → feed (chars cs ++ (b'"' ∷ [])) (at Step.in_string stack) ≡ some (at Step.end_value stack)
unfolding feed step step_by state_in_string chars
feed-chars [] stack = refl
feed-chars (c ∷ cs) stack = rw (append_assoc (char_bytes c) (chars cs) (b'"' ∷ [])) (
    feed-append (char_bytes c) (chars cs ++ (b'"' ∷ [])) _ (feed-char_bytes c stack)
      (feed-chars cs stack))

digit_is : (d : Digit) → is_ascii_digit (digit_byte d) ≡ true
digit_is (digit n p) = ground arith

-- The digits that a state stays at.
feed-digits :
    (q : Step) (stack : List ParseState) (ds : List Digit)
    → ((d : Digit) → step (at q stack) (digit_byte d) ≡ some (at q stack, ScanState.continue))
    → feed (digits ds) (at q stack) ≡ some (at q stack)
unfolding feed
feed-digits q stack [] h = refl
feed-digits q stack (d ∷ ds) h = rw (h d) (feed-digits q stack ds h)

-- Where a value may begin.
pub data Entry : Type 0 where
  required optional : Entry

abbrev pub entry : Entry → Step
entry required = Step.begin_value
entry optional = Step.begin_value_or_empty

abbrev after_whole : Whole → Step
after_whole naught = Step.zero
after_whole (leading _ _ _) = Step.one

abbrev after_fraction : Step → Fraction → Step
after_fraction q integral = q
after_fraction _ (point _ _) = Step.dot0

abbrev after_exponent : Step → Exponent → Step
after_exponent q unscaled = q
after_exponent _ (scaled _ _ _ _) = Step.e0

abbrev pub after_number : Number → Step
after_number (positive w f x) = after_exponent (after_fraction (after_whole w) f) x
after_number (negative w f x) = after_exponent (after_fraction (after_whole w) f) x

one_step :
    (stack : List ParseState) (d : Digit)
    → step (at Step.one stack) (digit_byte d) ≡ some (at Step.one stack, ScanState.continue)
unfolding step step_by state1
one_step stack d = rw (digit_is d) refl

dot0_step :
    (stack : List ParseState) (d : Digit)
    → step (at Step.dot0 stack) (digit_byte d) ≡ some (at Step.dot0 stack, ScanState.continue)
unfolding step step_by state_dot0
dot0_step stack d = rw (digit_is d) refl

e0_step :
    (stack : List ParseState) (d : Digit)
    → step (at Step.e0 stack) (digit_byte d) ≡ some (at Step.e0 stack, ScanState.continue)
unfolding step step_by state_e0
e0_step stack d = rw (digit_is d) refl

begin_digit :
    (e : Entry) (n : ℕ) (stack : List ParseState)
    → n < 9
    → step (at (entry e) stack) (49 + n) ≡ some (at Step.one stack, ScanState.begin_literal)
unfolding step step_by state_begin_value state_begin_value_or_empty state_end_value
begin_digit required n stack p = ground arith
begin_digit optional n stack p = ground arith

neg_digit :
    (n : ℕ) (stack : List ParseState)
    → n < 9
    → step (at Step.neg stack) (49 + n) ≡ some (at Step.one stack, ScanState.continue)
unfolding step step_by state_neg
neg_digit n stack p = ground arith

feed-fraction :
    (w : Whole) (f : Fraction) (stack : List ParseState)
    → feed (fraction f) (at (after_whole w) stack)
      ≡ some (at (after_fraction (after_whole w) f) stack)
unfolding feed step step_by state0 state1 state_dot
feed-fraction w integral stack = refl
feed-fraction naught (point d ds) stack =
    rw (digit_is d) (feed-digits Step.dot0 stack ds (dot0_step stack))
feed-fraction (leading _ _ _) (point d ds) stack =
    rw (digit_is d) (feed-digits Step.dot0 stack ds (dot0_step stack))

-- The states that an exponent may follow.
abbrev MarkTaken : Step → List ParseState → Type 0
MarkTaken q stack =
    (m : Mark) → step (at q stack) (mark m) ≡ some (at Step.e stack, ScanState.continue)

mark_taken :
    (w : Whole) (f : Fraction) (stack : List ParseState)
    → MarkTaken (after_fraction (after_whole w) f) stack
unfolding step step_by state0 state1 state_dot0
mark_taken naught integral stack lower = refl
mark_taken naught integral stack upper = refl
mark_taken (leading _ _ _) integral stack lower = refl
mark_taken (leading _ _ _) integral stack upper = refl
mark_taken w (point _ _) stack lower = refl
mark_taken w (point _ _) stack upper = refl

sign_step :
    (stack : List ParseState) (d : Digit)
    → step (at Step.e_sign stack) (digit_byte d) ≡ some (at Step.e0 stack, ScanState.continue)
unfolding step step_by state_e_sign
sign_step stack d = rw (digit_is d) refl

unsigned_step :
    (stack : List ParseState) (d : Digit)
    → step (at Step.e stack) (digit_byte d) ≡ some (at Step.e0 stack, ScanState.continue)
unfolding step step_by state_e state_e_sign
unsigned_step stack (digit n p) = ground arith

plus_step :
    (stack : List ParseState)
    → step (at Step.e stack) b'+' ≡ some (at Step.e_sign stack, ScanState.continue)
unfolding step step_by state_e
plus_step stack = refl

minus_step :
    (stack : List ParseState)
    → step (at Step.e stack) b'-' ≡ some (at Step.e_sign stack, ScanState.continue)
unfolding step step_by state_e
minus_step stack = refl

feed-scale :
    (s : Sign) (d : Digit) (ds : List Digit) (stack : List ParseState)
    → feed (sign s ++ (digit_byte d ∷ digits ds)) (at Step.e stack) ≡ some (at Step.e0 stack)
unfolding feed
feed-scale unsigned d ds stack =
    rw (unsigned_step stack d) (feed-digits Step.e0 stack ds (e0_step stack))
feed-scale plus d ds stack =
    rw (plus_step stack, sign_step stack d) (feed-digits Step.e0 stack ds (e0_step stack))
feed-scale minus d ds stack =
    rw (minus_step stack, sign_step stack d) (feed-digits Step.e0 stack ds (e0_step stack))

feed-exponent :
    (q : Step) (x : Exponent) (stack : List ParseState)
    → MarkTaken q stack
    → feed (exponent x) (at q stack) ≡ some (at (after_exponent q x) stack)
unfolding feed
feed-exponent q unscaled stack taken = refl
feed-exponent q (scaled m s d ds) stack taken = rw (taken m) (feed-scale s d ds stack)

-- What a number has behind its first byte.
feed-tail :
    (w : Whole) (f : Fraction) (x : Exponent) (stack : List ParseState)
    → feed (fraction f ++ exponent x) (at (after_whole w) stack)
      ≡ some (at (after_number (positive w f x)) stack)
feed-tail w f x stack =
    feed-append (fraction f) (exponent x) (at (after_whole w) stack) (feed-fraction w f stack)
      (feed-exponent (after_fraction (after_whole w) f) x stack (mark_taken w f stack))

feed-leading :
    (n : ℕ) (p : n < 9) (ds : List Digit) (f : Fraction) (x : Exponent) (stack : List ParseState)
    → feed (digits ds ++ (fraction f ++ exponent x)) (at Step.one stack)
      ≡ some (at (after_number (positive (leading n p ds) f x)) stack)
feed-leading n p ds f x stack =
    feed-append (digits ds) (fraction f ++ exponent x) (at Step.one stack)
      (feed-digits Step.one stack ds (one_step stack)) (feed-tail (leading n p ds) f x stack)

neg_naught :
    (stack : List ParseState)
    → step (at Step.neg stack) b'0' ≡ some (at Step.zero stack, ScanState.continue)
unfolding step step_by state_neg
neg_naught stack = refl

feed-negative :
    (w : Whole) (f : Fraction) (x : Exponent) (stack : List ParseState)
    → feed (unsigned_number w f x) (at Step.neg stack)
      ≡ some (at (after_number (negative w f x)) stack)
unfolding feed
feed-negative naught f x stack = rw (neg_naught stack) (feed-tail naught f x stack)
feed-negative (leading n p ds) f x stack = rw (neg_digit n stack p) (feed-leading n p ds f x stack)

pub feed-number :
    (e : Entry) (n : Number) (stack : List ParseState)
    → feed (number n) (at (entry e) stack) ≡ some (at (after_number n) stack)
unfolding feed step step_by state_begin_value state_begin_value_or_empty
feed-number required (positive naught f x) stack = feed-tail naught f x stack
feed-number optional (positive naught f x) stack = feed-tail naught f x stack
feed-number e (positive (leading n p ds) f x) stack =
    rw (begin_digit e n stack p) (feed-leading n p ds f x stack)
feed-number required (negative w f x) stack = feed-negative w f x stack
feed-number optional (negative w f x) stack = feed-negative w f x stack
