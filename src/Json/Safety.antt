-- ===== src/Json/Safety.antt =====
-- Panics and errors of the scanner in sdk/couchbase-core/src/httpx/scanner.rs.
use couchbase_rs.Json.{
  Scanner, ScanState, ParseState, is_ascii_whitespace, Step, Stepped, new, popped,
  state_begin_value, state_end_value, end_value_at, state_end_top, state0, state1, state_dot0,
  state_e0, state_begin_value_or_empty, state_begin_string_or_empty, empty_object,
  state_begin_string, state_in_string, state_in_string_esc, state_hex, state_neg, state_dot,
  state_e, state_e_sign, state_word,
}
use couchbase_rs.Json.Run.{step, step_by, is_some, is_error}
use couchbase_rs.Prelude.{
  ℕ, Bool, true, false, ◌&&◌, ◌||◌, not, List, [], ◌∷◌, Option, none, some, ◌≡◌, refl, ◌==◌,
  if◌then◌else◌, arith,
}
use mathlib.Core.Path.{subst}
use Prim.Native.String.{String}

-- What the scanners that are reached have: a key to replace where an object begins, and an error
-- where one stopped them.
is_sound_at : Step → List ParseState → Option (ℕ × String) → Bool
is_sound_at Step.begin_string_or_empty [] _ = false
is_sound_at Step.failed _ err = is_some err
is_sound_at _ _ _ = true

is_sound : Scanner → Bool
is_sound s = is_sound_at s.step s.parse_state s.err

is_sound_step : Option Stepped → Bool
is_sound_step none = false
is_sound_step (some (s, answer)) = is_sound s && (not (is_error answer) || is_some s.err)

-- The scanners that the bytes of some input reach.
pub data Reached : Scanner → Type 0 where
  start : (s : Scanner) → s ≡ new → Reached s
  byte :
      {s t : Scanner} (c : ℕ) (answer : ScanState)
      → Reached s
      → step s c ≡ some (t, answer)
      → Reached t

sound_if :
    (b : Bool) (x y : Stepped)
    → is_sound_step (some x) ≡ true
    → is_sound_step (some y) ≡ true
    → is_sound_step (some (if b then x else y)) ≡ true
sound_if true x y p q = p
sound_if false x y p q = q

scanner_if :
    (b : Bool) (x y : Scanner)
    → is_sound x ≡ true
    → is_sound y ≡ true
    → (is_sound (if b then x else y) && true) ≡ true
scanner_if true x y p q = rw p refl
scanner_if false x y p q = rw q refl

end_value_sound :
    (s : Scanner) (c : ℕ) (stack : List ParseState)
    → is_sound_step (some (end_value_at s c stack)) ≡ true
unfolding end_value_at popped state_end_top is_sound_step is_sound is_sound_at
end_value_sound s c [] = scanner_if (is_ascii_whitespace c) _ _ refl refl
end_value_sound s c (ParseState.object_key ∷ rest) = ground arith
end_value_sound s c (ParseState.object_value ∷ []) = ground arith
end_value_sound s c (ParseState.object_value ∷ p ∷ rest) = ground arith
end_value_sound s c (ParseState.array_value ∷ []) = ground arith
end_value_sound s c (ParseState.array_value ∷ p ∷ rest) = ground arith

top_sound :
    (s : Scanner) (c : ℕ) → is_sound s ≡ true → is_sound_step (some (state_end_top s c)) ≡ true
unfolding state_end_top is_sound_step is_sound is_sound_at
top_sound s c p = scanner_if (is_ascii_whitespace c) s _ p refl

-- A scanner with its fields shown.
abbrev scanner : Step → Bool → List ParseState → Option (ℕ × String) → Scanner
scanner q t stack e = record { step = q; end_top = t; parse_state = stack; err = e }

value_sound :
    (q : Step) (t : Bool) (stack : List ParseState) (e : Option (ℕ × String)) (c : ℕ)
    → is_sound_at q stack e ≡ true
    → is_sound_step (some (state_begin_value (scanner q t stack e) c)) ≡ true
unfolding is_sound_step is_sound is_sound_at state_begin_value
value_sound q t stack e c p = ground arith

step_sound :
    (q : Step) (t : Bool) (stack : List ParseState) (e : Option (ℕ × String)) (c : ℕ)
    → is_sound_at q stack e ≡ true
    → is_sound_step (step (scanner q t stack e) c) ≡ true
unfolding step step_by is_sound_step is_sound is_sound_at state_begin_value
    state_begin_value_or_empty state_begin_string state_in_string state_in_string_esc state_hex
    state_neg state0 state1 state_dot state_dot0 state_e state_e_sign state_e0 state_word
    state_end_value state_begin_string_or_empty empty_object
step_sound Step.begin_value t stack e c p = ground arith
step_sound Step.begin_value_or_empty t stack e c p = sound_if (is_ascii_whitespace c) _ _ refl (
    sound_if (c == b']') _ _ (end_value_sound (scanner Step.begin_value_or_empty t stack e) c stack)
      (value_sound Step.begin_value_or_empty t stack e c p))
step_sound Step.begin_string_or_empty t [] e c p = cc
step_sound Step.begin_string_or_empty t (r ∷ stack) e c p = ground (
  arith,
  end_value_sound (scanner Step.begin_string_or_empty t (ParseState.object_value ∷ stack) e) c
      (ParseState.object_value ∷ stack),
)
step_sound Step.begin_string t stack e c p = ground arith
step_sound Step.end_value t stack e c p = end_value_sound (scanner Step.end_value t stack e) c stack
step_sound Step.end_top t stack e c p = top_sound (scanner Step.end_top t stack e) c refl
step_sound Step.in_string t stack e c p = ground arith
step_sound Step.in_string_esc t stack e c p = ground arith
step_sound Step.in_string_esc_u t stack e c p = ground arith
step_sound Step.in_string_esc_u1 t stack e c p = ground arith
step_sound Step.in_string_esc_u12 t stack e c p = ground arith
step_sound Step.in_string_esc_u123 t stack e c p = ground arith
step_sound Step.neg t stack e c p = ground arith
step_sound Step.one t stack e c p =
    ground (arith, end_value_sound (scanner Step.one t stack e) c stack)
step_sound Step.zero t stack e c p =
    ground (arith, end_value_sound (scanner Step.zero t stack e) c stack)
step_sound Step.dot t stack e c p = ground arith
step_sound Step.dot0 t stack e c p =
    ground (arith, end_value_sound (scanner Step.dot0 t stack e) c stack)
step_sound Step.e t stack e c p = ground arith
step_sound Step.e_sign t stack e c p = ground arith
step_sound Step.e0 t stack e c p =
    ground (arith, end_value_sound (scanner Step.e0 t stack e) c stack)
step_sound Step.t t stack e c p = ground arith
step_sound Step.tr t stack e c p = ground arith
step_sound Step.tru t stack e c p = ground arith
step_sound Step.f t stack e c p = ground arith
step_sound Step.fa t stack e c p = ground arith
step_sound Step.fal t stack e c p = ground arith
step_sound Step.fals t stack e c p = ground arith
step_sound Step.n t stack e c p = ground arith
step_sound Step.nu t stack e c p = ground arith
step_sound Step.nul t stack e c p = ground arith
step_sound Step.failed t stack e c p = ground arith

split_answer :
    (o : Option Stepped)
    → is_sound_step o ≡ true
    → (t : Scanner) × (answer : ScanState) × (o ≡ some (t, answer))
      × (is_sound t ≡ true)
      × (answer ≡ ScanState.error → is_some t.err ≡ true)
unfolding is_sound_step
split_answer none p = cc
split_answer (some (t, answer)) p = (
  t,
  answer,
  refl,
  ground arith,
  λ q. subst (λ a. (not (is_error a) || is_some t.err) ≡ true) q (ground arith),
)

sound_step : (s : Scanner) (c : ℕ) → is_sound s ≡ true → is_sound_step (step s c) ≡ true
unfolding is_sound
sound_step s c p = step_sound s.step s.end_top s.parse_state s.err c p

sound_answer :
    (t : Scanner) (answer : ScanState) → is_sound_step (some (t, answer)) ≡ true → is_sound t ≡ true
unfolding is_sound_step
sound_answer t answer p = ground arith

Reached-is_sound : {s : Scanner} → Reached s → is_sound s ≡ true
unfolding is_sound is_sound_at
Reached-is_sound (start s e) = rw e refl
Reached-is_sound (byte {s} {t} c answer r e) =
    sound_answer t answer
      (subst (λ o. is_sound_step o ≡ true) e (sound_step s c (Reached-is_sound r)))

-- A scanner that an input has reached takes any byte without a panic, and where it answers an
-- error it has one to show.
pub step_safe :
    {s : Scanner} (c : ℕ)
    → Reached s
    → (t : Scanner) × (answer : ScanState) × (step s c ≡ some (t, answer))
      × (answer ≡ ScanState.error → is_some t.err ≡ true)
step_safe {s} c r =
    let (t, answer, e, _, shown) = split_answer (step s c) (sound_step s c (Reached-is_sound r)) in
    (t, answer, e, shown)
