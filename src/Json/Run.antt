-- ===== src/Json/Run.antt =====
-- sdk/couchbase-core/src/httpx/scanner.rs: `step`, which calls the function that is set, `eof` and
-- `valid`.
use couchbase_rs.Json.{
  Scanner, ScanState, Step, Stepped, new, state_begin_value, state_begin_value_or_empty,
  state_begin_string, state_begin_string_or_empty, state_end_value, state_end_top, state_in_string,
  state_in_string_esc, state_hex, state_neg, state0, state1, state_dot, state_dot0, state_e,
  state_e_sign, state_e0, state_word,
}
use couchbase_rs.Prelude.{
  ℕ, Bool, true, false, not, List, [], ◌∷◌, Option, none, some, if◌then◌else◌,
}

unfoldable pub step_by : Step → Scanner → ℕ → Option Stepped
unfolding state_begin_value state_begin_value_or_empty state_begin_string_or_empty
    state_begin_string state_end_value state_end_top state_in_string state_in_string_esc state_hex
    state_neg state0 state1 state_dot state_dot0 state_e state_e_sign state_e0 state_word
step_by Step.begin_value s c = some (state_begin_value s c)
step_by Step.begin_value_or_empty s c = some (state_begin_value_or_empty s c)
step_by Step.begin_string_or_empty s c = state_begin_string_or_empty s c
step_by Step.begin_string s c = some (state_begin_string s c)
step_by Step.end_value s c = some (state_end_value s c)
step_by Step.end_top s c = some (state_end_top s c)
step_by Step.in_string s c = some (state_in_string s c)
step_by Step.in_string_esc s c = some (state_in_string_esc s c)
step_by Step.in_string_esc_u s c = some (state_hex s c Step.in_string_esc_u1)
step_by Step.in_string_esc_u1 s c = some (state_hex s c Step.in_string_esc_u12)
step_by Step.in_string_esc_u12 s c = some (state_hex s c Step.in_string_esc_u123)
step_by Step.in_string_esc_u123 s c = some (state_hex s c Step.in_string)
step_by Step.neg s c = some (state_neg s c)
step_by Step.one s c = some (state1 s c)
step_by Step.zero s c = some (state0 s c)
step_by Step.dot s c = some (state_dot s c)
step_by Step.dot0 s c = some (state_dot0 s c)
step_by Step.e s c = some (state_e s c)
step_by Step.e_sign s c = some (state_e_sign s c)
step_by Step.e0 s c = some (state_e0 s c)
step_by Step.t s c = some (state_word s c b'r' Step.tr "in literal true (expecting 'r')")
step_by Step.tr s c = some (state_word s c b'u' Step.tru "in literal true (expecting 'u')")
step_by Step.tru s c = some (state_word s c b'e' Step.end_value "in literal true (expecting 'e')")
step_by Step.f s c = some (state_word s c b'a' Step.fa "in literal false (expecting 'a')")
step_by Step.fa s c = some (state_word s c b'l' Step.fal "in literal false (expecting 'l')")
step_by Step.fal s c = some (state_word s c b's' Step.fals "in literal false (expecting 's')")
step_by Step.fals s c = some (state_word s c b'e' Step.end_value "in literal false (expecting 'e')")
step_by Step.n s c = some (state_word s c b'u' Step.nu "in literal null (expecting 'u')")
step_by Step.nu s c = some (state_word s c b'l' Step.nul "in literal null (expecting 'l')")
step_by Step.nul s c = some (state_word s c b'l' Step.end_value "in literal null (expecting 'l')")
step_by Step.failed s c = some (s, ScanState.error)

unfoldable pub step : Scanner → ℕ → Option Stepped
unfolding step_by
step s c = step_by s.step s c

-- `eof` by the error and by whether the value has ended.
unfoldable pub eof_by : Bool → Bool → Scanner → Option Stepped
unfolding step
eof_by true _ s = some (s, ScanState.error)
eof_by false true s = some (s, ScanState.end)
eof_by false false s = step s b' '

abbrev pub is_some : {A : Type 0} → Option A → Bool
is_some none = false
is_some (some _) = true

unfoldable pub eof : Scanner → Option Stepped
unfolding eof_by
eof s = eof_by (is_some s.err) s.end_top s

abbrev pub is_error : ScanState → Bool
is_error ScanState.error = true
is_error _ = false

-- A round of the loop of `valid`, before the rounds that are left.
abbrev pub unless_error : Option Stepped → (Scanner → Option ScanState) → Option ScanState
unless_error none _ = none
unless_error (some (s, answer)) rounds = if is_error answer then some ScanState.error else rounds s

abbrev pub answer_of : Option Stepped → Option ScanState
answer_of none = none
answer_of (some (_, answer)) = some answer

-- The answer that `valid` tests: the first error, or the one of `eof`.
unfoldable pub scan_from : List ℕ → Scanner → Option ScanState
unfolding eof step
scan_from [] s = answer_of (eof s)
scan_from (c ∷ bytes) s = unless_error (step s c) (scan_from bytes)

unfoldable pub scan : List ℕ → Option ScanState
unfolding scan_from
scan bytes = scan_from bytes new

abbrev pub unless_error_answer : Option ScanState → Option Bool
unless_error_answer none = none
unless_error_answer (some answer) = some (not (is_error answer))

unfoldable pub valid : List ℕ → Option Bool
unfolding scan
valid bytes = unless_error_answer (scan bytes)
