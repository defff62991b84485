-- ===== src/Json/Examples.antt =====
-- Runs of the scanner of sdk/couchbase-core/src/httpx/scanner.rs, and its theorems at concrete
-- inputs.
use couchbase_rs.Json.{
  Scanner, ScanState, Step, ParseState, new, state_begin_value, state_begin_value_or_empty,
  state_end_value, end_value_at, popped, state1, state0,
}
use couchbase_rs.Json.Run.{step, step_by, eof, eof_by, scan, scan_from, valid, is_some}
use couchbase_rs.Json.Grammar.{space, true_word}
use couchbase_rs.Json.Grammar.{Document, render}
use couchbase_rs.Json.Safety.{Reached, start, byte, step_safe}
use couchbase_rs.Json.Sound.Whole.{scan_iff}
use couchbase_rs.Json.Truncated.{valid-unclosed, unclosed}
use couchbase_rs.Prelude.{ℕ, true, false, List, [], ◌∷◌, none, some, ◌≡◌, ◌≢◌, ◌↔◌, refl}

-- `[1,2,3]` and `[1,2,3,]` of the source's tests.
abbrev array_text : List ℕ
array_text = b'[' ∷ b'1' ∷ b',' ∷ b'2' ∷ b',' ∷ b'3' ∷ b']' ∷ []

abbrev trailing_comma : List ℕ
trailing_comma = b'[' ∷ b'1' ∷ b',' ∷ b'2' ∷ b',' ∷ b'3' ∷ b',' ∷ b']' ∷ []

valid-array_text : valid array_text ≡ some true
unfolding valid scan scan_from step step_by eof eof_by state_begin_value state_begin_value_or_empty
    state_end_value end_value_at popped state1 state0
valid-array_text = refl

valid-trailing_comma : valid trailing_comma ≡ some false
unfolding valid scan scan_from step step_by eof eof_by state_begin_value state_begin_value_or_empty
    state_end_value end_value_at popped state1 state0
valid-trailing_comma = refl

-- `valid` on nothing at all, and on the text that is cut off before its second element.
valid_nothing : valid [] ≡ some true
unfolding valid scan scan_from step step_by eof eof_by state_begin_value
valid_nothing = refl

valid_cut_off : valid (b'[' ∷ b'1' ∷ b',' ∷ []) ≡ some true
unfolding valid scan scan_from step step_by eof eof_by state_begin_value state_begin_value_or_empty
    state_end_value end_value_at popped state1 state0
valid_cut_off = refl

scan_iff_example :
    (scan array_text ≡ some ScanState.end) ↔ ((d : Document) × (render d ≡ array_text))
scan_iff_example = scan_iff array_text

abbrev in_array : Scanner
in_array = record {
  step = Step.begin_value_or_empty;
  end_top = false;
  parse_state = ParseState.array_value ∷ [];
  err = none;
}

in_array-Reached : Reached in_array
unfolding step step_by state_begin_value
in_array-Reached = byte b'[' ScanState.begin_array (start new refl) refl

step_safe_example :
    (t : Scanner) × (answer : ScanState) × (step in_array b'x' ≡ some (t, answer))
    × (answer ≡ ScanState.error → is_some t.err ≡ true)
step_safe_example = step_safe b'x' in_array-Reached

valid-unclosed_example :
    (valid (unclosed (space ∷ []) true_word) ≡ some true)
    × ((d : Document) → render d ≢ unclosed (space ∷ []) true_word)
valid-unclosed_example = valid-unclosed (space ∷ []) true_word
