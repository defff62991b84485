-- ===== src/Json/Structure.antt =====
-- The scanner at the bytes around the values of arrays and objects.
use couchbase_rs.Json.{
  Scanner, ScanState, ParseState, Step, popped, is_ascii_whitespace, state_begin_value,
  state_begin_value_or_empty, state_begin_string, state_begin_string_or_empty, state_end_value,
  end_value_at, state0, state1, state_dot0, state_e0, empty_object,
}
use couchbase_rs.Json.Run.{step, step_by}
use couchbase_rs.Json.Feed.{at, feed, feed-append}
use couchbase_rs.Json.Grammar.{
  Space, space_byte, spaces, space, tab, line_feed, form_feed, carriage_return,
}
use couchbase_rs.Json.Scalars.{Entry, entry, required, optional}
use couchbase_rs.Prelude.{
  ℕ, Bool, true, ◌||◌, List, [], ◌∷◌, ◌++◌, none, some, ◌≡◌, refl, ◌==◌, arith,
}

-- The scanner behind a container that stood at this stack.
abbrev pub closed : List ParseState → Scanner
closed [] = record { step = Step.end_top; end_top = true; parse_state = []; err = none }
closed (p ∷ stack) = at Step.end_value (p ∷ stack)

-- The states that a value may end in inside of a container.
pub data Resting : Step → Type 0 where
  ended : Resting Step.end_value
  zero : Resting Step.zero
  one : Resting Step.one
  dot0 : Resting Step.dot0
  e0 : Resting Step.e0

abbrev pub is_delimiter : ℕ → Bool
is_delimiter c = is_ascii_whitespace c || (c == b',') || (c == b']') || (c == b'}')

pub rest_step :
    {q : Step} (r : Resting q) (p : ParseState) (stack : List ParseState) (c : ℕ)
    → is_delimiter c ≡ true
    → step (at q (p ∷ stack)) c ≡ step (at Step.end_value (p ∷ stack)) c
unfolding step step_by state0 state1 state_dot0 state_e0 state_end_value end_value_at popped
rest_step ended p stack c d = refl
rest_step zero ParseState.array_value stack c d = ground arith
rest_step zero ParseState.object_key stack c d = ground arith
rest_step zero ParseState.object_value stack c d = ground arith
rest_step one ParseState.array_value stack c d = ground arith
rest_step one ParseState.object_key stack c d = ground arith
rest_step one ParseState.object_value stack c d = ground arith
rest_step dot0 ParseState.array_value stack c d = ground arith
rest_step dot0 ParseState.object_key stack c d = ground arith
rest_step dot0 ParseState.object_value stack c d = ground arith
rest_step e0 ParseState.array_value stack c d = ground arith
rest_step e0 ParseState.object_key stack c d = ground arith
rest_step e0 ParseState.object_value stack c d = ground arith

-- A state that white space leaves.
abbrev pub Skipping : Step → List ParseState → Type 0
Skipping q stack =
    (w : Space) → step (at q stack) (space_byte w) ≡ some (at q stack, ScanState.skip_space)

pub feed-spaces :
    (q : Step) (stack : List ParseState) (ws : List Space)
    → Skipping q stack
    → feed (spaces ws) (at q stack) ≡ some (at q stack)
unfolding feed
feed-spaces q stack [] h = refl
feed-spaces q stack (w ∷ ws) h = rw (h w) (feed-spaces q stack ws h)

pub value_skips : (stack : List ParseState) → Skipping Step.begin_value stack
unfolding step step_by state_begin_value
value_skips stack space = refl
value_skips stack tab = refl
value_skips stack line_feed = refl
value_skips stack form_feed = refl
value_skips stack carriage_return = refl

pub optional_skips : (stack : List ParseState) → Skipping Step.begin_value_or_empty stack
unfolding step step_by state_begin_value_or_empty
optional_skips stack space = refl
optional_skips stack tab = refl
optional_skips stack line_feed = refl
optional_skips stack form_feed = refl
optional_skips stack carriage_return = refl

pub key_skips : (stack : List ParseState) → Skipping Step.begin_string stack
unfolding step step_by state_begin_string
key_skips stack space = refl
key_skips stack tab = refl
key_skips stack line_feed = refl
key_skips stack form_feed = refl
key_skips stack carriage_return = refl

pub optional_key_skips : (stack : List ParseState) → Skipping Step.begin_string_or_empty stack
unfolding step step_by state_begin_string_or_empty
optional_key_skips stack space = refl
optional_key_skips stack tab = refl
optional_key_skips stack line_feed = refl
optional_key_skips stack form_feed = refl
optional_key_skips stack carriage_return = refl

pub end_skips : (p : ParseState) (stack : List ParseState) → Skipping Step.end_value (p ∷ stack)
unfolding step step_by state_end_value end_value_at
end_skips ParseState.array_value stack space = refl
end_skips ParseState.array_value stack tab = refl
end_skips ParseState.array_value stack line_feed = refl
end_skips ParseState.array_value stack form_feed = refl
end_skips ParseState.array_value stack carriage_return = refl
end_skips ParseState.object_key stack space = refl
end_skips ParseState.object_key stack tab = refl
end_skips ParseState.object_key stack line_feed = refl
end_skips ParseState.object_key stack form_feed = refl
end_skips ParseState.object_key stack carriage_return = refl
end_skips ParseState.object_value stack space = refl
end_skips ParseState.object_value stack tab = refl
end_skips ParseState.object_value stack line_feed = refl
end_skips ParseState.object_value stack form_feed = refl
end_skips ParseState.object_value stack carriage_return = refl

space_delimits : (w : Space) → is_delimiter (space_byte w) ≡ true
space_delimits space = refl
space_delimits tab = refl
space_delimits line_feed = refl
space_delimits form_feed = refl
space_delimits carriage_return = refl

-- White space and a delimiter behind a value in a container.
pub feed-settled :
    {q : Step} (r : Resting q) (p : ParseState) (stack : List ParseState) (ws : List Space) (c : ℕ)
    (rest : List ℕ) {t : Scanner}
    → is_delimiter c ≡ true
    → feed (c ∷ rest) (at Step.end_value (p ∷ stack)) ≡ some t
    → feed (spaces ws ++ (c ∷ rest)) (at q (p ∷ stack)) ≡ some t
unfolding feed
feed-settled r p stack [] c rest d e = rw (rest_step r p stack c d) e
feed-settled r p stack (w ∷ ws) c rest d e =
    rw (rest_step r p stack (space_byte w) (space_delimits w), end_skips p stack w)
      (feed-append (spaces ws) (c ∷ rest) (at Step.end_value (p ∷ stack))
        (feed-spaces Step.end_value (p ∷ stack) ws (end_skips p stack)) e)

pub open_array :
    (e : Entry) (stack : List ParseState)
    → step (at (entry e) stack) b'['
      ≡ some (at Step.begin_value_or_empty (ParseState.array_value ∷ stack), ScanState.begin_array)
unfolding step step_by state_begin_value state_begin_value_or_empty
open_array required stack = refl
open_array optional stack = refl

pub open_object :
    (e : Entry) (stack : List ParseState)
    → step (at (entry e) stack) b'{'
      ≡ some (at Step.begin_string_or_empty (ParseState.object_key ∷ stack), ScanState.begin_object)
unfolding step step_by state_begin_value state_begin_value_or_empty
open_object required stack = refl
open_object optional stack = refl

pub open_text :
    (e : Entry) (stack : List ParseState)
    → step (at (entry e) stack) b'"' ≡ some (at Step.in_string stack, ScanState.begin_literal)
unfolding step step_by state_begin_value state_begin_value_or_empty
open_text required stack = refl
open_text optional stack = refl

pub close_array :
    (stack : List ParseState)
    → step (at Step.end_value (ParseState.array_value ∷ stack)) b']'
      ≡ some (closed stack, ScanState.end_array)
unfolding step step_by state_end_value end_value_at popped
close_array [] = refl
close_array (p ∷ stack) = refl

pub close_empty_array :
    (stack : List ParseState)
    → step (at Step.begin_value_or_empty (ParseState.array_value ∷ stack)) b']'
      ≡ some (closed stack, ScanState.end_array)
unfolding step step_by state_begin_value_or_empty state_end_value end_value_at popped
close_empty_array [] = refl
close_empty_array (p ∷ stack) = refl

pub close_object :
    (stack : List ParseState)
    → step (at Step.end_value (ParseState.object_value ∷ stack)) b'}'
      ≡ some (closed stack, ScanState.end_object)
unfolding step step_by state_end_value end_value_at popped
close_object [] = refl
close_object (p ∷ stack) = refl

pub close_empty_object :
    (stack : List ParseState)
    → step (at Step.begin_string_or_empty (ParseState.object_key ∷ stack)) b'}'
      ≡ some (closed stack, ScanState.end_object)
unfolding step step_by state_begin_string_or_empty empty_object state_end_value end_value_at popped
close_empty_object [] = refl
close_empty_object (p ∷ stack) = refl

pub array_comma :
    (stack : List ParseState)
    → step (at Step.end_value (ParseState.array_value ∷ stack)) b','
      ≡ some (at Step.begin_value (ParseState.array_value ∷ stack), ScanState.array_value)
unfolding step step_by state_end_value end_value_at
array_comma stack = refl

pub object_comma :
    (stack : List ParseState)
    → step (at Step.end_value (ParseState.object_value ∷ stack)) b','
      ≡ some (at Step.begin_string (ParseState.object_key ∷ stack), ScanState.object_value)
unfolding step step_by state_end_value end_value_at
object_comma stack = refl

pub key_colon :
    (stack : List ParseState)
    → step (at Step.end_value (ParseState.object_key ∷ stack)) b':'
      ≡ some (at Step.begin_value (ParseState.object_value ∷ stack), ScanState.object_key)
unfolding step step_by state_end_value end_value_at
key_colon stack = refl

pub open_key :
    (stack : List ParseState)
    → step (at Step.begin_string stack) b'"'
      ≡ some (at Step.in_string stack, ScanState.begin_literal)
unfolding step step_by state_begin_string
open_key stack = refl

pub open_first_key :
    (stack : List ParseState)
    → step (at Step.begin_string_or_empty stack) b'"'
      ≡ some (at Step.in_string stack, ScanState.begin_literal)
unfolding step step_by state_begin_string_or_empty state_begin_string
open_first_key stack = refl
