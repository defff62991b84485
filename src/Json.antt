-- ===== src/Json.antt =====
-- sdk/couchbase-core/src/httpx/scanner.rs: the scanner that finds the end of a JSON text, byte by
-- byte. The function that the next byte goes to is a name for it, and the top of the stack is the
-- head of a list. A step comes to nothing where it panics. The counter `bytes`, which nothing reads,
-- is left out.
pub mod Grammar
pub mod Run
pub mod Feed
pub mod Scalars
pub mod Structure
pub mod Accepts
pub mod Meaning
pub mod Sound
pub mod Safety
pub mod Truncated
mod Examples
use couchbase_rs.Prelude.{
  ℕ, suc, ◌+◌, ◌-◌, Bool, true, false, ◌&&◌, ◌||◌, List, [], ◌∷◌, Option, none, some, ltb, leb,
  ◌==◌, if◌then◌else◌,
}
use Prim.Native.String.{String}

pub data ScanState : Type 0 where
  continue begin_literal begin_object object_key object_value end_object : ScanState
  begin_array array_value end_array skip_space end error : ScanState

pub data ParseState : Type 0 where
  object_key object_value array_value : ParseState

-- The step functions `state_…`.
pub data Step : Type 0 where
  begin_value begin_value_or_empty begin_string_or_empty begin_string : Step
  end_value end_top in_string in_string_esc in_string_esc_u in_string_esc_u1 : Step
  in_string_esc_u12 in_string_esc_u123 neg one zero dot dot0 e e_sign e0 : Step
  t tr tru f fa fal fals n nu nul failed : Step

pub record Scanner : Type 0 where
  pub step : Step
  pub end_top : Bool
  pub parse_state : List ParseState
  -- The character that is refused, and where.
  pub err : Option (ℕ × String)

-- `Scanner::new`, and what `reset` makes of any scanner.
abbrev pub new : Scanner
new = record { step = begin_value; end_top = false; parse_state = []; err = none }

abbrev pub is_ascii_whitespace : ℕ → Bool
is_ascii_whitespace c = (c == 32) || (c == 9) || (c == 10) || (c == 12) || (c == 13)

abbrev pub is_ascii_digit : ℕ → Bool
is_ascii_digit c = leb b'0' c && leb c b'9'

abbrev pub is_ascii_hexdigit : ℕ → Bool
is_ascii_hexdigit c = is_ascii_digit c || (leb b'a' c && leb c b'f') || (leb b'A' c && leb c b'F')

-- What a step function leaves and answers.
abbrev pub Stepped : Type 0
Stepped = Scanner × ScanState

abbrev pub go : Scanner → Step → ScanState → Stepped
go s next answer = (record s { step = next }, answer)

abbrev pub fail : Scanner → ℕ → String → Stepped
fail s c context = (record s { step = failed; err = some (c, context) }, error)

abbrev pub push_parse_state : Scanner → Step → ParseState → ScanState → Stepped
push_parse_state s next new_parse_state success_state =
    (record s { step = next; parse_state = new_parse_state ∷ s.parse_state }, success_state)

-- The scanner with the stack `rest` left below what is popped.
unfoldable pub popped : Scanner → List ParseState → Scanner
popped s [] = record s { step = end_top; end_top = true; parse_state = [] }
popped s (p ∷ rest) = record s { step = end_value; parse_state = p ∷ rest }

unfoldable pub state_begin_value : Scanner → ℕ → Stepped
state_begin_value s c =
    if is_ascii_whitespace c
    then (s, skip_space)
    else if c == b'{'
    then push_parse_state s begin_string_or_empty ParseState.object_key begin_object
    else if c == b'['
    then push_parse_state s begin_value_or_empty ParseState.array_value begin_array
    else if c == b'"'
    then go s in_string begin_literal
    else if c == b'-'
    then go s neg begin_literal
    else if c == b'0'
    then go s zero begin_literal
    else if c == b't'
    then go s t begin_literal
    else if c == b'f'
    then go s f begin_literal
    else if c == b'n'
    then go s n begin_literal
    else if is_ascii_digit c
    then go s one begin_literal
    else fail s c "looking for beginning of value"

unfoldable pub state_end_top : Scanner → ℕ → Stepped
state_end_top s c =
    ((if is_ascii_whitespace c then s else (fail s c "after top-level value").0), end)

-- `state_end_value` by the stack.
unfoldable pub end_value_at : Scanner → ℕ → List ParseState → Stepped
unfolding popped state_end_top
end_value_at s c [] = state_end_top (record s { step = end_top; end_top = true }) c
end_value_at s c (ParseState.object_key ∷ rest) =
    if is_ascii_whitespace c
    then go s end_value skip_space
    else if c == b':'
    then (
      record s { step = begin_value; parse_state = ParseState.object_value ∷ rest },
      ScanState.object_key,
    )
    else fail s c "after object key"
end_value_at s c (ParseState.object_value ∷ rest) =
    if is_ascii_whitespace c
    then go s end_value skip_space
    else if c == b','
    then (
      record s { step = begin_string; parse_state = ParseState.object_key ∷ rest },
      ScanState.object_value,
    )
    else if c == b'}'
    then (popped s rest, end_object)
    else fail s c "after object key:value pair"
end_value_at s c (ParseState.array_value ∷ rest) =
    if is_ascii_whitespace c
    then go s end_value skip_space
    else if c == b','
    then go s begin_value ScanState.array_value
    else if c == b']'
    then (popped s rest, end_array)
    else fail s c "after array element"

unfoldable pub state_end_value : Scanner → ℕ → Stepped
unfolding end_value_at
state_end_value s c = end_value_at s c s.parse_state

unfoldable pub state_begin_value_or_empty : Scanner → ℕ → Stepped
unfolding state_end_value state_begin_value
state_begin_value_or_empty s c =
    if is_ascii_whitespace c
    then (s, skip_space)
    else if c == b']'
    then state_end_value s c
    else state_begin_value s c

unfoldable pub state_begin_string : Scanner → ℕ → Stepped
state_begin_string s c =
    if is_ascii_whitespace c
    then (s, skip_space)
    else if c == b'"'
    then go s in_string begin_literal
    else fail s c "looking for beginning of object key string"

-- `s.parse_state[n - 1] = ParseState::ObjectValue`, which an empty stack refuses.
unfoldable pub empty_object : Scanner → ℕ → List ParseState → Option Stepped
unfolding state_end_value
empty_object s c [] = none
empty_object s c (p ∷ rest) =
    some (state_end_value (record s { parse_state = ParseState.object_value ∷ rest }) c)

unfoldable pub state_begin_string_or_empty : Scanner → ℕ → Option Stepped
unfolding empty_object state_begin_string
state_begin_string_or_empty s c =
    if is_ascii_whitespace c
    then some (s, skip_space)
    else if c == b'}'
    then empty_object s c s.parse_state
    else some (state_begin_string s c)

unfoldable pub state_in_string : Scanner → ℕ → Stepped
state_in_string s c =
    if c == b'"'
    then go s end_value continue
    else if c == 92
    then go s in_string_esc continue
    else if ltb c 0x20
    then fail s c "in string literal"
    else (s, continue)

abbrev pub is_short_escape : ℕ → Bool
is_short_escape c =
    (c == b'b')
    || (c == b'f')
    || (c == b'n')
    || (c == b'r')
    || (c == b't')
    || (c == 92)
    || (c == b'/')
    || (c == b'"')

unfoldable pub state_in_string_esc : Scanner → ℕ → Stepped
state_in_string_esc s c =
    if is_short_escape c
    then go s in_string continue
    else if c == b'u'
    then go s in_string_esc_u continue
    else fail s c "in string escape code"

-- The four states of a hexadecimal escape differ in the next one.
unfoldable pub state_hex : Scanner → ℕ → Step → Stepped
state_hex s c next =
    if is_ascii_hexdigit c
    then go s next continue
    else fail s c "in \\u hexadecimal character escape"

unfoldable pub state_neg : Scanner → ℕ → Stepped
state_neg s c =
    if c == b'0'
    then go s zero continue
    else if is_ascii_digit c
    then go s one continue
    else fail s c "in numeric literal"

unfoldable pub state0 : Scanner → ℕ → Stepped
unfolding state_end_value
state0 s c =
    if c == b'.'
    then go s dot continue
    else if (c == b'e') || (c == b'E')
    then go s e continue
    else state_end_value s c

unfoldable pub state1 : Scanner → ℕ → Stepped
unfolding state0
state1 s c = if is_ascii_digit c then go s one continue else state0 s c

unfoldable pub state_dot : Scanner → ℕ → Stepped
state_dot s c =
    if is_ascii_digit c
    then go s dot0 continue
    else fail s c "after decimal point in numeric literal"

unfoldable pub state_dot0 : Scanner → ℕ → Stepped
unfolding state_end_value
state_dot0 s c =
    if is_ascii_digit c
    then (s, continue)
    else if (c == b'e') || (c == b'E')
    then go s e continue
    else state_end_value s c

unfoldable pub state_e_sign : Scanner → ℕ → Stepped
state_e_sign s c =
    if is_ascii_digit c then go s e0 continue else fail s c "in exponent of numeric literal"

unfoldable pub state_e : Scanner → ℕ → Stepped
unfolding state_e_sign
state_e s c = if (c == b'+') || (c == b'-') then go s e_sign continue else state_e_sign s c

unfoldable pub state_e0 : Scanner → ℕ → Stepped
unfolding state_end_value
state_e0 s c = if is_ascii_digit c then (s, continue) else state_end_value s c

-- A state inside `true`, `false` or `null`, by the byte it wants.
unfoldable pub state_word : Scanner → ℕ → ℕ → Step → String → Stepped
state_word s c wanted next context = if c == wanted then go s next continue else fail s c context
