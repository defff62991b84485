-- ===== src/Json/Accepts.antt =====
-- The scanner of sdk/couchbase-core/src/httpx/scanner.rs on the texts of the grammar.
use couchbase_rs.Json.{
  ScanState, is_ascii_whitespace, state0, state1, state_dot0, state_e0, state_end_value,
  state_end_top, end_value_at, Scanner, ParseState, Step, new, state_begin_value,
  state_begin_value_or_empty, state_word,
}
use couchbase_rs.Json.Run.{step, step_by, eof, eof_by, scan, scan_from}
use couchbase_rs.Json.Feed.{at, feed, feed-append, scan_from-feed}
use couchbase_rs.Json.Grammar.{
  space_byte, space, tab, line_feed, form_feed, carriage_return, Space, spaces, Char, chars, Number,
  Value, Elements, Members, Document, value, elements, members, render, true_word, false_word,
  null_word, numeric, text, empty_array, empty_object, array, object, last, next, done, member,
  document, naught, leading, integral, point, unscaled, scaled, positive, negative,
}
use couchbase_rs.Json.Scalars.{
  Entry, entry, required, optional, after_number, feed-number, feed-chars,
}
use couchbase_rs.Json.Structure.{
  is_delimiter, closed, Resting, ended, zero, one, dot0, e0, feed-spaces, feed-settled, value_skips,
  optional_skips, key_skips, optional_key_skips, end_skips, open_array, open_object, open_text,
  close_array, close_empty_array, close_object, close_empty_object, array_comma, object_comma,
  key_colon, open_key, open_first_key,
}
use couchbase_rs.Prelude.{ℕ, arith, true, List, [], ◌∷◌, ◌++◌, some, ◌≡◌, refl, ◌∙◌}

-- The scanner behind a value.
abbrev pub after : Value → List ParseState → Scanner
after true_word stack = at Step.end_value stack
after false_word stack = at Step.end_value stack
after null_word stack = at Step.end_value stack
after (text _) stack = at Step.end_value stack
after (numeric n) stack = at (after_number n) stack
after (empty_array _) stack = closed stack
after (empty_object _) stack = closed stack
after (array _ _ _ _) stack = closed stack
after (object _ _ _ _ _ _ _) stack = closed stack

pub resting_number : (n : Number) → Resting (after_number n)
resting_number (positive _ _ (scaled _ _ _ _)) = e0
resting_number (positive _ (point _ _) unscaled) = dot0
resting_number (positive naught integral unscaled) = zero
resting_number (positive (leading _ _ _) integral unscaled) = one
resting_number (negative _ _ (scaled _ _ _ _)) = e0
resting_number (negative _ (point _ _) unscaled) = dot0
resting_number (negative naught integral unscaled) = zero
resting_number (negative (leading _ _ _) integral unscaled) = one

-- White space and a delimiter behind a value in a container, whatever the value.
feed-after :
    (v : Value) (p : ParseState) (stack : List ParseState) (ws : List Space) (c : ℕ) (rest : List ℕ)
    {t : Scanner}
    → is_delimiter c ≡ true
    → feed (c ∷ rest) (at Step.end_value (p ∷ stack)) ≡ some t
    → feed (spaces ws ++ (c ∷ rest)) (after v (p ∷ stack)) ≡ some t
feed-after (numeric n) = feed-settled (resting_number n)
feed-after true_word = feed-settled ended
feed-after false_word = feed-settled ended
feed-after null_word = feed-settled ended
feed-after (text _) = feed-settled ended
feed-after (empty_array _) = feed-settled ended
feed-after (empty_object _) = feed-settled ended
feed-after (array _ _ _ _) = feed-settled ended
feed-after (object _ _ _ _ _ _ _) = feed-settled ended

feed-words :
    (e : Entry) (stack : List ParseState)
    → (feed (value true_word) (at (entry e) stack) ≡ some (at Step.end_value stack))
      × (feed (value false_word) (at (entry e) stack) ≡ some (at Step.end_value stack))
      × (feed (value null_word) (at (entry e) stack) ≡ some (at Step.end_value stack))
unfolding feed value step step_by state_begin_value state_begin_value_or_empty state_word
feed-words required stack = (refl, refl, refl)
feed-words optional stack = (refl, refl, refl)

-- A key behind its quotation mark, and what stands up to its value.
feed-key :
    (key : List Char) (gap before_value : List Space) (stack : List ParseState) (rest : List ℕ)
    {t : Scanner}
    → feed rest (at Step.begin_value (ParseState.object_value ∷ stack)) ≡ some t
    → feed
        ((chars key ++ (b'"' ∷ [])) ++ (spaces gap ++ (b':' ∷ (spaces before_value ++ rest))))
        (at Step.in_string (ParseState.object_key ∷ stack))
      ≡ some t
unfolding feed
feed-key key gap before_value stack rest e =
    feed-append (chars key ++ (b'"' ∷ [])) (spaces gap ++ (b':' ∷ (spaces before_value ++ rest))) _
      (feed-chars key (ParseState.object_key ∷ stack))
      (feed-append (spaces gap) (b':' ∷ (spaces before_value ++ rest)) _
        (feed-spaces Step.end_value _ gap (end_skips ParseState.object_key stack))
        (rw (key_colon stack) (
          feed-append (spaces before_value) rest _
            (feed-spaces Step.begin_value _ before_value (value_skips _)) e)))

mutual
  unfolding feed value

  pub feed-value :
      (e : Entry) (v : Value) (stack : List ParseState)
      → feed (value v) (at (entry e) stack) ≡ some (after v stack)
  feed-value e true_word stack = (feed-words e stack).0
  feed-value e false_word stack = (feed-words e stack).1
  feed-value e null_word stack = (feed-words e stack).2
  feed-value e (numeric n) stack = feed-number e n stack
  feed-value e (text cs) stack = rw (open_text e stack) (feed-chars cs stack)
  feed-value e (empty_array ws) stack = rw (open_array e stack) (
      feed-append (spaces ws) (b']' ∷ []) _
        (feed-spaces Step.begin_value_or_empty _ ws (optional_skips _))
        (rw (close_empty_array stack) refl))
  feed-value e (empty_object ws) stack = rw (open_object e stack) (
      feed-append (spaces ws) (b'}' ∷ []) _
        (feed-spaces Step.begin_string_or_empty _ ws (optional_key_skips _))
        (rw (close_empty_object stack) refl))
  feed-value e (array before v behind es) stack = rw (open_array e stack) (
      feed-append (spaces before) (value v ++ (spaces behind ++ elements es)) _
        (feed-spaces Step.begin_value_or_empty _ before (optional_skips _))
        (feed-append (value v) (spaces behind ++ elements es) _
          (feed-value optional v (ParseState.array_value ∷ stack))
          (feed-elements es v behind stack)))
  feed-value e (object before key gap before_value v behind ms) stack = rw (open_object e stack) (
      feed-append (spaces before) _ _
        (feed-spaces Step.begin_string_or_empty _ before (optional_key_skips _))
        (rw (open_first_key (ParseState.object_key ∷ stack)) (
          feed-key key gap before_value stack (value v ++ (spaces behind ++ members ms)) (
            feed-append (value v) (spaces behind ++ members ms) _
              (feed-value required v (ParseState.object_value ∷ stack))
              (feed-members ms v behind stack)))))

  feed-elements :
      (es : Elements) (v : Value) (ws : List Space) (stack : List ParseState)
      → feed (spaces ws ++ elements es) (after v (ParseState.array_value ∷ stack))
        ≡ some (closed stack)
  feed-elements last v ws stack =
      feed-after v ParseState.array_value stack ws b']' [] refl (rw (close_array stack) refl)
  feed-elements (next before w behind es) v ws stack =
      feed-after v ParseState.array_value stack ws b',' _ refl (
        rw (array_comma stack) (
          feed-append (spaces before) (value w ++ (spaces behind ++ elements es)) _
            (feed-spaces Step.begin_value _ before (value_skips _))
            (feed-append (value w) (spaces behind ++ elements es) _
              (feed-value required w (ParseState.array_value ∷ stack))
              (feed-elements es w behind stack))))

  feed-members :
      (ms : Members) (v : Value) (ws : List Space) (stack : List ParseState)
      → feed (spaces ws ++ members ms) (after v (ParseState.object_value ∷ stack))
        ≡ some (closed stack)
  feed-members done v ws stack =
      feed-after v ParseState.object_value stack ws b'}' [] refl (rw (close_object stack) refl)
  feed-members (member before key gap before_value w behind ms) v ws stack =
      feed-after v ParseState.object_value stack ws b',' _ refl (
        rw (object_comma stack) (
          feed-append (spaces before) _ _ (feed-spaces Step.begin_string _ before (key_skips _)) (
            rw (open_key (ParseState.object_key ∷ stack)) (
              feed-key key gap before_value stack (value w ++ (spaces behind ++ members ms)) (
                feed-append (value w) (spaces behind ++ members ms) _
                  (feed-value required w (ParseState.object_value ∷ stack))
                  (feed-members ms w behind stack))))))

space_ends :
    {q : Step} (r : Resting q) (c : ℕ)
    → is_ascii_whitespace c ≡ true
    → step (at q []) c ≡ some (closed [], ScanState.end)
unfolding step step_by state0 state1 state_dot0 state_e0 state_end_value end_value_at state_end_top
space_ends ended c d = ground arith
space_ends zero c d = ground arith
space_ends one c d = ground arith
space_ends dot0 c d = ground arith
space_ends e0 c d = ground arith

space_is : (w : Space) → is_ascii_whitespace (space_byte w) ≡ true
space_is space = refl
space_is tab = refl
space_is line_feed = refl
space_is form_feed = refl
space_is carriage_return = refl

top_answers : (ws : List Space) → scan_from (spaces ws) (closed []) ≡ some ScanState.end
unfolding scan_from step step_by state_end_top eof eof_by
top_answers [] = refl
top_answers (w ∷ ws) = rw (space_is w) (top_answers ws)

rest_answers :
    {q : Step} (r : Resting q) (ws : List Space)
    → scan_from (spaces ws) (at q []) ≡ some ScanState.end
unfolding scan_from eof eof_by
rest_answers r [] = rw (space_ends r b' ' refl) refl
rest_answers r (w ∷ ws) = rw (space_ends r (space_byte w) (space_is w)) (top_answers ws)

-- Behind a value the scanner answers that it has ended.
after_answers :
    (v : Value) (ws : List Space) → scan_from (spaces ws) (after v []) ≡ some ScanState.end
after_answers (numeric n) = rest_answers (resting_number n)
after_answers true_word = rest_answers ended
after_answers false_word = rest_answers ended
after_answers null_word = rest_answers ended
after_answers (text _) = rest_answers ended
after_answers (empty_array _) = top_answers
after_answers (empty_object _) = top_answers
after_answers (array _ _ _ _) = top_answers
after_answers (object _ _ _ _ _ _ _) = top_answers

-- The scanner ends on every text of the grammar.
pub scan-render : (d : Document) → scan (render d) ≡ some ScanState.end
unfolding scan render
scan-render (document before v behind) =
    scan_from-feed (spaces before) (value v ++ spaces behind) new
      (feed-spaces Step.begin_value [] before (value_skips []))
    ∙ (scan_from-feed (value v) (spaces behind) (at Step.begin_value []) (feed-value required v [])
        ∙ after_answers v behind)
