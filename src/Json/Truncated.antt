-- ===== src/Json/Truncated.antt =====
-- `valid` of sdk/couchbase-core/src/httpx/scanner.rs on texts that are cut off.
use couchbase_rs.Json.{ScanState, ParseState, Step, new, state_end_value, end_value_at}
use couchbase_rs.Json.Run.{answer_of, step, step_by, eof, eof_by, scan, scan_from, valid}
use couchbase_rs.Json.Feed.{at, feed, feed-append, scan_from-feed}
use couchbase_rs.Json.Structure.{Resting, ended, rest_step, feed-spaces, optional_skips, open_array}
use couchbase_rs.Json.Scalars.{required, optional}
use couchbase_rs.Json.Accepts.{after, resting_number, feed-value}
use couchbase_rs.Json.Sound.Whole.{scan_iff}
use couchbase_rs.Json.Grammar.{
  Space, spaces, Value, value, Document, render, true_word, false_word, null_word, numeric, text,
  empty_array, empty_object, array, object,
}
use couchbase_rs.Prelude.{
  ℕ, true, List, [], ◌∷◌, ◌++◌, some, ◌≡◌, ◌≢◌, refl, sym, ap, append-nil, ◌∙◌,
}

end_waits :
    (stack : List ParseState)
    → answer_of (step (at Step.end_value (ParseState.array_value ∷ stack)) b' ')
      ≡ some ScanState.skip_space
unfolding step step_by state_end_value end_value_at
end_waits stack = refl

not_ended : some ScanState.skip_space ≡ some ScanState.end → ⊥
not_ended e = cc

rest_waits :
    {q : Step} (r : Resting q) (stack : List ParseState)
    → scan_from [] (at q (ParseState.array_value ∷ stack)) ≡ some ScanState.skip_space
unfolding scan_from eof eof_by
rest_waits r stack = rw (rest_step r ParseState.array_value stack b' ' refl) (end_waits stack)

-- Behind an element the scanner waits for more of the array.
after_waits :
    (v : Value) (stack : List ParseState)
    → scan_from [] (after v (ParseState.array_value ∷ stack)) ≡ some ScanState.skip_space
after_waits (numeric n) = rest_waits (resting_number n)
after_waits true_word = rest_waits ended
after_waits false_word = rest_waits ended
after_waits null_word = rest_waits ended
after_waits (text _) = rest_waits ended
after_waits (empty_array _) = rest_waits ended
after_waits (empty_object _) = rest_waits ended
after_waits (array _ _ _ _) = rest_waits ended
after_waits (object _ _ _ _ _ _ _) = rest_waits ended

-- An array that is cut off behind its first element.
abbrev pub unclosed : List Space → Value → List ℕ
unclosed before v = b'[' ∷ (spaces before ++ value v)

feed-unclosed :
    (before : List Space) (v : Value)
    → feed (unclosed before v) new ≡ some (after v (ParseState.array_value ∷ []))
unfolding feed
feed-unclosed before v = rw (open_array required []) (
    feed-append (spaces before) (value v) _
      (feed-spaces Step.begin_value_or_empty _ before (optional_skips _))
      (feed-value optional v (ParseState.array_value ∷ [])))

scan-unclosed :
    (before : List Space) (v : Value) → scan (unclosed before v) ≡ some ScanState.skip_space
unfolding scan
scan-unclosed before v =
    ap (λ bytes. scan_from bytes new) (sym (append-nil (unclosed before v)))
    ∙ (scan_from-feed (unclosed before v) [] new (feed-unclosed before v) ∙ after_waits v [])

-- `valid` accepts an array that is cut off behind its first element, though it is no text of the
-- grammar.
pub valid-unclosed :
    (before : List Space) (v : Value)
    → (valid (unclosed before v) ≡ some true) × ((d : Document) → render d ≢ unclosed before v)
unfolding valid
valid-unclosed before v = (
  rw (scan-unclosed before v) refl,
  λ d e. not_ended (sym (scan-unclosed before v) ∙ (scan_iff (unclosed before v)).1 (d, e)),
)
