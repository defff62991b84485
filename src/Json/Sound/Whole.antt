-- ===== src/Json/Sound/Whole.antt =====
-- The scanner on the bytes of a whole text.
use couchbase_rs.Json.{
  ScanState, ParseState, Step, state_begin_value, state_end_value, end_value_at, state0, state1,
  state_dot0, state_e0, state_begin_value_or_empty, state_begin_string_or_empty, state_begin_string,
  state_in_string, state_in_string_esc, state_hex, state_neg, state_dot, state_e, state_e_sign,
  state_word,
}
use couchbase_rs.Json.Run.{step, step_by, answer_of, eof, eof_by, scan, scan_from}
use couchbase_rs.Json.Feed.{at}
use couchbase_rs.Json.Grammar.{
  Space, spaces, Value, value, Document, document, render, integral, unscaled, Char, digits,
}
use couchbase_rs.Json.Meaning.{
  Tail, Then, then_, empty, spaced, Hex, behind_whole, behind_leading, behind_decimal, hex4, hex3,
  hex2, hex1, Meaning, Ends,
}
use couchbase_rs.Json.Accepts.{scan-render}
use couchbase_rs.Json.Sound.Tails.{Known, container_step, top_step}
use couchbase_rs.Json.Sound.Literals.{word_step, word_end, string_step, escape_step, hex_step}
use couchbase_rs.Json.Sound.Numbers.{
  zero_step, one_step, dot_step, dot0_step, sign_step, e0_step, e_step, neg_step,
}
use couchbase_rs.Json.Sound.Values.{
  begin_value_step, begin_value_or_empty_step, begin_string_step, begin_string_or_empty_step,
}
use couchbase_rs.Prelude.{
  ℕ, Bool, true, false, ap, sym, ◌∙◌, append_assoc, List, [], ◌∷◌, some, ◌≡◌, refl, ◌↔◌,
}

-- A byte.
step-Meaning :
    {bytes : List ℕ} (known : Known bytes) (c : ℕ) (q : Step) (stack : List ParseState)
    → Ends (c ∷ bytes) (at q stack)
    → Meaning q stack (c ∷ bytes)
unfolding scan_from step step_by Meaning
step-Meaning known c Step.begin_value stack e = begin_value_step known c stack e
step-Meaning known c Step.begin_value_or_empty [] e = tt
step-Meaning known c Step.begin_value_or_empty (ParseState.array_value ∷ stack) e =
    begin_value_or_empty_step known c stack e
step-Meaning known c Step.begin_value_or_empty (ParseState.object_key ∷ stack) e = tt
step-Meaning known c Step.begin_value_or_empty (ParseState.object_value ∷ stack) e = tt
step-Meaning known c Step.begin_string_or_empty [] e = tt
step-Meaning known c Step.begin_string_or_empty (ParseState.array_value ∷ stack) e = tt
step-Meaning known c Step.begin_string_or_empty (ParseState.object_key ∷ stack) e =
    begin_string_or_empty_step known c stack e
step-Meaning known c Step.begin_string_or_empty (ParseState.object_value ∷ stack) e = tt
step-Meaning known c Step.begin_string stack e = begin_string_step known c stack e
step-Meaning known c Step.end_value stack e = container_step known Step.end_value stack c e
step-Meaning known c Step.end_top stack e = tt
step-Meaning known c Step.in_string stack e = string_step known stack c e
step-Meaning known c Step.in_string_esc stack e = escape_step known stack c e
step-Meaning {bytes} known c Step.in_string_esc_u stack e =
    hex_step bytes Step.in_string_esc_u Step.in_string_esc_u1 stack c hex4
      (λ x (a : Hex × Hex × Hex × List Char). (x, a.0, a.1, a.2, a.3)) (λ x a. refl)
      (known.inside Step.in_string_esc_u1 stack) e
step-Meaning {bytes} known c Step.in_string_esc_u1 stack e =
    hex_step bytes Step.in_string_esc_u1 Step.in_string_esc_u12 stack c hex3
      (λ x (a : Hex × Hex × List Char). (x, a.0, a.1, a.2)) (λ x a. refl)
      (known.inside Step.in_string_esc_u12 stack) e
step-Meaning {bytes} known c Step.in_string_esc_u12 stack e =
    hex_step bytes Step.in_string_esc_u12 Step.in_string_esc_u123 stack c hex2
      (λ x (a : Hex × List Char). (x, a.0, a.1)) (λ x a. refl)
      (known.inside Step.in_string_esc_u123 stack) e
step-Meaning {bytes} known c Step.in_string_esc_u123 stack e =
    hex_step bytes Step.in_string_esc_u123 Step.in_string stack c hex1
      (λ x (cs : List Char). (x, cs)) (λ x a. refl) (known.inside Step.in_string stack) e
step-Meaning known c Step.neg stack e = neg_step known stack c e
step-Meaning known c Step.one stack e = one_step known stack c e
step-Meaning known c Step.zero stack e = zero_step known stack c Step.zero e
step-Meaning known c Step.dot stack e = dot_step known stack c e
step-Meaning known c Step.dot0 stack e = dot0_step known stack c e
step-Meaning known c Step.e stack e = e_step known stack c e
step-Meaning known c Step.e_sign stack e = sign_step known stack c Step.e_sign e
step-Meaning known c Step.e0 stack e = e0_step known stack c e
step-Meaning {bytes} known c Step.t stack e =
    word_step bytes Step.t Step.tr stack c b'r' "in literal true (expecting 'r')" _
      (known.inside Step.tr stack) e
step-Meaning {bytes} known c Step.tr stack e =
    word_step bytes Step.tr Step.tru stack c b'u' "in literal true (expecting 'u')" _
      (known.inside Step.tru stack) e
step-Meaning known c Step.tru stack e =
    word_end known Step.tru stack c b'e' "in literal true (expecting 'e')" e
step-Meaning {bytes} known c Step.f stack e =
    word_step bytes Step.f Step.fa stack c b'a' "in literal false (expecting 'a')" _
      (known.inside Step.fa stack) e
step-Meaning {bytes} known c Step.fa stack e =
    word_step bytes Step.fa Step.fal stack c b'l' "in literal false (expecting 'l')" _
      (known.inside Step.fal stack) e
step-Meaning {bytes} known c Step.fal stack e =
    word_step bytes Step.fal Step.fals stack c b's' "in literal false (expecting 's')" _
      (known.inside Step.fals stack) e
step-Meaning known c Step.fals stack e =
    word_end known Step.fals stack c b'e' "in literal false (expecting 'e')" e
step-Meaning {bytes} known c Step.n stack e =
    word_step bytes Step.n Step.nu stack c b'u' "in literal null (expecting 'u')" _
      (known.inside Step.nu stack) e
step-Meaning {bytes} known c Step.nu stack e =
    word_step bytes Step.nu Step.nul stack c b'l' "in literal null (expecting 'l')" _
      (known.inside Step.nul stack) e
step-Meaning known c Step.nul stack e =
    word_end known Step.nul stack c b'l' "in literal null (expecting 'l')" e
step-Meaning known c Step.failed stack e = tt

is_end : ScanState → Bool
is_end ScanState.end = true
is_end _ = false

otherwise :
    {A : Type 0} (answer : ScanState) → is_end answer ≡ false → some answer ≡ some ScanState.end → A
unfolding is_end
otherwise answer p e = absurd (
    let ends : answer ≡ ScanState.end = cc in
    let no : true ≡ false = ap is_end (sym ends) ∙ p in cc)

-- Where the value of the whole text may end.
nothing_left : Tail [] []
unfolding Tail
nothing_left = ([], refl)

number_meaning :
    {B : Type 0} (h : B → List ℕ) (b : B) (stack : List ParseState)
    → h b ≡ []
    → Ends [] (at Step.end_value stack)
    → Then B h stack []
unfolding scan_from eof eof_by step step_by state_end_value end_value_at is_end
number_meaning h b [] p e = empty [] h b p nothing_left
number_meaning h b (ParseState.array_value ∷ stack) p e = otherwise ScanState.skip_space refl e
number_meaning h b (ParseState.object_key ∷ stack) p e = otherwise ScanState.skip_space refl e
number_meaning h b (ParseState.object_value ∷ stack) p e = otherwise ScanState.skip_space refl e

eof_answer : (stack : List ParseState) → Ends [] (at Step.end_value stack) → Tail stack []
unfolding scan_from eof eof_by step step_by state_end_value end_value_at is_end
eof_answer [] e = nothing_left
eof_answer (ParseState.array_value ∷ stack) e = otherwise ScanState.skip_space refl e
eof_answer (ParseState.object_key ∷ stack) e = otherwise ScanState.skip_space refl e
eof_answer (ParseState.object_value ∷ stack) e = otherwise ScanState.skip_space refl e

-- A space ends a number as it ends any value.
number_eof :
    (q : Step) (stack : List ParseState)
    → answer_of (some (state_end_value (at q stack) b' ')) ≡ some ScanState.end
    → Ends [] (at Step.end_value stack)
unfolding scan_from eof eof_by step step_by state_end_value end_value_at
number_eof q [] e = e
number_eof q (ParseState.array_value ∷ stack) e = e
number_eof q (ParseState.object_key ∷ stack) e = e
number_eof q (ParseState.object_value ∷ stack) e = e

-- No byte is left.
eof-Meaning : (q : Step) (stack : List ParseState) → Ends [] (at q stack) → Meaning q stack []
unfolding scan_from eof eof_by step step_by Meaning is_end state_begin_value
    state_begin_value_or_empty state_begin_string_or_empty state_begin_string state_in_string
    state_in_string_esc state_hex state_neg state_dot state_e state_e_sign state_word state0 state1
    state_dot0 state_e0 state_end_value end_value_at
eof-Meaning Step.begin_value stack e = otherwise ScanState.skip_space refl e
eof-Meaning Step.begin_value_or_empty [] e = tt
eof-Meaning Step.begin_value_or_empty (ParseState.array_value ∷ stack) e =
    otherwise ScanState.skip_space refl e
eof-Meaning Step.begin_value_or_empty (ParseState.object_key ∷ stack) e = tt
eof-Meaning Step.begin_value_or_empty (ParseState.object_value ∷ stack) e = tt
eof-Meaning Step.begin_string_or_empty [] e = tt
eof-Meaning Step.begin_string_or_empty (ParseState.array_value ∷ stack) e = tt
eof-Meaning Step.begin_string_or_empty (ParseState.object_key ∷ stack) e =
    otherwise ScanState.skip_space refl e
eof-Meaning Step.begin_string_or_empty (ParseState.object_value ∷ stack) e = tt
eof-Meaning Step.begin_string stack e = otherwise ScanState.skip_space refl e
eof-Meaning Step.end_value stack e = eof_answer stack e
eof-Meaning Step.end_top stack e = tt
eof-Meaning Step.in_string stack e = otherwise ScanState.continue refl e
eof-Meaning Step.in_string_esc stack e = otherwise ScanState.error refl e
eof-Meaning Step.in_string_esc_u stack e = otherwise ScanState.error refl e
eof-Meaning Step.in_string_esc_u1 stack e = otherwise ScanState.error refl e
eof-Meaning Step.in_string_esc_u12 stack e = otherwise ScanState.error refl e
eof-Meaning Step.in_string_esc_u123 stack e = otherwise ScanState.error refl e
eof-Meaning Step.neg stack e = otherwise ScanState.error refl e
eof-Meaning Step.one stack e =
    number_meaning behind_leading ([], integral, unscaled) stack refl (number_eof Step.one stack e)
eof-Meaning Step.zero stack e =
    number_meaning behind_whole (integral, unscaled) stack refl (number_eof Step.zero stack e)
eof-Meaning Step.dot stack e = otherwise ScanState.error refl e
eof-Meaning Step.dot0 stack e =
    number_meaning behind_decimal ([], unscaled) stack refl (number_eof Step.dot0 stack e)
eof-Meaning Step.e stack e = otherwise ScanState.error refl e
eof-Meaning Step.e_sign stack e = otherwise ScanState.error refl e
eof-Meaning Step.e0 stack e = number_meaning digits [] stack refl (number_eof Step.e0 stack e)
eof-Meaning Step.t stack e = otherwise ScanState.error refl e
eof-Meaning Step.tr stack e = otherwise ScanState.error refl e
eof-Meaning Step.tru stack e = otherwise ScanState.error refl e
eof-Meaning Step.f stack e = otherwise ScanState.error refl e
eof-Meaning Step.fa stack e = otherwise ScanState.error refl e
eof-Meaning Step.fal stack e = otherwise ScanState.error refl e
eof-Meaning Step.fals stack e = otherwise ScanState.error refl e
eof-Meaning Step.n stack e = otherwise ScanState.error refl e
eof-Meaning Step.nu stack e = otherwise ScanState.error refl e
eof-Meaning Step.nul stack e = otherwise ScanState.error refl e
eof-Meaning Step.failed stack e = tt

bytes-Known : (bytes : List ℕ) → Known bytes
unfolding scan_from step step_by
bytes-Known [] = record { inside = eof-Meaning; on_top = λ _. nothing_left }
bytes-Known (c ∷ bytes) = record {
  inside = step-Meaning (bytes-Known bytes) c;
  on_top = λ e. top_step (bytes-Known bytes) c e;
}

document_of :
    (bytes : List ℕ)
    → Then (List Space × Value) spaced [] bytes
    → (d : Document) × (render d ≡ bytes)
unfolding render Tail
document_of bytes (then_ (before, v) rest e (behind, q)) = (
  document before v behind,
  (rw (e, q) (sym (append_assoc (spaces before) (value v) (spaces behind)))),
)

-- The scanner answers at the end of its input that the value has ended exactly on the texts of the
-- grammar.
pub scan_iff :
    (bytes : List ℕ) → (scan bytes ≡ some ScanState.end) ↔ ((d : Document) × (render d ≡ bytes))
unfolding scan Meaning
scan_iff bytes = (
  λ e. document_of bytes ((bytes-Known bytes).inside Step.begin_value [] e),
  λ d. ap scan (sym d.1) ∙ scan-render d.0,
)
