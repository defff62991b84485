-- ===== src/Json/Sound/Values.antt =====
-- The scanner where a value or a key may begin.
use couchbase_rs.Json.{
  Scanner, ParseState, Step, ScanState, Stepped, is_ascii_whitespace, is_ascii_digit,
  state_begin_value, state_begin_value_or_empty, state_begin_string, state_begin_string_or_empty,
  state_end_value, end_value_at, empty_object,
}
use couchbase_rs.Json.Run.{unless_error, scan_from}
use couchbase_rs.Json.Feed.{at}
use couchbase_rs.Json.Grammar.{
  Space, space_byte, spaces, Char, quoted, Digit, leading, naught, Whole, Fraction, Exponent,
  positive, negative, Value, value, Elements, true_word, false_word, null_word, numeric, text,
  array, object,
}
use couchbase_rs.Json.Meaning.{
  Tail, Then, then_, extend, finish, join, spaced, spaced_key, ArrayBody, array_body, ObjectBody,
  object_body, Membership, membership, Meaning, Ends, StepEnds, branch,
}
use couchbase_rs.Json.Sound.Tails.{Known, same, refused, space_of, popped-Tail}
use couchbase_rs.Json.Sound.Numbers.{leading_of}
use mathlib.Core.Path.{subst}
use couchbase_rs.Prelude.{
  ℕ, ◌+◌, Bool, true, false, List, [], ◌∷◌, some, ◌≡◌, refl, sym, ◌∙◌, Bool-cases, inl, inr, ◌==◌,
  if◌then◌else◌, append_assoc,
}

array_of : ArrayBody → Value
array_of (ArrayBody.bare ws) = Value.empty_array ws
array_of (ArrayBody.full before v behind es) = array before v behind es

value-array_of : (a : ArrayBody) → value (array_of a) ≡ b'[' ∷ array_body a
unfolding value array_of
value-array_of (ArrayBody.bare ws) = refl
value-array_of (ArrayBody.full before v behind es) = refl

object_of : ObjectBody → Value
object_of (ObjectBody.bare ws) = Value.empty_object ws
object_of (ObjectBody.full before key (gap, before_value, v, behind, ms)) =
    object before key gap before_value v behind ms

value-object_of : (a : ObjectBody) → value (object_of a) ≡ b'{' ∷ object_body a
unfolding value object_of
value-object_of (ObjectBody.bare ws) = refl
value-object_of (ObjectBody.full before key (gap, before_value, v, behind, ms)) = refl

array_spaced : Space → ArrayBody → ArrayBody
array_spaced w (ArrayBody.bare ws) = ArrayBody.bare (w ∷ ws)
array_spaced w (ArrayBody.full before v behind es) = ArrayBody.full (w ∷ before) v behind es

array_body-array_spaced :
    (w : Space) (a : ArrayBody) → array_body (array_spaced w a) ≡ space_byte w ∷ array_body a
unfolding array_spaced
array_body-array_spaced w (ArrayBody.bare ws) = refl
array_body-array_spaced w (ArrayBody.full before v behind es) = refl

object_spaced : Space → ObjectBody → ObjectBody
object_spaced w (ObjectBody.bare ws) = ObjectBody.bare (w ∷ ws)
object_spaced w (ObjectBody.full before key m) = ObjectBody.full (w ∷ before) key m

object_body-object_spaced :
    (w : Space) (a : ObjectBody) → object_body (object_spaced w a) ≡ space_byte w ∷ object_body a
unfolding object_spaced
object_body-object_spaced w (ObjectBody.bare ws) = refl
object_body-object_spaced w (ObjectBody.full before key m) = refl

-- A bracket or a brace that closes an empty container.
array_closed :
    {bytes : List ℕ} (known : Known bytes) (q : Step) (stack : List ParseState) (c : ℕ)
    → c ≡ b']'
    → StepEnds bytes (state_end_value (at q (ParseState.array_value ∷ stack)) c)
    → Tail stack bytes
unfolding state_end_value end_value_at
array_closed {bytes} known q stack c p e = popped-Tail known q ParseState.array_value stack (
    subst (λ (x : ℕ). StepEnds bytes (state_end_value (at q (ParseState.array_value ∷ stack)) x)) p
      e)

object_closed :
    {bytes : List ℕ} (known : Known bytes) (q : Step) (stack : List ParseState) (c : ℕ)
    → c ≡ b'}'
    → StepEnds bytes (state_end_value (at q (ParseState.object_value ∷ stack)) c)
    → Tail stack bytes
unfolding state_end_value end_value_at
object_closed {bytes} known q stack c p e = popped-Tail known q ParseState.object_value stack (
    subst (λ (x : ℕ). StepEnds bytes (state_end_value (at q (ParseState.object_value ∷ stack)) x)) p
      e)

unspaced :
    {stack : List ParseState} {bytes : List ℕ}
    → Then Value value stack bytes
    → Then (List Space × Value) spaced stack bytes
unspaced (then_ v rest e t) = then_ ([], v) rest e t

value_skipped :
    (c : ℕ) (bytes : List ℕ) (q : Step) (stack : List ParseState)
    → is_ascii_whitespace c ≡ true
    → StepEnds bytes (state_begin_value (at q stack) c)
    → Ends bytes (at q stack)
unfolding state_begin_value
value_skipped c bytes q stack b =
    branch (is_ascii_whitespace c) bytes _ _ (λ _ e. e)
      (λ w _. absurd (let no : true ≡ false = sym b ∙ w in cc))

module _ {bytes : List ℕ} (known : Known bytes) (c : ℕ) where
  -- The first byte of a value.
  value_step :
      (q : Step) (stack : List ParseState)
      → is_ascii_whitespace c ≡ false
      → StepEnds bytes (state_begin_value (at q stack) c)
      → Then Value value stack (c ∷ bytes)
  unfolding state_begin_value Meaning value
  value_step q stack w =
      branch (is_ascii_whitespace c) bytes _ _
        (λ b _. absurd (let no : true ≡ false = sym b ∙ w in cc))
        (λ _.
          branch (c == b'{') bytes _ _
            (λ b e.
              extend c b'{' value object_of value-object_of (same c b'{' b)
                (known.inside Step.begin_string_or_empty (ParseState.object_key ∷ stack) e))
            (λ _.
              branch (c == b'[') bytes _ _
                (λ b e.
                  extend c b'[' value array_of value-array_of (same c b'[' b)
                    (known.inside Step.begin_value_or_empty (ParseState.array_value ∷ stack) e))
                (λ _.
                  branch (c == b'"') bytes _ _
                    (λ b e.
                      extend c b'"' value (λ (cs : List Char). text cs) (λ a. refl) (same c b'"' b)
                        (known.inside Step.in_string stack e))
                    (λ _.
                      branch (c == b'-') bytes _ _
                        (λ b e.
                          extend c b'-' value
                            (λ (a : Whole × Fraction × Exponent). numeric (negative a.0 a.1 a.2))
                            (λ a. refl) (same c b'-' b) (known.inside Step.neg stack e))
                        (λ z.
                          branch (c == b'0') bytes _ _
                            (λ b e.
                              extend c b'0' value
                                (λ (a : Fraction × Exponent). numeric (positive naught a.0 a.1))
                                (λ a. refl) (same c b'0' b) (known.inside Step.zero stack e))
                            (λ z.
                              branch (c == b't') bytes _ _
                                (λ b e.
                                  extend c b't' value (λ (u : Unit {0}). true_word) (λ a. refl)
                                    (same c b't' b) (known.inside Step.t stack e))
                                (λ _.
                                  branch (c == b'f') bytes _ _
                                    (λ b e.
                                      extend c b'f' value (λ (u : Unit {0}). false_word) (λ a. refl)
                                        (same c b'f' b) (known.inside Step.f stack e))
                                    (λ _.
                                      branch (c == b'n') bytes _ _
                                        (λ b e.
                                          extend c b'n' value (λ (u : Unit {0}). null_word)
                                            (λ a. refl) (same c b'n' b)
                                            (known.inside Step.n stack e))
                                        (λ _.
                                          branch (is_ascii_digit c) bytes _ _
                                            (λ b e.
                                              let (n, l, p) = leading_of c z b in
                                              extend c (49 + n) value
                                                (λ (a : List Digit × Fraction × Exponent).
                                                  numeric (positive (leading n l a.0) a.1 a.2))
                                                (λ a. refl) p (known.inside Step.one stack e))
                                            (λ _ e. absurd (refused e)))))))))))

  -- The same behind white space.
  pub begin_value_step :
      (stack : List ParseState)
      → StepEnds bytes (state_begin_value (at Step.begin_value stack) c)
      → Then (List Space × Value) spaced stack (c ∷ bytes)
  unfolding Meaning
  begin_value_step stack e = elim (Bool-cases (is_ascii_whitespace c)) [
    | inl b ↦
        let (w, q) = space_of c b in
        extend c (space_byte w) spaced (λ (a : List Space × Value). (w ∷ a.0, a.1)) (λ a. refl) q
          (known.inside Step.begin_value stack (value_skipped c bytes Step.begin_value stack b e))
    | inr b ↦ unspaced (value_step Step.begin_value stack b e)
  ]

  -- Behind the bracket of an array.
  pub begin_value_or_empty_step :
      (stack : List ParseState)
      → StepEnds bytes (
          state_begin_value_or_empty
            (at Step.begin_value_or_empty (ParseState.array_value ∷ stack))
            c)
      → Then ArrayBody array_body stack (c ∷ bytes)
  unfolding state_begin_value_or_empty state_end_value end_value_at Meaning
  begin_value_or_empty_step stack =
      branch (is_ascii_whitespace c) bytes _ _
        (λ b e.
          let (w, q) = space_of c b in
          extend c (space_byte w) array_body (array_spaced w) (array_body-array_spaced w) q
            (known.inside Step.begin_value_or_empty (ParseState.array_value ∷ stack) e))
        (λ w.
          branch (c == b']') bytes _ _
            (λ b e.
              finish c b']' array_body (ArrayBody.bare []) refl (same c b']' b)
                (array_closed known Step.begin_value_or_empty stack c (same c b']' b) e))
            (λ _ e.
              join array_body (λ v (a : List Space × Elements). ArrayBody.full [] v a.0 a.1)
                (λ v a. refl)
                (value_step Step.begin_value_or_empty (ParseState.array_value ∷ stack) w e)))

  -- Where a key must begin.
  pub begin_string_step :
      (stack : List ParseState)
      → StepEnds bytes (state_begin_string (at Step.begin_string stack) c)
      → Then (List Space × List Char) spaced_key stack (c ∷ bytes)
  unfolding state_begin_string Meaning
  begin_string_step stack =
      branch (is_ascii_whitespace c) bytes _ _
        (λ b e.
          let (w, p) = space_of c b in
          extend c (space_byte w) spaced_key (λ (a : List Space × List Char). (w ∷ a.0, a.1))
            (λ a. refl) p (known.inside Step.begin_string stack e))
        (λ _.
          branch (c == b'"') bytes _ _
            (λ b e.
              extend c b'"' spaced_key (λ (cs : List Char). ([], cs)) (λ a. refl) (same c b'"' b)
                (known.inside Step.in_string stack e))
            (λ _ e. absurd (refused e)))

-- `state_begin_string_or_empty` where the stack has a key on top.
begin_first_key : Scanner → ℕ → List ParseState → Stepped
begin_first_key s c stack =
    if is_ascii_whitespace c
    then (s, ScanState.skip_space)
    else if c == b'}'
    then state_end_value (record s { parse_state = ParseState.object_value ∷ stack }) c
    else state_begin_string s c

unlifted :
    (b d : Bool) (x y z : Stepped)
    → (if b then some x else if d then some y else some z)
      ≡ some (if b then x else if d then y else z)
unlifted true d x y z = refl
unlifted false true x y z = refl
unlifted false false x y z = refl

first_key_lem :
    (stack : List ParseState) (c : ℕ)
    → state_begin_string_or_empty (at Step.begin_string_or_empty (ParseState.object_key ∷ stack)) c
      ≡ some
          (begin_first_key (at Step.begin_string_or_empty (ParseState.object_key ∷ stack)) c stack)
unfolding state_begin_string_or_empty empty_object begin_first_key
first_key_lem stack c = unlifted (is_ascii_whitespace c) (c == b'}') _ _ _

full_object :
    {stack : List ParseState} {bytes : List ℕ}
    → Then (List Space × List Char) spaced_key (ParseState.object_key ∷ stack) bytes
    → Then ObjectBody object_body stack bytes
full_object t =
    join object_body (λ (a : List Space × List Char) (m : Membership). ObjectBody.full a.0 a.1 m)
      (λ a m. sym (append_assoc (spaces a.0) (quoted a.1) (membership m))) t

-- Behind the brace of an object.
first_key_step :
    {bytes : List ℕ} (known : Known bytes) (c : ℕ) (stack : List ParseState)
    → StepEnds bytes
        (begin_first_key (at Step.begin_string_or_empty (ParseState.object_key ∷ stack)) c stack)
    → Then ObjectBody object_body stack (c ∷ bytes)
unfolding begin_first_key state_begin_string Meaning
first_key_step {bytes} known c stack =
    branch (is_ascii_whitespace c) bytes _ _
      (λ b e.
        let (w, q) = space_of c b in
        extend c (space_byte w) object_body (object_spaced w) (object_body-object_spaced w) q
          (known.inside Step.begin_string_or_empty (ParseState.object_key ∷ stack) e))
      (λ w.
        branch (c == b'}') bytes _ _
          (λ b e.
            finish c b'}' object_body (ObjectBody.bare []) refl (same c b'}' b)
              (object_closed known Step.begin_string_or_empty stack c (same c b'}' b) e))
          (λ _.
            branch (is_ascii_whitespace c) bytes _ _
              (λ b _. absurd (let no : true ≡ false = sym b ∙ w in cc))
              (λ _.
                branch (c == b'"') bytes _ _
                  (λ b e. full_object (
                    extend c b'"' spaced_key (λ (cs : List Char). ([], cs)) (λ a. refl)
                      (same c b'"' b)
                      (known.inside Step.in_string (ParseState.object_key ∷ stack) e)))
                  (λ _ e. absurd (refused e)))))

pub begin_string_or_empty_step :
    {bytes : List ℕ} (known : Known bytes) (c : ℕ) (stack : List ParseState)
    → unless_error
        (state_begin_string_or_empty
          (at Step.begin_string_or_empty (ParseState.object_key ∷ stack))
          c)
        (scan_from bytes)
      ≡ some ScanState.end
    → Then ObjectBody object_body stack (c ∷ bytes)
begin_string_or_empty_step {bytes} known c stack e =
    first_key_step known c stack
      (subst (λ o. unless_error o (scan_from bytes) ≡ some ScanState.end) (first_key_lem stack c) e)
