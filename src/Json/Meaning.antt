-- ===== src/Json/Meaning.antt =====
-- What a state of the scanner of sdk/couchbase-core/src/httpx/scanner.rs still wants, by the
-- grammar: the rest of a value that has begun, and then what its containers want.
use couchbase_rs.Json.{
  Scanner, ScanState, ParseState, Step, Stepped, is_ascii_hexdigit, is_short_escape,
}
use couchbase_rs.Json.Run.{unless_error, scan_from}
use couchbase_rs.Json.Grammar.{
  Space, spaces, Char, chars, quoted, Digit, digit_byte, digits, Whole, Fraction, fraction,
  Exponent, exponent, Sign, sign, unsigned_number, Value, value, Elements, elements, Members,
  members,
}
use couchbase_rs.Prelude.{
  ℕ, Bool, true, false, List, [], ◌∷◌, ◌++◌, some, ◌≡◌, refl, sym, append_assoc, if◌then◌else◌,
}

-- A member of an object behind its key.
abbrev pub Membership : Type 0
Membership = List Space × List Space × Value × List Space × Members

abbrev pub membership : Membership → List ℕ
membership (gap, before_value, v, behind, ms) =
    spaces gap ++ (b':' ∷ (spaces before_value ++ (value v ++ (spaces behind ++ members ms))))

-- What a container wants behind a value or a key in it.
abbrev pub Follow : ParseState → Type 0
Follow ParseState.array_value = List Space × Elements
Follow ParseState.object_value = List Space × Members
Follow ParseState.object_key = Membership

abbrev pub follow : (p : ParseState) → Follow p → List ℕ
follow ParseState.array_value (ws, es) = spaces ws ++ elements es
follow ParseState.object_value (ws, ms) = spaces ws ++ members ms
follow ParseState.object_key m = membership m

-- The bytes behind a value at a stack.
unfoldable pub Tail : List ParseState → List ℕ → Type 0
Tail [] bytes = (ws : List Space) × (bytes ≡ spaces ws)
Tail (p ∷ stack) bytes =
    (a : Follow p) × (rest : List ℕ) × (bytes ≡ follow p a ++ rest) × Tail stack rest

-- A part of a value that is left, and the bytes behind it.
pub data Then (A : Type 0) (f : A → List ℕ) (stack : List ParseState) (bytes : List ℕ)
    : Type 0 where
  then_ : (a : A) (rest : List ℕ) → bytes ≡ f a ++ rest → Tail stack rest → Then A f stack bytes

-- One byte in front.
pub extend :
    {A B : Type 0} {f : A → List ℕ} {stack : List ParseState} {bytes : List ℕ} (c k : ℕ)
    (h : B → List ℕ) (g : A → B)
    → ((a : A) → h (g a) ≡ k ∷ f a)
    → c ≡ k
    → Then A f stack bytes
    → Then B h stack (c ∷ bytes)
extend c k h g e q (then_ a rest p t) = then_ (g a) rest (rw (e a, q, p) refl) t

-- The last byte of the part.
pub finish :
    {B : Type 0} {stack : List ParseState} {bytes : List ℕ} (c k : ℕ) (h : B → List ℕ) (b : B)
    → h b ≡ k ∷ []
    → c ≡ k
    → Tail stack bytes
    → Then B h stack (c ∷ bytes)
finish {bytes = bytes} c k h b e q t = then_ b bytes (rw (e, q) refl) t

-- Nothing is left of the part.
pub empty :
    {B : Type 0} {stack : List ParseState} (bytes : List ℕ) (h : B → List ℕ) (b : B)
    → h b ≡ []
    → Tail stack bytes
    → Then B h stack bytes
empty bytes h b e t = then_ b bytes (rw e refl) t

-- A part and what its container wants behind it are a part of the container.
pub join :
    {A B : Type 0} {f : A → List ℕ} {p : ParseState} {stack : List ParseState} {bytes : List ℕ}
    (h : B → List ℕ) (g : A → Follow p → B)
    → ((a : A) (b : Follow p) → h (g a b) ≡ f a ++ follow p b)
    → Then A f (p ∷ stack) bytes
    → Then B h stack bytes
unfolding Tail
join {f = f} {p} h g e (then_ a rest q (b, rest2, q2, t)) =
    then_ (g a b) rest2 (rw (e a b, q, q2) (sym (append_assoc (f a) (follow p b) rest2))) t

abbrev pub spaced : List Space × Value → List ℕ
spaced (ws, v) = spaces ws ++ value v

abbrev pub closing : List Char → List ℕ
closing cs = chars cs ++ (b'"' ∷ [])

abbrev pub spaced_key : List Space × List Char → List ℕ
spaced_key (ws, cs) = spaces ws ++ quoted cs

-- An array behind its bracket, and an object behind its brace.
pub data ArrayBody : Type 0 where
  bare : List Space → ArrayBody
  full : List Space → Value → List Space → Elements → ArrayBody

abbrev pub array_body : ArrayBody → List ℕ
array_body (ArrayBody.bare ws) = spaces ws ++ (b']' ∷ [])
array_body (ArrayBody.full before v behind es) =
    spaces before ++ (value v ++ (spaces behind ++ elements es))

pub data ObjectBody : Type 0 where
  bare : List Space → ObjectBody
  full : List Space → List Char → Membership → ObjectBody

abbrev pub object_body : ObjectBody → List ℕ
object_body (ObjectBody.bare ws) = spaces ws ++ (b'}' ∷ [])
object_body (ObjectBody.full before key m) = spaces before ++ (quoted key ++ membership m)

pub data Hex : Type 0 where
  hex : (c : ℕ) → is_ascii_hexdigit c ≡ true → Hex

abbrev pub hex_byte : Hex → ℕ
hex_byte (hex c _) = c

-- An escape behind its backslash.
pub data Escape : Type 0 where
  short : (c : ℕ) → is_short_escape c ≡ true → Escape
  long : Hex → Hex → Hex → Hex → Escape

abbrev pub escape_bytes : Escape → List ℕ
escape_bytes (short c _) = c ∷ []
escape_bytes (long a b c d) = b'u' ∷ hex_byte a ∷ hex_byte b ∷ hex_byte c ∷ hex_byte d ∷ []

abbrev pub escaped : Escape × List Char → List ℕ
escaped (x, cs) = escape_bytes x ++ closing cs

abbrev pub hex4 : Hex × Hex × Hex × Hex × List Char → List ℕ
hex4 (a, b, c, d, cs) = hex_byte a ∷ hex_byte b ∷ hex_byte c ∷ hex_byte d ∷ closing cs

abbrev pub hex3 : Hex × Hex × Hex × List Char → List ℕ
hex3 (b, c, d, cs) = hex_byte b ∷ hex_byte c ∷ hex_byte d ∷ closing cs

abbrev pub hex2 : Hex × Hex × List Char → List ℕ
hex2 (c, d, cs) = hex_byte c ∷ hex_byte d ∷ closing cs

abbrev pub hex1 : Hex × List Char → List ℕ
hex1 (d, cs) = hex_byte d ∷ closing cs

abbrev pub behind_minus : Whole × Fraction × Exponent → List ℕ
behind_minus (w, f, x) = unsigned_number w f x

abbrev pub behind_whole : Fraction × Exponent → List ℕ
behind_whole (f, x) = fraction f ++ exponent x

abbrev pub behind_leading : List Digit × Fraction × Exponent → List ℕ
behind_leading (ds, f, x) = digits ds ++ (fraction f ++ exponent x)

abbrev pub behind_point : Digit × List Digit × Exponent → List ℕ
behind_point (d, ds, x) = digit_byte d ∷ (digits ds ++ exponent x)

abbrev pub behind_decimal : List Digit × Exponent → List ℕ
behind_decimal (ds, x) = digits ds ++ exponent x

abbrev pub behind_mark : Sign × Digit × List Digit → List ℕ
behind_mark (s, d, ds) = sign s ++ (digit_byte d ∷ digits ds)

abbrev pub behind_sign : Digit × List Digit → List ℕ
behind_sign (d, ds) = digit_byte d ∷ digits ds

abbrev pub word : List ℕ → Unit {0} → List ℕ
word w _ = w

-- What the states want. The two states behind an opening bracket stand at the stack that it made.
unfoldable pub Meaning : Step → List ParseState → List ℕ → Type 0
unfolding Tail
Meaning Step.begin_value stack = Then (List Space × Value) spaced stack
Meaning Step.begin_value_or_empty (ParseState.array_value ∷ stack) = Then ArrayBody array_body stack
Meaning Step.begin_value_or_empty _ = λ bytes. Unit {0}
Meaning Step.begin_string_or_empty (ParseState.object_key ∷ stack) =
    Then ObjectBody object_body stack
Meaning Step.begin_string_or_empty _ = λ bytes. Unit {0}
Meaning Step.begin_string stack = Then (List Space × List Char) spaced_key stack
Meaning Step.end_value stack = Tail stack
Meaning Step.end_top stack = λ bytes. Unit {0}
Meaning Step.in_string stack = Then (List Char) closing stack
Meaning Step.in_string_esc stack = Then (Escape × List Char) escaped stack
Meaning Step.in_string_esc_u stack = Then (Hex × Hex × Hex × Hex × List Char) hex4 stack
Meaning Step.in_string_esc_u1 stack = Then (Hex × Hex × Hex × List Char) hex3 stack
Meaning Step.in_string_esc_u12 stack = Then (Hex × Hex × List Char) hex2 stack
Meaning Step.in_string_esc_u123 stack = Then (Hex × List Char) hex1 stack
Meaning Step.neg stack = Then (Whole × Fraction × Exponent) behind_minus stack
Meaning Step.one stack = Then (List Digit × Fraction × Exponent) behind_leading stack
Meaning Step.zero stack = Then (Fraction × Exponent) behind_whole stack
Meaning Step.dot stack = Then (Digit × List Digit × Exponent) behind_point stack
Meaning Step.dot0 stack = Then (List Digit × Exponent) behind_decimal stack
Meaning Step.e stack = Then (Sign × Digit × List Digit) behind_mark stack
Meaning Step.e_sign stack = Then (Digit × List Digit) behind_sign stack
Meaning Step.e0 stack = Then (List Digit) digits stack
Meaning Step.t stack = Then (Unit {0}) (word (b'r' ∷ b'u' ∷ b'e' ∷ [])) stack
Meaning Step.tr stack = Then (Unit {0}) (word (b'u' ∷ b'e' ∷ [])) stack
Meaning Step.tru stack = Then (Unit {0}) (word (b'e' ∷ [])) stack
Meaning Step.f stack = Then (Unit {0}) (word (b'a' ∷ b'l' ∷ b's' ∷ b'e' ∷ [])) stack
Meaning Step.fa stack = Then (Unit {0}) (word (b'l' ∷ b's' ∷ b'e' ∷ [])) stack
Meaning Step.fal stack = Then (Unit {0}) (word (b's' ∷ b'e' ∷ [])) stack
Meaning Step.fals stack = Then (Unit {0}) (word (b'e' ∷ [])) stack
Meaning Step.n stack = Then (Unit {0}) (word (b'u' ∷ b'l' ∷ b'l' ∷ [])) stack
Meaning Step.nu stack = Then (Unit {0}) (word (b'l' ∷ b'l' ∷ [])) stack
Meaning Step.nul stack = Then (Unit {0}) (word (b'l' ∷ [])) stack
Meaning Step.failed stack = λ bytes. Unit {0}

-- The scanner ends on these bytes.
abbrev pub Ends : List ℕ → Scanner → Type 0
Ends bytes s = scan_from bytes s ≡ some ScanState.end

-- It ends on these bytes behind a step.
abbrev pub StepEnds : List ℕ → Stepped → Type 0
StepEnds bytes o = unless_error (some o) (scan_from bytes) ≡ some ScanState.end

-- A step that tests a byte.
pub branch :
    {P : Type 0} (b : Bool) (bytes : List ℕ) (x y : Stepped)
    → (b ≡ true → StepEnds bytes x → P)
    → (b ≡ false → StepEnds bytes y → P)
    → StepEnds bytes (if b then x else y)
    → P
branch true bytes x y f g e = f refl e
branch false bytes x y f g e = g refl e
