-- ===== src/Json/Grammar.antt =====
-- The JSON texts of RFC 8259 as trees of concrete syntax, white space included, and their bytes:
-- an independent description of what sdk/couchbase-core/src/httpx/scanner.rs accepts. A string
-- holds any bytes from 0x20 on, since the scanner does not look at the encoding.
use couchbase_rs.Json.{is_ascii_hexdigit, is_short_escape}
use couchbase_rs.Prelude.{
  ℕ, ◌+◌, ◌<◌, Bool, true, not, ◌&&◌, List, [], ◌∷◌, ◌++◌, map, ◌≡◌, leb, ◌==◌,
}

-- Form feeds are white space for the scanner, beyond the RFC.
pub data Space : Type 0 where
  space tab line_feed form_feed carriage_return : Space

abbrev pub space_byte : Space → ℕ
space_byte space = 32
space_byte tab = 9
space_byte line_feed = 10
space_byte form_feed = 12
space_byte carriage_return = 13

abbrev pub spaces : List Space → List ℕ
spaces = map space_byte

abbrev pub is_plain : ℕ → Bool
is_plain c = leb 0x20 c && (not (c == b'"') && not (c == 92))

pub data Char : Type 0 where
  plain : (c : ℕ) → is_plain c ≡ true → Char
  escape : (c : ℕ) → is_short_escape c ≡ true → Char
  unicode :
      (a b c d : ℕ)
      → is_ascii_hexdigit a ≡ true
      → is_ascii_hexdigit b ≡ true
      → is_ascii_hexdigit c ≡ true
      → is_ascii_hexdigit d ≡ true
      → Char

abbrev pub char_bytes : Char → List ℕ
char_bytes (plain c _) = c ∷ []
char_bytes (escape c _) = 92 ∷ c ∷ []
char_bytes (unicode a b c d _ _ _ _) = 92 ∷ b'u' ∷ a ∷ b ∷ c ∷ d ∷ []

unfoldable pub chars : List Char → List ℕ
chars [] = []
chars (c ∷ cs) = char_bytes c ++ chars cs

abbrev pub quoted : List Char → List ℕ
quoted cs = b'"' ∷ (chars cs ++ (b'"' ∷ []))

pub data Digit : Type 0 where
  digit : (n : ℕ) → n < 10 → Digit

abbrev pub digit_byte : Digit → ℕ
digit_byte (digit n _) = 48 + n

abbrev pub digits : List Digit → List ℕ
digits = map digit_byte

pub data Whole : Type 0 where
  naught : Whole
  leading : (n : ℕ) → n < 9 → List Digit → Whole

abbrev pub whole : Whole → List ℕ
whole naught = b'0' ∷ []
whole (leading n _ ds) = (49 + n) ∷ digits ds

pub data Fraction : Type 0 where
  integral : Fraction
  point : Digit → List Digit → Fraction

abbrev pub fraction : Fraction → List ℕ
fraction integral = []
fraction (point d ds) = b'.' ∷ digit_byte d ∷ digits ds

pub data Mark : Type 0 where
  lower upper : Mark

pub data Sign : Type 0 where
  unsigned plus minus : Sign

pub data Exponent : Type 0 where
  unscaled : Exponent
  scaled : Mark → Sign → Digit → List Digit → Exponent

abbrev pub mark : Mark → ℕ
mark lower = b'e'
mark upper = b'E'

abbrev pub sign : Sign → List ℕ
sign unsigned = []
sign plus = b'+' ∷ []
sign minus = b'-' ∷ []

abbrev pub exponent : Exponent → List ℕ
exponent unscaled = []
exponent (scaled m s d ds) = mark m ∷ (sign s ++ (digit_byte d ∷ digits ds))

pub data Number : Type 0 where
  positive negative : Whole → Fraction → Exponent → Number

abbrev pub unsigned_number : Whole → Fraction → Exponent → List ℕ
unsigned_number w f x = whole w ++ (fraction f ++ exponent x)

abbrev pub number : Number → List ℕ
number (positive w f x) = unsigned_number w f x
number (negative w f x) = b'-' ∷ unsigned_number w f x

mutual
  pub data Value : Type 0 where
    true_word false_word null_word : Value
    numeric : Number → Value
    text : List Char → Value
    empty_array empty_object : List Space → Value
    array : List Space → Value → List Space → Elements → Value
    object : List Space → List Char → List Space → List Space → Value → List Space → Members → Value

  pub data Elements : Type 0 where
    last : Elements
    next : List Space → Value → List Space → Elements → Elements

  pub data Members : Type 0 where
    done : Members
    member :
        List Space → List Char → List Space → List Space → Value → List Space → Members → Members

unfoldable mutual
  pub value : Value → List ℕ
  value true_word = b't' ∷ b'r' ∷ b'u' ∷ b'e' ∷ []
  value false_word = b'f' ∷ b'a' ∷ b'l' ∷ b's' ∷ b'e' ∷ []
  value null_word = b'n' ∷ b'u' ∷ b'l' ∷ b'l' ∷ []
  value (numeric n) = number n
  value (text cs) = quoted cs
  value (empty_array ws) = b'[' ∷ (spaces ws ++ (b']' ∷ []))
  value (empty_object ws) = b'{' ∷ (spaces ws ++ (b'}' ∷ []))
  value (array before v after es) =
      b'[' ∷ (spaces before ++ (value v ++ (spaces after ++ elements es)))
  value (object before key gap before_value v after ms) =
      b'{'
      ∷ (spaces before
          ++ (quoted key
              ++ (spaces gap
                  ++ (b':' ∷ (spaces before_value ++ (value v ++ (spaces after ++ members ms)))))))

  pub elements : Elements → List ℕ
  elements last = b']' ∷ []
  elements (next before v after es) =
      b',' ∷ (spaces before ++ (value v ++ (spaces after ++ elements es)))

  pub members : Members → List ℕ
  members done = b'}' ∷ []
  members (member before key gap before_value v after ms) =
      b','
      ∷ (spaces before
          ++ (quoted key
              ++ (spaces gap
                  ++ (b':' ∷ (spaces before_value ++ (value v ++ (spaces after ++ members ms)))))))

-- A text: a value between white space.
pub data Document : Type 0 where
  document : List Space → Value → List Space → Document

unfoldable pub render : Document → List ℕ
unfolding value
render (document before v after) = spaces before ++ (value v ++ spaces after)
