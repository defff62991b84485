-- ===== src/Json/Sound/Literals.antt =====
-- The scanner inside of a word or a string.
use couchbase_rs.Json.{
  ParseState, Step, is_ascii_hexdigit, is_short_escape, state_in_string, state_in_string_esc,
  state_hex, state_word,
}
use couchbase_rs.Json.Feed.{at}
use couchbase_rs.Json.Grammar.{Char, chars, plain, escape, unicode, is_plain}
use couchbase_rs.Json.Meaning.{
  Then, extend, finish, closing, Hex, hex, hex_byte, Escape, short, long, escaped, word, Meaning,
  Ends, StepEnds, branch,
}
use couchbase_rs.Json.Sound.Tails.{Known, same, refused}
use couchbase_rs.Prelude.{ℕ, true, false, List, [], ◌∷◌, ◌≡◌, refl, ltb, ◌==◌, arith}
use Prim.Native.String.{String}

pub word_step :
    (bytes : List ℕ) (q next : Step) (stack : List ParseState) (c wanted : ℕ) (context : String)
    (rest : List ℕ)
    → (Ends bytes (at next stack) → Then (Unit {0}) (word rest) stack bytes)
    → StepEnds bytes (state_word (at q stack) c wanted next context)
    → Then (Unit {0}) (word (wanted ∷ rest)) stack (c ∷ bytes)
unfolding state_word
word_step bytes q next stack c wanted context rest h =
    branch (c == wanted) bytes _ _
      (λ b e.
        extend c wanted (word (wanted ∷ rest)) (λ (u : Unit {0}). u) (λ a. refl) (same c wanted b)
          (h e))
      (λ _ e. absurd (refused e))

pub word_end :
    {bytes : List ℕ} (known : Known bytes) (q : Step) (stack : List ParseState) (c wanted : ℕ)
    (context : String)
    → StepEnds bytes (state_word (at q stack) c wanted Step.end_value context)
    → Then (Unit {0}) (word (wanted ∷ [])) stack (c ∷ bytes)
unfolding state_word Meaning
word_end {bytes} known q stack c wanted context =
    branch (c == wanted) bytes _ _
      (λ b e.
        finish c wanted (word (wanted ∷ [])) tt refl (same c wanted b)
          (known.inside Step.end_value stack e))
      (λ _ e. absurd (refused e))

plain_of :
    (c : ℕ) → (c == b'"') ≡ false → (c == 92) ≡ false → ltb c 0x20 ≡ false → is_plain c ≡ true
plain_of c p q r = ground arith

escaped_char : Escape × List Char → List Char
escaped_char (short c p, cs) = escape c p ∷ cs
escaped_char (long (hex a p) (hex b q) (hex c r) (hex d s), cs) = unicode a b c d p q r s ∷ cs

escaped_char_lem : (a : Escape × List Char) → closing (escaped_char a) ≡ 92 ∷ escaped a
unfolding chars escaped_char
escaped_char_lem (short c p, cs) = refl
escaped_char_lem (long (hex a p) (hex b q) (hex c r) (hex d s), cs) = refl

pub string_step :
    {bytes : List ℕ} (known : Known bytes) (stack : List ParseState) (c : ℕ)
    → StepEnds bytes (state_in_string (at Step.in_string stack) c)
    → Then (List Char) closing stack (c ∷ bytes)
unfolding state_in_string Meaning chars
string_step {bytes} known stack c =
    branch (c == b'"') bytes _ _
      (λ b e. finish c b'"' closing [] refl (same c b'"' b) (known.inside Step.end_value stack e))
      (λ p.
        branch (c == 92) bytes _ _
          (λ b e.
            extend c 92 closing escaped_char escaped_char_lem (same c 92 b)
              (known.inside Step.in_string_esc stack e))
          (λ q.
            branch (ltb c 0x20) bytes _ _ (λ _ e. absurd (refused e))
              (λ r e.
                extend c c closing (λ (cs : List Char). plain c (plain_of c p q r) ∷ cs) (λ a. refl)
                  refl (known.inside Step.in_string stack e))))

pub escape_step :
    {bytes : List ℕ} (known : Known bytes) (stack : List ParseState) (c : ℕ)
    → StepEnds bytes (state_in_string_esc (at Step.in_string_esc stack) c)
    → Then (Escape × List Char) escaped stack (c ∷ bytes)
unfolding state_in_string_esc Meaning
escape_step {bytes} known stack c =
    branch (is_short_escape c) bytes _ _
      (λ b e.
        extend c c escaped (λ (cs : List Char). (short c b, cs)) (λ a. refl) refl
          (known.inside Step.in_string stack e))
      (λ _.
        branch (c == b'u') bytes _ _
          (λ b e.
            extend c b'u' escaped
              (λ (a : Hex × Hex × Hex × Hex × List Char). (long a.0 a.1 a.2 a.3, a.4)) (λ a. refl)
              (same c b'u' b) (known.inside Step.in_string_esc_u stack e))
          (λ _ e. absurd (refused e)))

pub hex_step :
    {A B : Type 0} {f : A → List ℕ} (bytes : List ℕ) (q next : Step) (stack : List ParseState)
    (c : ℕ) (h : B → List ℕ) (g : Hex → A → B)
    → ((x : Hex) (a : A) → h (g x a) ≡ hex_byte x ∷ f a)
    → (Ends bytes (at next stack) → Then A f stack bytes)
    → StepEnds bytes (state_hex (at q stack) c next)
    → Then B h stack (c ∷ bytes)
unfolding state_hex
hex_step bytes q next stack c h g e then_next =
    branch (is_ascii_hexdigit c) bytes _ _
      (λ b x. extend c c h (g (hex c b)) (e (hex c b)) refl (then_next x))
      (λ _ x. absurd (refused x))
