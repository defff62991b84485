-- ===== src/Json/Sound/Numbers.antt =====
-- The scanner inside of a number.
use couchbase_rs.Json.{
  ParseState, Step, is_ascii_digit, state_neg, state0, state1, state_dot, state_dot0, state_e,
  state_e_sign, state_e0,
}
use couchbase_rs.Json.Feed.{at}
use couchbase_rs.Json.Grammar.{
  Digit, digit, digit_byte, digits, Whole, naught, leading, Fraction, integral, point, Exponent,
  unscaled, scaled, exponent, Mark, lower, upper, mark, Sign, unsigned, plus, minus,
}
use couchbase_rs.Json.Meaning.{
  Then, then_, extend, empty, behind_minus, behind_whole, behind_leading, behind_point,
  behind_decimal, behind_mark, behind_sign, Meaning, Ends, StepEnds, branch,
}
use couchbase_rs.Json.Sound.Tails.{Known, same, refused, container_step, or_cases}
use couchbase_rs.Prelude.{
  ℕ, ◌+◌, ◌-◌, ◌<◌, true, false, ◌||◌, List, [], ◌∷◌, ◌≡◌, refl, ◌==◌, arith, inl, inr,
}

pub digit_of : (c : ℕ) → is_ascii_digit c ≡ true → (d : Digit) × (c ≡ digit_byte d)
digit_of c e = (digit (c - 48) (ground arith), ground arith)

pub leading_of :
    (c : ℕ) → (c == b'0') ≡ false → is_ascii_digit c ≡ true → (n : ℕ) × (n < 9) × (c ≡ 49 + n)
leading_of c p e = (c - 49, ground arith, ground arith)

mark_of : (c : ℕ) → ((c == b'e') || (c == b'E')) ≡ true → (m : Mark) × (c ≡ mark m)
mark_of c e = elim (or_cases _ _ e) [
  | inl p ↦ (lower, same c b'e' p)
  | inr p ↦ (upper, same c b'E' p)
]

undigited :
    {stack : List ParseState} {bytes : List ℕ}
    → Then (Fraction × Exponent) behind_whole stack bytes
    → Then (List Digit × Fraction × Exponent) behind_leading stack bytes
undigited (then_ (f, x) rest e t) = then_ ([], f, x) rest e t

unsigned_mark :
    {stack : List ParseState} {bytes : List ℕ}
    → Then (Digit × List Digit) behind_sign stack bytes
    → Then (Sign × Digit × List Digit) behind_mark stack bytes
unsigned_mark (then_ (d, ds) rest e t) = then_ (unsigned, d, ds) rest e t

module _ {bytes : List ℕ} (known : Known bytes) (stack : List ParseState) (c : ℕ) where
  -- An exponent behind the byte that marks it.
  scaled_by :
      {B : Type 0} (h : B → List ℕ) (g : Exponent → B)
      → ((x : Exponent) → h (g x) ≡ exponent x)
      → ((c == b'e') || (c == b'E')) ≡ true
      → Ends bytes (at Step.e stack)
      → Then B h stack (c ∷ bytes)
  unfolding Meaning
  scaled_by h g same_bytes b e =
      let (m, q) = mark_of c b in
      extend c (mark m) h (λ (a : Sign × Digit × List Digit). g (scaled m a.0 a.1 a.2))
        (λ a. same_bytes (scaled m a.0 a.1 a.2)) q (known.inside Step.e stack e)

  pub zero_step :
      (q : Step)
      → StepEnds bytes (state0 (at q stack) c)
      → Then (Fraction × Exponent) behind_whole stack (c ∷ bytes)
  unfolding state0 Meaning
  zero_step q =
      branch (c == b'.') bytes _ _
        (λ b e.
          extend c b'.' behind_whole (λ (a : Digit × List Digit × Exponent). (point a.0 a.1, a.2))
            (λ a. refl) (same c b'.' b) (known.inside Step.dot stack e))
        (λ _.
          branch ((c == b'e') || (c == b'E')) bytes _ _
            (scaled_by behind_whole (λ x. (integral, x)) (λ x. refl))
            (λ _ e.
              empty (c ∷ bytes) behind_whole (integral, unscaled) refl
                (container_step known q stack c e)))

  pub one_step :
      StepEnds bytes (state1 (at Step.one stack) c)
      → Then (List Digit × Fraction × Exponent) behind_leading stack (c ∷ bytes)
  unfolding state1 Meaning
  one_step =
      branch (is_ascii_digit c) bytes _ _
        (λ b e.
          let (d, q) = digit_of c b in
          extend c (digit_byte d) behind_leading
            (λ (a : List Digit × Fraction × Exponent). (d ∷ a.0, a.1, a.2)) (λ a. refl) q
            (known.inside Step.one stack e))
        (λ _ e. undigited (zero_step Step.one e))

  pub dot_step :
      StepEnds bytes (state_dot (at Step.dot stack) c)
      → Then (Digit × List Digit × Exponent) behind_point stack (c ∷ bytes)
  unfolding state_dot Meaning
  dot_step =
      branch (is_ascii_digit c) bytes _ _
        (λ b e.
          let (d, q) = digit_of c b in
          extend c (digit_byte d) behind_point (λ (a : List Digit × Exponent). (d, a.0, a.1))
            (λ a. refl) q (known.inside Step.dot0 stack e))
        (λ _ e. absurd (refused e))

  pub dot0_step :
      StepEnds bytes (state_dot0 (at Step.dot0 stack) c)
      → Then (List Digit × Exponent) behind_decimal stack (c ∷ bytes)
  unfolding state_dot0 Meaning
  dot0_step =
      branch (is_ascii_digit c) bytes _ _
        (λ b e.
          let (d, q) = digit_of c b in
          extend c (digit_byte d) behind_decimal (λ (a : List Digit × Exponent). (d ∷ a.0, a.1))
            (λ a. refl) q (known.inside Step.dot0 stack e))
        (λ _.
          branch ((c == b'e') || (c == b'E')) bytes _ _
            (scaled_by behind_decimal (λ x. ([], x)) (λ x. refl))
            (λ _ e.
              empty (c ∷ bytes) behind_decimal ([], unscaled) refl
                (container_step known Step.dot0 stack c e)))

  pub sign_step :
      (q : Step)
      → StepEnds bytes (state_e_sign (at q stack) c)
      → Then (Digit × List Digit) behind_sign stack (c ∷ bytes)
  unfolding state_e_sign Meaning
  sign_step q =
      branch (is_ascii_digit c) bytes _ _
        (λ b e.
          let (d, p) = digit_of c b in
          extend c (digit_byte d) behind_sign (λ (ds : List Digit). (d, ds)) (λ a. refl) p
            (known.inside Step.e0 stack e))
        (λ _ e. absurd (refused e))

  pub e0_step :
      StepEnds bytes (state_e0 (at Step.e0 stack) c) → Then (List Digit) digits stack (c ∷ bytes)
  unfolding state_e0 Meaning
  e0_step =
      branch (is_ascii_digit c) bytes _ _
        (λ b e.
          let (d, p) = digit_of c b in
          extend c (digit_byte d) digits (λ (ds : List Digit). d ∷ ds) (λ a. refl) p
            (known.inside Step.e0 stack e))
        (λ _ e. empty (c ∷ bytes) digits [] refl (container_step known Step.e0 stack c e))

  pub e_step :
      StepEnds bytes (state_e (at Step.e stack) c)
      → Then (Sign × Digit × List Digit) behind_mark stack (c ∷ bytes)
  unfolding state_e Meaning
  e_step =
      branch ((c == b'+') || (c == b'-')) bytes _ _
        (λ b e. elim (or_cases _ _ b) [
          | inl p ↦
              extend c b'+' behind_mark (λ (a : Digit × List Digit). (plus, a.0, a.1)) (λ a. refl)
                (same c b'+' p) (known.inside Step.e_sign stack e)
          | inr p ↦
              extend c b'-' behind_mark (λ (a : Digit × List Digit). (minus, a.0, a.1)) (λ a. refl)
                (same c b'-' p) (known.inside Step.e_sign stack e)
        ])
        (λ _ e. unsigned_mark (sign_step Step.e e))

  pub neg_step :
      StepEnds bytes (state_neg (at Step.neg stack) c)
      → Then (Whole × Fraction × Exponent) behind_minus stack (c ∷ bytes)
  unfolding state_neg Meaning
  neg_step =
      branch (c == b'0') bytes _ _
        (λ b e.
          extend c b'0' behind_minus (λ (a : Fraction × Exponent). (naught, a.0, a.1)) (λ a. refl)
            (same c b'0' b) (known.inside Step.zero stack e))
        (λ p.
          branch (is_ascii_digit c) bytes _ _
            (λ b e.
              let (n, l, q) = leading_of c p b in
              extend c (49 + n) behind_minus
                (λ (a : List Digit × Fraction × Exponent). (leading n l a.0, a.1, a.2)) (λ a. refl)
                q (known.inside Step.one stack e))
            (λ _ e. absurd (refused e)))
