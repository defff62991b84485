-- ===== src/Durations/Termination.antt =====
-- The loop of `parse_duration_from_golang_string` in sdk/couchbase-core/src/helpers/durations.rs:
-- what its turns leave of the text.
use couchbase_rs.Durations.{
  leading_int, leading_fraction, is_digit, starts_with_digit, starts_term, is_empty, split_unit,
  unit_of, point_fraction, value_of_unit, term_value, behind_integer, parse_term, parse_terms,
  same_bytes, unsigned_duration, parse_duration_from_golang_string, u64_max, Parsed, after_sum,
  after_term, checked_add,
}
use Prim.Native.String.{String}
use native.Mathlib.Nat.{le_trans}
use couchbase_rs.Prelude.{
  ℕ, zero, suc, ◌+◌, ◌-◌, ◌*◌, ◌/◌, ◌<◌, ◌≤◌, Bool, true, false, not, ◌||◌, List, [], ◌∷◌, Option,
  none, ok, err, panic, ◌>>=◌, ◌≡◌, ◌≢◌, refl, ltb, leb, ◌==◌, if◌then◌else◌, arith, length,
}

-- A result whose text is bounded.
abbrev Leaves : {A : Type 0} → (A → List ℕ) → ℕ → Parsed A → Type 0
Leaves rest n (ok a) = length (rest a) ≤ n
Leaves rest n (err e) = Unit {0}
Leaves rest n panic = Unit {0}

either_bound :
    {A : Type 0} (rest : A → List ℕ) (n : ℕ) (b : Bool) (x y : Parsed A)
    → Leaves rest n x
    → Leaves rest n y
    → Leaves rest n (if b then x else y)
either_bound rest n true x y p q = p
either_bound rest n false x y p q = q

bound_behind :
    {A B : Type 0} (rest : A → List ℕ) (rest2 : B → List ℕ) (n m : ℕ) (x : Parsed A)
    (f : A → Parsed B)
    → Leaves rest n x
    → ((a : A) → length (rest a) ≤ n → Leaves rest2 m (f a))
    → Leaves rest2 m (x >>= f)
bound_behind rest rest2 n m (ok a) f p h = h a p
bound_behind rest rest2 n m (err e) f p h = tt
bound_behind rest rest2 n m panic f p h = tt

weaker_bound :
    {A : Type 0} (rest : A → List ℕ) (n m : ℕ) (x : Parsed A)
    → n ≤ m
    → Leaves rest n x
    → Leaves rest m x
weaker_bound rest n m (ok a) p q = le_trans q p
weaker_bound rest n m (err e) p q = tt
weaker_bound rest n m panic p q = tt

leading_int-Leaves :
    (x : ℕ) (s : List ℕ) → Leaves (λ (a : ℕ × List ℕ). a.1) (length s) (leading_int x s)
unfolding leading_int
leading_int-Leaves x [] = omega arith
leading_int-Leaves x (c ∷ s) =
    let later =
      weaker_bound (λ (a : ℕ × List ℕ). a.1) (length s) (suc (length s)) _ (omega arith)
        (leading_int-Leaves (x * 10 + (c - 48)) s) in
    either_bound _ _ (not (is_digit c)) _ _ (omega arith) (
      either_bound _ _ (ltb (u64_max / 10) x) _ _ tt
        (either_bound _ _ (leb (x * 10 + (c - 48)) u64_max) _ _ later tt))

leading_fraction-Leaves :
    (x power : ℕ) (overflow : Bool) (s : List ℕ)
    → Leaves (λ (a : ℕ × ℕ × List ℕ). a.2) (length s) (leading_fraction x power overflow s)
unfolding leading_fraction
leading_fraction-Leaves x power overflow [] = omega arith
leading_fraction-Leaves x power overflow (c ∷ s) =
    let is_over : Bool = overflow || ltb ((u64_max - 1) / 10) x in
    let y : ℕ = x * 10 + (c - 48) in
    let later =
      weaker_bound (λ (a : ℕ × ℕ × List ℕ). a.2) (length s) (suc (length s)) _ (omega arith)
        (leading_fraction-Leaves (if is_over then x else y) (if is_over then power else suc power)
          is_over s) in
    either_bound _ _ (not (is_digit c)) _ _ (omega arith)
      (either_bound _ _ is_over _ _ later (either_bound _ _ (leb y u64_max) _ _ later tt))

point_fraction-Leaves :
    (s : List ℕ) → Leaves (λ (a : (ℕ × ℕ × List ℕ) × Bool). a.0.2) (length s) (point_fraction s)
unfolding point_fraction
point_fraction-Leaves [] = omega arith
point_fraction-Leaves (c ∷ s) =
    either_bound _ _ (c == b'.') _ _
      (bound_behind (λ (a : ℕ × ℕ × List ℕ). a.2) _ (length s) (suc (length s)) _ _
        (leading_fraction-Leaves 0 0 false s) (λ a p. omega (arith, p)))
      (omega arith)

-- A unit that is there makes the rest shorter.
abbrev Splits : ℕ → List ℕ × List ℕ → Type 0
Splits n (u, rest) = (length rest ≤ n) × (is_empty u ≡ false → length rest < n)

unit_taken :
    (b : Bool) (c n : ℕ) (s : List ℕ) (r : List ℕ × List ℕ)
    → length s ≤ n
    → Splits n r
    → Splits (suc n) (if b then ([], c ∷ s) else (c ∷ r.0, r.1))
unit_taken true c n s (u, rest) p (q, _) =
    (omega (arith, p), λ e. absurd (let no : true ≡ false = e in cc))
unit_taken false c n s (u, rest) p (q, _) = (omega (arith, q), λ e. omega (arith, q))

split_unit-Splits : (s : List ℕ) → Splits (length s) (split_unit s)
unfolding split_unit
split_unit-Splits [] = (omega arith, λ e. absurd (let no : true ≡ false = e in cc))
split_unit-Splits (c ∷ s) =
    unit_taken ((c == b'.') || is_digit c) c (length s) s (split_unit s) (omega arith)
      (split_unit-Splits s)

-- A turn leaves a shorter text.
Shorter : ℕ → Parsed (ℕ × List ℕ) → Type 0
Shorter n (ok (value, rest)) = length rest < n
Shorter n (err e) = Unit {0}
Shorter n panic = Unit {0}

unit_read :
    (x : Parsed ℕ) (n : ℕ) (s : List ℕ) → length s < n → Shorter n (x >>= (λ value. ok (value, s)))
unfolding Shorter
unit_read (ok v) n s p = p
unit_read (err e) n s p = tt
unit_read panic n s p = tt

guarded_turn :
    (b : Bool) (x : Parsed (ℕ × List ℕ)) (n : ℕ) (message : String)
    → Shorter n x
    → Shorter n (if b then x else err message)
unfolding Shorter
guarded_turn true x n message p = p
guarded_turn false x n message p = tt

unit_bound : (n m : ℕ) (r : List ℕ × List ℕ) → n ≤ m → Splits n r → Splits m r
unit_bound n m (u, rest) p (q, h) = (le_trans q p, λ e. le_trans (h e) p)

either_ends :
    (b : Bool) (x y : Option (Parsed ℕ)) → x ≢ none → y ≢ none → (if b then x else y) ≢ none
either_ends true x y p q = p
either_ends false x y p q = q

module _ (scaled : ℕ → ℕ → ℕ → Option ℕ) where
  value_of_unit-Shorter :
      (v f power n : ℕ) (r : List ℕ × List ℕ)
      → Splits n r
      → Shorter n (value_of_unit scaled v f power r)
  unfolding value_of_unit Shorter
  value_of_unit-Shorter v f power n ([], s) p = tt
  value_of_unit-Shorter v f power n (c ∷ u, s) (_, p) =
      unit_read (term_value scaled v f power (unit_of (c ∷ u))) n s (p refl)

  pass_point :
      (v : ℕ) (pre : Bool) (n : ℕ) (x : Parsed ((ℕ × ℕ × List ℕ) × Bool))
      → Leaves (λ (a : (ℕ × ℕ × List ℕ) × Bool). a.0.2) n x
      → Shorter n (
          x >>= (λ r.
            if pre || r.1
            then value_of_unit scaled v r.0.0 r.0.1 (split_unit r.0.2)
            else err "invalid duration"))
  unfolding Shorter
  pass_point v pre n (ok ((f, power, s), post)) p = guarded_turn (pre || post) _ n _ (
      value_of_unit-Shorter v f power n (split_unit s)
        (unit_bound (length s) n (split_unit s) p (split_unit-Splits s)))
  pass_point v pre n (err e) p = tt
  pass_point v pre n panic p = tt

  behind_integer-Shorter :
      (pre : Bool) (n : ℕ) (a : ℕ × List ℕ)
      → length a.1 ≤ n
      → Shorter n (behind_integer scaled pre a)
  unfolding behind_integer
  behind_integer-Shorter pre n (v, s) p =
      pass_point v pre n (point_fraction s)
        (weaker_bound _ (length s) n (point_fraction s) p (point_fraction-Leaves s))

  pass_integer :
      (pre : Bool) (n : ℕ) (x : Parsed (ℕ × List ℕ))
      → Leaves (λ (a : ℕ × List ℕ). a.1) n x
      → Shorter n (x >>= behind_integer scaled pre)
  unfolding Shorter
  pass_integer pre n (ok a) p = behind_integer-Shorter pre n a p
  pass_integer pre n (err e) p = tt
  pass_integer pre n panic p = tt

  parse_term-Shorter : (s : List ℕ) → Shorter (length s) (parse_term scaled s)
  unfolding parse_term
  parse_term-Shorter s =
      guarded_turn (starts_term s) _ (length s) "invalid duration"
        (pass_integer (starts_with_digit s) (length s) (leading_int 0 s) (leading_int-Leaves 0 s))

  after_sum-ends :
      (fuel : ℕ) (s : List ℕ) (x : Parsed ℕ)
      → length s ≤ fuel
      → ((d : ℕ) (s : List ℕ) → length s ≤ fuel → parse_terms scaled fuel d s ≢ none)
      → after_sum scaled x s (parse_terms scaled fuel) ≢ none
  after_sum-ends fuel s (ok d) p ih e = ih d s p e
  after_sum-ends fuel s (err x) p ih e = cc
  after_sum-ends fuel s panic p ih e = cc

  after_term-ends :
      (fuel d n : ℕ) (x : Parsed (ℕ × List ℕ))
      → n ≤ suc fuel
      → Shorter n x
      → ((d : ℕ) (s : List ℕ) → length s ≤ fuel → parse_terms scaled fuel d s ≢ none)
      → after_term scaled d x (parse_terms scaled fuel) ≢ none
  unfolding Shorter
  after_term-ends fuel d n (ok (v, s)) p q ih e =
      after_sum-ends fuel s (checked_add scaled d v) (omega (arith, p, q)) ih e
  after_term-ends fuel d n (err x) p q ih e = cc
  after_term-ends fuel d n panic p q ih e = cc

  parse_terms-ends :
      (fuel d : ℕ) (s : List ℕ) → length s ≤ fuel → parse_terms scaled fuel d s ≢ none
  unfolding parse_terms
  parse_terms-ends zero d [] p e = cc
  parse_terms-ends (suc fuel) d [] p e = cc
  parse_terms-ends zero d (c ∷ s) p e = absurd (omega (arith, p))
  parse_terms-ends (suc fuel) d (c ∷ s) p e =
      after_term-ends fuel d (length (c ∷ s)) (parse_term scaled (c ∷ s)) p
        (parse_term-Shorter (c ∷ s)) (λ d2 s2 q. parse_terms-ends fuel d2 s2 q) e

  unsigned_ends : (s : List ℕ) → unsigned_duration scaled s ≢ none
  unfolding unsigned_duration
  unsigned_ends s =
      either_ends (same_bytes s (b'0' ∷ [])) _ _ (λ e. cc)
        (either_ends (is_empty s) _ _ (λ e. cc) (parse_terms-ends (length s) 0 s (omega arith)))

  -- On any text, well formed or not, the parser comes to a duration, an error or a panic: its loop
  -- ends within the fuel that it has, the length of the text.
  pub parse_duration_from_golang_string_ends :
      (s : List ℕ) → parse_duration_from_golang_string scaled s ≢ none
  unfolding parse_duration_from_golang_string
  parse_duration_from_golang_string_ends [] = unsigned_ends []
  parse_duration_from_golang_string_ends (c ∷ s) =
      either_ends (c == b'-') _ _ (λ e. cc)
        (either_ends (c == b'+') _ _ (unsigned_ends s) (unsigned_ends (c ∷ s)))
