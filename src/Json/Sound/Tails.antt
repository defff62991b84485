-- ===== src/Json/Sound/Tails.antt =====
-- The scanner behind a value: what its containers want, one byte at a time.
use couchbase_rs.Json.{
  Scanner, ScanState, ParseState, Step, is_ascii_whitespace, fail, popped, end_value_at,
  state_end_value, state_end_top,
}
use couchbase_rs.Json.Run.{step, step_by, eof, eof_by, scan_from}
use couchbase_rs.Json.Feed.{at}
use couchbase_rs.Json.Structure.{closed}
use couchbase_rs.Json.Grammar.{
  Space, Char, space_byte, spaces, space, tab, line_feed, form_feed, carriage_return, Value, value,
  Elements, elements, Members, members, next, last, member, done, quoted,
}
use couchbase_rs.Json.Meaning.{
  Follow, follow, Membership, membership, Tail, Then, then_, extend, finish, join, spaced,
  spaced_key, Meaning, Ends, StepEnds, branch,
}
use couchbase_rs.Prelude.{
  ℕ, Bool, true, false, ◌||◌, List, [], ◌∷◌, ◌++◌, some, ◌≡◌, refl, sym, ◌⊎◌, inl, inr,
  if◌then◌else◌, ◌==◌, ==_iff, append_assoc,
}
use Prim.Native.String.{String}

-- What is known of the scanner on the bytes that are left.
pub record Known (bytes : List ℕ) : Type 0 where
  pub inside :
      (q : Step) (stack : List ParseState) → Ends bytes (at q stack) → Meaning q stack bytes
  pub on_top : Ends bytes (closed []) → Tail [] bytes

pub or_cases : (a b : Bool) → (a || b) ≡ true → (a ≡ true) ⊎ (b ≡ true)
or_cases true b e = inl refl
or_cases false b e = inr e

pub same : (a b : ℕ) → (a == b) ≡ true → a ≡ b
same a b = (==_iff a b).0

pub space_of : (c : ℕ) → is_ascii_whitespace c ≡ true → (w : Space) × (c ≡ space_byte w)
space_of c e = elim (or_cases _ _ e) [
  | inl e ↦ elim (or_cases _ _ e) [
    | inl e ↦ elim (or_cases _ _ e) [
      | inl e ↦ elim (or_cases _ _ e) [ inl p ↦ (space, same c 32 p) | inr p ↦ (tab, same c 9 p) ]
      | inr p ↦ (line_feed, same c 10 p)
    ]
    | inr p ↦ (form_feed, same c 12 p)
  ]
  | inr p ↦ (carriage_return, same c 13 p)
]

-- A refused byte stays refused.
pub failed_never :
    (bytes : List ℕ) (q : Scanner) (c : ℕ) (context : String) → Ends bytes (fail q c context).0 → ⊥
unfolding scan_from step step_by eof eof_by
failed_never [] q c context e = cc
failed_never (_ ∷ _) q c context e = cc

from_part :
    (p : ParseState) {stack : List ParseState} {bytes : List ℕ}
    → Then (Follow p) (follow p) stack bytes
    → Tail (p ∷ stack) bytes
unfolding Tail
from_part p (then_ a rest e t) = (a, rest, e, t)

to_part :
    (p : ParseState) {stack : List ParseState} {bytes : List ℕ}
    → Tail (p ∷ stack) bytes
    → Then (Follow p) (follow p) stack bytes
unfolding Tail
to_part p (a, rest, e, t) = then_ a rest e t

space_before : (p : ParseState) → Space → Follow p → Follow p
space_before ParseState.array_value w (ws, es) = (w ∷ ws, es)
space_before ParseState.object_value w (ws, ms) = (w ∷ ws, ms)
space_before ParseState.object_key w (ws, before, v, behind, ms) = (w ∷ ws, before, v, behind, ms)

follow-space_before :
    (p : ParseState) (w : Space) (a : Follow p)
    → follow p (space_before p w a) ≡ space_byte w ∷ follow p a
unfolding space_before
follow-space_before ParseState.array_value w (ws, es) = refl
follow-space_before ParseState.object_value w (ws, ms) = refl
follow-space_before ParseState.object_key w (ws, before, v, behind, ms) = refl

pub refused : some ScanState.error ≡ some ScanState.end → ⊥
refused e = cc

-- White space in front of what a container wants.
container_spaced :
    (p : ParseState) (stack : List ParseState) (bytes : List ℕ) (c : ℕ)
    → is_ascii_whitespace c ≡ true
    → Tail (p ∷ stack) bytes
    → Tail (p ∷ stack) (c ∷ bytes)
container_spaced p stack bytes c b t =
    let (w, q) = space_of c b in
    from_part p (
      extend c (space_byte w) (follow p) (space_before p w) (follow-space_before p w) q
        (to_part p t))

pub popped-Tail :
    {bytes : List ℕ} (known : Known bytes) (q : Step) (p : ParseState) (stack : List ParseState)
    → Ends bytes (popped (at q (p ∷ stack)) stack)
    → Tail stack bytes
unfolding popped Meaning
popped-Tail known q p [] e = known.on_top e
popped-Tail known q p (r ∷ stack) e = known.inside Step.end_value (r ∷ stack) e

pick :
    {P : Type 0} (b : Bool) (bytes : List ℕ) (x y : Scanner)
    → (b ≡ true → Ends bytes x → P)
    → (b ≡ false → Ends bytes y → P)
    → Ends bytes (if b then x else y)
    → P
pick true bytes x y f g e = f refl e
pick false bytes x y f g e = g refl e

top_spaced :
    (bytes : List ℕ) (c : ℕ) → is_ascii_whitespace c ≡ true → Tail [] bytes → Tail [] (c ∷ bytes)
unfolding Tail
top_spaced bytes c b (ws, p) = let (w, q) = space_of c b in (w ∷ ws, cc)

-- The bytes behind the value that is the whole text.
pub top_step :
    {bytes : List ℕ} (known : Known bytes) (c : ℕ)
    → StepEnds bytes (state_end_top (closed []) c)
    → Tail [] (c ∷ bytes)
unfolding state_end_top
top_step {bytes} known c =
    pick (is_ascii_whitespace c) bytes (closed []) (fail (closed []) c "after top-level value").0
      (λ b e. top_spaced bytes c b (known.on_top e))
      (λ _ e. absurd (failed_never bytes (closed []) c "after top-level value" e))

-- A member in front of what an object wants, and an element in front of what an array wants.
comma_element :
    (bytes : List ℕ) (stack : List ParseState) (c : ℕ)
    → c ≡ b','
    → Then (List Space × Value) spaced (ParseState.array_value ∷ stack) bytes
    → Tail (ParseState.array_value ∷ stack) (c ∷ bytes)
unfolding elements
comma_element bytes stack c q t = from_part ParseState.array_value (
    extend c b',' (follow ParseState.array_value)
      (λ (a : List Space × Value × List Space × Elements). ([], next a.0 a.1 a.2 a.3)) (λ a. refl) q
      (join
        (λ (a : List Space × Value × List Space × Elements).
          spaces a.0 ++ (value a.1 ++ (spaces a.2 ++ elements a.3)))
        (λ a b. (a.0, a.1, b.0, b.1))
        (λ a b. sym (append_assoc (spaces a.0) (value a.1) (spaces b.0 ++ elements b.1))) t))

comma_member :
    (bytes : List ℕ) (stack : List ParseState) (c : ℕ)
    → c ≡ b','
    → Then (List Space × List Char) spaced_key (ParseState.object_key ∷ stack) bytes
    → Tail (ParseState.object_value ∷ stack) (c ∷ bytes)
unfolding members
comma_member bytes stack c q t = from_part ParseState.object_value (
    extend c b',' (follow ParseState.object_value)
      (λ (a : List Space × List Char × Membership).
        ([], member a.0 a.1 a.2.0 a.2.1 a.2.2 a.2.3 a.2.4))
      (λ a. refl) q
      (join
        (λ (a : List Space × List Char × Membership). spaces a.0 ++ (quoted a.1 ++ membership a.2))
        (λ a b. (a.0, a.1, b)) (λ a b. sym (append_assoc (spaces a.0) (quoted a.1) (membership b)))
        t))

colon_value :
    (bytes : List ℕ) (stack : List ParseState) (c : ℕ)
    → c ≡ b':'
    → Then (List Space × Value) spaced (ParseState.object_value ∷ stack) bytes
    → Tail (ParseState.object_key ∷ stack) (c ∷ bytes)
colon_value bytes stack c q t = from_part ParseState.object_key (
    extend c b':' (follow ParseState.object_key)
      (λ (a : List Space × Value × List Space × Members). ([], a.0, a.1, a.2, a.3)) (λ a. refl) q
      (join
        (λ (a : List Space × Value × List Space × Members).
          spaces a.0 ++ (value a.1 ++ (spaces a.2 ++ members a.3)))
        (λ a b. (a.0, a.1, b.0, b.1))
        (λ a b. sym (append_assoc (spaces a.0) (value a.1) (spaces b.0 ++ members b.1))) t))

-- A byte in the state behind a value, or where a number may end.
pub container_step :
    {bytes : List ℕ} (known : Known bytes) (q : Step) (stack : List ParseState) (c : ℕ)
    → StepEnds bytes (state_end_value (at q stack) c)
    → Tail stack (c ∷ bytes)
unfolding state_end_value end_value_at state_end_top Meaning elements members
container_step known q [] c = top_step known c
container_step {bytes} known q (ParseState.array_value ∷ stack) c =
    branch (is_ascii_whitespace c) bytes _ _
      (λ b e.
        container_spaced ParseState.array_value stack bytes c b (known.inside Step.end_value _ e))
      (λ _.
        branch (c == b',') bytes _ _
          (λ b e. comma_element bytes stack c (same c b',' b) (known.inside Step.begin_value _ e))
          (λ _.
            branch (c == b']') bytes _ _
              (λ b e. from_part ParseState.array_value (
                finish c b']' (follow ParseState.array_value) ([], last) refl (same c b']' b)
                  (popped-Tail known q ParseState.array_value stack e)))
              (λ _ e. absurd (refused e))))
container_step {bytes} known q (ParseState.object_value ∷ stack) c =
    branch (is_ascii_whitespace c) bytes _ _
      (λ b e.
        container_spaced ParseState.object_value stack bytes c b (known.inside Step.end_value _ e))
      (λ _.
        branch (c == b',') bytes _ _
          (λ b e. comma_member bytes stack c (same c b',' b) (known.inside Step.begin_string _ e))
          (λ _.
            branch (c == b'}') bytes _ _
              (λ b e. from_part ParseState.object_value (
                finish c b'}' (follow ParseState.object_value) ([], done) refl (same c b'}' b)
                  (popped-Tail known q ParseState.object_value stack e)))
              (λ _ e. absurd (refused e))))
container_step {bytes} known q (ParseState.object_key ∷ stack) c =
    branch (is_ascii_whitespace c) bytes _ _
      (λ b e.
        container_spaced ParseState.object_key stack bytes c b (known.inside Step.end_value _ e))
      (λ _.
        branch (c == b':') bytes _ _
          (λ b e. colon_value bytes stack c (same c b':' b) (known.inside Step.begin_value _ e))
          (λ _ e. absurd (refused e)))
