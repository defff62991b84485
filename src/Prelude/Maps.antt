-- ===== src/Prelude/Maps.antt =====
-- Hash maps with texts as keys: association lists in which a key stands once.
use Prim.Native.String.{String}
use text.Mathlib.Text.{◌==◌ as is_text}
use text.Mathlib.TextEquality.{eq_iff}
use mathlib.Core.Bool.{Bool, true, false}
use mathlib.Core.List.{List, [], ◌∷◌}
use mathlib.Core.Option.{Option, none, some}
use mathlib.Core.Path.{◌≡◌, refl, sym}
use mathlib.Core.Logic.{◌⊎◌, inl, inr}
use couchbase_rs.Prelude.Tests.{if◌then◌else◌, Bool-cases}

abbrev pub same_text : String → String → Bool
same_text s t = is_text s t

pub same_text_refl : (s : String) → same_text s s ≡ true
same_text_refl s = (eq_iff s s).1 refl

pub same_text_path : (s t : String) → same_text s t ≡ true → s ≡ t
same_text_path s t = (eq_iff s t).0

pub same_text-cases : (s t : String) → (s ≡ t) ⊎ ((same_text s t ≡ false) × (same_text t s ≡ false))
same_text-cases s t = elim (Bool-cases (same_text s t)) [
  | inl e ↦ inl (same_text_path s t e)
  | inr e ↦ elim (Bool-cases (same_text t s)) [
    | inl f ↦ inl (sym (same_text_path t s f))
    | inr f ↦ inr (e, f)
  ]
]

module _ {ℓ} {V : Type ℓ} where
  unfoldable pub get : String → List (String × V) → Option V
  get key [] = none
  get key ((k, v) ∷ rest) = if same_text key k then some v else get key rest

  unfoldable pub remove : String → List (String × V) → List (String × V)
  remove key [] = []
  remove key ((k, v) ∷ rest) =
      let removed = remove key rest in if same_text key k then removed else (k, v) ∷ removed

  unfoldable pub insert : String → V → List (String × V) → List (String × V)
  unfolding remove
  insert key v entries = (key, v) ∷ remove key entries

  -- A key stands once.
  unfoldable pub Unique : List (String × V) → Type ℓ
  unfolding get
  Unique [] = Unit {ℓ}
  Unique ((k, v) ∷ rest) = (get k rest ≡ none) × Unique rest

  if_same : (b : Bool) (x : Option V) → x ≡ (if b then x else x)
  if_same true x = refl
  if_same false x = refl

  if_twice :
      (b : Bool) (x y z : Option V) → (if b then x else z) ≡ (if b then x else (if b then y else z))
  if_twice true x y z = refl
  if_twice false x y z = refl

  pub get-remove :
      (j k : String) (entries : List (String × V))
      → get j (remove k entries) ≡ (if same_text j k then none else get j entries)
  unfolding get remove
  get-remove j k [] = if_same (same_text j k) none
  get-remove j k ((i, v) ∷ rest) = elim (same_text-cases k i) [
    | inl p ↦
        rw (sym p, same_text_refl k, get-remove j k rest)
          (if_twice (same_text j k) none (some v) (get j rest))
    | inr (apart, other_way) ↦
        rw (apart, get-remove j k rest)
          (elim (same_text-cases j i) [
            | inl p ↦ let other : same_text j k ≡ false = rw p other_way in rw (other) refl
            | inr (q, _) ↦ rw q refl
          ])
  ]

  pub get-insert :
      (j k : String) (v : V) (entries : List (String × V))
      → get j (insert k v entries) ≡ (if same_text j k then some v else get j entries)
  unfolding get insert
  get-insert j k v entries =
      rw (get-remove j k entries) (sym (if_twice (same_text j k) (some v) none (get j entries)))

  pub remove-Unique :
      (k : String) (entries : List (String × V)) → Unique entries → Unique (remove k entries)
  unfolding remove Unique
  remove-Unique k [] u = u
  remove-Unique k ((i, v) ∷ rest) (absent, u) = elim (same_text-cases k i) [
    | inl p ↦ rw (sym p, same_text_refl k) (remove-Unique k rest u)
    | inr (apart, other_way) ↦
        rw apart ((rw (get-remove i k rest, other_way) absent), remove-Unique k rest u)
  ]

  pub insert-Unique :
      (k : String) (v : V) (entries : List (String × V))
      → Unique entries
      → Unique (insert k v entries)
  unfolding insert Unique
  insert-Unique k v entries u =
      ((rw (get-remove k k entries, same_text_refl k) refl), remove-Unique k entries u)
