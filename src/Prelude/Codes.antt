-- ===== src/Prelude/Codes.antt =====
-- Enumerations with numeric codes: a Rust `match` on a number is a list of arms, tried in order.
use couchbase_rs.Prelude.{ℕ, ◌≡◌, List, [], ◌∷◌, arith, ◌==◌, if◌then◌else◌, All}

module _ {ℓ} {T : Type ℓ} where
  -- `match v { code => value, …, _ => other(v) }`
  unfoldable pub from_code : List (ℕ × T) → (ℕ → T) → ℕ → T
  from_code [] other v = other v
  from_code ((code, t) ∷ arms) other v = if v == code then t else from_code arms other v

  -- If each arm's value encodes to the arm's code, and the default's too, encoding undoes decoding.
  pub to-from_code :
      (to : T → ℕ) (other : ℕ → T) (arms : List (ℕ × T)) (v : ℕ)
      → All (λ arm. to arm.1 ≡ arm.0) arms
      → to (other v) ≡ v
      → to (from_code arms other v) ≡ v
  unfolding from_code
  to-from_code to other [] v h e = e
  to-from_code to other ((code, t) ∷ arms) v h e =
      ground (arith, to-from_code to other arms v h.1 e)
