-- ===== src/Memdx/ExtFrame/Durability.antt =====
-- The durability frames of memdx/extframe.rs, over memdx/durability_level.rs. A timeout is the
-- nanoseconds of its `Duration`.
use Prim.Native.Nat.{bit_or}
use couchbase_rs.Prelude.{
  ℕ, ◌*◌, ◌/◌, ◌%◌, ◌^◌, ◌≤◌, ◌<◌, ◌≡◌, refl, ◌≢◌, List, [], ◌∷◌, Option, none, some, Result, ok,
  err, ◌>>=◌, ◌>>◌, ◌∙◌, guard, leb, ◌==◌, if◌then◌else◌, arith, le→leb, length,
}
use couchbase_rs.Prelude.Bits.{or_shifted}
use couchbase_rs.Prelude.Codes.{from_code}
use couchbase_rs.Memdx.Error.{Error, invalid_argument, message, protocol}

pub data DurabilityLevel : Type 0 where
  majority majority_and_persist_active persist_to_majority : DurabilityLevel
  other : ℕ → DurabilityLevel

unfoldable pub u8_from_durability_level : DurabilityLevel → ℕ
u8_from_durability_level majority = 1
u8_from_durability_level majority_and_persist_active = 2
u8_from_durability_level persist_to_majority = 3
u8_from_durability_level (other _) = 0

unfoldable pub durability_level_from_u8 : ℕ → DurabilityLevel
unfolding from_code
durability_level_from_u8 =
    from_code ((1, majority) ∷ (2, majority_and_persist_active) ∷ (3, persist_to_majority) ∷ [])
      other

pub record DurabilityLevelSettings : Type 0 where
  pub durability_level : DurabilityLevel
  pub timeout : Option ℕ

-- `Duration::as_millis` and `Duration::from_millis`
abbrev pub as_millis : ℕ → ℕ
as_millis nanos = nanos / 10 ^ 6

abbrev pub from_millis : ℕ → ℕ
from_millis millis = millis * 10 ^ 6

pub encode_durability_ext_frame : DurabilityLevel → Option ℕ → Result Error (List ℕ)
encode_durability_ext_frame level none = ok (u8_from_durability_level level ∷ [])
encode_durability_ext_frame level (some timeout) = do
  let timeout_millis = as_millis timeout
  guard (leb timeout_millis 65535) (
      invalid_argument "cannot encode durability timeout greater than 65535 milliseconds"
        (some "durability_level_timeout"))
  let at_least_one = if timeout_millis == 0 then 1 else timeout_millis
  ok (u8_from_durability_level level ∷ (at_least_one / 2 ^ 8 % 2 ^ 8) ∷ (at_least_one % 2 ^ 8) ∷ [])

-- The bytes taken off the front of the vector are the whole of it.
pub decode_durability_level_ext_frame : List ℕ → Result Error DurabilityLevelSettings
decode_durability_level_ext_frame (level ∷ []) =
    ok (record { durability_level = durability_level_from_u8 level; timeout = none })
decode_durability_level_ext_frame (level ∷ hi ∷ lo ∷ []) = ok (record {
  durability_level = durability_level_from_u8 level;
  timeout = some (from_millis (bit_or (hi * 2 ^ 8) lo));
})
decode_durability_level_ext_frame _ = err (message "invalid durability ext frame length" [])

-- `decode_server_duration_ext_frame`: the curve from the two bytes to microseconds is
-- floating-point arithmetic, a parameter here.
pub decode_server_duration_ext_frame : (ℕ → ℕ) → List ℕ → Result Error ℕ
decode_server_duration_ext_frame curve (hi ∷ lo ∷ []) = ok (curve (bit_or (hi * 2 ^ 8) lo) * 1000)
decode_server_duration_ext_frame curve _ = err (protocol "invalid server duration ext frame length")

durability_level_from_u8-u8_from_durability_level :
    (level : DurabilityLevel)
    → ((n : ℕ) → level ≢ other n)
    → durability_level_from_u8 (u8_from_durability_level level) ≡ level
unfolding durability_level_from_u8 u8_from_durability_level
durability_level_from_u8-u8_from_durability_level (other n) h = absurd (h n refl)
durability_level_from_u8-u8_from_durability_level _ h = refl

-- The timeout that arrives: whole milliseconds, and at least one.
pub sent_timeout : Option ℕ → Option ℕ
sent_timeout none = none
sent_timeout (some t) = some (from_millis (if as_millis t == 0 then 1 else as_millis t))

-- The timeouts that two bytes hold.
abbrev pub IsSendable : Option ℕ → Type 0
IsSendable none = Unit {0}
IsSendable (some t) = as_millis t ≤ 65535

two_bytes : (v : ℕ) → v < 2 ^ 16 → bit_or (v / 2 ^ 8 % 2 ^ 8 * 2 ^ 8) (v % 2 ^ 8) ≡ v
two_bytes v h = or_shifted 8 (v / 2 ^ 8 % 2 ^ 8) (v % 2 ^ 8) (omega arith) ∙ omega arith

-- A named level decodes from its frame, with its timeout cut to whole milliseconds and at least
-- one, if it has a timeout, of at most 65535 ms.
pub decode-encode_durability :
    (level : DurabilityLevel) (timeout : Option ℕ)
    → ((n : ℕ) → level ≢ other n)
    → IsSendable timeout
    → (encode_durability_ext_frame level timeout >>= decode_durability_level_ext_frame)
      ≡ ok (record { durability_level = level; timeout = sent_timeout timeout })
unfolding encode_durability_ext_frame decode_durability_level_ext_frame sent_timeout
decode-encode_durability level none h s =
    rw (durability_level_from_u8-u8_from_durability_level level h)
decode-encode_durability level (some t) h s = rw (
  le→leb (as_millis t) 65535 s,
  durability_level_from_u8-u8_from_durability_level level h,
  two_bytes (if as_millis t == 0 then 1 else as_millis t) (ground arith),
)

-- Such a frame is one or three bytes.
pub encode_durability_short :
    (level : DurabilityLevel) (timeout : Option ℕ)
    → IsSendable timeout
    → (body : List ℕ) × (encode_durability_ext_frame level timeout ≡ ok body) × (length body ≤ 3)
unfolding encode_durability_ext_frame
encode_durability_short level none s = (u8_from_durability_level level ∷ [], refl, omega arith)
encode_durability_short level (some t) s =
    let millis : ℕ = if as_millis t == 0 then 1 else as_millis t in
    (
      u8_from_durability_level level ∷ (millis / 2 ^ 8 % 2 ^ 8) ∷ (millis % 2 ^ 8) ∷ [],
      rw (le→leb (as_millis t) 65535 s),
      omega arith,
    )
