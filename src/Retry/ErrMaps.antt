-- ===== src/Retry/ErrMaps.antt =====
-- sdk/couchbase-core/src/errmap.rs and errmapcomponent.rs: the server's map of its own errors, by
-- which a status that the client does not know may be retried. The parser of the map is an
-- argument; the shared pointer to the current map is the map itself.
use Prim.Native.String.{String}
use text.Mathlib.Text.{◌==◌ as is_text}
use couchbase_rs.Prelude.{
  ℕ, Bool, true, false, ◌||◌, List, [], ◌∷◌, Option, none, some, Result, ok, err, panic, ◌==◌,
  if◌then◌else◌,
}
use couchbase_rs.Prelude.Integers.{ℤ, ltb_ℤ}
use couchbase_rs.Memdx.Status.{Status, u16_from_status}

pub record ErrMapError : Type 0 where
  pub name : String
  pub description : String
  pub attributes : List String

pub record ErrMap : Type 0 where
  pub version : ℤ
  pub revision : ℤ
  -- The hash map's entries.
  pub errors : List (ℕ × ErrMapError)

pub record ErrMapComponent : Type 0 where
  pub err_map : Option ErrMap

-- `HashMap::get`
unfoldable pub get : List (ℕ × ErrMapError) → ℕ → Option ErrMapError
get [] code = none
get ((c, e) ∷ rest) code = if c == code then some e else get rest code

abbrev pub is_retry_attribute : String → Bool
is_retry_attribute attr =
    is_text attr "retry-now" || is_text attr "retry-later" || is_text attr "auto-retry"

unfoldable pub any_retry_attribute : List String → Bool
any_retry_attribute [] = false
any_retry_attribute (attr ∷ rest) =
    if is_retry_attribute attr then true else any_retry_attribute rest

unfoldable pub has_retry_attribute : Option ErrMapError → Bool
has_retry_attribute (some err_data) = any_retry_attribute err_data.attributes
has_retry_attribute none = false

unfoldable pub should_retry : ErrMapComponent → Status → Bool
should_retry self status = elim self.err_map [
  | some err_map ↦ has_retry_attribute (get err_map.errors (u16_from_status status))
  | none ↦ false
]

-- `on_err_map` where no other thread stores a map meanwhile: the comparison then succeeds, and the
-- second turn of the loop ends on the revision that the first one stored.
unfoldable pub newer_map : Option ErrMap → ErrMap → ErrMap
newer_map (some current) new = if ltb_ℤ current.revision new.revision then new else current
newer_map none new = new

unfoldable pub on_err_map {ℓ} :
    {E : Type ℓ} → (List ℕ → Result E ErrMap) → ErrMapComponent → List ℕ → ErrMapComponent
on_err_map parse_error_map self bytes = elim (parse_error_map bytes) [
  | ok new_err_map ↦ record { err_map = some (newer_map self.err_map new_err_map) }
  | err e ↦ self
  | panic ↦ self
]
