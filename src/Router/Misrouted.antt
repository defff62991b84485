-- ===== src/Router/Misrouted.antt =====
-- `orchestrate_memd_routing` of sdk/couchbase-core/src/vbucketrouter.rs: one attempt at a request,
-- and the map that a server sends back when the vbucket is not one of its own. What decodes the map
-- is an argument: `from_utf8`, the replacement of a text in a text, and the JSON parser. The
-- handler of the map is the second component of the outcome, with what it is called on.
use Prim.Native.String.{String}
use couchbase_rs.Prelude.{
  ℕ, ◌≡◌, refl, inl, inr, Bool, true, false, List, [], ◌∷◌, Option, none, some, Result, ok, err,
  panic, ◌≢◌, ap, sym, ◌∙◌, Bool-cases, arith, if◌then◌else◌,
}
use mathlib.Core.Option.{some-ne-none}
use couchbase_rs.Memdx.Error.{
  Error, ServerErrorKind, server, resource, has_server_config, not_my_vbucket,
}
use couchbase_rs.Errors.{CoreError, is_memdx_error}
use couchbase_rs.Router.{VbucketRoutingInfo, dispatch_by_key}

-- `Error::is_server_error_kind` for the kind `NotMyVbucket`.
abbrev kind_is_not_my_vbucket : ServerErrorKind → Bool
kind_is_not_my_vbucket not_my_vbucket = true
kind_is_not_my_vbucket _ = false

unfoldable pub is_not_my_vbucket : Error → Bool
is_not_my_vbucket (server e) = kind_is_not_my_vbucket e.kind
is_not_my_vbucket (resource e) = kind_is_not_my_vbucket e.cause.kind
is_not_my_vbucket _ = false

-- The outcome of a request, and the map and its sender where the handler is called.
abbrev pub Routed {ℓ κ} : Type ℓ → Type κ → Type (ℓ ⊔ κ)
Routed A Config = Result CoreError A × Option (Config × String)

unfoldable pub config_of : Option Error → Option (List ℕ)
config_of (some memdx_err) =
    if is_not_my_vbucket memdx_err then has_server_config memdx_err else none
config_of none = none

unfoldable pub text_or_empty : Option String → String
text_or_empty (some v) = v
text_or_empty none = ""

unfoldable pub sent_by {κ} : {Config : Type κ} → String → Option Config → Option (Config × String)
sent_by endpoint (some config) = some (config, endpoint)
sent_by endpoint none = none

module _ {κ} {Config : Type κ} (from_utf8 : List ℕ → Option String)
    (replace : String → String → String → String) (from_str : String → Option Config) where
  unfoldable pub handed_over : String → Option (List ℕ) → Option (Config × String)
  handed_over endpoint none = none
  handed_over endpoint (some []) = none
  handed_over endpoint (some (byte ∷ bytes)) =
      let value = text_or_empty (from_utf8 (byte ∷ bytes)) in
      sent_by endpoint (from_str (replace value "$HOST" endpoint))

  unfoldable pub after_operation {ℓ} : {A : Type ℓ} → String → Result CoreError A → Routed A Config
  after_operation endpoint (ok r) = (ok r, none)
  after_operation endpoint (err e) = (err e, handed_over endpoint (config_of (is_memdx_error e)))
  after_operation endpoint panic = (panic, none)

  unfoldable pub after_dispatch {ℓ} :
      {A : Type ℓ}
      → Result CoreError (String × ℕ)
      → (String → ℕ → Result CoreError A)
      → Routed A Config
  after_dispatch (ok (endpoint, vb_id)) operation =
      after_operation endpoint (operation endpoint vb_id)
  after_dispatch (err e) operation = (err e, none)
  after_dispatch panic operation = (panic, none)

  unfoldable pub orchestrate_memd_routing {ℓ} :
      {A : Type ℓ}
      → (List ℕ → ℕ)
      → VbucketRoutingInfo
      → List ℕ
      → ℕ
      → (String → ℕ → Result CoreError A)
      → Routed A Config
  orchestrate_memd_routing crc32 info key vb_server_idx operation =
      after_dispatch (dispatch_by_key crc32 info key vb_server_idx) operation

  sent_by-some :
      (endpoint sender : String) (parsed : Option Config) (config : Config)
      → sent_by endpoint parsed ≡ some (config, sender)
      → (parsed ≡ some config) × (endpoint ≡ sender)
  unfolding sent_by
  sent_by-some endpoint sender none config h = grind arith
  sent_by-some endpoint sender (some c) config h = grind arith

  handed_over-some :
      (endpoint sender : String) (sent : Option (List ℕ)) (config : Config)
      → handed_over endpoint sent ≡ some (config, sender)
      → (bytes : List ℕ) × (sent ≡ some bytes)
        × (bytes ≢ [])
        × (from_str (replace (text_or_empty (from_utf8 bytes)) "$HOST" endpoint) ≡ some config)
        × (endpoint ≡ sender)
  unfolding handed_over
  handed_over-some endpoint sender none config h = grind arith
  handed_over-some endpoint sender (some []) config h = grind arith
  handed_over-some endpoint sender (some (byte ∷ bytes)) config h =
      let (parsed, same) = sent_by-some endpoint sender _ config h in
      (byte ∷ bytes, refl, (λ e. grind arith), parsed, same)

  config_of-some :
      (e : Option Error) (bytes : List ℕ)
      → config_of e ≡ some bytes
      → (m : Error) × (e ≡ some m)
        × (is_not_my_vbucket m ≡ true)
        × (has_server_config m ≡ some bytes)
  unfolding config_of
  config_of-some none bytes h = grind arith
  config_of-some (some m) bytes h = elim (Bool-cases (is_not_my_vbucket m)) [
    | inl nmvb ↦ (m, refl, nmvb, ap (λ b. if b then has_server_config m else none) (sym nmvb) ∙ h)
    | inr other ↦ absurd (
        some-ne-none bytes
          (sym (ap (λ b. if b then has_server_config m else none) (sym other) ∙ h)))
  ]

  -- What a map handed over by the endpoint says of the outcome of the operation there.
  abbrev pub HandedOver {ℓ} :
      {A : Type ℓ}
      → String
      → Result CoreError A
      → Result CoreError A
      → Config
      → String
      → Type (ℓ ⊔ κ)
  HandedOver endpoint outcome result config sender =
      (e : CoreError) × (m : Error) × (bytes : List ℕ) × (outcome ≡ err e)
      × (result ≡ err e)
      × (is_memdx_error e ≡ some m)
      × (is_not_my_vbucket m ≡ true)
      × (has_server_config m ≡ some bytes)
      × (bytes ≢ [])
      × (from_str (replace (text_or_empty (from_utf8 bytes)) "$HOST" endpoint) ≡ some config)
      × (endpoint ≡ sender)

  after_operation-some {ℓ} :
      {A : Type ℓ} (endpoint : String) (outcome result : Result CoreError A) (config : Config)
      (sender : String)
      → after_operation endpoint outcome ≡ (result, some (config, sender))
      → HandedOver endpoint outcome result config sender
  unfolding after_operation
  after_operation-some endpoint (ok r) result config sender h =
      absurd (some-ne-none (config, sender) (sym (ap (λ p. p.1) h)))
  after_operation-some endpoint panic result config sender h =
      absurd (some-ne-none (config, sender) (sym (ap (λ p. p.1) h)))
  after_operation-some endpoint (err e) result config sender h =
      let (bytes, sent, filled, parsed, same) =
        handed_over-some endpoint sender (config_of (is_memdx_error e)) config (ap (λ p. p.1) h) in
      let (m, is_m, nmvb, has) = config_of-some (is_memdx_error e) bytes sent in
      (e, m, bytes, refl, sym (ap (λ p. p.0) h), is_m, nmvb, has, filled, parsed, same)

  after_dispatch-some {ℓ} :
      {A : Type ℓ} (target : Result CoreError (String × ℕ))
      (operation : String → ℕ → Result CoreError A) (result : Result CoreError A) (config : Config)
      (sender : String)
      → after_dispatch target operation ≡ (result, some (config, sender))
      → (endpoint : String) × (vb_id : ℕ) × (target ≡ ok (endpoint, vb_id))
        × HandedOver endpoint (operation endpoint vb_id) result config sender
  unfolding after_dispatch
  after_dispatch-some (ok (endpoint, vb_id)) operation result config sender h = (
    endpoint,
    vb_id,
    refl,
    after_operation-some endpoint (operation endpoint vb_id) result config sender h,
  )
  after_dispatch-some (err e) operation result config sender h =
      absurd (some-ne-none (config, sender) (sym (ap (λ p. p.1) h)))
  after_dispatch-some panic operation result config sender h =
      absurd (some-ne-none (config, sender) (sym (ap (λ p. p.1) h)))

  -- Where the handler is called with a map, the request was dispatched to an endpoint and failed
  -- there, the caller gets that failure itself, the failure is one of the kind "not my vbucket"
  -- with a map that is not empty, and the handler's map is the parse of the sent one with the
  -- endpoint in the place of `$HOST`, next to the endpoint.
  pub orchestrate_memd_routing_hands_over {ℓ} :
      {A : Type ℓ} (crc32 : List ℕ → ℕ) (info : VbucketRoutingInfo) (key : List ℕ) (idx : ℕ)
      (operation : String → ℕ → Result CoreError A) (result : Result CoreError A) (config : Config)
      (sender : String)
      → orchestrate_memd_routing crc32 info key idx operation ≡ (result, some (config, sender))
      → (endpoint : String) × (vb_id : ℕ) × (dispatch_by_key crc32 info key idx
          ≡ ok (endpoint, vb_id))
        × HandedOver endpoint (operation endpoint vb_id) result config sender
  unfolding orchestrate_memd_routing
  orchestrate_memd_routing_hands_over crc32 info key idx operation result config sender h =
      after_dispatch-some (dispatch_by_key crc32 info key idx) operation result config sender h
