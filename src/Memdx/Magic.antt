-- ===== src/Memdx/Magic.antt =====
-- sdk/couchbase-core/src/memdx/magic.rs: the first byte of a packet.
use couchbase_rs.Prelude.{ℕ, List, ◌≡◌, refl, [], ◌∷◌, Bool, true, false, Result, ok, err}
use couchbase_rs.Prelude.Codes.{from_code}
use couchbase_rs.Memdx.Error.{Error, message}

pub data Magic : Type 0 where
  req res req_ext res_ext server_req server_res : Magic

unfoldable pub is_request : Magic → Bool
is_request req = true
is_request req_ext = true
is_request _ = false

unfoldable pub is_response : Magic → Bool
is_response res = true
is_response res_ext = true
is_response _ = false

unfoldable pub is_extended : Magic → Bool
is_extended req_ext = true
is_extended res_ext = true
is_extended _ = false

unfoldable pub u8_from_magic : Magic → ℕ
u8_from_magic req = 0x80
u8_from_magic res = 0x81
u8_from_magic req_ext = 0x08
u8_from_magic res_ext = 0x18
u8_from_magic server_req = 0x82
u8_from_magic server_res = 0x83

unfoldable pub magic_arms : List (ℕ × Result Error Magic)
magic_arms =
    (0x80, ok req)
    ∷ (0x81, ok res)
    ∷ (0x08, ok req_ext)
    ∷ (0x18, ok res_ext)
    ∷ (0x82, ok server_req)
    ∷ (0x83, ok server_res)
    ∷ []

unfoldable pub magic_from_u8 : ℕ → Result Error Magic
unfolding from_code magic_arms
magic_from_u8 = from_code magic_arms (λ value. err (message "unknown magic {}" (value ∷ [])))

pub magic_from_u8-u8_from_magic : (m : Magic) → magic_from_u8 (u8_from_magic m) ≡ ok m
unfolding magic_from_u8 u8_from_magic
magic_from_u8-u8_from_magic req = refl
magic_from_u8-u8_from_magic _ = refl
