-- ===== src/Memdx/ExtFrame/Responses.antt =====
-- `iter_ext_frames` and `decode_res_ext_frames` of sdk/couchbase-core/src/memdx/extframe.rs: what a
-- client takes from the framing extras of a response.
use couchbase_rs.Prelude.{
  ℕ, ◌+◌, ◌*◌, ◌<◌, ◌≡◌, Bool, true, false, List, [], ◌∷◌, ◌++◌, Option, none, some, Result, ok,
  ◌>>=◌, length, drop, if◌then◌else◌,
}
use couchbase_rs.Memdx.Error.{Error}
use couchbase_rs.Memdx.FrameCode.{ExtResFrameCode, ext_res_frame_code_from_u16}
use couchbase_rs.Memdx.ExtFrame.{decode_ext_frame}
use couchbase_rs.Memdx.ExtFrame.Durability.{decode_server_duration_ext_frame}
use couchbase_rs.Memdx.ExtFrame.RoundTrip.{decode_short}

-- `iter_ext_frames`: the frame that the callback is called on, if any, and the rest of the buffer.
unfoldable pub iter_ext_frames : List ℕ → Result Error (Option (ExtResFrameCode × List ℕ) × List ℕ)
iter_ext_frames [] = ok (none, [])
iter_ext_frames (byte ∷ rest) = do
  (frame_code, frame_body, buf_pos) ← decode_ext_frame (byte ∷ rest)
  ok (some (frame_code, frame_body), drop buf_pos (byte ∷ rest))

-- `code == ExtResFrameCode::ServerDuration`
unfoldable pub is_server_duration : ExtResFrameCode → Bool
is_server_duration ExtResFrameCode.server_duration = true
is_server_duration _ = false

unfoldable pub duration_in : (ℕ → ℕ) → Option (ExtResFrameCode × List ℕ) → Result Error (Option ℕ)
duration_in curve none = ok none
duration_in curve (some (code, body)) =
    if is_server_duration code
    then (decode_server_duration_ext_frame curve body >>= λ d. ok (some d))
    else ok none

unfoldable pub decode_res_ext_frames : (ℕ → ℕ) → List ℕ → Result Error (Option ℕ)
decode_res_ext_frames curve buf = do (seen, rest) ← iter_ext_frames buf; duration_in curve seen

-- The duration that a response's framing extras give is the one of their first frame, for a code
-- and a length below 15: if that frame is of another kind there is none, whatever frames follow
-- it.
pub decode_res_ext_frames_first :
    (curve : ℕ → ℕ) (code : ℕ) (body rest : List ℕ)
    → code < 15
    → length body < 15
    → decode_res_ext_frames curve ((code * 16 + length body) ∷ (body ++ rest)) ≡ (
        if is_server_duration (ext_res_frame_code_from_u16 code)
        then (decode_server_duration_ext_frame curve body >>= λ d. ok (some d))
        else ok none)
unfolding decode_res_ext_frames iter_ext_frames duration_in
decode_res_ext_frames_first curve code body rest h k = rw (decode_short code body rest h k)
