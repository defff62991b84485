-- ===== src/Memdx/Crud/Examples.antt =====
-- Runs of the encodings that the operations share.
use couchbase_rs.Prelude.{
  ℕ, zero, suc, ◌≤◌, ◌≡◌, ◌≢◌, refl, true, List, [], ◌∷◌, none, some, ok, arith, length,
}
use couchbase_rs.Memdx.FrameCode.{ext_res_frame_code_from_u16}
use couchbase_rs.Memdx.Magic.{req_ext}
use couchbase_rs.Memdx.ExtFrame.{decode_ext_frame}
use couchbase_rs.Memdx.ExtFrame.Uleb.{uleb_value}
use couchbase_rs.Memdx.ExtFrame.Durability.{
  majority, other, decode_durability_level_ext_frame, sent_timeout,
}
use couchbase_rs.Memdx.Crud.{OpsCrud, encode_collection_and_key, encode_req_ext_frames}
use couchbase_rs.Memdx.Crud.Keys.{encode_collection_and_key_fits}
use couchbase_rs.Memdx.Crud.Frames.{durability_sent}

abbrev all_enabled : OpsCrud
all_enabled = record {
  collections_enabled = true;
  durability_enabled = true;
  preserve_expiry_enabled = true;
  ext_frames_enabled = true;
}

abbrev zeros : ℕ → List ℕ
zeros zero = []
zeros (suc n) = 0 ∷ zeros n

encode_collection_and_key_fits_example :
    (sent : List ℕ) × (encode_collection_and_key all_enabled 300 (1 ∷ 2 ∷ []) (zeros 251) ≡ ok sent)
    × (uleb_value sent ≡ some (300, 1 ∷ 2 ∷ []))
    × (length sent ≤ 251)
encode_collection_and_key_fits_example =
    encode_collection_and_key_fits all_enabled 300 (1 ∷ 2 ∷ []) (zeros 251) refl (omega arith)
      (omega arith) refl

majority_is_named : (n : ℕ) → majority ≢ other n
majority_is_named n e = grind arith

durability_sent_example :
    (used : ℕ) × (sent body : List ℕ) × (encode_req_ext_frames all_enabled
        (some majority)
        (some 5000000)
        none
        none
        (0 ∷ 0 ∷ 0 ∷ 0 ∷ [])
      ≡ ok (req_ext, used, sent))
    × (decode_ext_frame sent ≡ ok (ext_res_frame_code_from_u16 1, body, used))
    × (decode_durability_level_ext_frame body
        ≡ ok (record { durability_level = majority; timeout = sent_timeout (some 5000000) }))
durability_sent_example =
    durability_sent all_enabled majority (some 5000000) 0 (0 ∷ 0 ∷ 0 ∷ []) refl refl
      majority_is_named (omega arith) (omega arith)
