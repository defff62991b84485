-- ===== src/Memdx/Codec/Examples.antt =====
-- Runs of the codec on a request to get a document.
use couchbase_rs.Prelude.{
  ℕ, ◌≡◌, ◌≢◌, refl, ◌⊎◌, ◌≤◌, List, [], ◌∷◌, ◌++◌, Option, none, some, Result, ok, err, panic,
  arith, length,
}
use couchbase_rs.Prelude.Bytes.{put_u32, put_u64}
use couchbase_rs.Memdx.Error.{Error}
use couchbase_rs.Memdx.Magic.{req, res, u8_from_magic, is_extended}
use couchbase_rs.Memdx.OpCode.{OpCode, u8_from_op_code}
use couchbase_rs.Memdx.Packet.{RequestPacket, ResponsePacket}
use couchbase_rs.Memdx.Codec.{
  header_size, decode, encode, encode_lengths, encode_with, encode_rest, decode_packet,
}
use couchbase_rs.Memdx.Codec.Layout.{lengths, tail_bytes}
use couchbase_rs.Memdx.Codec.RoundTrip.{IsEncodable, received, decode-encode}
use couchbase_rs.Memdx.Codec.Decode.{decode-append, decode_takes}
use couchbase_rs.Memdx.Codec.Malformed.{decode_packet_overlong, encode_outcome, Fits, opened}

abbrev get_request : RequestPacket
get_request = record {
  magic = req;
  op_code = OpCode.get;
  datatype = 0;
  vbucket_id = some 7;
  cas = none;
  extras = none;
  key = some (1 ∷ 2 ∷ []);
  value = none;
  framing_extras = none;
  opaque = some 1;
}

abbrev get_bytes : List ℕ
get_bytes =
    0x80 ∷ 0 ∷ 0 ∷ 2 ∷ 0 ∷ 0 ∷ 0 ∷ 7 ∷ 0 ∷ 0 ∷ 0 ∷ 2 ∷ 0 ∷ 0 ∷ 0 ∷ 1 ∷ 0 ∷ 0 ∷ 0 ∷ 0 ∷ 0 ∷ 0 ∷ 0 ∷ 0
    ∷ 1 ∷ 2 ∷ []

get_request-IsEncodable : IsEncodable get_request
unfolding is_extended
get_request-IsEncodable = record {
  marked = refl;
  vbucket_fits = omega arith;
  opaque_fits = omega arith;
  cas_fits = omega arith;
  extras_fit = omega arith;
  body_fits = omega arith;
}

get_request_encodes : encode get_request [] ≡ (ok tt, get_bytes)
unfolding encode encode_lengths encode_with encode_rest u8_from_op_code u8_from_magic put_u32
    put_u64
get_request_encodes = refl

decode-encode_example : decode (get_bytes ++ 9 ∷ []) ≡ (ok (some (received get_request)), 9 ∷ [])
decode-encode_example =
    decode-encode get_request get_bytes (9 ∷ []) get_request-IsEncodable get_request_encodes

abbrev answer : ResponsePacket → Result Error (Option ResponsePacket)
answer p = ok (some p)

is_packet : (p : ResponsePacket) → answer p ≢ ok none
is_packet p e = grind arith

decode-append_example :
    decode ((get_bytes ++ 9 ∷ []) ++ 8 ∷ []) ≡ (ok (some (received get_request)), 9 ∷ 8 ∷ [])
decode-append_example =
    decode-append (get_bytes ++ 9 ∷ []) (9 ∷ []) (8 ∷ []) (ok (some (received get_request)))
      (decode-encode get_request get_bytes (9 ∷ []) get_request-IsEncodable get_request_encodes)
      (is_packet (received get_request))

decode_takes_example :
    (taken : List ℕ) × (header_size ≤ length taken) × (get_bytes ++ 9 ∷ [] ≡ taken ++ 9 ∷ [])
decode_takes_example =
    decode_takes (get_bytes ++ 9 ∷ []) (9 ∷ []) (ok (some (received get_request)))
      (decode-encode get_request get_bytes (9 ∷ []) get_request-IsEncodable get_request_encodes)
      (is_packet (received get_request))

decode_packet_overlong_example :
    decode_packet
      (u8_from_magic res ∷ 0 ∷ lengths (is_extended res) 0 5 (tail_bytes 0 0 0 2 1 0 (1 ∷ 2 ∷ [])))
    ≡ panic
decode_packet_overlong_example =
    decode_packet_overlong res 0 0 5 0 0 0 2 1 0 (1 ∷ 2 ∷ []) (omega arith) (omega arith)
      (omega arith) (omega arith) (omega arith) (λ _. refl) (omega arith)

encode_outcome_example :
    (Fits none 2
      × (more : List ℕ) × (encode get_request (5 ∷ [])
          ≡ (ok tt, opened get_request (5 ∷ []) ++ more)))
    ⊎ ((¬ Fits none 2)
        × (e : Error) × (encode get_request (5 ∷ []) ≡ (err e, opened get_request (5 ∷ []))))
encode_outcome_example = encode_outcome get_request (5 ∷ [])
