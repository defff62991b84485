-- ===== src/Memdx/Packet.antt =====
-- sdk/couchbase-core/src/memdx/packet.rs: requests and responses as the client sees them.
use couchbase_rs.Prelude.{ℕ, List, Option, none}
use couchbase_rs.Memdx.Magic.{Magic}
use couchbase_rs.Memdx.OpCode.{OpCode}
use couchbase_rs.Memdx.Status.{Status}

pub record ResponsePacket : Type 0 where
  pub magic : Magic
  pub op_code : OpCode
  pub datatype : ℕ
  pub status : Status
  pub opaque : ℕ
  pub vbucket_id : Option ℕ
  pub cas : Option ℕ
  pub extras : Option (List ℕ)
  pub key : Option (List ℕ)
  pub value : Option (List ℕ)
  pub framing_extras : Option (List ℕ)

-- `ResponsePacket::new`
abbrev pub new_response : Magic → OpCode → ℕ → Status → ℕ → ResponsePacket
new_response magic op_code datatype status opaque = record {
  magic = magic;
  op_code = op_code;
  datatype = datatype;
  status = status;
  opaque = opaque;
  vbucket_id = none;
  cas = none;
  extras = none;
  key = none;
  value = none;
  framing_extras = none;
}

pub record RequestPacket : Type 0 where
  pub magic : Magic
  pub op_code : OpCode
  pub datatype : ℕ
  pub vbucket_id : Option ℕ
  pub cas : Option ℕ
  pub extras : Option (List ℕ)
  pub key : Option (List ℕ)
  pub value : Option (List ℕ)
  pub framing_extras : Option (List ℕ)
  pub opaque : Option ℕ
