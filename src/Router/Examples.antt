-- ===== src/Router/Examples.antt =====
-- Runs of the routing on a map of two vbuckets and two servers.
use Prim.Native.String.{String}
use couchbase_rs.Prelude.{
  ℕ, zero, suc, ◌<◌, ◌≡◌, refl, List, [], ◌∷◌, Option, none, some, Result, ok, err, panic, arith,
  get_elem?, true, ◌^◌, ◌*◌,
}
use couchbase_rs.Prelude.Integers.{ℤ, pos}
use couchbase_rs.Memdx.Error as Memdx
use couchbase_rs.Memdx.OpCode.{OpCode}
use couchbase_rs.Memdx.Status.{Status}
use couchbase_rs.Errors.{CoreError, ErrorKind, new_error, no_server_assigned}
use couchbase_rs.Router.{
  VbucketRoutingInfo, dispatch_by_key, dispatch_to_vbucket, get_vbucket_info, has_vbucket_info,
  server_from_zero, assigned,
}
use couchbase_rs.Router.Vbuckets.{
  VbucketMap, num_vbuckets, vbucket_by_key, node_by_vbucket, checked_rem, replica_of, id_or,
}
use couchbase_rs.Router.Dispatch.{
  IsServed, vbucket_of, dispatch_by_key_served, dispatch_to_vbucket_first, vbucket_by_key_in_range,
}
use couchbase_rs.Router.Misrouted.{
  after_dispatch, after_operation, handed_over, config_of, is_not_my_vbucket, sent_by,
  text_or_empty, orchestrate_memd_routing, HandedOver, orchestrate_memd_routing_hands_over,
}

abbrev two_vbuckets : VbucketMap
two_vbuckets = record {
  entries = (pos 0 ∷ pos 1 ∷ []) ∷ (pos 1 ∷ pos 0 ∷ []) ∷ [];
  num_replicas = 1;
}

abbrev two_servers : VbucketRoutingInfo
two_servers = record {
  vbucket_info = some two_vbuckets;
  server_list = "endpoint1" ∷ "endpoint2" ∷ [];
  bucket_selected = true;
}

-- In place of the checksum.
abbrev first_shifted : List ℕ → ℕ
first_shifted [] = 0
first_shifted (byte ∷ rest) = byte * 2 ^ 16

two_servers-IsServed : IsServed two_servers two_vbuckets 0
two_servers-IsServed zero h = (pos 0 ∷ pos 1 ∷ [], refl, 0, refl, "endpoint1", refl)
two_servers-IsServed (suc zero) h = (pos 1 ∷ pos 0 ∷ [], refl, 1, refl, "endpoint2", refl)
two_servers-IsServed (suc (suc n)) h = absurd (omega arith)

vbucket_by_key_in_range_example :
    (0 < 2
      → 2 < 2 ^ 16
      → (vbucket_by_key first_shifted two_vbuckets (5 ∷ [])
          ≡ ok (vbucket_of first_shifted 2 (5 ∷ [])))
        × (vbucket_of first_shifted 2 (5 ∷ []) < 2))
    × (num_vbuckets two_vbuckets ≡ 2 ^ 16
        → vbucket_by_key first_shifted two_vbuckets (5 ∷ []) ≡ panic)
vbucket_by_key_in_range_example = vbucket_by_key_in_range first_shifted two_vbuckets (5 ∷ [])

dispatch_by_key_served_example :
    (row : List ℤ) × (idx : ℕ) × (server : String) × (get_elem? two_vbuckets.entries
        (vbucket_of first_shifted 2 (5 ∷ []))
      ≡ some row)
    × (get_elem? row 0 ≡ some (pos idx))
    × (get_elem? two_servers.server_list idx ≡ some server)
    × (dispatch_by_key first_shifted two_servers (5 ∷ []) 0
        ≡ ok (server, vbucket_of first_shifted 2 (5 ∷ [])))
dispatch_by_key_served_example =
    dispatch_by_key_served first_shifted two_servers two_vbuckets (5 ∷ []) 0 refl refl (omega arith)
      (omega arith) (omega arith) (omega arith) two_servers-IsServed

abbrev first : ℕ
first = 0

dispatch_to_vbucket_first_example :
    (0 < first → dispatch_to_vbucket two_servers 0 ≡ ok "endpoint1")
    × (first ≡ 0 → dispatch_to_vbucket two_servers 0 ≡ err (new_error (no_server_assigned 0)))
dispatch_to_vbucket_first_example =
    dispatch_to_vbucket_first two_servers two_vbuckets 0 (pos 0 ∷ pos 1 ∷ []) first "endpoint1" refl
      refl (omega arith) refl refl refl

abbrev as_text : List ℕ → Option String
as_text bytes = some "map"

abbrev replaced : String → String → String → String
replaced text old new = new

abbrev parsed : String → Option String
parsed text = some text

abbrev moved : CoreError
moved = new_error (
    ErrorKind.memdx (
      Memdx.server (record {
        kind = Memdx.not_my_vbucket;
        config = some (1 ∷ []);
        context = none;
        op_code = OpCode.get;
        status = Status.not_my_vbucket;
        opaque = 1;
      })))

abbrev answers_moved : String → ℕ → Result CoreError ℕ
answers_moved endpoint vb_id = err moved

moved_run :
    orchestrate_memd_routing as_text replaced parsed first_shifted two_servers
      (5 ∷ [])
      0
      answers_moved
    ≡ (err moved, some ("endpoint2", "endpoint2"))
unfolding orchestrate_memd_routing after_dispatch dispatch_by_key get_vbucket_info has_vbucket_info
    vbucket_by_key checked_rem node_by_vbucket replica_of server_from_zero id_or assigned
    after_operation handed_over config_of is_not_my_vbucket Memdx.has_server_config sent_by
    text_or_empty
moved_run = refl

orchestrate_memd_routing_hands_over_example :
    (endpoint : String) × (vb_id : ℕ) × (dispatch_by_key first_shifted two_servers (5 ∷ []) 0
      ≡ ok (endpoint, vb_id))
    × HandedOver as_text replaced parsed endpoint
        (answers_moved endpoint vb_id)
        (err moved)
        "endpoint2"
        "endpoint2"
orchestrate_memd_routing_hands_over_example =
    orchestrate_memd_routing_hands_over as_text replaced parsed first_shifted two_servers (5 ∷ []) 0
      answers_moved (err moved) "endpoint2" "endpoint2" moved_run
