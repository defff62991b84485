-- ===== src/Memdx/HelloFeature.antt =====
-- sdk/couchbase-core/src/memdx/hello_feature.rs: the features that HELLO negotiates.
use couchbase_rs.Prelude.{ℕ, List, [], ◌∷◌}
use couchbase_rs.Prelude.Codes.{from_code}

pub data HelloFeature : Type 0 where
  data_type tls tcp_no_delay seq_no tcp_delay xattr xerror select_bucket snappy : HelloFeature
  snappy_everywhere json duplex cluster_map_notif unordered_exec durations alt_requests :
      HelloFeature
  sync_replication collections preserve_expiry point_in_time_recovery create_as_deleted :
      HelloFeature
  replace_body_with_xattr cluster_map_known_version dedupe_not_my_vbucket_clustermap : HelloFeature
  cluster_map_change_notification_brief : HelloFeature
  unknown : ℕ → HelloFeature

unfoldable pub u16_from_hello_feature : HelloFeature → ℕ
u16_from_hello_feature data_type = 0x01
u16_from_hello_feature tls = 0x02
u16_from_hello_feature tcp_no_delay = 0x03
u16_from_hello_feature seq_no = 0x04
u16_from_hello_feature tcp_delay = 0x05
u16_from_hello_feature xattr = 0x06
u16_from_hello_feature xerror = 0x07
u16_from_hello_feature select_bucket = 0x08
u16_from_hello_feature snappy = 0x0a
u16_from_hello_feature json = 0x0b
u16_from_hello_feature duplex = 0x0c
u16_from_hello_feature cluster_map_notif = 0x0d
u16_from_hello_feature unordered_exec = 0x0e
u16_from_hello_feature durations = 0x0f
u16_from_hello_feature alt_requests = 0x10
u16_from_hello_feature sync_replication = 0x11
u16_from_hello_feature collections = 0x12
u16_from_hello_feature snappy_everywhere = 0x13
u16_from_hello_feature preserve_expiry = 0x14
u16_from_hello_feature point_in_time_recovery = 0x16
u16_from_hello_feature create_as_deleted = 0x17
u16_from_hello_feature replace_body_with_xattr = 0x19
u16_from_hello_feature cluster_map_known_version = 0x1d
u16_from_hello_feature dedupe_not_my_vbucket_clustermap = 0x1e
u16_from_hello_feature cluster_map_change_notification_brief = 0x1f
u16_from_hello_feature (unknown code) = code

unfoldable pub hello_feature_arms : List (ℕ × HelloFeature)
hello_feature_arms =
    (0x01, data_type)
    ∷ (0x02, tls)
    ∷ (0x03, tcp_no_delay)
    ∷ (0x04, seq_no)
    ∷ (0x05, tcp_delay)
    ∷ (0x06, xattr)
    ∷ (0x07, xerror)
    ∷ (0x08, select_bucket)
    ∷ (0x0a, snappy)
    ∷ (0x0b, json)
    ∷ (0x0c, duplex)
    ∷ (0x0d, cluster_map_notif)
    ∷ (0x0e, unordered_exec)
    ∷ (0x0f, durations)
    ∷ (0x10, alt_requests)
    ∷ (0x11, sync_replication)
    ∷ (0x12, collections)
    ∷ (0x13, snappy_everywhere)
    ∷ (0x14, preserve_expiry)
    ∷ (0x16, point_in_time_recovery)
    ∷ (0x17, create_as_deleted)
    ∷ (0x19, replace_body_with_xattr)
    ∷ (0x1d, cluster_map_known_version)
    ∷ (0x1e, dedupe_not_my_vbucket_clustermap)
    ∷ (0x1f, cluster_map_change_notification_brief)
    ∷ []

unfoldable pub hello_feature_from_u16 : ℕ → HelloFeature
hello_feature_from_u16 = from_code hello_feature_arms unknown
