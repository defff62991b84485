-- ===== src/Config.antt =====
-- sdk/couchbase-core/src/configmanager.rs, with the order of configurations in parsedconfig.rs: the
-- latest configuration of the cluster that a client has seen. The locks and channels are the values
-- they hold. What a configuration says of a node is any type, for nothing here reads it; its
-- features and the host it came from are left out.
mod Examples
pub mod Update
pub mod Calls
pub mod Fetch
pub mod Told
use Prim.Native.String.{String}
use couchbase_rs.Prelude.{
  ℕ, Bool, true, false, List, Option, none, some, Result, ok, err, panic, ◌||◌, ◌&&◌, if◌then◌else◌,
  not,
}
use couchbase_rs.Prelude.Integers.{ℤ, ltb_ℤ}
use couchbase_rs.Router.Vbuckets.{VbucketMap}

pub data BucketType : Type 0 where
  invalid couchbase : BucketType

-- The bucket's feature list is left out.
pub record ParsedConfigBucket : Type 0 where
  pub bucket_uuid : String
  pub bucket_name : String
  pub bucket_type : BucketType
  pub vbucket_map : Option VbucketMap

pub record ParsedConfig (Node : Type 0) : Type 0 where
  pub rev_id : ℤ
  pub rev_epoch : ℤ
  pub bucket : Option ParsedConfigBucket
  pub nodes : List Node

pub data Ordering : Type 0 where
  less equal greater : Ordering

-- `i64::cmp`
unfoldable pub cmp : ℤ → ℤ → Ordering
cmp a b = if ltb_ℤ a b then less else if ltb_ℤ b a then greater else equal

-- One comparison, and the next where it finds no difference.
unfoldable pub then_by : Ordering → Ordering → Ordering
then_by less next = less
then_by greater next = greater
then_by equal next = next

unfoldable pub partial_cmp :
    {Node : Type 0} → ParsedConfig Node → ParsedConfig Node → Option Ordering
partial_cmp self other =
    some (then_by (cmp self.rev_epoch other.rev_epoch) (cmp self.rev_id other.rev_id))

-- `a != b` on the types of two buckets.
unfoldable pub differ : BucketType → BucketType → Bool
differ invalid invalid = false
differ couchbase couchbase = false
differ invalid couchbase = true
differ couchbase invalid = true

unfoldable pub bucket_type_changed : Option ParsedConfigBucket → Option ParsedConfigBucket → Bool
bucket_type_changed none none = false
bucket_type_changed (some _) none = true
bucket_type_changed none (some _) = true
bucket_type_changed (some a) (some b) = differ a.bucket_type b.bucket_type

unfoldable pub is_greater : Option Ordering → Bool
is_greater (some greater) = true
is_greater (some less) = false
is_greater (some equal) = false
is_greater none = false

unfoldable pub can_update_config : {Node : Type 0} → ParsedConfig Node → ParsedConfig Node → Bool
can_update_config new_config old_config =
    if bucket_type_changed new_config.bucket old_config.bucket
    then true
    else is_greater (partial_cmp new_config old_config)

pub record ConfigVersion : Type 0 where
  pub rev_epoch : ℤ
  pub rev_id : ℤ

pub record ConfigManager (Node : Type 0) : Type 0 where
  pub latest_config : ParsedConfig Node
  pub latest_version : ConfigVersion
  pub on_new_config : ParsedConfig Node
  pub performing_out_of_band_fetch : Bool

abbrev pub version_of : {Node : Type 0} → ParsedConfig Node → ConfigVersion
version_of config = record { rev_epoch = config.rev_epoch; rev_id = config.rev_id }

-- `ConfigManagerMemd::new`
abbrev pub new_manager : {Node : Type 0} → ParsedConfig Node → ConfigManager Node
new_manager first_config = record {
  latest_config = first_config;
  latest_version = version_of first_config;
  on_new_config = first_config;
  performing_out_of_band_fetch = false;
}

module _ {Node : Type 0} where
  abbrev pub with_latest : ConfigManager Node → ParsedConfig Node → ConfigManager Node
  with_latest self config = record {
    latest_config = config;
    latest_version = version_of config;
    on_new_config = self.on_new_config;
    performing_out_of_band_fetch = self.performing_out_of_band_fetch;
  }

  -- What `handle_config` does while it holds the lock of the latest configuration.
  unfoldable pub take_config :
      ConfigManager Node → ParsedConfig Node → ConfigManager Node × Option (ParsedConfig Node)
  take_config self parsed_config =
      if can_update_config parsed_config self.latest_config
      then (record self { latest_config = parsed_config }, some parsed_config)
      else (self, none)

  -- What it does behind the lock. The watcher of the versions is alive as long as the manager, so
  -- that a version it is sent arrives.
  abbrev pub send_version : ConfigManager Node → ParsedConfig Node → ConfigManager Node
  send_version self parsed_config = record self { latest_version = version_of parsed_config }

  unfoldable pub send_taken :
      ConfigManager Node × Option (ParsedConfig Node)
      → ConfigManager Node × Option (ParsedConfig Node)
  send_taken (self, some parsed_config) = (send_version self parsed_config, some parsed_config)
  send_taken (self, none) = (self, none)

  -- The whole call, where no other one comes between its two parts.
  unfoldable pub handle_config :
      ConfigManager Node → ParsedConfig Node → ConfigManager Node × Option (ParsedConfig Node)
  unfolding take_config send_taken
  handle_config self parsed_config = send_taken (take_config self parsed_config)

  abbrev pub out_of_band_config :
      ConfigManager Node → ParsedConfig Node → ConfigManager Node × Option (ParsedConfig Node)
  out_of_band_config self parsed_config = handle_config self parsed_config

  abbrev pub publish : ConfigManager Node × Option (ParsedConfig Node) → ConfigManager Node
  publish (self, none) = self
  publish (self, some new_cfg) = record {
    latest_config = self.latest_config;
    latest_version = self.latest_version;
    on_new_config = new_cfg;
    performing_out_of_band_fetch = self.performing_out_of_band_fetch;
  }

  -- A turn of the loop of `start_watcher` on a configuration.
  unfoldable pub on_watched : ConfigManager Node → ParsedConfig Node → ConfigManager Node
  on_watched self cfg = publish (handle_config self cfg)

  abbrev pub set_fetching : ConfigManager Node → Bool → ConfigManager Node
  set_fetching self fetching = record {
    latest_config = self.latest_config;
    latest_version = self.latest_version;
    on_new_config = self.on_new_config;
    performing_out_of_band_fetch = fetching;
  }

  -- `compare_exchange(false, true)`: the value that was there, as a success or as a failure.
  unfoldable pub compare_exchange : ConfigManager Node → ConfigManager Node × Result Bool Bool
  compare_exchange self =
      if self.performing_out_of_band_fetch
      then (self, err true)
      else (set_fetching self true, ok false)

-- `== Ok(true)`
unfoldable pub is_ok_true : Result Bool Bool → Bool
is_ok_true (ok b) = b
is_ok_true (err b) = false
is_ok_true panic = false

-- Where a turn of the loop of `perform_out_of_band_fetch` stands at its first await point: it
-- returned, it waits for another fetch, or it polls for what is newer than a revision.
pub data Turn : Type 0 where
  skipped waits : Turn
  polls : ℤ → ℤ → Turn

module _ {Node : Type 0} where
  unfoldable pub has_version : ConfigManager Node → ℤ → ℤ → Bool
  has_version self rev_id rev_epoch =
      ltb_ℤ rev_epoch self.latest_config.rev_epoch
      || (not (ltb_ℤ rev_epoch self.latest_config.rev_epoch)
          && not (ltb_ℤ self.latest_config.rev_epoch rev_epoch)
          && not (ltb_ℤ self.latest_config.rev_id rev_id))

  unfoldable pub begin_fetch : ConfigManager Node → ℤ → ℤ → ConfigManager Node × Turn
  begin_fetch self rev_id rev_epoch =
      if has_version self rev_id rev_epoch
      then (self, skipped)
      else (let (exchanged, was) = compare_exchange self in
          if is_ok_true was
          then (exchanged, waits)
          else (exchanged, polls self.latest_config.rev_id self.latest_config.rev_epoch))

  -- The rest of the turn, on what the poll came to.
  unfoldable pub end_fetch {ℓ} :
      {E : Type ℓ}
      → ConfigManager Node
      → Result E (Option (ParsedConfig Node))
      → ConfigManager Node × Option (ParsedConfig Node)
  end_fetch self (err e) = (self, none)
  end_fetch self panic = (self, none)
  end_fetch self (ok none) = (set_fetching self false, none)
  end_fetch self (ok (some parsed_config)) =
      let (updated, cfg) = handle_config self parsed_config in (set_fetching updated false, cfg)
