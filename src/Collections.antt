-- ===== src/Collections.antt =====
-- sdk/couchbase-core/src/collection_resolver_cached.rs: the cache of the ids of collections. A
-- section under the lock of the slow map is a function, and the tasks' turns are these functions in
-- any order. A `Notify` is its number; the shared pointers are the values that they point to.
pub mod Runs
pub mod Answers
pub mod Orchestrate
pub mod Broken
pub mod Requests
mod Examples
use Prim.Native.String.{String, ◌++◌ as append}
use couchbase_rs.Prelude.{
  ℕ, suc, Bool, true, false, List, [], ◌∷◌, Option, none, some, ltb, if◌then◌else◌,
}
use couchbase_rs.Prelude.Maps.{get, insert, remove}

pub record CollectionsFastCacheEntry : Type 0 where
  pub collection_id : ℕ
  pub manifest_rev : ℕ

pub record CollectionCacheEntry : Type 0 where
  pub collection_id : ℕ
  pub manifest_rev : ℕ
  pub pending : Option ℕ

-- With the mark that a task panicked while it held the lock of the slow map, and the number of the
-- next `Notify`.
pub record CollectionResolverCached : Type 0 where
  pub fast_cache : List (String × CollectionsFastCacheEntry)
  pub slow_map : List (String × CollectionCacheEntry)
  pub poisoned : Bool
  pub next_notify : ℕ

abbrev pub new : CollectionResolverCached
new = record { fast_cache = []; slow_map = []; poisoned = false; next_notify = 0 }

abbrev pub full_key_path : String → String → String
full_key_path scope_name collection_name = append (append scope_name ".") collection_name

-- `rebuild_fast_cache_locked`: what goes into the fast cache.
unfoldable pub rebuild_fast_cache_locked :
    List (String × CollectionCacheEntry) → List (String × CollectionsFastCacheEntry)
rebuild_fast_cache_locked [] = []
rebuild_fast_cache_locked ((path, entry) ∷ rest) =
    let collections = rebuild_fast_cache_locked rest in
    if ltb 0 entry.collection_id
    then (path, record { collection_id = entry.collection_id; manifest_rev = entry.manifest_rev })
      ∷ collections
    else collections

-- How a turn at the slow map goes on: with the ids, by waiting for another task, by asking the
-- resolver, or not at all, since the lock is poisoned.
pub data Entered : Type 0 where
  known : ℕ → ℕ → Entered
  waits : ℕ → Entered
  asks refused : Entered

unfoldable pub entered_at : CollectionCacheEntry → Option ℕ → Entered
entered_at entry (some pending) = waits pending
entered_at entry none = known entry.collection_id entry.manifest_rev

unfoldable pub enter_at :
    CollectionResolverCached
    → String
    → Option CollectionCacheEntry
    → CollectionResolverCached × Entered
unfolding entered_at insert
enter_at self path (some entry) = (self, entered_at entry entry.pending)
enter_at self path none = (
  record self {
    slow_map =
        insert path
          (record { collection_id = 0; manifest_rev = 0; pending = some self.next_notify })
          self.slow_map;
    next_notify = suc self.next_notify;
  },
  asks,
)

-- The first section of the loop in `resolve_collection_id_slow`.
unfoldable pub enter_slow : CollectionResolverCached → String → CollectionResolverCached × Entered
unfolding enter_at get
enter_slow self path =
    if self.poisoned then (self, refused) else enter_at self path (get path self.slow_map)

-- What the task with the resolver comes to: an answer, an error, or no end of its own.
pub data Resolution (E : Type 0) : Type 0 where
  resolved : ℕ → ℕ → Resolution E
  failed : E → Resolution E
  unjoined : Resolution E

-- What a task returns, and whom it notifies; or its panic.
pub data Returned (E : Type 0) : Type 0 where
  ids : ℕ → ℕ → Option ℕ → Returned E
  error : E → Option ℕ → Returned E
  not_joined panicked : Returned E

-- A panic under the lock.
abbrev pub panic_locked :
    {E : Type 0} → CollectionResolverCached → CollectionResolverCached × Returned E
panic_locked self = (record self { poisoned = true }, panicked)

unfoldable pub store :
    {E : Type 0}
    → CollectionResolverCached
    → String
    → ℕ
    → ℕ
    → Option CollectionCacheEntry
    → CollectionResolverCached × Returned E
unfolding insert rebuild_fast_cache_locked
store self path collection_id manifest_rev none = panic_locked self
store self path collection_id manifest_rev (some entry) =
    let slow_map =
      insert path
        (record { collection_id = collection_id; manifest_rev = manifest_rev; pending = none })
        self.slow_map in
    (
      record self { slow_map = slow_map; fast_cache = rebuild_fast_cache_locked slow_map },
      ids collection_id manifest_rev entry.pending,
    )

unfoldable pub drop_failed :
    {E : Type 0}
    → CollectionResolverCached
    → String
    → E
    → Option CollectionCacheEntry
    → CollectionResolverCached × Returned E
unfolding remove
drop_failed self path e none = panic_locked self
drop_failed self path e (some entry) =
    (record self { slow_map = remove path self.slow_map }, error e entry.pending)

-- The section of `resolve_collection_id_slow` behind the resolver's answer.
unfoldable pub leave_slow :
    {E : Type 0}
    → CollectionResolverCached
    → String
    → Resolution E
    → CollectionResolverCached × Returned E
unfolding store drop_failed get
leave_slow self path unjoined = (self, not_joined)
leave_slow self path (resolved collection_id manifest_rev) =
    if self.poisoned
    then (self, panicked)
    else store self path collection_id manifest_rev (get path self.slow_map)
leave_slow self path (failed e) =
    if self.poisoned then (self, panicked) else drop_failed self path e (get path self.slow_map)

-- The look at the fast cache in `resolve_collection_id`.
unfoldable pub fast_ids : Option CollectionsFastCacheEntry → Option (ℕ × ℕ)
fast_ids (some entry) = some (entry.collection_id, entry.manifest_rev)
fast_ids none = none

unfoldable pub look_up : CollectionResolverCached → String → Option (ℕ × ℕ)
unfolding fast_ids get
look_up self path = fast_ids (get path self.fast_cache)

-- `invalidate_collection_id` behind the resolver's own, with whether it panics on the lock.
unfoldable pub invalidate : CollectionResolverCached → String → CollectionResolverCached × Bool
unfolding remove rebuild_fast_cache_locked
invalidate self path =
    if self.poisoned
    then (self, true)
    else let slow_map = remove path self.slow_map in
      (record self { slow_map = slow_map; fast_cache = rebuild_fast_cache_locked slow_map }, false)
