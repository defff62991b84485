-- ===== src/Collections/Orchestrate.antt =====
-- sdk/couchbase-core/src/collectionresolver.rs: `orchestrate_memd_collection_id`, one request with
-- the id of its collection, on any resolver and on the cache of collection_resolver_cached.rs with
-- no other task beside it. What the resolver behind the cache answers is an argument.
use Prim.Native.String.{String}
use couchbase_rs.Errors.{CoreError, is_memdx_error, new_error, message}
use couchbase_rs.Memdx.Error.{
  Error, ServerErrorKind, server, resource, unknown_collection_id, unknown_collection_name,
}
use couchbase_rs.Collections.{
  CollectionResolverCached, Entered, Resolution, Returned, full_key_path, enter_slow, leave_slow,
  invalidate, look_up, known, waits, asks, refused, ids, error, not_joined, panicked,
}
use couchbase_rs.Prelude.{
  ℕ, Bool, true, false, ◌&&◌, ◌||◌, Option, none, some, Result, ok, err, panic, if◌then◌else◌,
}
use couchbase_rs.Prelude.Maps.{same_text}

-- `CollectionResolver`. An answer that does not come since another task is waited for is nothing,
-- and an invalidation says whether it panics.
pub record CollectionResolver (S : Type 0) : Type 0 where
  pub resolve_collection_id : S → String → String → S × Option (Result CoreError (ℕ × ℕ))
  pub invalidate_collection_id : S → String → String → S × Bool

abbrev kind_is_unknown_collection : ServerErrorKind → Bool
kind_is_unknown_collection unknown_collection_id = true
kind_is_unknown_collection unknown_collection_name = true
kind_is_unknown_collection _ = false

-- `is_server_error_kind` for either kind.
unfoldable pub is_unknown_collection : Option Error → Bool
is_unknown_collection (some (server e)) = kind_is_unknown_collection e.kind
is_unknown_collection (some (resource e)) = kind_is_unknown_collection e.cause.kind
is_unknown_collection _ = false

-- The default collection, whose id is 0.
abbrev pub is_default : String → String → Bool
is_default scope_name collection_name =
    (same_text scope_name "_default" && same_text collection_name "_default")
    || (same_text scope_name "" && same_text collection_name "")

module _ {S : Type 0} (resolver : CollectionResolver S) where
  unfoldable pub unless_panic :
      {A : Type 0} → S × Bool → CoreError → S × Option (Result CoreError A)
  unless_panic (s, panics) e = (s, some (if panics then panic else err e))

  unfoldable pub invalidate_collection_id :
      {A : Type 0} → S → CoreError → String → String → S × Option (Result CoreError A)
  unfolding is_unknown_collection unless_panic
  invalidate_collection_id s e scope_name collection_name =
      if is_unknown_collection (is_memdx_error e)
      then unless_panic (resolver.invalidate_collection_id s scope_name collection_name) e
      else (s, some (err e))

  unfoldable pub after_operation :
      {A : Type 0} → S → String → String → Result CoreError A → S × Option (Result CoreError A)
  unfolding invalidate_collection_id
  after_operation s scope_name collection_name (ok r) = (s, some (ok r))
  after_operation s scope_name collection_name (err e) =
      invalidate_collection_id s e scope_name collection_name
  after_operation s scope_name collection_name panic = (s, some panic)

  unfoldable pub after_resolve :
      {A : Type 0}
      → String
      → String
      → (ℕ → Result CoreError A)
      → S × Option (Result CoreError (ℕ × ℕ))
      → S × Option (Result CoreError A)
  unfolding after_operation
  after_resolve scope_name collection_name operation (s, none) = (s, none)
  after_resolve scope_name collection_name operation (s, some (ok (collection_id, manifest_rev))) =
      after_operation s scope_name collection_name (operation collection_id)
  after_resolve scope_name collection_name operation (s, some (err e)) =
      invalidate_collection_id s e scope_name collection_name
  after_resolve scope_name collection_name operation (s, some panic) = (s, some panic)

  unfoldable pub orchestrate_memd_collection_id :
      {A : Type 0}
      → S
      → String
      → String
      → (ℕ → Result CoreError A)
      → S × Option (Result CoreError A)
  unfolding after_resolve
  orchestrate_memd_collection_id s scope_name collection_name operation =
      if is_default scope_name collection_name
      then (s, some (operation 0))
      else after_resolve scope_name collection_name operation
          (resolver.resolve_collection_id s scope_name collection_name)

-- What a task that asked returns.
unfoldable pub returned :
    CollectionResolverCached × Returned CoreError
    → CollectionResolverCached × Option (Result CoreError (ℕ × ℕ))
returned (self, ids collection_id manifest_rev _) = (self, some (ok (collection_id, manifest_rev)))
returned (self, error e _) = (self, some (err e))
returned (self, not_joined) =
    (self, some (err (new_error (message "failed to join resolve collection id task: "))))
returned (self, panicked) = (self, some panic)

module _ (ask : String → String → Resolution CoreError) where
  unfoldable pub resolve_slow :
      String
      → String
      → CollectionResolverCached × Entered
      → CollectionResolverCached × Option (Result CoreError (ℕ × ℕ))
  unfolding returned leave_slow
  resolve_slow scope_name collection_name (self, known collection_id manifest_rev) =
      (self, some (ok (collection_id, manifest_rev)))
  resolve_slow scope_name collection_name (self, waits n) = (self, none)
  resolve_slow scope_name collection_name (self, refused) = (self, some panic)
  resolve_slow scope_name collection_name (self, asks) =
      returned (
        leave_slow self (full_key_path scope_name collection_name) (ask scope_name collection_name))

  unfoldable pub resolve_at :
      CollectionResolverCached
      → String
      → String
      → Option (ℕ × ℕ)
      → CollectionResolverCached × Option (Result CoreError (ℕ × ℕ))
  unfolding resolve_slow enter_slow
  resolve_at self scope_name collection_name (some found) = (self, some (ok found))
  resolve_at self scope_name collection_name none =
      resolve_slow scope_name collection_name
        (enter_slow self (full_key_path scope_name collection_name))

  -- The cache as a resolver, for a task that runs alone.
  abbrev pub cached_resolver : CollectionResolver CollectionResolverCached
  cached_resolver = record {
    resolve_collection_id = λ self scope_name collection_name.
        resolve_at self scope_name collection_name
          (look_up self (full_key_path scope_name collection_name));
    invalidate_collection_id = λ self scope_name collection_name.
        invalidate self (full_key_path scope_name collection_name);
  }
