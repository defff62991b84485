-- ===== src/Collections/Runs.antt =====
-- The turns of tasks at the cache of sdk/couchbase-core/src/collection_resolver_cached.rs in any
-- order, where no id is invalidated while a task asks for it, and what the cache then holds.
use Prim.Native.String.{String}
use couchbase_rs.Collections.{
  CollectionResolverCached, CollectionCacheEntry, CollectionsFastCacheEntry, new, enter_slow,
  leave_slow, invalidate, rebuild_fast_cache_locked, asks, resolved, failed,
}
use couchbase_rs.Prelude.{
  ℕ, Bool, true, false, List, [], ◌∷◌, Option, none, some, ◌≡◌, refl, sym, ap, ◌∙◌, inl, inr, ltb,
  if◌then◌else◌, Bool-cases,
}
use couchbase_rs.Prelude.Maps.{get, Unique, same_text, same_text_refl, same_text-cases}

-- What the callers see: ids that were resolved, and paths that were invalidated.
pub data Event : Type 0 where
  learnt : String → ℕ → ℕ → Event
  forgotten : String → Event

-- The ids of a path by the latest event, an independent description of the cache.
unfoldable pub latest : String → List Event → Option (ℕ × ℕ)
latest path [] = none
latest path (learnt p collection_id manifest_rev ∷ events) =
    if same_text path p then some (collection_id, manifest_rev) else latest path events
latest path (forgotten p ∷ events) = if same_text path p then none else latest path events

-- The paths that tasks ask the resolver for.
unfoldable pub is_asked : String → List String → Bool
is_asked path [] = false
is_asked path (p ∷ rest) = if same_text path p then true else is_asked path rest

unfoldable pub without : String → List String → List String
without path [] = []
without path (p ∷ rest) =
    let others = without path rest in if same_text path p then others else p ∷ others

if_false : (b : Bool) → false ≡ (if b then false else false)
if_false true = refl
if_false false = refl

if_other : (b c : Bool) → (if b then false else c) ≡ (if b then false else (if b then true else c))
if_other true c = refl
if_other false c = refl

pub is_asked-without :
    (j k : String) (asked : List String)
    → is_asked j (without k asked) ≡ (if same_text j k then false else is_asked j asked)
unfolding is_asked without
is_asked-without j k [] = if_false (same_text j k)
is_asked-without j k (i ∷ rest) = elim (same_text-cases k i) [
  | inl p ↦
      rw (sym p, same_text_refl k, is_asked-without j k rest)
        (if_other (same_text j k) (is_asked j rest))
  | inr (apart, other_way) ↦
      rw (apart, is_asked-without j k rest)
        (elim (same_text-cases j i) [
          | inl p ↦ let other : same_text j k ≡ false = rw p other_way in rw other refl
          | inr (q, _) ↦ rw q refl
        ])
]

-- What goes into the fast cache for an entry.
abbrev pub fast_of : Option CollectionCacheEntry → Option CollectionsFastCacheEntry
fast_of none = none
fast_of (some entry) =
    if ltb 0 entry.collection_id
    then some (record { collection_id = entry.collection_id; manifest_rev = entry.manifest_rev })
    else none

pub get-rebuild_fast_cache_locked :
    (path : String) (entries : List (String × CollectionCacheEntry))
    → Unique entries
    → get path (rebuild_fast_cache_locked entries) ≡ fast_of (get path entries)
unfolding get rebuild_fast_cache_locked Unique
get-rebuild_fast_cache_locked path [] u = refl
get-rebuild_fast_cache_locked path ((p, entry) ∷ rest) (absent, u) = elim (same_text-cases path p) [
  | inl e ↦ elim (Bool-cases (ltb 0 entry.collection_id)) [
    | inl positive ↦ rw (e, same_text_refl p, positive) (rw (same_text_refl p) refl)
    | inr zero_id ↦
        rw (e, same_text_refl p, zero_id)
          (get-rebuild_fast_cache_locked p rest u ∙ ap fast_of absent)
  ]
  | inr (apart, _) ↦ elim (Bool-cases (ltb 0 entry.collection_id)) [
    | inl positive ↦ rw (apart, positive) (rw apart (get-rebuild_fast_cache_locked path rest u))
    | inr zero_id ↦ rw (apart, zero_id) (get-rebuild_fast_cache_locked path rest u)
  ]
]

pub data Run (E : Type 0) : List Event → CollectionResolverCached → List String → Type 0 where
  start : Run E [] new []
  began :
      {events : List Event} {self : CollectionResolverCached} {asked : List String} (path : String)
      → Run E events self asked
      → (enter_slow self path).1 ≡ asks
      → Run E events (enter_slow self path).0 (path ∷ asked)
  answered :
      {events : List Event} {self : CollectionResolverCached} {asked : List String} (path : String)
      (collection_id manifest_rev : ℕ)
      → Run E events self asked
      → is_asked path asked ≡ true
      → Run E
          (learnt path collection_id manifest_rev ∷ events)
          (leave_slow {E = E} self path (resolved collection_id manifest_rev)).0
          (without path asked)
  gave_up :
      {events : List Event} {self : CollectionResolverCached} {asked : List String} (path : String)
      (e : E)
      → Run E events self asked
      → is_asked path asked ≡ true
      → Run E events (leave_slow self path (failed e)).0 (without path asked)
  invalidated :
      {events : List Event} {self : CollectionResolverCached} {asked : List String} (path : String)
      → Run E events self asked
      → is_asked path asked ≡ false
      → Run E (forgotten path ∷ events) (invalidate self path).0 asked

-- How a path stands.
pub data Standing (path : String) (events : List Event) (asked : List String)
    : Option CollectionCacheEntry → Type 0 where
  pending :
      {o : Option CollectionCacheEntry} (n : ℕ)
      → is_asked path asked ≡ true
      → latest path events ≡ none
      → o ≡ some (record { collection_id = 0; manifest_rev = 0; pending = some n })
      → Standing path events asked o
  cached :
      {o : Option CollectionCacheEntry} (collection_id manifest_rev : ℕ)
      → is_asked path asked ≡ false
      → latest path events ≡ some (collection_id, manifest_rev)
      → o
        ≡ some
            (record { collection_id = collection_id; manifest_rev = manifest_rev; pending = none })
      → Standing path events asked o
  absent :
      {o : Option CollectionCacheEntry}
      → is_asked path asked ≡ false
      → latest path events ≡ none
      → o ≡ none
      → Standing path events asked o

-- What the cache holds by the events.
pub record Holds (events : List Event) (self : CollectionResolverCached) (asked : List String)
    : Type 0 where
  pub unpoisoned : self.poisoned ≡ false
  pub unique : Unique self.slow_map
  pub fast : (path : String) → get path self.fast_cache ≡ fast_of (get path self.slow_map)
  pub slow : (path : String) → Standing path events asked (get path self.slow_map)
