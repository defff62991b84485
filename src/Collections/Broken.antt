-- ===== src/Collections/Broken.antt =====
-- The cache of sdk/couchbase-core/src/collection_resolver_cached.rs where a path is
-- invalidated while a task asks for it.
use Prim.Native.String.{String}
use couchbase_rs.Collections.{
  CollectionResolverCached, Resolution, enter_slow, leave_slow, store, drop_failed, invalidate,
  rebuild_fast_cache_locked, refused, resolved, failed, unjoined, panicked,
}
use couchbase_rs.Prelude.{true, false, none, List, [], ◌∷◌, ◌∙◌, ◌≡◌, ◌≢◌, refl, ap}
use couchbase_rs.Prelude.Maps.{get, remove, same_text_refl, get-remove}

-- The cache once a path is invalidated and the resolver's answer for it then comes in.
abbrev pub after_late_answer :
    {E : Type 0} → CollectionResolverCached → String → Resolution E → CollectionResolverCached
after_late_answer self path r = (leave_slow (invalidate self path).0 path r).0

gone :
    (self : CollectionResolverCached) (path : String) → get path (remove path self.slow_map) ≡ none
gone self path = rw (get-remove path path self.slow_map, same_text_refl path) refl

late_answer :
    {E : Type 0} (self : CollectionResolverCached) (path : String) (r : Resolution E)
    → self.poisoned ≡ false
    → r ≢ unjoined
    → leave_slow (invalidate self path).0 path r ≡ (
      record self {
        slow_map = remove path self.slow_map;
        fast_cache = rebuild_fast_cache_locked (remove path self.slow_map);
        poisoned = true;
      },
      panicked,
    )
unfolding leave_slow invalidate store drop_failed
late_answer self path unjoined ok joined = absurd (joined refl)
late_answer self path (resolved i m) ok joined = rw (ok) (rw (gone self path) refl)
late_answer self path (failed e) ok joined = rw (ok) (rw (gone self path) refl)

-- A turn of any task.
pub data CacheTurn (E : Type 0) : Type 0 where
  enters : String → CacheTurn E
  leaves : String → Resolution E → CacheTurn E
  invalidates : String → CacheTurn E

unfoldable pub turn :
    {E : Type 0} → CollectionResolverCached → CacheTurn E → CollectionResolverCached
turn self (enters path) = (enter_slow self path).0
turn self (leaves path r) = (leave_slow self path r).0
turn self (invalidates path) = (invalidate self path).0

unfoldable pub turns :
    {E : Type 0} → CollectionResolverCached → List (CacheTurn E) → CollectionResolverCached
unfolding turn
turns self [] = self
turns self (t ∷ later) = turns (turn self t) later

-- A cache whose lock is poisoned stays as it is.
poisoned_turn :
    {E : Type 0} (self : CollectionResolverCached) (t : CacheTurn E)
    → self.poisoned ≡ true
    → turn self t ≡ self
unfolding turn enter_slow leave_slow invalidate
poisoned_turn self (enters path) p = rw p refl
poisoned_turn self (leaves path (resolved i m)) p = rw p refl
poisoned_turn self (leaves path (failed e)) p = rw p refl
poisoned_turn self (leaves path unjoined) p = refl
poisoned_turn self (invalidates path) p = rw p refl

poisoned_turns :
    {E : Type 0} (self : CollectionResolverCached) (later : List (CacheTurn E))
    → self.poisoned ≡ true
    → (turns self later).poisoned ≡ true
unfolding turns
poisoned_turns self [] p = p
poisoned_turns self (t ∷ later) p =
    poisoned_turns (turn self t) later (ap (λ s. s.poisoned) (poisoned_turn self t p) ∙ p)

-- No section under the lock runs: a caller that takes it panics, to enter with any path, with the
-- resolver's answer for one or to invalidate one.
abbrev pub Broken : Type 0 → CollectionResolverCached → Type 0
Broken E self =
    ((path : String) → (enter_slow self path).1 ≡ refused)
    × ((path : String) (r : Resolution E) → r ≢ unjoined → (leave_slow self path r).1 ≡ panicked)
    × ((path : String) → (invalidate self path).1 ≡ true)

poisoned_leave :
    {E : Type 0} (self : CollectionResolverCached) (path : String) (r : Resolution E)
    → self.poisoned ≡ true
    → r ≢ unjoined
    → (leave_slow self path r).1 ≡ panicked
unfolding leave_slow
poisoned_leave self path unjoined p joined = absurd (joined refl)
poisoned_leave self path (resolved i m) p joined = rw p refl
poisoned_leave self path (failed e) p joined = rw p refl

poisoned-Broken :
    {E : Type 0} (self : CollectionResolverCached) → self.poisoned ≡ true → Broken E self
unfolding enter_slow invalidate
poisoned-Broken self p =
    (λ path. rw p refl, λ path r joined. poisoned_leave self path r p joined, λ path. rw p refl)

-- Where a path is invalidated and the resolver's answer to a task that asked before comes in next,
-- ids or an error, that task panics and holds the lock of the slow map. From then on, whatever
-- turns follow, each that takes this lock panics: to enter with any path, to come back with the
-- resolver's answer for any path, and to invalidate any path.
pub late_answer_poisons :
    {E : Type 0} (self : CollectionResolverCached) (path : String) (r : Resolution E)
    → self.poisoned ≡ false
    → r ≢ unjoined
    → ((leave_slow (invalidate self path).0 path r).1 ≡ panicked)
      × ((later : List (CacheTurn E)) → Broken E (turns (after_late_answer self path r) later))
late_answer_poisons self path r ok joined =
    let e = late_answer self path r ok joined in
    (
      ap (λ t. t.1) e,
      λ later.
          poisoned-Broken _
            (poisoned_turns (after_late_answer self path r) later (ap (λ t. t.0.poisoned) e)),
    )
