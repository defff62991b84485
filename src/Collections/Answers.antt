-- ===== src/Collections/Answers.antt =====
-- What the cache of sdk/couchbase-core/src/collection_resolver_cached.rs answers along the runs.
use Prim.Native.String.{String}
use couchbase_rs.Collections.{
  CollectionResolverCached, CollectionCacheEntry, Resolution, new, entered_at, enter_at, enter_slow,
  leave_slow, store, drop_failed, invalidate, asks, waits, known, refused, resolved, failed, ids,
  error, panicked, fast_ids, look_up,
}
use couchbase_rs.Collections.Runs.{
  Event, learnt, forgotten, latest, is_asked, without, is_asked-without, fast_of,
  get-rebuild_fast_cache_locked, Run, start, began, answered, gave_up, invalidated, Standing,
  pending, cached, absent, Holds,
}
use couchbase_rs.Prelude.{
  ℕ, Bool, true, false, List, [], ◌∷◌, Option, none, some, ◌≡◌, ◌≢◌, refl, sym, ap, ◌∙◌, inl, inr,
  ltb, if◌then◌else◌, Bool-cases, Option-cases,
}
use couchbase_rs.Prelude.Maps.{
  get, remove, insert, Unique, same_text_refl, same_text-cases, get-remove, get-insert,
  remove-Unique, insert-Unique,
}
use mathlib.Core.Option.{some-ne-none}
use mathlib.Core.Bool.{true≢false}
use mathlib.Core.Path.{subst}

entered_at_not : (entry : CollectionCacheEntry) (o : Option ℕ) → entered_at entry o ≢ asks
unfolding entered_at
entered_at_not entry none e = cc
entered_at_not entry (some n) e = cc

-- The entry that a turn makes.
abbrev pub pending_entry : ℕ → CollectionCacheEntry
pending_entry n = record { collection_id = 0; manifest_rev = 0; pending = some n }

abbrev cached_entry : ℕ → ℕ → CollectionCacheEntry
cached_entry collection_id manifest_rev = record {
  collection_id = collection_id;
  manifest_rev = manifest_rev;
  pending = none;
}

pub enter_asks :
    (self : CollectionResolverCached) (path : String)
    → self.poisoned ≡ false
    → (enter_slow self path).1 ≡ asks
    → get path self.slow_map ≡ none
unfolding enter_slow enter_at
enter_asks self path ok e = elim (Option-cases (get path self.slow_map)) [
  | inl nothing ↦ nothing
  | inr (entry, found) ↦
      let there : entered_at entry entry.pending ≡ asks =
        subst (λ o. (enter_at self path o).1 ≡ asks) found
          (subst
            (λ b.
              (if b then (self, refused) else enter_at self path (get path self.slow_map)).1 ≡ asks)
            ok e) in
      absurd (entered_at_not entry entry.pending there)
]

-- How a path stands, where nothing about it changed.
Standing-kept :
    {path : String} {events events2 : List Event} {asked asked2 : List String}
    {o o2 : Option CollectionCacheEntry}
    → Standing path events asked o
    → is_asked path asked2 ≡ is_asked path asked
    → latest path events2 ≡ latest path events
    → o2 ≡ o
    → Standing path events2 asked2 o2
Standing-kept (pending n a l e) p q r = pending n (p ∙ a) (q ∙ l) (r ∙ e)
Standing-kept (cached i m a l e) p q r = cached i m (p ∙ a) (q ∙ l) (r ∙ e)
Standing-kept (absent a l e) p q r = absent (p ∙ a) (q ∙ l) (r ∙ e)

absent_latest :
    {path : String} {events : List Event} {asked : List String} {o : Option CollectionCacheEntry}
    → Standing path events asked o
    → o ≡ none
    → latest path events ≡ none
absent_latest (pending n a l e) p = l
absent_latest (cached i m a l e) p = absurd (some-ne-none _ (sym e ∙ p))
absent_latest (absent a l e) p = l

pub asked_entry :
    {path : String} {events : List Event} {asked : List String} {o : Option CollectionCacheEntry}
    → Standing path events asked o
    → is_asked path asked ≡ true
    → (n : ℕ) × (o ≡ some (pending_entry n)) × (latest path events ≡ none)
asked_entry (pending n a l e) p = (n, e, l)
asked_entry (cached i m a l e) p = absurd (true≢false (sym p ∙ a))
asked_entry (absent a l e) p = absurd (true≢false (sym p ∙ a))

Holds-new : Holds [] new []
unfolding get Unique latest is_asked
Holds-new = record {
  unpoisoned = refl;
  unique = tt;
  fast = λ path. refl;
  slow = λ path. absent refl refl refl;
}

Holds-inserted :
    {events : List Event} {self : CollectionResolverCached} {asked : List String} (path : String)
    → Holds events self asked
    → get path self.slow_map ≡ none
    → Holds events (enter_at self path none).0 (path ∷ asked)
unfolding enter_at is_asked
Holds-inserted {events} {self} {asked} path h none_there = record {
  unpoisoned = h.unpoisoned;
  unique = insert-Unique path (pending_entry self.next_notify) self.slow_map h.unique;
  fast = λ q. elim (same_text-cases q path) [
    | inl same ↦
        rw
          (
            get-insert q path (pending_entry self.next_notify) self.slow_map,
            same,
            same_text_refl path,
          )
          (h.fast path ∙ ap fast_of none_there)
    | inr (apart, _) ↦
        rw (get-insert q path (pending_entry self.next_notify) self.slow_map, apart) (h.fast q)
  ];
  slow = λ q. elim (same_text-cases q path) [
    | inl same ↦
        pending self.next_notify (rw (same, same_text_refl path) refl)
          (rw same (absent_latest (h.slow path) none_there))
          (rw
            (
              get-insert q path (pending_entry self.next_notify) self.slow_map,
              same,
              same_text_refl path,
            )
            refl)
    | inr (apart, _) ↦
        Standing-kept (h.slow q) (rw apart refl) refl
          (rw (get-insert q path (pending_entry self.next_notify) self.slow_map, apart) refl)
  ];
}

Holds-began :
    {events : List Event} {self : CollectionResolverCached} {asked : List String} (path : String)
    → Holds events self asked
    → (enter_slow self path).1 ≡ asks
    → Holds events (enter_slow self path).0 (path ∷ asked)
unfolding enter_slow
Holds-began {events} {self} {asked} path h e =
    let none_there : get path self.slow_map ≡ none = enter_asks self path h.unpoisoned e in
    subst
      (λ b.
        Holds events (if b then (self, refused) else enter_at self path (get path self.slow_map)).0
          (path ∷ asked))
      (sym h.unpoisoned)
      (subst (λ o. Holds events (enter_at self path o).0 (path ∷ asked)) (sym none_there)
        (Holds-inserted path h none_there))

-- A turn that a task takes behind the resolver's answer: its entry is there.
Holds-stored :
    {events : List Event} {self : CollectionResolverCached} {asked : List String} (path : String)
    (i m : ℕ) (entry : CollectionCacheEntry) (E : Type 0)
    → Holds events self asked
    → Holds
        (learnt path i m ∷ events)
        (store {E = E} self path i m (some entry)).0
        (without path asked)
unfolding store latest
Holds-stored {events} {self} {asked} path i m entry E h =
    let kept : Unique (insert path (cached_entry i m) self.slow_map) =
      insert-Unique path (cached_entry i m) self.slow_map h.unique in
    record {
      unpoisoned = h.unpoisoned;
      unique = kept;
      fast =
          λ q. get-rebuild_fast_cache_locked q (insert path (cached_entry i m) self.slow_map) kept;
      slow = λ q. elim (same_text-cases q path) [
        | inl same ↦
            cached i m (rw (is_asked-without q path asked, same, same_text_refl path) refl)
              (rw (same, same_text_refl path) refl)
              (rw (get-insert q path (cached_entry i m) self.slow_map, same, same_text_refl path)
                refl)
        | inr (apart, _) ↦
            Standing-kept (h.slow q) (rw (is_asked-without q path asked, apart) refl)
              (rw apart refl) (rw (get-insert q path (cached_entry i m) self.slow_map, apart) refl)
      ];
    }

Holds-dropped :
    {events : List Event} {self : CollectionResolverCached} {asked : List String} (path : String)
    (n : ℕ) {E : Type 0} (e : E)
    → Holds events self asked
    → get path self.slow_map ≡ some (pending_entry n)
    → latest path events ≡ none
    → Holds events (drop_failed self path e (some (pending_entry n))).0 (without path asked)
unfolding drop_failed
Holds-dropped {events} {self} {asked} path n e h there unknown = record {
  unpoisoned = h.unpoisoned;
  unique = remove-Unique path self.slow_map h.unique;
  fast = λ q. elim (same_text-cases q path) [
    | inl same ↦
        rw (get-remove q path self.slow_map, same, same_text_refl path)
          (h.fast path ∙ ap fast_of there)
    | inr (apart, _) ↦ rw (get-remove q path self.slow_map, apart) (h.fast q)
  ];
  slow = λ q. elim (same_text-cases q path) [
    | inl same ↦
        absent (rw (is_asked-without q path asked, same, same_text_refl path) refl)
          (rw same unknown) (rw (get-remove q path self.slow_map, same, same_text_refl path) refl)
    | inr (apart, _) ↦
        Standing-kept (h.slow q) (rw (is_asked-without q path asked, apart) refl) refl
          (rw (get-remove q path self.slow_map, apart) refl)
  ];
}

Holds-forgotten :
    {events : List Event} {self : CollectionResolverCached} {asked : List String} (path : String)
    → Holds events self asked
    → is_asked path asked ≡ false
    → Holds (forgotten path ∷ events) (invalidate self path).0 asked
unfolding invalidate latest
Holds-forgotten {events} {self} {asked} path h idle =
    let kept : Unique (remove path self.slow_map) = remove-Unique path self.slow_map h.unique in
    rw (h.unpoisoned) (record {
      unpoisoned = refl;
      unique = kept;
      fast = λ q. get-rebuild_fast_cache_locked q (remove path self.slow_map) kept;
      slow = λ q. elim (same_text-cases q path) [
        | inl same ↦
            absent (rw same idle) (rw (same, same_text_refl path) refl)
              (rw (get-remove q path self.slow_map, same, same_text_refl path) refl)
        | inr (apart, _) ↦
            Standing-kept (h.slow q) refl (rw apart refl)
              (rw (get-remove q path self.slow_map, apart) refl)
      ];
    })

-- The turn of a task whose entry is there.
pub resolved_turn :
    {E : Type 0} (self : CollectionResolverCached) (path : String) (i m n : ℕ)
    → self.poisoned ≡ false
    → get path self.slow_map ≡ some (pending_entry n)
    → leave_slow {E = E} self path (resolved i m) ≡ store self path i m (some (pending_entry n))
unfolding leave_slow
resolved_turn self path i m n ok there = rw (ok, there) refl

pub failed_turn :
    {E : Type 0} (self : CollectionResolverCached) (path : String) (e : E) (n : ℕ)
    → self.poisoned ≡ false
    → get path self.slow_map ≡ some (pending_entry n)
    → leave_slow self path (failed e) ≡ drop_failed self path e (some (pending_entry n))
unfolding leave_slow
failed_turn self path e n ok there = rw (ok, there) refl

pub Run-Holds :
    {E : Type 0} {events : List Event} {self : CollectionResolverCached} {asked : List String}
    → Run E events self asked
    → Holds events self asked
Run-Holds start = Holds-new
Run-Holds (began path run e) = Holds-began path (Run-Holds run) e
Run-Holds {E} (answered {events} {self} {asked} path i m run is) =
    let h = Run-Holds run in
    let (n, there, unknown) = asked_entry (h.slow path) is in
    subst (λ t. Holds (learnt path i m ∷ events) t.0 (without path asked))
      (sym (resolved_turn {E = E} self path i m n h.unpoisoned there))
      (Holds-stored path i m (pending_entry n) E h)
Run-Holds (gave_up {events} {self} {asked} path e run is) =
    let h = Run-Holds run in
    let (n, there, unknown) = asked_entry (h.slow path) is in
    subst (λ t. Holds events t.0 (without path asked))
      (sym (failed_turn self path e n h.unpoisoned there)) (Holds-dropped path n e h there unknown)
Run-Holds (invalidated path run idle) = Holds-forgotten path (Run-Holds run) idle

-- The ids that the fast cache may hold: 0 is never in it.
abbrev pub positive : Option (ℕ × ℕ) → Option (ℕ × ℕ)
positive none = none
positive (some (collection_id, manifest_rev)) =
    if ltb 0 collection_id then some (collection_id, manifest_rev) else none

Standing-fast_ids :
    {path : String} {events : List Event} {asked : List String} {o : Option CollectionCacheEntry}
    → Standing path events asked o
    → fast_ids (fast_of o) ≡ positive (latest path events)
unfolding fast_ids
Standing-fast_ids (pending n a l e) = rw (e, l) refl
Standing-fast_ids (cached i m a l e) =
    rw (e, l) (elim (Bool-cases (ltb 0 i)) [ inl p ↦ rw p refl | inr p ↦ rw p refl ])
Standing-fast_ids (absent a l e) = rw (e, l) refl

-- What the slow path does at a path, by whether a task asks for it and by the latest event.
abbrev pub Enters : CollectionResolverCached → String → Bool → Option (ℕ × ℕ) → Type 0
Enters self path true event = (n : ℕ) × (enter_slow self path ≡ (self, waits n))
Enters self path false (some (collection_id, manifest_rev)) =
    enter_slow self path ≡ (self, known collection_id manifest_rev)
Enters self path false none = (enter_slow self path).1 ≡ asks

Standing-Enters :
    {path : String} {events : List Event} {asked : List String} (self : CollectionResolverCached)
    → self.poisoned ≡ false
    → Standing path events asked (get path self.slow_map)
    → Enters self path (is_asked path asked) (latest path events)
unfolding enter_slow enter_at entered_at
Standing-Enters self ok (pending n a l e) = rw (a) (n, (rw (ok, e) refl))
Standing-Enters self ok (cached i m a l e) = rw (a, l) (rw (ok, e) refl)
Standing-Enters self ok (absent a l e) = rw (a, l) (rw (ok, e) refl)

not_panicked :
    {E : Type 0} (self : CollectionResolverCached) (path : String) (r : Resolution E) (n : ℕ)
    → self.poisoned ≡ false
    → get path self.slow_map ≡ some (pending_entry n)
    → (leave_slow self path r).1 ≢ panicked
unfolding leave_slow store drop_failed
not_panicked self path Resolution.unjoined n ok there e = cc
not_panicked self path (resolved i m) n ok there e =
    let no : ids i m (some n) ≡ panicked = sym (rw (ok, there) refl) ∙ e in cc
not_panicked self path (failed x) n ok there e =
    let no : error x (some n) ≡ panicked = sym (rw (ok, there) refl) ∙ e in cc

-- In whatever order tasks look paths up, ask, are answered, fail and invalidate, as long as no path
-- is invalidated while a task asks for it, the cache answers by the latest event: the fast cache
-- holds the ids that were learnt last and not forgotten since, unless the id is 0; the slow path
-- gives the same ids, sends a first task to the resolver, or waits for the task that asks; and that
-- task does not panic whatever the resolver comes to.
pub Run-answers :
    {E : Type 0} {events : List Event} {self : CollectionResolverCached} {asked : List String}
    (path : String)
    → Run E events self asked
    → (look_up self path ≡ positive (latest path events))
      × Enters self path (is_asked path asked) (latest path events)
      × (is_asked path asked ≡ true → (r : Resolution E) → (leave_slow self path r).1 ≢ panicked)
unfolding look_up
Run-answers {E} {events} {self} {asked} path run =
    let h = Run-Holds run in
    (
      ap fast_ids (h.fast path) ∙ Standing-fast_ids (h.slow path),
      Standing-Enters self h.unpoisoned (h.slow path),
      λ is r.
          let (n, there, _) = asked_entry (h.slow path) is in
          not_panicked self path r n h.unpoisoned there,
    )
