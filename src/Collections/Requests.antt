-- ===== src/Collections/Requests.antt =====
-- Whole requests on the cache of sdk/couchbase-core/src/collection_resolver_cached.rs, one after
-- the other, by the events alone.
use Prim.Native.String.{String}
use couchbase_rs.Errors.{CoreError, is_memdx_error}
use couchbase_rs.Collections.{
  CollectionResolverCached, Resolution, full_key_path, enter_slow, leave_slow, store, drop_failed,
  invalidate, look_up, asks, resolved, failed, unjoined,
}
use couchbase_rs.Collections.Runs.{
  Event, learnt, forgotten, latest, is_asked, without, Run, began, answered, gave_up, invalidated,
}
use couchbase_rs.Collections.Answers.{
  asked_entry, resolved_turn, failed_turn, Run-Holds, Run-answers, Enters, positive,
}
use couchbase_rs.Collections.Orchestrate.{
  is_default, is_unknown_collection, invalidate_collection_id, unless_panic, after_operation,
  after_resolve, orchestrate_memd_collection_id, returned, resolve_slow, resolve_at,
  cached_resolver,
}
use couchbase_rs.Prelude.{
  ℕ, true, false, List, [], ◌∷◌, Option, none, some, Result, ok, err, panic, ◌≡◌, ◌≢◌, refl, sym,
  ◌∙◌, inl, inr, ltb, if◌then◌else◌, Bool-cases,
}
use couchbase_rs.Prelude.Maps.{same_text_refl}
use mathlib.Core.Path.{subst}

-- What a request resolves its path to, and the events behind it: the ids that are known, or those
-- that the resolver is asked for.
unfoldable pub resolution :
    List Event
    → String
    → Option (ℕ × ℕ)
    → Resolution CoreError
    → List Event × Result CoreError (ℕ × ℕ)
resolution events path (some found) r = (events, ok found)
resolution events path none (resolved collection_id manifest_rev) =
    (learnt path collection_id manifest_rev ∷ events, ok (collection_id, manifest_rev))
resolution events path none (failed e) = (events, err e)
resolution events path none unjoined = (events, panic)

-- An error of an unknown collection makes the path forgotten.
unfoldable pub given_up :
    {A : Type 0} → List Event → String → CoreError → List Event × Result CoreError A
given_up events path e =
    (if is_unknown_collection (is_memdx_error e) then forgotten path ∷ events else events, err e)

unfoldable pub operated :
    {A : Type 0} → String → List Event → Result CoreError A → List Event × Result CoreError A
unfolding given_up
operated path events (ok r) = (events, ok r)
operated path events (err e) = given_up events path e
operated path events panic = (events, panic)

unfoldable pub requested :
    {A : Type 0}
    → String
    → (ℕ → Result CoreError A)
    → List Event × Result CoreError (ℕ × ℕ)
    → List Event × Result CoreError A
unfolding operated
requested path operation (events, ok (collection_id, manifest_rev)) =
    operated path events (operation collection_id)
requested path operation (events, err e) = given_up events path e
requested path operation (events, panic) = (events, panic)

-- A run with a result, in the place of a cache.
abbrev pub Serves :
    {A : Type 0}
    → List Event × Result CoreError A
    → CollectionResolverCached × Option (Result CoreError A)
    → Type 0
Serves (events, r) (self, o) = Run CoreError events self [] × (o ≡ some r)

give_up_Serves :
    {A : Type 0} {events : List Event} {self : CollectionResolverCached}
    (ask : String → String → Resolution CoreError) (scope_name collection_name : String)
    (e : CoreError)
    → Run CoreError events self []
    → Serves {A = A}
        (given_up events (full_key_path scope_name collection_name) e)
        (invalidate_collection_id (cached_resolver ask) self e scope_name collection_name)
unfolding given_up invalidate_collection_id unless_panic invalidate is_asked
give_up_Serves {self = self} ask scope_name collection_name e run =
    elim (Bool-cases (is_unknown_collection (is_memdx_error e))) [
      | inl unknown ↦ rw unknown (
        invalidated (full_key_path scope_name collection_name) run refl,
        (rw (Run-Holds run).unpoisoned refl),
      )
      | inr other ↦ rw other (run, refl)
    ]

pair_path : {A B : Type 0} (p : A × B) (b : B) → p.1 ≡ b → p ≡ (p.0, b)
pair_path (a, c) b e = rw e refl

is_asked_head : (path : String) → is_asked path (path ∷ []) ≡ true
unfolding is_asked
is_asked_head path = rw (same_text_refl path) refl

without_head : (path : String) → without path (path ∷ []) ≡ []
unfolding without
without_head path = rw (same_text_refl path) refl

alone :
    {events : List Event} {self : CollectionResolverCached} (path : String)
    → Run CoreError events self (without path (path ∷ []))
    → Run CoreError events self []
alone {events} {self} path run =
    subst (λ asked. Run CoreError events self asked) (without_head path) run

-- A task that asks, alone.
asked_Serves :
    {events : List Event} {self : CollectionResolverCached} (path : String)
    (r : Resolution CoreError)
    → Run CoreError events self (path ∷ [])
    → r ≢ unjoined
    → Serves (resolution events path none r) (returned (leave_slow self path r))
unfolding resolution returned store drop_failed
asked_Serves path unjoined run joined = absurd (joined refl)
asked_Serves {events} {self} path (resolved i m) run joined =
    let h = Run-Holds run in
    let (n, there, _) = asked_entry (h.slow path) (is_asked_head path) in
    let turn = resolved_turn {E = CoreError} self path i m n h.unpoisoned there in
    subst (λ t. Serves (learnt path i m ∷ events, ok (i, m)) (returned t)) (sym turn)
      (
        alone path (
            subst (λ t. Run CoreError (learnt path i m ∷ events) t.0 (without path (path ∷ [])))
              turn (answered path i m run (is_asked_head path))),
        refl,
      )
asked_Serves {events} {self} path (failed e) run joined =
    let h = Run-Holds run in
    let (n, there, _) = asked_entry (h.slow path) (is_asked_head path) in
    let turn = failed_turn self path e n h.unpoisoned there in
    subst (λ t. Serves {A = ℕ × ℕ} (events, err e) (returned t)) (sym turn)
      (
        alone path (
            subst (λ t. Run CoreError events t.0 (without path (path ∷ []))) turn
              (gave_up path e run (is_asked_head path))),
        refl,
      )

-- The ids of a path that no task asks for, by its latest event.
resolve_by :
    {events : List Event} {self : CollectionResolverCached}
    (ask : String → String → Resolution CoreError) (scope_name collection_name : String)
    → Run CoreError events self []
    → ask scope_name collection_name ≢ unjoined
    → (o : Option (ℕ × ℕ)) → look_up self (full_key_path scope_name collection_name) ≡ positive o
    → Enters self (full_key_path scope_name collection_name) false o
    → Serves
        (resolution events
          (full_key_path scope_name collection_name)
          o
          (ask scope_name collection_name))
        (resolve_at ask self scope_name collection_name
          (look_up self (full_key_path scope_name collection_name)))
unfolding resolve_at resolve_slow resolution
resolve_by ask scope_name collection_name run joined (some (i, m)) looks enters =
    elim (Bool-cases (ltb 0 i)) [
      | inl p ↦ let found : look_up _ _ ≡ some (i, m) = looks ∙ (rw p refl) in rw found (run, refl)
      | inr p ↦
          let found : look_up _ _ ≡ none = looks ∙ (rw p refl) in rw (found, enters) (run, refl)
    ]
resolve_by {events} {self} ask scope_name collection_name run joined none looks enters =
    let path : String = full_key_path scope_name collection_name in
    rw looks (
      subst
        (λ t.
          Serves (resolution events path none (ask scope_name collection_name))
            (resolve_slow ask scope_name collection_name t))
        (sym (pair_path (enter_slow self path) asks enters))
        (asked_Serves path (ask scope_name collection_name) (began path run enters) joined))

-- The ids of a path that no task asks for.
resolve_Serves :
    {events : List Event} {self : CollectionResolverCached}
    (ask : String → String → Resolution CoreError) (scope_name collection_name : String)
    → Run CoreError events self []
    → ask scope_name collection_name ≢ unjoined
    → Serves
        (resolution events
          (full_key_path scope_name collection_name)
          (latest (full_key_path scope_name collection_name) events)
          (ask scope_name collection_name))
        ((cached_resolver ask).resolve_collection_id self scope_name collection_name)
unfolding latest is_asked
resolve_Serves {events} {self} ask scope_name collection_name run joined =
    let path : String = full_key_path scope_name collection_name in
    let (looks, enters, _) = Run-answers path run in
    resolve_by ask scope_name collection_name run joined (latest path events) looks enters

operated-Serves :
    {A : Type 0} {events : List Event} {self : CollectionResolverCached}
    (ask : String → String → Resolution CoreError) (scope_name collection_name : String)
    (o : Result CoreError A)
    → Run CoreError events self []
    → Serves
        (operated (full_key_path scope_name collection_name) events o)
        (after_operation (cached_resolver ask) self scope_name collection_name o)
unfolding operated after_operation
operated-Serves ask scope_name collection_name (ok r) run = (run, refl)
operated-Serves ask scope_name collection_name (err e) run =
    give_up_Serves ask scope_name collection_name e run
operated-Serves ask scope_name collection_name panic run = (run, refl)

requested-Serves :
    {A : Type 0} (ask : String → String → Resolution CoreError)
    (scope_name collection_name : String) (operation : ℕ → Result CoreError A)
    (spec : List Event × Result CoreError (ℕ × ℕ))
    (t : CollectionResolverCached × Option (Result CoreError (ℕ × ℕ)))
    → Serves spec t
    → Serves
        (requested (full_key_path scope_name collection_name) operation spec)
        (after_resolve (cached_resolver ask) scope_name collection_name operation t)
unfolding requested after_resolve
requested-Serves ask scope_name collection_name operation (events, ok (i, m)) (self, o) (run, e) =
    rw e (operated-Serves ask scope_name collection_name (operation i) run)
requested-Serves ask scope_name collection_name operation (events, err x) (self, o) (run, e) =
    rw e (give_up_Serves ask scope_name collection_name x run)
requested-Serves ask scope_name collection_name operation (events, panic) (self, o) (run, e) =
    rw e (run, refl)

-- A request of a collection other than the default one, on a cache where no task asks for any path:
-- it resolves the path to the ids that were learnt last and not forgotten since, and asks the
-- resolver where there are none; it gives the outcome of the operation on that id, or the resolver's
-- error; an answer of the resolver is learnt, and an error of an unknown collection, from either,
-- makes the path forgotten. The cache behind it is one that a run with these events leaves, so that
-- the next request finds it so. The resolver's task is assumed to be joined.
pub orchestrate_memd_collection_id-cached_resolver :
    {A : Type 0} {events : List Event} {self : CollectionResolverCached}
    (ask : String → String → Resolution CoreError) (scope_name collection_name : String)
    (operation : ℕ → Result CoreError A)
    → Run CoreError events self []
    → is_default scope_name collection_name ≡ false
    → ask scope_name collection_name ≢ unjoined
    → Serves
        (requested (full_key_path scope_name collection_name) operation (
          resolution events
            (full_key_path scope_name collection_name)
            (latest (full_key_path scope_name collection_name) events)
            (ask scope_name collection_name)))
        (orchestrate_memd_collection_id
          (cached_resolver ask)
          self
          scope_name
          collection_name
          operation)
unfolding orchestrate_memd_collection_id
orchestrate_memd_collection_id-cached_resolver ask scope_name collection_name operation run other
      joined =
    rw other (
      requested-Serves ask scope_name collection_name operation _ _
        (resolve_Serves ask scope_name collection_name run joined))
