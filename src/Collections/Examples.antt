-- ===== src/Collections/Examples.antt =====
-- The theorems about the cache of collection ids at concrete inputs.
use Prim.Native.String.{String}
use couchbase_rs.Errors.{CoreError}
use couchbase_rs.Collections.{
  CollectionResolverCached, Resolution, new, enter_slow, enter_at, leave_slow, invalidate, look_up,
  resolved, unjoined, panicked, full_key_path,
}
use couchbase_rs.Collections.Runs.{
  Event, learnt, latest, is_asked, without, Run, start, began, answered,
}
use couchbase_rs.Collections.Answers.{Enters, positive, Run-answers}
use couchbase_rs.Collections.Broken.{
  CacheTurn, turns, Broken, late_answer_poisons, after_late_answer,
}
use couchbase_rs.Collections.Orchestrate.{orchestrate_memd_collection_id, cached_resolver}
use couchbase_rs.Collections.Requests.{
  resolution, requested, Serves, orchestrate_memd_collection_id-cached_resolver,
}
use couchbase_rs.Prelude.{ℕ, true, false, List, [], ◌∷◌, ok, Result, ◌≡◌, ◌≢◌, refl}
use couchbase_rs.Prelude.Maps.{get}

-- A task asks for `s.c`.
abbrev asking : CollectionResolverCached
asking = (enter_slow new "s.c").0

abbrev first_ids : Resolution CoreError
first_ids = resolved 8 1

first_ids_joined : first_ids ≢ unjoined
first_ids_joined e = cc

asking-Run : Run CoreError [] asking ("s.c" ∷ [])
unfolding enter_slow enter_at get
asking-Run = began "s.c" start refl

-- And is answered.
abbrev answered_cache : CollectionResolverCached
answered_cache = (leave_slow asking "s.c" first_ids).0

abbrev one_answer : List Event
one_answer = learnt "s.c" 8 1 ∷ []

answered-Run : Run CoreError one_answer answered_cache (without "s.c" ("s.c" ∷ []))
unfolding is_asked
answered-Run = answered "s.c" 8 1 asking-Run refl

Run-answers_example :
    (look_up answered_cache "s.c" ≡ positive (latest "s.c" one_answer))
    × Enters answered_cache "s.c"
        (is_asked "s.c" (without "s.c" ("s.c" ∷ [])))
        (latest "s.c" one_answer)
    × (is_asked "s.c" (without "s.c" ("s.c" ∷ [])) ≡ true
        → (r : Resolution CoreError) → (leave_slow answered_cache "s.c" r).1 ≢ panicked)
Run-answers_example = Run-answers "s.c" answered-Run

asking_unpoisoned : asking.poisoned ≡ false
unfolding enter_slow enter_at get
asking_unpoisoned = refl

late_answer_poisons_example :
    ((leave_slow (invalidate asking "s.c").0 "s.c" first_ids).1 ≡ panicked)
    × ((later : List (CacheTurn CoreError))
        → Broken CoreError (turns (after_late_answer asking "s.c" first_ids) later))
late_answer_poisons_example =
    late_answer_poisons asking "s.c" first_ids asking_unpoisoned first_ids_joined

abbrev ask : String → String → Resolution CoreError
ask _ _ = first_ids

abbrev own_id : ℕ → Result CoreError ℕ
own_id collection_id = ok collection_id

orchestrate_memd_collection_id-cached_resolver_example :
    Serves
      (requested
        (full_key_path "s" "c")
        own_id
        (resolution [] (full_key_path "s" "c") (latest (full_key_path "s" "c") []) (ask "s" "c")))
      (orchestrate_memd_collection_id (cached_resolver ask) new "s" "c" own_id)
orchestrate_memd_collection_id-cached_resolver_example =
    orchestrate_memd_collection_id-cached_resolver ask "s" "c" own_id start refl first_ids_joined
