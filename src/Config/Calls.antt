-- ===== src/Config/Calls.antt =====
-- The calls of `handle_config` in sdk/couchbase-core/src/configmanager.rs as tasks that run at the
-- same time: a call takes the configuration over under the lock, drops the lock and then sends the
-- version, and between these its caller's and the other tasks' turns may come.
use couchbase_rs.Prelude.{false, List, [], ◌∷◌, ◌++◌, Option, none, some, Result, ok, err, panic}
use couchbase_rs.Config.{
  ParsedConfig, ConfigManager, take_config, send_version, publish, set_fetching, compare_exchange,
}

-- `out_of_band_config`, the loop of `start_watcher` and `perform_out_of_band_fetch`.
pub data Caller : Type 0 where
  outside watcher fetch : Caller

module _ (Node : Type 0) where
  -- A call that has dropped the lock and not sent the version of what it took over; and one that
  -- is back with its answer.
  pub data Task : Type 0 where
    sending : Caller → ParsedConfig Node → Task
    returned : Caller → Option (ParsedConfig Node) → Task

  pub record System : Type 0 where
    pub manager : ConfigManager Node
    pub tasks : List Task

module _ {Node : Type 0} where
  abbrev pub task_of : Caller → Option (ParsedConfig Node) → Task Node
  task_of who (some taken) = sending who taken
  task_of who none = returned who none

  -- The section under the lock.
  unfoldable pub enter : System Node → Caller → ParsedConfig Node → System Node
  enter s who c = record {
    manager = (take_config s.manager c).0;
    tasks = task_of who (take_config s.manager c).1 ∷ s.tasks;
  }

  -- What a caller does with the answer.
  unfoldable pub go_on :
      Caller → ConfigManager Node → Option (ParsedConfig Node) → ConfigManager Node
  go_on outside self cfg = self
  go_on watcher self cfg = publish (self, cfg)
  go_on fetch self cfg = set_fetching self false

  -- The next turn of a task, and what is left of the task.
  unfoldable pub advance : ConfigManager Node → Task Node → ConfigManager Node × List (Task Node)
  unfolding go_on
  advance self (sending who c) = (send_version self c, returned who (some c) ∷ [])
  advance self (returned who cfg) = (go_on who self cfg, [])

  -- A fetch whose poll is back.
  unfoldable pub on_polled {ℓ} :
      {E : Type ℓ} → System Node → Result E (Option (ParsedConfig Node)) → System Node
  unfolding enter
  on_polled s (err e) = s
  on_polled s panic = s
  on_polled s (ok none) = record s { manager = set_fetching s.manager false }
  on_polled s (ok (some c)) = enter s fetch c

  -- What can happen, in any order: any number of calls and fetches may be under way at a time.
  pub data Step : System Node → System Node → Type 1 where
    entered : {s : System Node} (who : Caller) (c : ParsedConfig Node) → Step s (enter s who c)
    advanced :
        {m : ConfigManager Node} (before : List (Task Node)) (t : Task Node)
        (after : List (Task Node))
        → Step
            (record { manager = m; tasks = before ++ (t ∷ after) })
            (record { manager = (advance m t).0; tasks = before ++ ((advance m t).1 ++ after) })
    -- A fetch that found no version to skip for marks that it is under way. Its look at the latest
    -- configuration changes nothing and may lie any number of steps back.
    marked : {s : System Node} → Step s (record s { manager = (compare_exchange s.manager).0 })
    polled :
        {s : System Node} {E : Type 0} (answer : Result E (Option (ParsedConfig Node)))
        → Step s (on_polled s answer)

  -- Any sequence of steps.
  pub data Run : System Node → System Node → Type 1 where
    done : {s : System Node} → Run s s
    next : {s t u : System Node} → Run s t → Step t u → Run s u
