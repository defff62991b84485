-- ===== src/Config/Told.antt =====
-- The version that the watcher of sdk/couchbase-core/src/configmanager.rs is told, which is sent
-- when the lock of the latest configuration is free again.
use couchbase_rs.Prelude.{◌≡◌, sym, List, [], ◌∷◌, some, none, inl, inr}
use mathlib.Core.Path.{subst}
use couchbase_rs.Config.{
  ParsedConfig, ConfigManager, version_of, take_config, send_taken, handle_config,
}
use couchbase_rs.Config.Update.{take_config-cases}
use couchbase_rs.Config.Calls.{
  Caller, Task, sending, returned, System, task_of, enter, go_on, advance, entered, advanced, Run,
  done, next,
}

module _ {Node : Type 0} where
  abbrev pub idle : ConfigManager Node → System Node
  idle m = record { manager = m; tasks = [] }

  -- Every call is over, a configuration is the latest, and the watcher was told a version last.
  abbrev pub Ends : ConfigManager Node → ParsedConfig Node → ParsedConfig Node → Type 1
  Ends m latest told =
      (t : System Node) × Run (idle m) t
      × (t.tasks ≡ [])
      × (t.manager.latest_config ≡ latest)
      × (t.manager.latest_version ≡ version_of told)

  left_run :
      {m : ConfigManager Node} {ts : List (Task Node)} (who : Caller) (c : ParsedConfig Node)
      → take_config m c ≡ (m, none)
      → Run (record { manager = m; tasks = ts }) (record { manager = go_on who m none; tasks = ts })
  unfolding enter advance
  left_run {m} {ts} who c left =
      next
        (subst
          (λ p.
            Run (record { manager = m; tasks = ts })
              (record { manager = p.0; tasks = task_of who p.1 ∷ ts }))
          left (next done (entered who c)))
        (advanced [] (returned who none) ts)

  -- A call whose turns come one after the other does what `handle_config` and its caller do.
  handle_config_undisturbed :
      (m : ConfigManager Node) (ts : List (Task Node)) (who : Caller) (c : ParsedConfig Node)
      → Run
          (record { manager = m; tasks = ts })
          (record { manager = go_on who (handle_config m c).0 (handle_config m c).1; tasks = ts })
  unfolding handle_config send_taken advance
  handle_config_undisturbed m ts who c = elim (take_config-cases m c) [
    | inl (taken, why) ↦
        subst
          (λ p.
            Run (record { manager = m; tasks = ts })
              (record { manager = go_on who (send_taken p).0 (send_taken p).1; tasks = ts }))
          (sym taken)
          (next
            (next
              (subst
                (λ p.
                  Run (record { manager = m; tasks = ts })
                    (record { manager = p.0; tasks = task_of who p.1 ∷ ts }))
                taken (unfold enter in (next done (entered who c))))
              (advanced [] (sending who c) ts))
            (advanced [] (returned who (some c)) ts))
    | inr left ↦
        subst
          (λ p.
            Run (record { manager = m; tasks = ts })
              (record { manager = go_on who (send_taken p).0 (send_taken p).1; tasks = ts }))
          (sym left) (left_run who c left)
  ]
