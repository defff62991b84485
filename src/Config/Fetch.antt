-- ===== src/Config/Fetch.antt =====
-- What holds of the latest configuration of sdk/couchbase-core/src/configmanager.rs over any turns
-- of calls and fetches, and of a fetch that begins.
use couchbase_rs.Prelude.{
  ◌≡◌, refl, ap, sym, ◌∙◌, ◌⊎◌, inl, inr, true, false, ◌∷◌, Option, none, some, ok, err, panic,
  arith, Bool-cases,
}
use mathlib.Core.Path.{subst}
use mathlib.Core.Bool.{true≢false}
use couchbase_rs.Prelude.Integers.{ℤ, pos_part, neg_part}
use couchbase_rs.Config.{
  ParsedConfig, ConfigManager, bucket_type_changed, polls, begin_fetch, end_fetch, compare_exchange,
  is_ok_true, has_version,
}
use couchbase_rs.Config.Update.{Newer, take_config-cases}
use couchbase_rs.Config.Calls.{
  Caller, outside, watcher, fetch, Task, sending, returned, System, task_of, enter, go_on, advance,
  on_polled, Step, entered, advanced, marked, polled, Run, done, next,
}

module _ {Node : Type 0} where
  -- What a step makes of the latest configuration.
  abbrev Moved : System Node → System Node → Type 0
  Moved s t =
      (t.manager.latest_config ≡ s.manager.latest_config)
      ⊎ (bucket_type_changed t.manager.latest_config.bucket s.manager.latest_config.bucket ≡ true)
      ⊎ Newer t.manager.latest_config s.manager.latest_config

  enter-Moved : (s : System Node) (who : Caller) (c : ParsedConfig Node) → Moved s (enter s who c)
  unfolding enter
  enter-Moved s who c = elim (take_config-cases s.manager c) [
    | inl (taken, why) ↦
        subst (λ p. Moved s (record { manager = p.0; tasks = task_of who p.1 ∷ s.tasks }))
          (sym taken) (inr why)
    | inr left ↦
        subst (λ p. Moved s (record { manager = p.0; tasks = task_of who p.1 ∷ s.tasks }))
          (sym left) (inl refl)
  ]

  go_on-latest_config :
      (who : Caller) (self : ConfigManager Node) (cfg : Option (ParsedConfig Node))
      → (go_on who self cfg).latest_config ≡ self.latest_config
  unfolding go_on
  go_on-latest_config outside self cfg = refl
  go_on-latest_config watcher self (some c) = refl
  go_on-latest_config watcher self none = refl
  go_on-latest_config fetch self cfg = refl

  advance-latest_config :
      (self : ConfigManager Node) (t : Task Node)
      → (advance self t).0.latest_config ≡ self.latest_config
  unfolding advance
  advance-latest_config self (sending who c) = refl
  advance-latest_config self (returned who cfg) = go_on-latest_config who self cfg

  compare_exchange-latest_config :
      (self : ConfigManager Node) → (compare_exchange self).0.latest_config ≡ self.latest_config
  unfolding compare_exchange
  compare_exchange-latest_config self = elim (Bool-cases self.performing_out_of_band_fetch) [
    | inl busy ↦ rw (busy)
    | inr free ↦ rw (free)
  ]

  Step-Moved : {s t : System Node} → Step s t → Moved s t
  unfolding on_polled
  Step-Moved {s} (entered who c) = enter-Moved s who c
  Step-Moved (advanced {m} before t after) = inl (advance-latest_config m t)
  Step-Moved {s} marked = inl (compare_exchange-latest_config s.manager)
  Step-Moved (polled (err e)) = inl refl
  Step-Moved (polled panic) = inl refl
  Step-Moved (polled (ok none)) = inl refl
  Step-Moved {s} (polled (ok (some c))) = enter-Moved s fetch c

  -- No step of the run changes the type of the latest configuration's bucket.
  abbrev pub KeepsType : {s t : System Node} → Run s t → Type 0
  KeepsType done = Unit {0}
  KeepsType (next {t = t} {u = u} run step) =
      KeepsType run
      × (bucket_type_changed u.manager.latest_config.bucket t.manager.latest_config.bucket ≡ false)

  abbrev pub NotOlder : ParsedConfig Node → ParsedConfig Node → Type 0
  NotOlder new old = Newer new old ⊎ ((old.rev_epoch ≡ new.rev_epoch) × (old.rev_id ≡ new.rev_id))

  Newer-NotOlder :
      (new mid old : ParsedConfig Node) → Newer new mid → NotOlder mid old → NotOlder new old
  Newer-NotOlder new mid old (inl a) (inr (epoch, id)) =
      inl (inl (omega (arith, a, ap pos_part epoch, ap neg_part epoch)))
  Newer-NotOlder new mid old (inr (level, a)) (inr (epoch, id)) =
      inl (inr (epoch ∙ level, omega (arith, a, ap pos_part id, ap neg_part id)))
  Newer-NotOlder new mid old (inl a) (inl (inl b)) = inl (inl (omega (arith, a, b)))
  Newer-NotOlder new mid old (inl a) (inl (inr (level, b))) =
      inl (inl (omega (arith, a, ap pos_part level, ap neg_part level)))
  Newer-NotOlder new mid old (inr (level, a)) (inl (inl b)) =
      inl (inl (omega (arith, b, ap pos_part level, ap neg_part level)))
  Newer-NotOlder new mid old (inr (level, a)) (inl (inr (level', b))) =
      inl (inr (level' ∙ level, omega (arith, a, b)))

  -- Along steps that do not change the type of the latest configuration's bucket, however the turns
  -- of the calls and fetches are mixed, whatever configurations arrive and whatever polls come to,
  -- the latest configuration is never replaced by an older one: its epoch and revision are in the
  -- end those of the start or newer.
  pub Run-NotOlder :
      {s t : System Node} (run : Run s t)
      → KeepsType run
      → NotOlder t.manager.latest_config s.manager.latest_config
  Run-NotOlder done kept = inr (refl, refl)
  Run-NotOlder {s} (next {t = t} {u = u} run step) (kept, kept_last) = elim (Step-Moved step) [
    | inl config ↦
        subst (λ c. NotOlder c s.manager.latest_config) (sym config) (Run-NotOlder run kept)
    | inr (inl changed) ↦ absurd (true≢false (sym changed ∙ kept_last))
    | inr (inr newer) ↦
        Newer-NotOlder u.manager.latest_config t.manager.latest_config s.manager.latest_config newer
          (Run-NotOlder run kept)
  ]

  -- A fetch for a version that is not there yet polls the server whether or not another fetch is
  -- under way, so that no fetch waits for another; and after a poll that fails the mark that a
  -- fetch is under way stays set.
  pub begin_fetch_polls {ℓ} :
      {E : Type ℓ} (s : ConfigManager Node) (rev_id rev_epoch : ℤ) (e : E)
      → has_version s rev_id rev_epoch ≡ false
      → ((begin_fetch s rev_id rev_epoch).1
          ≡ polls s.latest_config.rev_id s.latest_config.rev_epoch)
        × ((begin_fetch s rev_id rev_epoch).0.performing_out_of_band_fetch ≡ true)
        × ((end_fetch (begin_fetch s rev_id rev_epoch).0 (err e)).0.performing_out_of_band_fetch
            ≡ true)
  unfolding begin_fetch compare_exchange is_ok_true end_fetch
  begin_fetch_polls s rev_id rev_epoch e unknown =
      elim (Bool-cases s.performing_out_of_band_fetch) [
        | inl busy ↦ (rw (unknown, busy), rw (unknown, busy), rw (unknown, busy))
        | inr idle ↦ (rw (unknown, idle), rw (unknown, idle), rw (unknown, idle))
      ]
