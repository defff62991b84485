-- ===== src/Config/Examples.antt =====
-- Runs of the manager of configurations.
use couchbase_rs.Prelude.{ℕ, ◌≡◌, refl, ◌⊎◌, true, false, [], none, some, err}
use couchbase_rs.Prelude.Integers.{pos}
use couchbase_rs.Config.{
  ParsedConfig, ConfigManager, new_manager, with_latest, take_config, handle_config, begin_fetch,
  end_fetch, has_version, polls, bucket_type_changed, can_update_config, partial_cmp, then_by, cmp,
  is_greater, compare_exchange, is_ok_true,
}
use couchbase_rs.Config.Update.{Newer, handle_config_lem}
use couchbase_rs.Config.Fetch.{NotOlder, Run-NotOlder, begin_fetch_polls}
use couchbase_rs.Config.Calls.{System, enter, outside, watcher, entered, marked, Run, done, next}

abbrev revision : ℕ → ParsedConfig ℕ
revision n = record { rev_id = pos n; rev_epoch = pos 1; bucket = none; nodes = [] }

abbrev start : ConfigManager ℕ
start = new_manager (revision 3)

abbrev idle_start : System ℕ
idle_start = record { manager = start; tasks = [] }

-- Two configurations overlap, of which the newer one is taken over first, and a fetch begins.
abbrev after_first : System ℕ
after_first = enter idle_start outside (revision 5)

abbrev after_second : System ℕ
after_second = enter after_first watcher (revision 4)

abbrev after_third : System ℕ
after_third = record after_second { manager = (compare_exchange after_second.manager).0 }

abbrev run : Run idle_start after_third
run = next (next (next done (entered outside (revision 5))) (entered watcher (revision 4))) marked

handle_config_example :
    ((bucket_type_changed none none ≡ true) ⊎ Newer (revision 5) (revision 3)
      → handle_config start (revision 5) ≡ (with_latest start (revision 5), some (revision 5)))
    × (bucket_type_changed none none ≡ false
        → (Newer (revision 5) (revision 3) → ⊥)
        → handle_config start (revision 5) ≡ (start, none))
handle_config_example = handle_config_lem start (revision 5)

Run-NotOlder_example : NotOlder after_third.manager.latest_config (revision 3)
unfolding enter take_config bucket_type_changed can_update_config is_greater partial_cmp then_by cmp
    begin_fetch has_version is_ok_true compare_exchange
Run-NotOlder_example = Run-NotOlder run (((tt, refl), refl), refl)

abbrev lost : ℕ
lost = 0

begin_fetch_polls_example :
    ((begin_fetch start (pos 7) (pos 1)).1
      ≡ polls start.latest_config.rev_id start.latest_config.rev_epoch)
    × ((begin_fetch start (pos 7) (pos 1)).0.performing_out_of_band_fetch ≡ true)
    × ((end_fetch (begin_fetch start (pos 7) (pos 1)).0 (err lost)).0.performing_out_of_band_fetch
        ≡ true)
unfolding handle_config bucket_type_changed can_update_config is_greater partial_cmp then_by cmp
    begin_fetch has_version is_ok_true compare_exchange
begin_fetch_polls_example = begin_fetch_polls start (pos 7) (pos 1) lost refl
