-- ===== src/Updater/Rollback/Tests.antt =====
-- An update that succeeds and is rolled back, and a rollback whose container cannot be removed.
use doupro.Base.{Bool, true, false, ◌≡◌, refl, none, some, [], ◌∷◌, codes, text_eq, if◌then◌else◌}
use doupro.Store.Time.{Time}
use doupro.Store.Watches.{arm, complete}
use doupro.Store.Containers.{ContainerRecord, get_container, replace_container}
use doupro.Updater.Json.{compare_json_subset, deep_equal}
use doupro.Updater.Volumes.{covered, preserve_anonymous_volumes}
use doupro.Updater.Validate.{
  Inspection, validate_recreation, normalized_host_config, network_config_of,
}
use doupro.Updater.Engine.{Log, Engine, create}
use doupro.Updater.Recreate.{
  recreate, pull_new, stop_old, remove_old, create_new, check_new, start_new, remove_failed,
}
use doupro.Updater.Guard.{new_operation_guard, begin_operation, begin, end}
use doupro.Updater.Update.{
  World, Surroundings, update_container, commit, commit_running, commit_stopped,
  fail_before_removal, failed_before_removal, stable_of, read_row,
}
use doupro.Updater.Update.Records.{first_result}
use doupro.Updater.Rollback.{rollback_container, rollback_begun, rollback, settle}
use doupro.Updater.Rollback.Records.{IsRolledBack, rollback_container_success}
use doupro.Updater.Recreate.Creation.{CreatedFrom}
use doupro.Updater.Rollback.Undo.{rollback-update}
use doupro.Updater.Fixture.{engine, web, target, c1}

abbrev noon : Time
noon = record { second = 43_200; nano = 0 }

-- The container as it was created last.
abbrev latest : Log → Inspection
latest [] = web
latest ((create p, b) ∷ log) = record web {
  config = p.config;
  host_config = p.host_config;
  networks = p.network_config;
}
latest (e ∷ log) = latest log

abbrev mirror : Bool → Engine
mirror stuck = record (engine stuck) {
  inspection = λ log id. latest log;
  created_id = λ log p. if text_eq p.config.image target then codes "c2" else codes "c3";
}

abbrev around : Bool → Surroundings
around stuck = record {
  engine = mirror stuck;
  stores = λ w c. true;
  reads = λ w. true;
  crash_settings = λ w. (3, 10);
  now = λ w. noon;
  trim_space = λ s. s;
  digest_parses = λ s. false;
}

abbrev row : ContainerRecord
row = record {
  id = c1;
  name = codes "web";
  state = codes "running";
  current_image = codes "web:2";
  previous_image = codes "sha256:bb";
  update_available = true;
}

abbrev world : World
world = record { log = []; writes = []; rows = row ∷ []; watches = [] }

abbrev updated : World
updated = (update_container (around false) c1 web target world).1

update_succeeds : update_container (around false) c1 web target world ≡ (none, updated)
unfolding update_container recreate pull_new stop_old remove_old create_new check_new start_new
    validate_recreation normalized_host_config preserve_anonymous_volumes covered network_config_of
    compare_json_subset deep_equal commit commit_running commit_stopped
update_succeeds = refl

rollback_succeeds :
    (rollback
      (around false)
      true
      3
      (first_result (around false) c1 web target world).id
      new_operation_guard
      updated).0
    ≡ none
unfolding rollback rollback_begun rollback_container settle begin_operation begin end
    update_container recreate pull_new stop_old remove_old create_new check_new start_new
    validate_recreation normalized_host_config preserve_anonymous_volumes covered network_config_of
    compare_json_subset deep_equal commit commit_running commit_stopped replace_container arm
rollback_succeeds = refl

rollback-update_example :
    let u' =
      (rollback
        (around false)
        true
        3
        (first_result (around false) c1 web target world).id
        new_operation_guard
        updated).2 in
    CreatedFrom web.image u'.log
    × (r : ContainerRecord) × (get_container r.id u'.rows ≡ some r)
    × (r.current_image ≡ stable_of (around false) target (read_row (around false) c1 world))
rollback-update_example =
    rollback-update (around false) c1 web target world updated updated true 3 new_operation_guard
      update_succeeds refl rollback_succeeds

abbrev rolled : World
rolled = (rollback_container (around false) false c1 row web world).1

container_succeeds : rollback_container (around false) false c1 row web world ≡ (none, rolled)
unfolding rollback_container recreate pull_new stop_old remove_old create_new check_new start_new
    validate_recreation normalized_host_config preserve_anonymous_volumes covered network_config_of
    compare_json_subset deep_equal replace_container complete
container_succeeds = refl

rollback_container_success_example : IsRolledBack (around false) false c1 row web world rolled
rollback_container_success_example =
    rollback_container_success (around false) false c1 row web world rolled container_succeeds

abbrev kept : World
kept = (rollback_container (around true) true c1 row web world).1

container_fails :
    rollback_container (around true) true c1 row web world
    ≡ (some (failed_before_removal remove_failed), kept)
unfolding rollback_container recreate pull_new stop_old remove_old create_new check_new start_new
    fail_before_removal
container_fails = refl
