-- ===== src/Updater/Update/Tests.antt =====
-- The theorems on updates: one that succeeds, one of a tag that was moved, which cannot be recorded and
-- is reverted, and one whose container does not become healthy.
use doupro.Base.{◌≡◌, ◌≢◌, refl, Text, true, false, none, some, [], ◌∷◌, codes, Bool, ◌⊎◌, ◌||◌}
use doupro.Store.Time.{Time}
use doupro.Store.Containers.{ContainerRecord}
use doupro.Updater.Json.{compare_json_subset, deep_equal}
use doupro.Updater.Volumes.{covered, preserve_anonymous_volumes}
use doupro.Updater.Validate.{validate_recreation, normalized_host_config, network_config_of}
use doupro.Updater.Engine.{Call, wait_healthy}
use doupro.Updater.Recreate.{
  recreate, pull_new, stop_old, remove_old, create_new, check_new, start_new, trim_slash,
}
use doupro.Updater.Recreate.Images.{Adds}
use doupro.Updater.Recreate.Creation.{Creates}
use doupro.Updater.Update.{
  World, Surroundings, update_container, commit, commit_running, commit_stopped, revert, read_row,
  reverted, not_recorded, recreated, StoreCall, replace_and_arm,
}
use doupro.Updater.Update.OnRecord.{KeepsReference}
use doupro.Updater.Update.Restored.{IsUndone}
use doupro.Updater.Update.Records.{
  Supersedes, new_id, first_result, update_container_success, update_container_failure,
}
use doupro.Updater.Update.Images.{update_container-CreatesFrom}
use doupro.Updater.Guard.{OperationGuard, lookup, begin_operation}
use doupro.Updater.Update.{update, name_of}
use doupro.Updater.Update.Guarded.{update_releases}
use doupro.Updater.Fixture.{engine, web, web2, target, c1}

abbrev noon : Time
noon = record { second = 43_200; nano = 0 }

abbrev never_healthy : Call → Bool
never_healthy (wait_healthy id) = false
never_healthy _ = true

-- The engine of the fixture, on which a container becomes healthy or not.
abbrev around : Bool → Surroundings
around healthy = record {
  engine = record (engine false) { succeeds = λ log c. healthy || never_healthy c };
  stores = λ w c. true;
  reads = λ w. true;
  crash_settings = λ w. (3, 10);
  now = λ w. noon;
  trim_space = λ s. s;
  digest_parses = λ s. false;
}

abbrev row : ContainerRecord
row = record {
  id = c1;
  name = codes "web";
  state = codes "running";
  current_image = codes "web:1";
  previous_image = [];
  update_available = true;
}

abbrev world : World
world = record { log = []; writes = []; rows = row ∷ []; watches = [] }

updated : (update_container (around true) c1 web target world).0 ≡ none
unfolding update_container recreate pull_new stop_old remove_old create_new check_new start_new
    validate_recreation normalized_host_config preserve_anonymous_volumes covered network_config_of
    compare_json_subset deep_equal commit commit_running commit_stopped
updated = refl

update_container_success_example :
    (current : Text) × KeepsReference (around true) c1 target world current
    × Supersedes c1
        (record {
          id = new_id (around true) c1 web target world;
          name = trim_slash web.name;
          state = (first_result (around true) c1 web target world).state;
          current_image = current;
          previous_image = web.image;
          update_available = false;
        })
        (update_container (around true) c1 web target world).1.rows
update_container_success_example =
    update_container_success (around true) c1 web target world
      (update_container (around true) c1 web target world).1
      (λ i. (updated i, (update_container (around true) c1 web target world).1))

abbrev no_watches : StoreCall → Bool
no_watches replace_and_arm = false
no_watches _ = true

-- The store does not take the row of the updated container together with its watch.
abbrev unrecorded : Surroundings
unrecorded = record (around true) { stores = λ w c. no_watches c }

moved_tag : (update_container unrecorded c1 web2 target world).0 ≡ some (reverted not_recorded)
unfolding update_container recreate pull_new stop_old remove_old create_new check_new start_new
    validate_recreation normalized_host_config preserve_anonymous_volumes covered network_config_of
    compare_json_subset deep_equal commit commit_running commit_stopped revert
moved_tag = refl

update_container_failure_example :
    IsUndone unrecorded c1
      (first_result unrecorded c1 web2 target world).id
      web2
      (reverted not_recorded)
      world
      (update_container unrecorded c1 web2 target world).1
update_container_failure_example =
    update_container_failure unrecorded c1 web2 target world
      (update_container unrecorded c1 web2 target world).1 (reverted not_recorded)
      (λ i. (moved_tag i, (update_container unrecorded c1 web2 target world).1))

update_container-CreatesFrom_example :
    let first = (recreated (around false) c1 web target world).1.log in
    let (err, w') = update_container (around false) c1 web target world in
    Adds (λ image. image ≡ target) world.log first
    × (((err ≡ none) × Creates target world.log w'.log)
        ⊎ ((err ≢ none) × Adds (λ image. image ≡ web.config.image) first w'.log))
update_container-CreatesFrom_example =
    update_container-CreatesFrom (around false) c1 web target world

abbrev db_busy : OperationGuard
db_busy = record { active = (codes "db", codes "rollback") ∷ []; maintenance = false }

update_releases_example :
    (lookup (codes "db") (update (around true) c1 target db_busy world).1.active
      ≡ lookup (codes "db") db_busy.active)
    × ((update (around true) c1 target db_busy world).1.maintenance ≡ db_busy.maintenance)
    × (((begin_operation
            (name_of (around true) c1 (read_row (around true) c1 world))
            (codes "update")
            db_busy).0
          ≡ none)
        ⊎ ((update (around true) c1 target db_busy world).2 ≡ world))
update_releases_example = update_releases (around true) c1 target (codes "db") db_busy world
