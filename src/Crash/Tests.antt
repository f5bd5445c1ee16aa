-- ===== src/Crash/Tests.antt =====
-- Runs of the crash monitor.
use doupro.Base.{true, false, ◌≡◌, refl, Option, some, [], ◌∷◌, ℕ, ◌-◌, Text, codes, arith}
use doupro.Store.Time.{Time, stored_le}
use doupro.Store.Watches.{RollbackWatch, armed, record_crash, set_restart_count, expire}
use doupro.Crash.Monitor.{Monitored, reconcile_watch, reconcile, list_active, note_crash, unix_nano}
use doupro.Crash.Monitor.Backfill.{AfterCrashes, IsOpen}
use doupro.Crash.Monitor.Reconcile.{reconcile_watch-AfterCrashes}
use doupro.Store.Containers.{ContainerRecord}
use doupro.Crash.Task.{rollback_task}
use doupro.Crash.Task.Settled.{IsResolved, rollback_task-IsResolved}
use doupro.Updater.Update.{World, Surroundings}
use doupro.Updater.Guard.{new_operation_guard}
use doupro.Updater.Fixture.{engine, c1}

abbrev at_second : ℕ → Time
at_second s = record { second = s; nano = 0 }

-- Armed at second 100, for an hour, three crashes, and two restarts observed.
abbrev watch : RollbackWatch
watch = armed (codes "web") (codes "c1") (at_second 100) 3_600 3 2

abbrev monitored : Monitored
monitored = record { watches = watch ∷ []; rows = []; rollbacks = [] }

abbrev restarts : Text → Option ℕ
restarts id = some 6

-- Four restarts more are three crashes, and one rollback.
reconciled : (reconcile (at_second 200) restarts monitored).rollbacks ≡ codes "web" ∷ []
unfolding reconcile expire list_active note_crash record_crash set_restart_count stored_le
reconciled = refl

watch-IsOpen : IsOpen (codes "c1") (unix_nano (at_second 200)) (at_second 200) watch
watch-IsOpen = (refl, refl, refl, omega arith, omega arith)

reconcile_watch-AfterCrashes_example :
    AfterCrashes
      (codes "web")
      watch
      (6 - 2)
      monitored
      (reconcile_watch (at_second 200) watch (some 6) monitored)
reconcile_watch-AfterCrashes_example =
    reconcile_watch-AfterCrashes (at_second 200) watch 6 monitored refl watch-IsOpen

abbrev row : ContainerRecord
row = record {
  id = c1;
  name = codes "web";
  state = codes "running";
  current_image = codes "web:1";
  previous_image = codes "sha256:1";
  update_available = false;
}

abbrev world : World
world = record { log = []; writes = []; rows = row ∷ []; watches = watch ∷ [] }

abbrev around : Surroundings
around = record {
  engine = engine false;
  stores = λ w c. true;
  reads = λ w. true;
  crash_settings = λ w. (3, 10);
  now = λ w. at_second 100;
  trim_space = λ s. s;
  digest_parses = λ s. false;
}

rollback_task-IsResolved_example :
    IsResolved around 0
      (codes "web")
      new_operation_guard
      world
      (rollback_task around 0 watch new_operation_guard world).1
rollback_task-IsResolved_example =
    rollback_task-IsResolved around 0 watch new_operation_guard world (λ u. refl)
