-- ===== src/Crash/Task.antt =====
-- The task that rolls a container back: `rollback` of internal/crashloop/monitor.go, over the updater.
pub mod Settled
use doupro.Base.{
  Bool, true, false, Option, none, some, List, [], ◌∷◌, ℕ, Text, codes, text_eq, if◌then◌else◌,
}
use doupro.Store.Containers.{ContainerRecord, Containers}
use doupro.Store.Watches.{RollbackWatch, complete}
use doupro.Updater.Guard.{OperationGuard, Refusal, maintenance_in_progress, operation_in_progress}
use doupro.Updater.Update.{World, Surroundings, UpdateError, refused, written, complete_watch}
use doupro.Updater.Rollback.{rollback}

abbrev pub get_by_name : Text → Containers → Option ContainerRecord
get_by_name name [] = none
get_by_name name (r ∷ rs) =
    let rest = get_by_name name rs in if text_eq r.name name then some r else rest

-- `IsMaintenanceError`
abbrev pub is_maintenance_error : UpdateError → Bool
is_maintenance_error (refused maintenance_in_progress) = true
is_maintenance_error _ = false

abbrev pub rollback_failed : Text
rollback_failed = codes "rollback_failed"

module _ (x : Surroundings) where
  open x use {reads}

  abbrev pub fail_watch : Text → World → World
  fail_watch name w =
      (written x complete_watch
        (λ u. record u { watches = complete name rollback_failed u.watches }) w).1

  -- What follows the rollback, by its error.
  abbrev pub task_end : Text → Option UpdateError → World → World
  task_end name none w = w
  task_end name (some e) w = if is_maintenance_error e then w else fail_watch name w

  abbrev pub task_found :
      ℕ → Text → Option ContainerRecord → OperationGuard → World → OperationGuard × World
  task_found polls name none g w = (g, fail_watch name w)
  task_found polls name (some rec) g w =
      let (err, g1, w1) = rollback x true polls rec.id g w in (g1, task_end name err w1)

  unfoldable pub rollback_task : ℕ → RollbackWatch → OperationGuard → World → OperationGuard × World
  rollback_task polls watch g w =
      let name = watch.container_name in
      task_found polls name (if reads w then get_by_name name w.rows else none) g w
