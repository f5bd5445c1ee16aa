-- ===== src/Updater/SelfUpdate.antt =====
-- internal/updater/self_update.go: how the daemon hands over to a helper, and how the helper replaces it.
-- Log entries, metrics and the entry that the helper leaves in the database are left out.
pub mod Recovery
pub mod Success
pub mod Start
mod Tests
use doupro.Base.{
  Bool, true, false, not, ◌&&◌, ◌||◌, ◌++◌, Option, none, some, List, [], ◌∷◌, Text, codes, text_eq,
  starts_with, if◌then◌else◌,
}
use doupro.Updater.Volumes.{Mount, MountPoint, HostConfig}
use doupro.Updater.Validate.{Config, Inspection, RecreationPlan}
use doupro.Updater.Engine.{
  Call, Log, Engine, Helper, inspect, pull, stop, remove, start, wait_healthy, create, list_all,
  rename, create_helper,
}
use doupro.Updater.Guard.{Active, OperationGuard, begin_maintenance, end_maintenance}
use doupro.Updater.Recreate.{RecreateError, plan_error, plan}

-- Why the replacement failed.
pub data Failure : Type 0 where
  not_created not_started not_healthy : Failure

pub data HelperError : Type 0 where
  not_inspected : HelperError
  not_planned : RecreateError → HelperError
  not_stopped not_renamed not_removed : HelperError
  recovery_not_renamed recovery_not_started restored : Failure → HelperError

-- A call of the engine.
abbrev pub call : Engine → Call → Log → Bool × Log
call e c log = let ok_ = e.succeeds log c in (ok_, (c, ok_) ∷ log)

-- `Hostname` of a configuration, and the configuration without it.
pub record Hostnames : Type 0 where
  pub hostname : Config → Text
  pub without_hostname : Config → Config

module _ (e : Engine) (h : Hostnames) where
  open h use {hostname, without_hostname}

  -- The name that Docker generates from the ID of the container is not kept.
  abbrev pub kept_config : Text → Config → Config
  kept_config parent c =
      if not (text_eq (hostname c) []) && starts_with (hostname c) parent
      then without_hostname c
      else c

  abbrev pub helper_plan : Text → Inspection → Text → RecreationPlan
  helper_plan parent before target =
      let p = plan e before target in record p { config = kept_config parent p.config }

  abbrev pub recovery_name : RecreationPlan → Text → Text
  recovery_name p token = p.name ++ codes "-doupro-recovery-" ++ token

  -- The replacement, once it is created: it is started, and healthy.
  unfoldable pub run_replacement : RecreationPlan → Text → Log → Option Failure × Log
  run_replacement p id log =
      let (started, log1) = call e (start id) log in
      let (healthy, log2) = call e (wait_healthy id) log1 in
      if not p.was_running
      then (none, log)
      else if not started
      then (some not_started, log1)
      else if healthy
      then (none, log2)
      else (some not_healthy, log2)

  -- The original container gets its name and its state back.
  unfoldable pub recover : Text → RecreationPlan → Text → Failure → Log → Option HelperError × Log
  recover parent p new_id cause log =
      let log1 = if text_eq new_id [] then log else (call e (remove new_id) log).1 in
      let (renamed, log2) = call e (rename parent p.name) log1 in
      let (started, log3) = call e (start parent) log2 in
      if not renamed
      then (some (recovery_not_renamed cause), log2)
      else if not p.was_running
      then (some (restored cause), log2)
      else if started
      then (some (restored cause), log3)
      else (some (recovery_not_started cause), log3)

  -- The end of `RunSelfUpdateHelper`, by the error of the replacement
  abbrev pub helper_end :
      Text → RecreationPlan → Text → Option Failure → Log → Option HelperError × Log
  helper_end parent p new_id (some cause) log = recover parent p new_id cause log
  helper_end parent p new_id none log =
      let (removed, log1) = call e (remove parent) log in
      (if removed then none else some not_removed, log1)

  unfoldable pub replace : Text → RecreationPlan → Log → Option HelperError × Log
  replace parent p log =
      let (created, log1) = call e (create p) log in
      let id = e.created_id log p in
      let (cause, log2) = run_replacement p id log1 in
      if created
      then helper_end parent p id cause log2
      else helper_end parent p [] (some not_created) log1

  -- Once the original container is stopped.
  unfoldable pub rename_parent : Text → RecreationPlan → Text → Log → Option HelperError × Log
  rename_parent parent p token log =
      let (renamed, log1) = call e (rename parent (recovery_name p token)) log in
      let log2 = if p.was_running then (call e (start parent) log1).1 else log1 in
      if renamed then replace parent p log1 else (some not_renamed, log2)

  unfoldable pub stop_parent : Text → RecreationPlan → Text → Log → Option HelperError × Log
  stop_parent parent p token log =
      let (stopped, log1) = call e (stop parent) log in
      if not p.was_running
      then rename_parent parent p token log
      else if stopped
      then rename_parent parent p token log1
      else (some not_stopped, log1)

  abbrev pub planned :
      Text → Inspection → Text → Text → Option RecreateError → Log → Option HelperError × Log
  planned parent before target token (some err) log = (some (not_planned err), log)
  planned parent before target token none log =
      stop_parent parent (helper_plan parent before target) token log

  -- `RunSelfUpdateHelper`
  unfoldable pub run_self_update_helper : Text → Text → Text → Log → Option HelperError × Log
  run_self_update_helper parent target token log =
      let (ok_, log1) = call e (inspect parent) log in
      let before = e.inspection log parent in
      if ok_
      then planned parent before target token (plan_error e before) log1
      else (some not_inspected, log1)
