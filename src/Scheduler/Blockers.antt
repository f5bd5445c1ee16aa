-- ===== src/Scheduler/Blockers.antt =====
-- `SelfUpdateBlockers` of internal/scheduler/scheduler.go: what speaks against replacing the daemon before
-- the horizon. The texts of the messages are left out.
use doupro.Base.{
  Bool, true, false, not, Option, none, some, List, [], ◌∷◌, ◌++◌, ℕ, Text, codes, text_eq,
  if◌then◌else◌,
}
use doupro.Base.Int.{ℤ}
use doupro.Store.Time.{Time, before}
use doupro.Store.Schedules.{Schedule, list_schedules}
use doupro.Store.Candidates.{UpdateCandidate}
use doupro.Store.Containers.{ContainerRecord, Containers}
use doupro.Store.Watches.{RollbackWatch, Watches, Status, triggered}
use doupro.Updater.Update.{Surroundings}
use doupro.Crash.Monitor.{insert_by_time}
use doupro.Scheduler.{
  Daemon, Moment, Libraries, schedule_list, triggered_list, before_shifted, scope_of,
  resolve_targets, read_candidate, is_eligible,
}

pub data Blocker : Type 0 where
  rollback_pending : Text → Blocker
  schedule_due : ℕ → Blocker
  relative_due : ℕ → Text → Blocker

abbrev is_triggered : Status → Bool
is_triggered triggered = true
is_triggered _ = false

-- `ListTriggeredRollbackWatches`
abbrev list_triggered : Watches → List RollbackWatch
list_triggered [] = []
list_triggered (w ∷ ws) =
    let rest = list_triggered ws in if is_triggered w.status then insert_by_time w rest else rest

abbrev pending_of : List RollbackWatch → List Blocker
pending_of [] = []
pending_of (w ∷ ws) = rollback_pending w.container_name ∷ pending_of ws

-- The blockers that were found, and what the rest of the loop gives.
abbrev pub joined : Option (List Blocker) → Option (List Blocker) → Option (List Blocker)
joined none rest = none
joined (some bs) none = none
joined (some bs) (some cs) = some (bs ++ cs)

-- Whether the next run is no later than the horizon.
abbrev pub runs_by : Time → Option Time → Bool
runs_by horizon none = false
runs_by horizon (some t) = not (before horizon t)

module _ (x : Surroundings) (lib : Libraries) (m : Moment) where
  open lib use {parse_duration}
  open m use {answers}

  abbrev pub delayed_blockers :
      Time → Schedule → ContainerRecord → ℤ → Option UpdateCandidate → List Blocker
  delayed_blockers horizon sc rec delay none = []
  delayed_blockers horizon sc rec delay (some c) =
      if before_shifted horizon c.detected_at delay then [] else relative_due sc.id rec.name ∷ []

  abbrev pub parsed_blockers :
      Time → Schedule → ContainerRecord → Option ℤ → Daemon → Option (List Blocker)
  parsed_blockers horizon sc rec none d = none
  parsed_blockers horizon sc rec (some delay) d =
      some (delayed_blockers horizon sc rec delay (read_candidate x lib m rec.id (scope_of sc) d))

  -- The blockers of a relative schedule for one target; `none` is an error.
  abbrev pub target_blockers :
      Time → Time → Schedule → ContainerRecord → Daemon → Option (List Blocker)
  target_blockers now horizon sc rec d =
      if not (is_eligible x lib m d rec)
      then some []
      else if text_eq sc.relative_policy (codes "delayed")
      then parsed_blockers horizon sc rec (parse_duration sc.relative_after) d
      else some (if before horizon now then [] else relative_due sc.id rec.name ∷ [])

  abbrev pub targets_blockers : Time → Time → Schedule → Containers → Daemon → Option (List Blocker)
  targets_blockers now horizon sc [] d = some []
  targets_blockers now horizon sc (rec ∷ rs) d =
      joined (target_blockers now horizon sc rec d) (targets_blockers now horizon sc rs d)

  abbrev pub resolved_blockers :
      Time → Time → Schedule → Option Containers → Daemon → Option (List Blocker)
  resolved_blockers now horizon sc none d = none
  resolved_blockers now horizon sc (some rs) d = targets_blockers now horizon sc rs d

  -- The blockers of one schedule.
  unfoldable pub schedule_blockers : Time → Time → Schedule → Daemon → Option (List Blocker)
  schedule_blockers now horizon sc d =
      if not sc.enabled
      then some []
      else if runs_by horizon sc.next_run_at
      then some (schedule_due sc.id ∷ [])
      else if not (text_eq sc.kind (codes "relative"))
      then some []
      else resolved_blockers now horizon sc (resolve_targets x lib m sc d) d

  abbrev pub schedules_blockers : Time → Time → List Schedule → Daemon → Option (List Blocker)
  schedules_blockers now horizon [] d = some []
  schedules_blockers now horizon (sc ∷ scs) d =
      joined (schedule_blockers now horizon sc d) (schedules_blockers now horizon scs d)

  abbrev watch_blockers : Time → List Blocker → Daemon → Option (List Blocker)
  watch_blockers horizon (b ∷ bs) d = some (b ∷ bs)
  watch_blockers horizon [] d =
      if answers d schedule_list
      then schedules_blockers (m.clock d) horizon (list_schedules d.schedules) d
      else none

  -- `SelfUpdateBlockers`, where `none` is an error
  unfoldable pub self_update_blockers : Time → Daemon → Option (List Blocker)
  self_update_blockers horizon d =
      if answers d triggered_list
      then watch_blockers horizon (pending_of (list_triggered d.world.watches)) d
      else none
