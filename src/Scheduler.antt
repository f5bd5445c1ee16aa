-- ===== src/Scheduler.antt =====
-- internal/scheduler/scheduler.go: the due and the relative schedules of a tick, over the tables and the
-- updater. A tick is one run of these functions: `runTick` lets no two of them overlap. Log entries,
-- metrics and notifications are left out, as is the cancellation of a tick after twenty minutes.
pub mod Check
pub mod Blockers
pub mod Ticks
pub mod Targets
pub mod Horizon
pub mod Sparing
pub mod Spared
pub mod Once
mod Tests
use doupro.Base.{
  Bool, true, false, not, ◌&&◌, ◌||◌, Option, none, some, List, [], ◌∷◌, ℕ, zero, suc, ◌+◌, ◌*◌,
  Text, codes, text_eq, if◌then◌else◌, ltb, keep,
}
use doupro.Base.Int.{ℤ, pos, pos_part, neg_part}
use doupro.Store.Time.{Time, before, add_seconds, text_leb}
use doupro.Store.Schedules.{
  Schedule, Schedules, list_schedules, due_schedules, mark_schedule_run, touch_schedule_last_run,
}
use doupro.Store.Candidates.{
  UpdateCandidate, Candidates, get_update_candidate, clear_update_candidates,
}
use doupro.Store.Containers.{ContainerRecord, Containers}
use doupro.Updater.Guard.{OperationGuard}
use doupro.Updater.Update.{World, Surroundings, UpdateError, update}
use doupro.Crash.Monitor.{unix_nano}
use doupro.Crash.Task.{get_by_name, is_maintenance_error}

-- A call of `Update` for a schedule, and its result.
pub record Fired : Type 0 where
  pub schedule : ℕ
  pub container_id : Text
  pub image : Text
  pub error : Option UpdateError

-- The tables and the updater's state, and the calls of `Update`, the last one first.
pub record Daemon : Type 0 where
  pub schedules : Schedules
  pub candidates : Candidates
  pub guard : OperationGuard
  pub world : World
  pub fired : List Fired

-- The calls of the store.
pub data Query : Type 0 where
  due_list schedule_list container_list triggered_list : Query
  container_by_name : Text → Query
  candidate_of : Text → Text → Query
  mark_run touch_run : ℕ → Query
  clear_candidates : Text → Query

-- What a tick reads besides: the clock, whether a call of the store succeeds, and the settings.
pub record Moment : Type 0 where
  pub clock : Daemon → Time
  pub answers : Daemon → Query → Bool
  -- `GetCheckIntervalMinutes`, where it is set and can be read
  pub check_minutes : Daemon → Option ℕ
  -- `checkInterval`, in seconds
  pub check_interval : ℕ

-- `time.ParseDuration`, in nanoseconds; the cron library, from an instant on; and the two columns of
-- a container's row that the updater does not read.
pub record Libraries : Type 0 where
  pub parse_duration : Text → Option ℤ
  pub next_cron_run : Time → Text → Option Time
  pub stack_of : World → ContainerRecord → Text
  pub excluded : World → ContainerRecord → Bool

-- `t.Before(u.Add(d))`
abbrev pub before_shifted : Time → Time → ℤ → Bool
before_shifted t u d = ltb (unix_nano t + neg_part d) (unix_nano u + pos_part d)

abbrev pub is_positive : ℤ → Bool
is_positive d = ltb 0 (pos_part d)

-- `relativeRetryReady`
abbrev pub relative_retry_ready : Option Time → ℕ → Time → Bool
relative_retry_ready none interval now = true
relative_retry_ready (some t) interval now = not (before now (add_seconds interval t))

abbrev pub scope_of : Schedule → Text
scope_of sc = if text_eq sc.semver_policy [] then codes "major" else sc.semver_policy

abbrev interval_of : ℕ → Option ℕ → ℕ
interval_of seconds none = seconds
interval_of seconds (some minutes) = minutes * 60

-- `currentCheckInterval`
abbrev pub current_check_interval : Moment → Daemon → ℕ
current_check_interval m d = interval_of m.check_interval (m.check_minutes d)

-- `IsMaintenanceError`
abbrev pub waits : Option UpdateError → Bool
waits none = false
waits (some e) = is_maintenance_error e

abbrev listed : Option ContainerRecord → Option Containers
listed none = none
listed (some r) = some (r ∷ [])

-- `MarkScheduleRun`, which may fail
abbrev pub mark : Moment → ℕ → Option Time → Daemon → Daemon
mark m id next d =
    if m.answers d (mark_run id)
    then record d { schedules = mark_schedule_run (m.clock d) id next d.schedules }
    else d

-- `TouchScheduleLastRun`
abbrev pub touch : Moment → ℕ → Daemon → Daemon
touch m id d =
    if m.answers d (touch_run id)
    then record d { schedules = touch_schedule_last_run (m.clock d) id d.schedules }
    else d

-- `ClearUpdateCandidates`, once the update has succeeded
abbrev pub cleared : Moment → Text → Option UpdateError → Daemon → Daemon
cleared m id (some e) d = d
cleared m id none d =
    if m.answers d (clear_candidates id)
    then record d { candidates = clear_update_candidates id d.candidates }
    else d

-- What became of a target.
pub data Attempt : Type 0 where
  skipped attempted postponed : Attempt

-- The target, and what the rest of the loop in `applyToTargets` gives.
abbrev pub counted : Attempt → Daemon → ℕ × Bool × Daemon → ℕ × Bool × Daemon
counted skipped d rest = rest
counted attempted d (n, paused, d') = (suc n, paused, d')
counted postponed d rest = (0, true, d)

module _ (x : Surroundings) (lib : Libraries) (m : Moment) where
  open lib use {parse_duration, next_cron_run, stack_of, excluded}
  open m use {clock, answers}

  -- `Update` of the updater
  abbrev pub fire : ℕ → Text → Text → Daemon → Option UpdateError × Daemon
  fire schedule id image d =
      let (err, g, w) = update x id image d.guard d.world in
      (
        err,
        record d {
          guard = g;
          world = w;
          fired =
              record { schedule = schedule; container_id = id; image = image; error = err }
              ∷ d.fired;
        },
      )

  -- `ORDER BY stack, name`
  abbrev row_before : World → ContainerRecord → ContainerRecord → Bool
  row_before w r s =
      if text_eq (stack_of w r) (stack_of w s)
      then text_leb r.name s.name
      else text_leb (stack_of w r) (stack_of w s)

  abbrev insert_row : World → ContainerRecord → Containers → Containers
  insert_row w r [] = r ∷ []
  insert_row w r (s ∷ ss) =
      let rest = insert_row w r ss in if row_before w r s then r ∷ s ∷ ss else s ∷ rest

  -- `ListContainers`
  abbrev list_containers : World → Containers → Containers
  list_containers w [] = []
  list_containers w (r ∷ rs) = insert_row w r (list_containers w rs)

  -- `resolveTargets`
  unfoldable pub resolve_targets : Schedule → Daemon → Option Containers
  resolve_targets sc d =
      let rows = d.world.rows in
      if not (text_eq sc.container_name [])
      then (if answers d (container_by_name sc.container_name)
          then listed (get_by_name sc.container_name rows)
          else none)
      else if answers d container_list
      then some (keep (λ r. text_eq (stack_of d.world r) sc.stack) (list_containers d.world rows))
      else none

  -- `GetUpdateCandidate`
  abbrev pub read_candidate : Text → Text → Daemon → Option UpdateCandidate
  read_candidate id scope d =
      if answers d (candidate_of id scope) then get_update_candidate id scope d.candidates else none

  abbrev pub is_eligible : Daemon → ContainerRecord → Bool
  is_eligible d rec = rec.update_available && not (excluded d.world rec)

  -- The loop's body of `applyToTargets`, once it has the candidate
  abbrev pub apply_candidate :
      Schedule → ℤ → ContainerRecord → Option UpdateCandidate → Daemon → Attempt × Daemon
  apply_candidate sc delay rec none d = (skipped, d)
  apply_candidate sc delay rec (some c) d =
      let (err, d1) = fire sc.id rec.id c.image d in
      if is_positive delay && before_shifted (clock d) c.detected_at delay
      then (skipped, d)
      else if waits err
      then (postponed, d1)
      else (attempted, cleared m rec.id err d1)

  -- The loop's body of `applyToTargets`
  unfoldable pub apply_target : Schedule → ℤ → ContainerRecord → Daemon → Attempt × Daemon
  apply_target sc delay rec d =
      if is_eligible d rec
      then apply_candidate sc delay rec (read_candidate rec.id (scope_of sc) d) d
      else (skipped, d)

  abbrev pub apply_all : Schedule → ℤ → Containers → Daemon → ℕ × Bool × Daemon
  apply_all sc delay [] d = (0, false, d)
  apply_all sc delay (rec ∷ rs) d =
      let (a, d1) = apply_target sc delay rec d in counted a d1 (apply_all sc delay rs d1)

  abbrev pub apply_found : Schedule → ℤ → Option Containers → Daemon → ℕ × Bool × Daemon
  apply_found sc delay none d = (0, false, d)
  apply_found sc delay (some rs) d = apply_all sc delay rs d

  -- `applyToTargets`: how many updates were attempted, and whether the updater is under maintenance
  unfoldable pub apply_to_targets : Schedule → ℤ → Daemon → ℕ × Bool × Daemon
  apply_to_targets sc delay d = apply_found sc delay (resolve_targets sc d) d

  abbrev pub once_found : Schedule → Option ContainerRecord → Daemon → Daemon
  once_found sc none d = mark m sc.id none d
  once_found sc (some rec) d =
      let target = if text_eq sc.pinned_image [] then rec.current_image else sc.pinned_image in
      let (err, d1) = fire sc.id rec.id target d in if waits err then d1 else mark m sc.id none d1

  -- `executeOnce`
  unfoldable pub execute_once : Schedule → Daemon → Daemon
  execute_once sc d =
      once_found sc
        (if answers d (container_by_name sc.container_name)
          then get_by_name sc.container_name d.world.rows
          else none)
        d

  -- `executeCron`
  unfoldable pub execute_cron : Schedule → Daemon → Daemon
  execute_cron sc d =
      let (n, paused, d1) = apply_to_targets sc (pos 0) d in
      if paused then d1 else mark m sc.id (next_cron_run (clock d1) sc.cron_expr) d1

  abbrev pub execute : Schedule → Daemon → Daemon
  execute sc d =
      if text_eq sc.kind (codes "once")
      then execute_once sc d
      else if text_eq sc.kind (codes "cron")
      then execute_cron sc d
      else d

  abbrev pub execute_all : List Schedule → Daemon → Daemon
  execute_all [] d = d
  execute_all (sc ∷ scs) d = execute_all scs (execute sc d)

  -- `runDueSchedules`
  unfoldable pub run_due_schedules : Daemon → Daemon
  run_due_schedules d =
      if d.guard.maintenance || not (answers d due_list)
      then d
      else execute_all (due_schedules (clock d) d.schedules) d

  abbrev pub delay_of : Schedule → Option ℤ
  delay_of sc =
      if text_eq sc.relative_policy (codes "delayed")
      then parse_duration sc.relative_after
      else some (pos 0)

  abbrev pub relative_end : Schedule → ℕ × Bool × Daemon → Bool × Daemon
  relative_end sc (n, paused, d) =
      if paused then (true, d) else if ltb 0 n then (false, touch m sc.id d) else (false, d)

  abbrev pub relative_applied : Schedule → Option ℤ → Daemon → Bool × Daemon
  relative_applied sc none d = (false, d)
  relative_applied sc (some delay) d = relative_end sc (apply_to_targets sc delay d)

  -- The loop's body of `runRelativePolicies`, and whether the loop ends there
  unfoldable pub run_relative : Schedule → Daemon → Bool × Daemon
  run_relative sc d =
      if not sc.enabled || not (text_eq sc.kind (codes "relative"))
      then (false, d)
      else if not (relative_retry_ready sc.last_run_at (current_check_interval m d) (clock d))
      then (false, d)
      else relative_applied sc (delay_of sc) d

  abbrev pub run_relatives : List Schedule → Daemon → Daemon
  run_relatives [] d = d
  run_relatives (sc ∷ scs) d =
      let (paused, d1) = run_relative sc d in
      let rest = run_relatives scs d1 in if paused then d1 else rest

  -- `runRelativePolicies`
  unfoldable pub run_relative_policies : Daemon → Daemon
  run_relative_policies d =
      if d.guard.maintenance || not (answers d schedule_list)
      then d
      else run_relatives (list_schedules d.schedules) d

  -- The tick of the due schedules in `Run`
  abbrev pub due_tick : Daemon → Daemon
  due_tick d = run_relative_policies (run_due_schedules d)
