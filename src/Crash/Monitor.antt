-- ===== src/Crash/Monitor.antt =====
-- `handleEvent`, `syncState`, `recordCrash` and `reconcile` of internal/crashloop/monitor.go, over the
-- watches and the rows of the store. A rollback is started as its own task: here it is the watch's
-- name in a list. Metrics and log entries are left out, as are failures of the database.
pub mod Backfill
pub mod Reconcile
use doupro.Base.{
  Bool, true, false, not, ◌&&◌, ◌||◌, Option, none, some, List, [], ◌∷◌, ◌++◌, ℕ, zero, suc, ◌+◌,
  ◌-◌, ◌*◌, Text, codes, text_eq, if◌then◌else◌, ltb, ◌==◌,
}
use doupro.Store.Time.{Time, stored_le}
use doupro.Store.Containers.{Containers, set_container_state}
use doupro.Store.Watches.{
  RollbackWatch, Watches, is_active, Recorded, not_found, recorded, record_crash, set_restart_count,
  expire,
}

pub record ContainerEvent : Type 0 where
  pub container_id : Text
  pub name : Text
  pub action : Text
  pub exit_code : Text
  pub time : Time
  pub time_nano : ℕ

pub record Monitored : Type 0 where
  pub watches : Watches
  pub rows : Containers
  -- the containers whose rollback was started
  pub rollbacks : List Text

-- `t.UnixNano()`
abbrev pub unix_nano : Time → ℕ
unix_nano t = t.second * 1_000_000_000 + t.nano

abbrev pub started : Recorded → Monitored → Monitored
started (recorded w true true) m = record m { rollbacks = m.rollbacks ++ (w.container_name ∷ []) }
started _ m = m

-- `recordCrash`
unfoldable pub note_crash : Text → Text → ℕ → Time → Monitored → Monitored
note_crash name id nano at m =
    let (result, ws) = record_crash name id nano at m.watches in
    started result (record m { watches = ws })

abbrev pub all_zeros : Text → Bool
all_zeros [] = true
all_zeros (c ∷ s) = c == b'0' && all_zeros s

abbrev pub some_zeros : Text → Bool
some_zeros [] = false
some_zeros (c ∷ s) = c == b'0' && all_zeros s

-- Whether `strconv.Atoi` reads a zero.
abbrev pub is_zero : Text → Bool
is_zero [] = false
is_zero (c ∷ s) = if c == b'+' || c == b'-' then some_zeros s else some_zeros (c ∷ s)

-- The map `lifecycleState`.
abbrev pub lifecycle_state : Text → Option Text
lifecycle_state action =
    if text_eq action (codes "start") || text_eq action (codes "unpause")
    then some (codes "running")
    else if text_eq action (codes "pause")
    then some (codes "paused")
    else if text_eq action (codes "die")
        || text_eq action (codes "stop")
        || text_eq action (codes "kill")
        || text_eq action (codes "oom")
    then some (codes "exited")
    else none

abbrev pub set_state : Text → Option Text → Monitored → Monitored
set_state id none m = m
set_state id (some state) m =
    if text_eq id [] then m else record m { rows = set_container_state id state m.rows }

unfoldable pub sync_state : ContainerEvent → Monitored → Monitored
sync_state e m = set_state e.container_id (lifecycle_state e.action) m

unfoldable pub handle_event : ContainerEvent → Monitored → Monitored
handle_event e m =
    let synced = sync_state e m in
    let nano = if e.time_nano == 0 then unix_nano e.time else e.time_nano in
    if not (text_eq e.action (codes "die")) || text_eq e.name []
    then synced
    else if is_zero e.exit_code
    then synced
    else note_crash e.name e.container_id nano e.time synced

-- So many crashes that only the restart counter showed, one nanosecond apart.
abbrev pub note_crashes : Text → Text → ℕ → Time → ℕ → Monitored → Monitored
note_crashes name id nano at zero m = m
note_crashes name id nano at (suc k) m =
    note_crashes name id (suc nano) at k (note_crash name id nano at m)

-- The loop's body of `reconcile`, for what the inspection gives as the restart counter.
abbrev pub reconcile_watch : Time → RollbackWatch → Option ℕ → Monitored → Monitored
reconcile_watch now w none m = m
reconcile_watch now w (some count) m =
    let missed =
      note_crashes w.container_name w.container_id (unix_nano now) now
        (count - w.observed_restart_count) m in
    let noted = if ltb w.observed_restart_count count then missed else m in
    record noted { watches = set_restart_count w.container_name count noted.watches }

abbrev pub reconcile_each : Time → (Text → Option ℕ) → List RollbackWatch → Monitored → Monitored
reconcile_each now restarts [] m = m
reconcile_each now restarts (w ∷ ws) m =
    reconcile_each now restarts ws (reconcile_watch now w (restarts w.container_id) m)

-- `ORDER BY update_applied_at`
abbrev pub insert_by_time : RollbackWatch → List RollbackWatch → List RollbackWatch
insert_by_time w [] = w ∷ []
insert_by_time w (v ∷ vs) =
    let rest = insert_by_time w vs in
    if stored_le w.update_applied_at v.update_applied_at then w ∷ v ∷ vs else v ∷ rest

-- `ListActiveRollbackWatches`
unfoldable pub list_active : Watches → List RollbackWatch
list_active [] = []
list_active (w ∷ ws) =
    let rest = list_active ws in if is_active w.status then insert_by_time w rest else rest

-- `reconcile`, but for the time that it returns; `restarts` is the counter of each container that can be
-- inspected.
unfoldable pub reconcile : Time → (Text → Option ℕ) → Monitored → Monitored
reconcile now restarts m =
    let ws = expire now m.watches in
    reconcile_each now restarts (list_active ws) (record m { watches = ws })
