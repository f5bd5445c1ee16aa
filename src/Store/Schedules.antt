-- ===== src/Store/Schedules.antt =====
-- The table `schedules` of internal/store/schedules.go. Its rows stand in the order of their IDs, and the
-- ID of a new row is one above the highest that was ever given. A failure of the database is left out.
use doupro.Base.{
  Bool, true, false, ◌&&◌, not, Option, none, some, List, [], ◌∷◌, ◌++◌, ℕ, ◌+◌, Text, codes,
  text_eq, ◌==◌, if◌then◌else◌, keep,
}
use doupro.Store.Time.{Time, stored_le}

pub record Schedule : Type 0 where
  pub id : ℕ
  pub kind : Text
  pub container_name : Text
  pub stack : Text
  pub run_at : Option Time
  pub cron_expr : Text
  pub relative_policy : Text
  pub relative_after : Text
  pub semver_policy : Text
  pub pinned_image : Text
  pub notify : Bool
  pub enabled : Bool
  pub last_run_at : Option Time
  pub next_run_at : Option Time
  pub created_at : Time

pub record Schedules : Type 0 where
  pub rows : List Schedule
  pub last_id : ℕ

abbrev pub is_some : {A : Type 0} → Option A → Bool
is_some none = false
is_some (some a) = true

-- `Completed`
abbrev pub completed : Schedule → Bool
completed sc = text_eq sc.kind (codes "once") && is_some sc.last_run_at

-- `CreateSchedule`: the ID and the new table; `last_run_at` is not among the columns that are given.
unfoldable create_schedule : Time → Schedule → Schedules → ℕ × Schedules
create_schedule now sc t =
    let id = t.last_id + 1 in
    (
      id,
      record {
        rows = t.rows ++ (record sc { id = id; last_run_at = none; created_at = now } ∷ []);
        last_id = id;
      },
    )

abbrev pub reversed : List Schedule → List Schedule → List Schedule
reversed [] out = out
reversed (r ∷ rs) out = reversed rs (r ∷ out)

-- `ListSchedules`: the latest first
unfoldable pub list_schedules : Schedules → List Schedule
list_schedules t = reversed t.rows []

abbrev find_schedule : ℕ → List Schedule → Option Schedule
find_schedule id [] = none
find_schedule id (r ∷ rs) = let rest = find_schedule id rs in if r.id == id then some r else rest

-- `GetSchedule`, where `none` is `ErrNotFound`
unfoldable get_schedule : ℕ → Schedules → Option Schedule
get_schedule id t = find_schedule id t.rows

abbrev pub is_due_at : Time → Option Time → Bool
is_due_at now none = false
is_due_at now (some t) = stored_le t now

abbrev pub is_due : Time → Schedule → Bool
is_due now sc = sc.enabled && is_due_at now sc.next_run_at

-- `DueSchedules`
unfoldable pub due_schedules : Time → Schedules → List Schedule
due_schedules now t = keep (is_due now) t.rows

-- `UPDATE schedules SET … WHERE id = ?`
abbrev pub change_rows : ℕ → (Schedule → Schedule) → List Schedule → List Schedule
change_rows id f [] = []
change_rows id f (r ∷ rs) = (if r.id == id then f r else r) ∷ change_rows id f rs

-- `MarkScheduleRun`: without a next run the schedule is disabled.
unfoldable pub mark_schedule_run : Time → ℕ → Option Time → Schedules → Schedules
mark_schedule_run now id next t = record t {
  rows =
      change_rows id
        (λ r. record r { last_run_at = some now; next_run_at = next; enabled = is_some next })
        t.rows;
}

-- `TouchScheduleLastRun`
unfoldable pub touch_schedule_last_run : Time → ℕ → Schedules → Schedules
touch_schedule_last_run now id t = record t {
  rows = change_rows id (λ r. record r { last_run_at = some now }) t.rows;
}

-- `SetScheduleEnabled`, with whether the schedule was found
unfoldable set_schedule_enabled : ℕ → Bool → Schedules → Bool × Schedules
set_schedule_enabled id b t = (
  is_some (find_schedule id t.rows),
  record t { rows = change_rows id (λ r. record r { enabled = b }) t.rows },
)

-- `DeleteSchedule`, with whether the schedule was found
unfoldable delete_schedule : ℕ → Schedules → Bool × Schedules
delete_schedule id t =
    (is_some (find_schedule id t.rows), record t { rows = keep (λ r. not (r.id == id)) t.rows })
