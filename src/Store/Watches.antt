-- ===== src/Store/Watches.antt =====
-- The rollback watches of internal/store/crashloop.go. A transaction is one step, and a failure of
-- the database is left out. Counters are natural numbers.
pub mod Counting
pub mod Trigger
pub mod Once
use doupro.Base.{
  Bool, true, false, ◌≡◌, Option, none, some, List, [], ◌∷◌, ℕ, suc, ◌+◌, Text, codes, text_eq,
  if◌then◌else◌, ◌||◌, ◌&&◌, not, ltb, leb,
}
use doupro.Store.Time.{Time, before, add_seconds, stored_le}

-- `completed` holds every text that `CompleteRollbackWatch` is given; no caller gives it that of one of the
-- other three.
pub data Status : Type 0 where
  active triggered expired : Status
  completed : Text → Status

pub record RollbackWatch : Type 0 where
  pub container_name : Text
  pub container_id : Text
  pub update_applied_at : Time
  pub window_expires_at : Time
  pub crash_count : ℕ
  pub threshold : ℕ
  pub observed_restart_count : ℕ
  pub last_event_nano : ℕ
  pub last_crash_at : Option Time
  pub triggered_at : Option Time
  pub status : Status

-- The table, whose key is the container's name.
abbrev pub Watches : Type 0
Watches = List RollbackWatch

-- `GetRollbackWatch`
abbrev pub find : Text → Watches → Option RollbackWatch
find name [] = none
find name (w ∷ ws) =
    let rest = find name ws in if text_eq w.container_name name then some w else rest

-- `UPDATE … WHERE container_name = ?`
abbrev pub change : Text → (RollbackWatch → RollbackWatch) → Watches → Watches
change name f [] = []
change name f (w ∷ ws) = (if text_eq w.container_name name then f w else w) ∷ change name f ws

abbrev pub is_active : Status → Bool
is_active active = true
is_active _ = false

-- The row that `ArmRollbackWatch` writes.
abbrev pub armed : Text → Text → Time → ℕ → ℕ → ℕ → RollbackWatch
armed name id applied window threshold restarts = record {
  container_name = name;
  container_id = id;
  update_applied_at = applied;
  window_expires_at = add_seconds window applied;
  crash_count = 0;
  threshold = threshold;
  observed_restart_count = restarts;
  last_event_nano = 0;
  last_crash_at = none;
  triggered_at = none;
  status = active;
}

abbrev pub upsert : Option RollbackWatch → RollbackWatch → Watches → Watches
upsert none w ws = w ∷ ws
upsert (some _) w ws = change w.container_name (λ _. w) ws

-- `ArmRollbackWatch`: the new row replaces the one of that name, or is added.
unfoldable pub arm : Text → Text → Time → ℕ → ℕ → ℕ → Watches → Watches
arm name id applied window threshold restarts ws =
    upsert (find name ws) (armed name id applied window threshold restarts) ws

-- Whether the crash is to be counted.
abbrev pub counts : Text → ℕ → Time → RollbackWatch → Bool
counts id nano at w =
    is_active w.status
    && text_eq w.container_id id
    && before at w.window_expires_at
    && ltb w.last_event_nano nano

-- The counted crash.
abbrev pub bump : ℕ → Time → RollbackWatch → RollbackWatch
bump nano at w =
    let hit = leb w.threshold (w.crash_count + 1) in
    record w {
      crash_count = w.crash_count + 1;
      observed_restart_count = w.observed_restart_count + 1;
      last_event_nano = nano;
      last_crash_at = some at;
      triggered_at = if hit then some at else none;
      status = if hit then triggered else active;
    }

-- The results of `RecordCrash`; `not_found` is `ErrNotFound`.
pub data Recorded : Type 0 where
  not_found : Recorded
  recorded : RollbackWatch → Bool → Bool → Recorded

abbrev pub record_on : Text → Text → ℕ → Time → Option RollbackWatch → Watches → Recorded × Watches
record_on name id nano at none ws = (not_found, ws)
record_on name id nano at (some w) ws =
    if counts id nano at w
    then (
      recorded (bump nano at w) true (leb w.threshold (w.crash_count + 1)),
      change name (bump nano at) ws,
    )
    else (recorded w false false, ws)

unfoldable pub record_crash : Text → Text → ℕ → Time → Watches → Recorded × Watches
record_crash name id nano at ws = record_on name id nano at (find name ws) ws

unfoldable pub set_restart_count : Text → ℕ → Watches → Watches
set_restart_count name n ws = change name (λ w. record w { observed_restart_count = n }) ws

unfoldable pub complete : Text → Text → Watches → Watches
complete name status ws = change name (λ w. record w { status = completed status }) ws

abbrev pub expire_one : Time → RollbackWatch → RollbackWatch
expire_one now w =
    if is_active w.status && stored_le w.window_expires_at now
    then record w { status = expired }
    else w

unfoldable pub expire : Time → Watches → Watches
expire now [] = []
expire now (w ∷ ws) = expire_one now w ∷ expire now ws

pub data Call : Type 0 where
  call_arm : Text → Text → Time → ℕ → ℕ → ℕ → Call
  call_crash : Text → Text → ℕ → Time → Call
  call_restarts : Text → ℕ → Call
  call_complete : Text → Text → Call
  call_expire : Time → Call

abbrev pub step : Call → Watches → Watches
step (call_arm name id applied window threshold restarts) ws =
    arm name id applied window threshold restarts ws
step (call_crash name id nano at) ws = (record_crash name id nano at ws).1
step (call_restarts name n) ws = set_restart_count name n ws
step (call_complete name status) ws = complete name status ws
step (call_expire now) ws = expire now ws

abbrev pub run : List Call → Watches → Watches
run [] ws = ws
run (c ∷ cs) ws = run cs (step c ws)
