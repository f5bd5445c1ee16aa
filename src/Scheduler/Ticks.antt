-- ===== src/Scheduler/Ticks.antt =====
-- The ticks of `Run` of internal/scheduler/scheduler.go, one after another: a tick is skipped while another
-- one runs, so that no two run at once.
use doupro.Base.{List, [], ◌∷◌}
use doupro.Updater.Update.{Surroundings}
use doupro.Scheduler.{Daemon, Moment, Libraries, run_relative_policies, due_tick}

-- Ticks of the due schedules only, one after another.
abbrev pub due_ticks : Surroundings → Libraries → List Moment → Daemon → Daemon
due_ticks x lib [] d = d
due_ticks x lib (m ∷ ms) d = due_ticks x lib ms (due_tick x lib m d)

-- The two ticks of `Run`. What `Check` does to the tables is any function.
pub data Tick : Type 0 where
  on_due : Moment → Tick
  on_check : (Daemon → Daemon) → Moment → Tick

-- `Run`, once its timer has fired
abbrev run_tick : Surroundings → Libraries → Tick → Daemon → Daemon
run_tick x lib (on_due m) d = due_tick x lib m d
run_tick x lib (on_check check m) d = run_relative_policies x lib m (check d)

-- `Run`, as far as its timers fire
abbrev pub run_ticks : Surroundings → Libraries → List Tick → Daemon → Daemon
run_ticks x lib [] d = d
run_ticks x lib (t ∷ ts) d = run_ticks x lib ts (run_tick x lib t d)

-- What the checks alone do.
abbrev pub checked : List Tick → Daemon → Daemon
checked [] d = d
checked (on_due m ∷ ts) d = checked ts d
checked (on_check check m ∷ ts) d = checked ts (check d)
