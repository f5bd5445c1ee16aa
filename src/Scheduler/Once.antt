-- ===== src/Scheduler/Once.antt =====
-- How often a one-off schedule is executed.
use doupro.Base.{
  Bool, true, false, not, ◌≡◌, ◌≢◌, refl, sym, ap, subst, inl, inr, ◌≤◌, ◌+◌, suc, ◌||◌, ◌==◌,
  ==_iff, Option, none, some, List, [], ◌∷◌, ℕ, codes, text_eq, text_eq_iff, if◌then◌else◌, keep,
  arith, All, Bool-cases, if_both,
}
use doupro.Store.Time.{Time}
use doupro.Store.Schedules.{
  Schedule, Schedules, reversed, list_schedules, is_due, due_schedules, change_rows,
  mark_schedule_run,
}
use doupro.Store.Containers.{ContainerRecord}
use doupro.Updater.Update.{Surroundings}
use doupro.Crash.Task.{get_by_name}
use doupro.Scheduler.{
  due_list, schedule_list, once_found, container_by_name, Daemon, Moment, Libraries, mark_run,
  waits, mark, fire, execute_once, execute, execute_all, run_due_schedules, run_relative_policies,
  due_tick,
}
use doupro.Scheduler.Ticks.{due_ticks}
use doupro.Scheduler.Sparing.{times, enabled_rows, IsOnce, Spares, Spares-refl, change-IsOnce}
use doupro.Scheduler.Spared.{execute-Spares, relatives-Spares}

-- The schedules of this ID.
abbrev rows_of : ℕ → List Schedule → ℕ
rows_of i [] = 0
rows_of i (r ∷ rs) = if r.id == i then suc (rows_of i rs) else rows_of i rs

rows_of-due :
    (i : ℕ) (now : Time) (rs : List Schedule) → rows_of i (keep (is_due now) rs) ≤ enabled_rows i rs
rows_of-due i now [] = omega arith
rows_of-due i now (r ∷ rs) = ground (arith, rows_of-due i now rs)

keep-All :
    (i : ℕ) (p : Schedule → Bool) (rs : List Schedule)
    → All (IsOnce i) rs
    → All (IsOnce i) (keep p rs)
keep-All i p [] h = tt
keep-All i p (r ∷ rs) (q, h) =
    if_both (All (IsOnce i)) (p r) (λ _. (q, keep-All i p rs h)) (λ _. keep-All i p rs h)

reversed-All :
    (i : ℕ) (rs out : List Schedule)
    → All (IsOnce i) rs
    → All (IsOnce i) out
    → All (IsOnce i) (reversed rs out)
reversed-All i [] out h k = k
reversed-All i (r ∷ rs) out (p, h) k = reversed-All i rs (r ∷ out) h (p, k)

-- A change after which the schedule has been executed no oftener than it was enabled for.
abbrev IsBound : ℕ → Daemon → Daemon → Type 0
IsBound i d d' =
    (times i d'.fired + enabled_rows i d'.schedules.rows
      ≤ times i d.fired + enabled_rows i d.schedules.rows)
    × (enabled_rows i d'.schedules.rows ≤ enabled_rows i d.schedules.rows)
    × (All (IsOnce i) d.schedules.rows → All (IsOnce i) d'.schedules.rows)

Spares-IsBound : (i : ℕ) (d d' : Daemon) → Spares i d d' → IsBound i d d'
Spares-IsBound i d d' (t, l, k) = (ground arith, ground arith, k)

IsBound-trans : (i : ℕ) (d e f : Daemon) → IsBound i d e → IsBound i e f → IsBound i d f
IsBound-trans i d e f (t, l, k) (t', l', k') = (omega arith, omega arith, λ h. k' (k h))

disabled_rows :
    (i : ℕ) (f : Schedule → Schedule) (rs : List Schedule)
    → ((r : Schedule) → (f r).enabled ≡ false)
    → enabled_rows i (change_rows i f rs) ≡ 0
disabled_rows i f [] off = refl
disabled_rows i f (r ∷ rs) off = ground (arith, disabled_rows i f rs off, off r)

module _ (x : Surroundings) (lib : Libraries) (m : Moment) (i : ℕ)
    (marks : (d : Daemon) → m.answers d (mark_run i) ≡ true) where
  mark-disables : (d : Daemon) → enabled_rows i (mark m i none d).schedules.rows ≡ 0
  unfolding mark_schedule_run
  mark-disables d = rw (marks d) (
      disabled_rows i
        (λ r. record r { last_run_at = some (m.clock d); next_run_at = none; enabled = false })
        d.schedules.rows (λ r. refl))

  mark-IsOnce :
      (d : Daemon)
      → All (IsOnce i) d.schedules.rows
      → All (IsOnce i) (mark m i none d).schedules.rows
  unfolding mark_schedule_run
  mark-IsOnce d h = rw (marks d) (
      change-IsOnce i i
        (λ r. record r { last_run_at = some (m.clock d); next_run_at = none; enabled = false })
        d.schedules.rows (λ r. (refl, refl)) h)

  mark-fired : (d : Daemon) → (mark m i none d).fired ≡ d.fired
  mark-fired d = rw (marks d) refl

  -- Once the schedule is executed, the mark disables it.
  marked-IsBound :
      (d d1 : Daemon)
      → enabled_rows i d.schedules.rows ≢ 0
      → d1.schedules ≡ d.schedules
      → times i d1.fired ≤ suc (times i d.fired)
      → IsBound i d (mark m i none d1)
  marked-IsBound d d1 on same t =
      let off = mark-disables d1 in
      let fired = ap (times i) (mark-fired d1) in
      (
        omega arith,
        omega arith,
        λ h. mark-IsOnce d1 (subst (λ (s : Schedules). All (IsOnce i) s.rows) (sym same) h),
      )

  once-IsBound :
      (sc : Schedule) (o : Option ContainerRecord) (d : Daemon)
      → sc.id ≡ i
      → enabled_rows i d.schedules.rows ≢ 0
      → IsBound i d (once_found x lib m sc o d)
  once-IsBound sc none d e on =
      subst (λ j. IsBound i d (mark m j none d)) (sym e) (marked-IsBound d d on refl (omega arith))
  once-IsBound sc (some rec) d e on =
      let target = if text_eq sc.pinned_image [] then rec.current_image else sc.pinned_image in
      let (err, d1) = fire x lib m sc.id rec.id target d in
      if_both (IsBound i d) (waits err) (λ w. (ground arith, ground arith, λ h. h))
        (λ w.
          subst (λ j. IsBound i d (mark m j none d1)) (sym e)
            (marked-IsBound d d1 on refl (ground arith)))

  execute-IsBound :
      (sc : Schedule) (d : Daemon)
      → sc.id ≡ i
      → IsOnce i sc
      → enabled_rows i d.schedules.rows ≢ 0
      → IsBound i d (execute x lib m sc d)
  unfolding execute_once
  execute-IsBound sc d e once on = rw ((text_eq_iff sc.kind (codes "once")).1 (once e)) (
      once-IsBound sc
        (if m.answers d (container_by_name sc.container_name)
          then get_by_name sc.container_name d.world.rows
          else none)
        d e on)

  execute_all-IsBound :
      (scs : List Schedule) (d : Daemon)
      → All (IsOnce i) scs
      → rows_of i scs ≤ enabled_rows i d.schedules.rows
      → enabled_rows i d.schedules.rows ≤ 1
      → IsBound i d (execute_all x lib m scs d)
  execute_all-IsBound [] d h le one = Spares-IsBound i d d (Spares-refl i d)
  execute_all-IsBound (sc ∷ scs) d (p, h) le one =
      let d1 = execute x lib m sc d in
      elim (Bool-cases (sc.id == i)) [
        | inl e ↦
            let first = execute-IsBound sc d ((==_iff sc.id i).0 e) p (λ z. ground arith) in
            IsBound-trans i d d1 (execute_all x lib m scs d1) first
              (execute_all-IsBound scs d1 h (ground arith) (omega (arith, first.1)))
        | inr ne ↦
            let spared = execute-Spares x lib m i sc d (λ e. ground (arith, ==_iff sc.id i)) in
            IsBound-trans i d d1 (execute_all x lib m scs d1) (Spares-IsBound i d d1 spared)
              (execute_all-IsBound scs d1 h (ground (arith, spared.1)) (ground (arith, spared.1)))
      ]

  due-IsBound :
      (d : Daemon)
      → All (IsOnce i) d.schedules.rows
      → enabled_rows i d.schedules.rows ≤ 1
      → IsBound i d (run_due_schedules x lib m d)
  unfolding run_due_schedules due_schedules
  due-IsBound d h one =
      let now = m.clock d in
      if_both (IsBound i d) (d.guard.maintenance || not (m.answers d due_list))
        (λ _. Spares-IsBound i d d (Spares-refl i d))
        (λ _.
          execute_all-IsBound (keep (is_due now) d.schedules.rows) d
            (keep-All i (is_due now) d.schedules.rows h) (rows_of-due i now d.schedules.rows) one)

  policies-IsBound :
      (d : Daemon) → All (IsOnce i) d.schedules.rows → IsBound i d (run_relative_policies x lib m d)
  unfolding run_relative_policies list_schedules
  policies-IsBound d h = Spares-IsBound i d (run_relative_policies x lib m d) (
      if_both (Spares i d) (d.guard.maintenance || not (m.answers d schedule_list))
        (λ _. Spares-refl i d)
        (λ _.
          relatives-Spares x lib m i (reversed d.schedules.rows []) d
            (reversed-All i d.schedules.rows [] h tt)))

  tick-IsBound :
      (d : Daemon)
      → All (IsOnce i) d.schedules.rows
      → enabled_rows i d.schedules.rows ≤ 1
      → IsBound i d (due_tick x lib m d)
  tick-IsBound d h one =
      let d1 = run_due_schedules x lib m d in
      let first = due-IsBound d h one in
      IsBound-trans i d d1 (due_tick x lib m d) first (policies-IsBound d1 (first.2 h))

module _ (x : Surroundings) (lib : Libraries) (i : ℕ) where
  -- Over any ticks, a one-off schedule is executed at most once if it is enabled, and never if it is
  -- not, provided that the store takes the mark of its run; a call that maintenance refused does not
  -- count. No other row has its ID.
  pub due_ticks-times :
      (ms : List Moment) (d : Daemon)
      → All (IsOnce i) d.schedules.rows
      → enabled_rows i d.schedules.rows ≤ 1
      → All (λ (m : Moment). (e : Daemon) → m.answers e (mark_run i) ≡ true) ms
      → times i (due_ticks x lib ms d).fired ≤ times i d.fired + enabled_rows i d.schedules.rows
  due_ticks-times [] d h one marks = omega arith
  due_ticks-times (m ∷ ms) d h one (mark_, marks) =
      let d1 = due_tick x lib m d in
      let first = tick-IsBound x lib m i mark_ d h one in
      omega (arith, first.0, due_ticks-times ms d1 (first.2 h) (omega (arith, first.1)) marks)
