-- ===== src/Crash/Monitor/Reconcile.antt =====
-- What a reconciliation and an event do to a watch.
use doupro.Base.{
  subst, true, ◌≡◌, refl, sym, ap, ◌∙◌, Option, none, some, ℕ, ◌+◌, ◌-◌, Text, text_eq_refl, ltb,
  arith, Bool-cases, inl, inr,
}
use doupro.Store.Time.{Time}
use doupro.Store.Watches.{RollbackWatch, Watches, find, set_restart_count}
use doupro.Store.Watches.Counting.{find-change}
use doupro.Crash.Monitor.{
  ContainerEvent, Monitored, unix_nano, note_crashes, reconcile_watch, handle_event, sync_state,
  is_zero, set_state, lifecycle_state,
}
use doupro.Crash.Monitor.Backfill.{IsOpen, AfterCrashes, note_crashes-AfterCrashes}

find-set_restart_count :
    (name : Text) (n : ℕ) (ws : Watches) (v : RollbackWatch)
    → find name ws ≡ some v
    → find name (set_restart_count name n ws) ≡ some (record v { observed_restart_count = n })
unfolding set_restart_count
find-set_restart_count name n ws v h = ground (
  arith,
  find-change name name (λ u. record u { observed_restart_count = n }) ws (λ u. refl),
  text_eq_refl name,
)

reconcile_watch_notes :
    (now : Time) (w : RollbackWatch) (count : ℕ) (m : Monitored)
    → reconcile_watch now w (some count) m ≡ (
        let noted =
          note_crashes w.container_name w.container_id
            (unix_nano now)
            now
            (count - w.observed_restart_count)
            m in
        record noted { watches = set_restart_count w.container_name count noted.watches })
reconcile_watch_notes now w count m = elim (Bool-cases (ltb w.observed_restart_count count)) [
  | inl more ↦ rw more refl
  | inr same ↦
      let none_missed : count - w.observed_restart_count ≡ 0 = ground arith in
      rw (same, none_missed) refl
]

-- The reconciliation of a watch, which is active, with its window open and below its threshold, counts
-- every restart beyond those that were observed as a crash: up to the threshold, where it triggers the
-- watch and starts exactly one rollback, and with none before. A counter that is not above the observed
-- one counts nothing.
pub reconcile_watch-AfterCrashes :
    (now : Time) (w : RollbackWatch) (count : ℕ) (m : Monitored)
    → find w.container_name m.watches ≡ some w
    → IsOpen w.container_id (unix_nano now) now w
    → AfterCrashes w.container_name w
        (count - w.observed_restart_count)
        m
        (reconcile_watch now w (some count) m)
reconcile_watch-AfterCrashes now w count m found open_ =
    let k = count - w.observed_restart_count in
    let (v, seen, counted, st, rollbacks) =
      note_crashes-AfterCrashes w.container_name w.container_id (unix_nano now) now k m w found
        open_ in
    subst (AfterCrashes w.container_name w k m) (sym (reconcile_watch_notes now w count m)) (
      record v { observed_restart_count = count },
      find-set_restart_count w.container_name count
          (note_crashes w.container_name w.container_id (unix_nano now) now k m).watches v seen,
      counted,
      st,
      rollbacks,
    )

set_state_keeps :
    (id : Text) (state : Option Text) (m : Monitored)
    → ((set_state id state m).watches ≡ m.watches)
      × ((set_state id state m).rollbacks ≡ m.rollbacks)
set_state_keeps id none m = (refl, refl)
set_state_keeps id (some state) m = ground arith

clean_exit_ignored :
    (e : ContainerEvent) (m : Monitored)
    → is_zero e.exit_code ≡ true
    → ((handle_event e m).watches ≡ m.watches) × ((handle_event e m).rollbacks ≡ m.rollbacks)
unfolding handle_event sync_state
clean_exit_ignored e m zero_code =
    rw zero_code (ground (arith, set_state_keeps e.container_id (lifecycle_state e.action) m))

-- An exit with the code 0 changes no watch and starts no rollback when its event is handled; but if the
-- container was restarted for it, so that its counter is one more than observed, the next
-- reconciliation counts it as a crash, and at the last crash before the threshold starts the rollback.
clean_exit_counted :
    (e : ContainerEvent) (now : Time) (w : RollbackWatch) (m : Monitored)
    → is_zero e.exit_code ≡ true
    → find w.container_name m.watches ≡ some w
    → IsOpen w.container_id (unix_nano now) now w
    → ((handle_event e m).watches ≡ m.watches)
      × ((handle_event e m).rollbacks ≡ m.rollbacks)
      × AfterCrashes w.container_name w 1
          (handle_event e m)
          (reconcile_watch now w (some (w.observed_restart_count + 1)) (handle_event e m))
clean_exit_counted e now w m zero_code found open_ =
    let (same, quiet) = clean_exit_ignored e m zero_code in
    let one : (w.observed_restart_count + 1) - w.observed_restart_count ≡ 1 = omega arith in
    let counted =
      reconcile_watch-AfterCrashes now w (w.observed_restart_count + 1) (handle_event e m)
        (ap (find w.container_name) same ∙ found) open_ in
    (
      same,
      quiet,
      subst
          (λ k.
            AfterCrashes w.container_name w k (handle_event e m)
              (reconcile_watch now w (some (w.observed_restart_count + 1)) (handle_event e m)))
          one counted,
    )
