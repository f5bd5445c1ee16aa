-- ===== src/Scheduler/Spared.antt =====
-- What a tick does for the other schedules spares a one-off one.
use doupro.Base.{
  Bool, false, not, ◌≡◌, ◌≢◌, refl, sym, ◌∙◌, ◌&&◌, ◌||◌, Option, none, some, List, [], ◌∷◌, ℕ,
  Text, codes, text_eq, text_eq_iff, if◌then◌else◌, ltb, arith, All, if_both,
}
use doupro.Base.Int.{ℤ, pos}
use doupro.Store.Time.{Time}
use doupro.Store.Schedules.{Schedule, mark_schedule_run, touch_schedule_last_run, is_some}
use doupro.Store.Candidates.{UpdateCandidate}
use doupro.Store.Containers.{ContainerRecord, Containers}
use doupro.Updater.Update.{Surroundings, UpdateError}
use doupro.Crash.Task.{get_by_name}
use doupro.Scheduler.{
  relative_retry_ready, current_check_interval, once_found, relative_end, is_positive,
  before_shifted, is_eligible, container_by_name, Daemon, Moment, Libraries, Attempt, skipped,
  attempted, postponed, mark_run, touch_run, clear_candidates, waits, mark, touch, cleared, counted,
  fire, apply_candidate, apply_target, read_candidate, scope_of, apply_all, apply_found,
  resolve_targets, apply_to_targets, execute_once, execute_cron, execute, delay_of,
  relative_applied, run_relative, run_relatives,
}
use doupro.Scheduler.Sparing.{IsOnce, Spares, Spares-refl, Spares-trans, changed-Spares}

module _ (x : Surroundings) (lib : Libraries) (m : Moment) (i : ℕ) where
  mark-Spares : (j : ℕ) (next : Option Time) (d : Daemon) → j ≢ i → Spares i d (mark m j next d)
  unfolding mark_schedule_run
  mark-Spares j next d ne =
      if_both (Spares i d) (m.answers d (mark_run j))
        (λ _.
          changed-Spares i j
            (λ r. record r {
              last_run_at = some (m.clock d);
              next_run_at = next;
              enabled = is_some next;
            })
            d ne (λ r. (refl, refl)))
        (λ _. Spares-refl i d)

  touch-Spares : (j : ℕ) (d : Daemon) → j ≢ i → Spares i d (touch m j d)
  unfolding touch_schedule_last_run
  touch-Spares j d ne =
      if_both (Spares i d) (m.answers d (touch_run j))
        (λ _.
          changed-Spares i j (λ r. record r { last_run_at = some (m.clock d) }) d ne
            (λ r. (refl, refl)))
        (λ _. Spares-refl i d)

  cleared-Spares :
      (id : Text) (err : Option UpdateError) (d : Daemon) → Spares i d (cleared m id err d)
  cleared-Spares id none d =
      if_both (Spares i d) (m.answers d (clear_candidates id)) (λ _. Spares-refl i d)
        (λ _. Spares-refl i d)
  cleared-Spares id (some e) d = Spares-refl i d

  fire-Spares :
      (j : ℕ) (id image : Text) (d : Daemon) → j ≢ i → Spares i d (fire x lib m j id image d).1
  fire-Spares j id image d ne = (ground arith, refl, λ h. h)

  candidate-Spares :
      (sc : Schedule) (delay : ℤ) (rec : ContainerRecord) (o : Option UpdateCandidate) (d : Daemon)
      → sc.id ≢ i
      → Spares i d (apply_candidate x lib m sc delay rec o d).1
  candidate-Spares sc delay rec none d ne = Spares-refl i d
  candidate-Spares sc delay rec (some c) d ne =
      let (err, d1) = fire x lib m sc.id rec.id c.image d in
      let fired = fire-Spares sc.id rec.id c.image d ne in
      if_both (λ (r : Attempt × Daemon). Spares i d r.1)
        (is_positive delay && before_shifted (m.clock d) c.detected_at delay) (λ _. Spares-refl i d)
        (λ _.
          if_both (λ (r : Attempt × Daemon). Spares i d r.1) (waits err) (λ _. fired)
            (λ _.
              Spares-trans i d d1 (cleared m rec.id err d1) fired (cleared-Spares rec.id err d1)))

  target-Spares :
      (sc : Schedule) (delay : ℤ) (rec : ContainerRecord) (d : Daemon)
      → sc.id ≢ i
      → Spares i d (apply_target x lib m sc delay rec d).1
  unfolding apply_target
  target-Spares sc delay rec d ne =
      if_both (λ (r : Attempt × Daemon). Spares i d r.1) (is_eligible x lib m d rec)
        (λ _. candidate-Spares sc delay rec (read_candidate x lib m rec.id (scope_of sc) d) d ne)
        (λ _. Spares-refl i d)

  counted-Spares :
      (a : Attempt) (d d1 : Daemon) (rest : ℕ × Bool × Daemon)
      → Spares i d d1
      → Spares i d rest.2
      → Spares i d (counted a d1 rest).2
  counted-Spares skipped d d1 rest h k = k
  counted-Spares attempted d d1 (n, p, d2) h k = k
  counted-Spares postponed d d1 rest h k = h

  all-Spares :
      (sc : Schedule) (delay : ℤ) (rs : Containers) (d : Daemon)
      → sc.id ≢ i
      → Spares i d (apply_all x lib m sc delay rs d).2
  all-Spares sc delay [] d ne = Spares-refl i d
  all-Spares sc delay (rec ∷ rs) d ne =
      let (a, d1) = apply_target x lib m sc delay rec d in
      let rest = apply_all x lib m sc delay rs d1 in
      let first = target-Spares sc delay rec d ne in
      counted-Spares a d d1 rest first
        (Spares-trans i d d1 rest.2 first (all-Spares sc delay rs d1 ne))

  found-Spares :
      (sc : Schedule) (delay : ℤ) (o : Option Containers) (d : Daemon)
      → sc.id ≢ i
      → Spares i d (apply_found x lib m sc delay o d).2
  found-Spares sc delay none d ne = Spares-refl i d
  found-Spares sc delay (some rs) d ne = all-Spares sc delay rs d ne

  targets-Spares :
      (sc : Schedule) (delay : ℤ) (d : Daemon)
      → sc.id ≢ i
      → Spares i d (apply_to_targets x lib m sc delay d).2
  unfolding apply_to_targets
  targets-Spares sc delay d ne = found-Spares sc delay (resolve_targets x lib m sc d) d ne

  once-Spares :
      (sc : Schedule) (o : Option ContainerRecord) (d : Daemon)
      → sc.id ≢ i
      → Spares i d (once_found x lib m sc o d)
  once-Spares sc none d ne = mark-Spares sc.id none d ne
  once-Spares sc (some rec) d ne =
      let target = if text_eq sc.pinned_image [] then rec.current_image else sc.pinned_image in
      let (err, d1) = fire x lib m sc.id rec.id target d in
      let fired = fire-Spares sc.id rec.id target d ne in
      if_both (Spares i d) (waits err) (λ _. fired)
        (λ _. Spares-trans i d d1 (mark m sc.id none d1) fired (mark-Spares sc.id none d1 ne))

  cron-Spares : (sc : Schedule) (d : Daemon) → sc.id ≢ i → Spares i d (execute_cron x lib m sc d)
  unfolding execute_cron
  cron-Spares sc d ne =
      let (n, paused, d1) = apply_to_targets x lib m sc (pos 0) d in
      let applied = targets-Spares sc (pos 0) d ne in
      let next = lib.next_cron_run (m.clock d1) sc.cron_expr in
      if_both (Spares i d) paused (λ _. applied)
        (λ _. Spares-trans i d d1 (mark m sc.id next d1) applied (mark-Spares sc.id next d1 ne))

  pub execute-Spares : (sc : Schedule) (d : Daemon) → sc.id ≢ i → Spares i d (execute x lib m sc d)
  unfolding execute_once
  execute-Spares sc d ne =
      if_both (Spares i d) (text_eq sc.kind (codes "once"))
        (λ _.
          once-Spares sc
            (if m.answers d (container_by_name sc.container_name)
              then get_by_name sc.container_name d.world.rows
              else none)
            d ne)
        (λ _.
          if_both (Spares i d) (text_eq sc.kind (codes "cron")) (λ _. cron-Spares sc d ne)
            (λ _. Spares-refl i d))

  relative_end-Spares :
      (sc : Schedule) (d : Daemon) (r : ℕ × Bool × Daemon)
      → sc.id ≢ i
      → Spares i d r.2
      → Spares i d (relative_end x lib m sc r).1
  relative_end-Spares sc d (n, paused, d1) ne h =
      if_both (λ (r : Bool × Daemon). Spares i d r.1) paused (λ _. h)
        (λ _.
          if_both (λ (r : Bool × Daemon). Spares i d r.1) (ltb 0 n)
            (λ _. Spares-trans i d d1 (touch m sc.id d1) h (touch-Spares sc.id d1 ne)) (λ _. h))

  applied-Spares :
      (sc : Schedule) (o : Option ℤ) (d : Daemon)
      → sc.id ≢ i
      → Spares i d (relative_applied x lib m sc o d).1
  applied-Spares sc none d ne = Spares-refl i d
  applied-Spares sc (some delay) d ne =
      relative_end-Spares sc d (apply_to_targets x lib m sc delay d) ne
        (targets-Spares sc delay d ne)

  relative-Spares :
      (sc : Schedule) (d : Daemon) → IsOnce i sc → Spares i d (run_relative x lib m sc d).1
  unfolding run_relative
  relative-Spares sc d once =
      if_both (λ (r : Bool × Daemon). Spares i d r.1)
        (not sc.enabled || not (text_eq sc.kind (codes "relative"))) (λ _. Spares-refl i d)
        (λ runs.
          if_both (λ (r : Bool × Daemon). Spares i d r.1)
            (not (relative_retry_ready sc.last_run_at (current_check_interval m d) (m.clock d)))
            (λ _. Spares-refl i d)
            (λ _. applied-Spares sc (delay_of x lib m sc) d (λ e. is_relative e runs)))
    where
      is_relative :
          sc.id ≡ i → (not sc.enabled || not (text_eq sc.kind (codes "relative"))) ≡ false → ⊥
      is_relative e runs =
          let kinds : codes "once" ≡ codes "relative" =
            sym (once e) ∙ (text_eq_iff sc.kind (codes "relative")).0 (ground arith) in
          let bad = (text_eq_iff (codes "once") (codes "relative")).1 kinds in ground arith

  pub relatives-Spares :
      (scs : List Schedule) (d : Daemon)
      → All (IsOnce i) scs
      → Spares i d (run_relatives x lib m scs d)
  relatives-Spares [] d h = Spares-refl i d
  relatives-Spares (sc ∷ scs) d (p, h) =
      let (paused, d1) = run_relative x lib m sc d in
      let first = relative-Spares sc d p in
      if_both (Spares i d) paused (λ _. first)
        (λ _. Spares-trans i d d1 (run_relatives x lib m scs d1) first (relatives-Spares scs d1 h))
