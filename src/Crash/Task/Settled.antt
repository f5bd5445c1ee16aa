-- ===== src/Crash/Task/Settled.antt =====
-- What the task leaves of the watches.
use doupro.Base.{
  if_both, Bool, true, false, ◌≡◌, refl, ap, ◌∙◌, subst, ◌⊎◌, inl, inr, Option, none, some, ℕ, zero,
  suc, Text, codes, text_eq, if◌then◌else◌, arith, Bool-cases, [], Option-cases,
}
use doupro.Store.Containers.{ContainerRecord}
use doupro.Store.Watches.{RollbackWatch, Watches, complete}
use doupro.Updater.Validate.{Inspection}
use doupro.Updater.Engine.{Log, inspect}
use doupro.Updater.Guard.{Refusal, OperationGuard, begin_operation, end}
use doupro.Updater.Update.{
  read_row, World, Surroundings, UpdateError, complete_watch, called, refused,
}
use doupro.Updater.Rollback.{
  is_settled, settle, rollback_container, rollback_found, rollback_begun, rollback_row, rollback,
}
use doupro.Updater.Recreate.{trim_slash}
use doupro.Updater.Rollback.Records.{rollback_container_success, rollback_container_failure}
use doupro.Crash.Task.{
  is_maintenance_error, rollback_failed, fail_watch, task_end, rollback_task, get_by_name,
}

module _ (x : Surroundings) where
  open x use {engine, stores, reads}

  -- An inspection of the container.
  abbrev Sees : Text → Option Inspection → Type 0
  Sees id none = Unit
  Sees id (some before) = (log : Log) × (before ≡ engine.inspection log id)

  -- The rollback of an inspected container of this ID ended in `w'` without an error and closed the
  -- watch of the inspected name.
  abbrev Closes : Bool → Text → ContainerRecord → Watches → World → Type 0
  Closes automatic id rec ws w' =
      (before : Inspection) × (log : Log) × (u : World) × (before ≡ engine.inspection log id)
      × (rollback_container x automatic id rec before u ≡ (none, w'))
      × (w'.watches
          ≡ complete (trim_slash before.name)
              (if automatic then codes "automatic_rollback" else codes "manual_rollback") ws)

  -- The watches after a rollback: that of the container is closed if it succeeds, and none is changed
  -- if not.
  abbrev pub Ends :
      Bool → Text → Option ContainerRecord → Watches → Option UpdateError → World → Type 0
  Ends automatic id found ws none w' =
      (rec : ContainerRecord) × (found ≡ some rec) × Closes automatic id rec ws w'
  Ends automatic id found ws (some e) w' = w'.watches ≡ ws

  container-Ends :
      (automatic : Bool) (id : Text) (rec : ContainerRecord) (before : Inspection) (w : World)
      (result : Option UpdateError × World)
      → Sees id (some before)
      → rollback_container x automatic id rec before w ≡ result
      → Ends automatic id (some rec) w.watches result.0 result.1
  container-Ends automatic id rec before w (none, w') (log, seen) h =
      let (_, _, _, watches) = rollback_container_success x automatic id rec before w w' h in
      (rec, refl, (before, log, w, seen, h, watches))
  container-Ends automatic id rec before w (some e, w') seen h =
      (rollback_container_failure x automatic id rec before w w' e h).1

  settle-Sees :
      (id : Text) (n : ℕ) (before : Inspection) (w : World)
      → Sees id (some before)
      → Sees id (settle x id n before w).0
  unfolding settle
  settle-Sees id zero before w h = h
  settle-Sees id (suc n) before w h =
      let (ok_, w1) = called x (inspect id) w in
      let rest = settle-Sees id n (engine.inspection w.log id) w1 (w.log, refl) in
      if_both (λ (o : Option Inspection × World). Sees id o.0) (is_settled x before) (λ _. h)
        (λ _. if_both (λ (o : Option Inspection × World). Sees id o.0) ok_ (λ _. rest) (λ _. tt))

  settle-watches :
      (id : Text) (n : ℕ) (before : Inspection) (w : World)
      → (settle x id n before w).1.watches ≡ w.watches
  unfolding settle
  settle-watches id zero before w = refl
  settle-watches id (suc n) before w =
      ground (arith, settle-watches id n (engine.inspection w.log id) (called x (inspect id) w).1)

  found-Ends :
      (automatic : Bool) (id : Text) (rec : ContainerRecord) (found : Option Inspection) (w : World)
      → Sees id found
      → let result = rollback_found x automatic id rec found w in
        Ends automatic id (some rec) w.watches result.0 result.1
  found-Ends automatic id rec none w seen = refl
  found-Ends automatic id rec (some before) w seen =
      container-Ends automatic id rec before w (rollback_container x automatic id rec before w) seen
        refl

  begun-Ends :
      (polls : ℕ) (id : Text) (rec : ContainerRecord) (w : World)
      → let result = rollback_begun x true polls id rec w in
        Ends true id (some rec) w.watches result.0 result.1
  unfolding rollback_begun
  begun-Ends polls id rec w =
      let w1 = (called x (inspect id) w).1 in
      let before = engine.inspection w.log id in
      let (found, w2) = settle x id polls before w1 in
      if_both (λ (o : Option UpdateError × World). Ends true id (some rec) w.watches o.0 o.1)
        (called x (inspect id) w).0
        (λ _.
          subst
            (λ ws.
              Ends true id (some rec) ws (rollback_found x true id rec found w2).0
                (rollback_found x true id rec found w2).1)
            (settle-watches id polls before w1)
            (found-Ends true id rec found w2 (settle-Sees id polls before w1 (w.log, refl))))
        (λ _. refl)

  begin-Ends :
      (polls : ℕ) (id : Text) (rec : ContainerRecord) (g : OperationGuard) (w : World)
      → let result = rollback_row x true polls id (some rec) g w in
        Ends true id (some rec) w.watches result.0 result.2
  begin-Ends polls id rec g w =
      if_both
        (λ (o : Option UpdateError × OperationGuard × World).
          Ends true id (some rec) w.watches o.0 o.2)
        (text_eq rec.previous_image []) (λ _. refl)
        (λ _. go (begin_operation rec.name (codes "rollback") g).0)
    where
      go :
          (refusal : Option Refusal)
          → let result : Option UpdateError × OperationGuard × World = elim refusal [
            | some e ↦ (some (refused e), (begin_operation rec.name (codes "rollback") g).1, w)
            | none ↦
                let (err, w1) = rollback_begun x true polls id rec w in
                (err, end rec.name (begin_operation rec.name (codes "rollback") g).1, w1)
          ] in
            Ends true id (some rec) w.watches result.0 result.2
      go none = begun-Ends polls id rec w
      go (some e) = refl

  rollback-Ends :
      (polls : ℕ) (id : Text) (g : OperationGuard) (w : World)
      → let result = rollback x true polls id g w in
        Ends true id (read_row x id w) w.watches result.0 result.2
  unfolding rollback
  rollback-Ends polls id g w = go (read_row x id w)
    where
      go :
          (found : Option ContainerRecord)
          → let result = rollback_row x true polls id found g w in
            Ends true id found w.watches result.0 result.2
      go none = refl
      go (some rec) = begin-Ends polls id rec g w

  -- The row that the task reads.
  abbrev row_for : Text → World → Option ContainerRecord
  row_for name w = if reads w then get_by_name name w.rows else none

  -- How the rollback of the container with this ID leaves the watch of `name`: closed as failed after
  -- an error that is not of a maintenance; closed as rolled back automatically after no error; or
  -- with all as it was after an error of a maintenance.
  abbrev IsTried : ℕ → Text → Text → OperationGuard → World → World → Type 0
  IsTried polls name id g w w' =
      let result = rollback x true polls id g w in
      ((e : UpdateError) × (result.0 ≡ some e)
        × (is_maintenance_error e ≡ false)
        × (w'.watches ≡ complete name (codes "rollback_failed") w.watches))
      ⊎ ((rec : ContainerRecord) × (result.0 ≡ none)
          × (read_row x id w ≡ some rec)
          × (w' ≡ result.2)
          × Closes true id rec w.watches w')
      ⊎ ((e : UpdateError) × (result.0 ≡ some e)
          × (is_maintenance_error e ≡ true)
          × (w'.watches ≡ w.watches))

  -- How the task ends for the watch: closed as failed if no row is found by its name, and otherwise as
  -- the rollback of the row's container leaves it.
  abbrev pub IsResolved : ℕ → Text → OperationGuard → World → World → Type 0
  IsResolved polls name g w w' =
      ((row_for name w ≡ none) × (w'.watches ≡ complete name (codes "rollback_failed") w.watches))
      ⊎ ((rec : ContainerRecord) × (row_for name w ≡ some rec) × IsTried polls name rec.id g w w')

  fail_watch-watches :
      (name : Text) (w : World)
      → stores w complete_watch ≡ true
      → (fail_watch x name w).watches ≡ complete name rollback_failed w.watches
  fail_watch-watches name w h = ground arith

  end-IsTried :
      (polls : ℕ) (name id : Text) (g : OperationGuard) (w : World) (err : Option UpdateError)
      → ((u : World) → stores u complete_watch ≡ true)
      → (rollback x true polls id g w).0 ≡ err
      → Ends true id (read_row x id w) w.watches err (rollback x true polls id g w).2
      → IsTried polls name id g w (task_end x name err (rollback x true polls id g w).2)
  end-IsTried polls name id g w none h is_err (rec, is_rec, closes) =
      inr (inl (rec, is_err, is_rec, refl, closes))
  end-IsTried polls name id g w (some e) h is_err same =
      let w1 = (rollback x true polls id g w).2 in
      elim (Bool-cases (is_maintenance_error e)) [
        | inl waits ↦ rw waits (inr (inr (e, is_err, waits, same)))
        | inr failed ↦ rw failed (
            inl (
              e,
              is_err,
              failed,
              fail_watch-watches name w1 (h w1) ∙ ap (complete name rollback_failed) same,
            ))
      ]

  -- If the store takes the change of a watch, a task that was started for a watch never leaves it
  -- pending for no reason. If no row of its name can be read, the watch is closed as a failed
  -- rollback. Otherwise it depends on the rollback of that row's container: after an error that is
  -- not of a maintenance the watch is closed as failed; after none, the rollback has closed the watch
  -- of the name that an inspection of the container had, as an automatic rollback; and after an error
  -- of a maintenance every watch is as it was, so that the next daemon resumes the rollback.
  pub rollback_task-IsResolved :
      (polls : ℕ) (watch : RollbackWatch) (g : OperationGuard) (w : World)
      → ((u : World) → stores u complete_watch ≡ true)
      → IsResolved polls watch.container_name g w (rollback_task x polls watch g w).1
  unfolding rollback_task
  rollback_task-IsResolved polls watch g w h =
      elim (Option-cases (row_for watch.container_name w)) [
        | inl e ↦ rw e (inl (refl, fail_watch-watches watch.container_name w (h w)))
        | inr (rec, e) ↦ rw e (
            inr (
              rec,
              refl,
              end-IsTried polls watch.container_name rec.id g w (rollback x true polls rec.id g w).0
                  h refl (rollback-Ends polls rec.id g w),
            ))
      ]
