-- ===== src/Updater/Rollback.antt =====
-- `Rollback` of internal/updater/updater.go. The context is not cancelled; how often a rollback that the
-- crash monitor starts inspects a restarting container again, within its ten seconds, is any number.
pub mod Records
pub mod Undo
mod Tests
use doupro.Base.{
  Bool, true, false, not, ◌&&◌, ◌||◌, Option, none, some, List, [], ◌∷◌, ℕ, zero, suc, Text, codes,
  text_eq, if◌then◌else◌,
}
use doupro.Store.Watches.{complete}
use doupro.Store.Containers.{ContainerRecord, replace_container, set_update_available}
use doupro.Updater.Validate.{Inspection}
use doupro.Updater.Engine.{Engine, inspect}
use doupro.Updater.Guard.{OperationGuard, begin_operation, end}
use doupro.Updater.Recreate.{RecreateError, RecreationResult, is_safe_status, trim_slash}
use doupro.Updater.Update.{
  World, Surroundings, UpdateError, StoreCall, replace_and_complete, set_available, refused,
  not_inspected, unknown_container, no_previous_version, not_recreated, not_recorded, read_row,
  called, written, row_of, recreated, revert, fail_before_removal,
}

abbrev pub watch_status : Bool → Text
watch_status automatic = if automatic then codes "automatic_rollback" else codes "manual_rollback"

module _ (x : Surroundings) where
  open x use {engine}

  abbrev pub is_settled : Inspection → Bool
  is_settled before = not before.has_state || is_safe_status before.status

  -- The inspections while the container restarts, at most so many; `none` where one fails.
  unfoldable pub settle : Text → ℕ → Inspection → World → Option Inspection × World
  settle id zero before w = (some before, w)
  settle id (suc n) before w =
      let (ok_, w1) = called x (inspect id) w in
      let rest = settle id n (engine.inspection w.log id) w1 in
      if is_settled before then (some before, w) else if ok_ then rest else (none, w1)

  abbrev pub rolled_back : Text → ContainerRecord → Bool → World → World
  rolled_back id row automatic u = record u {
    rows = replace_container id row u.rows;
    watches = complete row.name (watch_status automatic) u.watches;
  }

  abbrev pub offered : Text → World → World
  offered id u = record u { rows = set_update_available id true u.rows }

  -- `Rollback`, once the container is recreated
  abbrev pub rollback_end :
      Bool
      → Text
      → ContainerRecord
      → Inspection
      → Option RecreateError
      → RecreationResult
      → World
      → Option UpdateError × World
  rollback_end automatic id rec before (some e) r w =
      if not r.original_removed
      then fail_before_removal x id r e w
      else revert x id r.id before (not_recreated e) w
  rollback_end automatic id rec before none r w =
      let row = row_of x r (trim_slash before.name) rec.current_image before.image in
      let (ok_, w1) = written x replace_and_complete (rolled_back id row automatic) w in
      if ok_
      then (none, (written x set_available (offered r.id) w1).1)
      else revert x id r.id before not_recorded w1

  -- `Rollback`, once the container is inspected
  unfoldable pub rollback_container :
      Bool → Text → ContainerRecord → Inspection → World → Option UpdateError × World
  rollback_container automatic id rec before w =
      let ((err, r), w1) = recreated x id before rec.previous_image w in
      rollback_end automatic id rec before err r w1

  abbrev pub rollback_found :
      Bool → Text → ContainerRecord → Option Inspection → World → Option UpdateError × World
  rollback_found automatic id rec none w = (some not_inspected, w)
  rollback_found automatic id rec (some before) w = rollback_container automatic id rec before w

  -- `Rollback`, once its operation has begun
  unfoldable pub rollback_begun :
      Bool → ℕ → Text → ContainerRecord → World → Option UpdateError × World
  rollback_begun automatic polls id rec w =
      let (ok_, w1) = called x (inspect id) w in
      let before = engine.inspection w.log id in
      let (found, w2) = if automatic then settle id polls before w1 else (some before, w1) in
      if ok_ then rollback_found automatic id rec found w2 else (some not_inspected, w1)

  abbrev pub rollback_row :
      Bool
      → ℕ
      → Text
      → Option ContainerRecord
      → OperationGuard
      → World
      → Option UpdateError × OperationGuard × World
  rollback_row automatic polls id none g w = (some unknown_container, g, w)
  rollback_row automatic polls id (some rec) g w =
      if text_eq rec.previous_image []
      then (some no_previous_version, g, w)
      else (let (refusal, g1) = begin_operation rec.name (codes "rollback") g in
          elim refusal [
            | some e ↦ (some (refused e), g1, w)
            | none ↦
                let (err, w1) = rollback_begun automatic polls id rec w in
                (err, end rec.name g1, w1)
          ])

  unfoldable pub rollback :
      Bool → ℕ → Text → OperationGuard → World → Option UpdateError × OperationGuard × World
  rollback automatic polls id g w = rollback_row automatic polls id (read_row x id w) g w
