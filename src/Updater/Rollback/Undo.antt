-- ===== src/Updater/Rollback/Undo.antt =====
-- An update that is rolled back.
use doupro.Base.{
  Bool, ◌≡◌, refl, sym, ◌∙◌, subst, Option, none, some, ℕ, Text, if◌then◌else◌, arith, Bool-cases,
  inl, inr,
}
use doupro.Store.Containers.{ContainerRecord, get_container}
use doupro.Updater.Validate.{Inspection}
use doupro.Updater.Engine.{inspect}
use doupro.Updater.Guard.{OperationGuard}
use doupro.Updater.Recreate.{RecreateError, RecreationResult, recreate, trim_slash}
use doupro.Updater.Recreate.Creation.{CreatedFrom, recreate-CreatedFrom}
use doupro.Updater.Update.{
  World, Surroundings, row_of, stable_of, read_row, written, called, update_container,
  not_recreated, not_recorded, replace_and_complete,
}
use doupro.Updater.Update.Records.{first_result, update_container_row, revert_errs, fail_errs}
use doupro.Updater.Rollback.{
  rollback_end, rollback_container, rollback_found, rollback_begun, rollback_row, rollback, settle,
  rolled_back,
}
use doupro.Updater.Rollback.Records.{rollback_container_success}

module _ (x : Surroundings) where
  rollback_end-CreatedFrom :
      (automatic : Bool) (id : Text) (rec : ContainerRecord) (before : Inspection)
      (err : Option RecreateError) (r : RecreationResult) (w w' : World)
      → rollback_end x automatic id rec before err r w ≡ (none, w')
      → (err ≡ none) × (w'.log ≡ w.log)
  rollback_end-CreatedFrom automatic id rec before (some e) r w w' h =
      absurd
        (ground (arith, fail_errs x id r e w, revert_errs x id r.id before (not_recreated e) w))
  rollback_end-CreatedFrom automatic id rec before none r w w' h = (
    refl,
    ground (
      arith,
      revert_errs x id r.id before not_recorded
          (written x replace_and_complete
            (rolled_back x id (row_of x r (trim_slash before.name) rec.current_image before.image)
              automatic)
            w).1,
    ),
  )

  rollback_container-CreatedFrom :
      (automatic : Bool) (id : Text) (rec : ContainerRecord) (before : Inspection) (w w' : World)
      → rollback_container x automatic id rec before w ≡ (none, w')
      → CreatedFrom rec.previous_image w'.log
  unfolding rollback_container
  rollback_container-CreatedFrom automatic id rec before w w' h =
      let target = rec.previous_image in
      let (err, r, log) = recreate x.engine id before target w.log in
      let (ok_, same) =
        rollback_end-CreatedFrom automatic id rec before err r (record w { log = log }) w' h in
      let made =
        recreate-CreatedFrom x.engine id before target r w.log log (λ i. (ok_ i, r, log)) in
      subst (CreatedFrom target) (sym same) made

  -- A rollback that succeeds once it has begun is that of some inspection of the container.
  abbrev IsOfInspection : Bool → Text → ContainerRecord → World → Type 0
  IsOfInspection automatic id rec w' =
      (before : Inspection) × (u : World) × (rollback_container x automatic id rec before u
        ≡ (none, w'))

  rollback_found_success :
      (automatic : Bool) (id : Text) (rec : ContainerRecord) (found : Option Inspection)
      (w w' : World)
      → rollback_found x automatic id rec found w ≡ (none, w')
      → IsOfInspection automatic id rec w'
  rollback_found_success automatic id rec none w w' h = absurd (ground arith)
  rollback_found_success automatic id rec (some before) w w' h = (before, w, h)

  rollback_begun_success :
      (automatic : Bool) (polls : ℕ) (id : Text) (rec : ContainerRecord) (w w' : World)
      → rollback_begun x automatic polls id rec w ≡ (none, w')
      → IsOfInspection automatic id rec w'
  unfolding rollback_begun
  rollback_begun_success automatic polls id rec w w' h =
      let (ok_, w1) = called x (inspect id) w in
      let before = x.engine.inspection w.log id in
      let (found, w2) = if automatic then settle x id polls before w1 else (some before, w1) in
      elim (Bool-cases ok_) [
        | inl seen ↦ rollback_found_success automatic id rec found w2 w' (ground arith)
        | inr unseen ↦ absurd (ground arith)
      ]

  rollback_row_success :
      (automatic : Bool) (polls : ℕ) (id : Text) (rec : ContainerRecord) (g : OperationGuard)
      (w : World)
      → (rollback_row x automatic polls id (some rec) g w).0 ≡ none
      → rollback_begun x automatic polls id rec w
        ≡ (none, (rollback_row x automatic polls id (some rec) g w).2)
  rollback_row_success automatic polls id rec g w h = ground arith

  -- A rollback that succeeds on the container that an update left, whatever happened in between, as
  -- long as the container's row is as the update wrote it, creates a container from the image ID that
  -- ran before the update, and keeps the reference that the update recorded as the current image.
  pub rollback-update :
      (id : Text) (before : Inspection) (target : Text) (w w1 u : World) (automatic : Bool)
      (polls : ℕ) (g : OperationGuard)
      → update_container x id before target w ≡ (none, w1)
      → read_row x (first_result x id before target w).id u
        ≡ get_container (first_result x id before target w).id w1.rows
      → (rollback x automatic polls (first_result x id before target w).id g u).0 ≡ none
      → let u' = (rollback x automatic polls (first_result x id before target w).id g u).2 in
        CreatedFrom before.image u'.log
        × (row : ContainerRecord) × (get_container row.id u'.rows ≡ some row)
        × (row.current_image ≡ stable_of x target (read_row x id w))
  unfolding rollback
  rollback-update id before target w w1 u automatic polls g updated kept done =
      let r = first_result x id before target w in
      let rec =
        row_of x r (trim_slash before.name) (stable_of x target (read_row x id w)) before.image in
      let is_rec : read_row x r.id u ≡ some rec =
        kept ∙ (update_container_row x id before target w w1 updated).0 in
      let u' = (rollback_row x automatic polls r.id (some rec) g u).2 in
      let began =
        rollback_row_success automatic polls r.id rec g u
          (subst (λ o. (rollback_row x automatic polls r.id o g u).0 ≡ none) is_rec done) in
      let (before2, u1, contained) = rollback_begun_success automatic polls r.id rec u u' began in
      let (available, _, (there, _), _) =
        rollback_container_success x automatic r.id rec before2 u1 u' contained in
      subst
        (λ o.
          let v = (rollback_row x automatic polls r.id o g u).2 in
          CreatedFrom before.image v.log
          × (row : ContainerRecord) × (get_container row.id v.rows ≡ some row)
          × (row.current_image ≡ stable_of x target (read_row x id w)))
        (sym is_rec)
        (rollback_container-CreatedFrom automatic r.id rec before2 u1 u' contained, _, there, refl)
