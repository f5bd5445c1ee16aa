-- ===== src/Updater/Update/Records.antt =====
-- What an update leaves in the store, whether it succeeds or fails.
use doupro.Base.{
  true, false, ◌≡◌, ◌≢◌, refl, Option, none, some, [], ◌∷◌, Text, text_eq, text_eq_iff,
  text_eq_refl, if◌then◌else◌, arith, Bool-cases, inl, inr, ◌⊎◌, subst,
}
use doupro.Store.Containers.{
  ContainerRecord, Containers, get_container, delete_container, replace_container,
}
use doupro.Updater.Validate.{Inspection}
use doupro.Updater.Recreate.{RecreateError, RecreationResult, trim_slash, plan, recreate}
use doupro.Updater.Recreate.Steps.{before_creation}
use doupro.Updater.Recreate.Creation.{recreate_id}
use doupro.Updater.Update.Restored.{IsUndone, revert-IsUndone, fail-IsUndone, IsUndone-from}
use doupro.Updater.Update.{
  World, Surroundings, UpdateError, Cause, row_of, stable_of, read_row, revert, revert_end,
  update_end, recreated, not_recreated, not_recorded, fail_before_removal, commit, commit_running,
  commit_stopped, update_container,
}
use doupro.Updater.Update.OnRecord.{KeepsReference, stable_of-KeepsReference}

get-delete :
    (k id : Text) (rs : Containers)
    → get_container k (delete_container id rs) ≡ (if text_eq id k then none else get_container k rs)
get-delete k id [] = ground arith
get-delete k id (r ∷ rs) =
    ground (arith, get-delete k id rs, text_eq_iff r.id id, text_eq_iff r.id k, text_eq_iff id k)

-- The new row is there, and the superseded one is not.
abbrev pub Supersedes : Text → ContainerRecord → Containers → Type 0
Supersedes old r rs =
    (get_container r.id rs ≡ some r) × ((old ≡ r.id) ⊎ (old ≡ []) ⊎ (get_container old rs ≡ none))

pub replace-Supersedes :
    (old : Text) (r : ContainerRecord) (rs : Containers)
    → r.update_available ≡ false
    → Supersedes old r (replace_container old r rs)
unfolding replace_container
replace-Supersedes old r rs fresh = ground (
  arith,
  text_eq_refl r.id,
  text_eq_iff old [],
  text_eq_iff old r.id,
  text_eq_iff r.id old,
  get-delete old r.id (delete_container old rs),
  get-delete old r.id rs,
  get-delete old old rs,
  text_eq_refl old,
)

module _ (x : Surroundings) where
  open x use {engine, stores, reads}

  commit_rows :
      (old : Text) (row : ContainerRecord) (w : World)
      → (commit x old row w).0 ≡ true
      → (commit x old row w).1.rows ≡ replace_container old row w.rows
  unfolding commit commit_running commit_stopped
  commit_rows old row w h = ground arith

  commit_fails :
      (old : Text) (row : ContainerRecord) (w : World)
      → (commit x old row w).0 ≡ false
      → ((commit x old row w).1.rows ≡ w.rows) × ((commit x old row w).1.watches ≡ w.watches)
  unfolding commit commit_running commit_stopped
  commit_fails old row w h = ground arith

  revert_end_errs :
      (original : Text) (before : Inspection) (c : Cause) (err : Option RecreateError)
      (r : RecreationResult) (w : World)
      → (revert_end x original before c err r w).0 ≢ none
  revert_end_errs original before c none r w h = cc
  revert_end_errs original before c (some e) r w h = cc

  pub revert_errs :
      (original live : Text) (before : Inspection) (c : Cause) (w : World)
      → (revert x original live before c w).0 ≢ none
  unfolding revert
  revert_errs original live before c w =
      let ((err, r), w1) = recreated x live before before.config.image w in
      revert_end_errs original before c err r w1

  pub fail_errs :
      (original : Text) (r : RecreationResult) (c : RecreateError) (w : World)
      → (fail_before_removal x original r c w).0 ≢ none
  unfolding fail_before_removal
  fail_errs original r c w h = ground arith

  update_end_success :
      (id : Text) (before : Inspection) (current : Text) (err : Option RecreateError)
      (r : RecreationResult) (w w' : World)
      → update_end x id before current err r w ≡ (none, w')
      → Supersedes id (row_of x r (trim_slash before.name) current before.image) w'.rows
  update_end_success id before current (some e) r w w' h =
      absurd (ground (arith, fail_errs id r e w, revert_errs id r.id before (not_recreated e) w))
  update_end_success id before current none r w w' h =
      let row = row_of x r (trim_slash before.name) current before.image in
      elim (Bool-cases (commit x id row w).0) [
        | inl ok_ ↦
            subst (Supersedes id row) (ground (arith, commit_rows id row w ok_))
              (replace-Supersedes id row w.rows refl)
        | inr bad ↦
            absurd (ground (arith, revert_errs id r.id before not_recorded (commit x id row w).1))
      ]

  -- The result of the recreation that an update of a container starts with.
  abbrev pub first_result : Text → Inspection → Text → World → RecreationResult
  first_result id before target w = (recreated x id before target w).0.1

  pub update_container_row :
      (id : Text) (before : Inspection) (target : Text) (w w' : World)
      → update_container x id before target w ≡ (none, w')
      → Supersedes id
          (row_of x
            (first_result id before target w)
            (trim_slash before.name)
            (stable_of x target (read_row x id w))
            before.image)
          w'.rows
  unfolding update_container
  update_container_row id before target w w' h =
      let ((err, r), w1) = recreated x id before target w in
      update_end_success id before (stable_of x target (read_row x id w)) err r w1 w' h

  -- The ID that the engine gives to the container that a recreation of `id` in this world creates.
  abbrev pub new_id : Text → Inspection → Text → World → Text
  new_id id before target w =
      let p = plan engine before target in engine.created_id (before_creation engine id p w.log) p

  pub recreated_id :
      (id : Text) (before : Inspection) (target : Text) (w : World)
      → (recreated x id before target w).0.0 ≡ none
      → (first_result id before target w).id ≡ new_id id before target w
  recreated_id id before target w h =
      let (err, r, log) = recreate engine id before target w.log in
      recreate_id engine id before target r w.log log (λ i. (h i, r, log))

  update_end_recreated :
      (id : Text) (before : Inspection) (current : Text) (err : Option RecreateError)
      (r : RecreationResult) (w w' : World)
      → update_end x id before current err r w ≡ (none, w')
      → err ≡ none
  update_end_recreated id before current (some e) r w w' h =
      absurd (ground (arith, fail_errs id r e w, revert_errs id r.id before (not_recreated e) w))
  update_end_recreated id before current none r w w' h = refl

  -- A successful update of an inspected container leaves a row under the ID that the engine gave to
  -- the container it created, with the old container's name, the state that the recreation reports,
  -- and the image ID that ran before as the previous image. Its current image is the target or, where
  -- the target is a digest, the reference on record, if the row can be read and its reference is
  -- neither empty nor a digest; and it is not offered an update. The old container's row is gone, if
  -- its ID was another one and not empty.
  pub update_container_success :
      (id : Text) (before : Inspection) (target : Text) (w w' : World)
      → update_container x id before target w ≡ (none, w')
      → (current : Text) × KeepsReference x id target w current
        × Supersedes id
            (record {
              id = new_id id before target w;
              name = trim_slash before.name;
              state = (first_result id before target w).state;
              current_image = current;
              previous_image = before.image;
              update_available = false;
            })
            w'.rows
  unfolding update_container
  update_container_success id before target w w' h =
      let ((err, r), w1) = recreated x id before target w in
      let current = stable_of x target (read_row x id w) in
      let is_id =
        recreated_id id before target w (update_end_recreated id before current err r w1 w' h) in
      let row = row_of x r (trim_slash before.name) current before.image in
      (
        current,
        stable_of-KeepsReference x id target w,
        subst (λ i. Supersedes id (record row { id = i }) w'.rows) is_id
            (update_container_row id before target w w' h),
      )

  update_end-IsUndone :
      (id : Text) (before : Inspection) (current : Text) (err : Option RecreateError)
      (r : RecreationResult) (w w' : World) (e : UpdateError)
      → update_end x id before current err r w ≡ (some e, w')
      → IsUndone x id r.id before e w w'
  update_end-IsUndone id before current (some c) r w w' e h = elim (Bool-cases r.original_removed) [
    | inl gone ↦ revert-IsUndone x id r.id before (not_recreated c) w w' e (ground arith)
    | inr there ↦ fail-IsUndone x id r.id before r c w w' e (ground arith)
  ]
  update_end-IsUndone id before current none r w w' e h =
      let row = row_of x r (trim_slash before.name) current before.image in
      let w1 = (commit x id row w).1 in
      elim (Bool-cases (commit x id row w).0) [
        | inl ok_ ↦ absurd (ground arith)
        | inr bad ↦
            let (rows, watches) = commit_fails id row w bad in
            IsUndone-from x id r.id before e w w1 w' rows watches
              (revert-IsUndone x id r.id before not_recorded w1 w' e (ground arith))
      ]

  -- A failed update leaves the rollback watches as they were. If its error says that the container
  -- was reverted, the container was recreated, in place of the one that the update had created, if
  -- any, from the reference in its configuration, and its row is replaced by one with the new ID
  -- and state, the old name, that reference, or the one on record in place of a digest, and the
  -- previous image on record, which is empty only if the record's is, or if the row cannot be read
  -- or is not there. After any other error the rows are as they were.
  pub update_container_failure :
      (id : Text) (before : Inspection) (target : Text) (w w' : World) (e : UpdateError)
      → update_container x id before target w ≡ (some e, w')
      → IsUndone x id (first_result id before target w).id before e w w'
  unfolding update_container
  update_container_failure id before target w w' e h =
      let ((err, r), w1) = recreated x id before target w in
      update_end-IsUndone id before (stable_of x target (read_row x id w)) err r w1 w' e h
