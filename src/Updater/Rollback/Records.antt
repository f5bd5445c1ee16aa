-- ===== src/Updater/Rollback/Records.antt =====
-- What a rollback leaves in the store, whether it succeeds or fails.
use doupro.Base.{
  Bool, true, false, ◌≡◌, refl, sym, subst, Option, none, some, [], ◌∷◌, Text, codes, text_eq,
  text_eq_iff, text_eq_refl, if◌then◌else◌, arith, Bool-cases, inl, inr,
}
use doupro.Store.Watches.{complete}
use doupro.Store.Containers.{
  ContainerRecord, Containers, get_container, replace_container, set_update_available,
}
use doupro.Updater.Validate.{Inspection}
use doupro.Updater.Recreate.{RecreateError, RecreationResult, trim_slash}
use doupro.Updater.Update.{
  World, Surroundings, UpdateError, row_of, recreated, written, not_recreated, not_recorded,
  replace_and_complete, set_available,
}
use doupro.Updater.Update.Restored.{IsUndone, revert-IsUndone, fail-IsUndone, IsUndone-from}
use doupro.Updater.Update.Records.{
  Supersedes, replace-Supersedes, revert_errs, new_id, recreated_id, first_result, fail_errs,
}
use doupro.Updater.Rollback.{watch_status, rolled_back, rollback_end, rollback_container}

get-set_available :
    (k id : Text) (b : Bool) (rs : Containers) (r : ContainerRecord)
    → get_container k rs ≡ some r
    → get_container k (set_update_available id b rs)
      ≡ some (if text_eq id k then record r { update_available = b } else r)
get-set_available k id b [] r h = cc
get-set_available k id b (q ∷ rs) r h = ground (
  arith,
  get-set_available k id b rs r,
  text_eq_iff q.id id,
  text_eq_iff q.id k,
  text_eq_iff id k,
)

get-set_available_none :
    (k id : Text) (b : Bool) (rs : Containers)
    → get_container k rs ≡ none
    → get_container k (set_update_available id b rs) ≡ none
get-set_available_none k id b [] h = refl
get-set_available_none k id b (q ∷ rs) h =
    ground (arith, get-set_available_none k id b rs, text_eq_iff q.id id, text_eq_iff q.id k)

offered-Supersedes :
    (old : Text) (r : ContainerRecord) (rs : Containers)
    → Supersedes old r rs
    → Supersedes old (record r { update_available = true }) (set_update_available r.id true rs)
offered-Supersedes old r rs (new, gone) = (
  ground (arith, get-set_available r.id r.id true rs r new, text_eq_refl r.id),
  ground (arith, gone, get-set_available_none old r.id true rs),
)

module _ (x : Surroundings) where
  open x use {stores}

  -- The row of the container that the engine created, and the watch closed. The store was told to
  -- record both, and then to offer an update; the row offers it if the store did the latter.
  abbrev pub IsRolledBack : Bool → Text → ContainerRecord → Inspection → World → World → Type 0
  IsRolledBack automatic id rec before w w' =
      (available : Bool) × (w'.writes
        ≡ (set_available, available) ∷ (replace_and_complete, true) ∷ w.writes)
      × Supersedes id
          (record {
            id = new_id x id before rec.previous_image w;
            name = trim_slash before.name;
            state = (first_result x id before rec.previous_image w).state;
            current_image = rec.current_image;
            previous_image = before.image;
            update_available = available;
          })
          w'.rows
      × (w'.watches
          ≡ complete (trim_slash before.name)
              (if automatic then codes "automatic_rollback" else codes "manual_rollback") w.watches)

  recorded :
      (automatic : Bool) (id : Text) (row : ContainerRecord) (w : World)
      → stores w replace_and_complete ≡ true
      → let w1 = (written x replace_and_complete (rolled_back x id row automatic) w).1 in
        (w1.rows ≡ replace_container id row w.rows)
        × (w1.watches ≡ complete row.name (watch_status automatic) w.watches)
  recorded automatic id row w h = ground arith

  -- What follows a recreation that succeeded.
  abbrev HasRow : Bool → Text → ContainerRecord → World → World → Type 0
  HasRow automatic id row w w' =
      (available : Bool) × (w'.writes
        ≡ (set_available, available) ∷ (replace_and_complete, true) ∷ w.writes)
      × Supersedes id (record row { update_available = available }) w'.rows
      × (w'.watches ≡ complete row.name (watch_status automatic) w.watches)

  rollback_end_success :
      (automatic : Bool) (id : Text) (rec : ContainerRecord) (before : Inspection)
      (err : Option RecreateError) (r : RecreationResult) (w w' : World)
      → rollback_end x automatic id rec before err r w ≡ (none, w')
      → (err ≡ none)
        × HasRow automatic id
            (row_of x r (trim_slash before.name) rec.current_image before.image)
            w
            w'
  rollback_end_success automatic id rec before (some e) r w w' h =
      absurd
        (ground (arith, fail_errs x id r e w, revert_errs x id r.id before (not_recreated e) w))
  rollback_end_success automatic id rec before none r w w' h =
      let row = row_of x r (trim_slash before.name) rec.current_image before.image in
      let w1 = (written x replace_and_complete (rolled_back x id row automatic) w).1 in
      let fresh = replace-Supersedes id row w.rows refl in
      elim (Bool-cases (stores w replace_and_complete)) [
        | inl ok_ ↦
            let (rows, watches) = recorded automatic id row w ok_ in
            let fresh1 : Supersedes id row w1.rows = subst (Supersedes id row) (sym rows) fresh in
            elim (Bool-cases (stores w1 set_available)) [
              | inl set_ ↦ (
                refl,
                (
                  true,
                  ground arith,
                  subst (Supersedes id (record row { update_available = true })) (ground arith)
                      (offered-Supersedes id row w1.rows fresh1),
                  ground arith,
                ),
              )
              | inr unset ↦ (
                refl,
                (
                  false,
                  ground arith,
                  subst (Supersedes id row) (ground arith) fresh1,
                  ground arith,
                ),
              )
            ]
        | inr bad ↦ absurd (ground (arith, revert_errs x id r.id before not_recorded w1))
      ]

  -- A successful rollback of an inspected container leaves a row under the ID that the engine gave to
  -- the container it created from the previous image, with the old container's name and the state
  -- that the recreation reports. The row keeps the reference on record as current image and has the
  -- image ID that is retired as the previous one, so that the rollback can be undone as well; the
  -- store is then told to offer an update for it, and if it does so, the row says so. The old
  -- container's row is gone, if its ID was another one and not empty, and the container's rollback
  -- watch is closed as a manual or an automatic rollback.
  pub rollback_container_success :
      (automatic : Bool) (id : Text) (rec : ContainerRecord) (before : Inspection) (w w' : World)
      → rollback_container x automatic id rec before w ≡ (none, w')
      → IsRolledBack automatic id rec before w w'
  unfolding rollback_container
  rollback_container_success automatic id rec before w w' h =
      let ((err, r), w1) = recreated x id before rec.previous_image w in
      let (done, (available, told, there, watches)) =
        rollback_end_success automatic id rec before err r w1 w' h in
      let row = row_of x r (trim_slash before.name) rec.current_image before.image in
      (
        available,
        told,
        subst (λ i. Supersedes id (record row { id = i; update_available = available }) w'.rows)
            (recreated_id x id before rec.previous_image w done) there,
        watches,
      )

  rollback_end-IsUndone :
      (automatic : Bool) (id : Text) (rec : ContainerRecord) (before : Inspection)
      (err : Option RecreateError) (r : RecreationResult) (w w' : World) (e : UpdateError)
      → rollback_end x automatic id rec before err r w ≡ (some e, w')
      → IsUndone x id r.id before e w w'
  rollback_end-IsUndone automatic id rec before (some c) r w w' e h =
      elim (Bool-cases r.original_removed) [
        | inl gone ↦ revert-IsUndone x id r.id before (not_recreated c) w w' e (ground arith)
        | inr there ↦ fail-IsUndone x id r.id before r c w w' e (ground arith)
      ]
  rollback_end-IsUndone automatic id rec before none r w w' e h =
      let row = row_of x r (trim_slash before.name) rec.current_image before.image in
      let w1 = (written x replace_and_complete (rolled_back x id row automatic) w).1 in
      elim (Bool-cases (stores w replace_and_complete)) [
        | inl ok_ ↦ absurd (ground arith)
        | inr bad ↦
            let rows : w1.rows ≡ w.rows = ground arith in
            let watches : w1.watches ≡ w.watches = ground arith in
            IsUndone-from x id r.id before e w w1 w' rows watches
              (revert-IsUndone x id r.id before not_recorded w1 w' e (ground arith))
      ]

  -- A failed rollback leaves the rollback watches as they were, and the rows as a failed update does.
  pub rollback_container_failure :
      (automatic : Bool) (id : Text) (rec : ContainerRecord) (before : Inspection) (w w' : World)
      (e : UpdateError)
      → rollback_container x automatic id rec before w ≡ (some e, w')
      → IsUndone x id (first_result x id before rec.previous_image w).id before e w w'
  unfolding rollback_container
  rollback_container_failure automatic id rec before w w' e h =
      let ((err, r), w1) = recreated x id before rec.previous_image w in
      rollback_end-IsUndone automatic id rec before err r w1 w' e h
