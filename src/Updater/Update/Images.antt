-- ===== src/Updater/Update/Images.antt =====
-- From which images an update creates containers, its revert included.
use doupro.Base.{
  Bool, not, ◌≡◌, ◌≢◌, [], arith, Bool-cases, Option-cases, refl, Option, none, some, [], Text,
  codes, text_eq, ◌⊎◌, inl, inr, if_both,
}
use doupro.Updater.Validate.{Inspection}
use doupro.Updater.Engine.{Log, inspect, start}
use doupro.Updater.Recreate.{RecreateError, RecreationResult, trim_slash}
use doupro.Updater.Recreate.Images.{Adds, Adds-cons, IsKept, recreate_keeps}
use doupro.Updater.Recreate.Creation.{Creates, Creates-cons, recreate-Creates}
use doupro.Updater.Update.Records.{fail_errs, revert_errs}
use doupro.Store.Containers.{ContainerRecord}
use doupro.Updater.Update.{
  World, Surroundings, UpdateError, Cause, row_of, stable_of, read_row, revert, revert_end,
  fail_before_removal, commit, commit_running, commit_stopped, update_container, update_end,
  recreated, not_recreated, not_recorded, written, called, restarts_of, armed_for, replaced,
  not_running, StoreCall, replace, replace_and_arm, get_crash_loop_settings, complete_watch,
}

module _ (x : Surroundings) (Q : Text → Type 0) (P : Log → Type 0) (step : IsKept Q P) where
  abbrev Fits : World → Type 0
  Fits w = P w.log

  written-Fits :
      (c : StoreCall) (f : World → World) (w : World)
      → Fits w
      → ((u : World) → Fits u → Fits (f u))
      → Fits (written x c f w).1
  written-Fits c f w h k = if_both Fits (x.stores w c) (λ _. k w h) (λ _. h)

  commit_running-Fits :
      (old : Text) (row : ContainerRecord) (w : World)
      → Fits w
      → Fits (commit_running x old row w).1
  unfolding commit_running
  commit_running-Fits old row w h =
      let (got, w1) = written x get_crash_loop_settings (λ u. u) w in
      let (threshold, minutes) = x.crash_settings w in
      let (seen, w2) = called x (inspect row.id) w1 in
      let restarts = restarts_of x seen w1.log row.id in
      let read = written-Fits get_crash_loop_settings (λ u. u) w h (λ u k. k) in
      if_both (λ (o : Bool × World). Fits o.1) got
        (λ _.
          written-Fits replace_and_arm (armed_for x old row minutes threshold restarts) w2
            (step (inspect row.id) seen w1.log tt read) (λ u k. k))
        (λ _. read)

  commit_stopped-Fits :
      (old : Text) (row : ContainerRecord) (w : World)
      → Fits w
      → Fits (commit_stopped x old row w).1
  unfolding commit_stopped
  commit_stopped-Fits old row w h =
      let put = written-Fits replace (replaced x old row) w h (λ u k. k) in
      if_both (λ (o : Bool × World). Fits o.1) (x.stores w replace)
        (λ _.
          written-Fits complete_watch (not_running x row.name)
            (written x replace (replaced x old row) w).1 put (λ u k. k))
        (λ _. put)

  commit-Fits :
      (old : Text) (row : ContainerRecord) (w : World) → Fits w → Fits (commit x old row w).1
  unfolding commit
  commit-Fits old row w h =
      if_both (λ (o : Bool × World). Fits o.1) (text_eq row.state (codes "running"))
        (λ _. commit_running-Fits old row w h) (λ _. commit_stopped-Fits old row w h)

  revert_end-Fits :
      (original : Text) (before : Inspection) (c : Cause) (err : Option RecreateError)
      (r : RecreationResult) (w : World)
      → Fits w
      → Fits (revert_end x original before c err r w).1
  revert_end-Fits original before c (some e) r w h = h
  revert_end-Fits original before c none r w h = if_both Fits (x.stores w replace) (λ _. h) (λ _. h)

  revert-Fits :
      (original live : Text) (before : Inspection) (c : Cause) (w : World)
      → Q before.config.image
      → Fits w
      → Fits (revert x original live before c w).1
  unfolding revert
  revert-Fits original live before c w q h =
      let ((err, r), w1) = recreated x live before before.config.image w in
      revert_end-Fits original before c err r w1
        (recreate_keeps x.engine Q P step live before before.config.image w.log q h)

  fail-Fits :
      (original : Text) (r : RecreationResult) (c : RecreateError) (w : World)
      → Fits w
      → Fits (fail_before_removal x original r c w).1
  unfolding fail_before_removal
  fail-Fits original r c w h =
      if_both (λ (o : Option UpdateError × World). Fits o.1) r.original_stopped
        (λ _. step (start original) (x.engine.succeeds w.log (start original)) w.log tt h) (λ _. h)

  update_end-Fits :
      (id : Text) (before : Inspection) (current : Text) (err : Option RecreateError)
      (r : RecreationResult) (w : World)
      → Q before.config.image
      → Fits w
      → Fits (update_end x id before current err r w).1
  update_end-Fits id before current (some e) r w q h =
      if_both (λ (o : Option UpdateError × World). Fits o.1) (not r.original_removed)
        (λ _. fail-Fits id r e w h) (λ _. revert-Fits id r.id before (not_recreated e) w q h)
  update_end-Fits id before current none r w q h =
      let row = row_of x r (trim_slash before.name) current before.image in
      if_both (λ (o : Option UpdateError × World). Fits o.1) (commit x id row w).0
        (λ _. commit-Fits id row w h)
        (λ _.
          revert-Fits id r.id before not_recorded (commit x id row w).1 q (commit-Fits id row w h))

module _ (x : Surroundings) where
  -- An update that succeeds has recreated the container, and only its commit followed.
  update_end_success_log :
      (id : Text) (before : Inspection) (current image : Text) (err : Option RecreateError)
      (r : RecreationResult) (w : World) (old : Log)
      → (update_end x id before current err r w).0 ≡ none
      → (err ≡ none → Creates image old w.log)
      → Creates image old (update_end x id before current err r w).1.log
  update_end_success_log id before current image (some e) r w old h made =
      absurd
        (ground (arith, fail_errs x id r e w, revert_errs x id r.id before (not_recreated e) w))
  update_end_success_log id before current image none r w old h made =
      let row = row_of x r (trim_slash before.name) current before.image in
      elim (Bool-cases (commit x id row w).0) [
        | inl ok_ ↦ rw ok_ (
            commit-Fits x (λ i. i ≡ image) (Creates image old)
              (λ c b l. Creates-cons image old c b l) id row w (made refl))
        | inr bad ↦
            absurd (ground (arith, revert_errs x id r.id before not_recorded (commit x id row w).1))
      ]

  -- The update's own recreation creates containers from the target only. If the update succeeds, one
  -- was created from the target in all, and none from another image; if it fails, what it creates
  -- after that recreation, to revert it, is created from the reference in the old container's
  -- configuration only.
  pub update_container-CreatesFrom :
      (id : Text) (before : Inspection) (target : Text) (w : World)
      → let first = (recreated x id before target w).1.log in
        let (err, w') = update_container x id before target w in
        Adds (λ image. image ≡ target) w.log first
        × (((err ≡ none) × Creates target w.log w'.log)
            ⊎ ((err ≢ none) × Adds (λ image. image ≡ before.config.image) first w'.log))
  unfolding update_container
  update_container-CreatesFrom id before target w =
      let ((err, r), w1) = recreated x id before target w in
      let current = stable_of x target (read_row x id w) in
      let only : Text → Text → Type 0 = λ k image. image ≡ k in
      (
        recreate_keeps x.engine (only target) (Adds (only target) w.log)
            (Adds-cons (only target) w.log) id before target w.log refl ([], refl, tt),
        elim (Option-cases (update_end x id before current err r w1).0) [
          | inl ok_ ↦ inl (
            ok_,
            update_end_success_log id before current target err r w1 w.log ok_ (λ done.
                recreate-Creates x.engine id before target r w.log w1.log
                  (λ i. (done i, r, w1.log))),
          )
          | inr (e, bad) ↦ inr (
            λ none_. ground arith,
            update_end-Fits x (only before.config.image) (Adds (only before.config.image) w1.log)
                (Adds-cons (only before.config.image) w1.log) id before current err r w1 refl
                ([], refl, tt),
          )
        ],
      )
