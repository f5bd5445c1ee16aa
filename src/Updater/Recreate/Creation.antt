-- ===== src/Updater/Recreate/Creation.antt =====
-- The container that a successful recreation creates: its ID and its image.
use doupro.Base.{
  IsOneOf, true, not, ◌&&◌, ◌≡◌, refl, sym, subst, none, [], ◌∷◌, ◌++◌, ap, Text, codes, text_eq,
  starts_with, arith, Option-cases, inl, inr, if_both, All, Bool,
}
use doupro.Updater.Validate.{Inspection, RecreationPlan}
use doupro.Updater.Engine.{
  Call, Log, Engine, inspect, pull, stop, remove, start, wait_healthy, create,
}
use doupro.Updater.Recreate.{
  RecreationResult, no_result, plan_error, plan, create_new, remove_old, stop_old, pull_new,
  recreate,
}
use doupro.Updater.Recreate.Steps.{
  check_new_success, before_creation, pulled, recreate_success, removed, stopped,
}
use doupro.Updater.Recreate.Images.{CreatesFrom}

-- A container was created from the image.
abbrev pub CreatedFrom : Text → Log → Type 0
CreatedFrom image log =
    (p : RecreationPlan) × IsOneOf log (create p, true) × (p.config.image ≡ image)

IsOneOf-append : (xs ys : Log) (c : Call × Bool) → IsOneOf xs c → IsOneOf (xs ++ ys) c
IsOneOf-append [] ys c h = absurd h
IsOneOf-append (y ∷ xs) ys c (inl e) = inl e
IsOneOf-append (y ∷ xs) ys c (inr h) = inr (IsOneOf-append xs ys c h)

-- The log grew by calls of which one created a container from the image, and none from another one.
abbrev pub Creates : Text → Log → Log → Type 0
Creates image old log =
    (more : Log) × (log ≡ more ++ old)
    × All (CreatesFrom (λ i. i ≡ image)) more
    × CreatedFrom image more

pub Creates-cons :
    (image : Text) (old : Log) (c : Call) (b : Bool) (log : Log)
    → CreatesFrom (λ i. i ≡ image) (c, b)
    → Creates image old log
    → Creates image old ((c, b) ∷ log)
Creates-cons image old c b log q (more, e, h, (p, made, is_image)) =
    ((c, b) ∷ more, ap (λ l. (c, b) ∷ l) e, (q, h), (p, inr made, is_image))

module _ (e : Engine) where
  open e use {succeeds, inspection, created_id}

  create_new_id :
      (p : RecreationPlan) (r r' : RecreationResult) (log log' : Log)
      → create_new e p r log ≡ (none, r', log')
      → r'.id ≡ created_id log p
  unfolding create_new
  create_new_id p r r' log log' h = ground (
    arith,
    check_new_success e p
        (record r { id = created_id log p; state = codes "created"; status = codes "Created" }) r'
        ((create p, true) ∷ log) log',
  )

  remove_old_id :
      (old : Text) (p : RecreationPlan) (r r' : RecreationResult) (log log' : Log)
      → remove_old e old p r log ≡ (none, r', log')
      → r'.id ≡ created_id (removed e old log) p
  unfolding remove_old
  remove_old_id old p r r' log log' h = ground (
    arith,
    create_new_id p r r' log log',
    create_new_id p (record r { original_removed = true }) r' ((remove old, true) ∷ log) log',
  )

  stop_old_id :
      (old : Text) (p : RecreationPlan) (r' : RecreationResult) (log log' : Log)
      → stop_old e old p log ≡ (none, r', log')
      → r'.id ≡ created_id (removed e old (stopped e old p log)) p
  unfolding stop_old
  stop_old_id old p r' log log' h = ground (
    arith,
    remove_old_id old p no_result r' log log',
    remove_old_id old p (record no_result { original_stopped = true }) r' ((stop old, true) ∷ log)
        log',
  )

  pull_new_id :
      (old : Text) (p : RecreationPlan) (r' : RecreationResult) (log log' : Log)
      → pull_new e old p log ≡ (none, r', log')
      → r'.id ≡ created_id (before_creation e old p log) p
  unfolding pull_new
  pull_new_id old p r' log log' h = ground (
    arith,
    stop_old_id old p r' log log',
    stop_old_id old p r' ((pull p.config.image, true) ∷ log) log',
  )

  -- A successful recreation reports the ID that the engine gave to the container it created.
  pub recreate_id :
      (old : Text) (before : Inspection) (target : Text) (r' : RecreationResult) (log log' : Log)
      → recreate e old before target log ≡ (none, r', log')
      → r'.id ≡ created_id (before_creation e old (plan e before target) log) (plan e before target)
  unfolding recreate
  recreate_id old before target r' log log' h = elim (Option-cases (plan_error e before)) [
    | inl ok_ ↦ pull_new_id old (plan e before target) r' log log' (ground arith)
    | inr (err, bad) ↦ absurd (ground arith)
  ]

  -- A successful recreation creates a container from its target, and none from another image.
  pub recreate-Creates :
      (old : Text) (before : Inspection) (target : Text) (r' : RecreationResult) (log log' : Log)
      → recreate e old before target log ≡ (none, r', log')
      → Creates target log log'
  recreate-Creates old before target r' log log' h =
      let p = plan e before target in
      let from_target : Log → Type 0 =
        λ l. (more : Log) × (l ≡ more ++ log) × All (CreatesFrom (λ i. i ≡ target)) more in
      let step : (c : Call) (l : Log)
          → CreatesFrom (λ i. i ≡ target) (c, true)
          → from_target l
          → from_target ((c, true) ∷ l) =
        λ c l q (more, same, h). ((c, true) ∷ more, ap (λ k. (c, true) ∷ k) same, (q, h)) in
      let l1 = pulled e p.config.image log in
      let l2 = stopped e old p l1 in
      let h1 : from_target l1 =
        if_both from_target (starts_with (codes "sha256:") target) (λ _. ([], refl, tt))
          (λ _. step (pull target) log tt ([], refl, tt)) in
      let h2 : from_target l2 =
        if_both from_target (not (text_eq old []) && p.was_running) (λ _. step (stop old) l1 tt h1)
          (λ _. h1) in
      let h3 : from_target (removed e old l2) =
        if_both from_target (text_eq old []) (λ _. h2) (λ _. step (remove old) l2 tt h2) in
      let (more, same, only) = h3 in
      let made : Creates target log ((create p, true) ∷ removed e old l2) = (
        (create p, true) ∷ more,
        ap (λ k. (create p, true) ∷ k) same,
        (refl, only),
        (p, inl refl, refl),
      ) in
      let l4 = (create p, true) ∷ removed e old l2 in
      let seen = Creates-cons target log (inspect r'.id) true l4 tt made in
      let l5 = (inspect r'.id, true) ∷ l4 in
      subst (Creates target log) (sym (recreate_success e old before target r' log log' h).0) (
        if_both (Creates target log) p.was_running
          (λ _.
            Creates-cons target log (inspect r'.id) true
              ((wait_healthy r'.id, true) ∷ (start r'.id, true) ∷ l5) tt
              (Creates-cons target log (wait_healthy r'.id) true ((start r'.id, true) ∷ l5) tt
                (Creates-cons target log (start r'.id) true l5 tt seen)))
          (λ _. seen))

  pub recreate-CreatedFrom :
      (old : Text) (before : Inspection) (target : Text) (r' : RecreationResult) (log log' : Log)
      → recreate e old before target log ≡ (none, r', log')
      → CreatedFrom target log'
  recreate-CreatedFrom old before target r' log log' h =
      let (more, same, _, (p, made, is_target)) =
        recreate-Creates old before target r' log log' h in
      (
        p,
        subst (λ l. IsOneOf l (create p, true)) (sym same)
            (IsOneOf-append more log (create p, true) made),
        is_target,
      )
