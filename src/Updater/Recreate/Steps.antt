-- ===== src/Updater/Recreate/Steps.antt =====
-- The calls that a recreation makes, in their order, on success and on failure.
use doupro.Base.{
  true, false, not, ◌&&◌, ◌≡◌, ◌≢◌, none, some, [], ◌∷◌, Text, codes, text_eq, text_eq_iff,
  starts_with, if◌then◌else◌, arith, Bool-cases, Option-cases, inl, inr, ◌⊎◌,
}
use doupro.Updater.Validate.{Inspection, RecreationPlan}
use doupro.Updater.Engine.{Log, Engine, inspect, pull, stop, remove, start, wait_healthy, create}
use doupro.Updater.Recreate.{
  RecreationResult, Outcome, no_result, is_faithful, plan_error, plan, start_new, check_new,
  create_new, remove_old, stop_old, pull_new, recreate, remove_failed,
}

module _ (e : Engine) where
  open e use {succeeds, inspection, created_id}

  abbrev started : RecreationPlan → Text → Log → Log
  started p id log =
      if p.was_running
      then (inspect id, true) ∷ (wait_healthy id, true) ∷ (start id, true) ∷ log
      else log

  abbrev pub removed : Text → Log → Log
  removed old log = if text_eq old [] then log else (remove old, true) ∷ log

  abbrev pub stopped : Text → RecreationPlan → Log → Log
  stopped old p log = if not (text_eq old []) && p.was_running then (stop old, true) ∷ log else log

  abbrev pub pulled : Text → Log → Log
  pulled target log =
      if starts_with (codes "sha256:") target then log else (pull target, true) ∷ log

  -- The calls of a successful recreation, the last one first: the image is pulled, unless it is an
  -- image ID; the old container is stopped, if it ran, and removed; the new one is created and
  -- inspected; and, if the old one ran, started, found healthy and inspected again.
  abbrev pub success_log : Text → RecreationPlan → Text → Log → Log
  success_log old p id log = started p id (
      (inspect id, true)
      ∷ (create p, true)
      ∷ removed old (stopped old p (pulled p.config.image log)))

  start_new_success :
      (p : RecreationPlan) (r r' : RecreationResult) (log log' : Log)
      → start_new e p r log ≡ (none, r', log')
      → (log' ≡ started p r.id log) × (r'.id ≡ r.id)
  unfolding start_new
  start_new_success p r r' log log' h = ground arith

  pub check_new_success :
      (p : RecreationPlan) (r r' : RecreationResult) (log log' : Log)
      → check_new e p r log ≡ (none, r', log')
      → (log' ≡ started p r.id ((inspect r.id, true) ∷ log))
        × (r'.id ≡ r.id)
        × (is_faithful e p (inspection log r.id) ≡ true)
  unfolding check_new
  check_new_success p r r' log log' h =
      ground (arith, start_new_success p r r' ((inspect r.id, true) ∷ log) log')

  create_new_success :
      (p : RecreationPlan) (r r' : RecreationResult) (log log' : Log)
      → create_new e p r log ≡ (none, r', log')
      → (log' ≡ started p r'.id ((inspect r'.id, true) ∷ (create p, true) ∷ log))
        × (is_faithful e p (inspection ((create p, true) ∷ log) r'.id) ≡ true)
  unfolding create_new
  create_new_success p r r' log log' h = ground (
    arith,
    check_new_success p
        (record r { id = created_id log p; state = codes "created"; status = codes "Created" }) r'
        ((create p, true) ∷ log) log',
  )

  remove_old_success :
      (old : Text) (p : RecreationPlan) (r r' : RecreationResult) (log log' : Log)
      → remove_old e old p r log ≡ (none, r', log')
      → (log' ≡ started p r'.id ((inspect r'.id, true) ∷ (create p, true) ∷ removed old log))
        × (is_faithful e p (inspection ((create p, true) ∷ removed old log) r'.id) ≡ true)
  unfolding remove_old
  remove_old_success old p r r' log log' h = ground (
    arith,
    create_new_success p r r' log log',
    create_new_success p (record r { original_removed = true }) r' ((remove old, true) ∷ log) log',
  )

  stop_old_success :
      (old : Text) (p : RecreationPlan) (r' : RecreationResult) (log log' : Log)
      → stop_old e old p log ≡ (none, r', log')
      → (log'
          ≡ started p r'.id
              ((inspect r'.id, true) ∷ (create p, true) ∷ removed old (stopped old p log)))
        × (is_faithful e p (inspection ((create p, true) ∷ removed old (stopped old p log)) r'.id)
            ≡ true)
  unfolding stop_old
  stop_old_success old p r' log log' h = ground (
    arith,
    remove_old_success old p no_result r' log log',
    remove_old_success old p (record no_result { original_stopped = true }) r'
        ((stop old, true) ∷ log) log',
  )

  abbrev pub before_creation : Text → RecreationPlan → Log → Log
  before_creation old p log = removed old (stopped old p (pulled p.config.image log))

  pull_new_success :
      (old : Text) (p : RecreationPlan) (r' : RecreationResult) (log log' : Log)
      → pull_new e old p log ≡ (none, r', log')
      → (log' ≡ success_log old p r'.id log)
        × (is_faithful e p (inspection ((create p, true) ∷ before_creation old p log) r'.id) ≡ true)
  unfolding pull_new
  pull_new_success old p r' log log' h = ground (
    arith,
    stop_old_success old p r' log log',
    stop_old_success old p r' ((pull p.config.image, true) ∷ log) log',
  )

  -- A successful recreation made exactly the calls of `success_log`, and the new container's
  -- inspection, after its creation, has the settings of the plan.
  pub recreate_success :
      (old : Text) (before : Inspection) (target : Text) (r' : RecreationResult) (log log' : Log)
      → recreate e old before target log ≡ (none, r', log')
      → (log' ≡ success_log old (plan e before target) r'.id log)
        × (is_faithful e (plan e before target) (
              inspection
                ((create (plan e before target), true)
                  ∷ before_creation old (plan e before target) log)
                r'.id)
            ≡ true)
  unfolding recreate
  recreate_success old before target r' log log' h = elim (Option-cases (plan_error e before)) [
    | inl ok_ ↦ pull_new_success old (plan e before target) r' log log' (ground arith)
    | inr (err, bad) ↦ absurd (ground arith)
  ]

  start_new_removed :
      (p : RecreationPlan) (r : RecreationResult) (log : Log)
      → (start_new e p r log).1.original_removed ≡ r.original_removed
  unfolding start_new
  start_new_removed p r log = ground arith

  check_new_removed :
      (p : RecreationPlan) (r : RecreationResult) (log : Log)
      → (check_new e p r log).1.original_removed ≡ r.original_removed
  unfolding check_new
  check_new_removed p r log = ground (arith, start_new_removed p r ((inspect r.id, true) ∷ log))

  create_new_removed :
      (p : RecreationPlan) (r : RecreationResult) (log : Log)
      → (create_new e p r log).1.original_removed ≡ r.original_removed
  unfolding create_new
  create_new_removed p r log = ground (
    arith,
    check_new_removed p
        (record r { id = created_id log p; state = codes "created"; status = codes "Created" })
        ((create p, true) ∷ log),
  )

  remove_old_stays :
      (old : Text) (p : RecreationPlan) (r : RecreationResult) (log : Log)
      → old ≢ []
      → (remove_old e old p r log).1.original_removed ≡ false
      → remove_old e old p r log ≡ (some remove_failed, r, (remove old, false) ∷ log)
  unfolding remove_old
  remove_old_stays old p r log ne h = ground (
    arith,
    text_eq_iff old [],
    create_new_removed p (record r { original_removed = true }) ((remove old, true) ∷ log),
  )

  -- The three ways to fail between the pull and the removal: the removal fails for a container that
  -- did not run, or after it was stopped, or the stop fails.
  abbrev pub StopsShort : Text → Log → Outcome e → Type 0
  StopsShort old log (err, r, log') =
      ((r.original_stopped ≡ false) × (log' ≡ (remove old, false) ∷ log))
      ⊎ ((r.original_stopped ≡ false) × (log' ≡ (stop old, false) ∷ log))
      ⊎ ((r.original_stopped ≡ true) × (log' ≡ (remove old, false) ∷ (stop old, true) ∷ log))

  stop_old_stays :
      (old : Text) (p : RecreationPlan) (log : Log)
      → old ≢ []
      → (stop_old e old p log).1.original_removed ≡ false
      → StopsShort old log (stop_old e old p log)
  unfolding stop_old
  stop_old_stays old p log ne h = ground (
    arith,
    text_eq_iff old [],
    remove_old_stays old p no_result log ne,
    remove_old_stays old p (record no_result { original_stopped = true }) ((stop old, true) ∷ log)
        ne,
  )

  -- Nothing was done but, at most, a pull that failed.
  abbrev pub NotBegun : Text → Log → Outcome e → Type 0
  NotBegun target log (err, r, log') =
      (r.original_stopped ≡ false) × ((log' ≡ log) ⊎ (log' ≡ (pull target, false) ∷ log))

  pull_new_stays :
      (old : Text) (p : RecreationPlan) (log : Log)
      → old ≢ []
      → (pull_new e old p log).1.original_removed ≡ false
      → NotBegun p.config.image log (pull_new e old p log)
        ⊎ StopsShort old (pulled p.config.image log) (pull_new e old p log)
  unfolding pull_new
  pull_new_stays old p log ne h = elim (Bool-cases (starts_with (codes "sha256:") p.config.image)) [
    | inl by_id ↦ inr (ground (arith, stop_old_stays old p log ne))
    | inr by_tag ↦ elim (Bool-cases (succeeds log (pull p.config.image))) [
      | inl got ↦ inr (ground (arith, stop_old_stays old p ((pull p.config.image, true) ∷ log) ne))
      | inr lost ↦ inl (ground arith)
    ]
  ]

  -- A recreation of a container, whose ID is not empty, that reports that it did not remove it made
  -- no call that removed it, created or started another: it failed at the plan or the pull, with
  -- the container untouched, or at the stop or the removal that follow, and it reports whether it
  -- had stopped the container.
  pub recreate_stays :
      (old : Text) (before : Inspection) (target : Text) (log : Log)
      → old ≢ []
      → (recreate e old before target log).1.original_removed ≡ false
      → NotBegun target log (recreate e old before target log)
        ⊎ StopsShort old (pulled target log) (recreate e old before target log)
  unfolding recreate
  recreate_stays old before target log ne h = elim (Option-cases (plan_error e before)) [
    | inl ok_ ↦ ground (arith, pull_new_stays old (plan e before target) log ne)
    | inr (err, bad) ↦ inl (ground arith)
  ]
