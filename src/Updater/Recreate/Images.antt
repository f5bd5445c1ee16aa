-- ===== src/Updater/Recreate/Images.antt =====
-- From which images the calls of a recreation create containers.
use doupro.Base.{
  ap, ◌≡◌, ◌++◌, Bool, true, false, not, ◌&&◌, Option, none, some, [], ◌∷◌, Text, codes, text_eq,
  starts_with, if◌then◌else◌, All, if_both,
}
use doupro.Updater.Validate.{Inspection, RecreationPlan}
use doupro.Updater.Engine.{
  Call, Log, Engine, inspect, pull, stop, remove, start, wait_healthy, create,
}
use doupro.Updater.Recreate.{
  RecreateError, RecreationResult, Outcome, no_result, plan_error, plan, attempt, is_faithful,
  start_new, check_new, create_new, remove_old, stop_old, pull_new, recreate, start_failed,
  unhealthy, inspect_failed, create_failed, remove_failed, stop_failed, pull_failed, unfaithful,
}

-- A call that creates a container does so from such an image.
abbrev pub CreatesFrom : (Text → Type 0) → Call × Bool → Type 0
CreatesFrom Q (create p, b) = Q p.config.image
CreatesFrom Q _ = Unit

-- The log grew by calls that create containers from such images only.
abbrev pub Adds : (Text → Type 0) → Log → Log → Type 0
Adds Q old log = (more : Log) × (log ≡ more ++ old) × All (CreatesFrom Q) more

pub Adds-cons :
    (Q : Text → Type 0) (old : Log) (c : Call) (b : Bool) (log : Log)
    → CreatesFrom Q (c, b)
    → Adds Q old log
    → Adds Q old ((c, b) ∷ log)
Adds-cons Q old c b log q (more, e, h) = ((c, b) ∷ more, ap (λ l. (c, b) ∷ l) e, (q, h))

-- A property of logs that each call keeps, if it creates a container from no image but such ones.
abbrev pub IsKept : (Text → Type 0) → (Log → Type 0) → Type 0
IsKept Q P = (c : Call) (b : Bool) (log : Log) → CreatesFrom Q (c, b) → P log → P ((c, b) ∷ log)

module _ (e : Engine) (Q : Text → Type 0) (P : Log → Type 0) (step : IsKept Q P) where
  open e use {succeeds, inspection, created_id}

  abbrev Fits : Outcome e → Type 0
  Fits o = P o.2

  attempt-Fits :
      (c : Call) (err : RecreateError) (r : RecreationResult) (log : Log) (next : Log → Outcome e)
      → P log
      → ((b : Bool) → CreatesFrom Q (c, b))
      → ((log1 : Log) → P log1 → Fits (next log1))
      → Fits (attempt e c err r log next)
  attempt-Fits c err r log next h fits go =
      if_both Fits (succeeds log c) (λ _. go ((c, true) ∷ log) (step c true log (fits true) h))
        (λ _. step c false log (fits false) h)

  start_new-Fits :
      (p : RecreationPlan) (r : RecreationResult) (log : Log) → P log → Fits (start_new e p r log)
  unfolding start_new
  start_new-Fits p r log h =
      let seen : Log → Log → Outcome e = λ log2 log3. (
        none,
        record r { state = (inspection log2 r.id).status; status = (inspection log2 r.id).status },
        log3,
      ) in
      let healthy : Log → Outcome e =
        λ log2. attempt e (inspect r.id) inspect_failed r log2 (seen log2) in
      let started : Log → Outcome e =
        λ log1. attempt e (wait_healthy r.id) unhealthy r log1 healthy in
      if_both Fits (not p.was_running) (λ _. h)
        (λ _.
          attempt-Fits (start r.id) start_failed r log started h (λ b. tt)
            (λ log1 h1.
              attempt-Fits (wait_healthy r.id) unhealthy r log1 healthy h1 (λ b. tt)
                (λ log2 h2.
                  attempt-Fits (inspect r.id) inspect_failed r log2 (seen log2) h2 (λ b. tt)
                    (λ log3 h3. h3))))

  check_new-Fits :
      (p : RecreationPlan) (r : RecreationResult) (log : Log) → P log → Fits (check_new e p r log)
  unfolding check_new
  check_new-Fits p r log h =
      let next : Log → Outcome e = λ log1.
        if is_faithful e p (inspection log r.id)
        then start_new e p r log1
        else (some unfaithful, r, log1) in
      attempt-Fits (inspect r.id) inspect_failed r log next h (λ b. tt)
        (λ log1 h1.
          if_both Fits (is_faithful e p (inspection log r.id)) (λ _. start_new-Fits p r log1 h1)
            (λ _. h1))

  create_new-Fits :
      (p : RecreationPlan) (r : RecreationResult) (log : Log)
      → Q p.config.image
      → P log
      → Fits (create_new e p r log)
  unfolding create_new
  create_new-Fits p r log q h =
      let made : RecreationResult = record r {
        id = created_id log p;
        state = codes "created";
        status = codes "Created";
      } in
      attempt-Fits (create p) create_failed r log (check_new e p made) h (λ b. q)
        (λ log1 h1. check_new-Fits p made log1 h1)

  remove_old-Fits :
      (old : Text) (p : RecreationPlan) (r : RecreationResult) (log : Log)
      → Q p.config.image
      → P log
      → Fits (remove_old e old p r log)
  unfolding remove_old
  remove_old-Fits old p r log q h =
      let gone : RecreationResult = record r { original_removed = true } in
      if_both Fits (text_eq old []) (λ _. create_new-Fits p r log q h)
        (λ _.
          attempt-Fits (remove old) remove_failed r log (create_new e p gone) h (λ b. tt)
            (λ log1 h1. create_new-Fits p gone log1 q h1))

  stop_old-Fits :
      (old : Text) (p : RecreationPlan) (log : Log)
      → Q p.config.image
      → P log
      → Fits (stop_old e old p log)
  unfolding stop_old
  stop_old-Fits old p log q h =
      let halted : RecreationResult = record no_result { original_stopped = true } in
      if_both Fits (not (text_eq old []) && p.was_running)
        (λ _.
          attempt-Fits (stop old) stop_failed no_result log (remove_old e old p halted) h (λ b. tt)
            (λ log1 h1. remove_old-Fits old p halted log1 q h1))
        (λ _. remove_old-Fits old p no_result log q h)

  pull_new-Fits :
      (old : Text) (p : RecreationPlan) (log : Log)
      → Q p.config.image
      → P log
      → Fits (pull_new e old p log)
  unfolding pull_new
  pull_new-Fits old p log q h =
      if_both Fits (starts_with (codes "sha256:") p.config.image) (λ _. stop_old-Fits old p log q h)
        (λ _.
          attempt-Fits (pull p.config.image) pull_failed no_result log (stop_old e old p) h
            (λ b. tt) (λ log1 h1. stop_old-Fits old p log1 q h1))

  plan_or_pull-Fits :
      (o : Option RecreateError) (old : Text) (before : Inspection) (target : Text) (log : Log)
      → Q target
      → P log
      → Fits (elim o [
        | some err ↦ (some err, no_result, log)
        | none ↦ pull_new e old (plan e before target) log
      ])
  plan_or_pull-Fits (some err) old before target log q h = h
  plan_or_pull-Fits none old before target log q h =
      pull_new-Fits old (plan e before target) log q h

  -- A recreation keeps a property of the log that creations from its target keep.
  pub recreate_keeps :
      (old : Text) (before : Inspection) (target : Text) (log : Log)
      → Q target
      → P log
      → P (recreate e old before target log).2
  unfolding recreate
  recreate_keeps old before target log q h =
      plan_or_pull-Fits (plan_error e before) old before target log q h
