-- ===== src/Updater/Recreate.antt =====
-- `buildRecreationPlan` and `recreate` of internal/updater/recreate.go: the container is stopped,
-- removed, and created anew from an image.
pub mod Steps
pub mod Fidelity
pub mod Images
pub mod Creation
mod Tests
use doupro.Base.{
  Bool, true, false, not, ◌&&◌, ◌||◌, ◌≡◌, Option, none, some, List, [], ◌∷◌, Text, codes, text_eq,
  starts_with, if◌then◌else◌,
}
use doupro.Updater.Engine
use doupro.Updater.Volumes.{preserve_anonymous_volumes}
use doupro.Updater.Validate.{Inspection, RecreationPlan, network_config_of, validate_recreation}
use doupro.Updater.Engine.{
  Call, Log, Engine, inspect, pull, stop, remove, start, wait_healthy, create,
}

pub data RecreateError : Type 0 where
  incomplete_inspection unsafe_state pull_failed stop_failed remove_failed create_failed :
      RecreateError
  inspect_failed unfaithful start_failed unhealthy : RecreateError

pub record RecreationResult : Type 0 where
  pub id : Text
  pub state : Text
  pub status : Text
  pub original_stopped : Bool
  pub original_removed : Bool

abbrev pub no_result : RecreationResult
no_result = record {
  id = [];
  state = [];
  status = [];
  original_stopped = false;
  original_removed = false;
}

-- `trimSlash`
abbrev pub trim_slash : Text → Text
trim_slash [] = []
trim_slash (c ∷ s) = if starts_with (codes "/") (c ∷ s) then s else c ∷ s

abbrev pub is_safe_status : Text → Bool
is_safe_status s =
    text_eq s (codes "running") || text_eq s (codes "exited") || text_eq s (codes "created")

module _ (e : Engine) where
  open e use {succeeds, inspection, created_id, config_json, host_json}

  abbrev pub is_faithful : RecreationPlan → Inspection → Bool
  is_faithful = validate_recreation config_json host_json

  abbrev pub Outcome : Type 0
  Outcome = Option RecreateError × RecreationResult × Log

  -- the checks of `buildRecreationPlan`
  abbrev pub plan_error : Inspection → Option RecreateError
  plan_error before =
      if not (before.has_config && before.has_state)
      then some incomplete_inspection
      else if is_safe_status before.status
      then none
      else some unsafe_state

  abbrev pub plan : Inspection → Text → RecreationPlan
  plan before target = record {
    config = record before.config { image = target };
    host_config = preserve_anonymous_volumes before.host_config before.points;
    network_config = network_config_of before.networks;
    name = trim_slash before.name;
    was_running = before.running;
  }

  -- A call, and what follows if it succeeds; otherwise the error is returned, with the result so far.
  abbrev pub attempt : Call → RecreateError → RecreationResult → Log → (Log → Outcome) → Outcome
  attempt c err r log next =
      if succeeds log c then next ((c, true) ∷ log) else (some err, r, (c, false) ∷ log)

  unfoldable pub start_new : RecreationPlan → RecreationResult → Log → Outcome
  start_new p r log =
      if not p.was_running
      then (none, r, log)
      else attempt (start r.id) start_failed r log (λ log1.
        attempt (wait_healthy r.id) unhealthy r log1 (λ log2.
          attempt (inspect r.id) inspect_failed r log2 (λ log3. (
            none,
            record r {
              state = (inspection log2 r.id).status;
              status = (inspection log2 r.id).status;
            },
            log3,
          ))))

  unfoldable pub check_new : RecreationPlan → RecreationResult → Log → Outcome
  check_new p r log = attempt (inspect r.id) inspect_failed r log (λ log1.
      if is_faithful p (inspection log r.id)
      then start_new p r log1
      else (some unfaithful, r, log1))

  unfoldable pub create_new : RecreationPlan → RecreationResult → Log → Outcome
  create_new p r log = attempt (create p) create_failed r log (λ log1.
      check_new p
        (record r { id = created_id log p; state = codes "created"; status = codes "Created" })
        log1)

  unfoldable pub remove_old : Text → RecreationPlan → RecreationResult → Log → Outcome
  remove_old old p r log =
      if text_eq old []
      then create_new p r log
      else attempt (remove old) remove_failed r log
          (λ log1. create_new p (record r { original_removed = true }) log1)

  unfoldable pub stop_old : Text → RecreationPlan → Log → Outcome
  stop_old old p log =
      if not (text_eq old []) && p.was_running
      then attempt (stop old) stop_failed no_result log
          (λ log1. remove_old old p (record no_result { original_stopped = true }) log1)
      else remove_old old p no_result log

  -- `recreate`, once the plan is built
  unfoldable pub pull_new : Text → RecreationPlan → Log → Outcome
  pull_new old p log =
      if starts_with (codes "sha256:") p.config.image
      then stop_old old p log
      else attempt (pull p.config.image) pull_failed no_result log (λ log1. stop_old old p log1)

  unfoldable pub recreate : Text → Inspection → Text → Log → Outcome
  recreate old before target log = elim (plan_error before) [
    | some err ↦ (some err, no_result, log)
    | none ↦ pull_new old (plan before target) log
  ]
