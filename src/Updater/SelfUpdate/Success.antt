-- ===== src/Updater/SelfUpdate/Success.antt =====
-- The calls of a helper that succeeds.
use doupro.Base.{true, false, ◌≡◌, ◌≢◌, Option, none, some, [], ◌∷◌, Text, if◌then◌else◌, arith}
use doupro.Updater.Validate.{Inspection, RecreationPlan}
use doupro.Updater.Engine.{Log, Engine, inspect, stop, remove, start, wait_healthy, create, rename}
use doupro.Updater.Recreate.{RecreateError, plan_error}
use doupro.Updater.SelfUpdate.{
  Failure, not_created, Hostnames, helper_plan, recovery_name, run_replacement, recover, helper_end,
  replace, rename_parent, stop_parent, planned, run_self_update_helper,
}

module _ (e : Engine) (h : Hostnames) (parent : Text) where
  abbrev with_replacement : RecreationPlan → Text → Log → Log
  with_replacement p id log =
      if p.was_running then (wait_healthy id, true) ∷ (start id, true) ∷ log else log

  abbrev with_stop : RecreationPlan → Log → Log
  with_stop p log = if p.was_running then (stop parent, true) ∷ log else log

  -- Until the replacement is to be created.
  abbrev pub set_aside : RecreationPlan → Text → Log → Log
  set_aside p token log =
      (rename parent (recovery_name e h p token), true) ∷ with_stop p ((inspect parent, true) ∷ log)

  -- The calls of a successful helper, the last one first: the original container is inspected, stopped if
  -- it ran, and renamed; the replacement is created under its name and, if the original ran, started and
  -- found healthy; and only then the original is removed.
  abbrev pub success_log : RecreationPlan → Text → Log → Log
  success_log p token log =
      let aside = set_aside p token log in
      (remove parent, true) ∷ with_replacement p (e.created_id aside p) ((create p, true) ∷ aside)

  recover_fails :
      (p : RecreationPlan) (new_id : Text) (cause : Failure) (log : Log)
      → (recover e h parent p new_id cause log).0 ≢ none
  unfolding recover
  recover_fails p new_id cause log q = ground arith

  helper_end-success :
      (p : RecreationPlan) (new_id : Text) (cause : Option Failure) (log : Log)
      → (helper_end e h parent p new_id cause log).0 ≡ none
      → (cause ≡ none)
        × ((helper_end e h parent p new_id cause log).1 ≡ (remove parent, true) ∷ log)
  helper_end-success p new_id none log q = ground arith
  helper_end-success p new_id (some c) log q = absurd (recover_fails p new_id c log q)

  run_replacement-success :
      (p : RecreationPlan) (id : Text) (log : Log)
      → (run_replacement e h p id log).0 ≡ none
      → (run_replacement e h p id log).1 ≡ with_replacement p id log
  unfolding run_replacement
  run_replacement-success p id log q = ground arith

  replace-success :
      (p : RecreationPlan) (log : Log)
      → (replace e h parent p log).0 ≡ none
      → (replace e h parent p log).1
        ≡ (remove parent, true) ∷ with_replacement p (e.created_id log p) ((create p, true) ∷ log)
  unfolding replace
  replace-success p log q =
      let id = e.created_id log p in
      let log1 : Log = (create p, true) ∷ log in
      let (cause, log2) = run_replacement e h p id log1 in
      ground (
        arith,
        recover_fails p [] not_created ((create p, false) ∷ log),
        helper_end-success p id cause log2,
        run_replacement-success p id log1,
      )

  rename_parent-success :
      (p : RecreationPlan) (token : Text) (log : Log)
      → (rename_parent e h parent p token log).0 ≡ none
      → (rename_parent e h parent p token log).1 ≡ (
          let aside : Log = (rename parent (recovery_name e h p token), true) ∷ log in
          (remove parent, true)
          ∷ with_replacement p (e.created_id aside p) ((create p, true) ∷ aside))
  unfolding rename_parent
  rename_parent-success p token log q =
      ground (arith, replace-success p ((rename parent (recovery_name e h p token), true) ∷ log))

  stop_parent-success :
      (p : RecreationPlan) (token : Text) (log : Log)
      → (stop_parent e h parent p token ((inspect parent, true) ∷ log)).0 ≡ none
      → (stop_parent e h parent p token ((inspect parent, true) ∷ log)).1 ≡ success_log p token log
  unfolding stop_parent
  stop_parent-success p token log q = ground (
    arith,
    rename_parent-success p token ((inspect parent, true) ∷ log),
    rename_parent-success p token ((stop parent, true) ∷ (inspect parent, true) ∷ log),
  )

  planned-success :
      (before : Inspection) (target token : Text) (err : Option RecreateError) (log : Log)
      → (planned e h parent before target token err ((inspect parent, true) ∷ log)).0 ≡ none
      → (planned e h parent before target token err ((inspect parent, true) ∷ log)).1
        ≡ success_log (helper_plan e h parent before target) token log
  planned-success before target token none log q =
      stop_parent-success (helper_plan e h parent before target) token log q
  planned-success before target token (some err) log q = absurd (ground arith)

  -- If the helper succeeds, it made exactly the calls of `success_log`, for the plan that the first
  -- inspection gives, without a hostname that the ID of the original container begins with.
  pub run_self_update_helper_success :
      (target token : Text) (log : Log)
      → (run_self_update_helper e h parent target token log).0 ≡ none
      → (run_self_update_helper e h parent target token log).1
        ≡ success_log (helper_plan e h parent (e.inspection log parent) target) token log
  unfolding run_self_update_helper
  run_self_update_helper_success target token log q =
      let before = e.inspection log parent in
      ground (arith, planned-success before target token (plan_error e before) log)
