-- ===== src/Updater/SelfUpdate/Recovery.antt =====
-- What becomes of the original container, by the calls of the helper that succeeded.
use doupro.Base.{
  Bool, true, false, not, ◌≡◌, ◌≢◌, refl, sym, ap, subst, ◌∙◌, inl, inr, Option, none, some, [],
  ◌∷◌, Text, text_eq, text_eq_iff, text_eq_refl, if◌then◌else◌, arith, Bool-cases, if_both,
}
use doupro.Updater.Validate.{Inspection, RecreationPlan}
use doupro.Updater.Engine.{Call, Log, Engine, inspect, stop, remove, start, create, rename}
use doupro.Updater.Recreate.{RecreateError, plan_error, trim_slash}
use doupro.Updater.SelfUpdate.{
  Failure, not_created, HelperError, not_renamed, not_removed, recovery_not_renamed,
  recovery_not_started, call, Hostnames, helper_plan, recovery_name, run_replacement, recover,
  helper_end, replace, rename_parent, stop_parent, planned, run_self_update_helper,
}

-- The container: its name, whether it runs, and whether it is there.
pub record Container : Type 0 where
  pub name : Text
  pub running : Bool
  pub present : Bool

-- What a call that succeeds does to the container with this ID. A call that fails does nothing.
abbrev pub effect : Text → Call → Container → Container
effect id (stop i) s = if text_eq i id then record s { running = false } else s
effect id (start i) s = if text_eq i id then record s { running = true } else s
effect id (rename i n) s = if text_eq i id then record s { name = n } else s
effect id (remove i) s = if text_eq i id then record s { running = false; present = false } else s
effect id _ s = s

-- The container after the calls, the last one of which stands first.
abbrev pub after_calls : Text → Container → Log → Container
after_calls id s [] = s
after_calls id s ((c, ok_) ∷ log) =
    if ok_ then effect id c (after_calls id s log) else after_calls id s log

-- What the end of the helper means for the container, which was `s0`.
abbrev pub Ends : Option HelperError → Container → Container → Type 0
Ends none s0 s = s.present ≡ false
Ends (some not_removed) s0 s = s.present ≡ true
Ends (some (recovery_not_renamed c)) s0 s = s.present ≡ true
Ends (some (recovery_not_started c)) s0 s = s ≡ record s0 { running = false }
Ends (some not_renamed) s0 s = (s.present ≡ true) × (s.name ≡ s0.name)
Ends (some _) s0 s = s ≡ s0

module _ (e : Engine) (h : Hostnames) (parent : Text) (init : Container) where
  -- The end of a part of the helper, for the container that the calls leave.
  abbrev EndsAt : Container → Option HelperError × Log → Type 0
  EndsAt s0 (err, log) = Ends err s0 (after_calls parent init log)

  recover-Ends :
      (p : RecreationPlan) (new_id : Text) (cause : Failure) (log : Log) (n : Text)
      → new_id ≢ parent
      → after_calls parent init log ≡ record { name = n; running = false; present = true }
      → EndsAt
          (record { name = p.name; running = p.was_running; present = true })
          (recover e h parent p new_id cause log)
  unfolding recover
  recover-Ends p new_id cause log n ne at =
      ground (arith, text_eq_iff new_id parent, text_eq_refl parent)

  run_replacement-after :
      (p : RecreationPlan) (id : Text) (log : Log)
      → id ≢ parent
      → after_calls parent init (run_replacement e h p id log).1 ≡ after_calls parent init log
  unfolding run_replacement
  run_replacement-after p id log ne = ground (arith, text_eq_iff id parent)

  helper_end-Ends :
      (p : RecreationPlan) (new_id : Text) (cause : Option Failure) (log : Log) (n : Text)
      → new_id ≢ parent
      → after_calls parent init log ≡ record { name = n; running = false; present = true }
      → EndsAt
          (record { name = p.name; running = p.was_running; present = true })
          (helper_end e h parent p new_id cause log)
  helper_end-Ends p new_id none log n ne at = ground (arith, text_eq_refl parent)
  helper_end-Ends p new_id (some cause) log n ne at = recover-Ends p new_id cause log n ne at

  replace-Ends :
      (p : RecreationPlan) (log : Log) (n : Text)
      → e.created_id log p ≢ parent
      → parent ≢ []
      → after_calls parent init log ≡ record { name = n; running = false; present = true }
      → EndsAt
          (record { name = p.name; running = p.was_running; present = true })
          (replace e h parent p log)
  unfolding replace
  replace-Ends p log n ne some_id at =
      let id = e.created_id log p in
      let (created, log1) = call e (create p) log in
      let (cause, log2) = run_replacement e h p id log1 in
      let at1 : after_calls parent init log1
          ≡ record { name = n; running = false; present = true } =
        ground arith in
      if_both (EndsAt (record { name = p.name; running = p.was_running; present = true })) created
        (λ _. helper_end-Ends p id cause log2 n ne (run_replacement-after p id log1 ne ∙ at1))
        (λ _. helper_end-Ends p [] (some not_created) log1 n (λ q. some_id (sym q)) at1)

  rename_parent-Ends :
      (p : RecreationPlan) (token : Text) (log : Log)
      → ((l : Log) → e.created_id l p ≢ parent)
      → parent ≢ []
      → after_calls parent init log ≡ record { name = p.name; running = false; present = true }
      → EndsAt
          (record { name = p.name; running = p.was_running; present = true })
          (rename_parent e h parent p token log)
  unfolding rename_parent
  rename_parent-Ends p token log ne some_id at =
      let c = rename parent (recovery_name e h p token) in
      let (renamed, log1) = call e c log in
      elim (Bool-cases (e.succeeds log c)) [
        | inl done ↦ rw done (
            replace-Ends p ((c, true) ∷ log) (recovery_name e h p token) (ne ((c, true) ∷ log))
              some_id (ap (effect parent c) at ∙ ground (arith, text_eq_refl parent)))
        | inr failed ↦ ground (arith, text_eq_refl parent)
      ]

  stop_parent-Ends :
      (p : RecreationPlan) (token : Text) (log : Log)
      → ((l : Log) → e.created_id l p ≢ parent)
      → parent ≢ []
      → after_calls parent init log
        ≡ record { name = p.name; running = p.was_running; present = true }
      → EndsAt
          (record { name = p.name; running = p.was_running; present = true })
          (stop_parent e h parent p token log)
  unfolding stop_parent
  stop_parent-Ends p token log ne some_id at =
      let s0 : Container = record { name = p.name; running = p.was_running; present = true } in
      let log1 = (call e (stop parent) log).1 in
      if_both (EndsAt s0) (not p.was_running)
        (λ idle. rename_parent-Ends p token log ne some_id (ground arith))
        (λ runs.
          if_both (EndsAt s0) (e.succeeds log (stop parent))
            (λ stopped.
              rename_parent-Ends p token log1 ne some_id (ground (arith, text_eq_refl parent)))
            (λ failed. ground arith))

  planned-Ends :
      (before : Inspection) (target token : Text) (err : Option RecreateError) (log : Log)
      → let p = helper_plan e h parent before target in
        ((l : Log) → e.created_id l p ≢ parent)
        → parent ≢ []
        → after_calls parent init log
          ≡ record { name = p.name; running = p.was_running; present = true }
        → EndsAt (after_calls parent init log) (planned e h parent before target token err log)
  planned-Ends before target token (some err) log ne some_id at = refl
  planned-Ends before target token none log ne some_id at =
      let p = helper_plan e h parent before target in
      subst (λ s0. EndsAt s0 (stop_parent e h parent p token log)) (sym at)
        (stop_parent-Ends p token log ne some_id at)

-- The container as the inspection shows it.
abbrev pub shown : Inspection → Container
shown before = record { name = trim_slash before.name; running = before.running; present = true }

module _ (e : Engine) (h : Hostnames) (parent target token : Text) (init : Container)
    (log : Log) where
  -- However the helper ends, the original container is never lost: it is gone only if the helper
  -- succeeds; if it restored the container, or did not get so far as to rename it, the container has its
  -- name and runs if it ran before; if the restart of the renamed container failed, it only does not run;
  -- and in every other case it is there. The engine gives no container the ID of another, and the
  -- inspection shows the container as it is.
  pub run_self_update_helper-Ends :
      ((l : Log) (p : RecreationPlan) → e.created_id l p ≢ parent)
      → parent ≢ []
      → after_calls parent init log ≡ shown (e.inspection log parent)
      → let result = run_self_update_helper e h parent target token log in
        Ends result.0 (after_calls parent init log) (after_calls parent init result.1)
  unfolding run_self_update_helper
  run_self_update_helper-Ends ne some_id at =
      let before = e.inspection log parent in
      let log1 = (call e (inspect parent) log).1 in
      let same : after_calls parent init log1 ≡ after_calls parent init log = ground arith in
      if_both (EndsAt e h parent init (after_calls parent init log))
        (e.succeeds log (inspect parent))
        (λ _.
          subst
            (λ s0.
              EndsAt e h parent init s0
                (planned e h parent before target token (plan_error e before) log1))
            same
            (planned-Ends e h parent init before target token (plan_error e before) log1
              (λ l. ne l (helper_plan e h parent before target)) some_id (same ∙ at)))
        (λ _. same)
