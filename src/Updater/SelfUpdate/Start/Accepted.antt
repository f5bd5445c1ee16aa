-- ===== src/Updater/SelfUpdate/Start/Accepted.antt =====
-- What a self-update does to the gate for operations.
use doupro.Base.{
  Bool, true, false, not, ◌≡◌, refl, inl, inr, Option, none, some, List, [], ◌∷◌, Text, starts_with,
  if◌then◌else◌, arith, ◌⊎◌, ◌&&◌, if_both,
}
use doupro.Updater.Engine.{Log, Engine, Helper, inspect, pull, start, list_all, create_helper}
use doupro.Updater.Guard.{OperationGuard, begin_maintenance, end_maintenance}
use doupro.Updater.Guard.Exclusion.{is_nil-eq}
use doupro.Updater.SelfUpdate.{call}
use doupro.Updater.SelfUpdate.Start.{
  Host, StartError, self_of, start_helper, prepare, unless_blocked, identified,
  start_in_maintenance, gate_after, start_self_update,
}

-- The helper runs the target image: it was created and started.
abbrev pub IsStarted : {A : Type 0} → Host A → Text → Log → Type 0
IsStarted h target log =
    (helper : Helper) × (self : Text) × (seen : Bool) × (rest : Log) × (log
      ≡ (inspect self, seen)
        ∷ (start (h.helper_id rest helper), true)
        ∷ (create_helper helper, true)
        ∷ rest)
    × (helper.image ≡ target)

-- What holds behind the closed gate once the helper runs.
abbrev IsReady : {A : Type 0} → Host A → Text → Option (StartError A) × Log → Type 0
IsReady h target (some err, log) = Unit
IsReady h target (none, log) = (h.blockers ≡ some []) × IsStarted h target log

module _ {A : Type 0} (e : Engine) (h : Host A) where
  helper-IsStarted :
      (self target : Text) (helper : Helper) (log : Log)
      → helper.image ≡ target
      → (start_helper e h self helper log).0 ≡ none
      → IsStarted h target (start_helper e h self helper log).1
  unfolding start_helper
  helper-IsStarted self target helper log image q =
      let log2 : Log =
        (start (h.helper_id log helper), true) ∷ (create_helper helper, true) ∷ log in
      (helper, self, e.succeeds log2 (inspect self), log, ground arith, image)

  helper-IsReady :
      (self target : Text) (helper : Helper) (log : Log)
      → helper.image ≡ target
      → h.blockers ≡ some []
      → IsReady h target (start_helper e h self helper log)
  helper-IsReady self target helper log image free =
      go (start_helper e h self helper log) (helper-IsStarted self target helper log image)
    where
      go :
          (r : Option (StartError A) × Log)
          → (r.0 ≡ none → IsStarted h target r.1)
          → IsReady h target r
      go (none, log') k = (free, k refl)
      go (some err, log') k = tt

  prepare-IsReady :
      (self target : Text) (log : Log)
      → h.blockers ≡ some []
      → IsReady h target (prepare e h self target log)
  unfolding prepare
  prepare-IsReady self target log free =
      let (pulled, log1) = call e (pull target) log in
      let (seen, log2) = call e (inspect self) log1 in
      let (found, log3) = call e (inspect self) log2 in
      if_both (IsReady h target) (not pulled) (λ _. tt)
        (λ _.
          if_both (IsReady h target) found (λ _. helper-IsReady self target _ log3 refl free)
            (λ _. tt))

  unblocked-IsReady :
      (blockers : Option (List A)) (self target : Text) (log : Log)
      → h.blockers ≡ blockers
      → IsReady h target (unless_blocked e h blockers self target log)
  unblocked-IsReady none self target log q = tt
  unblocked-IsReady (some []) self target log q = prepare-IsReady self target log q
  unblocked-IsReady (some (b ∷ bs)) self target log q = tt

  identified-IsReady :
      (container target : Text) (found : Option Text) (log : Log)
      → IsReady h target (identified e h container target found log)
  identified-IsReady container target none log = tt
  identified-IsReady container target (some self) log =
      if_both (IsReady h target)
        (not (starts_with container self) && not (starts_with self container)) (λ _. tt)
        (λ _.
          if_both (IsReady h target) (not h.configured) (λ _. tt)
            (λ _. unblocked-IsReady h.blockers self target log refl))

  -- What a self-update has done: accepted, it began at an open gate, with no operation, and closed it;
  -- refused or failed, it left the gate as it was.
  abbrev pub Settles : Text → OperationGuard → Option (StartError A) × OperationGuard × Log → Type 0
  Settles target g (none, g', log) =
      (g.active ≡ [])
      × (g ≡ record g' { maintenance = false })
      × (g'.maintenance ≡ true)
      × (h.blockers ≡ some [])
      × IsStarted h target log
  Settles target g (some err, g', log) = g' ≡ g

  gated-Settles :
      (target : Text) (g : OperationGuard) (r : Option (StartError A) × Log)
      → g.active ≡ []
      → g.maintenance ≡ false
      → IsReady h target r
      → Settles target g (r.0, gate_after e h r.0 (record g { maintenance = true }), r.1)
  unfolding end_maintenance
  gated-Settles target g (some err, log) idle open_ ready = ground arith
  gated-Settles target g (none, log) idle open_ (free, started) =
      (idle, ground arith, refl, free, started)

  begun :
      (g : OperationGuard)
      → (begin_maintenance g ≡ (some g.active, g))
        ⊎ ((g.active ≡ [])
            × (g.maintenance ≡ false)
            × (begin_maintenance g ≡ (none, record g { maintenance = true })))
  unfolding begin_maintenance
  begun g = ground (arith, is_nil-eq g.active)

  -- An accepted self-update found the gate open and no operation under way, nothing spoke against it,
  -- the helper was created from the target image and started, and the gate is closed; one that is refused
  -- or fails leaves the gate as it was.
  pub start_self_update-Settles :
      (container target : Text) (g : OperationGuard) (log : Log)
      → Settles target g (start_self_update e h container target g log)
  unfolding start_self_update start_in_maintenance
  start_self_update-Settles container target g log = elim (begun g) [
    | inl busy ↦ rw busy refl
    | inr (idle, open_, is_begun) ↦
        let (ok_, log1) = call e list_all log in
        let found = if ok_ then self_of h.hostname (h.listing log) else none in
        rw is_begun (
          gated-Settles target g (identified e h container target found log1) idle open_
            (identified-IsReady container target found log1))
  ]
