-- ===== src/Scheduler/Horizon.antt =====
-- What the absence of blockers says of the ticks before the horizon.
use doupro.Base.{
  Bool, false, not, ◌≡◌, refl, ap, ◌∙◌, ◌⊎◌, inl, inr, ◌||◌, Option, none, some, List, [], ◌∷◌,
  codes, text_eq, if◌then◌else◌, keep, arith, All, Bool-cases, Option-cases, if_both,
}
use doupro.Base.Int.{ℤ}
use doupro.Store.Time.{Time, before}
use doupro.Store.Schedules.{Schedule, reversed, list_schedules, is_due, due_schedules}
use doupro.Store.Containers.{Containers}
use doupro.Updater.Update.{Surroundings}
use doupro.Scheduler.{
  Daemon, Moment, Libraries, due_list, schedule_list, Attempt, resolve_targets, counted, apply_all,
  apply_found, apply_to_targets, run_due_schedules, delay_of, relative_applied, run_relative,
  run_relatives, run_relative_policies, due_tick,
}
use doupro.Scheduler.Blockers.{
  runs_by, target_blockers, targets_blockers, resolved_blockers, schedule_blockers,
  schedules_blockers, self_update_blockers,
}
use doupro.Scheduler.Targets.{
  joined-nil, not_due, IsWithin, IsAccepted, GivesCandidates, resolve-same, target-skipped,
}
use doupro.Scheduler.Ticks.{Tick, on_due, on_check, run_ticks, checked}

All-reversed :
    (P : Schedule → Type 0) (rs out : List Schedule)
    → All P (reversed rs out)
    → All P rs × All P out
All-reversed P [] out h = (tt, h)
All-reversed P (r ∷ rs) out h = let (hs, (p, ho)) = All-reversed P rs (r ∷ out) h in ((p, hs), ho)

keep-none : (p : Schedule → Bool) (rs : List Schedule) → All (λ r. p r ≡ false) rs → keep p rs ≡ []
keep-none p [] h = refl
keep-none p (r ∷ rs) (e, h) = ground (arith, keep-none p rs h)

module _ (x : Surroundings) (lib : Libraries) (m m' : Moment) (d : Daemon)
    (now horizon : Time) where
  all-skipped :
      (sc : Schedule) (rs : Containers) (delay : ℤ)
      → IsWithin horizon (m'.clock d)
      → GivesCandidates m d
      → before horizon now ≡ false
      → IsAccepted lib sc
      → delay_of x lib m' sc ≡ some delay
      → targets_blockers x lib m now horizon sc rs d ≡ some []
      → apply_all x lib m' sc delay rs d ≡ (0, false, d)
  all-skipped sc [] delay within gives not_late accepted is_delay h = refl
  all-skipped sc (rec ∷ rs) delay within gives not_late accepted is_delay h =
      let (one, rest) =
        joined-nil (target_blockers x lib m now horizon sc rec d)
          (targets_blockers x lib m now horizon sc rs d) h in
      ap (λ (r : Attempt × Daemon). counted r.0 r.1 (apply_all x lib m' sc delay rs r.1))
        (target-skipped x lib m m' d now horizon sc rec delay within gives not_late accepted
          is_delay one)
      ∙ all-skipped sc rs delay within gives not_late accepted is_delay rest

  found-skipped :
      (sc : Schedule) (o o' : Option Containers) (delay : ℤ)
      → IsWithin horizon (m'.clock d)
      → GivesCandidates m d
      → before horizon now ≡ false
      → IsAccepted lib sc
      → delay_of x lib m' sc ≡ some delay
      → resolved_blockers x lib m now horizon sc o d ≡ some []
      → ((rs : Containers) → o ≡ some rs → (o' ≡ none) ⊎ (o' ≡ some rs))
      → apply_found x lib m' sc delay o' d ≡ (0, false, d)
  found-skipped sc none o' delay within gives not_late accepted is_delay h same =
      absurd (ground arith)
  found-skipped sc (some rs) o' delay within gives not_late accepted is_delay h same =
      elim (same rs refl) [
        | inl e ↦ rw e refl
        | inr e ↦ rw e (all-skipped sc rs delay within gives not_late accepted is_delay h)
      ]

  relative-quiet :
      (sc : Schedule)
      → IsWithin horizon (m'.clock d)
      → GivesCandidates m d
      → before horizon now ≡ false
      → IsAccepted lib sc
      → resolved_blockers x lib m now horizon sc (resolve_targets x lib m sc d) d ≡ some []
      → relative_applied x lib m' sc (delay_of x lib m' sc) d ≡ (false, d)
  unfolding apply_to_targets
  relative-quiet sc within gives not_late accepted h = elim (Option-cases (delay_of x lib m' sc)) [
    | inl e ↦ rw e refl
    | inr (delay, e) ↦ rw e (
        rw
          (found-skipped sc (resolve_targets x lib m sc d) (resolve_targets x lib m' sc d) delay
            within gives not_late accepted e h (resolve-same x lib m m' d now horizon sc))
          refl)
  ]

  schedule-quiet :
      (sc : Schedule)
      → IsWithin horizon (m'.clock d)
      → GivesCandidates m d
      → before horizon now ≡ false
      → IsAccepted lib sc
      → schedule_blockers x lib m now horizon sc d ≡ some []
      → (is_due (m'.clock d) sc ≡ false) × (run_relative x lib m' sc d ≡ (false, d))
  unfolding schedule_blockers run_relative
  schedule-quiet sc within gives not_late accepted h = elim (Bool-cases sc.enabled) [
    | inr off ↦ rw off (refl, refl)
    | inl enabled_ ↦ elim (Bool-cases (runs_by horizon sc.next_run_at)) [
      | inl due ↦ absurd (ground arith)
      | inr later ↦
          let waits_ = not_due (m'.clock d) horizon sc.next_run_at within.0 later in
          elim (Bool-cases (text_eq sc.kind (codes "relative"))) [
            | inr other ↦ rw enabled_ (rw waits_ (rw other (refl, refl)))
            | inl relative ↦
                let none_found : resolved_blockers x lib m now horizon sc
                      (resolve_targets x lib m sc d) d
                    ≡ some [] =
                  ground arith in
                let quiet = relative-quiet sc within gives not_late accepted none_found in
                ground (arith, waits_, quiet)
          ]
    ]
  ]

  -- The schedule is not due, and a relative policy does nothing.
  abbrev IsQuiet : Schedule → Type 0
  IsQuiet sc = (is_due (m'.clock d) sc ≡ false) × (run_relative x lib m' sc d ≡ (false, d))

  relatives-quiet : (scs : List Schedule) → All IsQuiet scs → run_relatives x lib m' scs d ≡ d
  relatives-quiet [] h = refl
  relatives-quiet (sc ∷ scs) ((_, q), h) =
      ap (λ (r : Bool × Daemon). if r.0 then r.1 else run_relatives x lib m' scs r.1) q
      ∙ relatives-quiet scs h

  schedules-IsQuiet :
      (scs : List Schedule)
      → IsWithin horizon (m'.clock d)
      → GivesCandidates m d
      → before horizon now ≡ false
      → All (IsAccepted lib) scs
      → schedules_blockers x lib m now horizon scs d ≡ some []
      → All IsQuiet scs
  schedules-IsQuiet [] within gives not_late accepted h = tt
  schedules-IsQuiet (sc ∷ scs) within gives not_late (p, accepted) h =
      let (one, rest) =
        joined-nil (schedule_blockers x lib m now horizon sc d)
          (schedules_blockers x lib m now horizon scs d) h in
      (
        schedule-quiet sc within gives not_late p one,
        schedules-IsQuiet scs within gives not_late accepted rest,
      )

  policies-quiet : All IsQuiet (list_schedules d.schedules) → run_relative_policies x lib m' d ≡ d
  unfolding run_relative_policies list_schedules
  policies-quiet h =
      if_both (λ e. e ≡ d) (d.guard.maintenance || not (m'.answers d schedule_list)) (λ _. refl)
        (λ _. relatives-quiet (list_schedules d.schedules) h)

  tick-quiet : All IsQuiet (list_schedules d.schedules) → due_tick x lib m' d ≡ d
  unfolding run_due_schedules due_schedules list_schedules
  tick-quiet h =
      let (rows, _) = All-reversed IsQuiet d.schedules.rows [] h in
      let none_due =
        keep-none (is_due (m'.clock d)) d.schedules.rows (All-map d.schedules.rows rows) in
      let first : run_due_schedules x lib m' d ≡ d = rw none_due (
        if_both (λ e. e ≡ d) (d.guard.maintenance || not (m'.answers d due_list)) (λ _. refl)
          (λ _. refl)) in
      ap (run_relative_policies x lib m') first ∙ policies-quiet h
    where
      All-map : (rs : List Schedule) → All IsQuiet rs → All (λ r. is_due (m'.clock d) r ≡ false) rs
      All-map [] h = tt
      All-map (r ∷ rs) ((q, _), h) = (q, All-map rs h)

-- Nothing speaks against replacing the daemon, and nothing of what that says was left out: the horizon
-- is not behind the clock, the candidates can be read, and the delays are those that the API accepts.
pub record IsClear (x : Surroundings) (lib : Libraries) (m : Moment) (horizon : Time) (d : Daemon)
    : Type 0 where
  pub unblocked : self_update_blockers x lib m horizon d ≡ some []
  pub not_late : before horizon (m.clock d) ≡ false
  pub gives : GivesCandidates m d
  pub accepted : All (IsAccepted lib) (list_schedules d.schedules)

-- Each tick is in a second before the horizon's, and each check leaves it so that nothing speaks
-- against replacing the daemon.
abbrev StaysClear : Surroundings → Libraries → Moment → Time → List Tick → Daemon → Type 0
StaysClear x lib m horizon [] d = Unit
StaysClear x lib m horizon (on_due m' ∷ ts) d =
    IsWithin horizon (m'.clock d) × StaysClear x lib m horizon ts d
StaysClear x lib m horizon (on_check check m' ∷ ts) d =
    IsClear x lib m horizon (check d)
    × IsWithin horizon (m'.clock (check d))
    × StaysClear x lib m horizon ts (check d)

module _ (x : Surroundings) (lib : Libraries) (m : Moment) (horizon : Time) where
  all-IsQuiet :
      (m' : Moment) (d : Daemon)
      → IsClear x lib m horizon d
      → IsWithin horizon (m'.clock d)
      → All (IsQuiet x lib m m' d (m.clock d) horizon) (list_schedules d.schedules)
  unfolding self_update_blockers
  all-IsQuiet m' d clear within =
      schedules-IsQuiet x lib m m' d (m.clock d) horizon (list_schedules d.schedules) within
        clear.gives clear.not_late clear.accepted (ground (arith, clear.unblocked))

  -- If nothing speaks against replacing the daemon before a horizon, the ticks of `Run` before the
  -- horizon do nothing but what their checks do: no schedule and no relative policy fires, however
  -- many ticks of either kind there are and whatever the store fails to answer in them. The horizon
  -- is not behind the clock, the candidates could be read when it was decided, the delays are those
  -- that the API accepts, each tick is in a second before the horizon's, and the same is true of the
  -- tables after each check, so that no check has found what speaks against it.
  pub self_update_blockers-quiet :
      (ts : List Tick) (d : Daemon)
      → IsClear x lib m horizon d
      → StaysClear x lib m horizon ts d
      → run_ticks x lib ts d ≡ checked ts d
  self_update_blockers-quiet [] d clear stays = refl
  self_update_blockers-quiet (on_due m' ∷ ts) d clear (within, stays) =
      ap (run_ticks x lib ts)
        (tick-quiet x lib m m' d (m.clock d) horizon (all-IsQuiet m' d clear within))
      ∙ self_update_blockers-quiet ts d clear stays
  self_update_blockers-quiet (on_check check m' ∷ ts) d clear (clear1, within, stays) =
      let d1 = check d in
      ap (run_ticks x lib ts)
        (policies-quiet x lib m m' d1 (m.clock d1) horizon (all-IsQuiet m' d1 clear1 within))
      ∙ self_update_blockers-quiet ts d1 clear1 stays
