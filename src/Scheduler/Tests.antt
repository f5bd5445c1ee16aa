-- ===== src/Scheduler/Tests.antt =====
-- The theorems on the scheduler at a daemon that has one container, a delayed policy and a one-off
-- schedule for it, and a candidate for its update.
use doupro.Base.{
  true, false, subst, sym, All, ◌≡◌, ◌≢◌, ◌≤◌, ◌+◌, refl, none, some, [], ◌∷◌, List, ℕ, Text, codes,
  text_eq, if◌then◌else◌, arith, inl, inr,
}
use doupro.Base.Int.{ℤ, pos}
use doupro.Store.Time.{Time}
use doupro.Store.Schedules.{Schedule, Schedules, list_schedules}
use doupro.Store.Candidates.{UpdateCandidate, get_update_candidate, detected}
use doupro.Store.Candidates.Rows.{IsDetected}
use doupro.Store.Candidates.Detected.{TableCall, call_replace, table_run, table_run-IsDetected}
use doupro.Store.Containers.{ContainerRecord}
use doupro.Updater.Guard.{new_operation_guard}
use doupro.Updater.Update.{Surroundings}
use doupro.Updater.Fixture.{engine, c1, target}
use doupro.Scheduler.{Daemon, Moment, Libraries, resolve_targets}
use doupro.Scheduler.Blockers.{self_update_blockers, schedule_blockers}
use doupro.Registry.Ref.{parse_ref, replace_tag}
use doupro.Registry.Ref.Replaced.{is_usual}
use doupro.Registry.Semver.{minor, parse_semantic_version, select_semver_candidates}
use doupro.Scheduler.Check.{Tags, Found, candidate_for}
use doupro.Scheduler.Check.Suits.{Suits, candidate_for-Suits}
use doupro.Scheduler.Targets.{IsAccepted}
use doupro.Scheduler.Ticks.{Tick, on_due, on_check, due_ticks, run_ticks, checked}
use doupro.Scheduler.Horizon.{IsClear, self_update_blockers-quiet}
use doupro.Scheduler.Sparing.{times, enabled_rows}
use doupro.Scheduler.Once.{due_ticks-times}

abbrev at_second : ℕ → Time
at_second n = record { second = n; nano = 0 }

abbrev day : ℤ
day = pos 86_400_000_000_000

abbrev lib : Libraries
lib = record {
  parse_duration = λ s. if text_eq s (codes "24h") then some day else none;
  next_cron_run = λ now s. none;
  stack_of = λ w r. [];
  excluded = λ w r. false;
}

abbrev moment : ℕ → Moment
moment n = record {
  clock = λ d. at_second n;
  answers = λ d q. true;
  check_minutes = λ d. none;
  check_interval = 1_800;
}

abbrev delayed : Schedule
delayed = record {
  id = 1;
  kind = codes "relative";
  container_name = codes "web";
  stack = [];
  run_at = none;
  cron_expr = [];
  relative_policy = codes "delayed";
  relative_after = codes "24h";
  semver_policy = [];
  pinned_image = [];
  notify = true;
  enabled = true;
  last_run_at = none;
  next_run_at = none;
  created_at = at_second 0;
}

abbrev one_off : Schedule
one_off = record delayed {
  id = 2;
  kind = codes "once";
  relative_policy = [];
  relative_after = [];
  pinned_image = target;
  run_at = some (at_second 1_000);
  next_run_at = some (at_second 1_000);
}

abbrev candidate : UpdateCandidate
candidate = record {
  container_id = c1;
  scope = codes "major";
  image = target;
  version = codes "2";
  detected_at = at_second 0;
}

abbrev row : ContainerRecord
row = record {
  id = c1;
  name = codes "web";
  state = codes "running";
  current_image = codes "web:1";
  previous_image = [];
  update_available = true;
}

abbrev around : Surroundings
around = record {
  engine = engine false;
  stores = λ w c. true;
  reads = λ w. true;
  crash_settings = λ w. (3, 10);
  now = λ w. at_second 100;
  trim_space = λ s. s;
  digest_parses = λ s. false;
}

abbrev daemon : Daemon
daemon = record {
  schedules = record { rows = delayed ∷ one_off ∷ []; last_id = 2 };
  candidates = candidate ∷ [];
  guard = new_operation_guard;
  world = record { log = []; writes = []; rows = row ∷ []; watches = [] };
  fired = [];
}

unblocked : self_update_blockers around lib (moment 100) (at_second 400) daemon ≡ some []
unfolding self_update_blockers schedule_blockers list_schedules resolve_targets get_update_candidate
unblocked = refl

delayed-IsAccepted : IsAccepted lib delayed
delayed-IsAccepted delay is_delayed e = ground arith

one_off-IsAccepted : IsAccepted lib one_off
one_off-IsAccepted delay is_delayed e = ground arith

-- A check that finds another version of the image, which the schedules leave alone before the horizon.
abbrev check : Daemon → Daemon
check d = record d { candidates = record candidate { image = codes "web:3" } ∷ [] }

unblocked_after :
    self_update_blockers around lib (moment 100) (at_second 400) (check daemon) ≡ some []
unfolding self_update_blockers schedule_blockers list_schedules resolve_targets get_update_candidate
unblocked_after = refl

clear :
    (d : Daemon)
    → self_update_blockers around lib (moment 100) (at_second 400) d ≡ some []
    → d.schedules ≡ daemon.schedules
    → IsClear around lib (moment 100) (at_second 400) d
unfolding list_schedules
clear d free same = record {
  unblocked = free;
  not_late = refl;
  gives = λ id scope. refl;
  accepted =
      subst (λ (s : Schedules). All (IsAccepted lib) (list_schedules s)) (sym same)
        (one_off-IsAccepted, (delayed-IsAccepted, tt));
}

abbrev ticks : List Tick
ticks = on_due (moment 130) ∷ on_check check (moment 140) ∷ on_due (moment 160) ∷ []

self_update_blockers-quiet_example : run_ticks around lib ticks daemon ≡ checked ticks daemon
self_update_blockers-quiet_example =
    self_update_blockers-quiet around lib (moment 100) (at_second 400) ticks daemon
      (clear daemon unblocked refl)
      (
        (omega arith, omega arith),
        (
          clear (check daemon) unblocked_after refl,
          (omega arith, omega arith),
          ((omega arith, omega arith), tt),
        ),
      )

due_ticks-times_example :
    times 2 (due_ticks around lib (moment 1_000 ∷ moment 1_030 ∷ []) daemon).fired
    ≤ times 2 daemon.fired + enabled_rows 2 daemon.schedules.rows
due_ticks-times_example =
    due_ticks-times around lib 2 (moment 1_000 ∷ moment 1_030 ∷ []) daemon
      ((λ e. ground arith), ((λ e. refl), tt)) (omega arith) ((λ e. refl), ((λ e. refl), tt))

abbrev later_checks : List TableCall
later_checks =
    call_replace (codes "c2") (candidate ∷ []) (at_second 10)
    ∷ call_replace c1 (candidate ∷ []) (at_second 20)
    ∷ []

c2_not_c1 : codes "c2" ≢ c1
c2_not_c1 e = ground arith

table_run-IsDetected_example :
    IsDetected c1
      (codes "major")
      target
      (detected target (at_second 5) (get_update_candidate c1 (codes "major") []))
      (table_run (call_replace c1 (candidate ∷ []) (at_second 5) ∷ later_checks) [])
table_run-IsDetected_example =
    table_run-IsDetected c1 (codes "major") target (at_second 5) (candidate ∷ []) later_checks []
      (refl, ((λ e. refl), tt)) (inl c2_not_c1, (inr (refl, ((λ e. refl), tt)), tt))

abbrev listed_tags : Tags
listed_tags = (codes "1.2.3", codes "sha256:1") ∷ (codes "1.3.0", codes "sha256:2") ∷ []

abbrev newer : Found
newer = record { image = codes "ghcr.io/acme/app:1.3.0"; version = codes "1.3.0" }

abbrev app : Text
app = codes "ghcr.io/acme/app:1.2.3"

newer_found :
    candidate_for app (codes "sha256:1" ∷ []) (codes "sha256:1") listed_tags minor ≡ some newer
unfolding candidate_for parse_ref replace_tag parse_semantic_version select_semver_candidates
newer_found = refl

app_usual : is_usual (parse_ref app) ≡ true
unfolding parse_ref
app_usual = refl

candidate_for-Suits_example :
    Suits app (codes "sha256:1" ∷ []) (codes "sha256:1") listed_tags minor newer
candidate_for-Suits_example =
    candidate_for-Suits app (codes "sha256:1" ∷ []) (codes "sha256:1") listed_tags minor newer
      app_usual newer_found
