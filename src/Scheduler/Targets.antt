-- ===== src/Scheduler/Targets.antt =====
-- What the absence of blockers says of the targets of a relative schedule.
use doupro.Base.{
  true, false, ◌≡◌, ◌≢◌, refl, ◌⊎◌, inl, inr, ◌<◌, Option, none, some, List, [], ◌∷◌, Text, codes,
  text_eq, arith, Bool-cases,
}
use doupro.Base.Int.{ℤ}
use doupro.Store.Time.{Time, before, stored_le}
use doupro.Store.Schedules.{Schedule, is_due_at}
use doupro.Store.Candidates.{UpdateCandidate}
use doupro.Store.Containers.{ContainerRecord, Containers}
use doupro.Updater.Update.{Surroundings}
use doupro.Scheduler.{
  Daemon, Moment, Libraries, skipped, candidate_of, before_shifted, is_positive, scope_of,
  resolve_targets, read_candidate, is_eligible, apply_target, apply_candidate, delay_of,
}
use doupro.Scheduler.Blockers.{
  Blocker, joined, runs_by, delayed_blockers, parsed_blockers, target_blockers,
}

-- No blocker among both means none in either.
pub joined-nil :
    (a b : Option (List Blocker)) → joined a b ≡ some [] → (a ≡ some []) × (b ≡ some [])
joined-nil none b h = absurd (ground arith)
joined-nil (some bs) none h = absurd (ground arith)
joined-nil (some []) (some cs) h = (refl, h)
joined-nil (some (c ∷ bs)) (some cs) h = absurd (ground arith)

pub not_due :
    (now horizon : Time) (next : Option Time)
    → now.second < horizon.second
    → runs_by horizon next ≡ false
    → is_due_at now next ≡ false
unfolding stored_le
not_due now horizon none lt h = refl
not_due now horizon (some t) lt h = ground arith

-- An instant of a second before the horizon's.
abbrev pub IsWithin : Time → Time → Type 0
IsWithin horizon now = (now.second < horizon.second) × (now.nano < 1_000_000_000)

-- What is shifted behind the horizon is behind every earlier instant.
before_shifted_earlier :
    (now horizon t : Time) (delay : ℤ)
    → IsWithin horizon now
    → before_shifted horizon t delay ≡ true
    → before_shifted now t delay ≡ true
before_shifted_earlier now horizon t delay b h = ground arith

nonempty : (b : Blocker) (bs : List Blocker) → (some (b ∷ bs)) ≢ (some [])
nonempty b bs e = ground arith

-- What the API accepts: the delay of a delayed policy is above zero.
abbrev pub IsAccepted : Libraries → Schedule → Type 0
IsAccepted lib sc =
    (delay : ℤ)
    → text_eq sc.relative_policy (codes "delayed") ≡ true
    → lib.parse_duration sc.relative_after ≡ some delay
    → is_positive delay ≡ true

-- The store gives every candidate that it is asked for.
abbrev pub GivesCandidates : Moment → Daemon → Type 0
GivesCandidates m d = (id scope : Text) → m.answers d (candidate_of id scope) ≡ true

module _ (x : Surroundings) (lib : Libraries) (m m' : Moment) (d : Daemon)
    (now horizon : Time) where
  read-same :
      (id scope : Text)
      → GivesCandidates m d
      → (read_candidate x lib m' id scope d ≡ none)
        ⊎ (read_candidate x lib m' id scope d ≡ read_candidate x lib m id scope d)
  read-same id scope gives = ground (arith, gives id scope)

  pub resolve-same :
      (sc : Schedule) (rs : Containers)
      → resolve_targets x lib m sc d ≡ some rs
      → (resolve_targets x lib m' sc d ≡ none) ⊎ (resolve_targets x lib m' sc d ≡ some rs)
  unfolding resolve_targets
  resolve-same sc rs h = ground arith

  candidate-skipped :
      (sc : Schedule) (rec : ContainerRecord) (delay : ℤ) (o o' : Option UpdateCandidate)
      → IsWithin horizon (m'.clock d)
      → is_positive delay ≡ true
      → delayed_blockers x lib m horizon sc rec delay o ≡ []
      → (o' ≡ none) ⊎ (o' ≡ o)
      → apply_candidate x lib m' sc delay rec o' d ≡ (skipped, d)
  candidate-skipped sc rec delay o none within positive h same = refl
  candidate-skipped sc rec delay none (some c) within positive h same = absurd (ground arith)
  candidate-skipped sc rec delay (some c) (some c') within positive h same =
      let later = before_shifted_earlier (m'.clock d) horizon c'.detected_at delay within in
      let shifted : before_shifted horizon c'.detected_at delay ≡ true =
        elim (Bool-cases (before_shifted horizon c'.detected_at delay)) [
          | inl e ↦ e
          | inr e ↦ absurd (ground arith)
        ] in
      rw positive (rw (later shifted) refl)

  delayed-skipped :
      (sc : Schedule) (rec : ContainerRecord) (delay : ℤ)
      → IsWithin horizon (m'.clock d)
      → GivesCandidates m d
      → is_positive delay ≡ true
      → parsed_blockers x lib m horizon sc rec (some delay) d ≡ some []
      → apply_candidate x lib m' sc delay rec (read_candidate x lib m' rec.id (scope_of sc) d) d
        ≡ (skipped, d)
  delayed-skipped sc rec delay within gives positive h =
      let bs =
        delayed_blockers x lib m horizon sc rec delay
          (read_candidate x lib m rec.id (scope_of sc) d) in
      candidate-skipped sc rec delay (read_candidate x lib m rec.id (scope_of sc) d)
        (read_candidate x lib m' rec.id (scope_of sc) d) within positive (some_injective bs [] h)
        (read-same rec.id (scope_of sc) gives)
    where
      some_injective : (a b : List Blocker) → some a ≡ some b → a ≡ b
      some_injective a b e = ground arith

  pub target-skipped :
      (sc : Schedule) (rec : ContainerRecord) (delay : ℤ)
      → IsWithin horizon (m'.clock d)
      → GivesCandidates m d
      → before horizon now ≡ false
      → IsAccepted lib sc
      → delay_of x lib m' sc ≡ some delay
      → target_blockers x lib m now horizon sc rec d ≡ some []
      → apply_target x lib m' sc delay rec d ≡ (skipped, d)
  unfolding apply_target
  target-skipped sc rec delay within gives not_late accepted is_delay h =
      elim (Bool-cases (is_eligible x lib m d rec)) [
        | inr idle ↦ rw idle refl
        | inl eligible ↦ elim (Bool-cases (text_eq sc.relative_policy (codes "delayed"))) [
          | inr at_once ↦ absurd (ground arith)
          | inl delayed ↦
              let parses : lib.parse_duration sc.relative_after ≡ some delay = ground arith in
              let none_found : parsed_blockers x lib m horizon sc rec (some delay) d ≡ some [] =
                ground arith in
              rw eligible (
                delayed-skipped sc rec delay within gives (accepted delay delayed parses)
                  none_found)
        ]
      ]
