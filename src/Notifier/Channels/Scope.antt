-- ===== src/Notifier/Channels/Scope.antt =====
-- Which channels an event reaches.
use doupro.Base.{
  All, IsOneOf-self, text_eq_iff, true, false, ◌≡◌, ◌↔◌, refl, sym, subst, ◌⊎◌, inl, inr, List, [],
  ◌∷◌, Text, codes, starts_with, includes, if◌then◌else◌, arith, Bool-cases, IsOneOf,
}
use doupro.Notifier.Channels.{
  Channel, categorize, is_empty, matches, NotificationJob, job_for, notify,
}

-- The event is one that the channel takes: it has no filter, or the event is of a category in it or an
-- automatic rollback.
abbrev pub WantsEvent : Text → Channel → Type 0
WantsEvent event ch =
    (is_empty ch.events ≡ true)
    ⊎ (categorize event ≡ codes "rollback.auto")
    ⊎ (includes ch.events (categorize event) ≡ true)

-- The container or its stack is one that the channel takes: it has no filter, the event has neither, or
-- one of the two is in its filter.
abbrev pub InScope : Text → Text → Channel → Type 0
InScope container stack ch =
    ((is_empty ch.stacks ≡ true) × (is_empty ch.containers ≡ true))
    ⊎ ((is_empty container ≡ true) × (is_empty stack ≡ true))
    ⊎ ((is_empty stack ≡ false) × (includes ch.stacks stack ≡ true))
    ⊎ ((is_empty container ≡ false) × (includes ch.containers container ≡ true))

matches_iff :
    (event container stack : Text) (ch : Channel)
    → (matches event container stack ch ≡ true) ↔ (WantsEvent event ch × InScope container stack ch)
unfolding matches
matches_iff event container stack ch =
    ground (arith, text_eq_iff (categorize event) (codes "rollback.auto"))

categorize_rollback_auto :
    (event : Text)
    → starts_with (codes "rollback.auto") event ≡ true
    → categorize event ≡ codes "rollback.auto"
unfolding categorize
categorize_rollback_auto [] h = ground arith
categorize_rollback_auto (c ∷ s) h =
    let first : c ≡ 114 = ground (arith, h) in
    subst
      (λ d.
        starts_with (codes "rollback.auto") (d ∷ s) ≡ true
        → categorize (d ∷ s) ≡ codes "rollback.auto")
      (sym first) (λ k. rw k refl) h

-- An automatic rollback reaches every channel whose container filter lets it through, whatever events
-- the channel takes: if the event's name starts with `rollback.auto`, a stored channel in whose scope
-- the container or the stack is gets a job with the message and its own URL.
pub rollback_auto_reaches :
    (event container stack message : Text) (chs : List Channel) (ch : Channel)
    → starts_with (codes "rollback.auto") event ≡ true
    → IsOneOf chs ch
    → InScope container stack ch
    → IsOneOf (notify event container stack message chs) (job_for event container stack message ch)
unfolding notify
rollback_auto_reaches event container stack message [] ch auto m h = absurd m
rollback_auto_reaches event container stack message (c ∷ chs) ch auto (inl e) h =
    subst
      (λ d.
        IsOneOf
          (if matches event container stack d
            then job_for event container stack message d ∷ notify event container stack message chs
            else notify event container stack message chs)
          (job_for event container stack message ch))
      e
      (rw
        ((matches_iff event container stack ch).1
          (inr (inl (categorize_rollback_auto event auto)), h))
        (inl refl))
rollback_auto_reaches event container stack message (c ∷ chs) ch auto (inr m) h =
    ground (arith, rollback_auto_reaches event container stack message chs ch auto m h)

-- The job is the one for a stored channel that takes the event, and in whose scope it is.
abbrev pub IsWanted : Text → Text → Text → Text → List Channel → NotificationJob → Type 0
IsWanted event container stack message chs job =
    (ch : Channel) × IsOneOf chs ch
    × (job ≡ job_for event container stack message ch)
    × WantsEvent event ch
    × InScope container stack ch

notify_from-IsWanted :
    (event container stack message : Text) (chs more : List Channel)
    → All (IsOneOf chs) more
    → All (IsWanted event container stack message chs) (notify event container stack message more)
unfolding notify
notify_from-IsWanted event container stack message chs [] m = tt
notify_from-IsWanted event container stack message chs (ch ∷ more) (here, m) =
    elim (Bool-cases (matches event container stack ch)) [
      | inl reaches ↦ rw reaches (
        (
          ch,
          here,
          refl,
          ((matches_iff event container stack ch).0 reaches).0,
          ((matches_iff event container stack ch).0 reaches).1,
        ),
        notify_from-IsWanted event container stack message chs more m,
      )
      | inr skips ↦ rw skips (notify_from-IsWanted event container stack message chs more m)
    ]

-- Every job that an event leaves is for a stored channel that takes the event, and in whose scope its
-- container or stack is, and has that channel's URL.
notify-IsWanted :
    (event container stack message : Text) (chs : List Channel)
    → All (IsWanted event container stack message chs) (notify event container stack message chs)
notify-IsWanted event container stack message chs =
    notify_from-IsWanted event container stack message chs chs (IsOneOf-self chs)
