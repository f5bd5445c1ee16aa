-- ===== src/Notifier/Channels.antt =====
-- `Channel`, `categorize`, `matches`, `SetChannels`, `PublicChannels` and `Notify` of
-- internal/notifier/notifier.go. The stored list is the setting's document, which is read back as it was
-- written.
pub mod Scope
pub mod Urls
use doupro.Base.{
  Bool, true, false, not, ◌&&◌, ◌||◌, Option, none, some, List, [], ◌∷◌, ◌++◌, ℕ, Text, codes,
  text_eq, starts_with, includes, if◌then◌else◌, length, ◌==◌,
}

pub record Channel : Type 0 where
  pub name : Text
  pub url : Text
  pub events : List Text
  pub stacks : List Text
  pub containers : List Text
  pub configured : Bool
  pub provider : Text

abbrev pub is_schedule_change : Text → Bool
is_schedule_change e =
    text_eq e (codes "schedule.created")
    || text_eq e (codes "schedule.modified")
    || text_eq e (codes "schedule.cancelled")

-- The cases of the `switch` of `categorize`, in their order.
abbrev pub first_case : List (Bool × Text) → Text → Text
first_case [] other = other
first_case ((b, category) ∷ cases) other =
    let rest = first_case cases other in if b then category else rest

unfoldable pub categorize : Text → Text
categorize e =
    first_case
      ((text_eq e (codes "update.available"), codes "update.available")
        ∷ (text_eq e (codes "update.succeeded"), codes "update.applied")
        ∷ (starts_with (codes "update.") e, codes "update.failed")
        ∷ (starts_with (codes "rollback.auto") e, codes "rollback.auto")
        ∷ (starts_with (codes "rollback.manual") e, codes "rollback.manual")
        ∷ (is_schedule_change e, codes "schedule.changed")
        ∷ (text_eq e (codes "schedule.executed"), codes "schedule.executed")
        ∷ (text_eq e (codes "check.failed"), codes "check.failed")
        ∷ [])
      e

abbrev pub is_empty {ℓ} : {A : Type ℓ} → List A → Bool
is_empty [] = true
is_empty (x ∷ xs) = false

unfoldable pub matches : Text → Text → Text → Channel → Bool
matches event container stack ch =
    let category = categorize event in
    if not (is_empty ch.events)
      && not (text_eq category (codes "rollback.auto"))
      && not (includes ch.events category)
    then false
    else if is_empty ch.stacks && is_empty ch.containers
    then true
    else if is_empty container && is_empty stack
    then true
    else if not (is_empty stack) && includes ch.stacks stack
    then true
    else not (is_empty container) && includes ch.containers container

-- What `Notify` enqueues for a channel.
pub record NotificationJob : Type 0 where
  pub event : Text
  pub target : Text
  pub stack : Text
  pub channel : Text
  pub channel_url : Text
  pub message : Text

abbrev pub job_for : Text → Text → Text → Text → Channel → NotificationJob
job_for event target stack message ch = record {
  event = event;
  target = target;
  stack = stack;
  channel = ch.name;
  channel_url = ch.url;
  message = message;
}

-- `Notify`: the jobs that it hands to `EnqueueNotification`, each of which may fail there.
unfoldable pub notify : Text → Text → Text → Text → List Channel → List NotificationJob
notify event target stack message [] = []
notify event target stack message (ch ∷ chs) =
    let rest = notify event target stack message chs in
    if matches event target stack ch then job_for event target stack message ch ∷ rest else rest

abbrev pub has_name : Text → List Channel → Bool
has_name name [] = false
has_name name (ch ∷ chs) = if text_eq ch.name name then true else has_name name chs

-- The map `byName`: of two channels of one name, the later one counts.
abbrev pub by_name : Text → List Channel → Text
by_name name [] = []
by_name name (ch ∷ chs) =
    let later = by_name name chs in
    if has_name name chs then later else if text_eq ch.name name then ch.url else []

abbrev pub at_position : List Channel → Text
at_position [] = []
at_position (ch ∷ chs) = ch.url

abbrev pub or_url : Text → Text → Text
or_url [] other = other
or_url (c ∷ s) other = c ∷ s

-- What `SetChannels` stores, or the name of the channel that lacks a URL.
pub data Saved : Type 0 where
  saved : List Channel → Saved
  channel_needs_url : Text → Saved

abbrev pub keep_before : Channel → Saved → Saved
keep_before ch (saved chs) = saved (ch ∷ chs)
keep_before ch (channel_needs_url name) = channel_needs_url name

-- The URL of an entry: its own, the one by name, or, if the lengths agree, the one at its position.
abbrev pub resolve : List Channel → Bool → List Channel → Channel → Text
resolve existing same_positions here ch =
    let url = or_url ch.url (by_name ch.name existing) in
    if same_positions then or_url url (at_position here) else url

abbrev pub rest_of : List Channel → List Channel
rest_of [] = []
rest_of (ch ∷ chs) = chs

-- The loop of `SetChannels`; `here` is the stored list from the entry's position on.
abbrev pub set_from : List Channel → Bool → List Channel → List Channel → Saved
set_from existing same_positions here [] = saved []
set_from existing same_positions here (ch ∷ chs) =
    let url = resolve existing same_positions here ch in
    let rest = set_from existing same_positions (rest_of here) chs in
    if is_empty url
    then channel_needs_url ch.name
    else keep_before (record ch { url = url; configured = false; provider = [] }) rest

unfoldable pub set_channels : List Channel → List Channel → Saved
set_channels existing channels =
    set_from existing (length channels == length existing) existing channels

-- `strings.SplitN(url, "://", 2)[0]`
abbrev pub scheme_of : Text → Text
scheme_of [] = []
scheme_of (c ∷ s) =
    let rest = scheme_of s in if starts_with (codes "://") (c ∷ s) then [] else c ∷ rest

abbrev pub public_channel : Channel → Channel
public_channel ch = record ch { url = []; configured = true; provider = scheme_of ch.url }

unfoldable pub public_channels : List Channel → List Channel
public_channels [] = []
public_channels (ch ∷ chs) = public_channel ch ∷ public_channels chs
