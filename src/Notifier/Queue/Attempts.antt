-- ===== src/Notifier/Queue/Attempts.antt =====
-- How often a worker that always finishes tries to send a message.
use doupro.Base.{
  Bool, true, ◌&&◌, ◌||◌, ◌≡◌, refl, sym, ap, subst, Option, none, some, List, [], ◌∷◌, ℕ, zero,
  suc, ◌+◌, ◌≤◌, ◌<◌, Text, if◌then◌else◌, arith, All, All-append, get_elem?, Bool-cases, leb, inl,
  inr,
}
use doupro.Notifier.Channels.{NotificationJob}
use doupro.Notifier.Queue.{
  is_pending, is_over, Row, Status, pending, processing, sent, dead_letter, enqueued, enqueue,
  change_at, is_ready, claimed, claim, has_status, change_if, completed, complete, failed, fail,
  retried, retry, rows_after, is_processing, is_dead, settle, deliver_claimed, deliver_one, backoff,
  lease_seconds,
}
use doupro.Notifier.Queue.Claims.{claim-IsClaim, IsClaim}
use doupro.Store.Time.{stored_le, Time, add_seconds}

abbrev pub Within : Status → ℕ → ℕ → Type 0
Within pending attempts most = attempts < most
Within processing attempts most = ⊥
Within sent attempts most = (0 < attempts) × (attempts ≤ most)
Within dead_letter attempts most = attempts ≡ most

-- No row is being processed; a pending one has an attempt left, a sent one took no more than allowed,
-- and one is dead after exactly the last attempt.
abbrev pub IsBounded : Row → Type 0
IsBounded r = Within r.status r.attempts r.max_attempts × (0 < r.max_attempts)

-- What one worker does that finishes every delivery, and what the page and the events add.
pub data Act : Type 0 where
  act_enqueue : NotificationJob → Time → Act
  act_deliver : (NotificationJob → Option Text) → Time → Time → Act
  act_retry : ℕ → Time → Act

abbrev pub step : Act → List Row → List Row
step (act_enqueue job now) rows = enqueue job now rows
step (act_deliver send now done) rows = deliver_one send now done rows
step (act_retry i now) rows = rows_after (retry i now rows) rows

abbrev pub run : List Act → List Row → List Row
run [] rows = rows
run (a ∷ acts) rows = run acts (step a rows)

-- A change of one row keeps the bounds, if it does so for that row.
change_at-All :
    (rows : List Row) (i : ℕ) (f : Row → Row) (r : Row)
    → get_elem? rows i ≡ some r
    → IsBounded (f r)
    → All IsBounded rows
    → All IsBounded (change_at i f rows)
change_at-All [] i f r at h hs = cc
change_at-All (x ∷ rows) zero f r at h (_, hs) =
    (let same : x ≡ r = cc in subst (λ t. IsBounded (f t)) (sym same) h, hs)
change_at-All (x ∷ rows) (suc i) f r at h (b, hs) = (b, change_at-All rows i f r at h hs)

pub All-at :
    (rows : List Row) (i : ℕ) (r : Row)
    → get_elem? rows i ≡ some r
    → All IsBounded rows
    → IsBounded r
All-at [] i r at hs = cc
All-at (x ∷ rows) zero r at (b, hs) = let same : x ≡ r = cc in subst IsBounded same b
All-at (x ∷ rows) (suc i) r at (b, hs) = All-at rows i r at hs

change_at_twice :
    (rows : List Row) (i : ℕ) (f g : Row → Row)
    → change_at i g (change_at i f rows) ≡ change_at i (λ r. g (f r)) rows
change_at_twice [] i f g = refl
change_at_twice (x ∷ rows) zero f g = refl
change_at_twice (x ∷ rows) (suc i) f g = ap (λ t. x ∷ t) (change_at_twice rows i f g)

get_elem?-changed :
    (rows : List Row) (i : ℕ) (f : Row → Row) (r : Row)
    → get_elem? rows i ≡ some r
    → get_elem? (change_at i f rows) i ≡ some (f r)
get_elem?-changed [] i f r at = cc
get_elem?-changed (x ∷ rows) zero f r at = cc
get_elem?-changed (x ∷ rows) (suc i) f r at = get_elem?-changed rows i f r at

-- A claimed row is finished in its place.
pub finish_claimed :
    (now : Time) (lease i : ℕ) (f : Row → Row) (rows : List Row) (r : Row)
    → get_elem? rows i ≡ some r
    → rows_after
        (change_if is_processing i f (change_at i (claimed now lease) rows))
        (change_at i (claimed now lease) rows)
      ≡ change_at i (λ x. f (claimed now lease x)) rows
finish_claimed now lease i f rows r at =
    rw (get_elem?-changed rows i (claimed now lease) r at)
      (change_at_twice rows i (claimed now lease) f)

-- A row that is within its bounds and ready is pending, and one attempt more is within them.
pub claimed_within :
    (now : Time) (r : Row)
    → IsBounded r
    → is_ready now r ≡ true
    → (r.attempts < r.max_attempts) × (0 < r.max_attempts)
claimed_within now r (within, some_left) ready = (
  go r.status r.attempts r.max_attempts (stored_le r.next_attempt_at now)
      (is_over r.lease_until now) within ready,
  some_left,
)
  where
    go :
        (st : Status) (attempts most : ℕ) (due over : Bool)
        → Within st attempts most
        → ((is_pending st && due) || (is_processing st && over)) ≡ true
        → attempts < most
    go pending attempts most due over w h = w
    go processing attempts most due over w h = absurd w
    go sent attempts most due over w h = ground arith
    go dead_letter attempts most due over w h = ground arith

completed-IsBounded :
    (now done : Time) (lease : ℕ) (r : Row)
    → (r.attempts < r.max_attempts) × (0 < r.max_attempts)
    → IsBounded (completed done (claimed now lease r))
completed-IsBounded now done lease r (h, k) = ((omega arith, omega arith), k)

failed-IsBounded :
    (now retry_at : Time) (lease : ℕ) (error : Text) (r : Row)
    → (r.attempts < r.max_attempts) × (0 < r.max_attempts)
    → IsBounded (failed retry_at error (leb r.max_attempts (r.attempts + 1)) (claimed now lease r))
failed-IsBounded now retry_at lease error r (h, k) =
    elim (Bool-cases (leb r.max_attempts (r.attempts + 1))) [
      | inl last ↦ rw last (ground arith, k)
      | inr more ↦ rw more (ground arith, k)
    ]

settle-IsBounded :
    (now done : Time) (rows : List Row) (i : ℕ) (r : Row) (problem : Option Text)
    → get_elem? rows i ≡ some r
    → is_ready now r ≡ true
    → All IsBounded rows
    → All IsBounded (
        rows_after
          (settle i
            (claimed now lease_seconds r)
            done
            problem
            (change_at i (claimed now lease_seconds) rows))
          (change_at i (claimed now lease_seconds) rows))
unfolding complete fail
settle-IsBounded now done rows i r none at ready h =
    rw (finish_claimed now lease_seconds i (completed done) rows r at) (
      change_at-All rows i (λ x. completed done (claimed now lease_seconds x)) r at
        (completed-IsBounded now done lease_seconds r
          (claimed_within now r (All-at rows i r at h) ready))
        h)
settle-IsBounded now done rows i r (some error) at ready h =
    let retry_at = add_seconds (backoff (r.attempts + 1)) done in
    let dead = leb r.max_attempts (r.attempts + 1) in
    rw (finish_claimed now lease_seconds i (failed retry_at error dead) rows r at) (
      change_at-All rows i (λ x. failed retry_at error dead (claimed now lease_seconds x)) r at
        (failed-IsBounded now retry_at lease_seconds error r
          (claimed_within now r (All-at rows i r at h) ready))
        h)

pub deliver-IsBounded :
    (send : NotificationJob → Option Text) (now done : Time) (rows : List Row)
    (result : Option (ℕ × Row) × List Row)
    → IsClaim now lease_seconds rows result
    → All IsBounded rows
    → All IsBounded (deliver_claimed send done result)
deliver-IsBounded send now done rows (none, after) (_, same) h = subst (All IsBounded) (sym same) h
deliver-IsBounded send now done rows (some (i, taken), after) (r, at, ready, t, changed, _) h =
    rw (t, changed) (settle-IsBounded now done rows i r (send r.job) at ready h)

step-IsBounded : (a : Act) (rows : List Row) → All IsBounded rows → All IsBounded (step a rows)
unfolding enqueue deliver_one retry
step-IsBounded (act_enqueue job now) rows h =
    All-append IsBounded rows (enqueued job now ∷ []) h ((omega arith, omega arith), tt)
step-IsBounded (act_deliver send now done) rows h =
    deliver-IsBounded send now done rows (claim now lease_seconds rows)
      (claim-IsClaim now lease_seconds rows) h
step-IsBounded (act_retry i now) rows h = go (get_elem? rows i) refl
  where
    go :
        (found : Option Row)
        → get_elem? rows i ≡ found
        → All IsBounded (
            rows_after
              (if has_status is_dead found then some (change_at i (retried now) rows) else none)
              rows)
    go none e = h
    go (some r) e =
        let (_, some_left) = All-at rows i r e h in
        elim (Bool-cases (is_dead r.status)) [
          | inl dead ↦ rw dead (change_at-All rows i (retried now) r e (some_left, some_left) h)
          | inr other ↦ rw other h
        ]

-- However messages are queued, delivered with any outcome at any time and retried by hand, as long as
-- every delivery that is begun is finished: no message is attempted more often than its limit, it is
-- given up exactly at the limit, one that waits has an attempt left, and none is stuck in a lease.
pub run-IsBounded :
    (acts : List Act) (rows : List Row) → All IsBounded rows → All IsBounded (run acts rows)
run-IsBounded [] rows h = h
run-IsBounded (a ∷ acts) rows h = run-IsBounded acts (step a rows) (step-IsBounded a rows h)
