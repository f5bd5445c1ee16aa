-- ===== src/Notifier/Queue/Drain.antt =====
-- The inner loop of `Run` of internal/notifier/notifier.go: the worker delivers again at once as long as
-- there was a message to deliver, and else waits for its ticker.
use doupro.Base.{
  Bool, true, false, ◌≡◌, refl, sym, subst, Option, none, some, List, [], ◌∷◌, ℕ, zero, suc, ◌+◌,
  ◌-◌, ◌<◌, Text, if◌then◌else◌, leb, arith, ◌&&◌, ◌||◌, if_both, All, get_elem?, length,
}
use doupro.Notifier.Channels.{NotificationJob}
use doupro.Notifier.Queue.{
  Row, Status, pending, processing, sent, dead_letter, is_pending, is_processing, is_over,
  change_at, is_ready, claimed, claim, complete, completed, fail, failed, backoff, rows_after,
  settle, deliver_claimed, deliver_one, lease_seconds,
}
use doupro.Notifier.Queue.Claims.{IsClaim, claim-IsClaim}
use doupro.Notifier.Queue.Attempts.{
  IsBounded, Within, finish_claimed, All-at, claimed_within, deliver-IsBounded,
}
use doupro.Store.Time.{Time, add_seconds, stored_le}

-- A turn of the loop: how messages are sent, and when it claims and finishes.
pub record Turn : Type 0 where
  pub send : NotificationJob → Option Text
  pub now : Time
  pub done : Time

abbrev is_claimed : Option (ℕ × Row) → Bool
is_claimed none = false
is_claimed (some found) = true

-- Whether `deliverOne` reports that it worked.
abbrev worked : Turn → List Row → Bool
worked t rows = is_claimed (claim t.now lease_seconds rows).0

-- The loop over so many turns, until it waits: the time of its last claim and the rows, or `none` if it
-- has not come to wait.
unfoldable pub drain : List Turn → List Row → Option (Time × List Row)
drain [] rows = none
drain (t ∷ ts) rows =
    let rest = drain ts (deliver_one t.send t.now t.done rows) in
    if worked t rows then rest else some (t.now, rows)

-- The attempts that the waiting messages have left.
abbrev attempts_left : List Row → ℕ
attempts_left [] = 0
attempts_left (r ∷ rs) =
    (if is_pending r.status then r.max_attempts - r.attempts else 0) + attempts_left rs

-- A change of a row that leaves it fewer attempts leaves fewer in all.
attempts_left-change :
    (rows : List Row) (i : ℕ) (f : Row → Row) (r : Row)
    → get_elem? rows i ≡ some r
    → attempts_left (f r ∷ []) < attempts_left (r ∷ [])
    → attempts_left (change_at i f rows) < attempts_left rows
attempts_left-change [] i f r at lt = cc
attempts_left-change (x ∷ rows) zero f r at lt =
    let same : x ≡ r = cc in
    omega (arith, subst (λ y. attempts_left (f y ∷ []) < attempts_left (y ∷ [])) (sym same) lt)
attempts_left-change (x ∷ rows) (suc i) f r at lt =
    omega (arith, attempts_left-change rows i f r at lt)

-- A row that is within its bounds and ready is pending.
ready_pending :
    (now : Time) (r : Row) → IsBounded r → is_ready now r ≡ true → is_pending r.status ≡ true
ready_pending now r bounded ready =
    go r.status r.attempts r.max_attempts (stored_le r.next_attempt_at now)
      (is_over r.lease_until now) bounded.0 ready
  where
    go :
        (st : Status) (attempts most : ℕ) (due over : Bool)
        → Within st attempts most
        → ((is_pending st && due) || (is_processing st && over)) ≡ true
        → is_pending st ≡ true
    go pending attempts most due over w h = refl
    go processing attempts most due over w h = absurd w
    go sent attempts most due over w h = ground arith
    go dead_letter attempts most due over w h = ground arith

-- A delivered row has fewer attempts left, whether its message was sent or not.
completed_left :
    (now done : Time) (r : Row)
    → is_pending r.status ≡ true
    → r.attempts < r.max_attempts
    → attempts_left (completed done (claimed now lease_seconds r) ∷ []) < attempts_left (r ∷ [])
completed_left now done r waits_ lt = rw waits_ (omega arith)

failed_left :
    (now retry_at : Time) (error : Text) (dead : Bool) (r : Row)
    → is_pending r.status ≡ true
    → r.attempts < r.max_attempts
    → attempts_left (failed retry_at error dead (claimed now lease_seconds r) ∷ [])
      < attempts_left (r ∷ [])
failed_left now retry_at error true r waits_ lt = rw waits_ (omega arith)
failed_left now retry_at error false r waits_ lt = rw waits_ (omega arith)

settle_left :
    (now done : Time) (rows : List Row) (i : ℕ) (r : Row) (problem : Option Text)
    → get_elem? rows i ≡ some r
    → is_ready now r ≡ true
    → All IsBounded rows
    → attempts_left (
        rows_after
          (settle i
            (claimed now lease_seconds r)
            done
            problem
            (change_at i (claimed now lease_seconds) rows))
          (change_at i (claimed now lease_seconds) rows))
      < attempts_left rows
unfolding complete fail
settle_left now done rows i r none at ready h =
    let bounded = All-at rows i r at h in
    rw (finish_claimed now lease_seconds i (completed done) rows r at) (
      attempts_left-change rows i (λ x. completed done (claimed now lease_seconds x)) r at
        (completed_left now done r (ready_pending now r bounded ready)
          (claimed_within now r bounded ready).0))
settle_left now done rows i r (some error) at ready h =
    let bounded = All-at rows i r at h in
    let retry_at = add_seconds (backoff (r.attempts + 1)) done in
    let dead = leb r.max_attempts (r.attempts + 1) in
    rw (finish_claimed now lease_seconds i (failed retry_at error dead) rows r at) (
      attempts_left-change rows i (λ x. failed retry_at error dead (claimed now lease_seconds x)) r
        at
        (failed_left now retry_at error dead r (ready_pending now r bounded ready)
          (claimed_within now r bounded ready).0))

deliver_left :
    (send : NotificationJob → Option Text) (now done : Time) (rows : List Row)
    (result : Option (ℕ × Row) × List Row)
    → IsClaim now lease_seconds rows result
    → All IsBounded rows
    → is_claimed result.0 ≡ true
    → attempts_left (deliver_claimed send done result) < attempts_left rows
deliver_left send now done rows (none, after) claim_ h was = absurd (ground arith)
deliver_left send now done rows (some (i, taken), after) (r, at, ready, t, changed, _) h was =
    rw (t, changed) (settle_left now done rows i r (send r.job) at ready h)

idle_ready :
    (now : Time) (rows : List Row) (result : Option (ℕ × Row) × List Row)
    → IsClaim now lease_seconds rows result
    → is_claimed result.0 ≡ false
    → All (λ x. is_ready now x ≡ false) rows
idle_ready now rows (none, after) (unready, same) was = unready
idle_ready now rows (some found, after) claim_ was = absurd (ground arith)

-- The loop comes to wait, at a time at which no message was ready.
abbrev pub Waits : Option (Time × List Row) → Type 0
Waits none = ⊥
Waits (some (now, rows)) = All (λ x. is_ready now x ≡ false) rows × All IsBounded rows

-- The loop never delivers for ever: whatever becomes of the messages, and however the clock runs, it
-- comes to wait after at most as many deliveries as the waiting messages have attempts left, and then
-- no message was ready. Nothing is queued or retried by hand in the meantime, and one worker runs.
pub drain-Waits :
    (ts : List Turn) (rows : List Row)
    → All IsBounded rows
    → attempts_left rows < length ts
    → Waits (drain ts rows)
unfolding drain deliver_one
drain-Waits [] rows h lt = absurd (omega arith)
drain-Waits (t ∷ ts) rows h lt =
    let result = claim t.now lease_seconds rows in
    let is_claim = claim-IsClaim t.now lease_seconds rows in
    if_both Waits (worked t rows)
      (λ was.
        drain-Waits ts (deliver_claimed t.send t.done result)
          (deliver-IsBounded t.send t.now t.done rows result is_claim h)
          (omega (arith, deliver_left t.send t.now t.done rows result is_claim h was)))
      (λ was. (idle_ready t.now rows result is_claim was, h))
