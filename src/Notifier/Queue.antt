-- ===== src/Notifier/Queue.antt =====
-- The queue of internal/store/notification_queue.go and its worker, `deliverOne` and `backoff` of
-- internal/notifier/notifier.go. A transaction is one step, and a failure of the database is left
-- out. The `id` of a row is its place in the table, as rows are added at the end and never removed; the
-- URL is encrypted in the table only, and the columns `created_at` and `updated_at`, the log of deliveries
-- and the metrics are left out.
pub mod Order
pub mod Claims
pub mod Final
pub mod Attempts
pub mod Drain
mod Tests
use doupro.Base.{
  Bool, true, false, not, ◌&&◌, ◌||◌, ◌≡◌, Option, none, some, List, [], ◌∷◌, ◌++◌, ℕ, zero, suc,
  ◌+◌, ◌-◌, ◌*◌, Text, codes, if◌then◌else◌, ltb, leb, ◌==◌, get_elem?,
}
use doupro.Notifier.Channels.{NotificationJob}
use doupro.Store.Time.{Time, add_seconds, stored_le}

pub data Status : Type 0 where
  pending processing sent dead_letter : Status

pub record Row : Type 0 where
  pub job : NotificationJob
  pub status : Status
  pub attempts : ℕ
  pub max_attempts : ℕ
  pub next_attempt_at : Time
  pub lease_until : Option Time
  pub last_error : Text
  pub sent_at : Option Time

abbrev pub default_max_attempts : ℕ
default_max_attempts = 6

-- `EnqueueNotification` at `now`, for a job whose `MaxAttempts` and `NextAttemptAt` are not set.
abbrev pub enqueued : NotificationJob → Time → Row
enqueued job now = record {
  job = job;
  status = pending;
  attempts = 0;
  max_attempts = default_max_attempts;
  next_attempt_at = now;
  lease_until = none;
  last_error = [];
  sent_at = none;
}

unfoldable pub enqueue : NotificationJob → Time → List Row → List Row
enqueue job now rows = rows ++ (enqueued job now ∷ [])

-- `UPDATE … WHERE id = ?`
abbrev pub change_at : ℕ → (Row → Row) → List Row → List Row
change_at i f [] = []
change_at zero f (r ∷ rs) = f r ∷ rs
change_at (suc i) f (r ∷ rs) = r ∷ change_at i f rs

abbrev pub is_over : Option Time → Time → Bool
is_over none now = false
is_over (some until) now = stored_le until now

abbrev pub is_pending : Status → Bool
is_pending pending = true
is_pending _ = false

abbrev pub is_processing : Status → Bool
is_processing processing = true
is_processing _ = false

abbrev pub is_dead : Status → Bool
is_dead dead_letter = true
is_dead _ = false

-- The `WHERE` of the inner query.
abbrev pub is_ready : Time → Row → Bool
is_ready now r =
    (is_pending r.status && stored_le r.next_attempt_at now)
    || (is_processing r.status && is_over r.lease_until now)

abbrev pub sooner : ℕ → Row → Option (ℕ × Row) → Option (ℕ × Row)
sooner i r none = some (i, r)
sooner i r (some (j, s)) =
    if stored_le r.next_attempt_at s.next_attempt_at then some (i, r) else some (j, s)

-- `ORDER BY next_attempt_at, id LIMIT 1` over the ready rows; `i` is the `id` of the first row.
abbrev pub earliest : Time → ℕ → List Row → Option (ℕ × Row)
earliest now i [] = none
earliest now i (r ∷ rs) =
    let rest = earliest now (suc i) rs in if is_ready now r then sooner i r rest else rest

abbrev pub claimed : Time → ℕ → Row → Row
claimed now lease r = record r {
  status = processing;
  attempts = r.attempts + 1;
  lease_until = some (add_seconds lease now);
}

abbrev pub claim_found : Time → ℕ → Option (ℕ × Row) → List Row → Option (ℕ × Row) × List Row
claim_found now lease none rows = (none, rows)
claim_found now lease (some (i, r)) rows =
    (some (i, claimed now lease r), change_at i (claimed now lease) rows)

-- `ClaimNotification`, with the lease in seconds.
unfoldable pub claim : Time → ℕ → List Row → Option (ℕ × Row) × List Row
claim now lease rows = claim_found now lease (earliest now 0 rows) rows

abbrev pub has_status : (Status → Bool) → Option Row → Bool
has_status p none = false
has_status p (some r) = p r.status

-- `UPDATE … WHERE id = ? AND status = …`, and `none` where it changes no row.
abbrev pub change_if : (Status → Bool) → ℕ → (Row → Row) → List Row → Option (List Row)
change_if p i f rows = if has_status p (get_elem? rows i) then some (change_at i f rows) else none

abbrev pub completed : Time → Row → Row
completed at r = record r { status = sent; sent_at = some at; lease_until = none; last_error = [] }

unfoldable pub complete : ℕ → Time → List Row → Option (List Row)
complete i at rows = change_if is_processing i (completed at) rows

abbrev pub failed : Time → Text → Bool → Row → Row
failed retry_at error dead r = record r {
  status = if dead then dead_letter else pending;
  next_attempt_at = retry_at;
  lease_until = none;
  last_error = error;
}

unfoldable pub fail : ℕ → Time → Text → Bool → List Row → Option (List Row)
fail i retry_at error dead rows = change_if is_processing i (failed retry_at error dead) rows

abbrev pub retried : Time → Row → Row
retried now r = record r {
  status = pending;
  attempts = 0;
  next_attempt_at = now;
  lease_until = none;
  last_error = [];
}

unfoldable pub retry : ℕ → Time → List Row → Option (List Row)
retry i now rows = change_if is_dead i (retried now) rows

-- The rows after a call that may fail, which then changes nothing.
abbrev pub rows_after : Option (List Row) → List Row → List Row
rows_after none rows = rows
rows_after (some changed) rows = changed

abbrev pub doubled : ℕ → ℕ → ℕ
doubled zero d = d
doubled (suc n) d = doubled n (d * 2)

-- `backoff`, in seconds, from a base of a minute and below an hour, for attempts whose delay a
-- `Duration` holds (below 28).
unfoldable pub backoff : ℕ → ℕ
backoff attempt = let d = doubled (attempt - 1) 60 in if ltb 3600 d then 3600 else d

-- What a delivery does to the claimed row: `none` is a message that was sent.
abbrev pub settle : ℕ → Row → Time → Option Text → List Row → Option (List Row)
settle i r done none rows = complete i done rows
settle i r done (some error) rows =
    fail i (add_seconds (backoff r.attempts) done) error (leb r.max_attempts r.attempts) rows

abbrev pub deliver_claimed :
    (NotificationJob → Option Text) → Time → Option (ℕ × Row) × List Row → List Row
deliver_claimed send done (none, rows) = rows
deliver_claimed send done (some (i, r), rows) = rows_after (settle i r done (send r.job) rows) rows

-- The two minutes of a lease.
abbrev pub lease_seconds : ℕ
lease_seconds = 120

-- `deliverOne`, with the times at which it claims and finishes; `send` is the error of a delivery.
unfoldable pub deliver_one : (NotificationJob → Option Text) → Time → Time → List Row → List Row
deliver_one send now done rows = deliver_claimed send done (claim now lease_seconds rows)
