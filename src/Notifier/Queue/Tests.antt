-- ===== src/Notifier/Queue/Tests.antt =====
-- Runs of the queue of notifications.
use doupro.Base.{
  true, ◌≡◌, refl, Option, arith, none, some, List, [], ◌∷◌, ℕ, Text, codes, All, get_elem?,
}
use doupro.Notifier.Channels.{NotificationJob}
use doupro.Notifier.Queue.{Row, enqueued, claim, completed, claimed, backoff}
use doupro.Notifier.Queue.Claims.{claim-IsClaim, IsClaim}
use doupro.Notifier.Queue.Final.{
  Call, call_enqueue, call_claim, call_complete, call_fail, call_retry, run-sent,
}
use doupro.Notifier.Queue.Final
use doupro.Notifier.Queue.Attempts.{
  Act, act_enqueue, act_deliver, act_retry, run-IsBounded, IsBounded,
}
use doupro.Notifier.Queue.Attempts
use doupro.Notifier.Queue.Drain.{Turn, drain, Waits, drain-Waits}
use doupro.Store.Time.{Time, stored_le, fraction}

abbrev at_second : ℕ → Time
at_second s = record { second = s; nano = 0 }

abbrev job : Text → NotificationJob
job message = record {
  event = codes "update.succeeded";
  target = codes "db";
  stack = codes "web";
  channel = codes "chat";
  channel_url = codes "slack://x";
  message = message;
}

abbrev two_rows : List Row
two_rows =
    enqueued (job (codes "second")) (at_second 20)
    ∷ enqueued (job (codes "first")) (at_second 10)
    ∷ []

backoff_doubles : (backoff 1 ≡ 60) × (backoff 2 ≡ 120) × (backoff 6 ≡ 1_920) × (backoff 7 ≡ 3_600)
unfolding backoff
backoff_doubles = (refl, refl, refl, refl)

claims_oldest :
    (claim (at_second 30) 120 two_rows).0
    ≡ some (1, claimed (at_second 30) 120 (enqueued (job (codes "first")) (at_second 10)))
unfolding claim stored_le fraction
claims_oldest = refl

claim-IsClaim_example : IsClaim (at_second 30) 120 two_rows (claim (at_second 30) 120 two_rows)
claim-IsClaim_example = claim-IsClaim (at_second 30) 120 two_rows

abbrev sent_row : Row
sent_row =
    completed (at_second 31)
      (claimed (at_second 30) 120 (enqueued (job (codes "first")) (at_second 10)))

-- A second worker, whose lease was over, fails after the first one has sent the message.
abbrev late_calls : List Call
late_calls =
    call_fail 0 (at_second 90) (codes "timeout") true
    ∷ call_retry 0 (at_second 95)
    ∷ call_enqueue (job (codes "third")) (at_second 96)
    ∷ call_claim (at_second 200) 120
    ∷ call_complete 0 (at_second 201)
    ∷ []

run-sent_example : get_elem? (Final.run late_calls (sent_row ∷ [])) 0 ≡ some sent_row
run-sent_example = run-sent late_calls (sent_row ∷ []) 0 sent_row refl refl

abbrev acts : List Act
acts =
    act_enqueue (job (codes "first")) (at_second 10)
    ∷ act_deliver (λ _. some (codes "refused")) (at_second 11) (at_second 12)
    ∷ act_deliver (λ _. none) (at_second 100) (at_second 101)
    ∷ []

run-IsBounded_example : All IsBounded (Attempts.run acts [])
run-IsBounded_example = run-IsBounded acts [] tt

abbrev turn : ℕ → Option Text → Turn
turn second problem = record {
  send = λ j. problem;
  now = at_second second;
  done = at_second second;
}

abbrev one_left : Row
one_left = record (enqueued (job (codes "first")) (at_second 10)) { attempts = 5 }

drain-Waits_example :
    Waits (drain (turn 30 (some (codes "timeout")) ∷ turn 31 none ∷ []) (one_left ∷ []))
drain-Waits_example =
    drain-Waits (turn 30 (some (codes "timeout")) ∷ turn 31 none ∷ []) (one_left ∷ [])
      ((omega arith, omega arith), tt) (omega arith)
