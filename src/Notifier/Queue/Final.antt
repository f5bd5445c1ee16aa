-- ===== src/Notifier/Queue/Final.antt =====
-- What becomes of a message that was sent.
use doupro.Base.{
  Bool, true, false, ◌≡◌, inl, inr, refl, ap, ◌∙◌, Option, none, some, List, [], ◌∷◌, ◌++◌, ℕ, zero,
  suc, Text, if◌then◌else◌, get_elem?, Bool-cases,
}
use doupro.Notifier.Channels.{NotificationJob}
use doupro.Notifier.Queue.{
  Row, Status, sent, enqueued, enqueue, change_at, is_ready, claimed, claim, has_status, change_if,
  completed, complete, failed, fail, retried, retry, rows_after, is_processing, is_dead,
}
use doupro.Notifier.Queue.Claims.{claim-IsClaim, IsClaim}
use doupro.Store.Time.{Time}

-- The calls that change the table, by any number of workers.
pub data Call : Type 0 where
  call_enqueue : NotificationJob → Time → Call
  call_claim : Time → ℕ → Call
  call_complete : ℕ → Time → Call
  call_fail : ℕ → Time → Text → Bool → Call
  call_retry : ℕ → Time → Call

abbrev pub step : Call → List Row → List Row
step (call_enqueue job now) rows = enqueue job now rows
step (call_claim now lease) rows = (claim now lease rows).1
step (call_complete i at) rows = rows_after (complete i at rows) rows
step (call_fail i retry_at error dead) rows = rows_after (fail i retry_at error dead rows) rows
step (call_retry i now) rows = rows_after (retry i now rows) rows

abbrev pub run : List Call → List Row → List Row
run [] rows = rows
run (c ∷ cs) rows = run cs (step c rows)

get_elem?-append :
    (rows more : List Row) (i : ℕ) (r : Row)
    → get_elem? rows i ≡ some r
    → get_elem? (rows ++ more) i ≡ some r
get_elem?-append [] more i r h = cc
get_elem?-append (x ∷ rows) more zero r h = h
get_elem?-append (x ∷ rows) more (suc i) r h = get_elem?-append rows more i r h

-- A change elsewhere, or one of a row of another status, leaves the row.
get_elem?-change_at :
    (rows : List Row) (i j : ℕ) (f : Row → Row) (p : Row → Bool) (r s : Row)
    → get_elem? rows i ≡ some r
    → get_elem? rows j ≡ some s
    → p r ≡ false
    → p s ≡ true
    → get_elem? (change_at j f rows) i ≡ some r
get_elem?-change_at [] i j f p r s h k a b = cc
get_elem?-change_at (x ∷ rows) zero zero f p r s h k a b = cc
get_elem?-change_at (x ∷ rows) zero (suc j) f p r s h k a b = h
get_elem?-change_at (x ∷ rows) (suc i) zero f p r s h k a b = h
get_elem?-change_at (x ∷ rows) (suc i) (suc j) f p r s h k a b =
    get_elem?-change_at rows i j f p r s h k a b

-- The rows are as before in the place, after a call that wants a row of another status.
change_if_keeps :
    (p : Status → Bool) (i j : ℕ) (f : Row → Row) (rows : List Row) (r : Row)
    → get_elem? rows i ≡ some r
    → p r.status ≡ false
    → get_elem? (rows_after (change_if p j f rows) rows) i ≡ some r
change_if_keeps p i j f rows r h a = go (get_elem? rows j) refl
  where
    go :
        (found : Option Row)
        → get_elem? rows j ≡ found
        → get_elem?
            (rows_after (if has_status p found then some (change_at j f rows) else none) rows)
            i
          ≡ some r
    go none e = h
    go (some s) e = elim (Bool-cases (p s.status)) [
      | inl wanted ↦ rw wanted (get_elem?-change_at rows i j f (λ x. p x.status) r s h e a wanted)
      | inr unwanted ↦ rw unwanted h
    ]

is_ready_sent : (now : Time) (r : Row) → r.status ≡ sent → is_ready now r ≡ false
is_ready_sent now r h = rw h refl

claim_keeps :
    (now : Time) (lease : ℕ) (rows : List Row) (i : ℕ) (r : Row)
    (result : Option (ℕ × Row) × List Row)
    → get_elem? rows i ≡ some r
    → r.status ≡ sent
    → IsClaim now lease rows result
    → get_elem? result.1 i ≡ some r
claim_keeps now lease rows i r (none, after) h st (_, same) = ap (λ t. get_elem? t i) same ∙ h
claim_keeps now lease rows i r (some (j, taken), after) h st (s, at, ready, _, changed, _) =
    ap (λ t. get_elem? t i) changed
    ∙ get_elem?-change_at rows i j (claimed now lease) (is_ready now) r s h at
        (is_ready_sent now r st) ready

step_keeps :
    (c : Call) (rows : List Row) (i : ℕ) (r : Row)
    → get_elem? rows i ≡ some r
    → r.status ≡ sent
    → get_elem? (step c rows) i ≡ some r
unfolding enqueue complete fail retry
step_keeps (call_enqueue job now) rows i r h st =
    get_elem?-append rows (enqueued job now ∷ []) i r h
step_keeps (call_claim now lease) rows i r h st =
    claim_keeps now lease rows i r (claim now lease rows) h st (claim-IsClaim now lease rows)
step_keeps (call_complete j at) rows i r h st =
    change_if_keeps is_processing i j (completed at) rows r h (ap is_processing st)
step_keeps (call_fail j retry_at error dead) rows i r h st =
    change_if_keeps is_processing i j (failed retry_at error dead) rows r h (ap is_processing st)
step_keeps (call_retry j now) rows i r h st =
    change_if_keeps is_dead i j (retried now) rows r h (ap is_dead st)

-- Once a message is recorded as sent, no calls change its row, whichever workers make them and in
-- whichever order: a worker whose lease was over and that fails afterwards does not queue it again, and
-- it is neither claimed nor retried.
pub run-sent :
    (cs : List Call) (rows : List Row) (i : ℕ) (r : Row)
    → get_elem? rows i ≡ some r
    → r.status ≡ sent
    → get_elem? (run cs rows) i ≡ some r
run-sent [] rows i r h st = h
run-sent (c ∷ cs) rows i r h st = run-sent cs (step c rows) i r (step_keeps c rows i r h st) st
