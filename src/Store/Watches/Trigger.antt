-- ===== src/Store/Watches/Trigger.antt =====
-- When a watch triggers the rollback.
use doupro.Base.{
  if_both, ◌==◌, true, ◌≡◌, ◌≢◌, refl, Option, none, some, List, [], ◌∷◌, ℕ, ◌+◌, ◌<◌, Text,
  text_eq, text_eq_iff, if◌then◌else◌, ◌&&◌, arith, Option-cases, Bool-cases, inl, inr, All,
}
use doupro.Store.Time.{Time, stored_le}
use doupro.Store.Watches.{
  RollbackWatch, Watches, Status, active, triggered, completed, find, change, is_active, counts,
  bump, recorded, record_crash, expire_one, arm, armed, upsert, set_restart_count, complete, Call,
  call_arm, call_crash, call_restarts, call_complete, call_expire, step, run,
}
use doupro.Store.Watches.Counting.{apply, find-change, find-expire}

-- An active watch is below its threshold; a triggered one has reached it, at a recorded time.
abbrev pub FitsStatus : Status → ℕ → ℕ → Option Time → Type 0
FitsStatus active count threshold at = count < threshold
FitsStatus triggered count threshold at = (count ≡ threshold) × (at ≢ none)
FitsStatus _ count threshold at = Unit

pub record IsValid (w : RollbackWatch) : Type 0 where
  pub fits : FitsStatus w.status w.crash_count w.threshold w.triggered_at

abbrev RowValid : Option RollbackWatch → Type 0
RowValid none = Unit
RowValid (some w) = IsValid w

-- What a crash does to the row of its container.
abbrev pub crash_row : Text → ℕ → Time → RollbackWatch → RollbackWatch
crash_row id nano at w = if counts id nano at w then bump nano at w else w

-- What a call does to the row of a container: the table is one independent machine for each name.
abbrev pub effect : Call → Text → Option RollbackWatch → Option RollbackWatch
effect (call_arm name id applied window threshold restarts) k o =
    if text_eq name k then some (armed name id applied window threshold restarts) else o
effect (call_crash name id nano at) k o =
    if text_eq name k then apply (crash_row id nano at) o else o
effect (call_restarts name n) k o =
    if text_eq name k then apply (λ w. record w { observed_restart_count = n }) o else o
effect (call_complete name status) k o =
    if text_eq name k then apply (λ w. record w { status = completed status }) o else o
effect (call_expire now) k o = apply (expire_one now) o

find-replace :
    (k name : Text) (v : RollbackWatch) (ws : Watches)
    → v.container_name ≡ name
    → find k (change name (λ _. v) ws)
      ≡ (if text_eq name k then apply (λ _. v) (find k ws) else find k ws)
find-replace k name v [] h = ground arith
find-replace k name v (w ∷ ws) h = ground (
  arith,
  text_eq_iff w.container_name name,
  text_eq_iff w.container_name k,
  text_eq_iff name k,
  find-replace k name v ws h,
)

arm-find :
    (k : Text) (v : RollbackWatch) (o : Option RollbackWatch) (ws : Watches)
    → find v.container_name ws ≡ o
    → find k (upsert o v ws) ≡ (if text_eq v.container_name k then some v else find k ws)
arm-find k v none ws h = refl
arm-find k v (some w) ws h =
    ground (arith, find-replace k v.container_name v ws refl, text_eq_iff v.container_name k)

pub crash-find :
    (k name id : Text) (nano : ℕ) (at : Time) (ws : Watches)
    → find k (record_crash name id nano at ws).1
      ≡ (if text_eq name k then apply (crash_row id nano at) (find k ws) else find k ws)
unfolding record_crash
crash-find k name id nano at ws = elim (Option-cases (find name ws)) [
  | inl missing ↦ ground (arith, text_eq_iff name k)
  | inr (w, found) ↦ elim (Bool-cases (counts id nano at w)) [
    | inl hit ↦ ground (arith, text_eq_iff name k, find-change k name (bump nano at) ws (λ v. refl))
    | inr miss ↦ ground (arith, text_eq_iff name k)
  ]
]

pub step-find : (c : Call) (k : Text) (ws : Watches) → find k (step c ws) ≡ effect c k (find k ws)
unfolding arm set_restart_count complete
step-find (call_arm name id applied window threshold restarts) k ws =
    arm-find k (armed name id applied window threshold restarts) (find name ws) ws refl
step-find (call_crash name id nano at) k ws = crash-find k name id nano at ws
step-find (call_restarts name n) k ws = find-change k name _ ws (λ w. refl)
step-find (call_complete name status) k ws = find-change k name _ ws (λ w. refl)
step-find (call_expire now) k ws = find-expire k now ws

-- Watches are armed with a threshold of at least one.
abbrev pub HasThreshold : Call → Type 0
HasThreshold (call_arm name id applied window threshold restarts) = 0 < threshold
HasThreshold _ = Unit

bump-IsValid :
    (id : Text) (nano : ℕ) (at : Time) (w : RollbackWatch)
    → counts id nano at w ≡ true
    → IsValid w
    → IsValid (bump nano at w)
bump-IsValid id nano at w c v = ground arith

crash_row-IsValid :
    (id : Text) (nano : ℕ) (at : Time) (w : RollbackWatch)
    → IsValid w
    → IsValid (crash_row id nano at w)
crash_row-IsValid id nano at w v =
    if_both IsValid (counts id nano at w) (λ c. bump-IsValid id nano at w c v) (λ _. v)

expire_one-IsValid : (now : Time) (w : RollbackWatch) → IsValid w → IsValid (expire_one now w)
expire_one-IsValid now w v =
    if_both IsValid (is_active w.status && stored_le w.window_expires_at now)
      (λ _. record { fits = tt }) (λ _. v)

restarts-IsValid :
    (n : ℕ) (w : RollbackWatch) → IsValid w → IsValid (record w { observed_restart_count = n })
restarts-IsValid n w v = record { fits = v.fits }

apply-RowValid :
    (f : RollbackWatch → RollbackWatch)
    → ((w : RollbackWatch) → IsValid w → IsValid (f w))
    → (o : Option RollbackWatch) → RowValid o
    → RowValid (apply f o)
apply-RowValid f h none v = tt
apply-RowValid f h (some w) v = h w v

effect-RowValid :
    (c : Call) (k : Text) (o : Option RollbackWatch)
    → HasThreshold c
    → RowValid o
    → RowValid (effect c k o)
effect-RowValid (call_arm name id applied window threshold restarts) k o p v =
    if_both RowValid (text_eq name k) (λ _. record { fits = p }) (λ _. v)
effect-RowValid (call_crash name id nano at) k o p v =
    if_both RowValid (text_eq name k) (λ _. apply-RowValid _ (crash_row-IsValid id nano at) o v)
      (λ _. v)
effect-RowValid (call_restarts name n) k o p v =
    if_both RowValid (text_eq name k) (λ _. apply-RowValid _ (restarts-IsValid n) o v) (λ _. v)
effect-RowValid (call_complete name status) k o p v =
    if_both RowValid (text_eq name k) (λ _. apply-RowValid _ (λ w u. record { fits = tt }) o v)
      (λ _. v)
effect-RowValid (call_expire now) k o p v = apply-RowValid _ (expire_one-IsValid now) o v

run_from-RowValid :
    (cs : List Call) (k : Text) (ws : Watches)
    → All HasThreshold cs
    → RowValid (find k ws)
    → RowValid (find k (run cs ws))
run_from-RowValid [] k ws h v = v
run_from-RowValid (c ∷ cs) k ws (p, h) v =
    run_from-RowValid cs k (step c ws) h
      (rw (step-find c k ws) (effect-RowValid c k (find k ws) p v))

-- After any sequence of calls on an empty table, with watches that are armed with a threshold of at
-- least one: the watch of a container, while active, has counted fewer crashes than its threshold,
-- and once triggered exactly as many, with the time recorded.
run-RowValid : (cs : List Call) (k : Text) → All HasThreshold cs → RowValid (find k (run cs []))
run-RowValid cs k h = run_from-RowValid cs k [] h tt

-- A counted crash of a consistent active watch triggers exactly if it is the crash that reaches the
-- threshold.
record_crash_triggers :
    (name id : Text) (nano : ℕ) (at : Time) (ws : Watches) (w : RollbackWatch)
    → find name ws ≡ some w
    → IsValid w
    → counts id nano at w ≡ true
    → (record_crash name id nano at ws).0
      ≡ recorded (bump nano at w) true (w.crash_count + 1 == w.threshold)
unfolding record_crash
record_crash_triggers name id nano at ws w e v c = ground arith
