-- ===== src/Store/Watches/Once.antt =====
-- How often a watch triggers the rollback.
use doupro.Base.{
  Bool, true, false, not, ◌≡◌, ◌≢◌, refl, Option, none, some, List, [], ◌∷◌, ℕ, ◌+◌, ◌≤◌, Text,
  text_eq, text_eq_iff, text_eq_refl, if◌then◌else◌, ◌&&◌, arith, inl, inr, ◌⊎◌, All,
}
use doupro.Store.Time.{Time}
use doupro.Store.Watches.{
  RollbackWatch, Watches, find, is_active, Recorded, not_found, recorded, record_on, record_crash,
  Call, call_arm, call_crash, call_restarts, call_complete, call_expire, step,
}
use doupro.Store.Watches.Counting.{apply}
use doupro.Store.Watches.Trigger.{crash_row, effect, step-find, crash-find}

abbrev was_triggered : Recorded → Bool
was_triggered not_found = false
was_triggered (recorded w c t) = t

-- How many of the calls of `RecordCrash` for a container report that they triggered.
abbrev triggers_of : Text → Call → Watches → ℕ
triggers_of k (call_crash name id nano at) ws =
    if text_eq name k && was_triggered (record_crash name id nano at ws).0 then 1 else 0
triggers_of k _ ws = 0

abbrev pub triggers : Text → List Call → Watches → ℕ
triggers k [] ws = 0
triggers k (c ∷ cs) ws = triggers_of k c ws + triggers k cs (step c ws)

-- The call does not arm the watch of the container.
abbrev pub NoArm : Text → Call → Type 0
NoArm k (call_arm name id applied window threshold restarts) = name ≢ k
NoArm k _ = Unit

abbrev quiet : Option RollbackWatch → Bool
quiet none = true
quiet (some w) = not (is_active w.status)

quiet-effect :
    (c : Call) (k : Text) (o : Option RollbackWatch)
    → NoArm k c
    → quiet o ≡ true
    → quiet (effect c k o) ≡ true
quiet-effect (call_arm name id applied window threshold restarts) k o h q =
    ground (arith, text_eq_iff name k)
quiet-effect (call_crash name id nano at) k none h q = ground arith
quiet-effect (call_crash name id nano at) k (some w) h q = ground arith
quiet-effect (call_restarts name n) k none h q = ground arith
quiet-effect (call_restarts name n) k (some w) h q = ground arith
quiet-effect (call_complete name status) k none h q = ground arith
quiet-effect (call_complete name status) k (some w) h q = ground arith
quiet-effect (call_expire now) k none h q = refl
quiet-effect (call_expire now) k (some w) h q = ground arith

was_triggered-record_on :
    (name id : Text) (nano : ℕ) (at : Time) (o : Option RollbackWatch) (ws : Watches)
    → quiet o ≡ true
    → was_triggered (record_on name id nano at o ws).0 ≡ false
was_triggered-record_on name id nano at none ws q = refl
was_triggered-record_on name id nano at (some w) ws q = ground arith

crash_quiet :
    (name id : Text) (nano : ℕ) (at : Time) (ws : Watches)
    → quiet (find name ws) ≡ true
    → was_triggered (record_crash name id nano at ws).0 ≡ false
unfolding record_crash
crash_quiet name id nano at ws q = was_triggered-record_on name id nano at (find name ws) ws q

record_on_triggered :
    (name id : Text) (nano : ℕ) (at : Time) (o : Option RollbackWatch) (ws : Watches)
    → was_triggered (record_on name id nano at o ws).0 ≡ true
    → quiet (apply (crash_row id nano at) o) ≡ true
record_on_triggered name id nano at none ws q = refl
record_on_triggered name id nano at (some w) ws q = ground arith

record_triggered :
    (name id : Text) (nano : ℕ) (at : Time) (ws : Watches)
    → was_triggered (record_crash name id nano at ws).0 ≡ true
    → quiet (apply (crash_row id nano at) (find name ws)) ≡ true
unfolding record_crash
record_triggered name id nano at ws q = record_on_triggered name id nano at (find name ws) ws q

crash_triggered :
    (name id : Text) (nano : ℕ) (at : Time) (ws : Watches)
    → was_triggered (record_crash name id nano at ws).0 ≡ true
    → quiet (find name (record_crash name id nano at ws).1) ≡ true
crash_triggered name id nano at ws q = ground (
  arith,
  crash-find name name id nano at ws,
  text_eq_refl name,
  record_triggered name id nano at ws q,
)

quiet_triggers :
    (c : Call) (k : Text) (ws : Watches) → quiet (find k ws) ≡ true → triggers_of k c ws ≡ 0
quiet_triggers (call_arm name id applied window threshold restarts) k ws q = refl
quiet_triggers (call_crash name id nano at) k ws q =
    ground (arith, text_eq_iff name k, crash_quiet name id nano at ws)
quiet_triggers (call_restarts name n) k ws q = refl
quiet_triggers (call_complete name status) k ws q = refl
quiet_triggers (call_expire now) k ws q = refl

step_triggers :
    (c : Call) (k : Text) (ws : Watches)
    → (triggers_of k c ws ≡ 0) ⊎ ((triggers_of k c ws ≡ 1) × (quiet (find k (step c ws)) ≡ true))
step_triggers (call_arm name id applied window threshold restarts) k ws = inl refl
step_triggers (call_crash name id nano at) k ws =
    ground (arith, text_eq_iff name k, crash_triggered name id nano at ws)
step_triggers (call_restarts name n) k ws = inl refl
step_triggers (call_complete name status) k ws = inl refl
step_triggers (call_expire now) k ws = inl refl

no_triggers :
    (k : Text) (cs : List Call) (ws : Watches)
    → All (NoArm k) cs
    → quiet (find k ws) ≡ true
    → triggers k cs ws ≡ 0
no_triggers k [] ws h q = refl
no_triggers k (c ∷ cs) ws (p, h) q = omega (
  arith,
  quiet_triggers c k ws q,
  no_triggers k cs (step c ws) h (rw (step-find c k ws) (quiet-effect c k (find k ws) p q)),
)

-- Between two arms of a container's watch, whatever crashes are recorded or replayed and whatever
-- other watches do, at most one call reports that the threshold is reached.
pub triggers-le-one :
    (k : Text) (cs : List Call) (ws : Watches) → All (NoArm k) cs → triggers k cs ws ≤ 1
triggers-le-one k [] ws h = omega arith
triggers-le-one k (c ∷ cs) ws (p, h) = elim (step_triggers c k ws) [
  | inl e ↦ omega (arith, e, triggers-le-one k cs (step c ws) h)
  | inr (e, q) ↦ omega (arith, e, no_triggers k cs (step c ws) h q)
]
