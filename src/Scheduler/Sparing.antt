-- ===== src/Scheduler/Sparing.antt =====
-- A change that spares a one-off schedule.
use doupro.Base.{
  not, ◌≡◌, ◌≢◌, refl, sym, ◌∙◌, suc, ◌&&◌, ◌==◌, List, [], ◌∷◌, ℕ, codes, if◌then◌else◌, arith,
  All, if_both,
}
use doupro.Store.Schedules.{Schedule, change_rows}
use doupro.Scheduler.{Daemon, Fired, waits}

-- How often the schedule was executed: the calls that maintenance refused do not count.
abbrev pub times : ℕ → List Fired → ℕ
times i [] = 0
times i (f ∷ fs) = if f.schedule == i && not (waits f.error) then suc (times i fs) else times i fs

-- The enabled schedules of this ID.
abbrev pub enabled_rows : ℕ → List Schedule → ℕ
enabled_rows i [] = 0
enabled_rows i (r ∷ rs) =
    if r.id == i && r.enabled then suc (enabled_rows i rs) else enabled_rows i rs

-- The schedule of this ID is a one-off one.
abbrev pub IsOnce : ℕ → Schedule → Type 0
IsOnce i sc = sc.id ≡ i → sc.kind ≡ codes "once"

-- A change that spares the schedule.
abbrev pub Spares : ℕ → Daemon → Daemon → Type 0
Spares i d d' =
    (times i d'.fired ≡ times i d.fired)
    × (enabled_rows i d'.schedules.rows ≡ enabled_rows i d.schedules.rows)
    × (All (IsOnce i) d.schedules.rows → All (IsOnce i) d'.schedules.rows)

pub Spares-refl : (i : ℕ) (d : Daemon) → Spares i d d
Spares-refl i d = (refl, refl, λ h. h)

pub Spares-trans : (i : ℕ) (d e f : Daemon) → Spares i d e → Spares i e f → Spares i d f
Spares-trans i d e f (t, l, k) (t', l', k') = (t' ∙ t, l' ∙ l, λ h. k' (k h))

-- The ID and the kind stay.
abbrev KeepsKey : (Schedule → Schedule) → Type 0
KeepsKey f = (r : Schedule) → ((f r).id ≡ r.id) × ((f r).kind ≡ r.kind)

enabled_rows-change :
    (i j : ℕ) (f : Schedule → Schedule) (rs : List Schedule)
    → j ≢ i
    → KeepsKey f
    → enabled_rows i (change_rows j f rs) ≡ enabled_rows i rs
enabled_rows-change i j f [] ne keeps = refl
enabled_rows-change i j f (r ∷ rs) ne keeps =
    ground (arith, enabled_rows-change i j f rs ne keeps, keeps r)

pub change-IsOnce :
    (i j : ℕ) (f : Schedule → Schedule) (rs : List Schedule)
    → KeepsKey f
    → All (IsOnce i) rs
    → All (IsOnce i) (change_rows j f rs)
change-IsOnce i j f [] keeps h = tt
change-IsOnce i j f (r ∷ rs) keeps (p, h) = (
  if_both (IsOnce i) (r.id == j) (λ _ e. (keeps r).1 ∙ p (sym (keeps r).0 ∙ e)) (λ _. p),
  change-IsOnce i j f rs keeps h,
)

pub changed-Spares :
    (i j : ℕ) (f : Schedule → Schedule) (d : Daemon)
    → j ≢ i
    → KeepsKey f
    → Spares i d
        (record d { schedules = record d.schedules { rows = change_rows j f d.schedules.rows } })
changed-Spares i j f d ne keeps = (
  refl,
  enabled_rows-change i j f d.schedules.rows ne keeps,
  change-IsOnce i j f d.schedules.rows keeps,
)
