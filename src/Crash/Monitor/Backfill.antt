-- ===== src/Crash/Monitor/Backfill.antt =====
-- What the restart counter adds.
use doupro.Base.{
  subst, true, false, ◌≡◌, refl, sym, ap, ◌∙◌, some, List, [], ◌∷◌, ◌++◌, ℕ, zero, suc, ◌+◌, ◌<◌,
  Text, text_eq_iff, text_eq_refl, if◌then◌else◌, leb, arith, Bool-cases, inl, inr,
}
use doupro.Store.Time.{Time, before}
use doupro.Store.Watches.{
  RollbackWatch, Watches, active, triggered, find, change, counts, bump, recorded, record_crash,
}
use doupro.Store.Watches.Counting.{find-change}
use doupro.Crash.Monitor.{Monitored, note_crash, note_crashes}

-- The watch counts a crash of this container at this time, and is below its threshold.
abbrev pub IsOpen : Text → ℕ → Time → RollbackWatch → Type 0
IsOpen id nano at w =
    (w.status ≡ active)
    × (w.container_id ≡ id)
    × (before at w.window_expires_at ≡ true)
    × (w.last_event_nano < nano)
    × (w.crash_count < w.threshold)

-- After so many crashes: the watch has counted them up to its threshold, and if it has reached it, it is
-- triggered and one rollback more was started.
abbrev pub AfterCrashes : Text → RollbackWatch → ℕ → Monitored → Monitored → Type 0
AfterCrashes name w k m m' =
    (v : RollbackWatch) × (find name m'.watches ≡ some v)
    × (v.crash_count
        ≡ (if leb w.threshold (w.crash_count + k) then w.threshold else w.crash_count + k))
    × (v.status ≡ (if leb w.threshold (w.crash_count + k) then triggered else active))
    × (m'.rollbacks
        ≡ (if leb w.threshold (w.crash_count + k) then m.rollbacks ++ (name ∷ []) else m.rollbacks))

find-name :
    (name : Text) (ws : Watches) (w : RollbackWatch)
    → find name ws ≡ some w
    → w.container_name ≡ name
find-name name [] w h = cc
find-name name (v ∷ ws) w h = ground (arith, find-name name ws w, text_eq_iff v.container_name name)

find-bumped :
    (name : Text) (nano : ℕ) (at : Time) (ws : Watches) (w : RollbackWatch)
    → find name ws ≡ some w
    → find name (change name (bump nano at) ws) ≡ some (bump nano at w)
find-bumped name nano at ws w h =
    ground (arith, find-change name name (bump nano at) ws (λ v. refl), text_eq_refl name)

record_crash_open :
    (name id : Text) (nano : ℕ) (at : Time) (ws : Watches) (w : RollbackWatch)
    → find name ws ≡ some w
    → counts id nano at w ≡ true
    → record_crash name id nano at ws ≡ (
      recorded (bump nano at w) true (leb w.threshold (w.crash_count + 1)),
      change name (bump nano at) ws,
    )
unfolding record_crash
record_crash_open name id nano at ws w found counted = rw (found, counted) refl

record_crash_closed :
    (name id : Text) (nano : ℕ) (at : Time) (ws : Watches) (w : RollbackWatch)
    → find name ws ≡ some w
    → counts id nano at w ≡ false
    → record_crash name id nano at ws ≡ (recorded w false false, ws)
unfolding record_crash
record_crash_closed name id nano at ws w found counted = rw (found, counted) refl

counts_open :
    (id : Text) (nano : ℕ) (at : Time) (w : RollbackWatch)
    → IsOpen id nano at w
    → counts id nano at w ≡ true
counts_open id nano at w h = ground (arith, text_eq_iff w.container_id id)

note_crash_closed :
    (name id : Text) (nano : ℕ) (at : Time) (m : Monitored) (w : RollbackWatch)
    → find name m.watches ≡ some w
    → counts id nano at w ≡ false
    → note_crash name id nano at m ≡ m
unfolding note_crash
note_crash_closed name id nano at m w found closed =
    rw (record_crash_closed name id nano at m.watches w found closed) refl

-- What an open watch becomes.
note_crash_open :
    (name id : Text) (nano : ℕ) (at : Time) (m : Monitored) (w : RollbackWatch)
    → find name m.watches ≡ some w
    → counts id nano at w ≡ true
    → note_crash name id nano at m ≡ record m {
      watches = change name (bump nano at) m.watches;
      rollbacks =
          if leb w.threshold (w.crash_count + 1) then m.rollbacks ++ (name ∷ []) else m.rollbacks;
    }
unfolding note_crash
note_crash_open name id nano at m w found counted =
    elim (Bool-cases (leb w.threshold (w.crash_count + 1))) [
      | inl hit ↦
          rw
            (
              record_crash_open name id nano at m.watches w found counted,
              hit,
              find-name name m.watches w found,
            )
            refl
      | inr miss ↦ rw (record_crash_open name id nano at m.watches w found counted, miss) refl
    ]

triggered_stays :
    (name id : Text) (nano : ℕ) (at : Time) (k : ℕ) (m : Monitored) (w : RollbackWatch)
    → find name m.watches ≡ some w
    → w.status ≡ triggered
    → note_crashes name id nano at k m ≡ m
triggered_stays name id nano at zero m w found st = refl
triggered_stays name id nano at (suc k) m w found st =
    rw (note_crash_closed name id nano at m w found (rw st refl))
      (triggered_stays name id (suc nano) at k m w found st)

-- One crash of an open watch: the table, and the rollbacks.
abbrev crashed : Text → ℕ → Time → List Text → Monitored → Monitored
crashed name nano at rollbacks m = record m {
  watches = change name (bump nano at) m.watches;
  rollbacks = rollbacks;
}

note_crash_hit :
    (name id : Text) (nano : ℕ) (at : Time) (m : Monitored) (w : RollbackWatch)
    → find name m.watches ≡ some w
    → counts id nano at w ≡ true
    → leb w.threshold (w.crash_count + 1) ≡ true
    → note_crash name id nano at m ≡ crashed name nano at (m.rollbacks ++ (name ∷ [])) m
note_crash_hit name id nano at m w found counted hit =
    note_crash_open name id nano at m w found counted ∙ rw hit refl

note_crash_miss :
    (name id : Text) (nano : ℕ) (at : Time) (m : Monitored) (w : RollbackWatch)
    → find name m.watches ≡ some w
    → counts id nano at w ≡ true
    → leb w.threshold (w.crash_count + 1) ≡ false
    → note_crash name id nano at m ≡ crashed name nano at m.rollbacks m
note_crash_miss name id nano at m w found counted miss =
    note_crash_open name id nano at m w found counted ∙ rw miss refl

bump-IsOpen :
    (id : Text) (nano : ℕ) (at : Time) (w : RollbackWatch)
    → IsOpen id nano at w
    → leb w.threshold (w.crash_count + 1) ≡ false
    → IsOpen id (suc nano) at (bump nano at w)
bump-IsOpen id nano at w (st, own, window, later, below) miss =
    (ground arith, own, window, omega arith, ground arith)

-- The last of the crashes that count.
last_crash :
    (name id : Text) (nano : ℕ) (at : Time) (k : ℕ) (m : Monitored) (w : RollbackWatch)
    → find name m.watches ≡ some w
    → IsOpen id nano at w
    → leb w.threshold (w.crash_count + 1) ≡ true
    → AfterCrashes name w (suc k) m (note_crashes name id nano at (suc k) m)
last_crash name id nano at k m w found (st, own, window, later, below) hit =
    let counted = counts_open id nano at w (st, own, window, later, below) in
    let m1 = crashed name nano at (m.rollbacks ++ (name ∷ [])) m in
    let seen = find-bumped name nano at m.watches w found in
    let stays = triggered_stays name id (suc nano) at k m1 (bump nano at w) seen (rw hit refl) in
    subst (AfterCrashes name w (suc k) m)
      (sym (
        ap (note_crashes name id (suc nano) at k)
          (note_crash_hit name id nano at m w found counted hit)
        ∙ stays))
      (bump nano at w, seen, ground arith, ground arith, ground arith)

next_crash :
    (name : Text) (nano : ℕ) (at : Time) (k : ℕ) (m m' : Monitored) (w : RollbackWatch)
    → AfterCrashes name (bump nano at w) k (crashed name nano at m.rollbacks m) m'
    → AfterCrashes name w (suc k) m m'
next_crash name nano at k m m' w (v, seen, count, st, rollbacks) =
    (v, seen, ground arith, ground arith, ground arith)

-- The crashes that a restart counter showed are counted one by one up to the threshold of the watch,
-- and exactly one rollback is started if they reach it, none if they do not: for a watch that is
-- active, of this container, with its window open and no later crash recorded.
pub note_crashes-AfterCrashes :
    (name id : Text) (nano : ℕ) (at : Time) (k : ℕ) (m : Monitored) (w : RollbackWatch)
    → find name m.watches ≡ some w
    → IsOpen id nano at w
    → AfterCrashes name w k m (note_crashes name id nano at k m)
note_crashes-AfterCrashes name id nano at zero m w found (st, own, window, later, below) =
    (w, found, ground arith, ground arith, ground arith)
note_crashes-AfterCrashes name id nano at (suc k) m w found open_ =
    elim (Bool-cases (leb w.threshold (w.crash_count + 1))) [
      | inl hit ↦ last_crash name id nano at k m w found open_ hit
      | inr miss ↦
          let m1 = crashed name nano at m.rollbacks m in
          let rest =
            note_crashes-AfterCrashes name id (suc nano) at k m1 (bump nano at w)
              (find-bumped name nano at m.watches w found) (bump-IsOpen id nano at w open_ miss) in
          subst (AfterCrashes name w (suc k) m)
            (sym (
              ap (note_crashes name id (suc nano) at k)
                (note_crash_miss name id nano at m w found (counts_open id nano at w open_) miss)))
            (next_crash name nano at k m (note_crashes name id (suc nano) at k m1) w rest)
    ]
