-- ===== src/Store/Watches/Counting.antt =====
-- Which crashes `RecordCrash` counts.
use doupro.Base.{
  Bool, false, ◌≡◌, refl, Option, none, some, [], ◌∷◌, ℕ, Text, text_eq, text_eq_iff, if◌then◌else◌,
  arith, Option-cases, Bool-cases, inl, inr,
}
use doupro.Store.Time.{Time}
use doupro.Store.Watches.{
  RollbackWatch, Watches, find, change, counts, bump, Recorded, not_found, recorded, record_crash,
  expire, expire_one,
}

abbrev pub apply : (RollbackWatch → RollbackWatch) → Option RollbackWatch → Option RollbackWatch
apply f none = none
apply f (some w) = some (f w)

pub find-change :
    (k name : Text) (f : RollbackWatch → RollbackWatch) (ws : Watches)
    → ((w : RollbackWatch) → (f w).container_name ≡ w.container_name)
    → find k (change name f ws) ≡ (if text_eq name k then apply f (find k ws) else find k ws)
find-change k name f [] h = ground arith
find-change k name f (w ∷ ws) h = ground (
  arith,
  h w,
  text_eq_iff w.container_name name,
  text_eq_iff w.container_name k,
  text_eq_iff name k,
  find-change k name f ws h,
)

pub find-expire :
    (k : Text) (now : Time) (ws : Watches)
    → find k (expire now ws) ≡ apply (expire_one now) (find k ws)
unfolding expire
find-expire k now [] = refl
find-expire k now (w ∷ ws) = ground (arith, find-expire k now ws)

bump-name :
    (nano : ℕ) (at : Time) (w : RollbackWatch) → (bump nano at w).container_name ≡ w.container_name
bump-name nano at w = refl

not_counted_again :
    (id : Text) (nano : ℕ) (at : Time) (w : RollbackWatch)
    → counts id nano at (bump nano at w) ≡ false
not_counted_again id nano at w = ground arith

abbrev pub was_counted : Recorded → Bool
was_counted not_found = false
was_counted (recorded w c t) = c

-- A crash that is reported again, because the event was replayed or was already taken from the
-- restart counter under the same time, is not counted again, and changes nothing.
record_crash_replay :
    (name id : Text) (nano : ℕ) (at : Time) (ws : Watches)
    → let ws' = (record_crash name id nano at ws).1 in
      (was_counted (record_crash name id nano at ws').0 ≡ false)
      × ((record_crash name id nano at ws').1 ≡ ws')
unfolding record_crash
record_crash_replay name id nano at ws = elim (Option-cases (find name ws)) [
  | inl missing ↦ ground arith
  | inr (w, found) ↦ elim (Bool-cases (counts id nano at w)) [
    | inl yes_ ↦ ground (
      arith,
      find-change name name (bump nano at) ws (bump-name nano at),
      text_eq_iff name name,
      not_counted_again id nano at w,
    )
    | inr no_ ↦ ground arith
  ]
]
