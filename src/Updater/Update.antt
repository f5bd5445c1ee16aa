-- ===== src/Updater/Update.antt =====
-- `Update`, `failBeforeRemoval` and `revert` of internal/updater/updater.go. Each write to the store is
-- one transaction, which may fail; a read that fails is as one that finds no row, as it is there.
pub mod OnRecord
pub mod Restored
pub mod Records
pub mod Guarded
pub mod Images
mod Tests
use doupro.Base.{
  Bool, true, false, not, ◌&&◌, Option, none, some, List, [], ◌∷◌, ℕ, ◌*◌, Text, codes, text_eq,
  ◌==◌, includes, if◌then◌else◌,
}
use doupro.Store.Time.{Time}
use doupro.Store.Watches.{Watches, arm, complete}
use doupro.Store.Containers.{ContainerRecord, Containers, get_container, replace_container}
use doupro.Updater.Validate.{Inspection}
use doupro.Updater.Engine.{Call, Log, Engine, inspect, start}
use doupro.Updater.Recreate.{RecreateError, RecreationResult, recreate, trim_slash}
use doupro.Updater.Guard.{OperationGuard, Refusal, begin_operation, end}

-- The calls of the store that an update or a rollback makes.
pub data StoreCall : Type 0 where
  replace_and_arm replace complete_watch get_crash_loop_settings : StoreCall
  replace_and_complete set_available : StoreCall

-- The engine's calls with the two tables, and the calls of the store.
pub record World : Type 0 where
  pub log : Log
  pub writes : List (StoreCall × Bool)
  pub rows : Containers
  pub watches : Watches

-- Whether a call of the store succeeds, and what the program reads besides.
pub record Surroundings : Type 0 where
  pub engine : Engine
  pub stores : World → StoreCall → Bool
  pub reads : World → Bool
  -- the threshold and the window in minutes of `GetCrashLoopSettings`
  pub crash_settings : World → ℕ × ℕ
  pub now : World → Time
  -- `strings.TrimSpace`, and whether `digest.Parse` succeeds
  pub trim_space : Text → Text
  pub digest_parses : Text → Bool

pub data Cause : Type 0 where
  not_recreated : RecreateError → Cause
  not_recorded : Cause

pub data UpdateError : Type 0 where
  refused : Refusal → UpdateError
  not_inspected : UpdateError
  unknown_container no_previous_version : UpdateError
  failed_before_removal : RecreateError → UpdateError
  not_restarted : UpdateError
  reverted : Cause → UpdateError
  not_reverted : Cause → RecreateError → UpdateError
  revert_not_recorded : UpdateError

abbrev has_at : Text → Bool
has_at [] = false
has_at (c ∷ s) = if c == b'@' then true else has_at s

-- The part behind the last `@`, or the whole.
abbrev pub behind_at : Text → Text
behind_at [] = []
behind_at (c ∷ s) =
    let rest = behind_at s in if has_at s then rest else if c == b'@' then s else c ∷ s

module _ (x : Surroundings) where
  open x use {engine, stores, reads, crash_settings, now, trim_space, digest_parses}

  -- `registry.IsDigestReference`
  abbrev pub is_digest_reference : Text → Bool
  is_digest_reference image = digest_parses (behind_at (trim_space image))

  abbrev pub stable_image_reference : Text → Text → Text
  stable_image_reference operation stored =
      if is_digest_reference operation
        && not (text_eq stored [])
        && not (is_digest_reference stored)
      then stored
      else operation

  -- `GetContainer`
  abbrev pub read_row : Text → World → Option ContainerRecord
  read_row id w = if reads w then get_container id w.rows else none

  abbrev pub stable_of : Text → Option ContainerRecord → Text
  stable_of image none = image
  stable_of image (some r) = stable_image_reference image r.current_image

  abbrev pub previous_of : Option ContainerRecord → Text
  previous_of none = []
  previous_of (some r) = r.previous_image

  -- A call of the engine.
  abbrev pub called : Call → World → Bool × World
  called c w = let ok_ = engine.succeeds w.log c in (ok_, record w { log = (c, ok_) ∷ w.log })

  -- A call of the store, and what it does if it succeeds.
  abbrev pub written : StoreCall → (World → World) → World → Bool × World
  written c f w =
      let ok_ = stores w c in
      let done = if ok_ then f w else w in (ok_, record done { writes = (c, ok_) ∷ w.writes })

  abbrev pub row_of : RecreationResult → Text → Text → Text → ContainerRecord
  row_of r name current previous = record {
    id = r.id;
    name = name;
    state = r.state;
    current_image = current;
    previous_image = previous;
    update_available = false;
  }

  abbrev pub recreated :
      Text → Inspection → Text → World → (Option RecreateError × RecreationResult) × World
  recreated old before target w =
      let (err, r, log) = recreate engine old before target w.log in
      ((err, r), record w { log = log })

  abbrev pub replaced : Text → ContainerRecord → World → World
  replaced old row u = record u { rows = replace_container old row u.rows }

  -- `revert`, once the container is recreated: its row keeps the previous image on record.
  abbrev pub revert_end :
      Text
      → Inspection
      → Cause
      → Option RecreateError
      → RecreationResult
      → World
      → Option UpdateError × World
  revert_end original before cause (some e) r w = (some (not_reverted cause e), w)
  revert_end original before cause none r w =
      let stored = read_row original w in
      let row =
        row_of r (trim_slash before.name) (stable_of before.config.image stored)
          (previous_of stored) in
      let (ok_, w1) = written replace (replaced original row) w in
      (some (if ok_ then reverted cause else revert_not_recorded), w1)

  -- `revert`: the container is recreated from the reference in its configuration.
  unfoldable pub revert : Text → Text → Inspection → Cause → World → Option UpdateError × World
  revert original live before cause w =
      let ((err, r), w1) = recreated live before before.config.image w in
      revert_end original before cause err r w1

  unfoldable pub fail_before_removal :
      Text → RecreationResult → RecreateError → World → Option UpdateError × World
  fail_before_removal original r cause w =
      if r.original_stopped
      then (let (ok_, w1) = called (start original) w in
          (some (if ok_ then failed_before_removal cause else not_restarted), w1))
      else (some (failed_before_removal cause), w)

  abbrev pub armed_for : Text → ContainerRecord → ℕ → ℕ → ℕ → World → World
  armed_for old row minutes threshold restarts u = record u {
    rows = replace_container old row u.rows;
    watches = arm row.name row.id (now u) (minutes * 60) threshold restarts u.watches;
  }

  abbrev pub restarts_of : Bool → Log → Text → ℕ
  restarts_of seen log id = if seen then (engine.inspection log id).restart_count else 0

  -- The commit of an update whose container runs.
  unfoldable pub commit_running : Text → ContainerRecord → World → Bool × World
  commit_running old row w =
      let (got, w1) = written get_crash_loop_settings (λ u. u) w in
      let (threshold, minutes) = crash_settings w in
      let (seen, w2) = called (inspect row.id) w1 in
      let restarts = restarts_of seen w1.log row.id in
      if got
      then written replace_and_arm (armed_for old row minutes threshold restarts) w2
      else (false, w1)

  abbrev pub not_running : Text → World → World
  not_running name u = record u { watches = complete name (codes "not_running") u.watches }

  unfoldable pub commit_stopped : Text → ContainerRecord → World → Bool × World
  commit_stopped old row w =
      let (ok_, w1) = written replace (replaced old row) w in
      if ok_ then (true, (written complete_watch (not_running row.name) w1).1) else (false, w1)

  unfoldable pub commit : Text → ContainerRecord → World → Bool × World
  commit old row w =
      if text_eq row.state (codes "running")
      then commit_running old row w
      else commit_stopped old row w

  -- `Update`, once the container is recreated; `current` is `definedImage`
  abbrev pub update_end :
      Text
      → Inspection
      → Text
      → Option RecreateError
      → RecreationResult
      → World
      → Option UpdateError × World
  update_end id before current (some e) r w =
      if not r.original_removed
      then fail_before_removal id r e w
      else revert id r.id before (not_recreated e) w
  update_end id before current none r w =
      let (ok_, w1) = commit id (row_of r (trim_slash before.name) current before.image) w in
      if ok_ then (none, w1) else revert id r.id before not_recorded w1

  -- `Update`, once the container is inspected
  unfoldable pub update_container : Text → Inspection → Text → World → Option UpdateError × World
  update_container id before target w =
      let current = stable_of target (read_row id w) in
      let ((err, r), w1) = recreated id before target w in update_end id before current err r w1

  -- `Update`, once its operation has begun
  unfoldable pub update_begun : Text → Text → World → Option UpdateError × World
  update_begun id target w =
      let (ok_, w1) = called (inspect id) w in
      if ok_
      then update_container id (engine.inspection w.log id) target w1
      else (some not_inspected, w1)

  abbrev pub name_of : Text → Option ContainerRecord → Text
  name_of id none = id
  name_of id (some r) = r.name

  unfoldable pub update :
      Text → Text → OperationGuard → World → Option UpdateError × OperationGuard × World
  update id target g w =
      let name = name_of id (read_row id w) in
      let (refusal, g1) = begin_operation name (codes "update") g in
      elim refusal [
        | some e ↦ (some (refused e), g1, w)
        | none ↦ let (err, w1) = update_begun id target w in (err, end name g1, w1)
      ]
