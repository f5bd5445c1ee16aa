-- ===== src/Updater/Guard.antt =====
-- `operationGuard` of internal/updater/operations.go. Each of its methods holds the mutex, so that a
-- run of the daemon is a sequence of calls; `StartedAt` is left out.
pub mod Exclusion
mod Tests
use doupro.Base.{
  Bool, true, false, ◌≡◌, Option, none, some, List, [], ◌∷◌, Text, codes, text_eq, if◌then◌else◌,
  ◌||◌, not,
}

-- The map `active`, from a container's name to the kind of its operation.
abbrev pub Active : Type 0
Active = List (Text × Text)

abbrev pub lookup : Text → Active → Option Text
lookup k [] = none
lookup k ((j, v) ∷ m) = let rest = lookup k m in if text_eq j k then some v else rest

abbrev pub erase : Text → Active → Active
erase k [] = []
erase k ((j, v) ∷ m) = let rest = erase k m in if text_eq j k then rest else (j, v) ∷ rest

pub record OperationGuard : Type 0 where
  pub active : Active
  pub maintenance : Bool

abbrev pub new_operation_guard : OperationGuard
new_operation_guard = record { active = []; maintenance = false }

-- The kind of the operation that stands in the way, or `none` where the new one has begun.
unfoldable pub begin : Text → Text → OperationGuard → Option Text × OperationGuard
begin name kind g =
    if g.maintenance then (some (codes "self-update"), g) else elim (lookup name g.active) [
      | some current ↦ (some current, g)
      | none ↦ (none, record g { active = (name, kind) ∷ g.active })
    ]

abbrev pub is_nil : Active → Bool
is_nil [] = true
is_nil (e ∷ m) = false

-- The operations that are in the way, or `none` where maintenance has begun.
unfoldable pub begin_maintenance : OperationGuard → Option Active × OperationGuard
begin_maintenance g =
    if g.maintenance || not (is_nil g.active)
    then (some g.active, g)
    else (none, record g { maintenance = true })

unfoldable pub end_maintenance : OperationGuard → OperationGuard
end_maintenance g = record g { maintenance = false }

unfoldable pub end : Text → OperationGuard → OperationGuard
end name g = record g { active = erase name g.active }

-- `get`, and `Updater.Operation`
abbrev pub operation : Text → OperationGuard → Option Text
operation name g = lookup name g.active

-- `beginOperation`: the error that the caller is given.
pub data Refusal : Type 0 where
  maintenance_in_progress : Refusal
  operation_in_progress : Text → Text → Refusal

abbrev refusal : Text → Option Text → Option Refusal
refusal name none = none
refusal name (some kind) = some (
    if text_eq kind (codes "self-update")
    then maintenance_in_progress
    else operation_in_progress name kind)

unfoldable pub begin_operation : Text → Text → OperationGuard → Option Refusal × OperationGuard
begin_operation name kind g = let (r, g') = begin name kind g in (refusal name r, g')

pub data Call : Type 0 where
  call_begin : Text → Text → Call
  call_end : Text → Call
  call_begin_maintenance call_end_maintenance : Call

abbrev pub step : Call → OperationGuard → OperationGuard
step (call_begin name kind) g = (begin_operation name kind g).1
step (call_end name) g = end name g
step call_begin_maintenance g = (begin_maintenance g).1
step call_end_maintenance g = end_maintenance g

abbrev pub run : List Call → OperationGuard → OperationGuard
run [] g = g
run (c ∷ cs) g = run cs (step c g)
