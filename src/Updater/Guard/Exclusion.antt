-- ===== src/Updater/Guard/Exclusion.antt =====
-- What the guard excludes, over every sequence of calls.
use doupro.Base.{
  true, false, ◌≡◌, ◌≢◌, refl, none, some, List, [], ◌∷◌, Text, codes, text_eq_iff, text_eq_refl,
  arith, All,
}
use doupro.Updater.Guard.{
  Active, lookup, erase, OperationGuard, new_operation_guard, begin, begin_maintenance,
  end_maintenance, end, maintenance_in_progress, operation_in_progress, begin_operation, Call,
  call_begin, call_end, call_begin_maintenance, call_end_maintenance, step, run, is_nil,
}

-- No container has two operations.
abbrev pub IsDistinct : Active → Type 0
IsDistinct [] = Unit
IsDistinct ((k, v) ∷ m) = (lookup k m ≡ none) × IsDistinct m

pub record IsValid (g : OperationGuard) : Type 0 where
  pub distinct : IsDistinct g.active
  pub exclusive : g.maintenance ≡ true → g.active ≡ []

pub lookup-erase-none : (k j : Text) (m : Active) → lookup j m ≡ none → lookup j (erase k m) ≡ none
lookup-erase-none k j [] h = refl
lookup-erase-none k j ((i, v) ∷ m) h = ground (arith, lookup-erase-none k j m)

pub lookup-erase_ne : (k j : Text) (m : Active) → k ≢ j → lookup j (erase k m) ≡ lookup j m
lookup-erase_ne k j [] h = refl
lookup-erase_ne k j ((i, v) ∷ m) h =
    ground (arith, lookup-erase_ne k j m h, text_eq_iff i k, text_eq_iff i j)

erase-IsDistinct : (k : Text) (m : Active) → IsDistinct m → IsDistinct (erase k m)
erase-IsDistinct k [] h = tt
erase-IsDistinct k ((i, v) ∷ m) (p, h) =
    ground (arith, erase-IsDistinct k m h, lookup-erase-none k i m p)

erase-nil : (k : Text) (m : Active) → m ≡ [] → erase k m ≡ []
erase-nil k [] h = refl
erase-nil k (e ∷ m) h = cc

pub is_nil-eq : (m : Active) → is_nil m ≡ true → m ≡ []
is_nil-eq [] h = refl
is_nil-eq (e ∷ m) h = cc

begin-IsValid :
    (name kind : Text) {g : OperationGuard} → IsValid g → IsValid (begin_operation name kind g).1
unfolding begin_operation begin
begin-IsValid name kind v = ground arith

begin_maintenance-IsValid : {g : OperationGuard} → IsValid g → IsValid (begin_maintenance g).1
unfolding begin_maintenance
begin_maintenance-IsValid {g} v = ground (arith, is_nil-eq g.active)

end-IsValid : (name : Text) {g : OperationGuard} → IsValid g → IsValid (end name g)
unfolding end
end-IsValid name {g} v = record {
  distinct = erase-IsDistinct name g.active v.distinct;
  exclusive = λ h. erase-nil name g.active (v.exclusive h);
}

end_maintenance-IsValid : {g : OperationGuard} → IsValid g → IsValid (end_maintenance g)
unfolding end_maintenance
end_maintenance-IsValid v = record { distinct = v.distinct; exclusive = λ h. cc }

step-IsValid : (c : Call) {g : OperationGuard} → IsValid g → IsValid (step c g)
step-IsValid (call_begin name kind) v = begin-IsValid name kind v
step-IsValid (call_end name) v = end-IsValid name v
step-IsValid call_begin_maintenance v = begin_maintenance-IsValid v
step-IsValid call_end_maintenance v = end_maintenance-IsValid v

run_from-IsValid : (cs : List Call) {g : OperationGuard} → IsValid g → IsValid (run cs g)
run_from-IsValid [] v = v
run_from-IsValid (c ∷ cs) v = run_from-IsValid cs (step-IsValid c v)

-- After any sequence of calls on a new guard no container has two operations, and during
-- maintenance no container has any.
run-IsValid : (cs : List Call) → IsValid (run cs new_operation_guard)
run-IsValid cs = run_from-IsValid cs (record { distinct = tt; exclusive = λ h. refl })

-- The call does not end the operation of the container.
abbrev pub Spares : Text → Call → Type 0
Spares name (call_end other) = other ≢ name
Spares name _ = Unit

step_keeps :
    (name kind : Text) (c : Call) (g : OperationGuard)
    → Spares name c
    → lookup name g.active ≡ some kind
    → lookup name (step c g).active ≡ some kind
unfolding begin_operation begin end begin_maintenance end_maintenance
step_keeps name kind (call_begin other k) g s h = ground (arith, text_eq_iff other name)
step_keeps name kind (call_end other) g s h = ground (arith, lookup-erase_ne other name g.active s)
step_keeps name kind call_begin_maintenance g s h = ground arith
step_keeps name kind call_end_maintenance g s h = ground arith

run_keeps :
    (name kind : Text) (cs : List Call) (g : OperationGuard)
    → All (Spares name) cs
    → lookup name g.active ≡ some kind
    → lookup name (run cs g).active ≡ some kind
run_keeps name kind [] g s h = h
run_keeps name kind (c ∷ cs) g (s, ss) h =
    run_keeps name kind cs (step c g) ss (step_keeps name kind c g s h)

begin_begun :
    (name kind : Text) (g : OperationGuard)
    → (begin_operation name kind g).0 ≡ none
    → lookup name (begin_operation name kind g).1.active ≡ some kind
unfolding begin_operation begin
begin_begun name kind g e = ground (arith, text_eq_refl name)

lookup-is_nil : (k : Text) (m : Active) {v : Text} → lookup k m ≡ some v → is_nil m ≡ false
lookup-is_nil k [] h = cc
lookup-is_nil k (e ∷ m) h = refl

refused_while_active :
    (name kind k : Text) (g : OperationGuard)
    → IsValid g
    → kind ≢ codes "self-update"
    → lookup name g.active ≡ some kind
    → ((begin_operation name k g).0 ≡ some (operation_in_progress name kind))
      × ((begin_maintenance g).0 ≡ some g.active)
unfolding begin_operation begin begin_maintenance
refused_while_active name kind k g v ne h =
    ground (arith, lookup-is_nil name g.active, text_eq_iff kind (codes "self-update"))

-- Between the begin of an operation on a container and its end, whatever other calls are made, a
-- second operation on that container is refused with the kind of the first, and so is maintenance.
-- The kind is not the one that the guard reports for maintenance.
pub begin_operation_excludes :
    (name kind k : Text) (g : OperationGuard) (cs : List Call)
    → IsValid g
    → kind ≢ codes "self-update"
    → (begin_operation name kind g).0 ≡ none
    → All (Spares name) cs
    → ((begin_operation name k (run cs (begin_operation name kind g).1)).0
        ≡ some (operation_in_progress name kind))
      × ((begin_maintenance (run cs (begin_operation name kind g).1)).0
          ≡ some (run cs (begin_operation name kind g).1).active)
begin_operation_excludes name kind k g cs v ne begun ss =
    refused_while_active name kind k (run cs (begin_operation name kind g).1)
      (run_from-IsValid cs (begin-IsValid name kind v)) ne
      (run_keeps name kind cs (begin_operation name kind g).1 ss (begin_begun name kind g begun))

abbrev pub KeepsMaintenance : Call → Type 0
KeepsMaintenance call_end_maintenance = ⊥
KeepsMaintenance _ = Unit

step_maintenance :
    (c : Call) (g : OperationGuard)
    → KeepsMaintenance c
    → g.maintenance ≡ true
    → (step c g).maintenance ≡ true
unfolding begin_operation begin end begin_maintenance
step_maintenance (call_begin other k) g s h = ground arith
step_maintenance (call_end other) g s h = h
step_maintenance call_begin_maintenance g s h = ground arith
step_maintenance call_end_maintenance g s h = absurd s

run_maintenance :
    (cs : List Call) (g : OperationGuard)
    → All KeepsMaintenance cs
    → g.maintenance ≡ true
    → (run cs g).maintenance ≡ true
run_maintenance [] g s h = h
run_maintenance (c ∷ cs) g (s, ss) h = run_maintenance cs (step c g) ss (step_maintenance c g s h)

refused_in_maintenance :
    (name kind : Text) (g : OperationGuard)
    → g.maintenance ≡ true
    → begin_operation name kind g ≡ (some maintenance_in_progress, g)
unfolding begin_operation begin
refused_in_maintenance name kind g h = ground arith

begin_maintenance_begun :
    (g : OperationGuard)
    → (begin_maintenance g).0 ≡ none
    → (begin_maintenance g).1.maintenance ≡ true
unfolding begin_maintenance
begin_maintenance_begun g h = ground arith

-- From a successful begin of maintenance until its end, whatever other calls are made, every
-- operation is refused with the maintenance error, which tells background jobs to wait, and changes
-- nothing.
begin_maintenance_excludes :
    (name kind : Text) (g : OperationGuard) (cs : List Call)
    → (begin_maintenance g).0 ≡ none
    → All KeepsMaintenance cs
    → begin_operation name kind (run cs (begin_maintenance g).1)
      ≡ (some maintenance_in_progress, run cs (begin_maintenance g).1)
begin_maintenance_excludes name kind g cs begun ss =
    refused_in_maintenance name kind (run cs (begin_maintenance g).1)
      (run_maintenance cs (begin_maintenance g).1 ss (begin_maintenance_begun g begun))
