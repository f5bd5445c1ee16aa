-- ===== src/Updater/Guard/Tests.antt =====
-- The guard's theorems at a concrete run of the daemon.
use doupro.Base.{◌≡◌, ◌≢◌, refl, none, some, [], ◌∷◌, Text, List, codes, arith, text_eq_iff}
use doupro.Updater.Guard.{
  new_operation_guard, begin, begin_operation, begin_maintenance, Call, call_begin, call_end,
  call_begin_maintenance, run, operation_in_progress,
}
use doupro.Updater.Guard.Exclusion.{IsValid, begin_operation_excludes}

abbrev web : Text
web = codes "web"

abbrev update_ : Text
update_ = codes "update"

abbrev others : List Call
others = call_begin (codes "db") update_ ∷ call_begin_maintenance ∷ call_end (codes "db") ∷ []

new-IsValid : IsValid new_operation_guard
new-IsValid = record { distinct = tt; exclusive = λ h. refl }

db_not_web : codes "db" ≢ web
db_not_web e = ground (arith, text_eq_iff (codes "db") web)

update_not_self : update_ ≢ codes "self-update"
update_not_self e = ground (arith, text_eq_iff update_ (codes "self-update"))

web_begun : (begin_operation web update_ new_operation_guard).0 ≡ none
unfolding begin_operation begin
web_begun = refl

maintenance_begun : (begin_maintenance new_operation_guard).0 ≡ none
unfolding begin_maintenance
maintenance_begun = refl

begin_operation_excludes_example :
    ((begin_operation web
        (codes "rollback")
        (run others (begin_operation web update_ new_operation_guard).1)).0
      ≡ some (operation_in_progress web update_))
    × ((begin_maintenance (run others (begin_operation web update_ new_operation_guard).1)).0
        ≡ some (run others (begin_operation web update_ new_operation_guard).1).active)
begin_operation_excludes_example =
    begin_operation_excludes web update_ (codes "rollback") new_operation_guard others new-IsValid
      update_not_self web_begun (tt, (tt, (db_not_web, tt)))
