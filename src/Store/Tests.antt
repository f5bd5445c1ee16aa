-- ===== src/Store/Tests.antt =====
-- The theorems on rollback watches at concrete crashes.
use doupro.Base.{◌≤◌, [], ◌∷◌, Text, List, codes, arith}
use doupro.Store.Time.{Time}
use doupro.Store.Watches.{RollbackWatch, armed, Call, call_crash, call_expire, call_restarts}
use doupro.Store.Watches.Trigger.{IsValid}
use doupro.Store.Watches.Once.{triggers, triggers-le-one}

abbrev noon : Time
noon = record { second = 43_200; nano = 0 }

abbrev half_past : Time
half_past = record { second = 43_200; nano = 500_000_000 }

abbrev later : Time
later = record { second = 43_260; nano = 7 }

abbrev web : Text
web = codes "web"

abbrev watch : RollbackWatch
watch = armed web (codes "c1") noon 600 2 0

abbrev crashes : List Call
crashes =
    call_crash web (codes "c1") 5 half_past
    ∷ call_crash web (codes "c1") 5 half_past
    ∷ call_restarts web 1
    ∷ call_crash web (codes "c1") 6 later
    ∷ call_expire later
    ∷ []

triggers-le-one_example : triggers web crashes (watch ∷ []) ≤ 1
triggers-le-one_example = triggers-le-one web crashes (watch ∷ []) (tt, (tt, (tt, (tt, (tt, tt)))))

watch-IsValid : IsValid watch
watch-IsValid = record { fits = omega arith }
