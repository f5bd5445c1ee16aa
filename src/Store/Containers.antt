-- ===== src/Store/Containers.antt =====
-- The table `containers` of internal/store/store.go, as far as the updater and the crash monitor write
-- it: `GetContainer`, `ReplaceContainer`, `SetUpdateAvailable` and `SetContainerState`.
use doupro.Base.{
  Bool, false, ◌&&◌, not, List, [], ◌∷◌, Option, none, some, Text, text_eq, if◌then◌else◌,
}

pub record ContainerRecord : Type 0 where
  pub id : Text
  pub name : Text
  pub state : Text
  pub current_image : Text
  pub previous_image : Text
  pub update_available : Bool

-- The rows, whose key is the container's ID.
abbrev pub Containers : Type 0
Containers = List ContainerRecord

abbrev pub get_container : Text → Containers → Option ContainerRecord
get_container id [] = none
get_container id (r ∷ rs) =
    let rest = get_container id rs in if text_eq r.id id then some r else rest

abbrev pub delete_container : Text → Containers → Containers
delete_container id [] = []
delete_container id (r ∷ rs) =
    let rest = delete_container id rs in if text_eq r.id id then rest else r ∷ rest

-- `ReplaceContainer`: the superseded row goes, and the new one takes the place of a row of its ID.
unfoldable pub replace_container : Text → ContainerRecord → Containers → Containers
replace_container old r rs =
    let kept =
      if not (text_eq old []) && not (text_eq old r.id) then delete_container old rs else rs in
    record r { update_available = false } ∷ delete_container r.id kept

abbrev pub set_update_available : Text → Bool → Containers → Containers
set_update_available id b [] = []
set_update_available id b (r ∷ rs) =
    (if text_eq r.id id then record r { update_available = b } else r)
    ∷ set_update_available id b rs

-- `SetContainerState`; the text of `status` is left out.
unfoldable pub set_container_state : Text → Text → Containers → Containers
set_container_state id state [] = []
set_container_state id state (r ∷ rs) =
    (if text_eq r.id id then record r { state = state } else r) ∷ set_container_state id state rs
