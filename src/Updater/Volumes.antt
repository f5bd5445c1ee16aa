-- ===== src/Updater/Volumes.antt =====
-- `preserveAnonymousVolumes` of internal/updater/recreate.go.
pub mod Covered
pub mod Pinned
use doupro.Base.{
  Bool, true, false, not, ◌&&◌, ◌||◌, List, [], ◌∷◌, ◌++◌, Option, none, some, Text, codes, text_eq,
  includes, keep, get_elem?, if◌then◌else◌,
}
use doupro.Web.Csv.{split}
use doupro.Updater.Json.{Json}

-- `mount.Mount`, as far as it is used; `kind` is its type.
pub record Mount : Type 0 where
  pub kind : Text
  pub source : Text
  pub target : Text
  pub read_only : Bool

pub record MountPoint : Type 0 where
  pub kind : Text
  pub name : Text
  pub destination : Text
  pub rw : Bool

-- `container.HostConfig`: `tmpfs` has the keys of `Tmpfs`, and `rest` the other settings.
pub record HostConfig : Type 0 where
  pub mounts : List Mount
  pub binds : List Text
  pub tmpfs : List Text
  pub oom_kill_disable : Option Bool
  pub rest : Json

abbrev pub targets : List Mount → List Text
targets [] = []
targets (m ∷ ms) = m.target ∷ targets ms

abbrev pub second_of : List Text → List Text
second_of (x ∷ y ∷ ys) = y ∷ []
second_of _ = []

abbrev pub bind_targets : List Text → List Text
unfolding split
bind_targets [] = []
bind_targets (b ∷ bs) = second_of (split b':' b) ++ bind_targets bs

-- The keys of the map `covered`.
unfoldable pub covered : HostConfig → List Text
covered host = targets host.mounts ++ (bind_targets host.binds ++ host.tmpfs)

abbrev pub is_anonymous : HostConfig → MountPoint → Bool
is_anonymous host p =
    text_eq p.kind (codes "volume")
    && not (text_eq p.name [])
    && not (includes (covered host) p.destination)

abbrev pub mount_of : MountPoint → Mount
mount_of p = record {
  kind = codes "volume";
  source = p.name;
  target = p.destination;
  read_only = not p.rw;
}

abbrev pub mounts_of : List MountPoint → List Mount
mounts_of [] = []
mounts_of (p ∷ ps) = mount_of p ∷ mounts_of ps

unfoldable pub preserve_anonymous_volumes : HostConfig → List MountPoint → HostConfig
preserve_anonymous_volumes host points = record host {
  mounts = host.mounts ++ mounts_of (keep (is_anonymous host) points);
}
