-- ===== src/Updater/SelfUpdate/Start.antt =====
-- `StartSelfUpdate` of internal/updater/self_update.go: the daemon closes the gate for operations, makes
-- sure that it may be replaced, and starts the helper. What shuts the daemon down is left out.
pub mod Accepted
use doupro.Base.{
  Bool, true, false, not, ◌&&◌, ◌||◌, ◌++◌, Option, none, some, List, [], ◌∷◌, Text, codes, text_eq,
  starts_with, strip_prefix, if◌then◌else◌, keep,
}
use doupro.Updater.Volumes.{Mount, MountPoint, HostConfig}
use doupro.Updater.Validate.{Config, Inspection}
use doupro.Updater.Engine.{
  Call, Log, Engine, Helper, inspect, pull, remove, start, list_all, create_helper,
}
use doupro.Updater.Guard.{Active, OperationGuard, begin_maintenance, end_maintenance}
use doupro.Updater.SelfUpdate.{call}

-- A container of the engine's list.
pub record Item : Type 0 where
  pub id : Text
  pub labels : List (Text × Text)

-- What is read of the machine and of the types of Docker's API. `blockers` is what the callback
-- `selfBlockers` returns, with `none` for an error; `configured` is that both callbacks are set.
pub record Host (A : Type 0) : Type 0 where
  pub listing : Log → List Item
  pub helper_id : Log → Helper → Text
  pub hostname : Text
  pub socket_path : Text
  pub token : Text
  pub configured : Bool
  pub blockers : Option (List A)
  pub env : Config → List Text
  pub group_add : HostConfig → List Text
  pub source : MountPoint → Text

pub data StartError (A : Type 0) : Type 0 where
  refused_active : Active → StartError A
  identity_unverified not_configured window_unchecked : StartError A
  refused_blocked : List A → StartError A
  not_pulled parent_not_inspected helper_not_created helper_not_started : StartError A

abbrev label_is_true : List (Text × Text) → Bool
label_is_true [] = false
label_is_true ((k, v) ∷ ls) =
    let rest = label_is_true ls in
    if text_eq k (codes "doupro.instance") then text_eq v (codes "true") else rest

abbrev first_named : Text → List Item → Option Text
first_named hostname [] = none
first_named hostname (i ∷ is) =
    let rest = first_named hostname is in if starts_with hostname i.id then some i.id else rest

abbrev only : List Item → Option Text
only (i ∷ []) = some i.id
only _ = none

abbrev or_only : Option Text → List Item → Option Text
or_only (some id) is = some id
or_only none is = only (keep (λ i. label_is_true i.labels) is)

-- `selfContainerID`, of the list of the containers
abbrev pub self_of : Text → List Item → Option Text
self_of hostname is = or_only (if text_eq hostname [] then none else first_named hostname is) is

abbrev or_else : Option Text → Text → Text
or_else none t = t
or_else (some s) t = s

-- `envOrDefault`
unfoldable pub env_or_default : List Text → Text → Text → Text
env_or_default [] key fallback = fallback
env_or_default (item ∷ env) key fallback =
    or_else (strip_prefix (key ++ codes "=") item) (env_or_default env key fallback)

-- `strings.TrimSuffix(s, "/")`
abbrev without_end_slash : Text → Text
without_end_slash [] = []
without_end_slash (c ∷ []) = if text_eq (c ∷ []) (codes "/") then [] else c ∷ []
without_end_slash (c ∷ d ∷ s) = c ∷ without_end_slash (d ∷ s)

abbrev holds_database : Text → MountPoint → Bool
holds_database path point =
    text_eq path point.destination
    || starts_with (without_end_slash point.destination ++ codes "/") path

module _ {A : Type 0} (e : Engine) (h : Host A) where
  open e use {inspection}
  open h use {listing, helper_id, hostname, socket_path, token, blockers, env, group_add, source}

  abbrev helper_mount : MountPoint → Mount
  helper_mount point = record {
    kind = point.kind;
    source = if text_eq point.kind (codes "volume") then point.name else source point;
    target = point.destination;
    read_only = not point.rw;
  }

  -- The mount that the database is on, if any.
  abbrev database_mount : Text → List MountPoint → List Mount
  database_mount path [] = []
  database_mount path (p ∷ ps) =
      let rest = database_mount path ps in
      if holds_database path p then helper_mount p ∷ [] else rest

  -- `parentEnv`; an inspection has its configuration and the host's together.
  abbrev parent_env : Bool → Inspection → List Text
  parent_env ok_ info = if ok_ && info.has_config then env info.config else []

  abbrev pub helper_of : Text → Text → Text → Inspection → Helper
  helper_of self target path parent = record {
    name = codes "doupro-self-update-" ++ token;
    image = target;
    cmd =
        codes "self-update-helper"
        ∷ codes "--parent-id"
        ∷ self
        ∷ codes "--target-image"
        ∷ target
        ∷ codes "--token"
        ∷ token
        ∷ codes "--socket"
        ∷ socket_path
        ∷ codes "--db-path"
        ∷ path
        ∷ [];
    labels =
        (codes "doupro.enable", codes "false")
        ∷ (codes "doupro.self-update-helper", codes "true")
        ∷ [];
    binds = (socket_path ++ codes ":" ++ socket_path) ∷ [];
    group_add = if parent.has_config then group_add parent.host_config else [];
    mounts = database_mount path parent.points;
  }

  -- The end of `StartSelfUpdate`; a helper that cannot be started is removed.
  unfoldable pub start_helper : Text → Helper → Log → Option (StartError A) × Log
  start_helper self helper log =
      let (created, log1) = call e (create_helper helper) log in
      let id = helper_id log helper in
      let (started, log2) = call e (start id) log1 in
      if not created
      then (some helper_not_created, log1)
      else if started
      then (none, (call e (inspect self) log2).1)
      else (some helper_not_started, (call e (remove id) log2).1)

  unfoldable pub prepare : Text → Text → Log → Option (StartError A) × Log
  prepare self target log =
      let (pulled, log1) = call e (pull target) log in
      let (seen, log2) = call e (inspect self) log1 in
      let path =
        env_or_default (parent_env seen (inspection log1 self)) (codes "DOUPRO_DB_PATH")
          (codes "/data/doupro.db") in
      let (found, log3) = call e (inspect self) log2 in
      if not pulled
      then (some not_pulled, log1)
      else if found
      then start_helper self (helper_of self target path (inspection log2 self)) log3
      else (some parent_not_inspected, log3)

  abbrev pub unless_blocked : Option (List A) → Text → Text → Log → Option (StartError A) × Log
  unless_blocked none self target log = (some window_unchecked, log)
  unless_blocked (some (b ∷ bs)) self target log = (some (refused_blocked (b ∷ bs)), log)
  unless_blocked (some []) self target log = prepare self target log

  abbrev pub identified : Text → Text → Option Text → Log → Option (StartError A) × Log
  identified container target none log = (some identity_unverified, log)
  identified container target (some self) log =
      if not (starts_with container self) && not (starts_with self container)
      then (some identity_unverified, log)
      else if not h.configured
      then (some not_configured, log)
      else unless_blocked blockers self target log

  -- Behind the closed gate.
  unfoldable pub start_in_maintenance : Text → Text → Log → Option (StartError A) × Log
  start_in_maintenance container target log =
      let (ok_, log1) = call e list_all log in
      identified container target (if ok_ then self_of hostname (listing log) else none) log1

  -- Unless the helper runs, the gate is opened again.
  abbrev pub gate_after : Option (StartError A) → OperationGuard → OperationGuard
  gate_after none g = g
  gate_after (some err) g = end_maintenance g

  abbrev pub gated :
      Text
      → Text
      → Option Active × OperationGuard
      → Log
      → Option (StartError A) × OperationGuard × Log
  gated container target (some active, g) log = (some (refused_active active), g, log)
  gated container target (none, g) log =
      let (err, log1) = start_in_maintenance container target log in (err, gate_after err g, log1)

  -- `StartSelfUpdate`
  unfoldable pub start_self_update :
      Text → Text → OperationGuard → Log → Option (StartError A) × OperationGuard × Log
  start_self_update container target g log = gated container target (begin_maintenance g) log

  abbrev is_prefixed : Text → Option Text → Bool
  is_prefixed container none = false
  is_prefixed container (some self) = starts_with container self || starts_with self container

  -- `IsSelf`
  unfoldable is_self : Text → Log → Bool × Log
  is_self container log =
      let (ok_, log1) = call e list_all log in
      (is_prefixed container (if ok_ then self_of hostname (listing log) else none), log1)
