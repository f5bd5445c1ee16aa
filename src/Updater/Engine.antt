-- ===== src/Updater/Engine.antt =====
-- What internal/updater asks of the Docker engine. It may fail at any call: whether a call succeeds,
-- and what it returns, is any function of the calls made before it.
use doupro.Base.{Bool, List, Text}
use doupro.Updater.Json.{Json}
use doupro.Updater.Volumes.{Mount, HostConfig}
use doupro.Updater.Validate.{Config, Inspection, RecreationPlan}

-- The settings of the container that replaces the daemon's; it is removed when it ends.
pub record Helper : Type 0 where
  pub name : Text
  pub image : Text
  pub cmd : List Text
  pub labels : List (Text × Text)
  pub binds : List Text
  pub group_add : List Text
  pub mounts : List Mount

-- The methods of the Docker client that a recreation calls.
pub data Call : Type 0 where
  inspect pull stop remove start wait_healthy : Text → Call
  create : RecreationPlan → Call
  -- those of a self-update besides
  list_all : Call
  rename : Text → Text → Call
  create_helper : Helper → Call

-- The calls that were made, the last one first, and whether each succeeded.
abbrev pub Log : Type 0
Log = List (Call × Bool)

pub record Engine : Type 0 where
  pub succeeds : Log → Call → Bool
  pub inspection : Log → Text → Inspection
  pub created_id : Log → RecreationPlan → Text
  -- `encoding/json` on `container.Config` and on `container.HostConfig`
  pub config_json : Config → Json
  pub host_json : HostConfig → Json
