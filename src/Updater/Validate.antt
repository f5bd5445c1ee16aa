-- ===== src/Updater/Validate.antt =====
-- `validateRecreation` of internal/updater/recreate.go: whether the container that Docker created
-- has the settings it was asked for.
use doupro.Base.{
  ℕ, Bool, true, false, ◌&&◌, ◌||◌, List, [], ◌∷◌, Option, none, some, Text, text_eq, includes,
  if◌then◌else◌,
}
use doupro.Updater.Json.{Json, deep_equal, compare_json_subset}
use doupro.Updater.Volumes.{HostConfig, MountPoint}

-- `network.EndpointSettings`: what a user sets. The slices, the map and the pointer may be nil, which
-- `reflect.DeepEqual` tells from empty; the driver's options are the map's document.
pub record EndpointSettings : Type 0 where
  pub ipam_config : Option Json
  pub links : Option (List Text)
  pub aliases : List Text
  pub mac_address : Text
  pub driver_opts : Option Json

-- `Networks`, from a network's name to its endpoint, which may be nil.
abbrev pub Networks : Type 0
Networks = List (Text × Option EndpointSettings)

-- `container.Config`: `rest` is the document of the other settings.
pub record Config : Type 0 where
  pub image : Text
  pub rest : Json

-- The inspection of a container, as far as it is read. `has_config` is that `Config` and `HostConfig`
-- are there, and `has_state` that `State` is; `image` is the ID of the image that runs.
pub record Inspection : Type 0 where
  pub has_config : Bool
  pub has_state : Bool
  pub status : Text
  pub running : Bool
  pub name : Text
  pub image : Text
  pub config : Config
  pub host_config : HostConfig
  pub restart_count : ℕ
  pub points : List MountPoint
  pub networks : Option Networks

pub record RecreationPlan : Type 0 where
  pub config : Config
  pub host_config : HostConfig
  pub network_config : Option Networks
  pub name : Text
  pub was_running : Bool

abbrev pub is_false : Option Bool → Bool
is_false (some false) = true
is_false _ = false

unfoldable pub normalized_host_config : HostConfig → HostConfig
normalized_host_config host =
    if is_false host.oom_kill_disable then record host { oom_kill_disable = none } else host

-- `stringSliceContained`
abbrev pub string_slice_contained : List Text → List Text → Bool
string_slice_contained [] got = true
string_slice_contained (v ∷ want) got = includes got v && string_slice_contained want got

abbrev pub same_document : Option Json → Option Json → Bool
same_document none none = true
same_document (some a) (some b) = deep_equal a b
same_document _ _ = false

abbrev pub texts_equal : List Text → List Text → Bool
texts_equal [] [] = true
texts_equal (s ∷ ss) (t ∷ ts) = text_eq s t && texts_equal ss ts
texts_equal _ _ = false

abbrev pub same_links : Option (List Text) → Option (List Text) → Bool
same_links none none = true
same_links (some a) (some b) = texts_equal a b
same_links _ _ = false

abbrev pub endpoint_kept : EndpointSettings → EndpointSettings → Bool
endpoint_kept expected got =
    same_document expected.ipam_config got.ipam_config
    && same_links expected.links got.links
    && string_slice_contained expected.aliases got.aliases
    && same_document expected.driver_opts got.driver_opts
    && (text_eq expected.mac_address [] || text_eq expected.mac_address got.mac_address)

abbrev pub network_of : Text → Networks → Option (Option EndpointSettings)
network_of name [] = none
network_of name ((n, e) ∷ ns) =
    let rest = network_of name ns in if text_eq n name then some e else rest

-- A nil endpoint for a network whose settings are expected makes the source panic; here it is refused.
abbrev pub network_kept : Option EndpointSettings → Option (Option EndpointSettings) → Bool
network_kept expected none = false
network_kept none (some got) = true
network_kept (some expected) (some none) = false
network_kept (some expected) (some (some got)) = endpoint_kept expected got

abbrev pub all_kept : Networks → Networks → Bool
all_kept [] got = true
all_kept ((name, expected) ∷ ns) got =
    network_kept expected (network_of name got) && all_kept ns got

abbrev pub networks_kept : Option Networks → Option Networks → Bool
networks_kept none got = true
networks_kept (some expected) none = false
networks_kept (some expected) (some got) = all_kept expected got

-- `encoding/json` on the two types of Docker's API
module _ (config_json : Config → Json) (host_json : HostConfig → Json) where
  -- whether `validateRecreation` returns no error
  unfoldable pub validate_recreation : RecreationPlan → Inspection → Bool
  validate_recreation plan actual =
      actual.has_config
      && compare_json_subset (config_json plan.config) (config_json actual.config)
      && compare_json_subset (host_json (normalized_host_config plan.host_config))
          (host_json (normalized_host_config actual.host_config))
      && networks_kept plan.network_config actual.networks

-- The copy of an endpoint for a plan: `append([]string(nil), …)` of an empty slice is nil.
abbrev pub copy_links : Option (List Text) → Option (List Text)
copy_links (some []) = none
copy_links links = links

abbrev pub copy_endpoint : Option EndpointSettings → Option EndpointSettings
copy_endpoint none = none
copy_endpoint (some e) = some (record e { links = copy_links e.links })

abbrev pub copy_networks : Networks → Networks
copy_networks [] = []
copy_networks ((name, e) ∷ ns) = (name, copy_endpoint e) ∷ copy_networks ns

-- Of `NetworkSettings`, where there are any networks.
unfoldable pub network_config_of : Option Networks → Option Networks
network_config_of none = none
network_config_of (some []) = none
network_config_of (some (n ∷ ns)) = some (copy_networks (n ∷ ns))
