-- ===== src/Updater/Recreate/Tests.antt =====
-- The theorems of the recreation at an engine of two images, whose containers may refuse removal.
use doupro.Base.{IsOneOf, ◌≡◌, ◌≢◌, refl, true, false, none, some, [], ◌∷◌, codes, ◌⊎◌, ◌↔◌}
use doupro.Updater.Json.{Json, deep_equal, string, number, compare_json_subset}
use doupro.Updater.Json.Subset.{at}
use doupro.Updater.Volumes.{covered, preserve_anonymous_volumes, mount_of}
use doupro.Updater.Volumes.Pinned.{IsPinned, preserve_anonymous_volumes_iff}
use doupro.Updater.Validate.{
  EndpointSettings, Networks, validate_recreation, normalized_host_config, network_of,
  network_config_of,
}
use doupro.Updater.Engine.{Log}
use doupro.Updater.Recreate.{
  RecreationResult, recreate, plan, pull_new, stop_old, remove_old, create_new, check_new,
  start_new,
}
use doupro.Updater.Recreate.Steps.{
  success_log, recreate_success, NotBegun, StopsShort, pulled, recreate_stays,
}
use doupro.Updater.Recreate.Fidelity.{
  created, IsReachable, recreate_keeps_settings, recreate_keeps_network,
}
use doupro.Updater.Fixture.{
  data_point, host, endpoint, networks, web, target, c1, web2, encode_config, encode_host, engine,
}

abbrev result : RecreationResult
result = record {
  id = codes "c2";
  state = codes "running";
  status = codes "running";
  original_stopped = true;
  original_removed = true;
}

abbrev calls : Log
calls = success_log (engine false) c1 (plan (engine false) web target) (codes "c2") []

succeeds_here : recreate (engine false) c1 web target [] ≡ (none, result, calls)
unfolding recreate pull_new stop_old remove_old create_new check_new start_new validate_recreation
    normalized_host_config preserve_anonymous_volumes covered network_config_of compare_json_subset
    deep_equal
succeeds_here = refl

recreate_success_example :
    (calls ≡ success_log (engine false) c1 (plan (engine false) web target) result.id [])
    × (validate_recreation encode_config encode_host
          (plan (engine false) web target)
          (created (engine false) c1 web target result.id [])
        ≡ true)
recreate_success_example =
    recreate_success (engine false) c1 web target result [] calls succeeds_here

policy_here :
    at
      (codes "RestartPolicy" ∷ [])
      (encode_host (normalized_host_config (preserve_anonymous_volumes host web.points)))
    ≡ some (string (codes "always"))
unfolding normalized_host_config preserve_anonymous_volumes
policy_here = refl

recreate_keeps_settings_example :
    ((w : Json) × (at (codes "ExposedPort" ∷ []) (encode_config web2.config) ≡ some w)
      × (deep_equal (number (codes "8080")) w ≡ true))
    × ((w : Json) × (at
            (codes "RestartPolicy" ∷ [])
            (encode_host (normalized_host_config web2.host_config))
          ≡ some w)
        × (deep_equal (string (codes "always")) w ≡ true))
recreate_keeps_settings_example =
    recreate_keeps_settings (engine false) c1 web target result [] calls (codes "ExposedPort" ∷ [])
      (codes "RestartPolicy" ∷ []) (number (codes "8080")) (string (codes "always")) succeeds_here
      refl refl policy_here refl

recreate_keeps_network_example :
    (got : Networks) × (g : EndpointSettings) × (web2.networks ≡ some got)
    × (network_of (codes "shop") got ≡ some (some g))
    × IsReachable endpoint g
recreate_keeps_network_example =
    recreate_keeps_network (engine false) c1 web target result [] calls networks (codes "shop")
      endpoint succeeds_here refl refl

preserve_anonymous_volumes_iff_example :
    IsOneOf (preserve_anonymous_volumes host web.points).mounts (mount_of data_point)
    ↔ (IsOneOf host.mounts (mount_of data_point) ⊎ IsPinned host web.points (mount_of data_point))
preserve_anonymous_volumes_iff_example =
    preserve_anonymous_volumes_iff host web.points (mount_of data_point)

compare_passes : compare_json_subset (encode_config web.config) (encode_config web.config) ≡ true
unfolding compare_json_subset deep_equal
compare_passes = refl

c1_named : c1 ≢ []
c1_named e = cc

stays_here : (recreate (engine true) c1 web target []).1.original_removed ≡ false
unfolding recreate pull_new stop_old remove_old create_new check_new start_new validate_recreation
    normalized_host_config preserve_anonymous_volumes covered network_config_of compare_json_subset
    deep_equal
stays_here = refl

recreate_stays_example :
    NotBegun (engine true) target [] (recreate (engine true) c1 web target [])
    ⊎ StopsShort
        (engine true)
        c1
        (pulled (engine true) target [])
        (recreate (engine true) c1 web target [])
recreate_stays_example = recreate_stays (engine true) c1 web target [] c1_named stays_here
