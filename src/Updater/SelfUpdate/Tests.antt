-- ===== src/Updater/SelfUpdate/Tests.antt =====
-- The theorems on the self-update: of a helper whose replacement does not become healthy, of one that
-- succeeds, and of a daemon whose update is accepted.
use doupro.Base.{◌≡◌, ◌≢◌, refl, true, false, none, some, [], ◌∷◌, Text, codes, ℕ, Bool, arith}
use doupro.Updater.Engine.{Call, Engine, wait_healthy}
use doupro.Updater.Guard.{new_operation_guard}
use doupro.Updater.Fixture.{engine, web, target, c1}
use doupro.Updater.SelfUpdate.{
  Hostnames, helper_plan, run_self_update_helper, stop_parent, rename_parent, replace,
  run_replacement,
}
use doupro.Updater.SelfUpdate.Recovery.{after_calls, shown, Ends, run_self_update_helper-Ends}
use doupro.Updater.SelfUpdate.Success.{success_log, run_self_update_helper_success}
use doupro.Updater.SelfUpdate.Start.{Host, start_self_update}
use doupro.Updater.SelfUpdate.Start.Accepted.{Settles, start_self_update-Settles}

abbrev is_not_health_check : Call → Bool
is_not_health_check (wait_healthy id) = false
is_not_health_check _ = true

-- Every call succeeds.
abbrev sound : Engine
sound = record (engine false) { inspection = λ log id. web }

abbrev unhealthy : Engine
unhealthy = record sound { succeeds = λ log c. is_not_health_check c }

abbrev hostnames : Hostnames
hostnames = record { hostname = λ c. []; without_hostname = λ c. c }

abbrev token : Text
token = codes "17"

c2_not_c1 : codes "c2" ≢ c1
c2_not_c1 e = ground arith

run_self_update_helper-Ends_example :
    Ends
      (run_self_update_helper unhealthy hostnames c1 target token []).0
      (shown web)
      (after_calls c1 (shown web) (run_self_update_helper unhealthy hostnames c1 target token []).1)
run_self_update_helper-Ends_example =
    run_self_update_helper-Ends unhealthy hostnames c1 target token (shown web) []
      (λ l p. c2_not_c1) (λ e. ground arith) refl

succeeded : (run_self_update_helper sound hostnames c1 target token []).0 ≡ none
unfolding run_self_update_helper stop_parent rename_parent replace run_replacement
succeeded = refl

run_self_update_helper_success_example :
    (run_self_update_helper sound hostnames c1 target token []).1
    ≡ success_log (engine false) hostnames c1 (helper_plan sound hostnames c1 web target) token []
run_self_update_helper_success_example =
    run_self_update_helper_success sound hostnames c1 target token [] succeeded

abbrev daemon_host : Host ℕ
daemon_host = record {
  listing =
      λ log. record { id = codes "c1"; labels = (codes "doupro.instance", codes "true") ∷ [] } ∷ [];
  helper_id = λ log p. codes "h1";
  hostname = codes "myhost";
  socket_path = codes "/var/run/docker.sock";
  token = token;
  configured = true;
  blockers = some [];
  env = λ c. codes "DOUPRO_DB_PATH=/data/db" ∷ [];
  group_add = λ c. [];
  source = λ p. [];
}

start_self_update-Settles_example :
    Settles
      (engine false)
      daemon_host
      target
      new_operation_guard
      (start_self_update sound daemon_host c1 target new_operation_guard [])
start_self_update-Settles_example =
    start_self_update-Settles sound daemon_host c1 target new_operation_guard []
