-- ===== src/Updater/Fixture.antt =====
-- A container and an engine that the tests of internal/updater run on.
use doupro.Base.{true, false, none, some, [], ◌∷◌, codes, not, Bool, ◌&&◌, Text}
use doupro.Updater.Json.{Json, object, field, end_fields, string, number}
use doupro.Updater.Volumes.{MountPoint, HostConfig, covered, preserve_anonymous_volumes}
use doupro.Updater.Validate.{Config, Inspection, EndpointSettings, Networks}
use doupro.Updater.Engine.{Call, Engine, remove}

abbrev pub is_remove : Call → Bool
is_remove (remove id) = true
is_remove _ = false

abbrev pub data_point : MountPoint
data_point = record {
  kind = codes "volume";
  name = codes "v";
  destination = codes "/data";
  rw = true;
}

abbrev pub host : HostConfig
host = record {
  mounts = [];
  binds = codes "/etc/web:/etc/web:ro" ∷ [];
  tmpfs = [];
  oom_kill_disable = some false;
  rest = string (codes "always");
}

abbrev pub endpoint : EndpointSettings
endpoint = record {
  ipam_config = none;
  links = some [];
  aliases = codes "web" ∷ [];
  mac_address = [];
  driver_opts = none;
}

abbrev pub networks : Networks
networks = (codes "shop", some endpoint) ∷ []

abbrev pub web : Inspection
web = record {
  has_config = true;
  has_state = true;
  status = codes "running";
  running = true;
  name = codes "/web";
  image = codes "sha256:aa";
  config = record { image = codes "web:1"; rest = number (codes "8080") };
  host_config = host;
  restart_count = 0;
  points = data_point ∷ [];
  networks = some networks;
}

abbrev pub target : Text
target = codes "web:2"

abbrev pub c1 : Text
c1 = codes "c1"

abbrev pub web2 : Inspection
unfolding preserve_anonymous_volumes covered
web2 = record web {
  config = record web.config { image = target };
  host_config = preserve_anonymous_volumes host web.points;
  networks = some ((codes "shop", some (record endpoint { links = none })) ∷ []);
}

abbrev pub encode_config : Config → Json
encode_config c =
    object (field (codes "Image") (string c.image) (field (codes "ExposedPort") c.rest end_fields))

abbrev pub encode_host : HostConfig → Json
encode_host h = object (field (codes "RestartPolicy") h.rest end_fields)

-- Every call succeeds, unless `stuck` says that none removes a container.
abbrev pub engine : Bool → Engine
engine stuck = record {
  succeeds = λ log c. not (stuck && is_remove c);
  inspection = λ log id. web2;
  created_id = λ log p. codes "c2";
  config_json = encode_config;
  host_json = encode_host;
}
