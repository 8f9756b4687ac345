-- ===== src/Witnesses/Samples.antt =====
-- Sample configurations, files and devices.
use fbs_interlock_gateway.Prelude.{pos, true, none, some, List, [], ◌∷◌}
use fbs_interlock_gateway.Text.{Text, codes}
use fbs_interlock_gateway.Config.{Tool, Config}
use fbs_interlock_gateway.ConfigStore.{Disk}
use fbs_interlock_gateway.ConfigStore.Schema.{Row}

abbrev pub laser : Tool
laser = record {
  interlock_name = codes "laser";
  ip = codes "10.0.0.5";
  protocol = codes "http";
  port = pos 8081;
  switch_id = pos 0;
  username = none;
  password = none;
  enabled = true;
}

abbrev pub pump : Tool
pump = record {
  interlock_name = codes "pump";
  ip = codes "10.0.0.6";
  protocol = codes "http";
  port = pos 8082;
  switch_id = pos 1;
  username = some (codes "admin");
  password = some (codes "abcdefghijklmnopqrstuvwxyz012345");
  enabled = true;
}

-- The laser at another port, and a new tool at its old one.
abbrev pub moved_laser : Tool
moved_laser = record laser { port = pos 8090 }

abbrev pub newcomer : Tool
newcomer = record pump { port = pos 8081 }

abbrev pub config_of_tools : List Tool → Config
config_of_tools ts = record {
  bind = codes "0.0.0.0";
  defaults = record {
    timeout_ms = pos 3000;
    safe_state_on_error = codes "off";
    shelly_tls = record { server_ca_file = []; client_cert_file = []; client_key_file = [] };
  };
  tools = ts;
}

abbrev pub two_tools : Config
two_tools = config_of_tools (laser ∷ pump ∷ [])

abbrev pub mirror_path : Text
mirror_path = codes "config.yaml"

abbrev pub noon : Text
noon = codes "2025-01-01T12:00:00Z"

abbrev pub empty_disk : Disk
empty_disk = record { db = record { settings = none; tools = [] }; mirror = none }

abbrev pub laser_row : Row
laser_row = record {
  id = 1;
  sort_order = 0;
  interlock_name = codes "laser";
  ip = codes "10.0.0.5";
  protocol = codes "http";
  port = pos 8081;
  switch_id = pos 0;
  username = none;
  password = none;
  enabled = 1;
  created_at = noon;
  updated_at = noon;
}
