-- ===== src/Startup.antt =====
-- cmd/fbs-interlock-gateway/main.go: which configuration the program starts with, and the secrets
-- that an export hides. Reading YAML is not modelled: `Legacy` is what config.Load returned.
pub mod Restart
pub mod Commands
pub mod Running
use fbs_interlock_gateway.Prelude.{
  if◌then◌else◌, Result, ok, err, Bool, true, false, not, Option, none, some, map,
}
use fbs_interlock_gateway.Text.{Text, codes, is_empty, trim_space}
use fbs_interlock_gateway.Config.{Tool, Config, ConfigError, Check, apply_defaults, validate}
use fbs_interlock_gateway.ConfigStore.{
  Faults, Disk, name_key, replace, replace_config, initialize, load,
}
use fbs_interlock_gateway.ConfigStore.Schema.{StoreError, uninitialized}
use fbs_interlock_gateway.Gateway.{ConfigPersistence}

-- The configuration of a legacy file, or why it could not be loaded.
abbrev pub Legacy : Type 0
Legacy = Result Text Config

pub data StartError : Type 0 where
  load_failed import_failed reload_failed : StoreError → StartError
  legacy_unreadable : Text → StartError
  legacy_invalid : ConfigError → StartError

abbrev pub Start : Type 0
Start = Result StartError (Config × Bool) × Disk

-- What follows the import: the database is read again.
unfoldable pub reload : Result StoreError Config → Disk → Start
reload (ok cfg) disk = (ok (cfg, true), disk)
reload (err e) disk = (err (reload_failed e), disk)

unfoldable pub reload_imported : Result StoreError (Unit {0}) × Disk → Start
unfolding reload
reload_imported (err e, disk) = (err (import_failed e), disk)
reload_imported (ok _, disk) = reload (load disk.db) disk

unfoldable pub import_if_valid : Faults → Text → Text → Config → Check → Disk → Start
unfolding reload_imported
import_if_valid faults path now cfg (err e) disk = (err (legacy_invalid e), disk)
import_if_valid faults path now cfg (ok _) disk =
    reload_imported (initialize faults path now cfg disk)

unfoldable pub import_legacy : Faults → Text → Text → Legacy → Disk → Start
unfolding import_if_valid
import_legacy faults path now (err e) disk = (err (legacy_unreadable e), disk)
import_legacy faults path now (ok raw) disk =
    let cfg = apply_defaults raw in import_if_valid faults path now cfg (validate cfg) disk

unfoldable pub start_from : Faults → Text → Text → Legacy → Result StoreError Config → Disk → Start
unfolding import_legacy
start_from faults path now legacy (ok cfg) disk = (ok (cfg, false), disk)
start_from faults path now legacy (err uninitialized) disk =
    import_legacy faults path now legacy disk
start_from faults path now legacy (err e) disk = (err (load_failed e), disk)

unfoldable pub load_or_migrate : Faults → Text → Text → Legacy → Disk → Start
unfolding start_from
load_or_migrate faults path now legacy disk = start_from faults path now legacy (load disk.db) disk

-- The store as the gateway's persistence: `store.Replace` at the time `now`.
abbrev pub database : Faults → Text → Text → ConfigPersistence StoreError Disk
database faults path now = record { replace = λ cfg disk. replace_config faults path now cfg disk }

redact : Option Text → Option Text
redact none = none
redact (some password) = some (codes "REDACTED")

unfoldable pub redact_tool : Tool → Tool
unfolding redact
redact_tool t = record t { password = redact t.password }

unfoldable pub redact_config_secrets : Config → Config
redact_config_secrets cfg = record cfg { tools = map redact_tool cfg.tools }

-- `resolveRuntimeDBPath`, with the environment's value and filepath.Dir and Join as `sibling`.
unfoldable pub resolve_runtime_db_path : (Text → Text → Text) → Text → Text → Text → Text
resolve_runtime_db_path sibling environment flag_value config_path =
    if not (is_empty (trim_space flag_value))
    then trim_space flag_value
    else if not (is_empty (trim_space environment))
    then trim_space environment
    else sibling config_path (codes "gateway.sqlite3")
