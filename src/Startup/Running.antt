-- ===== src/Startup/Running.antt =====
-- `runGateway` of cmd/fbs-interlock-gateway/main.go, from the flags to the end of the gateway. The
-- log lines, the signals and the last flush of the log archive are left out.
pub mod Serving
use fbs_interlock_gateway.Startup.Commands.{CommandError, Shell, default_paths}
use fbs_interlock_gateway.Prelude.{
  ◌||◌, not, fail_if, wrap_err, if◌then◌else◌, ℤ, pos, Result, ok, err, ℕ, ◌*◌, ◌^◌, Bool, Option,
  none, some, List, [],
}
use fbs_interlock_gateway.Text.{Text, codes}
use fbs_interlock_gateway.Config.{Config, clone, apply_defaults}
use fbs_interlock_gateway.Applog.Records.{Options}
use fbs_interlock_gateway.Applog.Archive.Files.{Directory}
use fbs_interlock_gateway.Applog.Archive.Writing
use fbs_interlock_gateway.Applog.Archive.Writing.{Clock, Store, open_archive}
use fbs_interlock_gateway.ConfigStore.{Faults, Disk}
use fbs_interlock_gateway.ConfigStore.Opening
use fbs_interlock_gateway.ConfigStore.Opening.{Catalog, OpenFaults, Opened, open_store}
use fbs_interlock_gateway.Shelly.Setup.{KeyFiles}
use fbs_interlock_gateway.Gateway.Running.{Ending, RunError, Launch, client_of, run_gateway}
use fbs_interlock_gateway.Startup.{
  Legacy, StartError, Start, load_or_migrate, resolve_runtime_db_path,
}

pub record Flags : Type 0 where
  pub db : Text
  pub config : Text
  pub show_version : Bool

pub data ProgramError (E : Type 0) : Type 0 where
  no_default_paths : CommandError → ProgramError E
  flags_refused database_unread : ProgramError E
  database_not_opened : Opening.OpenError → ProgramError E
  not_configured : StartError → ProgramError E
  gateway_failed : RunError E → ProgramError E

-- 30 and 14 days in nanoseconds; 64 MiB, 1 GiB, 1 MiB and 8 MiB
abbrev pub default_options : Options
default_options = record {
  max_age = pos (30 * 24 * 3600 * 10 ^ 9);
  preferred_min_age = pos (14 * 24 * 3600 * 10 ^ 9);
  max_file_bytes = pos (64 * 2 ^ 20);
  max_total_bytes = pos (2 ^ 30);
  max_record_bytes = pos (2 ^ 20);
  cleanup_every_bytes = pos (8 * 2 ^ 20);
}

abbrev pub admin_addr : Text
admin_addr = codes "127.0.0.1:18090"

-- What the run finds outside of the program; the shell has the executable and the environment.
pub record Machine : Type 0 where
  pub shell : Shell
  pub clock : Clock
  pub archive_faults : Writing.OpenFaults
  pub logs : Directory
  pub now : ℕ
  pub log_folder : Text → Text  -- beside the database
  pub sibling : Text → Text → Text
  pub store_faults : OpenFaults
  pub load_fails : Bool  -- the first query of the configuration
  pub statement_faults : Faults
  pub catalog : Catalog
  pub disk : Disk
  pub legacy : Text → Legacy  -- what config.Load returns for a path
  pub key_files : KeyFiles
  pub port_fails : ℤ → Bool
  pub time : Text

-- The result, the log archive if there is one, what was started, and the database.
pub record Ran (E : Type 0) : Type 0 where
  pub result : Result (ProgramError E) (Unit {0})
  pub archive : Option Store
  pub launched : List Launch
  pub disk : Disk

-- A log archive that cannot be opened is only reported.
opened_archive : Result Writing.OpenError Store × Directory → Option Store
opened_archive (ok s, d) = some s
opened_archive (err e, d) = none

module _ {E : Type 0} (m : Machine) (ending : Ending E) where
  started : Option Store → Start → Ran E
  started archive (err e, disk) = record {
    result = err (not_configured e);
    archive = archive;
    launched = [];
    disk = disk;
  }
  started archive (ok (cfg, migrated), disk) =
      let (result, launched) =
        run_gateway m.port_fails admin_addr (clone (apply_defaults cfg)) ending
          (client_of m.key_files cfg) in
      record {
        result = wrap_err gateway_failed result;
        archive = archive;
        launched = launched;
        disk = disk;
      }

  not_started : ProgramError E → Option Store → Ran E
  not_started e archive = record { result = err e; archive = archive; launched = []; disk = m.disk }

  -- A database without its tables cannot be queried either.
  with_store : Option Store → Text → Opened → Ran E
  unfolding started not_started
  with_store archive config (err e, catalog) = not_started (database_not_opened e) archive
  with_store archive config (ok _, catalog) =
      if m.load_fails || not catalog.has_tables
      then not_started database_unread archive
      else started archive
          (load_or_migrate m.statement_faults config m.time (m.legacy config) m.disk)

  with_flags : Flags → Ran E
  unfolding with_store opened_archive
  with_flags flags =
      let path = resolve_runtime_db_path m.sibling m.shell.db_path_variable flags.db flags.config in
      with_store
        (opened_archive
          (open_archive m.clock m.archive_faults (m.log_folder path) default_options m.now m.logs))
        flags.config (open_store m.store_faults path m.catalog)

  with_parsed : Option Flags → Ran E
  unfolding with_flags
  with_parsed none = not_started flags_refused none
  with_parsed (some flags) =
      if flags.show_version
      then record { result = ok tt; archive = none; launched = []; disk = m.disk }
      else with_flags flags

  with_defaults : (Text → Option Flags) → Result CommandError (Text × Text) → Ran E
  unfolding with_parsed
  with_defaults parse (err e) = not_started (no_default_paths e) none
  with_defaults parse (ok (db_path, yaml)) = with_parsed (parse yaml)

  -- `parse` gives the flags for the default path of the configuration, or `none` if it refuses them.
  unfoldable pub run_program : (Text → Option Flags) → Ran E
  unfolding with_defaults
  run_program parse = with_defaults parse (default_paths m.shell)
