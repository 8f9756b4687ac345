-- ===== src/Startup/Commands.antt =====
-- cmd/fbs-interlock-gateway/main.go: the commands `config export` and `config import`. The flag
-- parser, the YAML codec and what path/filepath does are arguments, and so is which calls fail. The
-- database is the one at the path of the flag `-db`.
pub mod Export
pub mod Import
pub mod Transfer
use fbs_interlock_gateway.Prelude.{
  ◌==◌, length, if◌then◌else◌, take, Result, ok, err, ◌>>=◌, ◌>>◌, fail_if, wrap_err, required, ℕ,
  Bool, false, not, ◌||◌, Option, none, some, List, [], ◌∷◌, ◌++◌,
}
use fbs_interlock_gateway.Text.{Text, codes, is_empty, trim_space, text_eq}
use fbs_interlock_gateway.Files.{
  FileSystem, FileStep, FileError, path_failed, folder_failed, Written, TempFaults, no_temp_faults,
  through_temp,
}
use fbs_interlock_gateway.Config.{Config, ConfigError, apply_defaults, validate}
use fbs_interlock_gateway.Config.Files.{Yaml, Paths, LoadError, load_file}
use fbs_interlock_gateway.ConfigStore.{Faults, no_faults, Disk, replace_config, load}
use fbs_interlock_gateway.ConfigStore.Schema.{Db, StoreError}
use fbs_interlock_gateway.ConfigStore.Opening.{
  Catalog, OpenError, OpenFaults, no_open_faults, Opened, open_store,
}
use fbs_interlock_gateway.Startup.{redact_config_secrets}

pub data CommandError : Type 0 where
  no_executable usage_export_or_import flags_refused input_required : CommandError
  unknown_command : Text → CommandError
  open_database_failed : OpenError → CommandError
  no_tables database_unread export_not_marshalled stdout_failed : CommandError
  load_database_failed import_database_failed : StoreError → CommandError
  export_not_written : FileError → CommandError
  input_unreadable : LoadError → CommandError
  input_invalid : ConfigError → CommandError

pub record ExportFlags : Type 0 where
  pub db : Text
  pub output : Text
  pub redact_secrets : Bool

pub record ImportFlags : Type 0 where
  pub db : Text
  pub input : Text
  pub mirror_config : Text

-- What the commands take from the operating system and from libraries. A parser gets the defaults
-- and the arguments; none is an error.
pub record Shell : Type 0 where
  pub executable : Option Text
  pub db_path_variable : Text
  pub parse_export : ExportFlags → List Text → Option ExportFlags
  pub parse_import : ImportFlags → List Text → Option ImportFlags
  pub paths : Paths
  pub yaml : Yaml

-- Which calls fail; of a failed write to the standard output, what was written.
pub record Calls : Type 0 where
  pub opening : OpenFaults
  pub statements : Faults
  pub load : Bool
  pub read_input : Bool
  pub stdout : Option Text
  pub temp : TempFaults

abbrev pub no_failed_calls : Calls
no_failed_calls = record {
  opening = no_open_faults;
  statements = no_faults;
  load = false;
  read_input = false;
  stdout = none;
  temp = no_temp_faults;
}

pub record Database : Type 0 where
  pub catalog : Catalog
  pub disk : Disk

-- The paths of the database and of the YAML file.
unfoldable pub default_paths : Shell → Result CommandError (Text × Text)
default_paths sh = do
  exe ← required no_executable sh.executable
  let dir = sh.paths.folder exe
  let db_path = trim_space sh.db_path_variable
  ok (
    if is_empty db_path then sh.paths.join_clean dir (codes "gateway.sqlite3") else db_path,
    sh.paths.join_clean dir (codes "config.yaml"),
  )

abbrev pub export_header : Text
export_header = codes "# Exported from the authoritative SQLite configuration database.\n"

-- To the absolute path of the output.
write_absolute : TempFaults → Text → Option Text → Text → Written
write_absolute f temp none content = (err path_failed, [])
write_absolute f temp (some path) content =
    if f.folder then (err folder_failed, []) else through_temp f temp path content

unfoldable pub write_private_atomic : Paths → TempFaults → Text → Text → Text → Written
unfolding write_absolute
write_private_atomic paths f temp path content = write_absolute f temp (paths.absolute path) content

-- What an export did: its result, what it printed and the steps it took on files.
abbrev pub Exported : Type 0
Exported = Result CommandError (Unit {0}) × Text × List FileStep

exported_file : Written → Exported
exported_file (result, steps) = (wrap_err export_not_written result, [], steps)

print_export : Option Text → Text → Exported
print_export none content = (ok tt, content, [])
print_export (some part) content = (err stdout_failed, part, [])

deliver : Shell → Calls → Text → Text → Option Text → Exported
unfolding exported_file print_export
deliver sh calls temp output none = (err export_not_marshalled, [], [])
deliver sh calls temp output (some body) =
    if text_eq output (codes "-")
    then print_export calls.stdout (export_header ++ body)
    else exported_file
        (write_private_atomic sh.paths calls.temp temp output (export_header ++ body))

-- `store.Load`, on a database that may have no tables.
load_tables : Bool → Catalog → Db → Result CommandError Config
load_tables broken catalog db = do
  fail_if broken database_unread
  fail_if (not catalog.has_tables) no_tables
  wrap_err load_database_failed (load db)

export_config : Shell → Calls → Text → ExportFlags → Result CommandError Config → Exported
unfolding deliver
export_config sh calls temp flags (err e) = (err e, [], [])
export_config sh calls temp flags (ok cfg) =
    deliver sh calls temp flags.output
      (sh.yaml.marshal (if flags.redact_secrets then redact_config_secrets cfg else cfg))

export_opened : Shell → Calls → Text → ExportFlags → Opened → Db → Exported × Catalog
unfolding export_config load_tables
export_opened sh calls temp flags (err e, catalog) db =
    ((err (open_database_failed e), [], []), catalog)
export_opened sh calls temp flags (ok _, catalog) db =
    (export_config sh calls temp flags (load_tables calls.load catalog db), catalog)

export_with : Shell → Calls → Text → Database → Result CommandError ExportFlags → Exported × Catalog
unfolding export_opened
export_with sh calls temp d (err e) = ((err e, [], []), d.catalog)
export_with sh calls temp d (ok flags) =
    export_opened sh calls temp flags (open_store calls.opening flags.db d.catalog) d.disk.db

unfoldable pub export_flags : Shell → List Text → Result CommandError ExportFlags
export_flags sh args = do
  defaults ← default_paths sh
  let unset : ExportFlags = record { db = defaults.0; output = codes "-"; redact_secrets = false }
  required flags_refused (sh.parse_export unset args)

-- `temp` is the name that os.CreateTemp finds.
unfoldable pub run_config_export : Shell → Calls → Text → List Text → Database → Exported × Catalog
unfolding export_with export_flags
run_config_export sh calls temp args d = export_with sh calls temp d (export_flags sh args)

unfoldable pub import_flags : Shell → List Text → Result CommandError ImportFlags
import_flags sh args = do
  defaults ← default_paths sh
  let unset : ImportFlags = record { db = defaults.0; input = []; mirror_config = [] }
  required flags_refused (sh.parse_import unset args)

-- The configuration to import.
read_input : Shell → Calls → ImportFlags → FileSystem → Result CommandError Config
read_input sh calls flags fs = do
  fail_if (is_empty (trim_space flags.input)) input_required
  raw ← wrap_err input_unreadable (load_file sh.yaml sh.paths calls.read_input flags.input fs)
  let cfg = apply_defaults raw
  wrap_err input_invalid (validate cfg)
  ok cfg

-- The number of tools that the command prints, and the database.
abbrev pub Imported : Type 0
Imported = Result CommandError ℕ × Database

import_replaced : Config → Catalog → Result StoreError (Unit {0}) × Disk → Imported
import_replaced cfg catalog (err e, disk) =
    (err (import_database_failed e), record { catalog = catalog; disk = disk })
import_replaced cfg catalog (ok _, disk) =
    (ok (length cfg.tools), record { catalog = catalog; disk = disk })

-- `store.Replace`; without tables its first query fails.
import_opened : Calls → Text → ImportFlags → Config → Opened → Disk → Imported
unfolding import_replaced
import_opened calls now flags cfg (err e, catalog) disk =
    (err (open_database_failed e), record { catalog = catalog; disk = disk })
import_opened calls now flags cfg (ok _, catalog) disk = import_replaced cfg catalog (
    replace_config
      (record statements { load_existing = statements.load_existing || not catalog.has_tables })
      flags.mirror_config now cfg disk)
  where
    open calls use {statements}

import_config :
    Shell → Calls → Text → ImportFlags → Result CommandError Config → Database → Imported
unfolding import_opened
import_config sh calls now flags (err e) d = (err e, d)
import_config sh calls now flags (ok cfg) d =
    import_opened calls now flags cfg (open_store calls.opening flags.db d.catalog) d.disk

import_with :
    Shell → Calls → Text → Result CommandError ImportFlags → FileSystem → Database → Imported
unfolding import_config read_input
import_with sh calls now (err e) fs d = (err e, d)
import_with sh calls now (ok flags) fs d =
    import_config sh calls now flags (read_input sh calls flags fs) d

unfoldable pub run_config_import :
    Shell → Calls → Text → List Text → FileSystem → Database → Imported
unfolding import_with import_flags
run_config_import sh calls now args fs d = import_with sh calls now (import_flags sh args) fs d

-- `runConfigCommand`: what it does with its arguments.
pub data Command : Type 0 where
  refused : CommandError → Command
  exports imports : List Text → Command

unfoldable pub run_config_command : List Text → Command
run_config_command [] = refused usage_export_or_import
run_config_command (name ∷ args) =
    if text_eq name (codes "export")
    then exports args
    else if text_eq name (codes "import")
    then imports args
    else refused (unknown_command name)
