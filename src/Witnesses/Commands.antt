-- ===== src/Witnesses/Commands.antt =====
-- Files of the configuration, the database, and the commands that copy between them.
use fbs_interlock_gateway.Prelude.{
  any, pos, ok, ◌≡◌, refl, true, false, some, List, [], ◌∷◌, ◌++◌, length, err, ok-injective, sym,
  ap, ◌∙◌, ◌⊎◌,
}
use fbs_interlock_gateway.Text.{
  Text, codes, is_space, trim_left, trim_right, trim_space, to_lower, lower_code, text_eq,
  has_prefix, contains,
}
use fbs_interlock_gateway.Dict.{int_key, text_key, lookup, insert, erase}
use fbs_interlock_gateway.Files.{FileSystem, through_temp, file_step, file_steps}
use fbs_interlock_gateway.Files.Atomic.{IsAtomic}
use fbs_interlock_gateway.Config.{
  Config, clone, clone_tool, clone_string, validate, apply_defaults, default_bind, default_timeout,
  default_safe_state, validate_loop, claim_port, seen_at, validate_tool, validate_tool_protocol,
  tool_protocol, or_http, validate_tls_config, https_required,
}
use fbs_interlock_gateway.Config.Files.{
  Yaml, Paths, no_write_faults, resolve_relative_path, resolve_tls, load_file, write_atomic,
}
use fbs_interlock_gateway.Config.Files.Saving.{write_atomic-IsAtomic}
use fbs_interlock_gateway.ConfigStore.{
  no_faults, name_key, initialize, note_existing, note_all, known_tools, preserved, tool_row,
  identified, insert_tools, settings_of, transaction, write_mirror, finish_replace, replace,
  replace_config, tool_of_row, place_row, by_sort_order, config_of, load_settings, load,
}
use fbs_interlock_gateway.ConfigStore.Schema.{
  insert_row, row_ok, clashes, sql_trim, sql_trim_left, sql_trim_right, password_ok,
  is_alphanumeric, settings_ok,
}
use fbs_interlock_gateway.ConfigStore.RoundTrip.{stored_config}
use fbs_interlock_gateway.ConfigStore.Mirror.{
  mirror_header, no_mirror_faults, write_generated_mirror,
}
use fbs_interlock_gateway.ConfigStore.Mirror.Backup.{write_generated_mirror-IsAtomic}
use fbs_interlock_gateway.ConfigStore.Opening.{Catalog, no_open_faults, migrate, open_store}
use fbs_interlock_gateway.ConfigStore.Opening.Upgrade.{
  KeptOrCreated, FailedOrReady, open_store_safe,
}
use fbs_interlock_gateway.Startup.Commands.{
  Shell, ExportFlags, ImportFlags, Database, CommandError, no_failed_calls, default_paths,
  export_flags, import_flags, run_config_export, run_config_import, write_private_atomic,
  export_header,
}
use fbs_interlock_gateway.Startup.Commands.Export.{
  reset_passwords, run_config_export-reset_passwords,
}
use fbs_interlock_gateway.Startup.Commands.Import.{Read, run_config_import_outcome}
use fbs_interlock_gateway.Startup.Commands.Transfer.{run_config_import-run_config_export}
use fbs_interlock_gateway.Witnesses.Samples.{two_tools, mirror_path, noon, empty_disk}

-- A codec that knows one configuration.
abbrev yaml : Yaml
yaml = record { marshal = λ cfg. some (codes "two"); unmarshal = λ s. some two_tools }

abbrev paths : Paths
paths = record {
  absolute = λ p. some p;
  folder = λ p. codes "/d";
  is_absolute = λ p. true;
  join_clean = λ a b. b;
}

abbrev out_path : Text
out_path = codes "out.yaml"

abbrev temp_path : Text
temp_path = codes "tmp"

write_atomic-IsAtomic_example :
    IsAtomic out_path (codes "two") [] (write_atomic yaml no_write_faults out_path two_tools [])
write_atomic-IsAtomic_example =
    write_atomic-IsAtomic yaml no_write_faults out_path two_tools (codes "two") [] refl

write_generated_mirror-IsAtomic_example :
    IsAtomic out_path
      (mirror_header ++ codes "two")
      []
      (write_generated_mirror yaml no_mirror_faults temp_path out_path two_tools [])
write_generated_mirror-IsAtomic_example =
    write_generated_mirror-IsAtomic out_path yaml no_mirror_faults temp_path two_tools (codes "two")
      [] (λ e. cc) refl

abbrev blank : Catalog
blank = record { user_version = pos 0; has_tables = false }

open_store_safe_example :
    KeptOrCreated blank (open_store no_open_faults (codes "db") blank).1
    × FailedOrReady (open_store no_open_faults (codes "db") blank) blank
open_store_safe_example = open_store_safe no_open_faults (codes "db") blank

-- A shell whose arguments are the switch that hides passwords, or none.
abbrev pub shell : Shell
shell = record {
  executable = some (codes "/d/gateway");
  db_path_variable = [];
  parse_export = λ unset args.
      some (record unset { output = out_path; redact_secrets = any (λ a. true) args });
  parse_import = λ unset args. some (record unset { input = out_path });
  paths = paths;
  yaml = yaml;
}

abbrev hidden : ExportFlags
hidden = record { db = codes "gateway.sqlite3"; output = out_path; redact_secrets = true }

abbrev plain : ExportFlags
plain = record { db = codes "gateway.sqlite3"; output = out_path; redact_secrets = false }

abbrev incoming : ImportFlags
incoming = record { db = codes "gateway.sqlite3"; input = out_path; mirror_config = [] }

abbrev ready : Catalog
ready = record { user_version = pos 1; has_tables = true }

abbrev filled : Database
filled = record {
  catalog = ready;
  disk = (initialize no_faults mirror_path noon two_tools empty_disk).1;
}

abbrev vacant : Database
vacant = record { catalog = ready; disk = empty_disk }

abbrev redact_args : List Text
redact_args = codes "-redact-secrets" ∷ []

hidden_flags : export_flags shell redact_args ≡ ok hidden
unfolding export_flags default_paths trim_space trim_left trim_right
hidden_flags = refl

run_config_export-reset_passwords_example :
    run_config_export shell no_failed_calls temp_path redact_args (record filled {
      disk = record filled.disk { db = reset_passwords (λ p. []) filled.disk.db };
    })
    ≡ run_config_export shell no_failed_calls temp_path redact_args filled
run_config_export-reset_passwords_example =
    run_config_export-reset_passwords (λ p. []) shell no_failed_calls temp_path redact_args filled
      hidden hidden_flags refl

plain_flags : export_flags shell [] ≡ ok plain
unfolding export_flags default_paths trim_space trim_left trim_right
plain_flags = refl

incoming_flags : import_flags shell [] ≡ ok incoming
unfolding import_flags default_paths trim_space trim_left trim_right
incoming_flags = refl

abbrev out_file : FileSystem
out_file = (out_path, export_header ++ codes "two") ∷ []

run_config_import_outcome_example :
    let (result, d) = run_config_import shell no_failed_calls noon [] out_file vacant in
    ((e : CommandError) × (result ≡ err e) × (d.disk ≡ empty_disk))
    ⊎ ((raw : Config) × Read shell no_failed_calls incoming out_file raw
        × (result ≡ ok (length raw.tools))
        × (load d.disk.db ≡ ok (stored_config (apply_defaults raw))))
run_config_import_outcome_example =
    run_config_import_outcome shell no_failed_calls noon [] incoming out_file vacant incoming_flags

filled_loads : load filled.disk.db ≡ ok two_tools
unfolding initialize load load_settings config_of by_sort_order place_row tool_of_row replace
    transaction known_tools note_all note_existing settings_of settings_ok insert_tools identified
    preserved name_key tool_row insert_row row_ok clashes sql_trim sql_trim_left sql_trim_right
    password_ok is_alphanumeric finish_replace write_mirror clone clone_tool clone_string lookup
    insert validate apply_defaults default_bind default_timeout default_safe_state validate_loop
    claim_port seen_at validate_tool validate_tool_protocol tool_protocol or_http
    validate_tls_config https_required trim_space trim_left trim_right is_space contains has_prefix
    text_eq to_lower lower_code
filled_loads = refl

exports : (run_config_export shell no_failed_calls temp_path [] filled).0.0 ≡ ok tt
unfolding run_config_export export_flags default_paths open_store migrate write_private_atomic
    through_temp initialize load load_settings config_of by_sort_order place_row tool_of_row replace
    transaction known_tools note_all note_existing settings_of settings_ok insert_tools identified
    preserved name_key tool_row insert_row row_ok clashes sql_trim sql_trim_left sql_trim_right
    password_ok is_alphanumeric finish_replace write_mirror clone clone_tool clone_string lookup
    insert validate apply_defaults default_bind default_timeout default_safe_state validate_loop
    claim_port seen_at validate_tool validate_tool_protocol tool_protocol or_http
    validate_tls_config https_required trim_space trim_left trim_right is_space contains has_prefix
    text_eq to_lower lower_code
exports = refl

abbrev exported_files : FileSystem
exported_files = file_steps (run_config_export shell no_failed_calls temp_path [] filled).0.2 []

imports : (run_config_import shell no_failed_calls noon [] exported_files vacant).0 ≡ ok 2
unfolding run_config_export run_config_import import_flags load_file resolve_tls
    resolve_relative_path file_steps file_step erase replace_config export_flags default_paths
    open_store migrate write_private_atomic through_temp initialize load load_settings config_of
    by_sort_order place_row tool_of_row replace transaction known_tools note_all note_existing
    settings_of settings_ok insert_tools identified preserved name_key tool_row insert_row row_ok
    clashes sql_trim sql_trim_left sql_trim_right password_ok is_alphanumeric finish_replace
    write_mirror clone clone_tool clone_string lookup insert validate apply_defaults default_bind
    default_timeout default_safe_state validate_loop claim_port seen_at validate_tool
    validate_tool_protocol tool_protocol or_http validate_tls_config https_required trim_space
    trim_left trim_right is_space contains has_prefix text_eq to_lower lower_code
imports = refl

reads_back :
    (cfg : Config) (body : Text)
    → load filled.disk.db ≡ ok cfg
    → yaml.marshal cfg ≡ some body
    → yaml.unmarshal (export_header ++ body) ≡ some cfg
reads_back cfg body loaded m = ap some (ok-injective (sym filled_loads ∙ loaded))

output_is_file : text_eq out_path (codes "-") ≡ false
unfolding text_eq
output_is_file = refl

run_config_import-run_config_export_example :
    (cfg : Config) × (load filled.disk.db ≡ ok cfg)
    × (2 ≡ length cfg.tools)
    × (load (run_config_import shell no_failed_calls noon [] exported_files vacant).1.disk.db
        ≡ ok (stored_config (apply_defaults (resolve_tls paths (codes "/d") cfg))))
run_config_import-run_config_export_example =
    run_config_import-run_config_export shell no_failed_calls temp_path out_path [] plain filled []
      no_failed_calls noon [] incoming vacant 2 plain_flags refl output_is_file refl (λ e. cc)
      exports incoming_flags refl reads_back imports
