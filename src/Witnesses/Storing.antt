-- ===== src/Witnesses/Storing.antt =====
-- Configurations: validation, storing, restarts and the administration interface.
use fbs_interlock_gateway.Prelude.{
  arith, AllDistinct, pos, ok, err, ◌≡◌, refl, ◌≢◌, ◌↔◌, ◌⊎◌, true, false, none, some, [], ◌∷◌,
}
use fbs_interlock_gateway.Text.{
  codes, is_space, trim_left, trim_right, trim_space, lower_code, to_lower, text_eq, has_prefix,
  contains,
}
use fbs_interlock_gateway.Config
use fbs_interlock_gateway.Config.{
  Config, duplicate_port, clone_string, clone_tool, clone, default_bind, default_timeout,
  default_safe_state, apply_defaults, safe_output, or_http, tool_protocol, validate_tool_protocol,
  validate_tool, https_required, validate_tls_config, seen_at, claim_port, validate_loop, validate,
  validate_enabled_tools,
}
use fbs_interlock_gateway.Config.Validation.{IsValidConfig, validate_iff}
use fbs_interlock_gateway.Config.Enabled.{enabled_part, validate_enabled_tools_iff}
use fbs_interlock_gateway.ConfigStore.{
  no_faults, Disk, name_key, note_existing, note_all, known_tools, preserved, tool_row, identified,
  insert_tools, settings_of, transaction, write_mirror, finish_replace, replace, replace_config,
  initialize, load,
}
use fbs_interlock_gateway.ConfigStore.Schema.{
  StoreError, sql_trim_left, sql_trim_right, sql_trim, is_alphanumeric, password_ok, row_ok,
  clashes, insert_row, settings_ok,
}
use fbs_interlock_gateway.ConfigStore.Loading.{load-replace}
use fbs_interlock_gateway.ConfigStore.RoundTrip.{stored_config}
use fbs_interlock_gateway.ConfigStore.Collision.{replace-moved_tool_fails}
use fbs_interlock_gateway.Admin.Update.{
  ConfigRequest, normalize_tool_name, unless_empty, normalize_optional_string, has_non_empty_string,
  tool_response, get_config, note_name, note_password, note_passwords, stored_passwords,
  by_port_password, by_name_password, name_lookup, requested_password, protocol_of, updated_tool,
  build_updated_config,
}
use fbs_interlock_gateway.Admin.Update.Saving.{
  resend, names_of, IsTidy, build_updated_config-resend,
}
use fbs_interlock_gateway.Gateway.{
  Gateway, UpdateError, config_snapshot, adopt, write_with, write_if_valid, update_config,
  put_config,
}
use fbs_interlock_gateway.Gateway.Updates.{update_config_outcome}
use fbs_interlock_gateway.Startup.{load_or_migrate, database}
use fbs_interlock_gateway.Startup.Restart.{database_promises, load_or_migrate-put_config}
use fbs_interlock_gateway.Dict.{int_key, text_key, lookup, insert}
use fbs_interlock_gateway.Witnesses.Samples.{
  laser, pump, moved_laser, newcomer, config_of_tools, two_tools, mirror_path, noon, empty_disk,
  laser_row,
}

validate_iff_example : (validate two_tools ≡ ok tt) ↔ IsValidConfig two_tools
validate_iff_example = validate_iff two_tools

two_tools-valid : validate two_tools ≡ ok tt
unfolding validate apply_defaults default_bind default_timeout default_safe_state validate_loop
    claim_port seen_at validate_tool validate_tool_protocol tool_protocol or_http
    validate_tls_config https_required trim_space trim_left trim_right is_space contains has_prefix
    text_eq to_lower lower_code
two_tools-valid = refl

repeated_port-invalid :
    validate (config_of_tools (laser ∷ newcomer ∷ []))
    ≡ err (duplicate_port (pos 8081) (codes "laser") (codes "pump"))
unfolding validate apply_defaults default_bind default_timeout default_safe_state validate_loop
    claim_port seen_at validate_tool validate_tool_protocol tool_protocol or_http
    validate_tls_config https_required trim_space trim_left trim_right is_space contains has_prefix
    text_eq to_lower lower_code
repeated_port-invalid = refl

-- The configuration that the database refuses below is valid.
moved_tools-valid : validate (config_of_tools (moved_laser ∷ newcomer ∷ [])) ≡ ok tt
unfolding validate apply_defaults default_bind default_timeout default_safe_state validate_loop
    claim_port seen_at validate_tool validate_tool_protocol tool_protocol or_http
    validate_tls_config https_required trim_space trim_left trim_right is_space contains has_prefix
    text_eq to_lower lower_code
moved_tools-valid = refl

validate_enabled_tools_iff_example :
    (validate_enabled_tools two_tools ≡ ok tt) ↔ IsValidConfig (enabled_part two_tools)
validate_enabled_tools_iff_example = validate_enabled_tools_iff two_tools

stored_two : (replace no_faults mirror_path noon two_tools true empty_disk).0 ≡ ok tt
unfolding replace transaction known_tools note_all note_existing settings_of settings_ok
    insert_tools identified preserved name_key tool_row insert_row row_ok clashes sql_trim
    sql_trim_left sql_trim_right password_ok is_alphanumeric finish_replace write_mirror clone
    clone_tool clone_string lookup insert validate apply_defaults default_bind default_timeout
    default_safe_state validate_loop claim_port seen_at validate_tool validate_tool_protocol
    tool_protocol or_http validate_tls_config https_required trim_space trim_left trim_right
    is_space contains has_prefix text_eq to_lower lower_code
stored_two = refl

load-replace_example :
    load (replace no_faults mirror_path noon two_tools true empty_disk).1.db
    ≡ ok (stored_config (apply_defaults two_tools))
load-replace_example = load-replace no_faults mirror_path noon two_tools true empty_disk stored_two

replace-moved_tool_fails_example :
    (replace no_faults mirror_path noon
      (config_of_tools (moved_laser ∷ newcomer ∷ []))
      true
      (record { db = record { settings = none; tools = laser_row ∷ [] }; mirror = none })).0
    ≢ ok tt
unfolding name_key trim_space trim_left trim_right is_space to_lower lower_code
replace-moved_tool_fails_example =
    replace-moved_tool_fails no_faults mirror_path noon two_tools true laser_row moved_laser
      newcomer [] none none refl (λ e. cc) refl

abbrev laser_gateway : Gateway
laser_gateway = record {
  cfg = config_of_tools (laser ∷ []);
  safe_output = false;
  status_store = record { statuses = []; order = []; next = 0 };
}

abbrev save_two : ConfigRequest
save_two = resend (get_config two_tools)

update_config_outcome_example :
    let store = database no_faults mirror_path noon in
    let (result, (g', s')) = update_config (some store) two_tools (laser_gateway, empty_disk) in
    ((e : UpdateError StoreError) × (result ≡ err e) × (g' ≡ laser_gateway) × (s' ≡ empty_disk))
    ⊎ ((result ≡ ok tt)
        × (validate (apply_defaults two_tools) ≡ ok tt)
        × (g' ≡ record laser_gateway {
          cfg = apply_defaults two_tools;
          safe_output = Config.safe_output (apply_defaults two_tools);
        })
        × ((database_promises no_faults mirror_path noon).view s'
            ≡ some
                ((database_promises no_faults mirror_path noon).stored (apply_defaults two_tools))))
update_config_outcome_example =
    update_config_outcome (database no_faults mirror_path noon)
      (database_promises no_faults mirror_path noon) two_tools laser_gateway empty_disk

abbrev after_save : Gateway × Disk
after_save =
    (put_config (some (database no_faults mirror_path noon)) save_two (laser_gateway, empty_disk)).1

saved :
    (put_config (some (database no_faults mirror_path noon)) save_two (laser_gateway, empty_disk)).0
    ≡ ok tt
unfolding put_config update_config write_if_valid write_with adopt build_updated_config
    stored_passwords note_passwords note_password note_name normalize_tool_name updated_tool
    protocol_of requested_password name_lookup by_name_password by_port_password
    normalize_optional_string unless_empty has_non_empty_string get_config tool_response
    config_snapshot replace_config replace transaction known_tools note_all note_existing
    settings_of settings_ok insert_tools identified preserved name_key tool_row insert_row row_ok
    clashes sql_trim sql_trim_left sql_trim_right password_ok is_alphanumeric finish_replace
    write_mirror clone clone_tool clone_string lookup insert validate apply_defaults default_bind
    default_timeout default_safe_state validate_loop claim_port seen_at validate_tool
    validate_tool_protocol tool_protocol or_http validate_tls_config https_required trim_space
    trim_left trim_right is_space contains has_prefix text_eq to_lower lower_code
saved = refl

load_or_migrate-put_config_example :
    load_or_migrate no_faults mirror_path noon (err []) after_save.1
    ≡ (ok (stored_config after_save.0.cfg, false), after_save.1)
load_or_migrate-put_config_example =
    load_or_migrate-put_config no_faults mirror_path noon (err []) save_two laser_gateway empty_disk
      saved

abbrev migrated_disk : Disk
migrated_disk = (initialize no_faults mirror_path noon (apply_defaults two_tools) empty_disk).1

laser-IsTidy : IsTidy laser
unfolding normalize_tool_name trim_space trim_left trim_right is_space to_lower lower_code
    tool_protocol or_http normalize_optional_string unless_empty
laser-IsTidy = record {
  name_ascii = ground arith;
  protocol_ascii = ground arith;
  named = refl;
  name_trimmed = refl;
  ip_trimmed = refl;
  protocol_plain = refl;
  username_plain = refl;
}

pump-IsTidy : IsTidy pump
unfolding normalize_tool_name trim_space trim_left trim_right is_space to_lower lower_code
    tool_protocol or_http normalize_optional_string unless_empty
pump-IsTidy = record {
  name_ascii = ground arith;
  protocol_ascii = ground arith;
  named = refl;
  name_trimmed = refl;
  ip_trimmed = refl;
  protocol_plain = refl;
  username_plain = refl;
}

bind_trimmed : trim_space (codes "0.0.0.0") ≡ codes "0.0.0.0"
unfolding trim_space trim_left trim_right is_space
bind_trimmed = refl

different_names : AllDistinct (names_of two_tools.tools)
unfolding normalize_tool_name to_lower lower_code trim_space trim_left trim_right is_space
different_names = (((λ e. cc), tt), (tt, tt))

build_updated_config-resend_example :
    build_updated_config two_tools (resend (get_config two_tools)) ≡ two_tools
build_updated_config-resend_example =
    build_updated_config-resend two_tools bind_trimmed (laser-IsTidy, (pump-IsTidy, tt))
      different_names
