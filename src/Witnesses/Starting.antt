-- ===== src/Witnesses/Starting.antt =====
-- The start of the program and the gateway's servers.
use fbs_interlock_gateway.Prelude.{
  Option, pos, ok, err, ◌≡◌, refl, false, none, some, [], ◌∷◌, ◌⊎◌, ltb_ℤ, Result, All, ℤ, Bool,
  arith,
}
use fbs_interlock_gateway.Text.{
  Text, codes, trim_space, trim_left, trim_right, is_space, contains, has_prefix, text_eq, to_lower,
  lower_code,
}
use fbs_interlock_gateway.Config.{
  Tool, Config, clone, default_bind, default_timeout, default_safe_state, apply_defaults, or_http,
  tool_protocol, validate_tool_protocol, validate_tool, https_required, validate_tls_config,
  seen_at, claim_port, validate_loop, validate,
}
use fbs_interlock_gateway.Config.Protocol.{SpeaksHttps}
use fbs_interlock_gateway.Shelly.Setup.{
  KeyFiles, SetupError, ClientSetup, ca_unreadable, milliseconds, signed_64, new_client,
  load_tls_config, tls_configured, tls_setup,
}
use fbs_interlock_gateway.Gateway.Running.{Ending, server_stopped, client_of, run_gateway}
use fbs_interlock_gateway.Gateway.Running.Listening.{StartsOr, run_gateway_outcome}
use fbs_interlock_gateway.Gateway.Running.Client.{FileTrouble, client_of-FileTrouble}
use fbs_interlock_gateway.Applog.Archive.Writing
use fbs_interlock_gateway.ConfigStore.{no_faults}
use fbs_interlock_gateway.ConfigStore.Opening
use fbs_interlock_gateway.Startup.Running.{Flags, Machine, admin_addr, run_program}
use fbs_interlock_gateway.Startup.Running.Serving.{
  PrintedVersion, StartedNothing, ServesStored, run_program_outcome,
}
use fbs_interlock_gateway.Witnesses.Commands.{shell}
use fbs_interlock_gateway.Witnesses.Samples.{
  laser, pump, config_of_tools, two_tools, mirror_path, noon, empty_disk,
}

abbrev stopped : Ending Text
stopped = server_stopped (codes "closed")

-- Two servers are started, and the port of the second cannot be cleared.
abbrev stubborn : ℤ → Bool
stubborn port = ltb_ℤ (pos 8081) port

abbrev spare : Tool
spare = record pump { port = pos 8083; enabled = false }

abbrev with_spare : Config
with_spare = config_of_tools (laser ∷ spare ∷ pump ∷ [])

abbrev no_files : KeyFiles
no_files = record {
  read_file = λ path. none;
  has_certificates = λ pem. false;
  loads_pair = λ cert key. false;
}

abbrev plain_client : Result SetupError ClientSetup
plain_client = ok (record { request_timeout = pos 1; dial_timeout = pos 1; tls = none })

run_gateway_outcome_example :
    StartsOr stubborn admin_addr with_spare stopped
      (run_gateway stubborn admin_addr with_spare stopped plain_client)
run_gateway_outcome_example =
    run_gateway_outcome stubborn admin_addr with_spare stopped plain_client

-- A tool with HTTPS, whose files cannot be read.
abbrev secure_laser : Tool
secure_laser = record laser { protocol = codes "HTTPS" }

abbrev secure : Config
secure = record (config_of_tools (secure_laser ∷ pump ∷ [])) {
  defaults = record {
    timeout_ms = pos 3000;
    safe_state_on_error = codes "off";
    shelly_tls = record {
      server_ca_file = codes "ca";
      client_cert_file = codes "cert";
      client_key_file = codes "key";
    };
  };
}

secure-valid : validate secure ≡ ok tt
unfolding validate apply_defaults default_bind default_timeout default_safe_state validate_loop
    claim_port seen_at validate_tool validate_tool_protocol tool_protocol or_http
    validate_tls_config https_required trim_space trim_left trim_right is_space contains has_prefix
    text_eq to_lower lower_code
secure-valid = refl

secure-SpeaksHttps : ¬ All (λ t. ¬ SpeaksHttps t) secure.tools
unfolding tool_protocol or_http trim_space trim_left trim_right is_space to_lower lower_code
secure-SpeaksHttps plain = plain.0 refl

secure-refused : client_of no_files secure ≡ err ca_unreadable
unfolding client_of apply_defaults clone default_timeout milliseconds signed_64 new_client
    load_tls_config tls_configured tls_setup trim_space trim_left trim_right is_space
secure-refused = refl

client_of-FileTrouble_example : FileTrouble ca_unreadable
client_of-FileTrouble_example =
    client_of-FileTrouble no_files secure ca_unreadable secure-valid secure-SpeaksHttps
      (omega arith) secure-refused

-- A machine with an empty database and a legacy file.
abbrev machine : Machine
machine = record {
  shell = shell;
  clock = record {
    stamp = λ t. codes "t";
    day = λ t. codes "d";
    process = codes "1";
    six_digits = λ n. n ∷ [];
  };
  archive_faults = Writing.no_open_faults;
  logs = [];
  now = 100;
  log_folder = λ path. codes "/d/logs";
  sibling = λ path name. name;
  store_faults = Opening.no_open_faults;
  load_fails = false;
  statement_faults = no_faults;
  catalog = record { user_version = pos 0; has_tables = false };
  disk = empty_disk;
  legacy = λ path. ok two_tools;
  key_files = no_files;
  port_fails = stubborn;
  time = noon;
}

abbrev plain_flags : Flags
plain_flags = record { db = []; config = mirror_path; show_version = false }

abbrev parse_plain : Text → Option Flags
parse_plain yaml = some plain_flags

run_program_outcome_example :
    let ran = run_program machine stopped parse_plain in
    PrintedVersion machine stopped parse_plain ran
    ⊎ StartedNothing machine stopped ran
    ⊎ ServesStored machine stopped ran
run_program_outcome_example = run_program_outcome machine stopped parse_plain
