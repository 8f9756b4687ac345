-- ===== src/Shelly/Setup.antt =====
-- `newClient`, `loadTLSConfig` and `phaseTimeout` of internal/shelly/client.go. Durations are int64
-- nanoseconds; what the files hold is an argument.
use fbs_interlock_gateway.Prelude.{
  fail_if, required, ◌>>◌, ◌>>=◌, ◌*◌, ◌%◌, ◌-◌, ◌^◌, ltb, if◌then◌else◌, ℤ, pos, negsuc, ltb_ℤ,
  Result, ok, err, ℕ, ◌+◌, Bool, not, ◌||◌, Option, none, some,
}
use fbs_interlock_gateway.Text.{Text, is_empty, trim_space}
use fbs_interlock_gateway.Config.{ShellyTlsConfig}

pub data SetupError : Type 0 where
  timeout_not_positive ca_path_required cert_path_required key_path_required : SetupError
  ca_unreadable no_certificates pair_not_loaded : SetupError

pub record KeyFiles : Type 0 where
  pub read_file : Text → Option Text
  pub has_certificates : Text → Bool  -- of a PEM text
  pub loads_pair : Text → Text → Bool

pub record TlsSetup : Type 0 where
  pub roots : Text
  pub cert_file : Text
  pub key_file : Text

pub record ClientSetup : Type 0 where
  pub request_timeout : ℤ
  pub dial_timeout : ℤ
  pub tls : Option TlsSetup  -- none for plain HTTP

-- 3 seconds
abbrev pub max_dial_timeout : ℤ
max_dial_timeout = pos (3 * 10 ^ 9)

unfoldable pub phase_timeout : ℤ → ℤ → ℤ
phase_timeout total maximum = if ltb_ℤ total maximum then total else maximum

unfoldable pub tls_configured : ShellyTlsConfig → Bool
tls_configured cfg =
    not (is_empty (trim_space cfg.server_ca_file))
    || not (is_empty (trim_space cfg.client_cert_file))
    || not (is_empty (trim_space cfg.client_key_file))

unfoldable pub load_tls_config : KeyFiles → ShellyTlsConfig → Result SetupError TlsSetup
load_tls_config files cfg = do
  fail_if (is_empty (trim_space cfg.server_ca_file)) ca_path_required
  fail_if (is_empty (trim_space cfg.client_cert_file)) cert_path_required
  fail_if (is_empty (trim_space cfg.client_key_file)) key_path_required
  ca ← required ca_unreadable (files.read_file cfg.server_ca_file)
  fail_if (not (files.has_certificates ca)) no_certificates
  fail_if (not (files.loads_pair cfg.client_cert_file cfg.client_key_file)) pair_not_loaded
  ok (record { roots = ca; cert_file = cfg.client_cert_file; key_file = cfg.client_key_file })

unfoldable pub plain_setup : ℤ → Option TlsSetup → ClientSetup
plain_setup timeout tls = record {
  request_timeout = timeout;
  dial_timeout = phase_timeout timeout max_dial_timeout;
  tls = tls;
}

unfoldable pub tls_setup : ℤ → Result SetupError TlsSetup → Result SetupError ClientSetup
unfolding plain_setup
tls_setup timeout (err e) = err e
tls_setup timeout (ok tls) = ok (plain_setup timeout (some tls))

unfoldable pub new_client : KeyFiles → ℤ → ShellyTlsConfig → Result SetupError ClientSetup
unfolding tls_setup
new_client files timeout cfg =
    if not (ltb_ℤ (pos 0) timeout)
    then err timeout_not_positive
    else if tls_configured cfg
    then tls_setup timeout (load_tls_config files cfg)
    else ok (plain_setup timeout none)

-- The bit pattern of an int64 as a number.
unfoldable pub signed_64 : ℕ → ℤ
signed_64 n = if ltb n (2 ^ 63) then pos n else negsuc (2 ^ 64 - 1 - n)

-- `time.Duration(n) * time.Millisecond`
unfoldable pub milliseconds : ℤ → ℤ
unfolding signed_64
milliseconds (pos n) = signed_64 ((n * 10 ^ 6) % 2 ^ 64)
milliseconds (negsuc n) = signed_64 ((2 ^ 64 - ((n + 1) * 10 ^ 6) % 2 ^ 64) % 2 ^ 64)
