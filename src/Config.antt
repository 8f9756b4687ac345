-- ===== src/Config.antt =====
-- internal/config/config.go: the configuration, its defaults and its validation.
-- Pointers to strings are options; a `*Config` that a function changes is returned.
pub mod Protocol
pub mod Validation
pub mod Enabled
pub mod Files
use fbs_interlock_gateway.Prelude.{
  ℕ, ◌≡◌, Bool, true, false, not, ◌&&◌, ◌||◌, Option, none, some, List, [], ◌∷◌, map, ℤ, pos,
  negsuc, ltb_ℤ, eqb_ℤ, Result, ok, err, ◌>>=◌, ◌>>◌, fail_if, if◌then◌else◌,
}
use fbs_interlock_gateway.Text.{
  Text, codes, is_empty, trim_space, to_lower, text_eq, equal_fold, contains,
}

abbrev pub min_tool_port : ℤ
min_tool_port = pos 8081

abbrev pub max_tool_port : ℤ
max_tool_port = pos 8981

pub record ShellyTlsConfig : Type 0 where
  pub server_ca_file : Text
  pub client_cert_file : Text
  pub client_key_file : Text

pub record Defaults : Type 0 where
  pub timeout_ms : ℤ
  pub safe_state_on_error : Text
  pub shelly_tls : ShellyTlsConfig

pub record Tool : Type 0 where
  pub interlock_name : Text
  pub ip : Text
  pub protocol : Text
  pub port : ℤ
  pub switch_id : ℤ
  pub username : Option Text
  pub password : Option Text
  pub enabled : Bool

pub record Config : Type 0 where
  pub bind : Text
  pub defaults : Defaults
  pub tools : List Tool

pub data ConfigError : Type 0 where
  missing_interlock_name missing_ip : ConfigError
  port_out_of_range ip_has_scheme : Text → ConfigError
  invalid_switch_id : ℤ → ConfigError
  invalid_protocol : Text → Text → ConfigError
  duplicate_port duplicate_enabled_port : ℤ → Text → Text → ConfigError
  server_ca_required client_cert_required client_key_required : ConfigError

abbrev pub Check : Type 0
Check = Result ConfigError (Unit {0})

-- The copy has pointers of its own, at equal strings.
unfoldable pub clone_string : Option Text → Option Text
clone_string none = none
clone_string (some value) = some value

unfoldable pub clone_tool : Tool → Tool
unfolding clone_string
clone_tool t = record t { username = clone_string t.username; password = clone_string t.password }

unfoldable pub clone : Config → Config
clone cfg = record cfg { tools = map clone_tool cfg.tools }

unfoldable pub default_bind : Text → Text
default_bind bind = if is_empty bind then codes "0.0.0.0" else bind

unfoldable pub default_timeout : ℤ → ℤ
default_timeout t = if ltb_ℤ (pos 0) t then t else pos 3000

unfoldable pub default_safe_state : Text → Text
default_safe_state s = if is_empty s then codes "off" else s

unfoldable pub apply_defaults : Config → Config
unfolding default_bind default_timeout default_safe_state
apply_defaults cfg = record cfg {
  bind = default_bind cfg.bind;
  defaults = record defaults {
    timeout_ms = default_timeout defaults.timeout_ms;
    safe_state_on_error = default_safe_state defaults.safe_state_on_error;
  };
}
  where
    open cfg use {defaults}

unfoldable pub safe_output : Config → Bool
safe_output cfg = equal_fold cfg.defaults.safe_state_on_error (codes "on")

unfoldable pub or_http : Text → Text
or_http protocol = if is_empty protocol then codes "http" else protocol

-- The normalised RPC protocol: an omitted one is plain HTTP.
unfoldable pub tool_protocol : Tool → Text
unfolding or_http
tool_protocol t = or_http (to_lower (trim_space t.protocol))

unfoldable pub validate_tool_protocol : Tool → Check
validate_tool_protocol t =
    fail_if
      (not (text_eq (tool_protocol t) (codes "http") || text_eq (tool_protocol t) (codes "https")))
      (invalid_protocol t.interlock_name t.protocol)

unfoldable pub validate_tool : Tool → Check
unfolding validate_tool_protocol
validate_tool t = do
  fail_if (is_empty (trim_space t.interlock_name)) missing_interlock_name
  fail_if (ltb_ℤ t.port min_tool_port || ltb_ℤ max_tool_port t.port)
      (port_out_of_range t.interlock_name)
  fail_if (is_empty (trim_space t.ip)) missing_ip
  fail_if (contains t.ip (codes "://")) (ip_has_scheme t.interlock_name)
  fail_if (ltb_ℤ t.switch_id (pos 0)) (invalid_switch_id t.switch_id)
  validate_tool_protocol t

-- The scan of `validateTLSConfig` for an HTTPS tool.
unfoldable pub https_required : Bool → List Tool → Bool
https_required enabled_only [] = false
https_required enabled_only (t ∷ ts) =
    (not (enabled_only && not t.enabled) && text_eq (tool_protocol t) (codes "https"))
    || https_required enabled_only ts

unfoldable pub validate_tls_config : Config → Bool → Check
validate_tls_config cfg enabled_only =
    if not (https_required enabled_only cfg.tools) then ok tt else do
      fail_if (is_empty (trim_space tls.server_ca_file)) server_ca_required
      fail_if (is_empty (trim_space tls.client_cert_file)) client_cert_required
      fail_if (is_empty (trim_space tls.client_key_file)) client_key_required
      ok tt
  where
    open cfg.defaults use {shelly_tls as tls}

-- `seenPorts`: which tool has claimed a port.
abbrev pub SeenPorts : Type 0
SeenPorts = List (ℤ × Text)

unfoldable pub seen_at : ℤ → SeenPorts → Option Text
seen_at p [] = none
seen_at p ((q, name) ∷ seen) = if eqb_ℤ q p then some name else seen_at p seen

-- One round of the loops below: the tool's own checks, then its port.
unfoldable pub claim_port :
    (ℤ → Text → Text → ConfigError) → SeenPorts → Tool → Result ConfigError SeenPorts
claim_port duplicate seen t = do
  validate_tool t
  elim (seen_at t.port seen) [
    | some existing ↦ err (duplicate t.port existing t.interlock_name)
    | none ↦ ok ((t.port, t.interlock_name) ∷ seen)
  ]

unfoldable pub validate_loop : SeenPorts → List Tool → Check
validate_loop seen [] = ok tt
validate_loop seen (t ∷ ts) = claim_port duplicate_port seen t >>= λ seen'. validate_loop seen' ts

unfoldable pub validate : Config → Check
unfolding validate_loop claim_port
validate raw = do
  let cfg = apply_defaults raw
  validate_loop [] cfg.tools
  validate_tls_config cfg false

validate_enabled_loop : SeenPorts → List Tool → Check
validate_enabled_loop seen [] = ok tt
validate_enabled_loop seen (t ∷ ts) = elim t.enabled [
  | false ↦ validate_enabled_loop seen ts
  | true ↦ claim_port duplicate_enabled_port seen t >>= λ seen'. validate_enabled_loop seen' ts
]

pub validate_enabled_tools : Config → Check
unfolding validate_enabled_loop claim_port
validate_enabled_tools raw = do
  let cfg = apply_defaults raw
  validate_enabled_loop [] cfg.tools
  validate_tls_config cfg true
