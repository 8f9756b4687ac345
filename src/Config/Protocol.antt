-- ===== src/Config/Protocol.antt =====
-- A tool's own checks in internal/config/config.go, and the two scans for HTTPS.
use fbs_interlock_gateway.Prelude.{
  Bool-cases, All, pos, ◌≤ℤ◌, ok, ◌≡◌, refl, ◌≢◌, ◌⊎◌, inl, inr, false, List, [], ◌∷◌, arith,
}
use fbs_interlock_gateway.Text.{codes, trim_space, contains}
use fbs_interlock_gateway.Text.Laws.{text_eq_iff}
use fbs_interlock_gateway.Config.{
  min_tool_port, max_tool_port, ShellyTlsConfig, Tool, Config, tool_protocol, validate_tool,
  https_required, validate_tls_config,
}

-- What `validate_tool` demands of a tool.
pub record IsValidTool (t : Tool) : Type 0 where
  pub named : trim_space t.interlock_name ≢ []
  pub port_low : min_tool_port ≤ℤ t.port
  pub port_high : t.port ≤ℤ max_tool_port
  pub has_ip : trim_space t.ip ≢ []
  pub bare_ip : contains t.ip (codes "://") ≡ false
  pub switch_nonneg : pos 0 ≤ℤ t.switch_id
  pub http_or_https : (tool_protocol t ≡ codes "http") ⊎ (tool_protocol t ≡ codes "https")

pub validate_tool_sound : (t : Tool) → validate_tool t ≡ ok tt → IsValidTool t
unfolding validate_tool
validate_tool_sound t h = ground (
  arith,
  text_eq_iff (tool_protocol t) (codes "http"),
  text_eq_iff (tool_protocol t) (codes "https"),
)

pub validate_tool_complete : (t : Tool) → IsValidTool t → validate_tool t ≡ ok tt
unfolding validate_tool
validate_tool_complete t h = ground (
  arith,
  text_eq_iff (tool_protocol t) (codes "http"),
  text_eq_iff (tool_protocol t) (codes "https"),
)

abbrev pub SpeaksHttps : Tool → Type 0
SpeaksHttps t = tool_protocol t ≡ codes "https"

pub record NamesTlsFiles (tls : ShellyTlsConfig) : Type 0 where
  pub server_ca : trim_space tls.server_ca_file ≢ []
  pub client_cert : trim_space tls.client_cert_file ≢ []
  pub client_key : trim_space tls.client_key_file ≢ []

abbrev pub TlsIsReady : Config → Type 0
TlsIsReady cfg = All (λ t. ¬ SpeaksHttps t) cfg.tools ⊎ NamesTlsFiles cfg.defaults.shelly_tls

https_required-none :
    (ts : List Tool) → https_required false ts ≡ false → All (λ t. ¬ SpeaksHttps t) ts
unfolding https_required
https_required-none [] h = tt
https_required-none (t ∷ ts) h = (
  λ e. ground (arith, text_eq_iff (tool_protocol t) (codes "https")),
  https_required-none ts (ground arith),
)

none-https_required :
    (ts : List Tool) → All (λ t. ¬ SpeaksHttps t) ts → https_required false ts ≡ false
unfolding https_required
none-https_required [] h = refl
none-https_required (t ∷ ts) h =
    ground (arith, text_eq_iff (tool_protocol t) (codes "https"), none-https_required ts h.1, h.0)

pub validate_tls_config_sound :
    (cfg : Config) → validate_tls_config cfg false ≡ ok tt → TlsIsReady cfg
unfolding validate_tls_config
validate_tls_config_sound cfg h = elim (Bool-cases (https_required false cfg.tools)) [
  | inl e ↦ inr (ground arith)
  | inr e ↦ inl (https_required-none cfg.tools e)
]

pub validate_tls_config_complete :
    (cfg : Config) → TlsIsReady cfg → validate_tls_config cfg false ≡ ok tt
unfolding validate_tls_config
validate_tls_config_complete cfg (inl h) = rw (none-https_required cfg.tools h)
validate_tls_config_complete cfg (inr h) = ground arith
