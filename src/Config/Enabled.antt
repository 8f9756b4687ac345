-- ===== src/Config/Enabled.antt =====
-- `ValidateEnabledTools` of internal/config/config.go, beside `Validate`.
use fbs_interlock_gateway.Prelude.{
  Bool-cases, select, All-select, ℤ, ok, ◌>>=◌, >>=-eq-ok, ◌≡◌, refl, ◌↔◌, inl, inr, Bool, true,
  false, List, [], ◌∷◌, arith,
}
use fbs_interlock_gateway.Text.{Text}
use fbs_interlock_gateway.Config.{
  Tool, Config, ConfigError, duplicate_port, duplicate_enabled_port, apply_defaults, https_required,
  validate_tls_config, SeenPorts, claim_port, validate_loop, validate, validate_enabled_loop,
  validate_enabled_tools,
}
use fbs_interlock_gateway.Config.Protocol.{TlsIsReady}
use fbs_interlock_gateway.Config.Validation.{DistinctPorts, IsValidConfig, validate_iff}

abbrev pub is_enabled : Tool → Bool
is_enabled t = t.enabled

-- The configuration without its disabled tools.
abbrev pub enabled_part : Config → Config
enabled_part cfg = record cfg { tools = select is_enabled cfg.tools }

-- The two loops claim ports alike; only the error for a duplicate differs.
claim_port-ok :
    (d e : ℤ → Text → Text → ConfigError) (seen : SeenPorts) (t : Tool) {s : SeenPorts}
    → claim_port d seen t ≡ ok s
    → claim_port e seen t ≡ ok s
unfolding claim_port
claim_port-ok d e seen t h = ground arith

validate_enabled_loop→ :
    (seen : SeenPorts) (ts : List Tool)
    → validate_enabled_loop seen ts ≡ ok tt
    → validate_loop seen (select is_enabled ts) ≡ ok tt
unfolding validate_enabled_loop validate_loop
validate_enabled_loop→ seen [] h = refl
validate_enabled_loop→ seen (t ∷ ts) h = elim (Bool-cases t.enabled) [
  | inl on ↦
      let h' : (claim_port duplicate_enabled_port seen t >>= λ s. validate_enabled_loop s ts)
          ≡ ok tt =
        simp on at h in
      let (s, claimed, rest) = >>=-eq-ok (claim_port duplicate_enabled_port seen t) _ h' in
      simp (on, claim_port-ok duplicate_enabled_port duplicate_port seen t claimed)
        (validate_enabled_loop→ s ts rest)
  | inr off ↦ simp off (validate_enabled_loop→ seen ts (simp off at h))
]

validate_enabled_loop← :
    (seen : SeenPorts) (ts : List Tool)
    → validate_loop seen (select is_enabled ts) ≡ ok tt
    → validate_enabled_loop seen ts ≡ ok tt
unfolding validate_enabled_loop validate_loop
validate_enabled_loop← seen [] h = refl
validate_enabled_loop← seen (t ∷ ts) h = elim (Bool-cases t.enabled) [
  | inl on ↦
      let h' : (claim_port duplicate_port seen t >>= λ s. validate_loop s (select is_enabled ts))
          ≡ ok tt =
        simp on at h in
      let (s, claimed, rest) = >>=-eq-ok (claim_port duplicate_port seen t) _ h' in
      simp (on, claim_port-ok duplicate_port duplicate_enabled_port seen t claimed)
        (validate_enabled_loop← s ts rest)
  | inr off ↦ simp off (validate_enabled_loop← seen ts (simp off at h))
]

https_required-select :
    (ts : List Tool) → https_required true ts ≡ https_required false (select is_enabled ts)
unfolding https_required
https_required-select [] = refl
https_required-select (t ∷ ts) = elim (Bool-cases t.enabled) [
  | inl on ↦ simp (on, https_required-select ts)
  | inr off ↦ simp off (https_required-select ts)
]

validate_tls_config-enabled :
    (cfg : Config) → validate_tls_config cfg true ≡ validate_tls_config (enabled_part cfg) false
unfolding validate_tls_config
validate_tls_config-enabled cfg = rw (https_required-select cfg.tools)

-- `ValidateEnabledTools` returns no error exactly when the configuration that is left without its
-- disabled tools is valid: a disabled tool is not looked at, and claims no port.
pub validate_enabled_tools_iff :
    (cfg : Config) → (validate_enabled_tools cfg ≡ ok tt) ↔ IsValidConfig (enabled_part cfg)
unfolding validate_enabled_tools validate apply_defaults
validate_enabled_tools_iff cfg = (
  (λ h.
      let (_, loop, tls) = >>=-eq-ok (validate_enabled_loop [] cfg.tools) _ h in
      (validate_iff (enabled_part cfg)).0 (
        rw (validate_enabled_loop→ [] cfg.tools loop)
          (rw (← validate_tls_config-enabled (apply_defaults cfg)) tls))),
  (λ v.
      let (_, loop, tls) =
        >>=-eq-ok (validate_loop [] (select is_enabled cfg.tools)) _
          ((validate_iff (enabled_part cfg)).1 v) in
      rw (validate_enabled_loop← [] cfg.tools loop)
        (rw (validate_tls_config-enabled (apply_defaults cfg)) tls)),
)

DistinctPorts-select : (ts : List Tool) → DistinctPorts ts → DistinctPorts (select is_enabled ts)
DistinctPorts-select [] h = tt
DistinctPorts-select (t ∷ ts) h = elim (Bool-cases t.enabled) [
  | inl on ↦ simp on (All-select _ is_enabled ts h.0, DistinctPorts-select ts h.1)
  | inr off ↦ simp off (DistinctPorts-select ts h.1)
]

TlsIsReady-enabled : (cfg : Config) → TlsIsReady cfg → TlsIsReady (enabled_part cfg)
TlsIsReady-enabled cfg (inl h) = inl (All-select _ is_enabled cfg.tools h)
TlsIsReady-enabled cfg (inr h) = inr h

-- A configuration that `Validate` accepts, as it does before one is saved, is accepted by the check
-- of the enabled tools when the gateway runs with it.
pub validate-validate_enabled_tools :
    (cfg : Config) → validate cfg ≡ ok tt → validate_enabled_tools cfg ≡ ok tt
validate-validate_enabled_tools cfg h =
    let v = (validate_iff cfg).0 h in
    (validate_enabled_tools_iff cfg).1 (record {
      tools_valid = All-select _ is_enabled cfg.tools v.tools_valid;
      ports_distinct = DistinctPorts-select cfg.tools v.ports_distinct;
      tls_ready = TlsIsReady-enabled cfg v.tls_ready;
    })
