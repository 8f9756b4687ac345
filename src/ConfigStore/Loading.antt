-- ===== src/ConfigStore/Loading.antt =====
-- `Load` after `replace`, in internal/configstore/store.go.
use fbs_interlock_gateway.Prelude.{
  Bool-cases, All, ℤ, pos, ltb_ℤ, ok, ◌≡◌, refl, sym, ap, ◌∙◌, ◌≢◌, ◌⊎◌, inl, inr, Bool, true,
  false, ◌||◌, some, List, [], ◌∷◌, map, arith,
}
use fbs_interlock_gateway.Text.{Text, codes, trim_space, to_lower, text_eq, contains}
use fbs_interlock_gateway.Text.Laws.{trim_space_idem, contains-trim_space}
use fbs_interlock_gateway.Config.{
  Tool, Config, clone, default_bind, default_timeout, default_safe_state, apply_defaults,
  tool_protocol, validate,
}
use fbs_interlock_gateway.Config.Protocol.{IsValidTool, SpeaksHttps, TlsIsReady}
use fbs_interlock_gateway.Config.Validation.{DistinctPorts, IsValidConfig, validate_iff}
use fbs_interlock_gateway.ConfigStore.{
  Faults, Disk, known_tools, settings_of, transaction, replace, tool_of_row, config_of,
  load_settings, load,
}
use fbs_interlock_gateway.ConfigStore.Schema.{Settings, Row, settings_ok}
use fbs_interlock_gateway.ConfigStore.Commit.{finish_replace-ok, clone_lem, transaction-ok}
use fbs_interlock_gateway.ConfigStore.RoundTrip.{
  stored_tool, stored_config, Ascending, by_sort_order-Ascending, inserted_rows,
}

normal_protocol :
    (t : Tool) (p : Text)
    → (p ≡ codes "http") ⊎ (p ≡ codes "https")
    → tool_protocol (record t { protocol = p }) ≡ p
unfolding tool_protocol to_lower trim_space
normal_protocol t p (inl e) = rw e
normal_protocol t p (inr e) = rw e

tool_protocol_idem :
    (t : Tool)
    → (tool_protocol t ≡ codes "http") ⊎ (tool_protocol t ≡ codes "https")
    → tool_protocol (stored_tool t) ≡ tool_protocol t
unfolding tool_protocol
tool_protocol_idem t h = normal_protocol t (tool_protocol t) h

not_contained : (s p : Text) → contains s p ≡ false → contains (trim_space s) p ≡ false
not_contained s p h = elim (Bool-cases (contains (trim_space s) p)) [
  | inl e ↦ ground (arith, contains-trim_space s p)
  | inr e ↦ e
]

IsValidTool-stored : (t : Tool) → IsValidTool t → IsValidTool (stored_tool t)
IsValidTool-stored t v = record {
  named = rw (trim_space_idem t.interlock_name) v.named;
  port_low = v.port_low;
  port_high = v.port_high;
  has_ip = rw (trim_space_idem t.ip) v.has_ip;
  bare_ip = not_contained t.ip (codes "://") v.bare_ip;
  switch_nonneg = v.switch_nonneg;
  http_or_https = rw (tool_protocol_idem t v.http_or_https) v.http_or_https;
}

tools-stored : (ts : List Tool) → All IsValidTool ts → All IsValidTool (map stored_tool ts)
tools-stored [] h = tt
tools-stored (t ∷ ts) h = (IsValidTool-stored t h.0, tools-stored ts h.1)

absent-stored :
    (p : ℤ) (ts : List Tool) → All (λ u. u.port ≢ p) ts → All (λ u. u.port ≢ p) (map stored_tool ts)
absent-stored p [] h = tt
absent-stored p (t ∷ ts) h = (h.0, absent-stored p ts h.1)

distinct-stored : (ts : List Tool) → DistinctPorts ts → DistinctPorts (map stored_tool ts)
distinct-stored [] h = tt
distinct-stored (t ∷ ts) h = (absent-stored t.port ts h.0, distinct-stored ts h.1)

no_https-stored :
    (ts : List Tool)
    → All IsValidTool ts
    → All (λ t. ¬ SpeaksHttps t) ts
    → All (λ t. ¬ SpeaksHttps t) (map stored_tool ts)
no_https-stored [] v h = tt
no_https-stored (t ∷ ts) v h =
    ((λ e. h.0 (sym (tool_protocol_idem t v.0.http_or_https) ∙ e)), no_https-stored ts v.1 h.1)

tls-stored :
    (cfg : Config) → All IsValidTool cfg.tools → TlsIsReady cfg → TlsIsReady (stored_config cfg)
tls-stored cfg v (inl h) = inl (no_https-stored cfg.tools v h)
tls-stored cfg v (inr h) = inr h

IsValidConfig-stored : (cfg : Config) → IsValidConfig cfg → IsValidConfig (stored_config cfg)
IsValidConfig-stored cfg v = record {
  tools_valid = tools-stored cfg.tools v.tools_valid;
  ports_distinct = distinct-stored cfg.tools v.ports_distinct;
  tls_ready = tls-stored cfg v.tools_valid v.tls_ready;
}

default_bind_idem : (b : Text) → default_bind (default_bind b) ≡ default_bind b
unfolding default_bind
default_bind_idem [] = refl
default_bind_idem (c ∷ b) = refl

default_timeout_pos : (t : ℤ) → ltb_ℤ (pos 0) t ≡ true → default_timeout t ≡ t
unfolding default_timeout
default_timeout_pos t h = rw h

default_safe_state_set :
    (s : Text)
    → (text_eq (to_lower s) (codes "on") || text_eq (to_lower s) (codes "off")) ≡ true
    → default_safe_state s ≡ s
unfolding default_safe_state to_lower text_eq
default_safe_state_set [] h = cc
default_safe_state_set (c ∷ s) h = refl

module _ (raw : Config) (now : Text) where
  abbrev applied : Config
  applied = apply_defaults raw

  -- Nothing of what was committed is left for the defaults.
  stored_defaults :
      settings_ok (settings_of applied now) ≡ true
      → apply_defaults (stored_config applied) ≡ stored_config applied
  unfolding apply_defaults settings_of settings_ok
  stored_defaults h = ground (
    arith,
    default_bind_idem raw.bind,
    default_timeout_pos (default_timeout raw.defaults.timeout_ms),
    default_safe_state_set
        (to_lower (trim_space (default_safe_state raw.defaults.safe_state_on_error))),
  )

pub apply_defaults_idem : (cfg : Config) → apply_defaults (apply_defaults cfg) ≡ apply_defaults cfg
unfolding apply_defaults
apply_defaults_idem cfg = ground (
  arith,
  default_bind_idem cfg.bind,
  default_timeout_pos (default_timeout cfg.defaults.timeout_ms),
  default_safe_state_set (default_safe_state cfg.defaults.safe_state_on_error),
)

config_of-stored :
    (cfg : Config) (now : Text) (rows : List Row)
    → Ascending rows
    → map tool_of_row rows ≡ map stored_tool cfg.tools
    → config_of (settings_of cfg now) rows ≡ stored_config cfg
unfolding config_of settings_of
config_of-stored cfg now rows asc e = ground (arith, by_sort_order-Ascending rows asc)

load_settings-ok :
    (s : Settings) (rows : List Row) (cfg : Config)
    → config_of s rows ≡ cfg
    → apply_defaults cfg ≡ cfg
    → validate cfg ≡ ok tt
    → load_settings (some s) rows ≡ ok cfg
unfolding load_settings
load_settings-ok s rows cfg e d v = rw e (simp (d, v) (ap ok (clone_lem cfg)))

module _ (faults : Faults) (path now : Text) (raw : Config) (wanted : Bool) (disk : Disk)
    (stored : (replace faults path now raw wanted disk).0 ≡ ok tt) where
  -- After a replacement that returned no error, `Load` returns the configuration that was given,
  -- with the defaults put in, the names and addresses trimmed, the protocols spelled out and the
  -- safe state in lower case; every other field, the order of the tools included, is unchanged.
  pub load-replace :
      load (replace faults path now raw wanted disk).1.db ≡ ok (stored_config (apply_defaults raw))
  unfolding replace load
  load-replace =
      let applied = apply_defaults raw in
      let (db, committed, same) =
        finish_replace-ok faults wanted path (clone applied)
          (transaction faults now (clone applied) disk.db) disk stored in
      let (rows, valid, settings, inserted, shape) =
        transaction-ok faults now applied disk.db (rw (clone_lem applied) at committed) in
      let k = known_tools disk.db.tools in
      let (asc, tools) = inserted_rows faults k now 0 k.next_id applied.tools [] inserted tt tt in
      rw (same, shape)
        (load_settings-ok (settings_of applied now) rows (stored_config applied)
          (config_of-stored applied now rows asc tools) (stored_defaults raw now settings)
          ((validate_iff (stored_config applied)).1
            (IsValidConfig-stored applied ((validate_iff applied).0 valid))))
