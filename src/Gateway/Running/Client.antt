-- ===== src/Gateway/Running/Client.antt =====
-- The client that `NewWithStore` of internal/gateway/gateway.go makes from a configuration.
use fbs_interlock_gateway.Prelude.{
  fail_if, ℤ, pos, negsuc, ◌≤ℤ◌, ltb_ℤ, err, ℕ, zero, suc, ◌≤◌, ◌<◌, ◌≡◌, refl, ◌⊎◌, true, arith,
  Result, ok, ◌>>=◌, ◌>>◌, required, ◌*◌, ◌%◌, ◌^◌, ◌≢◌, Bool, false, not, Option, [], ◌∷◌, ltb,
  All, sym, ap, inl, inr, none, some,
}
use fbs_interlock_gateway.Text.{Text, is_empty, trim_space}
use fbs_interlock_gateway.Config.{
  Config, ShellyTlsConfig, clone, apply_defaults, default_timeout, validate,
}
use fbs_interlock_gateway.Config.Protocol.{SpeaksHttps, NamesTlsFiles, TlsIsReady}
use fbs_interlock_gateway.Config.Validation.{validate_iff}
use fbs_interlock_gateway.Shelly.Setup.{
  SetupError, ca_unreadable, no_certificates, pair_not_loaded, KeyFiles, load_tls_config, signed_64,
  milliseconds, TlsSetup, tls_configured, tls_setup, new_client,
}
use fbs_interlock_gateway.Gateway.Running.{client_of}

-- The files named in the configuration are to blame.
abbrev pub FileTrouble : SetupError → Type 0
FileTrouble e = (e ≡ ca_unreadable) ⊎ (e ≡ no_certificates) ⊎ (e ≡ pair_not_loaded)

lt→ltb : (a b : ℕ) → a < b → ltb a b ≡ true
lt→ltb a b h = ground (arith, h)

default_timeout-range :
    (t : ℤ)
    → t ≤ℤ pos 9223372036854
    → (n : ℕ) × (default_timeout t ≡ pos n) × (0 < n) × (n ≤ 9223372036854)
unfolding default_timeout
default_timeout-range (pos zero) h = (3000, refl, omega arith, omega arith)
default_timeout-range (pos (suc n)) h = (suc n, ground arith, omega arith, omega (arith, h))
default_timeout-range (negsuc n) h = (3000, ground arith, omega arith, omega arith)

signed_64-small : (m : ℕ) → m < 2 ^ 63 → signed_64 m ≡ pos m
unfolding signed_64
signed_64-small m h = rw (lt→ltb m (2 ^ 63) h) refl

milliseconds-pos : (n : ℕ) → 0 < n → n ≤ 9223372036854 → ltb_ℤ (pos 0) (milliseconds (pos n)) ≡ true
unfolding milliseconds
milliseconds-pos n low high =
    let small : (n * 10 ^ 6) % 2 ^ 64 ≡ n * 10 ^ 6 = omega arith in
    rw (small, signed_64-small (n * 10 ^ 6) (omega arith)) (lt→ltb _ _ (omega arith))

is_empty-false : (s : Text) → s ≢ [] → is_empty s ≡ false
is_empty-false [] h = absurd (h refl)
is_empty-false (c ∷ s) h = refl

err_injective :
    {A : Type 0} {a b : SetupError} → ◌≡◌ {A = Result SetupError A} (err a) (err b) → a ≡ b
err_injective h = cc

checked_pair :
    (good ready : Bool) (tls : TlsSetup) (e : SetupError)
    → (fail_if (not good) no_certificates >> (fail_if (not ready) pair_not_loaded >> ok tls))
      ≡ err e
    → FileTrouble e
checked_pair false ready tls e h = inr (inl (sym (err_injective h)))
checked_pair true false tls e h = inr (inr (sym (err_injective h)))
checked_pair true true tls e h = cc

loaded_pair :
    (files : KeyFiles) (o : Option Text) (ready : Bool) (setup : Text → TlsSetup) (e : SetupError)
    → (required ca_unreadable o >>= λ ca.
        fail_if (not (files.has_certificates ca)) no_certificates
        >> (fail_if (not ready) pair_not_loaded >> ok (setup ca)))
      ≡ err e
    → FileTrouble e
loaded_pair files none ready setup e h = inl (sym (err_injective h))
loaded_pair files (some ca) ready setup e h =
    checked_pair (files.has_certificates ca) ready (setup ca) e h

load_tls_config-FileTrouble :
    (files : KeyFiles) (tls : ShellyTlsConfig) (e : SetupError)
    → NamesTlsFiles tls
    → load_tls_config files tls ≡ err e
    → FileTrouble e
unfolding load_tls_config
load_tls_config-FileTrouble files tls e named h =
    loaded_pair files (files.read_file tls.server_ca_file)
      (files.loads_pair tls.client_cert_file tls.client_key_file)
      (λ ca. record {
        roots = ca;
        cert_file = tls.client_cert_file;
        key_file = tls.client_key_file;
      })
      e
      (simp
        (
          is_empty-false (trim_space tls.server_ca_file) named.server_ca,
          is_empty-false (trim_space tls.client_cert_file) named.client_cert,
          is_empty-false (trim_space tls.client_key_file) named.client_key,
        )
        at h)

tls_setup-FileTrouble :
    (timeout : ℤ) (r : Result SetupError TlsSetup) (e : SetupError)
    → ((e' : SetupError) → r ≡ err e' → FileTrouble e')
    → tls_setup timeout r ≡ err e
    → FileTrouble e
unfolding tls_setup
tls_setup-FileTrouble timeout (err e') e h k = h e (ap err (err_injective k))
tls_setup-FileTrouble timeout (ok tls) e h k = cc

new_client-FileTrouble :
    (files : KeyFiles) (timeout : ℤ) (tls : ShellyTlsConfig) (e : SetupError)
    → ltb_ℤ (pos 0) timeout ≡ true
    → NamesTlsFiles tls
    → new_client files timeout tls ≡ err e
    → FileTrouble e
unfolding new_client tls_configured
new_client-FileTrouble files timeout tls e positive named h =
    tls_setup-FileTrouble timeout (load_tls_config files tls) e
      (λ e' k. load_tls_config-FileTrouble files tls e' named k)
      (simp (positive, is_empty-false (trim_space tls.server_ca_file) named.server_ca) at h)

tls_named :
    (cfg : Config)
    → ¬ All (λ t. ¬ SpeaksHttps t) cfg.tools
    → TlsIsReady cfg
    → NamesTlsFiles cfg.defaults.shelly_tls
tls_named cfg https (inl plain) = absurd (https plain)
tls_named cfg https (inr named) = named

-- For a configuration that `Validate` accepts, that has a tool with HTTPS and whose timeout is below
-- 2^63 nanoseconds, no client can be made only because of the files that it names: the file of the
-- authority cannot be read or has no certificate, or the client's pair cannot be loaded.
pub client_of-FileTrouble :
    (files : KeyFiles) (cfg : Config) (e : SetupError)
    → validate cfg ≡ ok tt
    → ¬ All (λ t. ¬ SpeaksHttps t) cfg.tools
    → cfg.defaults.timeout_ms ≤ℤ pos 9223372036854
    → client_of files cfg ≡ err e
    → FileTrouble e
unfolding client_of clone apply_defaults
client_of-FileTrouble files cfg e valid https low h =
    let (n, same, positive, bounded) = default_timeout-range cfg.defaults.timeout_ms low in
    new_client-FileTrouble files (milliseconds (default_timeout cfg.defaults.timeout_ms))
      cfg.defaults.shelly_tls e (rw same (milliseconds-pos n positive bounded))
      (tls_named cfg https ((validate_iff cfg).0 valid).tls_ready) h
