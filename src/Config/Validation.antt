-- ===== src/Config/Validation.antt =====
-- `Validate` of internal/config/config.go, and what it is to accept.
use fbs_interlock_gateway.Prelude.{
  All, All-map, All-zip, ℤ, eqb_ℤ_iff, ok, >>=-eq-ok, ◌≡◌, refl, ◌≢◌, ◌↔◌, none, List, [], ◌∷◌,
  arith,
}
use fbs_interlock_gateway.Text.{Text}
use fbs_interlock_gateway.Config.{
  Tool, Config, ConfigError, duplicate_port, apply_defaults, SeenPorts, seen_at, claim_port,
  validate_loop, validate,
}
use fbs_interlock_gateway.Config.Protocol.{
  IsValidTool, validate_tool_sound, validate_tool_complete, TlsIsReady, validate_tls_config_sound,
  validate_tls_config_complete,
}

abbrev pub DistinctPorts : List Tool → Type 0
DistinctPorts [] = Unit
DistinctPorts (t ∷ ts) = All (λ u. u.port ≢ t.port) ts × DistinctPorts ts

pub record IsValidConfig (cfg : Config) : Type 0 where
  pub tools_valid : All IsValidTool cfg.tools
  pub ports_distinct : DistinctPorts cfg.tools
  pub tls_ready : TlsIsReady cfg

abbrev IsFree : SeenPorts → Tool → Type 0
IsFree seen t = seen_at t.port seen ≡ none

IsFree-of_claimed :
    (seen : SeenPorts) (t u : Tool)
    → IsFree ((t.port, t.interlock_name) ∷ seen) u
    → (u.port ≢ t.port) × IsFree seen u
unfolding seen_at
IsFree-of_claimed seen t u h = (λ e. ground (arith, eqb_ℤ_iff t.port u.port), ground arith)

IsFree-cons :
    (seen : SeenPorts) (t u : Tool)
    → u.port ≢ t.port
    → IsFree seen u
    → IsFree ((t.port, t.interlock_name) ∷ seen) u
unfolding seen_at
IsFree-cons seen t u h f = ground (arith, eqb_ℤ_iff t.port u.port)

claim_port_sound :
    (d : ℤ → Text → Text → ConfigError) (seen : SeenPorts) (t : Tool) {seen' : SeenPorts}
    → claim_port d seen t ≡ ok seen'
    → IsValidTool t × IsFree seen t × (seen' ≡ (t.port, t.interlock_name) ∷ seen)
unfolding claim_port
claim_port_sound d seen t h = (validate_tool_sound t (ground arith), ground arith, ground arith)

claim_port_complete :
    (d : ℤ → Text → Text → ConfigError) (seen : SeenPorts) (t : Tool)
    → IsValidTool t
    → IsFree seen t
    → claim_port d seen t ≡ ok ((t.port, t.interlock_name) ∷ seen)
unfolding claim_port
claim_port_complete d seen t v f = ground (arith, validate_tool_complete t v)

abbrev Accepted : SeenPorts → List Tool → Type 0
Accepted seen ts = All IsValidTool ts × DistinctPorts ts × All (IsFree seen) ts

validate_loop_sound :
    (seen : SeenPorts) (ts : List Tool) → validate_loop seen ts ≡ ok tt → Accepted seen ts
unfolding validate_loop
validate_loop_sound seen [] h = (tt, tt, tt)
validate_loop_sound seen (t ∷ ts) h =
    let (seen', claimed, rest) = >>=-eq-ok (claim_port duplicate_port seen t) _ h in
    let (valid, free, same) = claim_port_sound duplicate_port seen t claimed in
    let later = validate_loop_sound ((t.port, t.interlock_name) ∷ seen) ts (rw same at rest) in
    (
      (valid, later.0),
      (All-map (λ u f. (IsFree-of_claimed seen t u f).0) ts later.2, later.1),
      (free, All-map (λ u f. (IsFree-of_claimed seen t u f).1) ts later.2),
    )

validate_loop_complete :
    (seen : SeenPorts) (ts : List Tool) → Accepted seen ts → validate_loop seen ts ≡ ok tt
unfolding validate_loop
validate_loop_complete seen [] h = refl
validate_loop_complete seen (t ∷ ts) (valid, distinct, free) =
    rw (claim_port_complete duplicate_port seen t valid.0 free.0) (
      validate_loop_complete ((t.port, t.interlock_name) ∷ seen) ts
        (valid.1, distinct.1, All-zip (λ u ne f. IsFree-cons seen t u ne f) ts distinct.0 free.1))

All-IsFree : (ts : List Tool) → All (IsFree []) ts
unfolding seen_at
All-IsFree [] = tt
All-IsFree (t ∷ ts) = (refl, All-IsFree ts)

-- `Validate` returns no error exactly for the configurations in which every tool has a name, an
-- address without a scheme, a port from 8081 to 8981, a switch that is not negative and the
-- protocol http or https, no two tools share a port, and the three TLS files are named unless no
-- tool speaks HTTPS.
pub validate_iff : (cfg : Config) → (validate cfg ≡ ok tt) ↔ IsValidConfig cfg
unfolding validate apply_defaults
validate_iff cfg = (
  (λ h.
      let (_, loop, tls) = >>=-eq-ok (validate_loop [] cfg.tools) _ h in
      let accepted = validate_loop_sound [] cfg.tools loop in
      record {
        tools_valid = accepted.0;
        ports_distinct = accepted.1;
        tls_ready = validate_tls_config_sound (apply_defaults cfg) tls;
      }),
  (λ v.
      rw
        (validate_loop_complete [] cfg.tools
          (v.tools_valid, v.ports_distinct, All-IsFree cfg.tools))
        (validate_tls_config_complete (apply_defaults cfg) v.tls_ready)),
)
