-- ===== src/Gateway/Running.antt =====
-- `NewWithStore` and `Run` of internal/gateway/gateway.go, up to the end of the servers. What ends the
-- run first is an argument; all servers are then stopped and waited for.
pub mod Listening
pub mod Client
use fbs_interlock_gateway.Prelude.{if◌then◌else◌, ℤ, Result, ok, err, Bool, List, [], ◌∷◌}
use fbs_interlock_gateway.Text.{Text, is_empty}
use fbs_interlock_gateway.Config.{
  Tool, Config, ConfigError, Check, clone, apply_defaults, validate_enabled_tools,
}
use fbs_interlock_gateway.Shelly.Setup.{SetupError, ClientSetup, KeyFiles, new_client, milliseconds}
use fbs_interlock_gateway.Ports.{PortError, kill_port}

pub data Ending (E : Type 0) : Type 0 where
  shutdown restart : Ending E
  server_stopped : E → Ending E

pub data RunError (E : Type 0) : Type 0 where
  no_client : SetupError → RunError E
  invalid_tools : ConfigError → RunError E
  server_failed : E → RunError E

-- What a run starts, in order; a port that cannot be cleared is only logged.
pub data Launch : Type 0 where
  administers : Text → Launch
  clears : ℤ → Result PortError (Unit {0}) → Launch
  listens : Tool → Launch

-- The client of a new gateway.
unfoldable pub client_of : KeyFiles → Config → Result SetupError ClientSetup
client_of files raw =
    let cfg = clone (apply_defaults raw) in
    new_client files (milliseconds cfg.defaults.timeout_ms) cfg.defaults.shelly_tls

tool_launches : (ℤ → Bool) → List Tool → List Launch
tool_launches fails [] = []
tool_launches fails (t ∷ ts) =
    let rest = tool_launches fails ts in
    if t.enabled then clears t.port (kill_port fails t.port) ∷ listens t ∷ rest else rest

launches : (ℤ → Bool) → Text → List Tool → List Launch
unfolding tool_launches
launches fails addr ts =
    if is_empty addr then tool_launches fails ts else administers addr ∷ tool_launches fails ts

module _ {E : Type 0} where
  pub ended : Ending E → Result (RunError E) (Unit {0})
  ended shutdown = ok tt
  ended restart = ok tt
  ended (server_stopped e) = err (server_failed e)

  run_checked :
      (ℤ → Bool) → Text → Config → Ending E → Check → Result (RunError E) (Unit {0}) × List Launch
  unfolding ended launches
  run_checked fails addr cfg ending (err e) = (err (invalid_tools e), [])
  run_checked fails addr cfg ending (ok _) = (ended ending, launches fails addr cfg.tools)

  run_client :
      (ℤ → Bool)
      → Text
      → Config
      → Ending E
      → Result SetupError ClientSetup
      → Result (RunError E) (Unit {0}) × List Launch
  unfolding run_checked
  run_client fails addr cfg ending (err e) = (err (no_client e), [])
  run_client fails addr cfg ending (ok client) =
      run_checked fails addr cfg ending (validate_enabled_tools cfg)

  -- `Run` with the configuration that it finds, and the outcome of `NewWithStore`.
  unfoldable pub run_gateway :
      (ℤ → Bool)
      → Text
      → Config
      → Ending E
      → Result SetupError ClientSetup
      → Result (RunError E) (Unit {0}) × List Launch
  unfolding run_client
  run_gateway fails addr cfg ending client = run_client fails addr cfg ending client
