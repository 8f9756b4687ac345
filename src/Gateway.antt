-- ===== src/Gateway.antt =====
-- internal/gateway/gateway.go: the gateway's configuration in memory, and its replacement, for one
-- call at a time: the lock of `UpdateConfig` only covers that it adopts a configuration, and calls that
-- overlap are not modelled. Running has `Run`.
pub mod Updates
pub mod Running
use fbs_interlock_gateway.Prelude.{Result, ok, err, wrap_err, Bool, not, Option, none, some}
use fbs_interlock_gateway.Config
use fbs_interlock_gateway.Config.{Config, ConfigError, Check, clone, apply_defaults, validate}
use fbs_interlock_gateway.Status
use fbs_interlock_gateway.Status.{Store}
use fbs_interlock_gateway.Admin.Update.{ConfigRequest, build_updated_config}

-- The interface of the stores, over the state that a store keeps outside of memory.
pub record ConfigPersistence (E S : Type 0) : Type 0 where
  pub replace : Config → S → Result E (Unit {0}) × S

pub record Gateway : Type 0 where
  pub cfg : Config
  pub safe_output : Bool
  pub status_store : Store

pub data UpdateError (E : Type 0) : Type 0 where
  invalid_config : ConfigError → UpdateError E
  no_persistence : UpdateError E
  write_failed : E → UpdateError E

unfoldable pub new_with_store : Config → Gateway
new_with_store raw =
    let cfg = clone (apply_defaults raw) in
    record {
      cfg = cfg;
      safe_output = Config.safe_output cfg;
      status_store = Status.new cfg (Config.safe_output cfg);
    }

unfoldable pub config_snapshot : Gateway → Config
config_snapshot g = clone g.cfg

-- The assignments under the lock, when nothing went wrong.
unfoldable pub adopt : {E : Type 0} → Result (UpdateError E) (Unit {0}) → Config → Gateway → Gateway
adopt (err e) cfg g = g
adopt (ok _) cfg g = record g { cfg = cfg; safe_output = Config.safe_output cfg }

module _ {E S : Type 0} where
  unfoldable pub write_with :
      Option (ConfigPersistence E S) → Config → S → Result (UpdateError E) (Unit {0}) × S
  write_with none cfg s = (err no_persistence, s)
  write_with (some p) cfg s = (wrap_err write_failed (p.replace cfg s).0, (p.replace cfg s).1)

  unfoldable pub write_if_valid :
      Check → Option (ConfigPersistence E S) → Config → S → Result (UpdateError E) (Unit {0}) × S
  unfolding write_with
  write_if_valid (err e) p cfg s = (err (invalid_config e), s)
  write_if_valid (ok _) p cfg s = write_with p cfg s

  unfoldable pub update_config :
      Option (ConfigPersistence E S)
      → Config
      → Gateway × S
      → Result (UpdateError E) (Unit {0}) × (Gateway × S)
  unfolding write_if_valid adopt
  update_config p raw (g, s) =
      let cfg = clone (apply_defaults raw) in
      let (result, s') = write_if_valid (validate cfg) p cfg s in (result, (adopt result cfg g, s'))

  -- `handlePutConfig` of internal/admin/server.go, on a request that was decoded.
  unfoldable pub put_config :
      Option (ConfigPersistence E S)
      → ConfigRequest
      → Gateway × S
      → Result (UpdateError E) (Unit {0}) × (Gateway × S)
  put_config p request (g, s) =
      update_config p (build_updated_config (config_snapshot g) request) (g, s)
