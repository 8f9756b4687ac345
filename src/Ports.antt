-- ===== src/Ports.antt =====
-- internal/process/kill.go: the listener on a port is killed by a command of the system, which is an
-- argument.
use fbs_interlock_gateway.Prelude.{if◌then◌else◌, ℤ, pos, ltb_ℤ, Result, ok, err, Bool, not, ◌||◌}

pub data PortError : Type 0 where
  invalid_port : ℤ → PortError
  command_failed : ℤ → PortError

-- `fails` says whether the command for a port fails.
unfoldable pub kill_port : (ℤ → Bool) → ℤ → Result PortError (Unit {0})
kill_port fails port =
    if not (ltb_ℤ (pos 0) port) || ltb_ℤ (pos 65535) port
    then err (invalid_port port)
    else if fails port
    then err (command_failed port)
    else ok tt
