-- ===== src/Shelly/Recovery.antt =====
-- `handleHTTPError` and `scheduleReboot` of internal/shelly/client.go: restarts of failing devices.
-- Times are in nanoseconds since the start.
pub mod Cooldown
use fbs_interlock_gateway.Prelude.{
  ltb, if◌then◌else◌, ℕ, zero, ◌+◌, ◌*◌, ◌^◌, ◌<◌, Bool, true, false, not, ◌&&◌, Option, none, some,
}
use fbs_interlock_gateway.Text.{Text, is_empty, trim_space}
use fbs_interlock_gateway.Dict.{int_key, text_key, Dict, lookup, insert}
use fbs_interlock_gateway.Shelly.HttpError.{ClientError, requires_reboot}

-- 5 minutes
abbrev pub default_reboot_cooldown : ℕ
default_reboot_cooldown = 5 * 60 * 10 ^ 9

-- `last_attempt` is `none` for the zero time.
pub record RecoveryState : Type 0 where
  pub in_flight : Bool
  pub last_attempt : Option ℕ

abbrev pub Recoveries : Type 0
Recoveries = Dict Text RecoveryState

pub data Decision : Type 0 where
  no_key suppressed_in_flight suppressed_cooldown scheduled ignored : Decision

abbrev pub state_or_zero : Option RecoveryState → RecoveryState
state_or_zero none = record { in_flight = false; last_attempt = none }
state_or_zero (some s) = s

-- `!state.lastAttempt.IsZero() && now.Sub(state.lastAttempt) < c.rebootCooldown`; a time before the
-- last attempt counts as within the cooldown.
abbrev pub within_cooldown : ℕ → ℕ → Option ℕ → Bool
within_cooldown cooldown now none = false
within_cooldown cooldown now (some last) = ltb now (last + cooldown)

decide_reboot : ℕ → ℕ → Text → RecoveryState → Decision
decide_reboot cooldown now key s =
    if is_empty key
    then no_key
    else if s.in_flight
    then suppressed_in_flight
    else if within_cooldown cooldown now s.last_attempt
    then suppressed_cooldown
    else scheduled

enter_reboot : Decision → Text → ℕ → Recoveries → Recoveries
enter_reboot scheduled key now d =
    insert key (record { in_flight = true; last_attempt = some now }) d
enter_reboot _ key now d = d

schedule_reboot : ℕ → Text → ℕ → Recoveries → Decision × Recoveries
unfolding decide_reboot enter_reboot
schedule_reboot cooldown ip now d =
    let key = trim_space ip in
    let decision = decide_reboot cooldown now key (state_or_zero (lookup key d)) in
    (decision, enter_reboot decision key now d)

unfoldable pub handle_http_error : ℕ → Text → ClientError → ℕ → Recoveries → Decision × Recoveries
unfolding schedule_reboot requires_reboot
handle_http_error cooldown ip e now d =
    if requires_reboot e then schedule_reboot cooldown ip now d else (ignored, d)

-- The end of the goroutine that sends the restart, whether or not the device took it.
pub finish_reboot : Text → Recoveries → Recoveries
finish_reboot key d = insert key (record (state_or_zero (lookup key d)) { in_flight = false }) d
