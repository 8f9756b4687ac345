-- ===== src/Shelly/Requests/Operations.antt =====
-- `getStatus`, `Set` and `Reboot` of internal/shelly/client.go, with what a failure leads to.
pub mod Slots
pub mod Restarts
use fbs_interlock_gateway.Prelude.{
  ◌==◌, if◌then◌else◌, take, Result, ok, err, wrap_err, ℕ, zero, suc, Bool, true, false, not, ◌&&◌,
  ◌||◌, [], ◌∷◌,
}
use fbs_interlock_gateway.Text.{Text, codes}
use fbs_interlock_gateway.Config.{Tool}
use fbs_interlock_gateway.Shelly.HttpError.{
  SendError, deferred, timeout, connection_lost, ClientError, canceled, transport,
}
use fbs_interlock_gateway.Shelly.Auth.{HttpResponse, Reply}
use fbs_interlock_gateway.Shelly.Recovery.{handle_http_error}
use fbs_interlock_gateway.Shelly.Requests.{
  SwitchStatus, Priority, fbs_request, UrlError, RequestError, bad_url, failed, Library, Network,
  Client, max_status_attempts, reboot_delay_ms, device_key, rpc_url, succeeded,
  max_response_body_bytes, get_with_priority, close_body, read_limited, response_http_error,
}

module _ {W : Type 0} (lib : Library) (net : Network W) where
  -- A restart may follow; it is sent by another goroutine.
  recover : ℕ → Tool → ClientError × Client W → ClientError × Client W
  recover cooldown t (e, c) = (
    e,
    record c {
      recoveries = (handle_http_error cooldown t.ip e ((net.at_url []).now c.world) c.recoveries).1;
    },
  )

  failed_with : ClientError × Client W → Result ClientError SwitchStatus × Client W
  failed_with (e, c) = (err e, c)

  decoded : Result SendError Text → Result SendError SwitchStatus
  decoded (err e) = err e
  decoded (ok content) = lib.decode (take max_response_body_bytes content)

  decode_status : Result SendError Text × Client W → Result ClientError SwitchStatus × Client W
  unfolding decoded
  decode_status (content, c) = (wrap_err transport (decoded content), c)

  on_status : ℕ → Priority → Tool → Reply × Client W → Result ClientError SwitchStatus × Client W
  unfolding recover response_http_error failed_with decode_status read_limited
  on_status cooldown priority t (err e, c) = (err e, c)
  on_status cooldown priority t (ok resp, c) =
      let (result, c') =
        if succeeded resp
        then decode_status (read_limited lib net priority resp c)
        else failed_with
            (recover cooldown t (response_http_error lib net (codes "status") priority resp c)) in
      (result, close_body lib net (device_key t) c')

  -- `getStatusOnceWithPriority`
  get_status_once :
      ℕ → Priority → Tool → Text → Client W → Result ClientError SwitchStatus × Client W
  unfolding get_with_priority on_status close_body
  get_status_once cooldown priority t url c =
      on_status cooldown priority t (get_with_priority lib net priority t url c)

  -- `shouldRetryStatus`. The end of a context is an error that times out only by a deadline.
  should_retry_status : ClientError → W → Bool
  should_retry_status (transport deferred) w = false
  should_retry_status (transport timeout) w = not (net.done w)
  should_retry_status (transport connection_lost) w = not (net.done w)
  should_retry_status canceled w = not (net.done w) && net.timed_out w
  should_retry_status e w = false

  abbrev StatusReply : Type 0
  StatusReply = Result RequestError SwitchStatus × Client W

  after_retry_wait : Bool → Client W → (Client W → StatusReply) → StatusReply
  after_retry_wait true c continue = continue c
  after_retry_wait false c continue = (err (failed canceled), c)

  on_attempt :
      Bool → Result ClientError SwitchStatus × Client W → (Client W → StatusReply) → StatusReply
  unfolding should_retry_status after_retry_wait
  on_attempt last (ok status, c) continue = (ok status, c)
  on_attempt last (err e, c) continue =
      if last || not (should_retry_status e c.world)
      then (err (failed e), c)
      else (let (elapsed, w) = net.retry_wait c.world in
          after_retry_wait elapsed (record c { world = w }) continue)

  -- The first argument counts the attempts that are left.
  status_attempts : ℕ → ℕ → Priority → Tool → Text → Client W → StatusReply
  unfolding on_attempt get_status_once
  status_attempts zero cooldown priority t url c = (err (failed canceled), c)
  status_attempts (suc left) cooldown priority t url c =
      on_attempt (left == 0) (get_status_once cooldown priority t url c)
        (λ c'. status_attempts left cooldown priority t url c')

  status_at : ℕ → Priority → Tool → Result UrlError Text → Client W → StatusReply
  unfolding status_attempts
  status_at cooldown priority t (err e) c = (err (bad_url e), c)
  status_at cooldown priority t (ok url) c =
      status_attempts max_status_attempts cooldown priority t url c

  -- `getStatus`
  pub get_status : ℕ → Priority → Tool → Client W → StatusReply
  unfolding status_at rpc_url
  get_status cooldown priority t c =
      status_at cooldown priority t
        (rpc_url lib t (codes "Switch.GetStatus") ((codes "id", lib.decimal t.switch_id) ∷ [])) c

  abbrev DoneReply : Type 0
  DoneReply = Result RequestError (Unit {0}) × Client W

  -- The body is read and dropped.
  discard_body : Client W → HttpResponse → Client W
  unfolding read_limited
  discard_body c resp = (read_limited lib net fbs_request resp c).1

  failed_done : ClientError × Client W → DoneReply
  failed_done (e, c) = (err (failed e), c)

  on_done :
      (ClientError × Client W → ClientError × Client W) → Text → Tool → Reply × Client W → DoneReply
  unfolding discard_body failed_done response_http_error close_body
  on_done after_error operation t (err e, c) = (err (failed e), c)
  on_done after_error operation t (ok resp, c) =
      let (result, c') =
        if succeeded resp
        then (ok tt, discard_body c resp)
        else failed_done (after_error (response_http_error lib net operation fbs_request resp c)) in
      (result, close_body lib net (device_key t) c')

  request_at :
      (ClientError × Client W → ClientError × Client W)
      → Text
      → Tool
      → Result UrlError Text
      → Client W
      → DoneReply
  unfolding on_done get_with_priority
  request_at after_error operation t (err e) c = (err (bad_url e), c)
  request_at after_error operation t (ok url) c =
      on_done after_error operation t (get_with_priority lib net fbs_request t url c)

  -- `Set`
  pub set_switch : ℕ → Tool → Bool → Client W → DoneReply
  unfolding request_at recover rpc_url
  set_switch cooldown t on c =
      request_at (recover cooldown t) (codes "set") t
        (rpc_url lib t (codes "Switch.Set") (
          (codes "id", lib.decimal t.switch_id)
          ∷ (codes "on", if on then codes "true" else codes "false")
          ∷ []))
        c

  -- `Reboot`, which does not recover from its own errors.
  pub reboot : Tool → Client W → DoneReply
  unfolding request_at rpc_url
  reboot t c =
      request_at (λ e. e) (codes "reboot") t
        (rpc_url lib t (codes "Shelly.Reboot")
          ((codes "delay_ms", lib.decimal reboot_delay_ms) ∷ []))
        c
