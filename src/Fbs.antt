-- ===== src/Fbs.antt =====
-- internal/fbs/server.go: the requests that FBS sends to the port of a tool.
-- A handler takes the world, which is the device behind the Shelly client and the status store, and
-- returns the reply, or `none` when it panicked, with the world that it left.
pub mod Replies
pub mod Records
use fbs_interlock_gateway.Prelude.{
  ltb, if◌then◌else◌, length, take, ℤ, Result, ok, err, ℕ, Bool, true, false, not, Option, none,
  some, ◌++◌,
}
use fbs_interlock_gateway.Text.{Text, codes, is_empty, text_eq}
use fbs_interlock_gateway.Config.{Tool}
use fbs_interlock_gateway.Status
use fbs_interlock_gateway.Status.{Store, next_revision}

pub record SwitchStatus : Type 0 where
  pub id : ℤ
  pub output : Bool

-- The interface `ShellyClient`: each call may change the device, and returns a value or an error, or
-- panics (`none`).
pub record ShellyClient (W : Type 0) : Type 0 where
  pub get_status : Tool → W → Option (Result Text SwitchStatus) × W
  pub set : Tool → Bool → W → Option (Result Text (Unit {0})) × W

-- `recorder` is `none` for a nil `StatusRecorder`.
pub record World (W : Type 0) : Type 0 where
  pub device : W
  pub recorder : Option Store

pub record Request : Type 0 where
  pub method : Text
  pub path : Text
  pub raw_query : Text

pub record Response : Type 0 where
  pub status : ℕ
  pub content_type : Text
  pub body : Text

abbrev pub fbs_on : Text
fbs_on = codes "{\"Success\":1,\"State\":1}"

abbrev pub fbs_off : Text
fbs_off = codes "{\"Success\":1,\"State\":0}"

-- `writeFBS`; the length header is that of the body.
unfoldable pub write_fbs : Bool → Response
write_fbs state = record {
  status = 200;
  content_type = codes "application/json; charset=utf-8";
  body = if state then fbs_on else fbs_off;
}

-- `http.Error` and `http.NotFound`
abbrev pub http_error : Text → ℕ → Response
http_error message status = record {
  status = status;
  content_type = codes "text/plain; charset=utf-8";
  body = message ++ codes "\n";
}

recorded_success : Tool → Bool → Option Store → Option Store
recorded_success t output none = none
recorded_success t output (some s) =
    let (revision, s') = next_revision s in some (Status.record_success t output revision s')

recorded_failure : Tool → Bool → Text → Option Store → Option Store
recorded_failure t safe error none = none
recorded_failure t safe error (some s) =
    let (revision, s') = next_revision s in
    some (Status.record_failure t safe (some error) revision s')

module _ {W : Type 0} (client : ShellyClient W) (safe : Bool) where
  abbrev Handler : Type 0
  Handler = World W → Option Response × World W

  unfoldable pub record_success : Tool → Bool → World W → World W
  unfolding recorded_success
  record_success t output w = record w { recorder = recorded_success t output w.recorder }

  unfoldable pub record_failure : Tool → Text → World W → World W
  unfolding recorded_failure
  record_failure t error w = record w { recorder = recorded_failure t safe error w.recorder }

  -- The rest of `handleStatus` after the call of the client.
  answer_status : Tool → Option (Result Text SwitchStatus) → Handler
  unfolding record_success record_failure
  answer_status t none w = (none, w)
  answer_status t (some (err e)) w = (some (write_fbs safe), record_failure t e w)
  answer_status t (some (ok status)) w =
      (some (write_fbs status.output), record_success t status.output w)

  handle_status : Tool → Handler
  unfolding answer_status
  handle_status t w =
      let (answer, d) = client.get_status t w.device in
      answer_status t answer (record w { device = d })

  answer_set : Tool → Bool → Option (Result Text (Unit {0})) → Handler
  unfolding record_success record_failure
  answer_set t on none w = (none, w)
  answer_set t on (some (err e)) w = (some (write_fbs safe), record_failure t e w)
  answer_set t on (some (ok _)) w = (some (write_fbs on), record_success t on w)

  handle_set : Tool → Bool → Handler
  unfolding answer_set
  handle_set t on w =
      let (answer, d) = client.set t on w.device in answer_set t on answer (record w { device = d })

  pub handle_fbs_request : Request → Tool → Handler
  unfolding handle_status handle_set
  handle_fbs_request r t w =
      if not (text_eq r.method (codes "GET"))
      then (some (http_error (codes "method not allowed") 405), w)
      else if not (is_empty r.raw_query)
      then (some (http_error (codes "bad request") 400), w)
      else if text_eq r.path (codes "/status")
      then handle_status t w
      else if text_eq r.path (codes "/on")
      then handle_set t true w
      else if text_eq r.path (codes "/off")
      then handle_set t false w
      else (some (http_error (codes "404 page not found") 404), w)

  -- `recoverMiddleware` over a reply that the handler may not have come to.
  recover_reply : Option Response → Response
  recover_reply none = write_fbs safe
  recover_reply (some reply) = reply

  -- The handler chain of `RunToolServer`; the logging middleware passes the reply on.
  pub serve : Request → Tool → World W → Response × World W
  unfolding handle_fbs_request recover_reply
  serve r t w = let (reply, w') = handle_fbs_request r t w in (recover_reply reply, w')

-- The body as `loggingMiddleware` logs it, in bytes.
unfoldable pub logged_body : Text → Text
logged_body body = if ltb 2048 (length body) then take 2048 body ++ codes "...[truncated]" else body
