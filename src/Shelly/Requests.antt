-- ===== src/Shelly/Requests.antt =====
-- The requests of internal/shelly/client.go: a status with its retry, a switch and a restart, from
-- the URL to the release of the device's slot. Who gets a slot, and when a context ends, is an
-- argument, as are net/url, the JSON decoder and the printing of numbers. An error stands for what
-- `errors.Is` and `errors.As` see of it; the transport gives a response or an error, and the URLs
-- parse.
pub mod Operations
use fbs_interlock_gateway.Prelude.{
  fail_if, pos, ◌>>◌, ◌>>=◌, ltb, leb, if◌then◌else◌, take, ℤ, Result, ok, err, ℕ, Bool, not, ◌&&◌,
  Option, none, some, List, [], ◌∷◌, ◌++◌, ◌==◌, wrap_err, zero, suc, true, false, ◌||◌,
}
use fbs_interlock_gateway.Text.{Text, codes, is_empty, trim_space, contains}
use fbs_interlock_gateway.Dict.{int_key, text_key, Dict, lookup, insert}
use fbs_interlock_gateway.Config.{Tool, tool_protocol}
use fbs_interlock_gateway.Shelly.HttpError.{
  SendError, deferred, ClientError, http_error, transport, error_text, timeout, connection_lost,
  canceled,
}
use fbs_interlock_gateway.Shelly.Digest.{DigestSession}
use fbs_interlock_gateway.Shelly.Auth.{
  HttpResponse, Env, Credentials, Reply, do_unauthenticated_get, do_authenticated_get,
}
use fbs_interlock_gateway.Shelly.Recovery.{Recoveries, handle_http_error, no_key}

pub record SwitchStatus : Type 0 where
  pub id : ℤ
  pub output : Bool

pub data Priority : Type 0 where
  admin_request fbs_request : Priority

pub data UrlError : Type 0 where
  host_empty method_empty : UrlError
  host_has_scheme : Text → UrlError

pub data RequestError : Type 0 where
  bad_url : UrlError → RequestError
  failed : ClientError → RequestError

pub record Library : Type 0 where
  pub url_string : Text → Text → Text → Text → Text  -- scheme, host, path and query
  pub encode : List (Text × Text) → Text
  pub request_uri : Text → Option Text
  pub decimal : ℤ → Text
  pub status_line : HttpResponse → Text
  pub decode : Text → Result SendError SwitchStatus  -- JSON, or why it could not be read

-- The world of a request: `W` with the calls of `Env` at a URL.
pub record Network (W : Type 0) : Type 0 where
  pub at_url : Text → Env W
  -- Waits for the slot of a device; an error is a deferral or the end of the context.
  pub acquire : Priority → Text → W → Result ClientError (Unit {0}) × W
  pub deferred_by_fbs : W → Bool  -- the cause of the request's context
  pub read_body : HttpResponse → W → Result SendError Text × W
  pub retry_wait : W → Bool × W  -- false when the context was done first
  pub done : W → Bool  -- the caller's context
  pub timed_out : W → Bool  -- the attempt ended by its deadline
  pub error_text : SendError → Text

pub data SlotEvent : Type 0 where
  acquired released : Text → SlotEvent

pub record Client (W : Type 0) : Type 0 where
  pub world : W
  pub sessions : Dict Text (Option DigestSession)
  pub recoveries : Recoveries
  pub slots : List SlotEvent

abbrev pub max_status_attempts : ℕ
max_status_attempts = 2

abbrev pub reboot_delay_ms : ℤ
reboot_delay_ms = pos 500

unfoldable pub device_key : Tool → Text
device_key t = tool_protocol t ++ (codes "://" ++ trim_space t.ip)

unfoldable pub rpc_url : Library → Tool → Text → List (Text × Text) → Result UrlError Text
rpc_url lib t method query = do
  let host = trim_space t.ip
  fail_if (is_empty host) host_empty
  fail_if (contains host (codes "://")) (host_has_scheme host)
  fail_if (is_empty (trim_space method)) method_empty
  ok (lib.url_string (tool_protocol t) host (codes "/rpc/" ++ method) (lib.encode query))

-- The user name and the password that a request is signed with.
username_of : Option Text → Text
username_of none = codes "admin"
username_of (some name) = if is_empty (trim_space name) then codes "admin" else trim_space name

signed : Library → Text → Option Text → Option Text → Option Credentials
unfolding username_of
signed lib url username none = none
signed lib url username (some password) =
    if is_empty (trim_space password)
    then none
    else some
        (record { uri = lib.request_uri url; username = username_of username; password = password })

unfoldable pub credentials : Library → Text → Tool → Option Credentials
unfolding signed
credentials lib url t = signed lib url t.username t.password

abbrev pub session_or_none : Option (Option DigestSession) → Option DigestSession
session_or_none none = none
session_or_none (some s) = s

-- 2xx
abbrev pub succeeded : HttpResponse → Bool
succeeded resp = leb 200 resp.status_code && ltb resp.status_code 300

abbrev pub max_response_body_bytes : ℕ
max_response_body_bytes = 4096

module _ {W : Type 0} (lib : Library) (net : Network W) where
  -- `requestError`
  request_error : ClientError → W → ClientError
  request_error e w = if net.deferred_by_fbs w then transport deferred else e

  -- The slot goes back at once after an error; with a response it is kept until the body is closed.
  finish_get : Text → Reply → Client W → Reply × Client W
  unfolding request_error
  finish_get key (ok resp) c = (ok resp, c)
  finish_get key (err e) c =
      (err (request_error e c.world), record c { slots = c.slots ++ released key ∷ [] })

  -- The chosen loop, and the session that the device keeps.
  send_get : Text → Text → Option Credentials → Client W → Reply × Client W
  send_get key url none c =
      let (reply, w) = do_unauthenticated_get (net.at_url url) c.world in
      (reply, record c { world = w })
  send_get key url (some who) c =
      let (reply, session, w) =
        do_authenticated_get (net.at_url url) who (session_or_none (lookup key c.sessions))
          c.world in
      (reply, record c { world = w; sessions = insert key session c.sessions })

  after_acquire : Text → Text → Tool → Result ClientError (Unit {0}) → Client W → Reply × Client W
  unfolding finish_get send_get credentials
  after_acquire key url t (err e) c = (err e, c)
  after_acquire key url t (ok _) c =
      let (reply, c') =
        send_get key url (credentials lib url t)
          (record c { slots = c.slots ++ acquired key ∷ [] }) in
      finish_get key reply c'

  -- `doGETWithPriority`; `authState` makes the entry of a device.
  pub get_with_priority : Priority → Tool → Text → Client W → Reply × Client W
  unfolding after_acquire device_key
  get_with_priority priority t url c =
      let key = device_key t in
      let (slot, w) = net.acquire priority key c.world in
      after_acquire key url t slot (record c {
        world = w;
        sessions = insert key (session_or_none (lookup key c.sessions)) c.sessions;
      })

  -- The deferred close of the body.
  close_body : Text → Client W → Client W
  close_body key c = record c { slots = c.slots ++ released key ∷ [] }

  -- The wrapping of an Admin request's body: an error after a deferral is the deferral.
  cause_of : Priority → SendError → W → SendError
  cause_of fbs_request e w = e
  cause_of admin_request e w = if net.deferred_by_fbs w then deferred else e

  cause_body : Priority → Result SendError Text → W → Result SendError Text
  unfolding cause_of
  cause_body priority (ok content) w = ok content
  cause_body priority (err e) w = err (cause_of priority e w)

  read_limited : Priority → HttpResponse → Client W → Result SendError Text × Client W
  unfolding cause_body
  read_limited priority resp c =
      let (content, w) = net.read_body resp c.world in
      (cause_body priority content w, record c { world = w })

  error_body : Result SendError Text → Text
  error_body (ok content) = take max_response_body_bytes content
  error_body (err e) = codes "failed to read error response: " ++ net.error_text e

  -- `responseHTTPError`; the status line is the library's text for the code.
  response_http_error : Text → Priority → HttpResponse → Client W → ClientError × Client W
  unfolding error_body read_limited
  response_http_error operation priority resp c =
      let (content, c') = read_limited priority resp c in
      (
        http_error (record {
          operation = operation;
          status_code = resp.status_code;
          status = lib.status_line resp;
          body = error_body content;
        }),
        c',
      )
