-- ===== src/Shelly/HttpError.antt =====
-- internal/shelly/error.go: HTTP errors of a device, and which of them lead to a restart.
use fbs_interlock_gateway.Prelude.{
  ◌==◌, if◌then◌else◌, any, ℕ, Bool, true, false, not, ◌&&◌, List, [], ◌∷◌, ◌++◌,
}
use fbs_interlock_gateway.Text.{Text, codes, is_empty, trim_space, equal_fold}

pub record HttpError : Type 0 where
  pub operation : Text
  pub status_code : ℕ
  pub status : Text
  pub body : Text

-- An error of the transport, by what the client asks of it.
pub data SendError : Type 0 where
  deferred timeout connection_lost certificate_refused other_failure : SendError

-- An error value, as far as `errors.As` and `errors.Is` look into it.
pub data ClientError : Type 0 where
  http_error : HttpError → ClientError
  retry_limit_exceeded auth_retry_limit_exceeded : ClientError
  missing_challenge digest_failed uri_unreadable : ClientError
  canceled decode_failed : ClientError
  transport : SendError → ClientError

-- `IsHTTPStatus`; wrapping does not hide an `HTTPError`.
is_http_status : ClientError → List ℕ → Bool
is_http_status (http_error e) codes = any (λ c. e.status_code == c) codes
is_http_status _ codes = false

-- 423 Locked and 429 Too Many Requests
unfoldable pub requires_reboot : ClientError → Bool
unfolding is_http_status
requires_reboot e = is_http_status e (423 ∷ 429 ∷ [])

unfoldable pub is_authentication_throttled : ClientError → Bool
unfolding is_http_status
is_authentication_throttled e = is_http_status e (429 ∷ [])

with_part : Bool → Text → Text → Text
with_part true part message = message ++ codes ": " ++ part
with_part false part message = message

-- `Error`, with `http.StatusText` and the decimal of the code as arguments.
unfoldable pub error_text : (ℕ → Text) → (ℕ → Text) → HttpError → Text
unfolding with_part
error_text status_text decimal e =
    let operation = trim_space e.operation in
    let named = if is_empty operation then codes "request" else operation in
    let status = trim_space e.status in
    let body = trim_space e.body in
    let message = codes "shelly " ++ named ++ codes " HTTP " ++ decimal e.status_code in
    with_part
      (not (is_empty body)
        && not (equal_fold body status)
        && not (equal_fold body (status_text e.status_code)))
      body (with_part (not (is_empty status)) status message)
