-- ===== src/Shelly/Auth.antt =====
-- The request loops of internal/shelly/client.go: `doUnauthenticatedGET` and
-- `doAuthenticatedGETLocked`. The transport, the clock, the wait for the throttle delay and the
-- random client nonce are an `Env` over a state `W`. Both loops pass the rest of themselves on as
-- `continue`.
pub mod Termination
use fbs_interlock_gateway.Prelude.{
  ltb, ◌==◌, if◌then◌else◌, Result, ok, err, ℕ, zero, suc, ◌+◌, Bool, true, false, not, ◌&&◌, ◌||◌,
  Option, none, some, [],
}
use fbs_interlock_gateway.Text.{Text, codes, is_empty}
use fbs_interlock_gateway.Shelly.HttpError.{
  SendError, ClientError, retry_limit_exceeded, auth_retry_limit_exceeded, missing_challenge,
  digest_failed, uri_unreadable, canceled, transport,
}
use fbs_interlock_gateway.Shelly.Digest.{
  DigestSession, DigestError, new_digest_session, expired, next_authorization_header,
}

-- A response, as far as the client reads it.
pub record HttpResponse : Type 0 where
  pub status_code : ℕ
  pub challenge : Text  -- the header WWW-Authenticate
  pub body : Text

pub record Env (W : Type 0) : Type 0 where
  pub send : Text → W → Result SendError HttpResponse × W  -- with this Authorization header
  pub wait : W → Bool × W  -- false when the context was done first
  pub now : W → ℕ
  pub random : W → Option Text × W
  pub hash : Text → Text

pub record Credentials : Type 0 where
  pub uri : Option Text  -- `requestURI` of the URL, none for an error
  pub username : Text
  pub password : Text

-- The variables of the authenticated loop.
pub record Attempt : Type 0 where
  pub session : Option DigestSession
  pub failures : ℕ
  pub throttled : Bool

abbrev pub Reply : Type 0
Reply = Result ClientError HttpResponse

abbrev pub max_authentication_attempts : ℕ
max_authentication_attempts = 6

-- The session of this attempt: one that has expired is dropped.
drop_expired : Option DigestSession → ℕ → Option DigestSession
drop_expired none now = none
drop_expired (some s) now = if expired s now then none else some s

keep_on_success :
    Result DigestError Text × DigestSession → Result ClientError Text × Option DigestSession
keep_on_success (ok header, s) = (ok header, some s)
keep_on_success (err e, s) = (err digest_failed, none)

sign :
    (Text → Text)
    → Credentials
    → DigestSession
    → Option Text
    → Result ClientError Text × Option DigestSession
unfolding keep_on_success
sign hash c s none = (err uri_unreadable, some s)
sign hash c s (some uri) =
    keep_on_success (next_authorization_header hash s (codes "GET") uri c.username c.password)

-- The Authorization header, none without a session, and the session after its count was raised.
prepare :
    (Text → Text)
    → Credentials
    → Option DigestSession
    → Result ClientError Text × Option DigestSession
unfolding sign
prepare hash c none = (ok [], none)
prepare hash c (some s) = sign hash c s c.uri

abbrev is_some : Option DigestSession → Bool
is_some none = false
is_some (some s) = true

module _ {W : Type 0} (env : Env W) where
  after_wait : Bool → W → (W → Reply × W) → Reply × W
  after_wait true w continue = continue w
  after_wait false w continue = (err canceled, w)

  unauthenticated_answer : Bool → Result SendError HttpResponse → W → (W → Reply × W) → Reply × W
  unfolding after_wait
  unauthenticated_answer last (err e) w continue = (err (transport e), w)
  unauthenticated_answer last (ok resp) w continue =
      if not (resp.status_code == 429) || last
      then (ok resp, w)
      else (let (elapsed, w') = env.wait w in after_wait elapsed w' continue)

  -- The first argument counts the attempts that are left.
  unauthenticated_loop : ℕ → W → Reply × W
  unfolding unauthenticated_answer
  unauthenticated_loop zero w = (err retry_limit_exceeded, w)
  unauthenticated_loop (suc left) w =
      let (answer, w') = env.send [] w in
      unauthenticated_answer (left == 0) answer w' (λ v. unauthenticated_loop left v)

  pub do_unauthenticated_get : W → Reply × W
  unfolding unauthenticated_loop
  do_unauthenticated_get w = unauthenticated_loop 2 w

  abbrev pub Outcome : Type 0
  Outcome = Reply × Option DigestSession × W

  abbrev Continue : Type 0
  Continue = Attempt → W → Outcome

  on_session : Result DigestError DigestSession → ℕ → Bool → W → Continue → Outcome
  on_session (err e) failures throttled w continue = (err digest_failed, none, w)
  on_session (ok s) failures throttled w continue =
      continue (record { session = some s; failures = failures; throttled = throttled }) w

  -- After a 401. A client nonce is drawn also where the challenge needs none.
  on_challenge : HttpResponse → ℕ → Bool → W → Continue → Outcome
  unfolding on_session
  on_challenge resp failures throttled w continue =
      if is_empty resp.challenge
      then (err missing_challenge, none, w)
      else (let (nonce, w') = env.random w in
          on_session (new_digest_session resp.challenge nonce (env.now w')) failures throttled w'
            continue)

  on_unauthorized : HttpResponse → Attempt → W → Continue → Outcome
  unfolding on_challenge
  on_unauthorized resp a w continue =
      let failures = if is_some a.session then a.failures + 1 else a.failures in
      if is_some a.session && ltb 1 failures
      then (ok resp, none, w)
      else on_challenge resp failures a.throttled w continue

  on_waited : Bool → Attempt → W → Continue → Outcome
  on_waited false a w continue = (err canceled, a.session, w)
  on_waited true a w continue = continue (record a { throttled = true }) w

  on_throttled : HttpResponse → Attempt → W → Continue → Outcome
  unfolding on_waited
  on_throttled resp a w continue =
      if a.throttled
      then (ok resp, a.session, w)
      else (let (elapsed, w') = env.wait w in on_waited elapsed a w' continue)

  on_answer : Result SendError HttpResponse → Attempt → W → Continue → Outcome
  unfolding on_unauthorized on_throttled
  on_answer (err e) a w continue = (err (transport e), a.session, w)
  on_answer (ok resp) a w continue =
      if resp.status_code == 401
      then on_unauthorized resp a w continue
      else if resp.status_code == 429
      then on_throttled resp a w continue
      else (ok resp, a.session, w)

  attempt : Result ClientError Text × Option DigestSession → Attempt → W → Continue → Outcome
  unfolding on_answer
  attempt (err e, session) a w continue = (err e, session, w)
  attempt (ok authorization, session) a w continue =
      let (answer, w') = env.send authorization w in
      on_answer answer (record a { session = session }) w' continue

  authenticated_loop : Credentials → ℕ → Attempt → W → Outcome
  unfolding attempt prepare
  authenticated_loop c zero a w = (err auth_retry_limit_exceeded, a.session, w)
  authenticated_loop c (suc left) a w =
      attempt (prepare env.hash c (drop_expired a.session (env.now w))) a w
        (λ b v. authenticated_loop c left b v)

  -- The reply, and the session that the device's state keeps.
  pub do_authenticated_get : Credentials → Option DigestSession → W → Outcome
  unfolding authenticated_loop
  do_authenticated_get c session w =
      authenticated_loop c max_authentication_attempts
        (record { session = session; failures = 0; throttled = false }) w
