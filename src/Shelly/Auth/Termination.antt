-- ===== src/Shelly/Auth/Termination.antt =====
-- How the request loops of internal/shelly/client.go end.
use fbs_interlock_gateway.Prelude.{
  ◌⊎◌, inl, inr, ltb, ◌==◌, if◌then◌else◌, ltb→ge, Bool-cases, Result, ok, err, ℕ, zero, suc, ◌+◌,
  ◌≤◌, ◌<◌, ◌≡◌, refl, sym, ap, subst, ◌≢◌, Bool, true, false, ◌&&◌, Option, none, some, [], arith,
}
use fbs_interlock_gateway.Text.{Text, codes, is_empty}
use fbs_interlock_gateway.Shelly.HttpError.{
  SendError, ClientError, retry_limit_exceeded, auth_retry_limit_exceeded, digest_failed,
  uri_unreadable,
}
use fbs_interlock_gateway.Shelly.Digest.{
  digest_session_max_age, DigestSession, DigestError, new_digest_session, expired,
}
use fbs_interlock_gateway.Shelly.Digest.Session.{
  new_digest_session_iff, next_authorization_header_lem,
}
use fbs_interlock_gateway.Shelly.Auth.{
  do_authenticated_get, HttpResponse, Env, Credentials, Attempt, Reply, drop_expired,
  keep_on_success, sign, prepare, is_some, after_wait, unauthenticated_answer, unauthenticated_loop,
  do_unauthenticated_get, Outcome, on_session, on_challenge, on_unauthorized, on_waited,
  on_throttled, on_answer, attempt, authenticated_loop,
}

abbrev pub Finished : Reply → Type 0
Finished r = (r ≢ err retry_limit_exceeded) × (r ≢ err auth_retry_limit_exceeded)

abbrev one_if : Bool → ℕ
one_if true = 1
one_if false = 0

not_none : (s : DigestSession) → ◌≢◌ {A = Option DigestSession} none (some s)
not_none s e = cc

-- A session that this request made: it is not old, and was used at most once.
pub record IsYoung (base : ℕ) (n : ℕ) (o : Option DigestSession) : Type 0 where
  pub session : DigestSession
  pub present : o ≡ some session
  pub recent : base ≤ session.created_at
  pub little_used : session.nonce_count ≤ n

-- Enough attempts are left: four for a session from before, fewer once the device has challenged
-- this request.
abbrev Ready : ℕ → ℕ → Attempt → Type 0
Ready base left a =
    ((a.failures ≡ 0) × (4 ≤ left + one_if a.throttled))
    ⊎ (IsYoung base (one_if a.throttled) a.session
        × (a.failures ≤ 1)
        × (3 ≤ left + a.failures + one_if a.throttled))

-- The same once the header was made.
abbrev Sent : ℕ → ℕ → Attempt → Type 0
Sent base left a =
    ((a.failures ≡ 0) × (3 ≤ left + one_if a.throttled))
    ⊎ (IsYoung base (1 + one_if a.throttled) a.session
        × (a.failures ≤ 1)
        × (2 ≤ left + a.failures + one_if a.throttled))

module _ {W : Type 0} (env : Env W) (base : ℕ)
    (steady : (w : W) → (base ≤ env.now w) × (env.now w < base + digest_session_max_age)) where
  abbrev Goes : ℕ → (Attempt → W → Outcome env) → Type 0
  Goes left continue = (a : Attempt) (w : W) → Ready base left a → Finished (continue a w).0

  on_session-Finished :
      (left failures : ℕ) (throttled : Bool) (challenge : Text) (nonce : Option Text) (w : W)
      (continue : Attempt → W → Outcome env)
      → Goes left continue
      → failures ≤ 1
      → 3 ≤ left + failures + one_if throttled
      → Finished
          (on_session env
            (new_digest_session challenge nonce (env.now w))
            failures
            throttled
            w
            continue).0
  on_session-Finished left failures throttled challenge nonce w continue go f r =
      made (new_digest_session challenge nonce (env.now w)) refl
    where
      made :
          (m : Result DigestError DigestSession)
          → new_digest_session challenge nonce (env.now w) ≡ m
          → Finished (on_session env m failures throttled w continue).0
      made (err e) h = unfold on_session in ((λ x. cc), (λ x. cc))
      made (ok s) h =
          let new = (new_digest_session_iff challenge nonce (env.now w) s).0 h in
          unfold on_session in
          go (record { session = some s; failures = failures; throttled = throttled }) w
            (inr (
              record {
                session = s;
                present = refl;
                recent = rw new.created_now (steady w).0;
                little_used = omega (arith, new.count_zero);
              },
              f,
              r,
            ))

  on_challenge-Finished :
      (left failures : ℕ) (throttled : Bool) (resp : HttpResponse) (w : W)
      (continue : Attempt → W → Outcome env)
      → Goes left continue
      → failures ≤ 1
      → 3 ≤ left + failures + one_if throttled
      → Finished (on_challenge env resp failures throttled w continue).0
  unfolding on_challenge
  on_challenge-Finished left failures throttled resp w continue go f r =
      elim (Bool-cases (is_empty resp.challenge)) [
        | inl e ↦ rw e ((λ x. cc), (λ x. cc))
        | inr e ↦ rw e (
            on_session-Finished left failures throttled resp.challenge (env.random w).0
              (env.random w).1 continue go f r)
      ]

  on_unauthorized-Finished :
      (left : ℕ) (resp : HttpResponse) (a : Attempt) (w : W) (continue : Attempt → W → Outcome env)
      → Goes left continue
      → Sent base left a
      → Finished (on_unauthorized env resp a w continue).0
  unfolding on_unauthorized
  on_unauthorized-Finished left resp a w continue go sent =
      let failures = if is_some a.session then a.failures + 1 else a.failures in
      elim (Bool-cases (is_some a.session && ltb 1 failures)) [
        | inl e ↦ rw e ((λ x. cc), (λ x. cc))
        | inr e ↦
            let (few, left_over) = counted a.session a.failures a.throttled sent e in
            rw e (on_challenge-Finished left failures a.throttled resp w continue go few left_over)
      ]
    where
      counted :
          (o : Option DigestSession) (f : ℕ) (t : Bool)
          → Sent base left (record { session = o; failures = f; throttled = t })
          → (is_some o && ltb 1 (if is_some o then f + 1 else f)) ≡ false
          → ((if is_some o then f + 1 else f) ≤ 1)
            × (3 ≤ left + (if is_some o then f + 1 else f) + one_if t)
      counted none f t (inl h) e = omega arith
      counted none f t (inr h) e = absurd (not_none h.0.session h.0.present)
      counted (some s) f t (inl h) e = (ltb→ge _ _ e, omega arith)
      counted (some s) f t (inr h) e = (ltb→ge _ _ e, omega arith)

  on_throttled-Finished :
      (left : ℕ) (resp : HttpResponse) (a : Attempt) (w : W) (continue : Attempt → W → Outcome env)
      → Goes left continue
      → Sent base left a
      → Finished (on_throttled env resp a w continue).0
  unfolding on_throttled
  on_throttled-Finished left resp a w continue go sent = elim (Bool-cases a.throttled) [
    | inl e ↦ simp e ((λ x. cc), (λ x. cc))
    | inr e ↦ simp e (waited (env.wait w).0 (env.wait w).1 e)
  ]
    where
      again : a.throttled ≡ false → Ready base left (record a { throttled = true })
      again e = elim sent [
        | inl h ↦ inl (h.0, ground (arith, h.1))
        | inr h ↦ inr (
          record {
            session = h.0.session;
            present = h.0.present;
            recent = h.0.recent;
            little_used = ground (arith, h.0.little_used);
          },
          h.1,
          ground (arith, h.2),
        )
      ]

      waited :
          (elapsed : Bool) (v : W)
          → a.throttled ≡ false
          → Finished (on_waited env elapsed a v continue).0
      waited false v e = unfold on_waited in ((λ x. cc), (λ x. cc))
      waited true v e = unfold on_waited in go (record a { throttled = true }) v (again e)

  on_answer-Finished :
      (left : ℕ) (answer : Result SendError HttpResponse) (a : Attempt) (w : W)
      (continue : Attempt → W → Outcome env)
      → Goes left continue
      → Sent base left a
      → Finished (on_answer env answer a w continue).0
  unfolding on_answer
  on_answer-Finished left (err e) a w continue go sent = ((λ x. cc), (λ x. cc))
  on_answer-Finished left (ok resp) a w continue go sent =
      elim (Bool-cases (resp.status_code == 401)) [
        | inl e ↦ simp e (on_unauthorized-Finished left resp a w continue go sent)
        | inr e ↦ elim (Bool-cases (resp.status_code == 429)) [
          | inl t ↦ simp (e, t) (on_throttled-Finished left resp a w continue go sent)
          | inr t ↦ simp (e, t) ((λ x. cc), (λ x. cc))
        ]
      ]

  -- After the header was made, unless that failed for good.
  Prepared : ℕ → Attempt → Result ClientError Text × Option DigestSession → Type 0
  Prepared left a (err e, session) = (e ≡ digest_failed) ⊎ (e ≡ uri_unreadable)
  Prepared left a (ok h, session) = Sent base left (record a { session = session })

  kept :
      (left : ℕ) (a : Attempt) (m : Result DigestError Text × DigestSession)
      → Sent base left (record a { session = some m.1 })
      → Prepared left a (keep_on_success m)
  unfolding Prepared keep_on_success
  kept left a (ok h, s) sent = sent
  kept left a (err e, s) sent = inl refl

  Prepared-any :
      (c : Credentials) (left : ℕ) (a : Attempt) (o : Option DigestSession)
      → a.failures ≡ 0
      → 3 ≤ left + one_if a.throttled
      → Prepared left a (prepare env.hash c o)
  unfolding prepare
  Prepared-any c left a none f r = unfold Prepared in inl (f, r)
  Prepared-any c left a (some s) f r = elim c.uri as (λ u. Prepared left a (sign env.hash c s u)) [
    | none ↦ unfold sign Prepared in inr refl
    | some uri ↦ unfold sign in kept left a _ (inl (f, r))
  ]

  not_expired :
      (s : DigestSession) (w : W)
      → base ≤ s.created_at
      → s.nonce_count ≤ 1
      → expired s (env.now w) ≡ false
  unfolding expired
  not_expired s w h k = ground (arith, steady w)

  Prepared-young :
      (c : Credentials) (left : ℕ) (a : Attempt) (s : DigestSession) (w : W)
      → base ≤ s.created_at
      → s.nonce_count ≤ one_if a.throttled
      → a.failures ≤ 1
      → 3 ≤ suc left + a.failures + one_if a.throttled
      → Prepared left a (prepare env.hash c (drop_expired (some s) (env.now w)))
  unfolding drop_expired prepare
  Prepared-young c left a s w h k f r =
      let little : s.nonce_count ≤ 1 = omega (arith, k, le_one a.throttled) in
      rw (not_expired s w h little) (signed c.uri little)
    where
      signed : (u : Option Text) → s.nonce_count ≤ 1 → Prepared left a (sign env.hash c s u)
      signed none little = unfold sign Prepared in inr refl
      signed (some uri) little =
          unfold sign in
          kept left a _
            (elim (next_authorization_header_lem env.hash s (codes "GET") uri c.username
              c.password) [
                | inl used ↦ inr (
                  record {
                    session = record s { nonce_count = s.nonce_count + 1 };
                    present = ap some used.1;
                    recent = h;
                    little_used = omega arith;
                  },
                  f,
                  omega arith,
                )
                | inr worn ↦ absurd (omega (arith, worn.0))
              ])

      le_one : (b : Bool) → one_if b ≤ 1
      le_one true = omega arith
      le_one false = omega arith

  prepare-Prepared :
      (c : Credentials) (left : ℕ) (a : Attempt) (w : W)
      → Ready base (suc left) a
      → Prepared left a (prepare env.hash c (drop_expired a.session (env.now w)))
  prepare-Prepared c left a w (inl h) =
      Prepared-any c left a (drop_expired a.session (env.now w)) h.0 (omega (arith, h.1))
  prepare-Prepared c left a w (inr (y, f, r)) =
      subst (λ o. Prepared left a (prepare env.hash c (drop_expired o (env.now w)))) (sym y.present)
        (Prepared-young c left a y.session w y.recent y.little_used f r)

  attempt-Finished :
      (left : ℕ) (p : Result ClientError Text × Option DigestSession) (a : Attempt) (w : W)
      (continue : Attempt → W → Outcome env)
      → Goes left continue
      → Prepared left a p
      → Finished (attempt env p a w continue).0
  unfolding attempt Prepared
  attempt-Finished left (err e, session) a w continue go (inl h) = ((λ x. cc), (λ x. cc))
  attempt-Finished left (err e, session) a w continue go (inr h) = ((λ x. cc), (λ x. cc))
  attempt-Finished left (ok authorization, session) a w continue go h =
      on_answer-Finished left (env.send authorization w).0 (record a { session = session })
        (env.send authorization w).1 continue go h

  authenticated_loop-Finished :
      (c : Credentials) (left : ℕ) (a : Attempt) (w : W)
      → Ready base left a
      → Finished (authenticated_loop env c left a w).0
  unfolding authenticated_loop
  authenticated_loop-Finished c zero a w r =
      absurd (elim r [ inl h ↦ ground (arith, h.1) | inr h ↦ ground (arith, h.1, h.2) ])
  authenticated_loop-Finished c (suc left) a w r =
      attempt-Finished left (prepare env.hash c (drop_expired a.session (env.now w))) a w
        (λ b v. authenticated_loop env c left b v) (authenticated_loop-Finished c left)
        (prepare-Prepared c left a w r)

  -- When the clock stays within one session age, an authenticated request never ends because its
  -- six attempts are used up, whatever session was there and whatever the device answers.
  pub do_authenticated_get-Finished :
      (c : Credentials) (session : Option DigestSession) (w : W)
      → Finished (do_authenticated_get env c session w).0
  unfolding do_authenticated_get
  do_authenticated_get-Finished c session w =
      authenticated_loop-Finished c 6
        (record { session = session; failures = 0; throttled = false }) w (inl (refl, omega arith))

module _ {W : Type 0} (env : Env W) where
  once_more :
      (answer : Result SendError HttpResponse) (w : W)
      → Finished (unauthenticated_answer env true answer w (λ v. unauthenticated_loop env 0 v)).0
  unfolding unauthenticated_answer
  once_more (err e) w = ((λ x. cc), (λ x. cc))
  once_more (ok resp) w = elim (Bool-cases (resp.status_code == 429)) [
    | inl e ↦ simp e ((λ x. cc), (λ x. cc))
    | inr e ↦ simp e ((λ x. cc), (λ x. cc))
  ]

  waited_once :
      (elapsed : Bool) (w : W)
      → Finished (after_wait env elapsed w (λ v. unauthenticated_loop env 1 v)).0
  unfolding after_wait unauthenticated_loop
  waited_once true w = once_more (env.send [] w).0 (env.send [] w).1
  waited_once false w = ((λ x. cc), (λ x. cc))

  twice :
      (answer : Result SendError HttpResponse) (w : W)
      → Finished (unauthenticated_answer env false answer w (λ v. unauthenticated_loop env 1 v)).0
  unfolding unauthenticated_answer
  twice (err e) w = ((λ x. cc), (λ x. cc))
  twice (ok resp) w = elim (Bool-cases (resp.status_code == 429)) [
    | inl e ↦ simp e (waited_once (env.wait w).0 (env.wait w).1)
    | inr e ↦ simp e ((λ x. cc), (λ x. cc))
  ]

  -- An unauthenticated request never ends because its two attempts are used up.
  pub do_unauthenticated_get-Finished : (w : W) → Finished (do_unauthenticated_get env w).0
  unfolding do_unauthenticated_get
  do_unauthenticated_get-Finished w = twice (env.send [] w).0 (env.send [] w).1
