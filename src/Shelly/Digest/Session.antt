-- ===== src/Shelly/Digest/Session.antt =====
-- Sessions, counts and quoting, in internal/shelly/digest.go.
use fbs_interlock_gateway.Prelude.{
  fail_if-eq-ok, ok-injective, subst, true, ◌↔◌, none, some, ◌++◌, leb, ◌==◌, if◌then◌else◌, leb→le,
  leb→gt, ==_iff, Bool-cases, ok, err, >>=-eq-ok, ℕ, ◌+◌, ◌≤◌, ◌<◌, ◌≡◌, refl, ap, ◌∙◌, ◌≢◌, ◌⊎◌,
  inl, inr, false, not, ◌&&◌, Option, [], ◌∷◌, arith,
}
use fbs_interlock_gateway.Text.{
  to_lower, lower_code, Text, codes, is_empty, trim_space, text_eq, equal_fold,
}
use fbs_interlock_gateway.Dict.{int_key, text_key, Dict}
use fbs_interlock_gateway.Shelly.Digest.{
  session_of, replace_all, max_digest_nonce_count, DigestSession, nonce_exhausted, param, or_sha256,
  fresh_cnonce, new_digest_session, escape_digest, authorization_header, next_authorization_header,
}
use fbs_interlock_gateway.Shelly.Digest.Challenge.{
  parse_digest_challenge, split_commas, offers_auth, choose_digest_qop,
}

-- With the quality of protection "auth" there is a fresh client nonce, and otherwise none.
abbrev pub Protects : Text → Option Text → DigestSession → Type 0
Protects qop random s =
    ((offers_auth (split_commas [] qop) ≡ true) × (s.qop ≡ codes "auth") × (random ≡ some s.cnonce))
    ⊎ ((trim_space qop ≡ [])
        × (offers_auth (split_commas [] qop) ≡ false)
        × (s.qop ≡ [])
        × (s.cnonce ≡ []))

-- The session that the parameters of a challenge lead to.
pub record IsSessionOf (params : Dict Text Text) (random : Option Text) (now : ℕ)
    (s : DigestSession) : Type 0 where
  pub has_realm : s.realm ≢ []
  pub has_nonce : s.nonce ≢ []
  pub realm_given : s.realm ≡ param (codes "realm") params
  pub nonce_given : s.nonce ≡ param (codes "nonce") params
  pub opaque_given : s.opaque ≡ param (codes "opaque") params
  pub algorithm_known :
      (param (codes "algorithm") params ≡ [])
      ⊎ (equal_fold (param (codes "algorithm") params) (codes "SHA-256") ≡ true)
  pub sha256 : s.algorithm ≡ codes "SHA-256"
  pub protects : Protects (param (codes "qop") params) random s
  pub count_zero : s.nonce_count ≡ 0
  pub created_now : s.created_at ≡ now

or_sha256-cases :
    (a : Text)
    → equal_fold (or_sha256 a) (codes "SHA-256") ≡ true
    → (a ≡ []) ⊎ (equal_fold a (codes "SHA-256") ≡ true)
unfolding or_sha256
or_sha256-cases [] h = inl refl
or_sha256-cases (c ∷ a) h = inr h

or_sha256-known :
    (a : Text)
    → (a ≡ []) ⊎ (equal_fold a (codes "SHA-256") ≡ true)
    → equal_fold (or_sha256 a) (codes "SHA-256") ≡ true
unfolding or_sha256 equal_fold to_lower lower_code text_eq
or_sha256-known a (inl h) = rw h refl
or_sha256-known [] (inr h) = refl
or_sha256-known (c ∷ a) (inr h) = h

fresh_cnonce-auth :
    (random : Option Text) {c : Text} → fresh_cnonce (codes "auth") random ≡ ok c → random ≡ some c
unfolding fresh_cnonce text_eq
fresh_cnonce-auth none h = cc
fresh_cnonce-auth (some d) h = cc

fresh_cnonce-none : (random : Option Text) {c : Text} → fresh_cnonce [] random ≡ ok c → c ≡ []
unfolding fresh_cnonce text_eq
fresh_cnonce-none random h = cc

nil_of : (s : Text) → is_empty s ≡ true → s ≡ []
nil_of [] h = refl
nil_of (c ∷ s) h = cc

not_nil : (s : Text) → is_empty s ≡ false → s ≢ []
not_nil [] h = cc
not_nil (c ∷ s) h = λ e. cc

is_empty_of : (s : Text) → s ≢ [] → is_empty s ≡ false
is_empty_of [] h = absurd (h refl)
is_empty_of (c ∷ s) h = refl

module _ (params : Dict Text Text) (random : Option Text) (now : ℕ) where
  abbrev raw_qop : Text
  raw_qop = param (codes "qop") params

  abbrev session_with : Text → DigestSession
  session_with c = record {
    realm = param (codes "realm") params;
    nonce = param (codes "nonce") params;
    algorithm = codes "SHA-256";
    qop = choose_digest_qop raw_qop;
    opaque = param (codes "opaque") params;
    cnonce = c;
    nonce_count = 0;
    created_at = now;
  }

  Protects-session_with :
      (c : Text)
      → (not (is_empty (trim_space raw_qop)) && is_empty (choose_digest_qop raw_qop)) ≡ false
      → fresh_cnonce (choose_digest_qop raw_qop) random ≡ ok c
      → Protects raw_qop random (session_with c)
  unfolding choose_digest_qop
  Protects-session_with c known made = elim (Bool-cases (offers_auth (split_commas [] raw_qop))) [
    | inl e ↦ inl (e, rw e refl, fresh_cnonce-auth random (rw e at made))
    | inr e ↦ inr (
      nil_of (trim_space raw_qop) (ground (arith, rw e at known)),
      e,
      rw e refl,
      fresh_cnonce-none random (rw e at made),
    )
  ]

  session_of_sound :
      {s : DigestSession} → session_of params random now ≡ ok s → IsSessionOf params random now s
  unfolding session_of
  session_of_sound h =
      let algorithm = or_sha256 (param (codes "algorithm") params) in
      let (realm, h₁) = fail_if-eq-ok (is_empty (param (codes "realm") params)) _ _ h in
      let (nonce, h₂) = fail_if-eq-ok (is_empty (param (codes "nonce") params)) _ _ h₁ in
      let (known, h₃) = fail_if-eq-ok (not (equal_fold algorithm (codes "SHA-256"))) _ _ h₂ in
      let (qop, h₄) =
        fail_if-eq-ok (not (is_empty (trim_space raw_qop)) && is_empty (choose_digest_qop raw_qop))
          _ _ h₃ in
      let (c, made, h₅) = >>=-eq-ok (fresh_cnonce (choose_digest_qop raw_qop) random) _ h₄ in
      subst (IsSessionOf params random now) (ok-injective h₅) (record {
        has_realm = not_nil _ realm;
        has_nonce = not_nil _ nonce;
        realm_given = refl;
        nonce_given = refl;
        opaque_given = refl;
        algorithm_known =
            or_sha256-cases (param (codes "algorithm") params) (ground (arith, known));
        sha256 = refl;
        protects = Protects-session_with c qop made;
        count_zero = refl;
        created_now = refl;
      })

  qop_fits :
      (s : DigestSession)
      → Protects raw_qop random s
      → (choose_digest_qop raw_qop ≡ s.qop)
        × ((not (is_empty (trim_space raw_qop)) && is_empty (choose_digest_qop raw_qop)) ≡ false)
        × (fresh_cnonce (choose_digest_qop raw_qop) random ≡ ok s.cnonce)
  unfolding choose_digest_qop fresh_cnonce text_eq
  qop_fits s (inl (e, q, r)) = rw (e, q, r) (refl, ground arith, refl)
  qop_fits s (inr (t, e, q, c)) = rw (t, e, q, c) (refl, refl, refl)

  session_of_complete :
      (s : DigestSession) → IsSessionOf params random now s → session_of params random now ≡ ok s
  unfolding session_of
  session_of_complete s i =
      let (qop, guarded, made) = qop_fits s i.protects in
      let realm = is_empty_of _ (λ e. i.has_realm (i.realm_given ∙ e)) in
      let nonce = is_empty_of _ (λ e. i.has_nonce (i.nonce_given ∙ e)) in
      let known = or_sha256-known (param (codes "algorithm") params) i.algorithm_known in
      simp (realm, nonce, known, guarded, made) (ap ok (same s qop i))
    where
      same :
          (s : DigestSession)
          → choose_digest_qop raw_qop ≡ s.qop
          → IsSessionOf params random now s
          → session_with s.cnonce ≡ s
      same s q i =
          cc
            (q, i.realm_given, i.nonce_given, i.opaque_given, i.sha256, i.count_zero, i.created_now)

pub new_digest_session_iff :
    (challenge : Text) (random : Option Text) (now : ℕ) (s : DigestSession)
    → (new_digest_session challenge random now ≡ ok s)
      ↔ IsSessionOf (parse_digest_challenge challenge) random now s
unfolding new_digest_session
new_digest_session_iff challenge random now s = (
  session_of_sound (parse_digest_challenge challenge) random now,
  session_of_complete (parse_digest_challenge challenge) random now s,
)

-- While its count is below the limit of 30000 a session gives a header and raises the count by one,
-- and at the limit it gives an error; nothing else of the session changes.
pub next_authorization_header_lem :
    (hash : Text → Text) (s : DigestSession) (method uri username password : Text)
    → let (result, s') = next_authorization_header hash s method uri username password in
      ((s.nonce_count < max_digest_nonce_count)
        × (s' ≡ record s { nonce_count = s.nonce_count + 1 })
        × (result ≡ ok (authorization_header hash s' method uri username password)))
      ⊎ ((max_digest_nonce_count ≤ s.nonce_count) × (s' ≡ s) × (result ≡ err nonce_exhausted))
unfolding next_authorization_header
next_authorization_header_lem hash s method uri username password =
    elim (Bool-cases (leb max_digest_nonce_count s.nonce_count)) [
      | inl e ↦ simp e (inr (leb→le _ _ e, refl, refl))
      | inr e ↦ simp e (inl (leb→gt _ _ e, refl, refl))
    ]

abbrev preceded : ℕ → Option (Text × Text) → Option (Text × Text)
preceded c none = none
preceded c (some (s, rest)) = some (c ∷ s, rest)

-- A reader of a quoted string behind its first quote: what it means and what comes behind it. It ends
-- at the first quote without a backslash before it, and a backslash stands before a character that is
-- meant.
pub read_quoted : Text → Option (Text × Text)
read_quoted [] = none
read_quoted (c ∷ []) = if c == b'"' then some ([], []) else none
read_quoted (c ∷ d ∷ s) =
    let meant = preceded d (read_quoted s) in
    let later = preceded c (read_quoted (d ∷ s)) in
    if c == b'"' then some ([], d ∷ s) else if c == b'\\' then meant else later

read_quoted_end : (rest : Text) → read_quoted (b'"' ∷ rest) ≡ some ([], rest)
unfolding read_quoted
read_quoted_end [] = refl
read_quoted_end (c ∷ s) = refl

read_quoted_plain :
    (c d : ℕ) (s : Text)
    → (c == b'"') ≡ false
    → (c == b'\\') ≡ false
    → read_quoted (c ∷ d ∷ s) ≡ preceded c (read_quoted (d ∷ s))
unfolding read_quoted
read_quoted_plain c d s q e = rw (q, e) refl

-- Something always follows, if only the quote at the end.
read_quoted_before :
    (c : ℕ) (s rest : Text)
    → (c == b'"') ≡ false
    → (c == b'\\') ≡ false
    → read_quoted (c ∷ (s ++ b'"' ∷ rest)) ≡ preceded c (read_quoted (s ++ b'"' ∷ rest))
read_quoted_before c [] rest q e = read_quoted_plain c b'"' rest q e
read_quoted_before c (d ∷ s) rest q e = read_quoted_plain c d (s ++ b'"' ∷ rest) q e

-- A value that is escaped and set in quotes is read as it is, and its quoted string ends where the
-- closing quote stands: no quote or backslash in the value ends it early.
pub read_quoted-escape_digest :
    (s rest : Text) → read_quoted (escape_digest s ++ b'"' ∷ rest) ≡ some (s, rest)
unfolding read_quoted escape_digest replace_all
read_quoted-escape_digest [] rest = read_quoted_end rest
read_quoted-escape_digest (c ∷ s) rest = elim (Bool-cases (c == b'\\')) [
  | inl e ↦ rw e (rw ((==_iff c b'\\').0 e, read_quoted-escape_digest s rest) refl)
  | inr e ↦ elim (Bool-cases (c == b'"')) [
    | inl q ↦ rw (e, q) (rw ((==_iff c b'"').0 q, read_quoted-escape_digest s rest) refl)
    | inr q ↦
        rw (e, q)
          (read_quoted_before c (escape_digest s) rest q e
            ∙ ap (preceded c) (read_quoted-escape_digest s rest))
  ]
]
