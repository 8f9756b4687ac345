-- ===== src/Shelly/Digest.antt =====
-- internal/shelly/digest.go: the digest session of a device and the headers that it makes.
-- SHA-256 and the random client nonce are arguments; times are in nanoseconds.
pub mod Session
pub mod Challenge
use fbs_interlock_gateway.Prelude.{
  ltb, leb, ◌==◌, if◌then◌else◌, Result, ok, err, ◌>>=◌, ◌>>◌, fail_if, ℕ, zero, suc, ◌+◌, ◌-◌, ◌*◌,
  ◌/◌, ◌%◌, ◌^◌, String, Bool, not, ◌&&◌, ◌||◌, Option, none, some, List, [], ◌∷◌, ◌++◌,
}
use fbs_interlock_gateway.Text.{Text, codes, is_empty, trim_space, text_eq, equal_fold}
use fbs_interlock_gateway.Dict.{int_key, text_key, Dict, lookup}
use Challenge.{parse_digest_challenge, choose_digest_qop}

abbrev pub max_digest_nonce_count : ℕ
max_digest_nonce_count = 30000

-- 55 minutes
abbrev pub digest_session_max_age : ℕ
digest_session_max_age = 55 * 60 * 10 ^ 9

pub record DigestSession : Type 0 where
  pub realm : Text
  pub nonce : Text
  pub algorithm : Text
  pub qop : Text
  pub opaque : Text
  pub cnonce : Text
  pub nonce_count : ℕ  -- uint32
  pub created_at : ℕ

pub data DigestError : Type 0 where
  missing_realm missing_nonce random_failed nonce_exhausted : DigestError
  unsupported_algorithm unsupported_qop : Text → DigestError

unfoldable pub param : Text → Dict Text Text → Text
param key params = elim (lookup key params) [ none ↦ [] | some value ↦ value ]

unfoldable pub or_sha256 : Text → Text
or_sha256 algorithm = if is_empty algorithm then codes "SHA-256" else algorithm

unfoldable pub fresh_cnonce : Text → Option Text → Result DigestError Text
fresh_cnonce qop random =
    if text_eq qop (codes "auth")
    then elim random [ none ↦ err random_failed | some c ↦ ok c ]
    else ok []

-- The checks of `newDigestSession` on the parsed parameters.
unfoldable pub session_of : Dict Text Text → Option Text → ℕ → Result DigestError DigestSession
unfolding param or_sha256 fresh_cnonce
session_of params random now = do
  let realm = param (codes "realm") params
  let nonce = param (codes "nonce") params
  let algorithm = or_sha256 (param (codes "algorithm") params)
  let qop_raw = param (codes "qop") params
  fail_if (is_empty realm) missing_realm
  fail_if (is_empty nonce) missing_nonce
  fail_if (not (equal_fold algorithm (codes "SHA-256"))) (unsupported_algorithm algorithm)
  let qop = choose_digest_qop qop_raw
  fail_if (not (is_empty (trim_space qop_raw)) && is_empty qop) (unsupported_qop qop_raw)
  cnonce ← fresh_cnonce qop random
  ok (record {
    realm = realm;
    nonce = nonce;
    algorithm = codes "SHA-256";
    qop = qop;
    opaque = param (codes "opaque") params;
    cnonce = cnonce;
    nonce_count = 0;
    created_at = now;
  })

unfoldable pub new_digest_session : Text → Option Text → ℕ → Result DigestError DigestSession
new_digest_session challenge random now = session_of (parse_digest_challenge challenge) random now

-- `expired` of a session that is not nil.
unfoldable pub expired : DigestSession → ℕ → Bool
expired s now =
    leb digest_session_max_age (now - s.created_at) || leb max_digest_nonce_count s.nonce_count

hex_digit : ℕ → ℕ
hex_digit d = if ltb d 10 then b'0' + d else b'a' + d - 10

-- The last `width` hexadecimal digits, which are all for a number below 16 ^ width.
hex_padded : ℕ → ℕ → Text
unfolding hex_digit
hex_padded zero n = []
hex_padded (suc width) n = hex_padded width (n / 16) ++ hex_digit (n % 16) ∷ []

-- strings.ReplaceAll of one character
replace_all : ℕ → Text → Text → Text
replace_all old new [] = []
replace_all old new (c ∷ s) = (if c == old then new else c ∷ []) ++ replace_all old new s

pub escape_digest : Text → Text
unfolding replace_all
escape_digest s = replace_all b'"' (codes "\\\"") (replace_all b'\\' (codes "\\\\") s)

joined : List Text → Text
joined [] = []
joined (s ∷ []) = s
joined (s ∷ t ∷ ts) = s ++ b':' ∷ joined (t ∷ ts)

quoted : String → Text → Text
unfolding escape_digest
quoted name value = codes name ++ codes "=\"" ++ escape_digest value ++ codes "\""

opaque_part : Text → Text
unfolding quoted
opaque_part [] = []
opaque_part (c ∷ s) = codes ", " ++ quoted "opaque" (c ∷ s)

-- The header that a session makes, its count already raised; `hash` is `sha256Hex`.
unfoldable pub authorization_header :
    (Text → Text) → DigestSession → Text → Text → Text → Text → Text
unfolding hex_padded joined quoted opaque_part
authorization_header hash s method uri username password =
    let nc = hex_padded 8 s.nonce_count in
    let ha1 = hash (joined (username ∷ s.realm ∷ password ∷ [])) in
    let ha2 = hash (joined (method ∷ uri ∷ [])) in
    let start =
      codes "Digest "
      ++ quoted "username" username
      ++ codes ", "
      ++ quoted "realm" s.realm
      ++ codes ", "
      ++ quoted "nonce" s.nonce
      ++ codes ", "
      ++ quoted "uri" uri
      ++ codes ", algorithm=SHA-256, response=\"" in
    if text_eq s.qop (codes "auth")
    then start
      ++ hash (joined (ha1 ∷ s.nonce ∷ nc ∷ s.cnonce ∷ s.qop ∷ ha2 ∷ []))
      ++ codes "\", qop=auth, nc="
      ++ nc
      ++ codes ", "
      ++ quoted "cnonce" s.cnonce
      ++ opaque_part s.opaque
    else start ++ hash (joined (ha1 ∷ s.nonce ∷ ha2 ∷ [])) ++ codes "\"" ++ opaque_part s.opaque

-- `nextAuthorizationHeader` of a session that is not nil.
pub next_authorization_header :
    (Text → Text)
    → DigestSession
    → Text
    → Text
    → Text
    → Text
    → Result DigestError Text × DigestSession
next_authorization_header hash s method uri username password =
    if leb max_digest_nonce_count s.nonce_count
    then (err nonce_exhausted, s)
    else let s' = record s { nonce_count = s.nonce_count + 1 } in
      (ok (authorization_header hash s' method uri username password), s')
