-- ===== src/Admin/Guard.antt =====
-- internal/admin/server.go: which requests the middlewares let through to the handlers. What
-- url.Parse makes of an origin, its scheme and host, is an argument.
pub mod Admission
use fbs_interlock_gateway.Prelude.{if◌then◌else◌, Bool, false, not, ◌&&◌, ◌||◌, Option, none, some}
use fbs_interlock_gateway.Text.{Text, codes, is_empty, trim_space, to_lower, text_eq, equal_fold}

-- The method, the host and the two headers that are looked at.
pub record GuardedRequest : Type 0 where
  pub method : Text
  pub host : Text
  pub fetch_site : Text
  pub origin : Text

pub data Verdict : Type 0 where
  served invalid_host cross_site_rejected origin_rejected : Verdict

unfoldable pub is_safe_method : Text → Bool
is_safe_method method =
    text_eq method (codes "GET")
    || text_eq method (codes "HEAD")
    || text_eq method (codes "OPTIONS")

unfoldable pub host_matches : Text → Option (Text × Text) → Bool
host_matches host none = false
host_matches host (some (scheme, origin_host)) =
    if not (text_eq scheme (codes "http")) && not (text_eq scheme (codes "https"))
    then false
    else equal_fold origin_host host

module _ (parse : Text → Option (Text × Text)) where
  unfoldable pub origin_matches_request : Text → GuardedRequest → Bool
  unfolding host_matches
  origin_matches_request origin r = host_matches r.host (parse origin)

  unfoldable pub cross_site_protection : GuardedRequest → Verdict
  unfolding is_safe_method origin_matches_request
  cross_site_protection r =
      let origin = trim_space r.origin in
      if is_safe_method r.method
      then served
      else if equal_fold r.fetch_site (codes "cross-site")
      then cross_site_rejected
      else if not (is_empty origin) && not (origin_matches_request origin r)
      then origin_rejected
      else served

  -- The chain of `Run`: the host first.
  unfoldable pub host_validation : GuardedRequest → Verdict
  unfolding cross_site_protection
  host_validation r =
      let host = to_lower (trim_space r.host) in
      if text_eq host (codes "127.0.0.1:18090") || text_eq host (codes "localhost:18090")
      then cross_site_protection r
      else invalid_host
