-- ===== src/Admin/Guard/Admission.antt =====
-- What is known of a request that reaches a handler of internal/admin/server.go.
use fbs_interlock_gateway.Prelude.{
  Bool-cases, ◌≡◌, refl, ◌⊎◌, inl, inr, true, false, ◌||◌, Option, none, some, [], ◌∷◌, arith,
}
use fbs_interlock_gateway.Text.{Text, codes, is_empty, trim_space, to_lower, text_eq, equal_fold}
use fbs_interlock_gateway.Text.Laws.{text_eq→eq}
use fbs_interlock_gateway.Admin.Guard.{
  GuardedRequest, served, is_safe_method, host_matches, origin_matches_request,
  cross_site_protection, host_validation,
}

abbrev pub IsLocal : Text → Type 0
IsLocal host =
    (to_lower (trim_space host) ≡ codes "127.0.0.1:18090")
    ⊎ (to_lower (trim_space host) ≡ codes "localhost:18090")

-- The request's origin is a web address at the request's own host.
pub record IsSameOrigin (parse : Text → Option (Text × Text)) (r : GuardedRequest) : Type 0 where
  pub scheme : Text
  pub host : Text
  pub parsed : parse (trim_space r.origin) ≡ some (scheme, host)
  pub web : (scheme ≡ codes "http") ⊎ (scheme ≡ codes "https")
  pub own_host : equal_fold host r.host ≡ true

either_text : (s a b : Text) → (text_eq s a || text_eq s b) ≡ true → (s ≡ a) ⊎ (s ≡ b)
either_text s a b h = elim (Bool-cases (text_eq s a)) [
  | inl e ↦ inl (text_eq→eq s a e)
  | inr e ↦ inr (text_eq→eq s b (rw e at h))
]

empty_text : (s : Text) → is_empty s ≡ true → s ≡ []
empty_text [] h = refl
empty_text (c ∷ s) h = cc

module _ (parse : Text → Option (Text × Text)) (r : GuardedRequest) where
  IsSameOrigin-parsed :
      (o : Option (Text × Text))
      → parse (trim_space r.origin) ≡ o
      → host_matches r.host o ≡ true
      → IsSameOrigin parse r
  unfolding host_matches
  IsSameOrigin-parsed none e h = cc
  IsSameOrigin-parsed (some (scheme, host)) e h = record {
    scheme = scheme;
    host = host;
    parsed = e;
    web = either_text scheme (codes "http") (codes "https") (ground arith);
    own_host = ground arith;
  }

  -- A request that a handler serves is addressed to the loopback address or localhost at port 18090,
  -- and has a method that changes nothing, or is not marked as coming from another site and names
  -- either no origin or one with the schemes http or https at the host it is addressed to.
  pub host_validation-served :
      host_validation parse r ≡ served
      → IsLocal r.host
        × ((is_safe_method r.method ≡ true)
            ⊎ ((equal_fold r.fetch_site (codes "cross-site") ≡ false)
                × ((trim_space r.origin ≡ []) ⊎ IsSameOrigin parse r)))
  unfolding host_validation cross_site_protection origin_matches_request
  host_validation-served h =
      elim (Bool-cases (
        text_eq (to_lower (trim_space r.host)) (codes "127.0.0.1:18090")
        || text_eq (to_lower (trim_space r.host)) (codes "localhost:18090"))) [
          | inr e ↦ absurd (ground arith)
          | inl local ↦ (
            either_text _ _ _ local,
            elim (Bool-cases (is_safe_method r.method)) [
              | inl safe ↦ inl safe
              | inr unsafe ↦ inr (
                ground arith,
                elim (Bool-cases (is_empty (trim_space r.origin))) [
                  | inl none' ↦ inl (empty_text _ none')
                  | inr some' ↦
                      inr (IsSameOrigin-parsed (parse (trim_space r.origin)) refl (ground arith))
                ],
              )
            ],
          )
        ]
