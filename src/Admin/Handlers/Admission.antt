-- ===== src/Admin/Handlers/Admission.antt =====
-- Which requests act through the handlers of internal/admin/server.go.
use fbs_interlock_gateway.Prelude.{
  ◌∙◌, Bool-cases, ◌≡◌, refl, ◌⊎◌, inl, inr, true, false, Option, none, some, [], arith, ap,
}
use fbs_interlock_gateway.Text.{Text, codes, trim_space, text_eq, equal_fold, is_empty}
use fbs_interlock_gateway.Text.Laws.{text_eq→eq}
use fbs_interlock_gateway.Admin.Guard.{
  GuardedRequest, Verdict, served, invalid_host, cross_site_rejected, origin_rejected,
  is_safe_method, host_validation,
}
use fbs_interlock_gateway.Admin.Guard.Admission.{IsLocal, IsSameOrigin, host_validation-served}
use fbs_interlock_gateway.Admin.Handlers.{
  method_not_allowed, Route, config_route, status_route, log_export_route, restart_route,
  page_route, Action, reads_config, saves_config, requests_restart, reads_page, reads_status,
  exports_logs, acts, handle_config, handle_status, handle_log_export, exported, export_name,
  handle_restart, handle, guarded, answer,
}

-- The methods that the handlers take for an action.
abbrev pub Asked : Action → Text → Type 0
Asked reads_config method = method ≡ codes "GET"
Asked saves_config method = method ≡ codes "PUT"
Asked requests_restart method = method ≡ codes "POST"
Asked reads_page method = Unit
Asked (reads_status refresh) method = method ≡ codes "GET"
Asked (exports_logs name) method = (method ≡ codes "POST") × (is_empty name ≡ false)

acts_injective : {a b : Action} → acts a ≡ acts b → a ≡ b
acts_injective h = cc

-- It only reads, though a refresh of the status may be started.
abbrev pub Reads : Action → Type 0
Reads reads_config = Unit
Reads saves_config = ⊥
Reads requests_restart = ⊥
Reads reads_page = Unit
Reads (reads_status refresh) = Unit
Reads (exports_logs name) = ⊥

abbrev Taken : Text → Action → Type 0
Taken method a = Asked a method × (Reads a ⊎ (is_safe_method method ≡ false))

is_safe_method-put : is_safe_method (codes "PUT") ≡ false
unfolding is_safe_method text_eq
is_safe_method-put = refl

is_safe_method-post : is_safe_method (codes "POST") ≡ false
unfolding is_safe_method text_eq
is_safe_method-post = refl

not_allowed_acts : {m : Text} {a : Action} → method_not_allowed m ≡ acts a → ⊥
not_allowed_acts h = cc

Taken-by : (method : Text) (a b : Action) → acts b ≡ acts a → Taken method b → Taken method a
Taken-by method a b h taken = rw (← acts_injective h) taken

handle_config-Taken : (method : Text) (a : Action) → handle_config method ≡ acts a → Taken method a
unfolding handle_config
handle_config-Taken method a h = elim (Bool-cases (text_eq method (codes "GET"))) [
  | inl get ↦ Taken-by method a reads_config (rw get at h) (text_eq→eq _ _ get, inl tt)
  | inr other ↦ elim (Bool-cases (text_eq method (codes "PUT"))) [
    | inl put ↦
        let same = text_eq→eq _ _ put in
        Taken-by method a saves_config (rw (other, put) at h)
          (same, inr (ap is_safe_method same ∙ is_safe_method-put))
    | inr neither ↦ absurd (not_allowed_acts (rw (other, neither) at h))
  ]
]

handle_status-Taken :
    (method refresh : Text) (a : Action) → handle_status method refresh ≡ acts a → Taken method a
unfolding handle_status
handle_status-Taken method refresh a h = elim (Bool-cases (text_eq method (codes "GET"))) [
  | inl get ↦
      Taken-by method a (reads_status (text_eq refresh (codes "1"))) (rw get at h)
        (text_eq→eq _ _ get, inl tt)
  | inr other ↦ absurd (not_allowed_acts (rw other at h))
]

export_name-named : (suggested : Text) → is_empty (export_name suggested) ≡ false
unfolding export_name
export_name-named suggested = elim (Bool-cases (is_empty (trim_space suggested))) [
  | inl none' ↦ rw none' refl
  | inr some' ↦ rw some' some'
]

posted : (method : Text) → text_eq method (codes "POST") ≡ true → is_safe_method method ≡ false
posted method post = ap is_safe_method (text_eq→eq _ _ post) ∙ is_safe_method-post

exported-Taken :
    (method : Text) (exporter : Option Text) (a : Action)
    → text_eq method (codes "POST") ≡ true
    → exported exporter ≡ acts a
    → Taken method a
unfolding exported
exported-Taken method none a post h = cc
exported-Taken method (some suggested) a post h =
    Taken-by method a (exports_logs (export_name suggested)) h
      ((text_eq→eq _ _ post, export_name-named suggested), inr (posted method post))

handle_log_export-Taken :
    (method : Text) (exporter : Option Text) (a : Action)
    → handle_log_export method exporter ≡ acts a
    → Taken method a
unfolding handle_log_export
handle_log_export-Taken method exporter a h = elim (Bool-cases (text_eq method (codes "POST"))) [
  | inl post ↦ exported-Taken method exporter a post (rw post at h)
  | inr other ↦ absurd (not_allowed_acts (rw other at h))
]

handle_restart-Taken :
    (method : Text) (a : Action) → handle_restart method ≡ acts a → Taken method a
unfolding handle_restart
handle_restart-Taken method a h = elim (Bool-cases (text_eq method (codes "POST"))) [
  | inl post ↦
      Taken-by method a requests_restart (rw post at h)
        (text_eq→eq _ _ post, inr (posted method post))
  | inr other ↦ absurd (not_allowed_acts (rw other at h))
]

module _ (exporter : Option Text) (refresh : Text) where
  handle-Taken :
      (route : Route) (method : Text) (a : Action)
      → handle exporter refresh route method ≡ acts a
      → Taken method a
  unfolding handle
  handle-Taken config_route method a h = handle_config-Taken method a h
  handle-Taken status_route method a h = handle_status-Taken method refresh a h
  handle-Taken log_export_route method a h = handle_log_export-Taken method exporter a h
  handle-Taken restart_route method a h = handle_restart-Taken method a h
  handle-Taken page_route method a h = Taken-by method a reads_page h (tt, inl tt)

  guarded-served :
      (v : Verdict) (route : Route) (method : Text) (a : Action)
      → guarded exporter refresh v route method ≡ acts a
      → (v ≡ served) × (handle exporter refresh route method ≡ acts a)
  unfolding guarded
  guarded-served served route method a h = (refl, h)
  guarded-served invalid_host route method a h = cc
  guarded-served cross_site_rejected route method a h = cc
  guarded-served origin_rejected route method a h = cc

  -- An action is only taken for a request that is addressed to the loopback address or localhost at
  -- port 18090 and has the method for it: GET to read the configuration or the status, PUT to save
  -- the configuration, POST to export the logs, under a name that is not empty, or to restart. An
  -- action that does more than read is only taken when the request is not marked as coming from
  -- another site and names no origin, or one with the schemes http or https at the host it is
  -- addressed to.
  pub answer-acts :
      (parse : Text → Option (Text × Text)) (route : Route) (r : GuardedRequest) (a : Action)
      → answer exporter refresh parse route r ≡ acts a
      → IsLocal r.host
        × Asked a r.method
        × (Reads a
            ⊎ ((equal_fold r.fetch_site (codes "cross-site") ≡ false)
                × ((trim_space r.origin ≡ []) ⊎ IsSameOrigin parse r)))
  unfolding answer
  answer-acts parse route r a h =
      let (admitted, handled) = guarded-served (host_validation parse r) route r.method a h in
      let (local, same_site) = host_validation-served parse r admitted in
      let (asked, reads) = handle-Taken route r.method a handled in
      (
        local,
        asked,
        elim reads [
          | inl read ↦ inl read
          | inr unsafe ↦ elim same_site [ inl safe ↦ absurd (ground arith) | inr own ↦ inr own ]
        ],
      )
