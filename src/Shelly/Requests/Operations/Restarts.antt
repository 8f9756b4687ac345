-- ===== src/Shelly/Requests/Operations/Restarts.antt =====
-- Which requests of internal/shelly/client.go lead to a restart.
use fbs_interlock_gateway.Prelude.{
  Bool-cases, Result, ok, err, ℕ, ◌≡◌, refl, ◌∙◌, ◌⊎◌, inl, inr, Bool, true, Option, none, some, [],
  ◌∷◌, ◌++◌,
}
use fbs_interlock_gateway.Text.{Text, codes}
use fbs_interlock_gateway.Config.{Tool}
use fbs_interlock_gateway.Shelly.HttpError.{ClientError, requires_reboot}
use fbs_interlock_gateway.Shelly.Auth.{Reply, Credentials}
use fbs_interlock_gateway.Shelly.Recovery.{Recoveries, handle_http_error}
use fbs_interlock_gateway.Shelly.Requests.{
  Priority, fbs_request, UrlError, RequestError, failed, Library, Network, acquired, Client,
  device_key, credentials, succeeded, finish_get, send_get, after_acquire, get_with_priority,
  close_body, read_limited, response_http_error,
}
use fbs_interlock_gateway.Shelly.Requests.Operations.{
  recover, discard_body, failed_done, on_done, request_at, set_switch, reboot,
}

module _ {W : Type 0} (lib : Library) (net : Network W) where
  send_get-recoveries :
      (key url : Text) (o : Option Credentials) (c : Client W)
      → (send_get lib net key url o c).1.recoveries ≡ c.recoveries
  unfolding send_get
  send_get-recoveries key url none c = refl
  send_get-recoveries key url (some who) c = refl

  finish_get-recoveries :
      (key : Text) (reply : Reply) (c : Client W)
      → (finish_get lib net key reply c).1.recoveries ≡ c.recoveries
  unfolding finish_get
  finish_get-recoveries key (ok resp) c = refl
  finish_get-recoveries key (err e) c = refl

  after_acquire-recoveries :
      (key url : Text) (t : Tool) (r : Result ClientError (Unit {0})) (c : Client W)
      → (after_acquire lib net key url t r c).1.recoveries ≡ c.recoveries
  unfolding after_acquire
  after_acquire-recoveries key url t (err e) c = refl
  after_acquire-recoveries key url t (ok _) c =
      let held = record c { slots = c.slots ++ acquired key ∷ [] } in
      finish_get-recoveries key (send_get lib net key url (credentials lib url t) held).0
        (send_get lib net key url (credentials lib url t) held).1
      ∙ send_get-recoveries key url (credentials lib url t) held

  get_with_priority-recoveries :
      (priority : Priority) (t : Tool) (url : Text) (c : Client W)
      → (get_with_priority lib net priority t url c).1.recoveries ≡ c.recoveries
  unfolding get_with_priority
  get_with_priority-recoveries priority t url c = after_acquire-recoveries (device_key t) url t _ _

  -- Restarts are as before, or the error asks for one.
  abbrev pub AsBeforeOr : Result RequestError (Unit {0}) → Client W → Client W → Type 0
  AsBeforeOr r c c' =
      (c'.recoveries ≡ c.recoveries)
      ⊎ ((e : ClientError) × (r ≡ err (failed e)) × (requires_reboot e ≡ true))

  handled :
      (cooldown : ℕ) (ip : Text) (e : ClientError) (now : ℕ) (d : Recoveries)
      → ((handle_http_error cooldown ip e now d).1 ≡ d) ⊎ (requires_reboot e ≡ true)
  unfolding handle_http_error
  handled cooldown ip e now d = elim (Bool-cases (requires_reboot e)) [
    | inl yes_it_does ↦ inr yes_it_does
    | inr n ↦ simp n (inl refl)
  ]

  on_done-set :
      (cooldown : ℕ) (t : Tool) (start : Client W) (o : Reply × Client W)
      → o.1.recoveries ≡ start.recoveries
      → AsBeforeOr
          (on_done lib net (recover lib net cooldown t) (codes "set") t o).0
          start
          (on_done lib net (recover lib net cooldown t) (codes "set") t o).1
  unfolding on_done response_http_error failed_done discard_body read_limited recover close_body
  on_done-set cooldown t start (err e, c) h = inl h
  on_done-set cooldown t start (ok resp, c) h = elim (Bool-cases (succeeded resp)) [
    | inl good ↦ simp good (inl h)
    | inr bad ↦
        simp bad
          (elim (handled cooldown t.ip
            (response_http_error lib net (codes "set") fbs_request resp c).0
            ((net.at_url []).now
              (response_http_error lib net (codes "set") fbs_request resp c).1.world)
            c.recoveries) [
              | inl same ↦ inl (same ∙ h)
              | inr asks ↦
                  inr ((response_http_error lib net (codes "set") fbs_request resp c).0, refl, asks)
            ])
  ]

  on_done-reboot :
      (t : Tool) (o : Reply × Client W)
      → (on_done lib net (λ e. e) (codes "reboot") t o).1.recoveries ≡ o.1.recoveries
  unfolding on_done response_http_error failed_done discard_body read_limited close_body
  on_done-reboot t (err e, c) = refl
  on_done-reboot t (ok resp, c) = elim (Bool-cases (succeeded resp)) [
    | inl good ↦ simp good
    | inr bad ↦ simp bad
  ]

  request_at-set :
      (cooldown : ℕ) (t : Tool) (r : Result UrlError Text) (c : Client W)
      → AsBeforeOr
          (request_at lib net (recover lib net cooldown t) (codes "set") t r c).0
          c
          (request_at lib net (recover lib net cooldown t) (codes "set") t r c).1
  unfolding request_at
  request_at-set cooldown t (err e) c = inl refl
  request_at-set cooldown t (ok url) c =
      on_done-set cooldown t c (get_with_priority lib net fbs_request t url c)
        (get_with_priority-recoveries fbs_request t url c)

  request_at-reboot :
      (t : Tool) (r : Result UrlError Text) (c : Client W)
      → (request_at lib net (λ e. e) (codes "reboot") t r c).1.recoveries ≡ c.recoveries
  unfolding request_at
  request_at-reboot t (err e) c = refl
  request_at-reboot t (ok url) c =
      on_done-reboot t (get_with_priority lib net fbs_request t url c)
      ∙ get_with_priority-recoveries fbs_request t url c

  -- A switch leaves the restarts as they were unless it fails with an error that asks for a restart,
  -- and a restart leaves them as they were however it ends: it leads to no other.
  pub reboot-recoveries :
      (cooldown : ℕ) (t : Tool) (on : Bool) (c : Client W)
      → AsBeforeOr (set_switch lib net cooldown t on c).0 c (set_switch lib net cooldown t on c).1
        × ((reboot lib net t c).1.recoveries ≡ c.recoveries)
  unfolding set_switch reboot
  reboot-recoveries cooldown t on c = (request_at-set cooldown t _ c, request_at-reboot t _ c)
