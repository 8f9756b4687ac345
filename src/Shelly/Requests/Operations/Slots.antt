-- ===== src/Shelly/Requests/Operations/Slots.antt =====
-- The slot of a device in the requests of internal/shelly/client.go.
use mathlib.Core.List.{append-nil, append_assoc}
use fbs_interlock_gateway.Prelude.{
  Bool-cases, Result, ok, err, ℕ, zero, suc, ◌+◌, ◌≤◌, ◌≡◌, refl, sym, ap, ◌∙◌, inl, inr, not,
  Option, none, some, List, [], ◌∷◌, ◌++◌, arith, ◌==◌, Bool, true, false, ◌||◌,
}
use fbs_interlock_gateway.Text.{Text, codes}
use fbs_interlock_gateway.Config.{Tool}
use fbs_interlock_gateway.Shelly.Requests.Operations.{
  recover, failed_with, decode_status, on_status, get_status_once, should_retry_status,
  after_retry_wait, on_attempt, status_attempts, status_at, get_status, discard_body, failed_done,
  on_done, request_at, set_switch, reboot,
}
use fbs_interlock_gateway.Shelly.HttpError.{ClientError}
use fbs_interlock_gateway.Shelly.Auth.{HttpResponse, Reply, Credentials}
use fbs_interlock_gateway.Shelly.Requests.{
  Priority, Library, Network, SlotEvent, acquired, released, Client, device_key, credentials,
  succeeded, request_error, finish_get, send_get, after_acquire, get_with_priority, close_body,
  read_limited, response_http_error, SwitchStatus, fbs_request, UrlError, max_status_attempts,
  RequestError,
}

-- So many times the slot was taken and given back.
abbrev pub uses : ℕ → Text → List SlotEvent
uses zero key = []
uses (suc n) key = acquired key ∷ released key ∷ uses n key

-- The slot was taken at most so often, each time given back before the next, and is not held.
abbrev pub GivenBack : {W : Type 0} → Text → ℕ → Client W → Client W → Type 0
GivenBack key limit c c' = (n : ℕ) × (n ≤ limit) × (c'.slots ≡ c.slots ++ uses n key)

uses-add : (n m : ℕ) (key : Text) → uses n key ++ uses m key ≡ uses (n + m) key
uses-add zero m key = let e : m ≡ 0 + m = omega arith in ap (λ k. uses k key) e
uses-add (suc n) m key =
    let e : suc (n + m) ≡ suc n + m = omega arith in
    ap (λ l. acquired key ∷ released key ∷ l) (uses-add n m key) ∙ ap (λ k. uses k key) e

GivenBack-trans :
    {W : Type 0} (key : Text) (a b : ℕ) (c c' c'' : Client W)
    → GivenBack key a c c'
    → GivenBack key b c' c''
    → GivenBack key (a + b) c c''
GivenBack-trans key a b c c' c'' (n, small, e) (m, small', e') = (
  n + m,
  omega arith,
  e'
      ∙ ap (λ l. l ++ uses m key) e
      ∙ append_assoc c.slots (uses n key) (uses m key)
      ∙ ap (λ l. c.slots ++ l) (uses-add n m key),
)

-- After a request: an error and a slot that is given back, or a response and the slot.
data Held {W : Type 0} (key : Text) (c : Client W) (o : Reply × Client W) : Type 0 where
  gone : (e : ClientError) → o.0 ≡ err e → GivenBack key 1 c o.1 → Held key c o
  kept :
      (resp : HttpResponse)
      → o.0 ≡ ok resp
      → o.1.slots ≡ c.slots ++ acquired key ∷ []
      → Held key c o

module _ {W : Type 0} (lib : Library) (net : Network W) where
  send_get-slots :
      (key url : Text) (o : Option Credentials) (c : Client W)
      → (send_get lib net key url o c).1.slots ≡ c.slots
  unfolding send_get
  send_get-slots key url none c = refl
  send_get-slots key url (some who) c = refl

  finish_get-Held :
      (key : Text) (reply : Reply) (start c : Client W)
      → c.slots ≡ start.slots ++ acquired key ∷ []
      → Held key start (finish_get lib net key reply c)
  unfolding finish_get
  finish_get-Held key (ok resp) start c h = kept resp refl h
  finish_get-Held key (err e) start c h = gone (request_error lib net e c.world) refl (
    1,
    omega arith,
    ap (λ l. l ++ released key ∷ []) h
        ∙ append_assoc start.slots (acquired key ∷ []) (released key ∷ []),
  )

  after_acquire-Held :
      (key url : Text) (t : Tool) (r : Result ClientError (Unit {0})) (start c : Client W)
      → c.slots ≡ start.slots
      → Held key start (after_acquire lib net key url t r c)
  unfolding after_acquire
  after_acquire-Held key url t (err e) start c h =
      gone e refl (0, omega arith, h ∙ sym (append-nil start.slots))
  after_acquire-Held key url t (ok _) start c h = finish_get-Held key _ start _ (
      send_get-slots key url (credentials lib url t)
        (record c { slots = c.slots ++ acquired key ∷ [] })
      ∙ ap (λ l. l ++ acquired key ∷ []) h)

  get_with_priority-Held :
      (priority : Priority) (t : Tool) (url : Text) (c : Client W)
      → Held (device_key t) c (get_with_priority lib net priority t url c)
  unfolding get_with_priority
  get_with_priority-Held priority t url c = after_acquire-Held (device_key t) url t _ c _ refl

  close_body-GivenBack :
      (key : Text) (start c : Client W)
      → c.slots ≡ start.slots ++ acquired key ∷ []
      → GivenBack key 1 start (close_body lib net key c)
  unfolding close_body
  close_body-GivenBack key start c h = (
    1,
    omega arith,
    ap (λ l. l ++ released key ∷ []) h
        ∙ append_assoc start.slots (acquired key ∷ []) (released key ∷ []),
  )

  on_status-GivenBack :
      (cooldown : ℕ) (priority : Priority) (t : Tool) (start : Client W) (o : Reply × Client W)
      → Held (device_key t) start o
      → GivenBack (device_key t) 1 start (on_status lib net cooldown priority t o).1
  unfolding on_status recover response_http_error failed_with decode_status read_limited
  on_status-GivenBack cooldown priority t start (err e, c) (gone _ _ h) = h
  on_status-GivenBack cooldown priority t start (err e, c) (kept resp h _) = cc
  on_status-GivenBack cooldown priority t start (ok resp, c) (gone e h _) = cc
  on_status-GivenBack cooldown priority t start (ok resp, c) (kept _ _ h) =
      elim (Bool-cases (succeeded resp)) [
        | inl good ↦ simp good (close_body-GivenBack (device_key t) start _ h)
        | inr bad ↦ simp bad (close_body-GivenBack (device_key t) start _ h)
      ]

  get_status_once-GivenBack :
      (cooldown : ℕ) (priority : Priority) (t : Tool) (url : Text) (c : Client W)
      → GivenBack (device_key t) 1 c (get_status_once lib net cooldown priority t url c).1
  unfolding get_status_once
  get_status_once-GivenBack cooldown priority t url c =
      on_status-GivenBack cooldown priority t c (get_with_priority lib net priority t url c)
        (get_with_priority-Held priority t url c)

  after_retry_wait-GivenBack :
      (key : Text) (n : ℕ) (elapsed : Bool) (c : Client W)
      (continue : Client W → Result RequestError SwitchStatus × Client W)
      → ((c' : Client W) → GivenBack key n c' (continue c').1)
      → GivenBack key n c (after_retry_wait lib net elapsed c continue).1
  unfolding after_retry_wait
  after_retry_wait-GivenBack key n true c continue h = h c
  after_retry_wait-GivenBack key n false c continue h = (0, omega arith, sym (append-nil c.slots))

  on_attempt-GivenBack :
      (key : Text) (n : ℕ) (last : Bool) (start : Client W)
      (o : Result ClientError SwitchStatus × Client W)
      (continue : Client W → Result RequestError SwitchStatus × Client W)
      → GivenBack key 1 start o.1
      → ((c' : Client W) → GivenBack key n c' (continue c').1)
      → GivenBack key (1 + n) start (on_attempt lib net last o continue).1
  unfolding on_attempt
  on_attempt-GivenBack key n last start (ok status, c) continue (m, small, e) h =
      (m, omega (arith, small), e)
  on_attempt-GivenBack key n last start (err e, c) continue (m, small, once) h =
      elim (Bool-cases (last || not (should_retry_status lib net e c.world))) [
        | inl stop ↦ simp stop (m, omega (arith, small), once)
        | inr more ↦
            let waited = record c { world = (net.retry_wait c.world).1 } in
            simp more (
              GivenBack-trans key 1 n start waited
                (after_retry_wait lib net (net.retry_wait c.world).0 waited continue).1
                (m, small, once)
                (after_retry_wait-GivenBack key n (net.retry_wait c.world).0 waited continue h))
      ]

  status_attempts-GivenBack :
      (left cooldown : ℕ) (priority : Priority) (t : Tool) (url : Text) (c : Client W)
      → GivenBack (device_key t) left c (status_attempts lib net left cooldown priority t url c).1
  unfolding status_attempts
  status_attempts-GivenBack zero cooldown priority t url c =
      (0, omega arith, sym (append-nil c.slots))
  status_attempts-GivenBack (suc left) cooldown priority t url c =
      let (n, small, e) =
        on_attempt-GivenBack (device_key t) left (left == 0) c
          (get_status_once lib net cooldown priority t url c)
          (λ c'. status_attempts lib net left cooldown priority t url c')
          (get_status_once-GivenBack cooldown priority t url c)
          (λ c'. status_attempts-GivenBack left cooldown priority t url c') in
      (n, omega (arith, small), e)

  status_at-GivenBack :
      (cooldown : ℕ) (priority : Priority) (t : Tool) (r : Result UrlError Text) (c : Client W)
      → GivenBack (device_key t) max_status_attempts c (status_at lib net cooldown priority t r c).1
  unfolding status_at
  status_at-GivenBack cooldown priority t (err e) c = (0, omega arith, sym (append-nil c.slots))
  status_at-GivenBack cooldown priority t (ok url) c =
      status_attempts-GivenBack 2 cooldown priority t url c

  -- However a status request ends, it has used its device's slot at most twice, each time given it
  -- back once, and does not hold it.
  pub get_status-GivenBack :
      (cooldown : ℕ) (priority : Priority) (t : Tool) (c : Client W)
      → GivenBack (device_key t) max_status_attempts c (get_status lib net cooldown priority t c).1
  unfolding get_status
  get_status-GivenBack cooldown priority t c = status_at-GivenBack cooldown priority t _ c

  on_done-GivenBack :
      (after_error : ClientError × Client W → ClientError × Client W) (operation : Text) (t : Tool)
      (start : Client W) (o : Reply × Client W)
      → ((p : ClientError × Client W) → (after_error p).1.slots ≡ p.1.slots)
      → Held (device_key t) start o
      → GivenBack (device_key t) 1 start (on_done lib net after_error operation t o).1
  unfolding on_done response_http_error failed_done discard_body read_limited
  on_done-GivenBack after_error operation t start (err e, c) same (gone _ _ h) = h
  on_done-GivenBack after_error operation t start (err e, c) same (kept resp h _) = cc
  on_done-GivenBack after_error operation t start (ok resp, c) same (gone e h _) = cc
  on_done-GivenBack after_error operation t start (ok resp, c) same (kept _ _ h) =
      elim (Bool-cases (succeeded resp)) [
        | inl good ↦
            simp good (close_body-GivenBack (device_key t) start (discard_body lib net c resp) h)
        | inr bad ↦ simp bad (
            close_body-GivenBack (device_key t) start
              (after_error (response_http_error lib net operation fbs_request resp c)).1
              (same (response_http_error lib net operation fbs_request resp c) ∙ h))
      ]

  request_at-GivenBack :
      (after_error : ClientError × Client W → ClientError × Client W) (operation : Text) (t : Tool)
      (r : Result UrlError Text) (c : Client W)
      → ((p : ClientError × Client W) → (after_error p).1.slots ≡ p.1.slots)
      → GivenBack (device_key t) 1 c (request_at lib net after_error operation t r c).1
  unfolding request_at
  request_at-GivenBack after_error operation t (err e) c same =
      (0, omega arith, sym (append-nil c.slots))
  request_at-GivenBack after_error operation t (ok url) c same =
      on_done-GivenBack after_error operation t c (get_with_priority lib net fbs_request t url c)
        same (get_with_priority-Held fbs_request t url c)

  recover-slots :
      (cooldown : ℕ) (t : Tool) (p : ClientError × Client W)
      → (recover lib net cooldown t p).1.slots ≡ p.1.slots
  unfolding recover
  recover-slots cooldown t (e, c) = refl

  -- However a switch and a restart end, each has used its device's slot at most once, and given it
  -- back.
  pub set_switch-GivenBack :
      (cooldown : ℕ) (t : Tool) (on : Bool) (c : Client W)
      → GivenBack (device_key t) 1 c (set_switch lib net cooldown t on c).1
        × GivenBack (device_key t) 1 c (reboot lib net t c).1
  unfolding set_switch reboot
  set_switch-GivenBack cooldown t on c = (
    request_at-GivenBack (recover lib net cooldown t) (codes "set") t _ c
        (recover-slots cooldown t),
    request_at-GivenBack (λ e. e) (codes "reboot") t _ c (λ p. refl),
  )
