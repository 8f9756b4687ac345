-- ===== src/Fbs/Replies.antt =====
-- The replies of internal/fbs/server.go on the three known paths.
use fbs_interlock_gateway.Prelude.{
  Result, ok, err, ◌≡◌, refl, ◌⊎◌, inl, inr, Bool, true, false, Option, none, some, [],
}
use fbs_interlock_gateway.Text.{Text, codes, text_eq}
use fbs_interlock_gateway.Config.{Tool}
use fbs_interlock_gateway.Fbs.{
  SwitchStatus, ShellyClient, World, Request, Response, write_fbs, answer_status, answer_set,
  recover_reply, serve,
}

abbrev pub Accepted : Request → Type 0
Accepted r = (r.method ≡ codes "GET") × (r.raw_query ≡ [])

abbrev pub IsKnownPath : Text → Type 0
IsKnownPath p = (p ≡ codes "/status") ⊎ (p ≡ codes "/on") ⊎ (p ≡ codes "/off")

-- The text that tells FBS a state.
abbrev pub state_text : Bool → Text
state_text true = codes "{\"Success\":1,\"State\":1}"
state_text false = codes "{\"Success\":1,\"State\":0}"

-- A successful reply that tells FBS this state.
abbrev pub Tells : Bool → Response → Type 0
Tells state reply = (reply.status ≡ 200) × (reply.body ≡ state_text state)

pub write_fbs-Tells : (state : Bool) → Tells state (write_fbs state)
unfolding write_fbs
write_fbs-Tells true = (refl, refl)
write_fbs-Tells false = (refl, refl)

module _ {W : Type 0} (client : ShellyClient W) (safe : Bool) (t : Tool) where
  -- What a call of the client lets the gateway say: the state that the device reported, and the safe
  -- state after an error or a panic.
  abbrev pub reported : Option (Result Text SwitchStatus) → Bool
  reported (some (ok status)) = status.output
  reported _ = safe

  abbrev pub accomplished : Bool → Option (Result Text (Unit {0})) → Bool
  accomplished on (some (ok _)) = on
  accomplished on _ = safe

  Tells-answer_status :
      (o : Option (Result Text SwitchStatus)) (w : World W)
      → Tells (reported o) (recover_reply client safe (answer_status client safe t o w).0)
  unfolding answer_status recover_reply
  Tells-answer_status none w = write_fbs-Tells safe
  Tells-answer_status (some (ok x)) w = write_fbs-Tells x.output
  Tells-answer_status (some (err e)) w = write_fbs-Tells safe

  Tells-answer_set :
      (on : Bool) (o : Option (Result Text (Unit {0}))) (w : World W)
      → Tells (accomplished on o) (recover_reply client safe (answer_set client safe t on o w).0)
  unfolding answer_set recover_reply
  Tells-answer_set on none w = write_fbs-Tells safe
  Tells-answer_set on (some (ok x)) w = write_fbs-Tells on
  Tells-answer_set on (some (err e)) w = write_fbs-Tells safe

  -- The reply to an accepted request has the status 200 and the body that FBS reads as a success, with
  -- State 1 for on and 0 for off. For `/status` it tells what the device reported, and the safe state
  -- when the client failed or panicked; for `/on` or `/off` the commanded state when the device took
  -- the command, and the safe state otherwise.
  pub reply-serve :
      (r : Request) (w : World W)
      → Accepted r
      → IsKnownPath r.path
      → let reply = (serve client safe r t w).0 in
        ((r.path ≡ codes "/status") × Tells (reported (client.get_status t w.device).0) reply)
        ⊎ ((r.path ≡ codes "/on") × Tells (accomplished true (client.set t true w.device).0) reply)
        ⊎ ((r.path ≡ codes "/off")
            × Tells (accomplished false (client.set t false w.device).0) reply)
  unfolding serve text_eq
  reply-serve r w (get, bare) (inl p) =
      inl (p, simp (get, bare, p) (Tells-answer_status (client.get_status t w.device).0 _))
  reply-serve r w (get, bare) (inr (inl p)) =
      inr (inl (p, simp (get, bare, p) (Tells-answer_set true (client.set t true w.device).0 _)))
  reply-serve r w (get, bare) (inr (inr p)) =
      inr (inr (p, simp (get, bare, p) (Tells-answer_set false (client.set t false w.device).0 _)))
