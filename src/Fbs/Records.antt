-- ===== src/Fbs/Records.antt =====
-- What a request of internal/fbs/server.go does to the status store and the device.
use fbs_interlock_gateway.Prelude.{
  Result, ok, err, ◌+◌, ◌≡◌, refl, ◌⊎◌, inl, inr, Bool, true, false, Option, none, some,
}
use fbs_interlock_gateway.Text.{Text, text_eq}
use fbs_interlock_gateway.Config.{Tool}
use fbs_interlock_gateway.Status
use fbs_interlock_gateway.Status.{
  ToolStatus, Store, tool_status, new, next_revision, record_row, record_success, record_failure,
}
use fbs_interlock_gateway.Status.Ordering.{row_at}
use fbs_interlock_gateway.Status.Freshness.{
  IsFresh, HasRevisions, row_at-record_row_next, record_row_next-IsFresh, record_row_next-next,
}
use fbs_interlock_gateway.Fbs.{
  SwitchStatus, ShellyClient, World, Request, Response, write_fbs, recorded_success,
  recorded_failure, answer_status, handle_status, answer_set, handle_set, handle_fbs_request,
}
use fbs_interlock_gateway.Fbs.Replies.{Accepted, IsKnownPath, Tells, write_fbs-Tells}

-- The recorder shows for the tool the state that the reply told, under the next revision of `s`.
pub record Agrees (t : Tool) (s : Store) (reply : Response) (o : Option Store) : Type 0 where
  pub store : Store
  pub row : ToolStatus
  pub recorded : o ≡ some store
  pub shown : row_at store t.port ≡ some row
  pub told : Tells row.output reply
  pub new_revision : row.revision ≡ s.next + 1
  pub counted : store.next ≡ s.next + 1
  pub fresh : IsFresh store

module _ (t : Tool) (s : Store) (f : IsFresh s) (h : HasRevisions s) where
  Agrees-success :
      (output : Bool) → Agrees t s (write_fbs output) (recorded_success t output (some s))
  unfolding recorded_success Status.record_success Status.tool_status
  Agrees-success output =
      let row = record (Status.tool_status t) { connected = true; output = output } in
      record {
        store = record_row row (next_revision s).0 (next_revision s).1;
        row = record row { revision = s.next + 1 };
        recorded = refl;
        shown = row_at-record_row_next row s f h;
        told = write_fbs-Tells output;
        new_revision = refl;
        counted = record_row_next-next row s f h;
        fresh = record_row_next-IsFresh row s f h;
      }

  Agrees-failure :
      (safe : Bool) (error : Text)
      → Agrees t s (write_fbs safe) (recorded_failure t safe error (some s))
  unfolding recorded_failure Status.record_failure Status.tool_status
  Agrees-failure safe error =
      let row = record (Status.tool_status t) { output = safe; error = error } in
      record {
        store = record_row row (next_revision s).0 (next_revision s).1;
        row = record row { revision = s.next + 1 };
        recorded = refl;
        shown = row_at-record_row_next row s f h;
        told = write_fbs-Tells safe;
        new_revision = refl;
        counted = record_row_next-next row s f h;
        fresh = record_row_next-IsFresh row s f h;
      }

module _ {W : Type 0} (client : ShellyClient W) (safe : Bool) (t : Tool) (s : Store) where
  abbrev pub ReplyAgrees : Option Response × World W → Type 0
  ReplyAgrees (none, w) = Unit
  ReplyAgrees (some reply, w) = Agrees t s reply w.recorder

  answer_status-Agrees :
      (o : Option (Result Text SwitchStatus)) (d : W)
      → IsFresh s
      → HasRevisions s
      → ReplyAgrees (answer_status client safe t o (record { device = d; recorder = some s }))
  unfolding answer_status record_success record_failure
  answer_status-Agrees none d f h = tt
  answer_status-Agrees (some (ok x)) d f h = Agrees-success t s f h x.output
  answer_status-Agrees (some (err e)) d f h = Agrees-failure t s f h safe e

  answer_set-Agrees :
      (on : Bool) (o : Option (Result Text (Unit {0}))) (d : W)
      → IsFresh s
      → HasRevisions s
      → ReplyAgrees (answer_set client safe t on o (record { device = d; recorder = some s }))
  unfolding answer_set record_success record_failure
  answer_set-Agrees on none d f h = tt
  answer_set-Agrees on (some (ok x)) d f h = Agrees-success t s f h on
  answer_set-Agrees on (some (err e)) d f h = Agrees-failure t s f h safe e

  -- When the handler of an accepted request for a known path returns a reply, without a panic, the
  -- status store shows for the tool exactly the state that FBS was told, under the next revision, one
  -- above the counter before, which the counter then is and no row exceeds. This holds of a store in which no row is ahead of the
  -- counter and the counter has not come to its wrap-around.
  pub handle_fbs_request-Agrees :
      (r : Request) (d : W)
      → Accepted r
      → IsKnownPath r.path
      → IsFresh s
      → HasRevisions s
      → ReplyAgrees (handle_fbs_request client safe r t (record { device = d; recorder = some s }))
  unfolding handle_fbs_request handle_status handle_set text_eq
  handle_fbs_request-Agrees r d (get, bare) (inl p) f h =
      simp (get, bare, p)
        (answer_status-Agrees (client.get_status t d).0 (client.get_status t d).1 f h)
  handle_fbs_request-Agrees r d (get, bare) (inr (inl p)) f h =
      simp (get, bare, p)
        (answer_set-Agrees true (client.set t true d).0 (client.set t true d).1 f h)
  handle_fbs_request-Agrees r d (get, bare) (inr (inr p)) f h =
      simp (get, bare, p)
        (answer_set-Agrees false (client.set t false d).0 (client.set t false d).1 f h)

abbrev pub Refuses : {W : Type 0} → World W → Response × World W → Type 0
Refuses w (reply, w') =
    (w' ≡ w) × ((reply.status ≡ 405) ⊎ (reply.status ≡ 400) ⊎ (reply.status ≡ 404))
