-- ===== src/Witnesses/Serving.antt =====
-- Requests, devices and logs.
use fbs_interlock_gateway.Prelude.{
  inl, length, ℤ, pos, ok, ◌≤◌, ◌≡◌, refl, ◌⊎◌, inr, Bool, true, false, Option, some, List, [], ◌∷◌,
  arith, none,
}
use fbs_interlock_gateway.Text.{
  Text, codes, is_space, trim_left, trim_right, trim_space, lower_code, to_lower, text_eq,
  equal_fold,
}
use fbs_interlock_gateway.Dict.{int_key, text_key, lookup}
use fbs_interlock_gateway.Status.{ToolStatus, Store, record_row}
use fbs_interlock_gateway.Status.Ordering.{row_at, record_row_comm, revision_of}
use fbs_interlock_gateway.Fbs.{ShellyClient, Request, handle_fbs_request, serve}
use fbs_interlock_gateway.Fbs.Replies.{Tells, reply-serve}
use fbs_interlock_gateway.Fbs.Records.{ReplyAgrees, handle_fbs_request-Agrees}
use fbs_interlock_gateway.Admin.Guard.{
  GuardedRequest, is_safe_method, host_matches, origin_matches_request, cross_site_protection,
  host_validation,
}
use fbs_interlock_gateway.Admin.Guard.Admission.{IsLocal, IsSameOrigin}
use fbs_interlock_gateway.Admin.Handlers.{
  answer, guarded, handle, handle_config, acts, saves_config, config_route,
}
use fbs_interlock_gateway.Admin.Handlers.Admission.{Asked, Reads, answer-acts}
use fbs_interlock_gateway.Admin.Refresh.{
  Refresher, reported, collect_statuses, RefreshEvent, asks, ends, on_events,
}
use fbs_interlock_gateway.Status.Ordering.{KeptOrRefreshed}
use fbs_interlock_gateway.Admin.Refresh.Progress.{
  one_flight, on_events-single, collect_statuses-KeptOrRefreshed,
}
use fbs_interlock_gateway.Witnesses.Samples.{laser, two_tools}

-- A device that reports its output and takes every command; the world is the output.
abbrev relay : ShellyClient Bool
relay = record {
  get_status = λ t on. (some (ok (record { id = t.switch_id; output = on })), on);
  set = λ t on before. (some (ok tt), on);
}

abbrev no_rows : Store
no_rows = record { statuses = []; order = []; next = 0 }

abbrev switch_on : Request
switch_on = record { method = codes "GET"; path = codes "/on"; raw_query = [] }

reply-serve_example :
    let reply =
      (serve relay false switch_on laser (record { device = false; recorder = some no_rows })).0 in
    ((codes "/on" ≡ codes "/status") × Tells false reply)
    ⊎ ((codes "/on" ≡ codes "/on") × Tells true reply)
    ⊎ ((codes "/on" ≡ codes "/off") × Tells false reply)
reply-serve_example =
    reply-serve relay false laser switch_on (record { device = false; recorder = some no_rows })
      (refl, refl) (inr (inl refl))

no_rows-IsFresh : (p : ℤ) → revision_of (row_at no_rows p) ≤ 0
unfolding lookup
no_rows-IsFresh p = omega arith

handle_fbs_request-Agrees_example : ReplyAgrees relay false laser no_rows (
    handle_fbs_request relay false switch_on laser
      (record { device = false; recorder = some no_rows }))
handle_fbs_request-Agrees_example =
    handle_fbs_request-Agrees relay false laser no_rows switch_on false (refl, refl)
      (inr (inl refl)) no_rows-IsFresh (omega arith)

abbrev post : Request
post = record { method = codes "POST"; path = codes "/on"; raw_query = [] }

abbrev on_row : ToolStatus
on_row = record {
  interlock_name = codes "laser";
  ip = codes "10.0.0.5";
  protocol = codes "http";
  port = pos 8081;
  switch_id = pos 0;
  enabled = true;
  connected = true;
  output = true;
  error = [];
  revision = 0;
}

abbrev off_row : ToolStatus
off_row = record on_row { output = false }

record_row_comm_example :
    row_at (record_row on_row 2 (record_row off_row 1 no_rows)) (pos 8081)
    ≡ row_at (record_row off_row 1 (record_row on_row 2 no_rows)) (pos 8081)
record_row_comm_example =
    record_row_comm on_row off_row 2 1 no_rows (pos 8081) (λ e h. ground arith)

abbrev save_request : GuardedRequest
save_request = record {
  method = codes "PUT";
  host = codes "localhost:18090";
  fetch_site = codes "same-origin";
  origin = codes "http://localhost:18090";
}

abbrev local_origin : Text → Option (Text × Text)
local_origin origin = some (codes "http", codes "localhost:18090")

save_request-acts : answer none [] local_origin config_route save_request ≡ acts saves_config
unfolding answer guarded handle handle_config host_validation cross_site_protection is_safe_method
    origin_matches_request host_matches trim_space trim_left trim_right is_space to_lower lower_code
    text_eq equal_fold
save_request-acts = refl

answer-acts_example :
    IsLocal (codes "localhost:18090")
    × Asked saves_config (codes "PUT")
    × (Reads saves_config
        ⊎ ((equal_fold (codes "same-origin") (codes "cross-site") ≡ false)
            × ((trim_space save_request.origin ≡ []) ⊎ IsSameOrigin local_origin save_request)))
answer-acts_example =
    answer-acts none [] local_origin config_route save_request saves_config save_request-acts

abbrev at_rest : Refresher
at_rest = record { in_flight = false; rows = no_rows; collecting = [] }

abbrev two_asks : List RefreshEvent
two_asks = asks true ∷ asks true ∷ ends 0 ∷ asks true ∷ []

on_events-single_example :
    length (on_events two_asks at_rest).collecting
    ≡ one_flight (on_events two_asks at_rest).in_flight
on_events-single_example = on_events-single two_asks at_rest refl

collect_statuses-KeptOrRefreshed_example :
    KeptOrRefreshed 1 no_rows
      (collect_statuses false 1 (λ t. reported true) two_tools no_rows)
      (pos 8081)
collect_statuses-KeptOrRefreshed_example =
    collect_statuses-KeptOrRefreshed false 1 (λ t. reported true) two_tools no_rows (pos 8081)
