-- ===== src/Witnesses/Requests.antt =====
-- The slot of a device, and requests to it.
use fbs_interlock_gateway.Prelude.{ok, err, ◌≡◌, refl, true, false, some, [], ◌∷◌, ◌++◌}
use fbs_interlock_gateway.Text.{codes}
use fbs_interlock_gateway.Shelly.Gate.{
  idle, admin_active, fbs_waiting, Slot, acquire_admin, arrive_fbs, probe_starts, arrives, cancels,
  fbs_arriving, active_cancel, cancel_admin, step, Reach, here, next, new_slot,
}
use fbs_interlock_gateway.Shelly.Gate.Progress.{Served, waiting-Served}
use fbs_interlock_gateway.Shelly.HttpError.{connection_lost}
use fbs_interlock_gateway.Shelly.Auth.{Env}
use fbs_interlock_gateway.Shelly.Requests.{
  Library, Network, Client, admin_request, device_key, max_status_attempts,
}
use fbs_interlock_gateway.Shelly.Requests.Operations.{get_status, set_switch, reboot}
use fbs_interlock_gateway.Shelly.Requests.Operations.Slots.{GivenBack, get_status-GivenBack}
use fbs_interlock_gateway.Shelly.Requests.Operations.Restarts.{AsBeforeOr, reboot-recoveries}
use fbs_interlock_gateway.Witnesses.Samples.{laser, pump}

-- A probe holds the device and an FBS request waits.
abbrev waiting : Slot
waiting = record {
  token = false;
  fbs_waiters = 1;
  active_admin = true;
  probe = 1;
  admin_canceled = true;
  threads = admin_active ∷ fbs_waiting ∷ [];
}

Reach-waiting : Reach (new_slot (idle ∷ idle ∷ [])) waiting
unfolding new_slot acquire_admin arrive_fbs active_cancel cancel_admin
Reach-waiting =
    next
      (next (next here (step [] (idle ∷ []) idle admin_active _ refl (probe_starts refl) refl))
        (step (admin_active ∷ []) [] idle (fbs_arriving (some 1)) _ refl arrives refl))
      (step (admin_active ∷ []) [] (fbs_arriving (some 1)) fbs_waiting _ refl (cancels (some 1))
        refl)

waiting-Served_example : Served waiting (admin_active ∷ [])
waiting-Served_example =
    waiting-Served (idle ∷ idle ∷ []) (refl, (refl, tt)) Reach-waiting (admin_active ∷ []) [] refl

abbrev library : Library
library = record {
  url_string = λ scheme host path query. scheme ++ (codes "://" ++ (host ++ path));
  encode = λ q. [];
  request_uri = λ url. some url;
  decimal = λ n. codes "0";
  status_line = λ r. codes "423 Locked";
  decode = λ s. err connection_lost;
}

-- A device that is locked.
abbrev locked_device : Env (Unit {0})
locked_device = record {
  send = λ header w. (ok (record { status_code = 423; challenge = []; body = [] }), w);
  wait = λ w. (true, w);
  now = λ w. 1000;
  random = λ w. (some (codes "0a0b"), w);
  hash = λ s. s;
}

abbrev network : Network (Unit {0})
network = record {
  at_url = λ url. locked_device;
  acquire = λ priority key w. (ok tt, w);
  deferred_by_fbs = λ w. false;
  read_body = λ r w. (ok (codes "locked"), w);
  retry_wait = λ w. (true, w);
  done = λ w. false;
  timed_out = λ w. false;
  error_text = λ e. [];
}

abbrev idle_client : Client (Unit {0})
idle_client = record { world = tt; sessions = []; recoveries = []; slots = [] }

get_status-GivenBack_example :
    GivenBack
      (device_key pump)
      max_status_attempts
      idle_client
      (get_status library network 300 admin_request pump idle_client).1
get_status-GivenBack_example =
    get_status-GivenBack library network 300 admin_request pump idle_client

reboot-recoveries_example :
    AsBeforeOr library network
      (set_switch library network 300 laser true idle_client).0
      idle_client
      (set_switch library network 300 laser true idle_client).1
    × ((reboot library network laser idle_client).1.recoveries ≡ [])
reboot-recoveries_example = reboot-recoveries library network 300 laser true idle_client
