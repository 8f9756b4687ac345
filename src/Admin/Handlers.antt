-- ===== src/Admin/Handlers.antt =====
-- internal/admin/server.go: which handler answers a request behind the middlewares, and what it then
-- does. The route is what the multiplexer chose; the signal of a restart, which is sent after a
-- delay, and the codec of JSON are left out.
pub mod Admission
use fbs_interlock_gateway.Prelude.{if◌then◌else◌, Bool, not, ◌≡◌, Option, none, some}
use fbs_interlock_gateway.Text.{Text, codes, is_empty, trim_space, text_eq}
use fbs_interlock_gateway.Admin.Guard.{
  GuardedRequest, Verdict, served, invalid_host, cross_site_rejected, origin_rejected,
  host_validation,
}

pub data Route : Type 0 where
  config_route status_route log_export_route restart_route page_route : Route

pub data Action : Type 0 where
  reads_config saves_config requests_restart reads_page : Action
  reads_status : Bool → Action  -- whether a refresh is requested
  exports_logs : Text → Action  -- under this name

pub data Answer : Type 0 where
  rejected : Verdict → Answer
  method_not_allowed : Text → Answer  -- with the methods that are
  export_unavailable : Answer
  acts : Action → Answer

unfoldable pub handle_config : Text → Answer
handle_config method =
    if text_eq method (codes "GET")
    then acts reads_config
    else if text_eq method (codes "PUT")
    then acts saves_config
    else method_not_allowed (codes "GET, PUT")

handle_status : Text → Text → Answer
handle_status method refresh =
    if not (text_eq method (codes "GET"))
    then method_not_allowed (codes "GET")
    else acts (reads_status (text_eq refresh (codes "1")))

export_name : Text → Text
export_name suggested =
    let filename = trim_space suggested in if is_empty filename then codes "logs.log" else filename

exported : Option Text → Answer
unfolding export_name
exported none = export_unavailable
exported (some suggested) = acts (exports_logs (export_name suggested))

handle_log_export : Text → Option Text → Answer
unfolding exported
handle_log_export method exporter =
    if not (text_eq method (codes "POST"))
    then method_not_allowed (codes "POST")
    else exported exporter

handle_restart : Text → Answer
handle_restart method =
    if not (text_eq method (codes "POST"))
    then method_not_allowed (codes "POST")
    else acts requests_restart

-- `exporter` is the name that the log exporter suggests, if there is one, and `refresh` the value in
-- the query.
module _ (exporter : Option Text) (refresh : Text) where
  unfoldable pub handle : Route → Text → Answer
  unfolding handle_config handle_status handle_log_export handle_restart
  handle config_route method = handle_config method
  handle status_route method = handle_status method refresh
  handle log_export_route method = handle_log_export method exporter
  handle restart_route method = handle_restart method
  handle page_route method = acts reads_page

  unfoldable pub guarded : Verdict → Route → Text → Answer
  unfolding handle
  guarded served route method = handle route method
  guarded invalid_host route method = rejected invalid_host
  guarded cross_site_rejected route method = rejected cross_site_rejected
  guarded origin_rejected route method = rejected origin_rejected

  unfoldable pub answer : (Text → Option (Text × Text)) → Route → GuardedRequest → Answer
  unfolding guarded
  answer parse route r = guarded (host_validation parse r) route r.method
