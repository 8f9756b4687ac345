-- ===== src/Admin/Refresh.antt =====
-- internal/admin/server.go: the refresh of the status rows. The probes run at once in the code; here
-- their results are recorded in one sequence, in the order of the tools.
pub mod Progress
use fbs_interlock_gateway.Prelude.{
  ltb, length, zero, suc, if◌then◌else◌, ◌>>=◌, ◌>>◌, ℕ, Bool, true, false, not, ◌&&◌, some, List,
  [], ◌∷◌, ◌++◌,
}
use fbs_interlock_gateway.Text.{Text}
use fbs_interlock_gateway.Config.{Tool, Config}
use fbs_interlock_gateway.Status.{
  ToolStatus, Store, tool_status, next_revision, record_row, record_success, record_failure,
  snapshot,
}

-- The state of the refresh: the flag under the mutex, the rows, and the revisions of the goroutines
-- that collect.
pub record Refresher : Type 0 where
  pub in_flight : Bool
  pub rows : Store
  pub collecting : List ℕ

-- What became of the probe of a tool: it gave way to FBS or was not begun in time, it failed, or it
-- reported the output.
pub data Probe : Type 0 where
  skipped : Probe
  probe_failed : Text → Probe
  reported : Bool → Probe

start_refresh : Refresher → Refresher
start_refresh r =
    let (revision, rows) = next_revision r.rows in
    record { in_flight = true; rows = rows; collecting = r.collecting ++ revision ∷ [] }

begin_refresh : Bool → Refresher → Refresher
unfolding start_refresh
begin_refresh requested r = if requested && not r.in_flight then start_refresh r else r

status_snapshot : Bool → Refresher → (List ToolStatus × Bool) × Refresher
unfolding begin_refresh
status_snapshot requested r =
    let r' = begin_refresh requested r in ((snapshot r'.rows, r'.in_flight), r')

without : ℕ → List ℕ → List ℕ
without i [] = []
without zero (x ∷ xs) = xs
without (suc i) (x ∷ xs) = x ∷ without i xs

-- The end of `refreshStatuses` in one of the goroutines, whether it collected all or not.
finish_refresh : ℕ → Refresher → Refresher
unfolding without
finish_refresh i r = record r { in_flight = false; collecting = without i r.collecting }

end_refresh : ℕ → Refresher → Refresher
unfolding finish_refresh
end_refresh i r = if ltb i (length r.collecting) then finish_refresh i r else r

record_probe : Bool → ℕ → Tool → Probe → Store → Store
record_probe safe revision t skipped s = s
record_probe safe revision t (probe_failed e) s = record_failure t safe (some e) revision s
record_probe safe revision t (reported output) s = record_success t output revision s

-- First the tools that are disabled, then the results of the others.
record_disabled : ℕ → List Tool → Store → Store
record_disabled revision [] s = s
record_disabled revision (t ∷ ts) s =
    record_disabled revision ts (if t.enabled then s else record_row (tool_status t) revision s)

record_probes : Bool → ℕ → (Tool → Probe) → List Tool → Store → Store
unfolding record_probe
record_probes safe revision probe [] s = s
record_probes safe revision probe (t ∷ ts) s =
    record_probes safe revision probe ts
      (if t.enabled then record_probe safe revision t (probe t) s else s)

pub collect_statuses : Bool → ℕ → (Tool → Probe) → Config → Store → Store
unfolding record_disabled record_probes
collect_statuses safe revision probe cfg s =
    record_probes safe revision probe cfg.tools (record_disabled revision cfg.tools s)

pub data RefreshEvent : Type 0 where
  asks : Bool → RefreshEvent  -- a request for the status, with or without a refresh
  changes : Store → RefreshEvent  -- results of the refresh or of FBS
  ends : ℕ → RefreshEvent  -- the refresh at this place, if it is running

on_event : RefreshEvent → Refresher → Refresher
unfolding status_snapshot end_refresh
on_event (asks requested) r = (status_snapshot requested r).1
on_event (changes rows) r = record r { rows = rows }
on_event (ends i) r = end_refresh i r

pub on_events : List RefreshEvent → Refresher → Refresher
unfolding on_event
on_events [] r = r
on_events (e ∷ es) r = on_events es (on_event e r)
