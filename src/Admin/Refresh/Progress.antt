-- ===== src/Admin/Refresh/Progress.antt =====
-- The course of refreshes, in internal/admin/server.go.
use fbs_interlock_gateway.Prelude.{
  ltb, zero, suc, ◌<◌, ◌+◌, Bool-cases, length, length-append, ℤ, ℕ, ◌≤◌, ◌≡◌, refl, ap, inl, inr,
  Bool, true, false, not, ◌&&◌, some, List, [], ◌∷◌, arith, ltb→lt,
}
use fbs_interlock_gateway.Config.{Tool, Config}
use fbs_interlock_gateway.Status.{Store, tool_status, next_revision, record_row}
use fbs_interlock_gateway.Status.Ordering.{
  KeptOrRefreshed, KeptOrRefreshed-trans, record_row-KeptOrRefreshed,
  record_failure-KeptOrRefreshed, record_success-KeptOrRefreshed,
}
use fbs_interlock_gateway.Admin.Refresh.{
  without, end_refresh, Refresher, Probe, skipped, probe_failed, reported, start_refresh,
  begin_refresh, status_snapshot, finish_refresh, record_probe, record_disabled, record_probes,
  collect_statuses, RefreshEvent, asks, changes, ends, on_event, on_events,
}

abbrev pub one_flight : Bool → ℕ
one_flight true = 1
one_flight false = 0

start_refresh-single :
    (r : Refresher)
    → r.in_flight ≡ false
    → length r.collecting ≡ one_flight r.in_flight
    → length (start_refresh r).collecting ≡ one_flight (start_refresh r).in_flight
unfolding start_refresh
start_refresh-single r idle' h =
    omega
      (arith, length-append r.collecting ((next_revision r.rows).0 ∷ []), h, ap one_flight idle')

begin_refresh-single :
    (requested : Bool) (r : Refresher)
    → length r.collecting ≡ one_flight r.in_flight
    → length (begin_refresh requested r).collecting
      ≡ one_flight (begin_refresh requested r).in_flight
unfolding begin_refresh
begin_refresh-single requested r h = elim (Bool-cases (requested && not r.in_flight)) [
  | inl e ↦ simp e (start_refresh-single r (ground arith) h)
  | inr e ↦ simp e h
]

length-without : (i : ℕ) (xs : List ℕ) → i < length xs → length (without i xs) + 1 ≡ length xs
unfolding without
length-without i [] h = absurd (omega (arith, h))
length-without zero (x ∷ xs) h = omega arith
length-without (suc i) (x ∷ xs) h = omega (arith, length-without i xs (omega (arith, h)))

end_refresh-single :
    (i : ℕ) (r : Refresher)
    → length r.collecting ≡ one_flight r.in_flight
    → length (end_refresh i r).collecting ≡ one_flight (end_refresh i r).in_flight
unfolding end_refresh finish_refresh
end_refresh-single i r h = elim (Bool-cases (ltb i (length r.collecting))) [
  | inr over ↦ rw over h
  | inl running ↦ rw running (
      omega
        (arith, length-without i r.collecting (ltb→lt _ _ running), one_flight-le r.in_flight, h))
]
  where
    one_flight-le : (b : Bool) → one_flight b ≤ 1
    one_flight-le true = omega arith
    one_flight-le false = omega arith

-- In every course of requests, results and ends of refreshes, the refreshes that are collecting are
-- as many as the flag says, so never more than one.
pub on_events-single :
    (es : List RefreshEvent) (r : Refresher)
    → length r.collecting ≡ one_flight r.in_flight
    → length (on_events es r).collecting ≡ one_flight (on_events es r).in_flight
unfolding on_events on_event status_snapshot
on_events-single [] r h = h
on_events-single (asks requested ∷ es) r h =
    on_events-single es (begin_refresh requested r) (begin_refresh-single requested r h)
on_events-single (changes rows ∷ es) r h = on_events-single es (record r { rows = rows }) h
on_events-single (ends i ∷ es) r h =
    on_events-single es (end_refresh i r) (end_refresh-single i r h)

record_probe-KeptOrRefreshed :
    (safe : Bool) (revision : ℕ) (t : Tool) (o : Probe) (s : Store) (p : ℤ)
    → KeptOrRefreshed revision s (record_probe safe revision t o s) p
unfolding record_probe
record_probe-KeptOrRefreshed safe revision t skipped s p = inl refl
record_probe-KeptOrRefreshed safe revision t (probe_failed e) s p =
    record_failure-KeptOrRefreshed t safe (some e) revision s p
record_probe-KeptOrRefreshed safe revision t (reported output) s p =
    record_success-KeptOrRefreshed t output revision s p

record_disabled-KeptOrRefreshed :
    (revision : ℕ) (ts : List Tool) (s : Store) (p : ℤ)
    → KeptOrRefreshed revision s (record_disabled revision ts s) p
unfolding record_disabled
record_disabled-KeptOrRefreshed revision [] s p = inl refl
record_disabled-KeptOrRefreshed revision (t ∷ ts) s p = elim (Bool-cases t.enabled) [
  | inl e ↦ simp e (record_disabled-KeptOrRefreshed revision ts s p)
  | inr e ↦ simp e (
      KeptOrRefreshed-trans revision s (record_row (tool_status t) revision s)
        (record_disabled revision ts (record_row (tool_status t) revision s)) p
        (record_row-KeptOrRefreshed (tool_status t) revision s p)
        (record_disabled-KeptOrRefreshed revision ts (record_row (tool_status t) revision s) p))
]

record_probes-KeptOrRefreshed :
    (safe : Bool) (revision : ℕ) (probe : Tool → Probe) (ts : List Tool) (s : Store) (p : ℤ)
    → KeptOrRefreshed revision s (record_probes safe revision probe ts s) p
unfolding record_probes
record_probes-KeptOrRefreshed safe revision probe [] s p = inl refl
record_probes-KeptOrRefreshed safe revision probe (t ∷ ts) s p = elim (Bool-cases t.enabled) [
  | inr e ↦ simp e (record_probes-KeptOrRefreshed safe revision probe ts s p)
  | inl e ↦ simp e (
      KeptOrRefreshed-trans revision s (record_probe safe revision t (probe t) s)
        (record_probes safe revision probe ts (record_probe safe revision t (probe t) s)) p
        (record_probe-KeptOrRefreshed safe revision t (probe t) s p)
        (record_probes-KeptOrRefreshed safe revision probe ts
          (record_probe safe revision t (probe t) s) p))
]

-- However the probes end, a refresh leaves the row of each port exactly as it is, or replaces it, if
-- it was no newer than the refresh, by one under the refresh's revision: the rows that FBS published
-- under revisions drawn since the refresh began stay, with all that they show.
pub collect_statuses-KeptOrRefreshed :
    (safe : Bool) (revision : ℕ) (probe : Tool → Probe) (cfg : Config) (s : Store) (p : ℤ)
    → KeptOrRefreshed revision s (collect_statuses safe revision probe cfg s) p
unfolding collect_statuses
collect_statuses-KeptOrRefreshed safe revision probe cfg s p =
    KeptOrRefreshed-trans revision s (record_disabled revision cfg.tools s)
      (record_probes safe revision probe cfg.tools (record_disabled revision cfg.tools s)) p
      (record_disabled-KeptOrRefreshed revision cfg.tools s p)
      (record_probes-KeptOrRefreshed safe revision probe cfg.tools
        (record_disabled revision cfg.tools s) p)
