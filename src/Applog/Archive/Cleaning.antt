-- ===== src/Applog/Archive/Cleaning.antt =====
-- `cleanup` of internal/applog/store.go, on the directory and the name of the current file; no name
-- is the empty one.
pub mod Limits
pub mod Keeping
pub mod Unique
use fbs_interlock_gateway.Prelude.{
  ltb, if◌then◌else◌, any, ℤ, pos, pos_part, neg_part, ltb_ℤ, Result, ok, err, ℕ, ◌+◌, ◌-◌, Bool,
  true, false, not, ◌||◌, List, [], ◌∷◌,
}
use fbs_interlock_gateway.Text.{Text, text_eq}
use fbs_interlock_gateway.Dict.{int_key, text_key, erase}
use fbs_interlock_gateway.Applog.Records.{Options}
use fbs_interlock_gateway.Applog.Archive.Files.{Directory, LogFile, list_log_files, total_size}

pub data ArchiveError : Type 0 where
  list_failed create_failed close_failed no_unique_name : ArchiveError
  expired_not_removed oversized_not_removed : Text → ArchiveError
  above_hard_limit : ℕ → ArchiveError

-- Which listings fail, and which files cannot be removed.
pub record CleanupFaults : Type 0 where
  pub list : Bool
  pub list_again : Bool
  pub remove : Text → Bool

abbrev pub no_cleanup_faults : CleanupFaults
no_cleanup_faults = record { list = false; list_again = false; remove = λ _. false }

abbrev pub Cleaned : Type 0
Cleaned = Result ArchiveError (Unit {0}) × Directory

-- `modTime.Before(now.Add(-age))`
unfoldable pub before_cutoff : ℤ → ℕ → LogFile → Bool
before_cutoff age now f = ltb (f.mod_time + pos_part age) (now + neg_part age)

-- The loop over expired files.
expire_step : (LogFile → Bool) → Text → LogFile → Bool
expire_step expired current f = not (text_eq f.name current || not (expired f))

pub expire : (Text → Bool) → (LogFile → Bool) → Text → List LogFile → Directory → Cleaned
expire refuses expired current [] d = (ok tt, d)
expire refuses expired current (f ∷ fs) d = elim (expire_step expired current f) [
  | false ↦ expire refuses expired current fs d
  | true ↦ elim (refuses f.name) [
    | true ↦ (err (expired_not_removed f.name), d)
    | false ↦ expire refuses expired current fs (erase f.name d)
  ]
]

-- The loops over files to make room: what is left in total, what was removed, and the directory.
pub record Eviction : Type 0 where
  pub total : ℕ
  pub removed : List Text
  pub directory : Directory

-- A pass returns when the total is small enough or a file cannot be removed, or goes on.
pub data Pass : Type 0 where
  within : Pass
  stuck : Text → Pass
  passed : Pass

skips : (LogFile → Bool) → Text → LogFile → Eviction → Bool
skips recent current f e =
    text_eq f.name current || any (λ name. text_eq name f.name) e.removed || recent f

evicted : LogFile → Eviction → Eviction
evicted f e = record {
  total = e.total - f.size;
  removed = f.name ∷ e.removed;
  directory = erase f.name e.directory;
}

evict : (Text → Bool) → ℤ → (LogFile → Bool) → Text → List LogFile → Eviction → Pass × Eviction
unfolding skips evicted
evict refuses limit left_alone current [] e = (passed, e)
evict refuses limit left_alone current (f ∷ fs) e = elim (not (ltb_ℤ limit (pos e.total))) [
  | true ↦ (within, e)
  | false ↦ elim (skips left_alone current f e) [
    | true ↦ evict refuses limit left_alone current fs e
    | false ↦ elim (refuses f.name) [
      | true ↦ (stuck f.name, e)
      | false ↦ evict refuses limit left_alone current fs (evicted f e)
    ]
  ]
]

-- The end of the second pass.
finish : ℤ → Pass × Eviction → Cleaned
finish limit (within, e) = (ok tt, e.directory)
finish limit (stuck name, e) = (err (oversized_not_removed name), e.directory)
finish limit (passed, e) =
    (if ltb_ℤ limit (pos e.total) then err (above_hard_limit e.total) else ok tt, e.directory)

-- The second pass takes the recent files.
second_pass : (Text → Bool) → ℤ → (LogFile → Bool) → Text → List LogFile → Pass × Eviction → Cleaned
unfolding evict finish
second_pass refuses limit old current files (within, e) = (ok tt, e.directory)
second_pass refuses limit old current files (stuck name, e) =
    (err (oversized_not_removed name), e.directory)
second_pass refuses limit old current files (passed, e) =
    finish limit (evict refuses limit old current files e)

-- Oldest first: the files before the preferred cutoff, then the others.
make_room : (Text → Bool) → ℤ → (LogFile → Bool) → Text → List LogFile → Directory → Cleaned
unfolding second_pass
make_room refuses limit old current files d =
    if not (ltb_ℤ limit (pos (total_size files)))
    then (ok tt, d)
    else second_pass refuses limit old current files (
        evict refuses limit (λ f. not (old f)) current files
          (record { total = total_size files; removed = []; directory = d }))

after_expiry : CleanupFaults → Options → Text → ℕ → Cleaned → Cleaned
unfolding make_room
after_expiry faults o current now (err e, d) = (err e, d)
after_expiry faults o current now (ok _, d) =
    if faults.list_again
    then (err list_failed, d)
    else make_room faults.remove o.max_total_bytes (before_cutoff o.preferred_min_age now) current
        (list_log_files d) d

unfoldable pub cleanup : CleanupFaults → Options → Text → ℕ → Directory → Cleaned
unfolding expire expire_step after_expiry
cleanup faults o current now d =
    if faults.list
    then (err list_failed, d)
    else after_expiry faults o current now
        (expire faults.remove (before_cutoff o.max_age now) current (list_log_files d) d)
