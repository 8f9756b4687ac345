-- ===== src/Applog/Archive/Cleaning/Unique.antt =====
-- `cleanup` of internal/applog/store.go keeps the names of a directory unique.
use fbs_interlock_gateway.Prelude.{
  Bool-cases, ℤ, pos, ltb_ℤ, ok, err, ℕ, inl, inr, Bool, not, List, [], ◌∷◌,
}
use fbs_interlock_gateway.Text.{Text}
use fbs_interlock_gateway.Dict.{int_key, text_key}
use fbs_interlock_gateway.Applog.Records.{Options}
use fbs_interlock_gateway.Applog.Archive.Files.{Directory, LogFile, list_log_files, total_size}
use fbs_interlock_gateway.Applog.Archive.Files.Sizes.{Unique, Unique-erase}
use fbs_interlock_gateway.Applog.Archive.Cleaning.{
  cleanup, CleanupFaults, Cleaned, before_cutoff, Eviction, Pass, within, stuck, passed, skips,
  evicted, evict, finish, second_pass, make_room, after_expiry,
}
use fbs_interlock_gateway.Applog.Archive.Cleaning.Limits.{expire-Unique}

evict-Unique :
    (refuses : Text → Bool) (limit : ℤ) (keep : LogFile → Bool) (current : Text) (fs : List LogFile)
    (e : Eviction)
    → Unique e.directory
    → Unique (evict refuses limit keep current fs e).1.directory
unfolding evict evicted
evict-Unique refuses limit keep current [] e u = u
evict-Unique refuses limit keep current (f ∷ fs) e u =
    elim (Bool-cases (ltb_ℤ limit (pos e.total))) [
      | inr small ↦ rw (small, evict) u
      | inl large ↦
          rw (large, evict)
            (elim (Bool-cases (skips keep current f e)) [
              | inl skip ↦ rw (skip, evict) (evict-Unique refuses limit keep current fs e u)
              | inr taken ↦
                  rw (taken, evict)
                    (elim (Bool-cases (refuses f.name)) [
                      | inl no_way ↦ rw (no_way, evict) u
                      | inr gone ↦
                          rw (gone, evict)
                            (evict-Unique refuses limit keep current fs (evicted f e)
                              (Unique-erase f.name e.directory u))
                    ])
            ])
    ]

finish-Unique : (limit : ℤ) (o : Pass × Eviction) → Unique o.1.directory → Unique (finish limit o).1
unfolding finish
finish-Unique limit (within, e) u = u
finish-Unique limit (stuck n, e) u = u
finish-Unique limit (passed, e) u = u

second_pass-Unique :
    (refuses : Text → Bool) (limit : ℤ) (old : LogFile → Bool) (current : Text)
    (files : List LogFile) (o : Pass × Eviction)
    → Unique o.1.directory
    → Unique (second_pass refuses limit old current files o).1
unfolding second_pass
second_pass-Unique refuses limit old current files (within, e) u = u
second_pass-Unique refuses limit old current files (stuck n, e) u = u
second_pass-Unique refuses limit old current files (passed, e) u =
    finish-Unique limit (evict refuses limit old current files e)
      (evict-Unique refuses limit old current files e u)

make_room-Unique :
    (refuses : Text → Bool) (limit : ℤ) (old : LogFile → Bool) (current : Text)
    (files : List LogFile) (d : Directory)
    → Unique d
    → Unique (make_room refuses limit old current files d).1
unfolding make_room
make_room-Unique refuses limit old current files d u =
    elim (Bool-cases (ltb_ℤ limit (pos (total_size files)))) [
      | inr small ↦ rw small u
      | inl large ↦ rw large (
          second_pass-Unique refuses limit old current files _
            (evict-Unique refuses limit (λ f. not (old f)) current files _ u))
    ]

after_expiry-Unique :
    (faults : CleanupFaults) (o : Options) (current : Text) (now : ℕ) (c : Cleaned)
    → Unique c.1
    → Unique (after_expiry faults o current now c).1
unfolding after_expiry
after_expiry-Unique faults o current now (err e, d) u = u
after_expiry-Unique faults o current now (ok _, d) u = elim (Bool-cases faults.list_again) [
  | inl h ↦ rw h u
  | inr h ↦ rw h (
      make_room-Unique faults.remove o.max_total_bytes (before_cutoff o.preferred_min_age now)
        current (list_log_files d) d u)
]

pub cleanup-Unique :
    (faults : CleanupFaults) (o : Options) (current : Text) (now : ℕ) (d : Directory)
    → Unique d
    → Unique (cleanup faults o current now d).1
unfolding cleanup
cleanup-Unique faults o current now d u = elim (Bool-cases faults.list) [
  | inl h ↦ simp h u
  | inr h ↦ simp h (
      after_expiry-Unique faults o current now _
        (expire-Unique faults.remove (before_cutoff o.max_age now) current (list_log_files d) d u))
]
