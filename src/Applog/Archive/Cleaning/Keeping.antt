-- ===== src/Applog/Archive/Cleaning/Keeping.antt =====
-- What `cleanup` of internal/applog/store.go leaves in place.
use fbs_interlock_gateway.Prelude.{
  Bool-cases, All, ℤ, pos, ltb_ℤ, ok, err, ℕ, ◌≡◌, refl, sym, ◌∙◌, ◌⊎◌, inl, inr, Bool, true, false,
  not, none, some, List, [], ◌∷◌, arith,
}
use fbs_interlock_gateway.Text.{Text, text_eq}
use fbs_interlock_gateway.Text.Laws.{text_eq→eq}
use fbs_interlock_gateway.Dict.{int_key, text_key, lookup, erase, lookup-erase}
use fbs_interlock_gateway.Applog.Records.{Options}
use fbs_interlock_gateway.Applog.Archive.Files.{
  Entry, Directory, LogFile, is_log_file, list_log_files, total_size,
}
use fbs_interlock_gateway.Applog.Archive.Files.Sizes.{Unique, Listed, list_log_files-Listed}
use fbs_interlock_gateway.Applog.Archive.Cleaning.{
  CleanupFaults, Cleaned, before_cutoff, expire_step, expire, Eviction, Pass, within, stuck, passed,
  skips, evicted, evict, finish, second_pass, make_room, after_expiry, cleanup,
}
use fbs_interlock_gateway.Applog.Archive.Cleaning.Limits.{expire-Unique}

abbrev pub HoldsLog : Text → Directory → Type 0
HoldsLog name d = (e : Entry) × (lookup name d ≡ some e) × (is_log_file name e ≡ true)

-- What there was is as it was, or was a log file other than the current one and is gone.
abbrev pub KeptOrPruned : Text → Directory → Directory → Text → Type 0
KeptOrPruned current d d' name =
    (lookup name d' ≡ lookup name d)
    ⊎ ((lookup name d' ≡ none) × (text_eq name current ≡ false) × HoldsLog name d)

KeptOrPruned-trans :
    (current : Text) (d d' d'' : Directory) (name : Text)
    → KeptOrPruned current d d' name
    → KeptOrPruned current d' d'' name
    → KeptOrPruned current d d'' name
KeptOrPruned-trans current d d' d'' name (inl a) (inl b) = inl (b ∙ a)
KeptOrPruned-trans current d d' d'' name (inr (gone, other, log)) (inl b) =
    inr (b ∙ gone, other, log)
KeptOrPruned-trans current d d' d'' name (inl a) (inr (gone, other, (e, found, log))) =
    inr (gone, other, (e, sym a ∙ found, log))
KeptOrPruned-trans current d d' d'' name (inr (gone, other, log)) (inr (gone', _, _)) =
    inr (gone', other, log)

module _ (current : Text) (start : Directory) (name : Text) where
  removal :
      (f : LogFile) (d : Directory)
      → text_eq f.name current ≡ false
      → Listed start f
      → KeptOrPruned current start d name
      → KeptOrPruned current start (erase f.name d) name
  removal f d other l h = elim (Bool-cases (text_eq f.name name)) [
    | inl same ↦
        let it = text_eq→eq f.name name same in
        inr (
          lookup-erase f.name name d ∙ rw same refl,
          rw it at other,
          (l.entry, rw it at l.found, rw it at l.is_log),
        )
    | inr differs ↦
        let stays : lookup name (erase f.name d) ≡ lookup name d =
          lookup-erase f.name name d ∙ rw differs refl in
        rw stays h
  ]

  expire-kept :
      (refuses : Text → Bool) (expired : LogFile → Bool) (fs : List LogFile) (d : Directory)
      → All (Listed start) fs
      → KeptOrPruned current start d name
      → KeptOrPruned current start (expire refuses expired current fs d).1 name
  unfolding expire expire_step
  expire-kept refuses expired [] d a h = h
  expire-kept refuses expired (f ∷ fs) d a h = elim (Bool-cases (expire_step expired current f)) [
    | inr kept ↦ rw (kept, expire) (expire-kept refuses expired fs d a.1 h)
    | inl due ↦
        rw (due, expire)
          (elim (Bool-cases (refuses f.name)) [
            | inl no_way ↦ rw (no_way, expire) h
            | inr gone ↦
                rw (gone, expire)
                  (expire-kept refuses expired fs (erase f.name d) a.1
                    (removal f d (ground (arith, due)) a.0 h))
          ])
  ]

  module _ (refuses : Text → Bool) (limit : ℤ) (keep : LogFile → Bool) where
    evict-kept :
        (fs : List LogFile) (e : Eviction)
        → All (Listed start) fs
        → KeptOrPruned current start e.directory name
        → KeptOrPruned current start (evict refuses limit keep current fs e).1.directory name
    unfolding evict skips evicted
    evict-kept [] e a h = h
    evict-kept (f ∷ fs) e a h = elim (Bool-cases (ltb_ℤ limit (pos e.total))) [
      | inr small ↦ rw (small, evict) h
      | inl large ↦
          rw (large, evict)
            (elim (Bool-cases (skips keep current f e)) [
              | inl skip ↦ rw (skip, evict) (evict-kept fs e a.1 h)
              | inr taken ↦
                  rw (taken, evict)
                    (elim (Bool-cases (refuses f.name)) [
                      | inl no_way ↦ rw (no_way, evict) h
                      | inr gone ↦
                          rw (gone, evict)
                            (evict-kept fs (evicted f e) a.1
                              (removal f e.directory (ground (arith, taken)) a.0 h))
                    ])
            ])
    ]

  finish-directory : (limit : ℤ) (o : Pass × Eviction) → (finish limit o).1 ≡ o.1.directory
  unfolding finish
  finish-directory limit (within, e) = refl
  finish-directory limit (stuck n, e) = refl
  finish-directory limit (passed, e) = refl

  second_pass-kept :
      (refuses : Text → Bool) (limit : ℤ) (old : LogFile → Bool) (files : List LogFile)
      (o : Pass × Eviction)
      → All (Listed start) files
      → KeptOrPruned current start o.1.directory name
      → KeptOrPruned current start (second_pass refuses limit old current files o).1 name
  unfolding second_pass
  second_pass-kept refuses limit old files (within, e) a h = h
  second_pass-kept refuses limit old files (stuck n, e) a h = h
  second_pass-kept refuses limit old files (passed, e) a h =
      rw (finish-directory limit (evict refuses limit old current files e))
        (evict-kept refuses limit old files e a h)

  make_room-kept :
      (refuses : Text → Bool) (limit : ℤ) (old : LogFile → Bool) (files : List LogFile)
      → All (Listed start) files
      → KeptOrPruned current start (make_room refuses limit old current files start).1 name
  unfolding make_room
  make_room-kept refuses limit old files a =
      elim (Bool-cases (ltb_ℤ limit (pos (total_size files)))) [
        | inr small ↦ rw small (inl refl)
        | inl large ↦ rw large (
            second_pass-kept refuses limit old files
              (evict refuses limit (λ f. not (old f)) current files
                (record { total = total_size files; removed = []; directory = start }))
              a (evict-kept refuses limit (λ f. not (old f)) files _ a (inl refl)))
      ]

after_expiry-kept :
    (faults : CleanupFaults) (o : Options) (current : Text) (now : ℕ) (c : Cleaned) (name : Text)
    → Unique c.1
    → KeptOrPruned current c.1 (after_expiry faults o current now c).1 name
unfolding after_expiry
after_expiry-kept faults o current now (err e, d) name u = inl refl
after_expiry-kept faults o current now (ok _, d) name u = elim (Bool-cases faults.list_again) [
  | inl h ↦ rw h (inl refl)
  | inr h ↦ rw h (
      make_room-kept current d name faults.remove o.max_total_bytes
        (before_cutoff o.preferred_min_age now) (list_log_files d) (list_log_files-Listed d u))
]

-- Whatever fails, a clean-up changes no file: it removes some, and of those each was a log file and
-- not the current one. Folders and other files stay.
pub cleanup_keeps :
    (faults : CleanupFaults) (o : Options) (current : Text) (now : ℕ) (d : Directory) (name : Text)
    → Unique d
    → KeptOrPruned current d (cleanup faults o current now d).1 name
unfolding cleanup
cleanup_keeps faults o current now d name u = elim (Bool-cases faults.list) [
  | inl h ↦ simp h (inl refl)
  | inr h ↦ simp h (
      let c : Cleaned =
        expire faults.remove (before_cutoff o.max_age now) current (list_log_files d) d in
      KeptOrPruned-trans current d c.1 _ name
        (expire-kept current d name faults.remove (before_cutoff o.max_age now) (list_log_files d) d
          (list_log_files-Listed d u) (inl refl))
        (after_expiry-kept faults o current now c name (
          expire-Unique faults.remove (before_cutoff o.max_age now) current (list_log_files d) d
            u)))
]
