-- ===== src/Applog/Archive/Cleaning/Limits.antt =====
-- The total that `cleanup` of internal/applog/store.go leaves.
use fbs_interlock_gateway.Applog.Records.{Options}
use fbs_interlock_gateway.Prelude.{
  Bool-cases, All, any, All-map, ℤ, pos, ltb_ℤ, ◌≡◌, refl, ◌≢◌, ◌⊎◌, inl, inr, Bool, true, false,
  List, [], ◌∷◌, arith, ok, err, ℕ, subst, not,
}
use fbs_interlock_gateway.Text.{Text, text_eq}
use fbs_interlock_gateway.Dict.{int_key, text_key, erase}
use fbs_interlock_gateway.Applog.Archive.Files.{Directory, LogFile, list_log_files, total_size}
use fbs_interlock_gateway.Applog.Archive.Files.Sizes.{
  log_size, Unique, Listed, Listed-erase, Unique-erase, log_size-erase, list_log_files-Listed,
  total_size-list_log_files,
}
use fbs_interlock_gateway.Applog.Archive.Cleaning.{
  Eviction, Pass, within, skips, evicted, evict, CleanupFaults, Cleaned, before_cutoff, expire_step,
  expire, stuck, passed, finish, second_pass, make_room, after_expiry, cleanup,
}

-- The directory's log files take at most the limit.
abbrev pub Fits : ℤ → Directory → Type 0
Fits limit d = ltb_ℤ limit (pos (log_size d)) ≡ false

abbrev was_removed : Eviction → LogFile → Bool
was_removed e f = any (λ name. text_eq name f.name) e.removed

abbrev Accounted : Eviction → LogFile → Type 0
Accounted e f = (was_removed e f ≡ true) ⊎ Listed e.directory f

-- The total is the size of the files that are still there.
record IsExact (files : List LogFile) (e : Eviction) : Type 0 where
  unique : Unique e.directory
  exact : e.total ≡ log_size e.directory
  accounted : All (Accounted e) files

Accounted-evicted :
    (f : LogFile) (e : Eviction) (g : LogFile) → Accounted e g → Accounted (evicted f e) g
unfolding evicted
Accounted-evicted f e g a = elim (Bool-cases (text_eq f.name g.name)) [
  | inl same ↦ inl (rw same refl)
  | inr other ↦ elim a [
    | inl gone ↦ inl (rw (other, gone) refl)
    | inr there ↦ inr (Listed-erase f.name e.directory g other there)
  ]
]

evicted-IsExact :
    (files : List LogFile) (f : LogFile) (e : Eviction)
    → Listed e.directory f
    → IsExact files e
    → IsExact files (evicted f e)
unfolding evicted
evicted-IsExact files f e l x = record {
  unique = Unique-erase f.name e.directory x.unique;
  exact = omega (
    arith,
    x.exact,
    l.sized,
    log_size-erase f.name l.entry e.directory x.unique l.found l.is_log,
  );
  accounted = All-map (Accounted-evicted f e) files x.accounted;
}

skips-false :
    (keep : LogFile → Bool) (current : Text) (f : LogFile) (e : Eviction)
    → skips keep current f e ≡ false
    → was_removed e f ≡ false
unfolding skips
skips-false keep current f e h = ground (arith, h)

Accounted-there :
    (e : Eviction) (f : LogFile) → was_removed e f ≡ false → Accounted e f → Listed e.directory f
Accounted-there e f h (inl gone) = cc
Accounted-there e f h (inr there) = there

module _ (refuses : Text → Bool) (limit : ℤ) (keep : LogFile → Bool) (current : Text)
    (files : List LogFile) where
  -- What a pass leaves is exact; it ended by itself only when the rest fits.
  abbrev Ended : Pass × Eviction → Type 0
  Ended o = IsExact files o.1 × ((o.0 ≢ within) ⊎ (ltb_ℤ limit (pos o.1.total) ≡ false))

  evict-Ended :
      (fs : List LogFile) (e : Eviction)
      → All (Accounted e) fs
      → IsExact files e
      → Ended (evict refuses limit keep current fs e)
  unfolding evict
  evict-Ended [] e a x = (x, inl (λ h. cc))
  evict-Ended (f ∷ fs) e a x = elim (Bool-cases (ltb_ℤ limit (pos e.total))) [
    | inr small ↦ rw (small, evict) (x, inr small)
    | inl large ↦
        rw (large, evict)
          (elim (Bool-cases (skips keep current f e)) [
            | inl skip ↦ rw (skip, evict) (evict-Ended fs e a.1 x)
            | inr taken ↦
                rw (taken, evict)
                  (elim (Bool-cases (refuses f.name)) [
                    | inl no_way ↦ rw (no_way, evict) (x, inl (λ h. cc))
                    | inr gone ↦
                        rw (gone, evict)
                          (evict-Ended fs (evicted f e) (All-map (Accounted-evicted f e) fs a.1) (
                            evicted-IsExact files f e
                              (Accounted-there e f (skips-false keep current f e taken) a.0) x))
                  ])
          ])
  ]

  IsExact-Fits :
      (e : Eviction) → IsExact files e → ltb_ℤ limit (pos e.total) ≡ false → Fits limit e.directory
  IsExact-Fits e x small = subst (λ n. ltb_ℤ limit (pos n) ≡ false) x.exact small

  finish-Fits :
      (o : Pass × Eviction) → Ended o → (finish limit o).0 ≡ ok tt → Fits limit (finish limit o).1
  unfolding finish
  finish-Fits (within, e) (x, inl other) done = absurd (other refl)
  finish-Fits (within, e) (x, inr small) done = IsExact-Fits e x small
  finish-Fits (stuck name, e) (x, h) done = cc
  finish-Fits (passed, e) (x, h) done = elim (Bool-cases (ltb_ℤ limit (pos e.total))) [
    | inl large ↦ cc
    | inr small ↦ IsExact-Fits e x small
  ]

module _ (refuses : Text → Bool) (limit : ℤ) (old : LogFile → Bool) (current : Text)
    (files : List LogFile) where
  second_pass-Fits :
      (o : Pass × Eviction)
      → Ended refuses limit (λ f. not (old f)) current files o
      → (second_pass refuses limit old current files o).0 ≡ ok tt
      → Fits limit (second_pass refuses limit old current files o).1
  unfolding second_pass
  second_pass-Fits (within, e) (x, inl other) done = absurd (other refl)
  second_pass-Fits (within, e) (x, inr small) done =
      IsExact-Fits refuses limit old current files e x small
  second_pass-Fits (stuck name, e) (x, h) done = cc
  second_pass-Fits (passed, e) (x, h) done =
      finish-Fits refuses limit old current files (evict refuses limit old current files e)
        (evict-Ended refuses limit old current files files e x.accounted x) done

make_room-Fits :
    (refuses : Text → Bool) (limit : ℤ) (old : LogFile → Bool) (current : Text) (d : Directory)
    → Unique d
    → (make_room refuses limit old current (list_log_files d) d).0 ≡ ok tt
    → Fits limit (make_room refuses limit old current (list_log_files d) d).1
unfolding make_room
make_room-Fits refuses limit old current d u done =
    let files = list_log_files d in
    let start : Eviction = record { total = total_size files; removed = []; directory = d } in
    let x : IsExact files start = record {
      unique = u;
      exact = total_size-list_log_files d;
      accounted = All-map (λ f l. inr l) files (list_log_files-Listed d u);
    } in
    elim (Bool-cases (ltb_ℤ limit (pos (total_size files)))) [
      | inr small ↦ rw small (IsExact-Fits refuses limit old current files start x small)
      | inl large ↦ rw large (
          second_pass-Fits refuses limit old current files
            (evict refuses limit (λ f. not (old f)) current files start)
            (evict-Ended refuses limit (λ f. not (old f)) current files files start x.accounted x)
            (rw large at done))
    ]

pub expire-Unique :
    (refuses : Text → Bool) (expired : LogFile → Bool) (current : Text) (fs : List LogFile)
    (d : Directory)
    → Unique d
    → Unique (expire refuses expired current fs d).1
unfolding expire
expire-Unique refuses expired current [] d u = u
expire-Unique refuses expired current (f ∷ fs) d u =
    elim (Bool-cases (expire_step expired current f)) [
      | inr kept ↦ rw (kept, expire) (expire-Unique refuses expired current fs d u)
      | inl due ↦
          rw (due, expire)
            (elim (Bool-cases (refuses f.name)) [
              | inl no_way ↦ rw (no_way, expire) u
              | inr gone ↦
                  rw (gone, expire)
                    (expire-Unique refuses expired current fs (erase f.name d)
                      (Unique-erase f.name d u))
            ])
    ]

after_expiry-Fits :
    (faults : CleanupFaults) (o : Options) (current : Text) (now : ℕ) (c : Cleaned)
    → Unique c.1
    → (after_expiry faults o current now c).0 ≡ ok tt
    → Fits o.max_total_bytes (after_expiry faults o current now c).1
unfolding after_expiry
after_expiry-Fits faults o current now (err e, d) u done = cc
after_expiry-Fits faults o current now (ok _, d) u done = elim (Bool-cases faults.list_again) [
  | inl h ↦ cc
  | inr h ↦ rw h (
      make_room-Fits faults.remove o.max_total_bytes (before_cutoff o.preferred_min_age now) current
        d u (rw h at done))
]

-- After a clean-up that succeeds, the log files take at most the limit in total, whatever the
-- directory held, in any order of times and names.
pub cleanup-Fits :
    (faults : CleanupFaults) (o : Options) (current : Text) (now : ℕ) (d : Directory)
    → Unique d
    → (cleanup faults o current now d).0 ≡ ok tt
    → Fits o.max_total_bytes (cleanup faults o current now d).1
unfolding cleanup
cleanup-Fits faults o current now d u done = elim (Bool-cases faults.list) [
  | inl h ↦ cc
  | inr h ↦ simp h (
      after_expiry-Fits faults o current now _
        (expire-Unique faults.remove (before_cutoff o.max_age now) current (list_log_files d) d u)
        (rw h at done))
]
