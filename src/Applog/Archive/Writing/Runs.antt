-- ===== src/Applog/Archive/Writing/Runs.antt =====
-- An archive of internal/applog/store.go from `Open` on, through calls of `Write` and `Close`.
use fbs_interlock_gateway.Prelude.{
  Bool-cases, length, pos_part, Result, ok, err, ◌+◌, ◌≤◌, ◌≡◌, refl, inl, inr, false, ◌&&◌, arith,
  ltb, ℤ, pos, ltb_ℤ, ok-injective, ℕ, sym, subst, ◌⊎◌, Bool, not, ◌||◌, wrap_err, >>=-eq-ok,
  fail_if-eq-ok, Result-cases, wrap_err-eq-ok, ◌<◌, true, List, [], ◌∷◌,
}
use fbs_interlock_gateway.Text.{Text, is_empty, trim_space}
use fbs_interlock_gateway.Applog.Records.{
  Options, truncate_record, length-truncate_record, validate_options,
}
use fbs_interlock_gateway.Applog.Archive.Files.{Directory}
use fbs_interlock_gateway.Applog.Archive.Files.Sizes.{Unique, log_size}
use fbs_interlock_gateway.Applog.Archive.Cleaning.{ArchiveError, Cleaned, cleanup}
use fbs_interlock_gateway.Applog.Archive.Cleaning.Limits.{Fits, cleanup-Fits}
use fbs_interlock_gateway.Applog.Archive.Writing.{
  Store, Archive, Clock, RotateFaults, WriteFaults, create_log_file, rotated, rotate_locked,
  needs_rotation, write_rotated, write_log, close, OpenFaults, pruned, opened_with, new_store,
  OpenError, directory_required, bad_options, before_store, open_checked, open_archive,
}
use fbs_interlock_gateway.Applog.Archive.Cleaning.Unique.{cleanup-Unique}
use fbs_interlock_gateway.Applog.Archive.Writing.Invariant.{
  IsSound, Checked, IsFresh, create_log_file-IsFresh, rotated-IsSound, rotate_locked-IsSound,
  disable_writes_locked-IsSound, HasCurrent, validate_options-Checked,
}
use fbs_interlock_gateway.Applog.Archive.Writing.Bounds.{write_file-IsSound, Fits-le}

module _ (clock : Clock) (faults : WriteFaults) (p : Text) (now : ℕ) (o : Options) (k : Checked o)
    (short : length p ≤ pos_part o.max_file_bytes) where
  write_rotated-IsSound :
      (r : Result ArchiveError Text × ℕ) (s : Store) (d : Directory)
      → s.write_disabled ≡ false
      → s.closed ≡ false
      → IsFresh r.0 d
      → IsSound o (s, d)
      → IsSound o (write_rotated faults p now (rotated clock faults.rotate now r (s, d)))
  unfolding write_rotated rotated
  write_rotated-IsSound (err e, sequence) s d on live fresh i =
      disable_writes_locked-IsSound o _ d
        (rotated-IsSound clock faults.rotate now (err e, sequence) o (s, d) fresh i)
  write_rotated-IsSound (ok name, sequence) s d on live fresh i =
      let a = (rotated clock faults.rotate now (ok name, sequence) (s, d)).1 in
      let there : IsSound o a =
        rotated-IsSound clock faults.rotate now (ok name, sequence) o (s, d) fresh i in
      elim (Bool-cases (s.is_open && faults.rotate.close_old)) [
        | inl held ↦ simp held (disable_writes_locked-IsSound o a.0 a.1 there)
        | inr free ↦ simp free (
            write_file-IsSound faults p now faults.write o a.0 a.1 k on live (omega (arith, short))
              there)
      ]

no_overflow :
    (is_open other_day : Bool) (size n : ℕ) (limit : ℤ)
    → n ≤ pos_part limit
    → not is_open || other_day || (ltb 0 size && ltb_ℤ limit (pos (size + n))) ≡ false
    → size + n ≤ pos_part limit
no_overflow is_open other_day size n limit short h = ground (arith, short, h)

fits_without_rotation :
    (clock : Clock) (now : ℕ) (p : Text) (s : Store) (o : Options)
    → s.opts ≡ o
    → length p ≤ pos_part o.max_file_bytes
    → needs_rotation clock now p s ≡ false
    → s.current_size + length p ≤ pos_part o.max_file_bytes
unfolding needs_rotation
fits_without_rotation clock now p s o same short h =
    subst (λ (x : Options). s.current_size + length p ≤ pos_part x.max_file_bytes) same
      (no_overflow s.is_open _ s.current_size (length p) s.opts.max_file_bytes
        (subst (λ (x : Options). length p ≤ pos_part x.max_file_bytes) (sym same) short) h)

short_record :
    (p : Text) (o : Options)
    → Checked o
    → length (truncate_record p (pos_part o.max_record_bytes)) ≤ pos_part o.max_file_bytes
short_record p o k = elim (length-truncate_record p (pos_part o.max_record_bytes)) [
  | inl (fits, same) ↦ rw same (omega (arith, fits, k.room))
  | inr (_, cut) ↦ omega (arith, cut, k.room)
]

write_log-IsSound :
    (clock : Clock) (faults : WriteFaults) (p : Text) (now : ℕ) (o : Options) (a : Archive)
    → Checked o
    → IsSound o a
    → IsSound o (write_log clock faults p now a)
unfolding write_log rotate_locked
write_log-IsSound clock faults p now o (s, d) k i =
    elim (Bool-cases (s.closed || s.write_disabled)) [
      | inl off ↦ simp off i
      | inr on ↦
          let bytes = truncate_record p (pos_part s.opts.max_record_bytes) in
          let short : length bytes ≤ pos_part o.max_file_bytes =
            subst
              (λ (x : Options).
                length (truncate_record p (pos_part x.max_record_bytes))
                ≤ pos_part o.max_file_bytes)
              (sym i.same_opts) (short_record p o k) in
          elim (Bool-cases (needs_rotation clock now bytes s)) [
            | inl rotate ↦
                simp (on, rotate)
                  (write_rotated-IsSound clock faults bytes now o k short
                    (create_log_file clock faults.rotate.create now 1000 s.file_sequence d) s d
                    (ground (arith, on)) (ground (arith, on))
                    (create_log_file-IsFresh clock faults.rotate.create now 1000 s.file_sequence d)
                    i)
            | inr stay ↦
                simp (on, stay)
                  (write_file-IsSound faults bytes now faults.write o s d k (ground (arith, on))
                    (ground (arith, on))
                    (fits_without_rotation clock now bytes s o i.same_opts short stay) i)
          ]
    ]

close-IsSound : (o : Options) (a : Archive) → IsSound o a → IsSound o (close a)
unfolding close
close-IsSound o (s, d) i = elim (Bool-cases s.closed) [
  | inl h ↦ simp h i
  | inr h ↦ simp h (record {
    same_opts = i.same_opts;
    unique = i.unique;
    has_current = inl refl;
    current_bounded = i.current_bounded;
    limited = i.limited;
    collected = i.collected;
  })
]

-- A new store on a directory that was cleaned up.
new_store-IsSound :
    (o : Options) (d : Directory)
    → Checked o
    → Unique d
    → Fits o.max_total_bytes d
    → IsSound o (new_store o, d)
unfolding new_store
new_store-IsSound o d k u fits = record {
  same_opts = refl;
  unique = u;
  has_current = inl refl;
  current_bounded = omega arith;
  limited = inr (omega (arith, Fits-le o.max_total_bytes d fits));
  collected = k.often;
}

opened_with-IsSound :
    (o : Options) (r : Result ArchiveError (Unit {0})) (a : Archive) (s : Store)
    → IsSound o a
    → (opened_with (r, a)).0 ≡ ok s
    → IsSound o (s, (opened_with (r, a)).1)
unfolding opened_with
opened_with-IsSound o (ok _) a s i h = rw (sym (ok-injective h)) i
opened_with-IsSound o (err e) a s i h = cc

pruned-IsSound :
    (clock : Clock) (faults : OpenFaults) (o : Options) (now : ℕ) (c : Cleaned) (s : Store)
    → Checked o
    → Unique c.1
    → ((e : ArchiveError) × (c.0 ≡ err e)) ⊎ Fits o.max_total_bytes c.1
    → (pruned clock faults o now c).0 ≡ ok s
    → IsSound o (s, (pruned clock faults o now c).1)
unfolding pruned
pruned-IsSound clock faults o now (err e, d) s k u f h = cc
pruned-IsSound clock faults o now (ok _, d) s k u (inl (e, b)) h = cc
pruned-IsSound clock faults o now (ok _, d) s k u (inr fits) h =
    let first : RotateFaults = record { create = faults.create; close_old = false } in
    opened_with-IsSound o (rotate_locked clock first now (new_store o, d)).0
      (rotate_locked clock first now (new_store o, d)).1 s
      (rotate_locked-IsSound clock first now o (new_store o, d) (new_store-IsSound o d k u fits)) h

open_checked-IsSound :
    (clock : Clock) (faults : OpenFaults) (o : Options) (now : ℕ) (d : Directory)
    (r : Result OpenError (Unit {0})) (s : Store)
    → (r ≡ ok tt → Checked o)
    → Unique d
    → (open_checked clock faults o now d r).0 ≡ ok s
    → IsSound o (s, (open_checked clock faults o now d r).1)
unfolding open_checked
open_checked-IsSound clock faults o now d (err e) s k u h = cc
open_checked-IsSound clock faults o now d (ok _) s k u h =
    pruned-IsSound clock faults o now (cleanup faults.cleanup o [] now d) s (k refl)
      (cleanup-Unique faults.cleanup o [] now d u)
      (elim (Result-cases (cleanup faults.cleanup o [] now d).0) [
        | inl failed ↦ inl failed
        | inr (_, done) ↦ inr (cleanup-Fits faults.cleanup o [] now d u done)
      ])
      h

before_store-Checked :
    (faults : OpenFaults) (dir : Text) (o : Options) → before_store faults dir o ≡ ok tt → Checked o
unfolding before_store
before_store-Checked faults dir o h =
    let (_, h1) = fail_if-eq-ok (is_empty (trim_space dir)) directory_required _ h in
    let (_, valid, _) = >>=-eq-ok (wrap_err bad_options (validate_options o)) _ h1 in
    validate_options-Checked o (wrap_err-eq-ok bad_options (validate_options o) valid)

open_checked-passed :
    (clock : Clock) (faults : OpenFaults) (o : Options) (now : ℕ) (d : Directory)
    (r : Result OpenError (Unit {0})) {s : Store}
    → (open_checked clock faults o now d r).0 ≡ ok s
    → r ≡ ok tt
unfolding open_checked
open_checked-passed clock faults o now d (err e) h = cc
open_checked-passed clock faults o now d (ok _) h = refl

open_archive-IsSound :
    (clock : Clock) (faults : OpenFaults) (dir : Text) (o : Options) (now : ℕ) (d : Directory)
    (s : Store)
    → Unique d
    → (open_archive clock faults dir o now d).0 ≡ ok s
    → Checked o × IsSound o (s, (open_archive clock faults dir o now d).1)
unfolding open_archive
open_archive-IsSound clock faults dir o now d s u h = (
  before_store-Checked faults dir o
      (open_checked-passed clock faults o now d (before_store faults dir o) h),
  open_checked-IsSound clock faults o now d (before_store faults dir o) s
      (before_store-Checked faults dir o) u h,
)

pub data Op : Type 0 where
  writes : WriteFaults → Text → ℕ → Op
  closes : Op

unfoldable pub run_op : Clock → Op → Archive → Archive
run_op clock (writes faults p now) a = write_log clock faults p now a
run_op clock closes a = close a

unfoldable pub run_ops : Clock → List Op → Archive → Archive
unfolding run_op
run_ops clock [] a = a
run_ops clock (x ∷ xs) a = run_ops clock xs (run_op clock x a)

run_ops-IsSound :
    (clock : Clock) (o : Options) (ops : List Op) (a : Archive)
    → Checked o
    → IsSound o a
    → IsSound o (run_ops clock ops a)
unfolding run_ops
run_ops-IsSound clock o [] a k i = i
run_ops-IsSound clock o (writes faults p now ∷ xs) a k i =
    run_ops-IsSound clock o xs (write_log clock faults p now a) k
      (write_log-IsSound clock faults p now o a k i)
run_ops-IsSound clock o (closes ∷ xs) a k i =
    run_ops-IsSound clock o xs (close a) k (close-IsSound o a i)

-- Once an archive was opened, after any writes and closes, whichever calls fail: the current file is
-- in the directory with the size that the store has counted, unless none is open; that is at most
-- the limit for a file; and unless writes are disabled, the log files take together less than the
-- limit and what is written between two clean-ups.
pub run_ops_bounded :
    (clock : Clock) (faults : OpenFaults) (dir : Text) (o : Options) (now : ℕ) (d : Directory)
    (s : Store) (ops : List Op)
    → Unique d
    → (open_archive clock faults dir o now d).0 ≡ ok s
    → let a = run_ops clock ops (s, (open_archive clock faults dir o now d).1) in
      HasCurrent a
      × (a.0.current_size ≤ pos_part o.max_file_bytes)
      × ((a.0.write_disabled ≡ true)
          ⊎ (log_size a.1 < pos_part o.max_total_bytes + pos_part o.cleanup_every_bytes))
run_ops_bounded clock faults dir o now d s ops u h =
    let (k, start) = open_archive-IsSound clock faults dir o now d s u h in
    let i = run_ops-IsSound clock o ops (s, (open_archive clock faults dir o now d).1) k start in
    (
      i.has_current,
      i.current_bounded,
      elim i.limited [
        | inl off ↦ inl off
        | inr small ↦ inr (omega (arith, rw i.same_opts at small, i.collected))
      ],
    )
