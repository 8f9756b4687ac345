-- ===== src/Applog/Archive/Writing/Invariant.antt =====
-- `Write` of internal/applog/store.go: the sizes of the current file and of the whole archive.
use fbs_interlock_gateway.Prelude.{
  Bool-cases, length, pos, pos_part, ltb_ℤ, Result, ok, err, fail_if-eq-ok, ℕ, zero, suc, ◌+◌, ◌%◌,
  ◌^◌, ◌≤◌, ◌<◌, ◌≡◌, refl, ◌∙◌, ◌⊎◌, inl, inr, Bool, true, false, not, Option, none, some, [],
  arith,
}
use fbs_interlock_gateway.Text.{Text}
use fbs_interlock_gateway.Text.Laws.{text_eq_refl}
use fbs_interlock_gateway.Dict.{int_key, text_key, lookup, lookup-insert}
use fbs_interlock_gateway.Applog.Records.{
  Options, max_age_not_positive, preferred_negative, preferred_exceeds_max, file_not_positive,
  total_not_positive, file_exceeds_total, record_not_positive, record_exceeds_file,
  cleanup_not_positive, validate_options,
}
use fbs_interlock_gateway.Applog.Archive.Files.{Entry, Directory}
use fbs_interlock_gateway.Applog.Archive.Files.Sizes.{log_size, Unique}
use fbs_interlock_gateway.Applog.Archive.Files.Growing.{Unique-insert, log_size-insert}
use fbs_interlock_gateway.Applog.Archive.Cleaning.{ArchiveError}
use fbs_interlock_gateway.Applog.Archive.Writing.{
  Store, Archive, Clock, RotateFaults, file_name, has_file, is_there, create_log_file, rotated,
  rotate_locked, disable_writes_locked,
}

-- The file that the store writes to, with the size that it has counted.
abbrev pub HasCurrent : Archive → Type 0
HasCurrent (s, d) =
    (s.is_open ≡ false)
    ⊎ ((e : Entry) × (lookup s.current d ≡ some e) × (length e.content ≡ s.current_size))

-- Up to the next clean-up the archive takes at most the limit and what was written since.
abbrev pub IsLimited : Archive → Type 0
IsLimited (s, d) =
    (s.write_disabled ≡ true) ⊎ (log_size d ≤ pos_part s.opts.max_total_bytes + s.bytes_since_gc)

pub record IsSound (o : Options) (a : Archive) : Type 0 where
  pub same_opts : a.0.opts ≡ o
  pub unique : Unique a.1
  pub has_current : HasCurrent a
  pub current_bounded : a.0.current_size ≤ pos_part o.max_file_bytes
  pub limited : IsLimited a
  pub collected : a.0.bytes_since_gc < pos_part o.cleanup_every_bytes

-- What the validation of the options gives.
pub record Checked (o : Options) : Type 0 where
  pub room : pos_part o.max_record_bytes ≤ pos_part o.max_file_bytes
  pub often : 0 < pos_part o.cleanup_every_bytes

pub validate_options-Checked : (o : Options) → validate_options o ≡ ok tt → Checked o
unfolding validate_options
validate_options-Checked o h =
    let (_, h1) = fail_if-eq-ok (not (ltb_ℤ (pos 0) o.max_age)) max_age_not_positive _ h in
    let (_, h2) = fail_if-eq-ok (ltb_ℤ o.preferred_min_age (pos 0)) preferred_negative _ h1 in
    let (_, h3) = fail_if-eq-ok (ltb_ℤ o.max_age o.preferred_min_age) preferred_exceeds_max _ h2 in
    let (file, h4) = fail_if-eq-ok (not (ltb_ℤ (pos 0) o.max_file_bytes)) file_not_positive _ h3 in
    let (_, h5) = fail_if-eq-ok (not (ltb_ℤ (pos 0) o.max_total_bytes)) total_not_positive _ h4 in
    let (_, h6) =
      fail_if-eq-ok (ltb_ℤ o.max_total_bytes o.max_file_bytes) file_exceeds_total _ h5 in
    let (least, h7) =
      fail_if-eq-ok (not (ltb_ℤ (pos 0) o.max_record_bytes)) record_not_positive _ h6 in
    let (room, h8) =
      fail_if-eq-ok (ltb_ℤ o.max_file_bytes o.max_record_bytes) record_exceeds_file _ h7 in
    let (often, _) =
      fail_if-eq-ok (not (ltb_ℤ (pos 0) o.cleanup_every_bytes)) cleanup_not_positive _ h8 in
    record { room = ground (arith, room, file, least); often = ground (arith, often) }

-- A new name is not in the directory.
abbrev pub IsFresh : Result ArchiveError Text → Directory → Type 0
IsFresh (err e) d = Unit
IsFresh (ok name) d = lookup name d ≡ none

has_file-false : (o : Option Entry) → is_there o ≡ false → o ≡ none
has_file-false none h = refl
has_file-false (some e) h = cc

pub create_log_file-IsFresh :
    (clock : Clock) (fails : Bool) (now attempts sequence : ℕ) (d : Directory)
    → IsFresh (create_log_file clock fails now attempts sequence d).0 d
unfolding create_log_file
create_log_file-IsFresh clock fails now zero sequence d = tt
create_log_file-IsFresh clock fails now (suc attempts) sequence d =
    let sequence' = (sequence + 1) % 2 ^ 64 in
    elim (Bool-cases (has_file (file_name clock now sequence') d)) [
      | inl taken ↦ rw taken (create_log_file-IsFresh clock fails now attempts sequence' d)
      | inr free ↦
          rw free
            (elim (Bool-cases fails) [ inl f ↦ rw f tt | inr f ↦ rw f (has_file-false _ free) ])
    ]

pub rotated-IsSound :
    (clock : Clock) (faults : RotateFaults) (now : ℕ) (r : Result ArchiveError Text × ℕ)
    (o : Options) (a : Archive)
    → IsFresh r.0 a.1
    → IsSound o a
    → IsSound o (rotated clock faults now r a).1
unfolding rotated
rotated-IsSound clock faults now (err e, sequence) o (s, d) fresh i = record {
  same_opts = i.same_opts;
  unique = i.unique;
  has_current = i.has_current;
  current_bounded = i.current_bounded;
  limited = i.limited;
  collected = i.collected;
}
rotated-IsSound clock faults now (ok name, sequence) o (s, d) fresh i =
    let new : Entry = record { is_folder = false; content = []; mod_time = now } in
    record {
      same_opts = i.same_opts;
      unique = Unique-insert name new d i.unique;
      has_current = inr (new, lookup-insert name name new d ∙ rw (text_eq_refl name) refl, refl);
      current_bounded = omega arith;
      limited = elim i.limited [
        | inl off ↦ inl off
        | inr small ↦ inr (omega (arith, small, log_size-insert name new 0 d (rw fresh refl)))
      ];
      collected = i.collected;
    }

pub rotate_locked-IsSound :
    (clock : Clock) (faults : RotateFaults) (now : ℕ) (o : Options) (a : Archive)
    → IsSound o a
    → IsSound o (rotate_locked clock faults now a).1
unfolding rotate_locked
rotate_locked-IsSound clock faults now o (s, d) i =
    rotated-IsSound clock faults now
      (create_log_file clock faults.create now 1000 s.file_sequence d) o (s, d)
      (create_log_file-IsFresh clock faults.create now 1000 s.file_sequence d) i

pub disable_writes_locked-IsSound :
    (o : Options) (s : Store) (d : Directory)
    → IsSound o (s, d)
    → IsSound o (disable_writes_locked s, d)
unfolding disable_writes_locked
disable_writes_locked-IsSound o s d i = record {
  same_opts = i.same_opts;
  unique = i.unique;
  has_current = inl refl;
  current_bounded = i.current_bounded;
  limited = inl refl;
  collected = i.collected;
}
