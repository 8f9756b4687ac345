-- ===== src/Applog/Archive/Writing.antt =====
-- `Open`, `Write`, `Export` and `Close` of internal/applog/store.go, and what they call. The methods
-- on a nil store are left out.
pub mod Invariant
pub mod Bounds
pub mod Runs
use fbs_interlock_gateway.Prelude.{
  ltb, if◌then◌else◌, length, take, pos, pos_part, ltb_ℤ, Result, ok, err, ◌>>=◌, ◌>>◌, fail_if,
  wrap_err, ℕ, zero, suc, ◌+◌, ◌%◌, ◌^◌, Bool, true, false, not, ◌&&◌, ◌||◌, Option, none, some, [],
  ◌++◌,
}
use fbs_interlock_gateway.Text.{Text, codes, is_empty, text_eq, trim_space}
use fbs_interlock_gateway.Dict.{int_key, text_key, lookup, insert}
use fbs_interlock_gateway.Applog.Records.{Options, OptionsError, validate_options, truncate_record}
use fbs_interlock_gateway.Applog.Archive.Files.{Entry, Directory}
use fbs_interlock_gateway.Applog.Archive.Cleaning.{
  cleanup, ArchiveError, create_failed, close_failed, no_unique_name, CleanupFaults,
  no_cleanup_faults, Cleaned,
}

pub record Store : Type 0 where
  pub opts : Options
  pub is_open : Bool  -- file is not nil
  pub current : Text  -- the name in `currentPath`
  pub current_day : Text
  pub current_size : ℕ
  pub bytes_since_gc : ℕ
  pub file_sequence : ℕ
  pub closed : Bool
  pub write_disabled : Bool

abbrev pub Archive : Type 0
Archive = Store × Directory

-- How package time prints a moment, and fmt a sequence number; the process id as text.
pub record Clock : Type 0 where
  pub stamp : ℕ → Text
  pub day : ℕ → Text
  pub process : Text
  pub six_digits : ℕ → Text

pub record RotateFaults : Type 0 where
  pub create : Bool
  pub close_old : Bool

-- Which calls fail in a write; of a failed write to the file, how many bytes were written.
pub record WriteFaults : Type 0 where
  pub rotate : RotateFaults
  pub write : Option ℕ
  pub cleanup : CleanupFaults

abbrev pub no_rotate_faults : RotateFaults
no_rotate_faults = record { create = false; close_old = false }

abbrev pub no_write_faults : WriteFaults
no_write_faults = record { rotate = no_rotate_faults; write = none; cleanup = no_cleanup_faults }

unfoldable pub file_name : Clock → ℕ → ℕ → Text
file_name clock now sequence =
    codes "log-"
    ++ (clock.stamp now
        ++ (codes "-"
            ++ (clock.process ++ (codes "-" ++ (clock.six_digits sequence ++ codes ".log")))))

abbrev pub is_there : Option Entry → Bool
is_there none = false
is_there (some e) = true

abbrev pub has_file : Text → Directory → Bool
has_file name d = is_there (lookup name d)

-- The file sequence is a uint64. The number of attempts left counts down.
unfoldable pub create_log_file : Clock → Bool → ℕ → ℕ → ℕ → Directory → Result ArchiveError Text × ℕ
unfolding file_name
create_log_file clock fails now zero sequence d = (err no_unique_name, sequence)
create_log_file clock fails now (suc attempts) sequence d =
    let sequence' = (sequence + 1) % 2 ^ 64 in
    let again = create_log_file clock fails now attempts sequence' d in
    if has_file (file_name clock now sequence') d
    then again
    else if fails
    then (err create_failed, sequence')
    else (ok (file_name clock now sequence'), sequence')

-- The store goes over to the new file, and the old one is closed.
pub rotated :
    Clock
    → RotateFaults
    → ℕ
    → Result ArchiveError Text × ℕ
    → Archive
    → Result ArchiveError (Unit {0}) × Archive
rotated clock faults now (err e, sequence) (s, d) =
    (err e, (record s { file_sequence = sequence }, d))
rotated clock faults now (ok name, sequence) (s, d) = (
  if s.is_open && faults.close_old then err close_failed else ok tt,
  (
    record s {
      is_open = true;
      current = name;
      current_day = clock.day now;
      current_size = 0;
      file_sequence = sequence;
    },
    insert name (record { is_folder = false; content = []; mod_time = now }) d,
  ),
)

unfoldable pub rotate_locked :
    Clock → RotateFaults → ℕ → Archive → Result ArchiveError (Unit {0}) × Archive
unfolding create_log_file rotated
rotate_locked clock faults now (s, d) =
    rotated clock faults now (create_log_file clock faults.create now 1000 s.file_sequence d) (s, d)

unfoldable pub disable_writes_locked : Store → Store
disable_writes_locked s = record s { write_disabled = true; is_open = false }

unfoldable pub disable_writes : Store → Store
unfolding disable_writes_locked
disable_writes s = if s.write_disabled || s.closed then s else disable_writes_locked s

unfoldable pub needs_rotation : Clock → ℕ → Text → Store → Bool
needs_rotation clock now p s =
    not s.is_open
    || not (text_eq s.current_day (clock.day now))
    || (ltb 0 s.current_size && ltb_ℤ s.opts.max_file_bytes (pos (s.current_size + length p)))

-- The bytes are added to the current file; if that is gone, they are lost.
append_to : Option Entry → Text → Text → ℕ → Directory → Directory
append_to none name p now d = d
append_to (some e) name p now d =
    insert name (record e { content = e.content ++ p; mod_time = now }) d

append_file : Text → Text → ℕ → Directory → Directory
unfolding append_to
append_file name p now d = append_to (lookup name d) name p now d

cleaned : Store → Cleaned → Archive
cleaned s (ok _, d) = (s, d)
cleaned s (err e, d) = (disable_writes s, d)

-- What follows the write to the file.
after_write : WriteFaults → ℕ → Store → Directory → Archive
unfolding cleaned disable_writes
after_write faults now s d =
    if ltb_ℤ (pos s.bytes_since_gc) s.opts.cleanup_every_bytes
    then (s, d)
    else cleaned (record s { bytes_since_gc = 0 }) (cleanup faults.cleanup s.opts s.current now d)

pub write_file : WriteFaults → Text → ℕ → Option ℕ → Archive → Archive
unfolding append_file after_write disable_writes_locked
write_file faults p now (some part) (s, d) =
    (disable_writes_locked s, append_file s.current (take part p) now d)
write_file faults p now none (s, d) =
    after_write faults now
      (record s {
        current_size = s.current_size + length p;
        bytes_since_gc = s.bytes_since_gc + length p;
      })
      (append_file s.current p now d)

pub write_rotated : WriteFaults → Text → ℕ → Result ArchiveError (Unit {0}) × Archive → Archive
unfolding write_file
write_rotated faults p now (err e, (s, d)) = (disable_writes_locked s, d)
write_rotated faults p now (ok _, a) = write_file faults p now faults.write a

-- `Write`; it always reports the length of its argument and no error.
unfoldable pub write_log : Clock → WriteFaults → Text → ℕ → Archive → Archive
unfolding write_rotated needs_rotation
write_log clock faults p now (s, d) =
    let record_bytes = truncate_record p (pos_part s.opts.max_record_bytes) in
    if s.closed || s.write_disabled
    then (s, d)
    else if needs_rotation clock now record_bytes s
    then write_rotated faults record_bytes now (rotate_locked clock faults.rotate now (s, d))
    else write_file faults record_bytes now faults.write (s, d)

-- `Close`; the errors of the last flush are left out.
unfoldable pub close : Archive → Archive
close (s, d) = if s.closed then (s, d) else (record s { closed = true; is_open = false }, d)

pub data OpenError : Type 0 where
  directory_required directory_unresolved directory_failed permissions_failed : OpenError
  bad_options : OptionsError → OpenError
  not_pruned no_first_file : ArchiveError → OpenError

pub record OpenFaults : Type 0 where
  pub absolute : Bool
  pub make : Bool
  pub permissions : Bool
  pub cleanup : CleanupFaults
  pub create : Bool

abbrev pub no_open_faults : OpenFaults
no_open_faults = record {
  absolute = false;
  make = false;
  permissions = false;
  cleanup = no_cleanup_faults;
  create = false;
}

before_store : OpenFaults → Text → Options → Result OpenError (Unit {0})
before_store faults dir o = do
  fail_if (is_empty (trim_space dir)) directory_required
  wrap_err bad_options (validate_options o)
  fail_if faults.absolute directory_unresolved
  fail_if faults.make directory_failed
  fail_if faults.permissions permissions_failed

new_store : Options → Store
new_store o = record {
  opts = o;
  is_open = false;
  current = [];
  current_day = [];
  current_size = 0;
  bytes_since_gc = 0;
  file_sequence = 0;
  closed = false;
  write_disabled = false;
}

opened_with : Result ArchiveError (Unit {0}) × Archive → Result OpenError Store × Directory
opened_with (err e, (s, d)) = (err (no_first_file e), d)
opened_with (ok _, (s, d)) = (ok s, d)

pruned : Clock → OpenFaults → Options → ℕ → Cleaned → Result OpenError Store × Directory
unfolding opened_with new_store
pruned clock faults o now (err e, d) = (err (not_pruned e), d)
pruned clock faults o now (ok _, d) = opened_with (
    rotate_locked clock (record { create = faults.create; close_old = false }) now (new_store o, d))

open_checked :
    Clock
    → OpenFaults
    → Options
    → ℕ
    → Directory
    → Result OpenError (Unit {0})
    → Result OpenError Store × Directory
unfolding pruned
open_checked clock faults o now d (err e) = (err e, d)
open_checked clock faults o now d (ok _) =
    pruned clock faults o now (cleanup faults.cleanup o [] now d)

unfoldable pub open_archive :
    Clock → OpenFaults → Text → Options → ℕ → Directory → Result OpenError Store × Directory
unfolding open_checked before_store
open_archive clock faults dir o now d =
    open_checked clock faults o now d (before_store faults dir o)
