-- ===== src/Witnesses/Archives.antt =====
-- The archive of log files.
use fbs_interlock_gateway.Prelude.{
  List, length, pos, ok, ◌+◌, ◌≤◌, ◌<◌, ◌≡◌, refl, ap, ◌⊎◌, true, false, none, some, [], ◌∷◌, ◌++◌,
}
use fbs_interlock_gateway.Text.{
  Text, codes, is_space, trim_left, trim_right, trim_space, text_eq, has_prefix,
}
use fbs_interlock_gateway.Dict.{int_key, text_key, lookup, erase}
use fbs_interlock_gateway.Applog.Records.{Options, validate_options}
use fbs_interlock_gateway.Applog.Archive.Files.{
  LogFile, Entry, Directory, has_suffix, is_managed_log_name, is_log_file, log_files, text_lt,
  comes_before, sorted_files, list_log_files, total_size,
}
use fbs_interlock_gateway.Applog.Archive.Files.Sizes.{log_size, Unique}
use fbs_interlock_gateway.Applog.Archive.Files.Ordering.{IsListing}
use fbs_interlock_gateway.Applog.Archive.Cleaning.{
  CleanupFaults, no_cleanup_faults, before_cutoff, cleanup,
}
use fbs_interlock_gateway.Applog.Archive.Cleaning.Limits.{Fits, cleanup-Fits}
use fbs_interlock_gateway.Applog.Archive.Cleaning.Keeping.{KeptOrPruned, cleanup_keeps}
use fbs_interlock_gateway.Applog.Archive.Writing.{
  Store, Clock, no_write_faults, no_open_faults, file_name, create_log_file, rotate_locked,
  open_archive,
}
use fbs_interlock_gateway.Applog.Archive.Writing.Invariant.{HasCurrent}
use fbs_interlock_gateway.Applog.Archive.Writing.Runs.{writes, closes, run_ops, run_ops_bounded}
use fbs_interlock_gateway.Applog.Archive.Exporting.{
  Printer, no_export_faults, heading, export_archive,
}
use fbs_interlock_gateway.Applog.Archive.Exporting.Snapshot.{
  IsCourse, sections, HasGrown, export_archive-IsCourse,
}

abbrev small : Options
small = record {
  max_age = pos 100;
  preferred_min_age = pos 10;
  max_file_bytes = pos 4;
  max_total_bytes = pos 6;
  max_record_bytes = pos 3;
  cleanup_every_bytes = pos 5;
}

abbrev old_log : Entry
old_log = record { is_folder = false; content = codes "aaaa"; mod_time = 50 }

abbrev new_log : Entry
new_log = record { is_folder = false; content = codes "bbbb"; mod_time = 95 }

abbrev note : Entry
note = record { is_folder = false; content = codes "kept"; mod_time = 1 }

abbrev logs : Directory
logs = (codes "log-b.log", new_log) ∷ (codes "log-a.log", old_log) ∷ (codes "note", note) ∷ []

logs-Unique : Unique logs
unfolding text_eq
logs-Unique = ((refl, (refl, tt)), ((refl, tt), (tt, tt)))

abbrev clean : CleanupFaults
clean = no_cleanup_faults

-- The older file goes, and the other two stay.
older_log_gone :
    cleanup clean small (codes "log-b.log") 100 logs
    ≡ (ok tt, (codes "log-b.log", new_log) ∷ (codes "note", note) ∷ [])
unfolding cleanup list_log_files sorted_files log_files is_log_file is_managed_log_name has_suffix
    has_prefix text_eq before_cutoff total_size erase comes_before text_lt
older_log_gone = refl

cleanup-Fits_example : Fits (pos 6) (cleanup clean small (codes "log-b.log") 100 logs).1
cleanup-Fits_example =
    cleanup-Fits clean small (codes "log-b.log") 100 logs logs-Unique (ap (λ c. c.0) older_log_gone)

cleanup_keeps_example :
    KeptOrPruned
      (codes "log-b.log")
      logs
      (cleanup clean small (codes "log-b.log") 100 logs).1
      (codes "note")
cleanup_keeps_example =
    cleanup_keeps clean small (codes "log-b.log") 100 logs (codes "note") logs-Unique

abbrev clock : Clock
clock = record {
  stamp = λ t. codes "t";
  day = λ t. codes "d";
  process = codes "1";
  six_digits = λ n. n ∷ [];
}

abbrev first_store : Store
first_store = record {
  opts = small;
  is_open = true;
  current = file_name clock 100 1;
  current_day = codes "d";
  current_size = 0;
  bytes_since_gc = 0;
  file_sequence = 1;
  closed = false;
  write_disabled = false;
}

opens : (open_archive clock no_open_faults (codes "logs") small 100 logs).0 ≡ ok first_store
unfolding open_archive file_name cleanup list_log_files sorted_files log_files is_log_file
    is_managed_log_name has_suffix has_prefix text_eq before_cutoff total_size erase comes_before
    text_lt trim_space trim_left trim_right is_space validate_options rotate_locked create_log_file
    lookup
opens = refl

run_ops_bounded_example :
    let a =
      run_ops clock
        (writes no_write_faults (codes "abcd") 101
          ∷ writes no_write_faults (codes "x") 102
          ∷ closes
          ∷ [])
        (first_store, (open_archive clock no_open_faults (codes "logs") small 100 logs).1) in
    HasCurrent a × (a.0.current_size ≤ 4) × ((a.0.write_disabled ≡ true) ⊎ (log_size a.1 < 6 + 5))
run_ops_bounded_example =
    run_ops_bounded clock no_open_faults (codes "logs") small 100 logs first_store
      (writes no_write_faults (codes "abcd") 101
        ∷ writes no_write_faults (codes "x") 102
        ∷ closes
        ∷ [])
      logs-Unique opens

abbrev printer : Printer
printer = record { moment = λ t. codes "now"; decimal = λ n. n ∷ [] }

-- Since the snapshot a byte was added to every file.
abbrev reads : Text → Text
reads name = elim (lookup name logs) [ none ↦ [] | some e ↦ e.content ++ codes "+" ]

reads-HasGrown : (name : Text) (e : Entry) → lookup name logs ≡ some e → HasGrown reads name e
reads-HasGrown name e found = (codes "+", rw (found, reads) refl)

export_archive-IsCourse_example :
    (files : List LogFile) × IsListing logs files
    × IsCourse
        (export_archive printer no_export_faults 100 reads (first_store, logs))
        (heading printer 100 (length files) ++ sections logs files)
export_archive-IsCourse_example =
    export_archive-IsCourse printer no_export_faults 100 reads first_store logs logs-Unique
      reads-HasGrown
