-- ===== src/Applog/Archive/Exporting.antt =====
-- `Export` and `snapshots` of internal/applog/store.go. Writers may add to a file between the
-- snapshot and the reading, so what is read is an argument.
pub mod Snapshot
use fbs_interlock_gateway.Prelude.{
  if◌then◌else◌, length, take, Result, ok, err, fail_if, ℕ, Bool, false, ◌&&◌, Option, none, some,
  List, [], ◌∷◌, ◌++◌,
}
use fbs_interlock_gateway.Text.{Text, codes}
use fbs_interlock_gateway.Applog.Archive.Files.{LogFile, list_log_files}
use fbs_interlock_gateway.Applog.Archive.Writing.{Archive}

pub data ExportError : Type 0 where
  flush_failed list_failed destination_failed cancelled : ExportError
  file_not_opened file_not_copied file_not_closed : Text → ExportError

-- How packages time and fmt print the moment and a number.
pub record Printer : Type 0 where
  pub moment : ℕ → Text
  pub decimal : ℕ → Text

-- Which calls fail, by the file's name; of a failed write or copy, how many bytes went through.
pub record ExportFaults : Type 0 where
  pub flush : Bool
  pub list : Bool
  pub heading : Option ℕ
  pub cancelled : Text → Bool
  pub title : Text → Option ℕ
  pub open_file : Text → Bool
  pub copy : Text → Option ℕ
  pub close_file : Text → Bool

abbrev pub no_export_faults : ExportFaults
no_export_faults = record {
  flush = false;
  list = false;
  heading = none;
  cancelled = λ _. false;
  title = λ _. none;
  open_file = λ _. false;
  copy = λ _. none;
  close_file = λ _. false;
}

-- The result, and what the destination got.
abbrev pub Exported : Type 0
Exported = Result ExportError (Unit {0}) × Text

unfoldable pub heading : Printer → ℕ → ℕ → Text
heading print now count =
    codes "# application log export generated_utc="
    ++ (print.moment now ++ (codes " files=" ++ (print.decimal count ++ codes "\n")))

unfoldable pub title : Text → Text
title name = codes "\n# --- " ++ (name ++ codes " ---\n")

-- A write or a copy to the destination.
sent : Option ℕ → ExportError → Text → Exported
sent none e content = (ok tt, content)
sent (some n) e content = (err e, take n content)

-- What comes after an output, if that went through.
and_then : Exported → Exported → Exported
and_then (err e, out) next = (err e, out)
and_then (ok _, out) next = (next.0, out ++ next.1)

check_call : Bool → ExportError → Exported
check_call broken e = (fail_if broken e, [])

-- At most the size of the snapshot is read.
export_file : ExportFaults → (Text → Text) → LogFile → Exported
unfolding sent and_then check_call title
export_file faults reads f = and_then (check_call (faults.cancelled f.name) cancelled) (
    and_then (sent (faults.title f.name) destination_failed (title f.name)) (
      and_then (check_call (faults.open_file f.name) (file_not_opened f.name)) (
        and_then (sent (faults.copy f.name) (file_not_copied f.name) (take f.size (reads f.name)))
          (check_call (faults.close_file f.name) (file_not_closed f.name)))))

export_files : ExportFaults → (Text → Text) → List LogFile → Exported
unfolding export_file
export_files faults reads [] = (ok tt, [])
export_files faults reads (f ∷ fs) =
    and_then (export_file faults reads f) (export_files faults reads fs)

export_listed : Printer → ExportFaults → ℕ → (Text → Text) → List LogFile → Exported
unfolding export_files
export_listed print faults now reads files =
    and_then (sent faults.heading destination_failed (heading print now (length files)))
      (export_files faults reads files)

unfoldable pub export_archive : Printer → ExportFaults → ℕ → (Text → Text) → Archive → Exported
unfolding export_listed
export_archive print faults now reads (s, d) =
    if s.is_open && faults.flush
    then (err flush_failed, [])
    else if faults.list
    then (err list_failed, [])
    else export_listed print faults now reads (list_log_files d)
