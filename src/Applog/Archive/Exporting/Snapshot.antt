-- ===== src/Applog/Archive/Exporting/Snapshot.antt =====
-- `Export` of internal/applog/store.go while the archive is written.
use mathlib.Core.List.{append-nil, append_assoc}
use fbs_interlock_gateway.Prelude.{
  length, take, ok, err, ℕ, zero, suc, ◌≡◌, refl, sym, ap, ◌∙◌, ◌⊎◌, inl, inr, Bool, true, false,
  Option, none, some, List, [], ◌∷◌, ◌++◌, Bool-cases, All, subst, ◌&&◌,
}
use fbs_interlock_gateway.Applog.Archive.Files.Ordering.{IsListing, list_log_files-IsListing}
use fbs_interlock_gateway.Text.{Text, codes}
use fbs_interlock_gateway.Dict.{int_key, text_key, lookup}
use fbs_interlock_gateway.Applog.Archive.Files.{Entry, Directory, LogFile, list_log_files}
use fbs_interlock_gateway.Applog.Archive.Files.Sizes.{Unique, Listed}
use fbs_interlock_gateway.Applog.Archive.Writing.{Store}
use fbs_interlock_gateway.Applog.Archive.Exporting.{
  ExportError, Exported, title, sent, and_then, check_call, flush_failed, list_failed,
  destination_failed, cancelled, file_not_opened, file_not_copied, file_not_closed, Printer,
  ExportFaults, heading, export_file, export_files, export_listed, export_archive,
}

-- The output went as far as it did in a text, and all the way after a success.
abbrev pub IsCourse : Exported → Text → Type 0
IsCourse (result, out) full =
    (rest : Text) × (full ≡ out ++ rest)
    × (((e : ExportError) × (result ≡ err e)) ⊎ ((result ≡ ok tt) × (rest ≡ [])))

take-append-drop : (n : ℕ) (xs : Text) → (rest : Text) × (xs ≡ take n xs ++ rest)
take-append-drop zero xs = (xs, refl)
take-append-drop (suc n) [] = ([], refl)
take-append-drop (suc n) (x ∷ xs) =
    let (rest, e) = take-append-drop n xs in (rest, ap (λ l. x ∷ l) e)

take-length : (xs ys : Text) → take (length xs) (xs ++ ys) ≡ xs
take-length [] ys = refl
take-length (x ∷ xs) ys = ap (λ l. x ∷ l) (take-length xs ys)

sent-IsCourse :
    (o : Option ℕ) (e : ExportError) (content : Text) → IsCourse (sent o e content) content
unfolding sent
sent-IsCourse none e content = ([], sym (append-nil content), inr (refl, refl))
sent-IsCourse (some n) e content =
    let (rest, h) = take-append-drop n content in (rest, h, inl (e, refl))

check_call-IsCourse : (broken : Bool) (e : ExportError) → IsCourse (check_call broken e) []
unfolding check_call
check_call-IsCourse true e = ([], refl, inl (e, refl))
check_call-IsCourse false e = ([], refl, inr (refl, refl))

and_then-IsCourse :
    (m next : Exported) (a b : Text)
    → IsCourse m a
    → IsCourse next b
    → IsCourse (and_then m next) (a ++ b)
unfolding and_then
and_then-IsCourse (err e, out) next a b (rest, h, k) j =
    (rest ++ b, ap (λ l. l ++ b) h ∙ append_assoc out rest b, inl (e, refl))
and_then-IsCourse (ok _, out) next a b (rest, h, inl (e, k)) j = cc
and_then-IsCourse (ok _, out) next a b (rest, h, inr (_, none_left)) (rest', h', k') = (
  rest',
  ap (λ l. l ++ b) (h ∙ ap (λ l. out ++ l) none_left ∙ append-nil out)
      ∙ ap (λ l. out ++ l) h'
      ∙ sym (append_assoc out next.1 rest'),
  k',
)

-- A file's part in an export.
abbrev content_of : Option Entry → Text
content_of none = []
content_of (some e) = e.content

abbrev pub section_of : Directory → LogFile → Text
section_of d f = (codes "\n# --- " ++ f.name ++ codes " ---\n") ++ content_of (lookup f.name d)

abbrev pub sections : Directory → List LogFile → Text
sections d [] = []
sections d (f ∷ fs) = section_of d f ++ sections d fs

-- Since the snapshot, writers have only added to the files.
abbrev pub HasGrown : (Text → Text) → Text → Entry → Type 0
HasGrown reads name e = (more : Text) × (reads name ≡ e.content ++ more)

module _ (faults : ExportFaults) (reads : Text → Text) (d : Directory)
    (grown : (name : Text) (e : Entry) → lookup name d ≡ some e → HasGrown reads name e) where
  read_back : (f : LogFile) → Listed d f → take f.size (reads f.name) ≡ content_of (lookup f.name d)
  read_back f l =
      let (more, longer) = grown f.name l.entry l.found in
      rw (l.sized, longer, l.found) (take-length l.entry.content more)

  export_file-IsCourse :
      (f : LogFile) → Listed d f → IsCourse (export_file faults reads f) (section_of d f)
  unfolding export_file title
  export_file-IsCourse f l =
      let full : title f.name ++ (content_of (lookup f.name d) ++ []) ≡ section_of d f =
        rw append-nil refl in
      subst (λ t. IsCourse (export_file faults reads f) t) full
        (and_then-IsCourse _ _ [] _ (check_call-IsCourse (faults.cancelled f.name) cancelled) (
          and_then-IsCourse _ _ (title f.name) _
            (sent-IsCourse (faults.title f.name) destination_failed (title f.name))
            (and_then-IsCourse _ _ [] _
              (check_call-IsCourse (faults.open_file f.name) (file_not_opened f.name))
              (and_then-IsCourse _ _ (content_of (lookup f.name d)) []
                (subst
                  (λ t.
                    IsCourse
                      (sent (faults.copy f.name) (file_not_copied f.name)
                        (take f.size (reads f.name)))
                      t)
                  (read_back f l)
                  (sent-IsCourse (faults.copy f.name) (file_not_copied f.name)
                    (take f.size (reads f.name))))
                (check_call-IsCourse (faults.close_file f.name) (file_not_closed f.name))))))

  export_files-IsCourse :
      (fs : List LogFile)
      → All (Listed d) fs
      → IsCourse (export_files faults reads fs) (sections d fs)
  unfolding export_files
  export_files-IsCourse [] h = ([], refl, inr (refl, refl))
  export_files-IsCourse (f ∷ fs) h =
      and_then-IsCourse (export_file faults reads f) (export_files faults reads fs) (section_of d f)
        (sections d fs) (export_file-IsCourse f h.0) (export_files-IsCourse fs h.1)

-- An export gives the log files as they were at the snapshot: every log file of the directory once,
-- in an order in which their times do not fall, each under a title with its name, and no byte that is
-- added meanwhile. When it fails, what it has written is a beginning of that; it has written all of it
-- when it succeeds. The directory has every name once, and its files only grow.
pub export_archive-IsCourse :
    (print : Printer) (faults : ExportFaults) (now : ℕ) (reads : Text → Text) (s : Store)
    (d : Directory)
    → Unique d
    → ((name : Text) (e : Entry) → lookup name d ≡ some e → HasGrown reads name e)
    → (files : List LogFile) × IsListing d files
      × IsCourse
          (export_archive print faults now reads (s, d))
          (heading print now (length files) ++ sections d files)
unfolding export_archive export_listed
export_archive-IsCourse print faults now reads s d u grown =
    let files = list_log_files d in
    let listing = list_log_files-IsListing d u in
    elim (Bool-cases (s.is_open && faults.flush)) [
      | inl h ↦ (
        files,
        listing,
        simp h
            (heading print now (length files) ++ sections d files, refl, inl (flush_failed, refl)),
      )
      | inr h ↦ elim (Bool-cases faults.list) [
        | inl k ↦ (
          files,
          listing,
          simp (h, k)
              (heading print now (length files) ++ sections d files, refl, inl (list_failed, refl)),
        )
        | inr k ↦ (
          files,
          listing,
          simp (h, k)
              (and_then-IsCourse _ (export_files faults reads files)
                (heading print now (length files)) (sections d files)
                (sent-IsCourse faults.heading destination_failed (heading print now (length files)))
                (export_files-IsCourse faults reads d grown files listing.listed)),
        )
      ]
    ]
